-- ===== src/Client/Frames.antt =====
-- frontend/lib/lbt/liveTransport.ts, mapServerFrame: a frame as JSON.parse gives it, as an event.
-- `parse_date` is `Date.parse` where it gives a time; a time that the clocks' difference would
-- move below 0 is 0. An avatar is its place in AVATAR_IDS, whose list avatars.ts shares with the
-- server.
use focustown_public.Prelude.{
  ℕ, suc, ◌+◌, ◌-◌, Bool, Option, none, some, List, [], ◌∷◌, if◌then◌else◌, ltb, contains, ℕ_eq,
  Text, codes, text_beq, Json, str, num, other_num, property,
}
use focustown_public.Rules.Profile.{Preference, preference_of, Role, ai, companion, energies}
use focustown_public.Town.World.{
  Party, me, partner, EndReason, left, partner_left, reported, timeout, partner_disconnected,
  suspended_end,
}
use focustown_public.Server.Wire.{avatar_ids}
use focustown_public.Client.State.{
  PeerProfile, TownStatus, TransportEvent, waiting_event, companion_invite_event,
  companion_cleared_event, matched_event, message_event, typing_event, extend_requested_event,
  extended_event, ended_event, idle_event, error_event,
}

-- `typeof v === "string"`, `typeof v === "number"` and `typeof v === "boolean"`
unfoldable pub text_of : Json → Option Text
text_of (str t) = some t
text_of _ = none

unfoldable pub count_of : Json → Option ℕ
count_of (num n) = some n
count_of _ = none

unfoldable pub flag_of : Json → Option Bool
flag_of (Json.bool b) = some b
flag_of _ = none

-- `xs.indexOf(t)`, where it is there
unfoldable pub place_from : ℕ → Text → List Text → Option ℕ
place_from n t [] = none
place_from n t (x ∷ xs) = if text_beq x t then some n else place_from (suc n) t xs

unfoldable pub avatar_from : Option Text → Option ℕ
unfolding place_from
avatar_from none = none
avatar_from (some t) = place_from 0 t avatar_ids

unfoldable pub role_from : Option Text → Option Role
role_from none = none
role_from (some t) =
    if text_beq t (codes "companion")
    then some companion
    else if text_beq t (codes "admin")
    then some companion
    else if text_beq t (codes "ai")
    then some ai
    else none

unfoldable pub peer_of :
    Option Text → Option ℕ → Option Preference → Option Role → Option ℕ → Option PeerProfile
peer_of (some nickname) (some energy) (some preference) role avatar =
    if contains energies energy
    then some (record {
      nickname = nickname;
      energy = energy;
      preference = preference;
      role = role;
      avatar = avatar;
    })
    else none
peer_of _ _ _ role avatar = none

unfoldable pub preference_from : Option Text → Option Preference
preference_from none = none
preference_from (some t) = preference_of t

unfoldable pub to_profile : Json → Option PeerProfile
unfolding text_of count_of avatar_from role_from peer_of preference_from property
to_profile raw =
    peer_of (text_of (property (codes "nickname") raw)) (count_of (property (codes "energy") raw))
      (preference_from (text_of (property (codes "preference") raw)))
      (role_from (text_of (property (codes "role") raw)))
      (avatar_from (text_of (property (codes "avatar") raw)))

unfoldable pub party_from : Option Text → Option Party
party_from none = none
party_from (some t) =
    if text_beq t (codes "me")
    then some me
    else if text_beq t (codes "partner")
    then some partner
    else none

-- END_REASONS
unfoldable pub end_from : Option Text → Option EndReason
end_from none = none
end_from (some t) =
    if text_beq t (codes "left")
    then some left
    else if text_beq t (codes "partner_left")
    then some partner_left
    else if text_beq t (codes "timeout")
    then some timeout
    else if text_beq t (codes "partner_disconnected")
    then some partner_disconnected
    else if text_beq t (codes "reported")
    then some reported
    else if text_beq t (codes "suspended")
    then some suspended_end
    else none

unfoldable pub invite_event : ℕ → Option Text → Option ℕ → Option Text → Option TransportEvent
invite_event now (some id) (some expires_at) nickname =
    if ltb now expires_at then some (companion_invite_event id expires_at nickname) else none
invite_event now _ _ nickname = none

unfoldable pub cleared_event : Option Text → Option TransportEvent
cleared_event none = none
cleared_event (some id) = some (companion_cleared_event id)

-- `typeof v === "number" ? v : 60`
unfoldable pub grace_of : Json → Json
grace_of (num n) = num n
grace_of other_num = other_num
grace_of _ = num 60

unfoldable pub match_event :
    Option PeerProfile → Option PeerProfile → Option ℕ → Json → Option TransportEvent
match_event (some mine) (some other) (some ends_at) grace =
    some (matched_event mine other Bool.false ends_at grace)
match_event _ _ _ grace = none

unfoldable pub line_event : Option Text → Option Text → Option Party → Option TransportEvent
line_event (some id) (some text) (some from) = some (message_event id from (some text) none)
line_event _ _ _ = none

unfoldable pub request_event : Option Party → Option TransportEvent
request_event none = none
request_event (some by) = some (extend_requested_event by)

unfoldable pub prolonged_event : Option ℕ → Option TransportEvent
prolonged_event none = none
prolonged_event (some t) = some (extended_event t)

unfoldable pub over_event : Option EndReason → Option TransportEvent
over_event none = none
over_event (some reason) = some (ended_event reason)

unfoldable pub code_event : Option Text → TransportEvent
code_event none = error_event (codes "generic")
code_event (some code) = error_event code

module _ (parse_date : Text → Option ℕ) where
  unfoldable pub shifted : ℕ → Option ℕ → Option ℕ → Option ℕ
  shifted now (some ends) (some server) = some (now + ends - server)
  shifted now _ _ = none

  unfoldable pub date_of : Json → Option ℕ
  date_of (str t) = parse_date t
  date_of _ = none

  unfoldable pub to_local : Json → Json → ℕ → Option ℕ
  unfolding shifted date_of
  to_local ends_at server_now now = shifted now (date_of ends_at) (date_of server_now)

  unfoldable pub typed_event : Json → ℕ → Text → Option TransportEvent
  unfolding to_local invite_event cleared_event match_event line_event request_event prolonged_event
      over_event code_event grace_of to_profile party_from end_from text_of property
  typed_event f now type =
      let server_now = property (codes "server_now") f in
      let ends_at = to_local (property (codes "ends_at") f) server_now now in
      let id = text_of (property (codes "id") f) in
      if text_beq type (codes "lbt.waiting")
      then some (waiting_event (to_local (property (codes "jojo_available_at") f) server_now now))
      else if text_beq type (codes "lbt.companion_invite")
      then invite_event now id (to_local (property (codes "expires_at") f) server_now now)
          (text_of (property (codes "nickname") f))
      else if text_beq type (codes "lbt.companion_cleared")
      then cleared_event id
      else if text_beq type (codes "lbt.matched")
      then match_event (to_profile (property (codes "me") f))
          (to_profile (property (codes "partner") f)) ends_at
          (grace_of (property (codes "grace_seconds") f))
      else if text_beq type (codes "lbt.message")
      then line_event id (text_of (property (codes "text") f))
          (party_from (text_of (property (codes "from") f)))
      else if text_beq type (codes "lbt.typing")
      then some typing_event
      else if text_beq type (codes "lbt.extend_requested")
      then request_event (party_from (text_of (property (codes "by") f)))
      else if text_beq type (codes "lbt.extended")
      then prolonged_event ends_at
      else if text_beq type (codes "lbt.ended")
      then over_event (end_from (text_of (property (codes "reason") f)))
      else if text_beq type (codes "lbt.idle")
      then some idle_event
      else if text_beq type (codes "lbt.error")
      then some (code_event (text_of (property (codes "code") f)))
      else none

  unfoldable pub map_server_frame : Json → ℕ → Option TransportEvent
  unfolding typed_event text_of property
  map_server_frame f now = elim (text_of (property (codes "type") f)) [
    | none ↦ none
    | some type ↦ typed_event f now type
  ]

unfoldable pub status_of : Option ℕ → Option ℕ → Option Bool → Option Text → Option TownStatus
status_of (some online) (some waiting) (some is_open) hours = some (record {
  online = online;
  waiting = waiting;
  is_open = is_open;
  hours = elim hours [ none ↦ [] | some t ↦ t ];
})
status_of _ _ _ hours = none

-- A number that is no natural number is not read.
unfoldable pub to_status : Json → Option TownStatus
unfolding status_of text_of count_of flag_of property
to_status raw =
    status_of (count_of (property (codes "online") raw)) (count_of (property (codes "waiting") raw))
      (flag_of (property (codes "open") raw)) (text_of (property (codes "hours") raw))
