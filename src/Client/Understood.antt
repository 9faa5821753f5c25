-- ===== src/Client/Understood.antt =====
-- The frames that the server of edge/src/town.ts sends, as the visitor's page reads them.
use focustown_public.Prelude.{
  ℕ, zero, suc, ◌+◌, ◌-◌, ◌<◌, ◌≡◌, refl, arith, Bool, true, Option, none, some, if◌then◌else◌, ltb,
  contains, ℕ_eq, Text, codes, text_beq, str, num, obj, no_fields, property, field,
}
use focustown_public.Rules.Profile.{
  Profile, Preference, preference_of, casual, listen, story, Role, admin, ai, companion, energies,
}
use focustown_public.Avatars.{avatar_count}
use focustown_public.Town.World.{
  Frame, error, matched, message, extend_requested, waiting, companion_invite, companion_pending,
  companion_cleared, idle, typing, extended, ended, Party, me, partner, Side, EndReason, left,
  partner_left, reported, timeout, partner_disconnected, suspended_end,
}
use focustown_public.Server.Wire.{
  avatar_ids, avatar_json, role_json, preference_text, role_text, profile_fields, side_json,
  end_text, party_text, code_text, typed_frame, timing_fields, jojo_fields, frame_json, error_json,
  matched_json, message_json, request_json, waiting_json, invite_json, pending_json, cleared_json,
  extended_json, ended_json,
}
use focustown_public.Client.State.{
  PeerProfile, TransportEvent, waiting_event, companion_invite_event, companion_cleared_event,
  matched_event, message_event, typing_event, extend_requested_event, extended_event, ended_event,
  idle_event, error_event,
}
use focustown_public.Client.Frames.{
  text_of, count_of, place_from, avatar_from, role_from, peer_of, preference_from, to_profile,
  party_from, end_from, invite_event, cleared_event, grace_of, match_event, line_event,
  request_event, prolonged_event, over_event, code_event, shifted, date_of, to_local, typed_event,
  map_server_frame,
}

-- The page knows the operator and the AI by their roles, and no other.
role_for : Option Role → Option Role
role_for none = none
role_for (some admin) = some companion
role_for (some ai) = some ai
role_for (some companion) = some companion

peer_for : Side → PeerProfile
peer_for s = record {
  nickname = s.profile.nickname;
  energy = s.profile.energy;
  preference = s.profile.preference;
  role = role_for s.profile.role;
  avatar = some s.avatar;
}

-- The page hears every frame but `lbt.companion_pending`, which is for the operator, and an
-- invitation that has expired. Times are moved to the page's clock.
pub event_for : (ℕ → Text) → ℕ → Frame → Option TransportEvent
event_for id_text now (error c) = some (error_event (code_text c))
event_for id_text now (matched id mine other t) = some (
    matched_event (peer_for mine) (peer_for other) Bool.false (now + t.ends_at - t.server_now)
      (num t.grace_seconds))
event_for id_text now (message id from text at) =
    some (message_event (id_text id) from (some text) none)
event_for id_text now (extend_requested by) = some (extend_requested_event by)
event_for id_text now (waiting since none) = some (waiting_event none)
event_for id_text now (waiting since (some (available_at, server_now))) =
    some (waiting_event (some (now + available_at - server_now)))
event_for id_text now (companion_invite id nickname expires_at server_now) =
    if ltb now (now + expires_at - server_now)
    then some (companion_invite_event (id_text id) (now + expires_at - server_now) (some nickname))
    else none
event_for id_text now (companion_pending id profile nickname) = none
event_for id_text now (companion_cleared id reason) = some (companion_cleared_event (id_text id))
event_for id_text now idle = some idle_event
event_for id_text now typing = some typing_event
event_for id_text now (extended t) = some (extended_event (now + t.ends_at - t.server_now))
event_for id_text now (ended reason) = some (ended_event reason)

-- A side with an energy and an avatar of the lists.
abbrev pub IsShown : Side → Type 0
IsShown s = (contains energies s.profile.energy ≡ true) × (s.avatar < avatar_count)

abbrev pub IsRendered : Frame → Type 0
IsRendered (matched id mine other t) = IsShown mine × IsShown other
IsRendered _ = Unit {0}

-- An avatar goes out under its name, which stands at its place.
avatar_json_lem :
    (n : ℕ)
    → n < avatar_count
    → (t : Text) × (avatar_json n avatar_ids no_fields ≡ field (codes "avatar") (str t) no_fields)
      × (place_from 0 t avatar_ids ≡ some n)
unfolding avatar_json text_beq place_from
avatar_json_lem zero h = (codes "headphones", refl, refl)
avatar_json_lem (suc zero) h = (codes "blanket", refl, refl)
avatar_json_lem (suc (suc zero)) h = (codes "coffee", refl, refl)
avatar_json_lem (suc (suc (suc zero))) h = (codes "beanie", refl, refl)
avatar_json_lem (suc (suc (suc (suc zero)))) h = (codes "glasses", refl, refl)
avatar_json_lem (suc (suc (suc (suc (suc zero))))) h = (codes "scarf", refl, refl)
avatar_json_lem (suc (suc (suc (suc (suc (suc zero)))))) h = (codes "umbrella", refl, refl)
avatar_json_lem (suc (suc (suc (suc (suc (suc (suc zero))))))) h = (codes "cathood", refl, refl)
avatar_json_lem (suc (suc (suc (suc (suc (suc (suc (suc zero)))))))) h =
    (codes "flower", refl, refl)
avatar_json_lem (suc (suc (suc (suc (suc (suc (suc (suc (suc zero))))))))) h =
    (codes "plug", refl, refl)
avatar_json_lem (suc (suc (suc (suc (suc (suc (suc (suc (suc (suc n)))))))))) h =
    absurd (omega (arith, h))

preference_of-text : (p : Preference) → preference_of (preference_text p) ≡ some p
unfolding preference_of preference_text text_beq
preference_of-text casual = refl
preference_of-text listen = refl
preference_of-text story = refl

to_profile-fields :
    (p : Profile) (role : Option Role) (n : ℕ) (t : Text)
    → contains energies p.energy ≡ true
    → place_from 0 t avatar_ids ≡ some n
    → to_profile
        (obj (profile_fields (record p { role = role }) (field (codes "avatar") (str t) no_fields)))
      ≡ some (peer_for (record { profile = record p { role = role }; avatar = n }))
unfolding to_profile profile_fields text_of count_of preference_from property text_beq peer_for
    role_for role_json role_text role_from avatar_from peer_of
to_profile-fields p none n t e a = rw (a, preference_of-text p.preference, e) refl
to_profile-fields p (some admin) n t e a = rw (a, preference_of-text p.preference, e) refl
to_profile-fields p (some ai) n t e a = rw (a, preference_of-text p.preference, e) refl
to_profile-fields p (some companion) n t e a = rw (a, preference_of-text p.preference, e) refl

to_profile-side_json : (s : Side) → IsShown s → to_profile (side_json s) ≡ some (peer_for s)
unfolding side_json
to_profile-side_json s (e, a) =
    let (t, at, place) = avatar_json_lem s.avatar a in
    rw at (to_profile-fields s.profile s.profile.role s.avatar t e place)

party_from-text : (by : Party) → party_from (some (party_text by)) ≡ some by
unfolding party_from party_text text_beq
party_from-text me = refl
party_from-text partner = refl

end_from-text : (r : EndReason) → end_from (some (end_text r)) ≡ some r
unfolding end_from end_text text_beq
end_from-text left = refl
end_from-text partner_left = refl
end_from-text reported = refl
end_from-text timeout = refl
end_from-text partner_disconnected = refl
end_from-text suspended_end = refl

module _ (iso : ℕ → Text) (id_text : ℕ → Text) (parse_date : Text → Option ℕ)
    (parsed : (t : ℕ) → parse_date (iso t) ≡ some t) where
  map_server_frame-frame_json :
      (f : Frame) (now : ℕ)
      → IsRendered f
      → map_server_frame parse_date (frame_json iso id_text f) now ≡ event_for id_text now f
  unfolding map_server_frame frame_json error_json matched_json message_json request_json
      waiting_json invite_json pending_json cleared_json extended_json ended_json typed_frame
      timing_fields jojo_fields typed_event text_of property text_beq to_local shifted date_of
      invite_event cleared_event grace_of match_event line_event request_event prolonged_event
      over_event code_event event_for
  map_server_frame-frame_json (error c) now h = refl
  map_server_frame-frame_json (matched id mine other t) now h =
      rw
        (
          parsed t.ends_at,
          parsed t.server_now,
          to_profile-side_json mine h.0,
          to_profile-side_json other h.1,
        )
        refl
  map_server_frame-frame_json (message id from text at) now h = rw (party_from-text from) refl
  map_server_frame-frame_json (extend_requested by) now h = rw (party_from-text by) refl
  map_server_frame-frame_json (waiting since none) now h = refl
  map_server_frame-frame_json (waiting since (some (available_at, server_now))) now h =
      rw (parsed available_at, parsed server_now) refl
  map_server_frame-frame_json (companion_invite id nickname expires_at server_now) now h =
      rw (parsed expires_at, parsed server_now) refl
  map_server_frame-frame_json (companion_pending id profile nickname) now h = refl
  map_server_frame-frame_json (companion_cleared id reason) now h = refl
  map_server_frame-frame_json idle now h = refl
  map_server_frame-frame_json typing now h = refl
  map_server_frame-frame_json (extended t) now h = rw (parsed t.ends_at, parsed t.server_now) refl
  map_server_frame-frame_json (ended reason) now h = rw (end_from-text reason) refl

-- Where Date.parse undoes toISOString: each frame that the server sends (the profiles of a match
-- with an energy and an avatar of the lists) is read by the page as the event that it is about,
-- with times moved by the difference of the clocks. The page passes over `lbt.companion_pending`
-- and an invitation that is over.
pub frame-understood :
    (iso id_text : ℕ → Text) (parse_date : Text → Option ℕ)
    → ((t : ℕ) → parse_date (iso t) ≡ some t)
    → (f : Frame) (now : ℕ) → IsRendered f
    → map_server_frame parse_date (frame_json iso id_text f) now ≡ event_for id_text now f
frame-understood iso id_text parse_date parsed f now h =
    map_server_frame-frame_json iso id_text parse_date parsed f now h
