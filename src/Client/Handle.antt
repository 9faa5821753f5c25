-- ===== src/Client/Handle.antt =====
-- sessionStore.ts, `handle`: what the store does with an event of its transport, at the time that
-- the page's clock shows; `startClock`, `toEnd`, and what the timers do when they are due.
use focustown_public.Prelude.{
  ℕ, suc, ◌+◌, ◌-◌, Bool, true, false, not, ◌&&◌, ◌||◌, Option, none, some, is_some, List, [], ◌∷◌,
  ◌++◌, or_default, any, leb, if◌then◌else◌, contains, Text, codes, text_beq, Text_eq,
}
use focustown_public.Town.World.{EndReason, Party, me, partner}
use focustown_public.Client.State.{
  Client, TransportEvent, connection_event, waiting_event, companion_invite_event,
  companion_cleared_event, matched_event, message_event, typing_event, extend_requested_event,
  extended_event, ended_event, idle_event, error_event, Connection, ChatLine, system_line, my_line,
  partner_line, line_id, SystemCode, met, energy_shown, extend_asked, extend_partner_asked,
  extend_accepted, home_view, waiting_view, chat_view, is_waiting, is_chat, is_end, is_offline,
  is_time_up, join_intent, PeerProfile, PartnerRef, partner_typing_clear_ms, system_id, TownStatus,
  Invitation,
}
use focustown_public.Client.Clock.{send_home, ask, start_clock, to_end}

-- `event.nickname ? { nickname } : {}`
unfoldable pub given_name : Option Text → Option Text
given_name (some (c ∷ cs)) = some (c ∷ cs)
given_name _ = none

unfoldable pub has_id : Text → Option Invitation → Bool
has_id id none = false
has_id id (some i) = text_beq i.id id

-- `town && !town.open`
unfoldable pub is_shut : Option TownStatus → Bool
is_shut none = false
is_shut (some t) = not t.is_open

unfoldable pub is_blank : Text → Bool
is_blank [] = true
is_blank (c ∷ cs) = false

unfoldable pub has_line : Text → List ChatLine → Bool
has_line id lines = any (λ l. text_beq (line_id l) id) lines

unfoldable pub from_partner : Party → Bool
from_partner me = false
from_partner partner = true

unfoldable pub line_of : Text → Party → Option Text → Option PartnerRef → ChatLine
line_of id me text ref = my_line id (or_default text [])
line_of id partner text ref = partner_line id text ref

unfoldable pub hear_connection : Connection → Client → Client
unfolding is_offline
hear_connection c s =
    if is_offline c
    then record s {
      connection = c;
      companion_invitation = none;
      companion_answering = false;
      jojo_starting = false;
      jojo_reply_pending = false;
    }
    else record s { connection = c }

unfoldable pub hear_invite : ℕ → Text → ℕ → Option Text → Client → Client
unfolding is_waiting given_name
hear_invite now id expires_at nickname s =
    if is_waiting s.view
    then record s {
      companion_invitation =
          some (record { nickname = given_name nickname; id = id; expires_at = expires_at });
      companion_answering = false;
      invite_expiry = some (now + (expires_at - now));
    }
    else s

unfoldable pub hear_cleared : Text → Client → Client
unfolding has_id
hear_cleared id s =
    if has_id id s.companion_invitation
    then record s { companion_invitation = none; companion_answering = false; invite_expiry = none }
    else s

unfoldable pub hear_waiting : ℕ → Option ℕ → Client → Client
unfolding is_chat
hear_waiting now jojo_available_at s = if is_chat s.view then s else record s {
  view = waiting_view;
  waiting_since = some (or_default s.waiting_since now);
  jojo_available_at = jojo_available_at;
  jojo_starting = false;
}

unfoldable pub hear_typing : ℕ → Client → Client
unfolding is_chat
hear_typing now s =
    if is_chat s.view
    then record s { partner_typing = true; typing_clear = some (now + partner_typing_clear_ms) }
    else s

unfoldable pub hear_error : Text → Client → Client
unfolding is_waiting
hear_error code s =
    let t = record s {
      notice = some code;
      companion_answering = false;
      jojo_starting = false;
      jojo_reply_pending = false;
    } in
    if is_waiting s.view && contains send_home code
    then record t { view = home_view; waiting_since = none }
    else t

unfoldable pub hear_ended : EndReason → Client → Client
unfolding is_chat is_waiting to_end
hear_ended reason s = if is_chat s.view || is_waiting s.view then to_end (some reason) s else s

unfoldable pub hear_message : Text → Party → Option Text → Option PartnerRef → Client → Client
unfolding is_chat has_line from_partner line_of
hear_message id from text ref s =
    if not (is_chat s.view) || has_line id s.lines then s else record s {
      lines = s.lines ++ line_of id from text ref ∷ [];
      partner_typing = if from_partner from then false else s.partner_typing;
      jojo_reply_pending = if from_partner from then false else s.jojo_reply_pending;
      typing_clear = if from_partner from then none else s.typing_clear;
    }

-- The server has no session for us: a chat is over, and a lost place in the queue is asked for
-- again, if that can be.
unfoldable pub hear_idle : ℕ → Client → Client
unfolding is_chat is_waiting is_blank is_shut to_end ask
hear_idle now s =
    if is_chat s.view
    then to_end none s
    else if is_waiting s.view
    then if not (is_blank s.nickname) && s.adult && not (is_shut s.town)
      then ask now
          (join_intent (record {
            nickname = s.nickname;
            energy = s.energy;
            preference = s.preference;
            adult = s.adult;
          }))
          s
      else record s {
        view = home_view;
        waiting_since = none;
        companion_invitation = none;
        notice = some (codes "wait_interrupted");
      }
    else s

-- What `matched` sets before the two first lines.
unfoldable pub begin_chat : ℕ → PeerProfile → PeerProfile → Bool → ℕ → Client → Client
unfolding is_blank
begin_chat now mine other simulated ends_at s = record s {
  invite_expiry = none;
  companion_invitation = none;
  companion_answering = false;
  view = chat_view;
  jojo_available_at = none;
  jojo_starting = false;
  jojo_reply_pending = false;
  partner = some other;
  self_avatar = mine.avatar;
  simulated = simulated;
  nickname = if is_blank mine.nickname then s.nickname else mine.nickname;
  ends_at = some ends_at;
  lines = [];
  partner_typing = false;
  extend_mine = false;
  extend_partner = false;
  topic_id = none;
  modal = none;
  end_reason = none;
  notice = none;
  time_up_shown = leb ends_at now;
  waiting_since = none;
}

-- What `extended` sets before its line.
unfoldable pub prolong : ℕ → ℕ → Client → Client
unfolding is_time_up
prolong now ends_at s = record s {
  ends_at = some ends_at;
  now = now;
  extend_mine = false;
  extend_partner = false;
  time_up_shown = false;
  modal = if is_time_up s.modal then none else s.modal;
}

module _ (print : ℕ → Text) where
  -- A line of the system's own, at the end.
  unfoldable pub say_line : SystemCode → Client → Client
  unfolding system_id
  say_line code s =
      let seq = suc s.system_seq in
      record s { system_seq = seq; lines = s.lines ++ system_line (system_id print seq) code ∷ [] }

  unfoldable pub hear_matched : ℕ → PeerProfile → PeerProfile → Bool → ℕ → Client → Client
  unfolding is_end start_clock say_line begin_chat
  hear_matched now mine other simulated ends_at s =
      if is_end s.view || is_some s.end_reason
      then s
      else start_clock now
          (say_line energy_shown (say_line met (begin_chat now mine other simulated ends_at s)))

  unfoldable pub hear_extend_requested : Party → Client → Client
  unfolding is_chat say_line
  hear_extend_requested me s =
      if not (is_chat s.view) || s.extend_mine
      then s
      else say_line extend_asked (record s { extend_mine = true })
  hear_extend_requested partner s =
      if not (is_chat s.view) || s.extend_partner
      then s
      else say_line extend_partner_asked (record s { extend_partner = true })

  unfoldable pub hear_extended : ℕ → ℕ → Client → Client
  unfolding is_chat prolong say_line
  hear_extended now ends_at s =
      if is_chat s.view then say_line extend_accepted (prolong now ends_at s) else s

  unfoldable pub handle_event : ℕ → TransportEvent → Client → Client
  handle_event now (connection_event c) s = hear_connection c s
  handle_event now (waiting_event t) s = hear_waiting now t s
  handle_event now (companion_invite_event id t nickname) s = hear_invite now id t nickname s
  handle_event now (companion_cleared_event id) s = hear_cleared id s
  handle_event now (matched_event mine other simulated t grace) s =
      hear_matched now mine other simulated t s
  handle_event now (message_event id from text ref) s = hear_message id from text ref s
  handle_event now typing_event s = hear_typing now s
  handle_event now (extend_requested_event by) s = hear_extend_requested by s
  handle_event now (extended_event t) s = hear_extended now t s
  handle_event now (ended_event reason) s = hear_ended reason s
  handle_event now idle_event s = hear_idle now s
  handle_event now (error_event code) s = hear_error code s
