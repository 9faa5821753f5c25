-- ===== src/Client/Phases.antt =====
-- The store of sessionStore.ts as a machine of four phases: which screen there is, with whom and
-- until when the visitor talks, and whether a conversation has ended since they walked in. What is
-- not a phase (lines, notices, timers, invitations, the transport) is forgotten.
use focustown_public.Client.Screens.{IsConsistent-step}
use focustown_public.Client.Consistent.{IsConsistent, initial-IsConsistent}
use focustown_public.Prelude.{
  ℕ, ◌≡◌, refl, Bool, false, not, ◌&&◌, Option, none, some, is_some, List, [], ◌∷◌, arith,
  if◌then◌else◌, Text, contains, Text_eq, subst,
}
use focustown_public.Town.World.{EndReason, me, partner, left}
use focustown_public.Client.State.{
  Client, is_chat, is_waiting, is_end, home_view, waiting_view, chat_view, end_view, PeerProfile,
}
use focustown_public.Client.Handle.{
  hear_connection, hear_invite, hear_cleared, hear_waiting, hear_typing, hear_error, hear_ended,
  hear_message, hear_idle, say_line, hear_matched, hear_extend_requested, hear_extended,
  handle_event, begin_chat, prolong, is_blank, is_shut,
}
use focustown_public.Client.Clock.{
  ask, tick_clock, clear_typing, expire_invitation, to_end, send_home, start_clock,
}
use focustown_public.Client.Actions.{
  attach, detach, set_adult, start_waiting, cancel_waiting, give_answer, answer_invitation,
  ask_jojo, go_home, leave_chat, try_send, notify_typing, ask_extension, start_report,
  settle_report, draw_topic, reset,
}
use focustown_public.Client.Run.{
  Input, heard, ticked, typing_due, invitation_due, attached, detached, energy_set, preference_set,
  adult_set, town_set, walked_in, again_called, cancelled, jojo_called, went_home, left_chat, typed,
  extension_called, answered_invitation, draft_sent, report_started, report_settled, topic_drawn,
  topic_dismissed, sky_topic_cleared, modal_closed, notice_dismissed, was_reset, sky_topic_taken,
  modal_opened, step, AllOffered, play,
}
use focustown_public.Client.State.{
  initial_client, TransportEvent, connection_event, waiting_event, companion_invite_event,
  companion_cleared_event, matched_event, message_event, typing_event, extend_requested_event,
  extended_event, ended_event, idle_event, error_event,
}

-- `out` and `queued` say whether a conversation has ended; `over` says why, if that is known.
pub data Phase : Type 0 where
  out queued : Bool → Phase
  talking : Option PeerProfile → Option ℕ → Phase
  over : Option EndReason → Phase

pub phase_of : Client → Phase
phase_of s = elim s.view [
  | home_view ↦ out (is_some s.end_reason)
  | waiting_view ↦ queued (is_some s.end_reason)
  | chat_view ↦ talking s.partner s.ends_at
  | end_view ↦ over s.end_reason
]

after_match : PeerProfile → ℕ → Phase → Phase
after_match other t (out false) = talking (some other) (some t)
after_match other t (queued false) = talking (some other) (some t)
after_match other t (talking p e) = talking (some other) (some t)
after_match other t q = q

after_waiting : Phase → Phase
after_waiting (out b) = queued b
after_waiting (queued b) = queued b
after_waiting (over r) = queued (is_some r)
after_waiting (talking p e) = talking p e

after_ended : EndReason → Phase → Phase
after_ended reason (talking p e) = over (some reason)
after_ended reason (queued b) = over (some reason)
after_ended reason q = q

-- With whether the place in the queue can be asked for again.
after_idle : Bool → Phase → Phase
after_idle may (talking p e) = over none
after_idle may (queued b) = if may then queued b else out b
after_idle may q = q

after_error : Bool → Phase → Phase
after_error home (queued b) = if home then out b else queued b
after_error home q = q

after_extended : ℕ → Phase → Phase
after_extended t (talking p e) = talking p (some t)
after_extended t q = q

going_home : Phase → Phase
going_home (out b) = out b
going_home (queued b) = out b
going_home (talking p e) = out false
going_home (over r) = out (is_some r)

leaving : Phase → Phase
leaving (talking p e) = over (some left)
leaving q = q

-- What an input does to the phase. `may` is whether a place in the queue can be asked for.
pub next : Bool → Input → Phase → Phase
unfolding after_match after_waiting after_ended after_idle after_error after_extended going_home
    leaving
next may (heard (matched_event mine other simulated t grace)) p = after_match other t p
next may (heard (waiting_event t)) p = after_waiting p
next may (heard (ended_event reason)) p = after_ended reason p
next may (heard idle_event) p = after_idle may p
next may (heard (error_event code)) p = after_error (contains send_home code) p
next may (heard (extended_event t)) p = after_extended t p
next may (walked_in nickname) p = if may then queued false else p
next may again_called p = if may then queued false else p
next may cancelled p = going_home p
next may went_home p = going_home p
next may left_chat p = leaving p
next may was_reset p = out false
next may _ p = p

-- The machine's runs: it may find, at each input, that a place can be asked for or that it cannot.
pub data Follows : List (ℕ × Input) → Phase → Phase → Type 0 where
  at_end : {p : Phase} → Follows [] p p
  onward :
      {now : ℕ} {i : Input} {is : List (ℕ × Input)} {p q : Phase} (may : Bool)
      → Follows is (next may i p) q
      → Follows ((now, i) ∷ is) p q

may_queue : Input → Client → Bool
may_queue (heard idle_event) s = not (is_blank s.nickname) && s.adult && not (is_shut s.town)
may_queue _ s = s.adult && not (is_shut s.town)

module _ (print : ℕ → Text) (now : ℕ) (s : Client) (v : IsConsistent s) where
  handle_event-next :
      (e : TransportEvent)
      → phase_of (handle_event print now e s) ≡ next (may_queue (heard e) s) (heard e) (phase_of s)
  unfolding handle_event next may_queue phase_of is_chat is_waiting is_end
  handle_event-next (connection_event c) = unfold hear_connection in ground arith
  handle_event-next (waiting_event t) = unfold hear_waiting in ground arith
  handle_event-next (companion_invite_event id t name) = unfold hear_invite in ground arith
  handle_event-next (companion_cleared_event id) = unfold hear_cleared in ground arith
  handle_event-next typing_event = unfold hear_typing in ground arith
  handle_event-next (ended_event reason) = unfold hear_ended to_end in ground arith
  handle_event-next idle_event = unfold hear_idle to_end ask in ground arith
  handle_event-next (error_event code) = unfold hear_error in ground arith
  handle_event-next (matched_event mine other simulated t grace) =
      unfold hear_matched begin_chat say_line start_clock in ground arith
  handle_event-next (message_event id from text ref) = unfold hear_message in ground arith
  handle_event-next (extend_requested_event me) =
      unfold hear_extend_requested say_line in ground arith
  handle_event-next (extend_requested_event partner) =
      unfold hear_extend_requested say_line in ground arith
  handle_event-next (extended_event t) = unfold hear_extended prolong say_line in ground arith

  step-next : (i : Input) → phase_of (step print now i s) ≡ next (may_queue i s) i (phase_of s)
  unfolding step next may_queue phase_of is_chat is_waiting
  step-next (heard e) = handle_event-next e
  step-next ticked = unfold tick_clock in ground (arith, v.in_chat)
  step-next typing_due = unfold clear_typing in ground (arith, v.in_chat)
  step-next invitation_due = unfold expire_invitation in ground (arith, v.in_chat)
  step-next (detached t) = unfold detach in ground (arith, v.in_chat)
  step-next (walked_in nickname) = unfold start_waiting ask in ground (arith, v.in_chat)
  step-next again_called = unfold start_waiting ask in ground (arith, v.in_chat)
  step-next cancelled = unfold cancel_waiting ask in ground (arith, v.in_chat)
  step-next jojo_called = unfold ask_jojo ask in ground (arith, v.in_chat)
  step-next went_home = unfold go_home ask in ground (arith, v.in_chat)
  step-next left_chat = unfold leave_chat to_end ask in ground (arith, v.in_chat)
  step-next typed = unfold notify_typing ask in ground (arith, v.in_chat)
  step-next extension_called = unfold ask_extension ask in ground (arith, v.in_chat)
  step-next (answered_invitation accept) =
      unfold answer_invitation give_answer ask in ground (arith, v.in_chat)
  step-next (draft_sent raw) = unfold try_send ask in ground (arith, v.in_chat)
  step-next (report_started reason note) = unfold start_report ask in ground (arith, v.in_chat)
  step-next (report_settled failed) = unfold settle_report in ground (arith, v.in_chat)
  step-next was_reset = unfold reset in ground (arith, v.in_chat)
  step-next (attached t) = unfold attach in refl
  step-next (energy_set energy) = refl
  step-next (preference_set preference) = refl
  step-next (adult_set adult) = unfold set_adult in refl
  step-next (town_set town) = refl
  step-next topic_drawn = unfold draw_topic in refl
  step-next topic_dismissed = refl
  step-next sky_topic_cleared = refl
  step-next modal_closed = refl
  step-next notice_dismissed = refl
  step-next (sky_topic_taken word) = refl
  step-next (modal_opened modal) = refl

play_from-Follows :
    (print : ℕ → Text) (is : List (ℕ × Input)) (s : Client)
    → IsConsistent s
    → AllOffered print is s
    → Follows is (phase_of s) (phase_of (play print is s))
unfolding play
play_from-Follows print [] s v h = at_end
play_from-Follows print ((now, i) ∷ is) s v h = onward (may_queue i s) (
    subst (λ p. Follows is p (phase_of (play print is (step print now i s))))
      (step-next print now s v i)
      (play_from-Follows print is (step print now i s) (IsConsistent-step s v print now i h.0) h.1))

-- The store refines the machine of four phases: whatever the inputs are, as long as walking in and
-- giving up waiting are done outside a chat, the phase of a new store goes through the steps of
-- the machine for these inputs.
pub play-Follows :
    (print : ℕ → Text) (is : List (ℕ × Input))
    → AllOffered print is initial_client
    → Follows is (phase_of initial_client) (phase_of (play print is initial_client))
play-Follows print is h = play_from-Follows print is initial_client initial-IsConsistent h
