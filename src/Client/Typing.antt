-- ===== src/Client/Typing.antt =====
-- sessionStore.ts, notifyTyping: how often the partner is told that the visitor types.
use focustown_public.Prelude.{
  ℕ, ◌≡◌, Bool, true, false, not, ◌||◌, is_some, List, [], ◌∷◌, arith, if◌then◌else◌, Text,
  Bool-cases, inl, inr, Text_eq, subst, All, ◌+◌, ltb, ◌≤◌, ◌-◌, sym,
}
use focustown_public.Town.World.{me, partner}
use focustown_public.Client.State.{typing_intent}
use focustown_public.Client.State.{Client, is_chat, Intent, typing_throttle_ms}
use focustown_public.Client.Handle.{
  hear_connection, hear_invite, hear_cleared, hear_waiting, hear_typing, hear_error, hear_ended,
  hear_message, hear_idle, say_line, hear_matched, hear_extend_requested, hear_extended,
  handle_event, begin_chat, prolong,
}
use focustown_public.Client.Clock.{
  ask, tick_clock, clear_typing, expire_invitation, to_end, start_clock,
}
use focustown_public.Client.Actions.{
  attach, detach, set_adult, start_waiting, cancel_waiting, give_answer, answer_invitation,
  ask_jojo, go_home, leave_chat, try_send, notify_typing, ask_extension, start_report,
  settle_report, draw_topic,
}
use focustown_public.Client.Run.{
  Input, heard, ticked, typing_due, invitation_due, attached, detached, energy_set, preference_set,
  adult_set, town_set, walked_in, again_called, cancelled, jojo_called, went_home, left_chat, typed,
  extension_called, answered_invitation, draft_sent, report_started, report_settled, topic_drawn,
  topic_dismissed, sky_topic_cleared, modal_closed, notice_dismissed, was_reset, sky_topic_taken,
  modal_opened, step, play,
}
use focustown_public.Client.State.{
  initial_client, TransportEvent, connection_event, waiting_event, companion_invite_event,
  companion_cleared_event, matched_event, message_event, typing_event, extend_requested_event,
  extended_event, ended_event, idle_event, error_event,
}

unfoldable is_typing : Intent → Bool
is_typing typing_intent = true
is_typing _ = false

-- When the partner was told that the visitor types, newest first.
unfoldable pub typing_times : List (ℕ × Intent) → List ℕ
unfolding is_typing
typing_times [] = []
typing_times ((t, i) ∷ is) = if is_typing i then t ∷ typing_times is else typing_times is

-- Each time is at least the throttle after all the earlier ones.
abbrev pub IsSpaced : List ℕ → Type 0
IsSpaced [] = Unit {0}
IsSpaced (t ∷ ts) = All (λ u. u + typing_throttle_ms ≤ t) ts × IsSpaced ts

-- Inputs other than reset.
abbrev pub IsNoReset : Input → Type 0
IsNoReset was_reset = ⊥
IsNoReset _ = Unit {0}

abbrev pub NeverReset : List (ℕ × Input) → Type 0
NeverReset [] = Unit {0}
NeverReset ((now, i) ∷ is) = IsNoReset i × NeverReset is

IsThrottled : Client → Type 0
unfolding typing_times
IsThrottled s =
    IsSpaced (typing_times s.asked) × All (λ u. u ≤ s.last_typing_sent) (typing_times s.asked)

abbrev Passes : Client → Client → Type 0
Passes s t =
    (typing_times t.asked ≡ typing_times s.asked) × (t.last_typing_sent ≡ s.last_typing_sent)

IsThrottled-Passes : (s t : Client) → IsThrottled s → Passes s t → IsThrottled t
unfolding IsThrottled
IsThrottled-Passes s t v (e, q) =
    subst (λ n. IsSpaced (typing_times t.asked) × All (λ u. u ≤ n) (typing_times t.asked)) (sym q)
      (subst (λ ts. IsSpaced ts × All (λ u. u ≤ s.last_typing_sent) ts) (sym e) v)

All-below :
    (n t : ℕ) (ts : List ℕ)
    → n + typing_throttle_ms ≤ t
    → All (λ u. u ≤ n) ts
    → All (λ u. u + typing_throttle_ms ≤ t) ts × All (λ u. u ≤ t) ts
All-below n t [] h a = (tt, tt)
All-below n t (u ∷ ts) h a =
    let r = All-below n t ts h a.1 in ((omega (arith, a.0), r.0), (omega (arith, a.0), r.1))

IsThrottled-notify_typing :
    (now : ℕ) (s : Client) → IsThrottled s → IsThrottled (notify_typing now s)
unfolding notify_typing ask IsThrottled typing_times is_typing
IsThrottled-notify_typing now s v =
    elim (Bool-cases (not (is_chat s.view) || ltb (now - s.last_typing_sent) typing_throttle_ms)) [
      | inl e ↦ rw e v
      | inr f ↦ rw f (elim (Bool-cases (is_some s.transport)) [
        | inr n ↦ rw n (
          v.0,
          (All-below s.last_typing_sent now (typing_times s.asked) (ground (arith, f)) v.1).1,
        )
        | inl y ↦ rw y (
            let r =
              All-below s.last_typing_sent now (typing_times s.asked) (ground (arith, f)) v.1 in
            ((r.0, v.0), (omega arith, r.1)))
      ])
    ]

module _ (print : ℕ → Text) (now : ℕ) (s : Client) (v : IsThrottled s) where
  IsThrottled-handle_event : (e : TransportEvent) → IsThrottled (handle_event print now e s)
  unfolding handle_event
  IsThrottled-handle_event (connection_event c) =
      IsThrottled-Passes s (hear_connection c s) v (unfold hear_connection in ground arith)
  IsThrottled-handle_event (waiting_event t) =
      IsThrottled-Passes s (hear_waiting now t s) v (unfold hear_waiting in ground arith)
  IsThrottled-handle_event (companion_invite_event id t name) =
      IsThrottled-Passes s (hear_invite now id t name s) v (unfold hear_invite in ground arith)
  IsThrottled-handle_event (companion_cleared_event id) =
      IsThrottled-Passes s (hear_cleared id s) v (unfold hear_cleared in ground arith)
  IsThrottled-handle_event typing_event =
      IsThrottled-Passes s (hear_typing now s) v (unfold hear_typing in ground arith)
  IsThrottled-handle_event (ended_event reason) =
      IsThrottled-Passes s (hear_ended reason s) v (unfold hear_ended to_end in ground arith)
  IsThrottled-handle_event idle_event =
      IsThrottled-Passes s (hear_idle now s) v
        (unfold hear_idle to_end ask typing_times is_typing in ground arith)
  IsThrottled-handle_event (error_event code) =
      IsThrottled-Passes s (hear_error code s) v (unfold hear_error in ground arith)
  IsThrottled-handle_event (matched_event mine other simulated t grace) =
      IsThrottled-Passes s (hear_matched print now mine other simulated t s) v
        (unfold hear_matched begin_chat say_line start_clock in ground arith)
  IsThrottled-handle_event (message_event id from text ref) =
      IsThrottled-Passes s (hear_message id from text ref s) v (unfold hear_message in ground arith)
  IsThrottled-handle_event (extend_requested_event me) =
      IsThrottled-Passes s (hear_extend_requested print me s) v
        (unfold hear_extend_requested say_line in ground arith)
  IsThrottled-handle_event (extend_requested_event partner) =
      IsThrottled-Passes s (hear_extend_requested print partner s) v
        (unfold hear_extend_requested say_line in ground arith)
  IsThrottled-handle_event (extended_event t) =
      IsThrottled-Passes s (hear_extended print now t s) v
        (unfold hear_extended prolong say_line in ground arith)

  IsThrottled-step : (i : Input) → IsNoReset i → IsThrottled (step print now i s)
  unfolding step
  IsThrottled-step (heard e) h = IsThrottled-handle_event e
  IsThrottled-step was_reset h = absurd h
  IsThrottled-step typed h = IsThrottled-notify_typing now s v
  IsThrottled-step ticked h =
      IsThrottled-Passes s (tick_clock now s) v (unfold tick_clock in ground arith)
  IsThrottled-step typing_due h =
      IsThrottled-Passes s (clear_typing now s) v (unfold clear_typing in ground arith)
  IsThrottled-step invitation_due h =
      IsThrottled-Passes s (expire_invitation now s) v (unfold expire_invitation in ground arith)
  IsThrottled-step (detached t) h =
      IsThrottled-Passes s (detach t s) v (unfold detach in ground arith)
  IsThrottled-step (walked_in nickname) h =
      IsThrottled-Passes s (start_waiting now nickname s) v
        (unfold start_waiting ask typing_times is_typing in ground arith)
  IsThrottled-step again_called h =
      IsThrottled-Passes s (start_waiting now s.nickname s) v
        (unfold start_waiting ask typing_times is_typing in ground arith)
  IsThrottled-step cancelled h =
      IsThrottled-Passes s (cancel_waiting now s) v
        (unfold cancel_waiting ask typing_times is_typing in ground arith)
  IsThrottled-step jojo_called h =
      IsThrottled-Passes s (ask_jojo now s) v
        (unfold ask_jojo ask typing_times is_typing in ground arith)
  IsThrottled-step went_home h =
      IsThrottled-Passes s (go_home now s) v
        (unfold go_home ask typing_times is_typing in ground arith)
  IsThrottled-step left_chat h =
      IsThrottled-Passes s (leave_chat now s) v
        (unfold leave_chat to_end ask typing_times is_typing in ground arith)
  IsThrottled-step extension_called h =
      IsThrottled-Passes s (ask_extension now s) v
        (unfold ask_extension ask typing_times is_typing in ground arith)
  IsThrottled-step (answered_invitation accept) h =
      IsThrottled-Passes s (answer_invitation now accept s) v
        (unfold answer_invitation give_answer ask typing_times is_typing in ground arith)
  IsThrottled-step (draft_sent raw) h =
      IsThrottled-Passes s ((try_send now raw s).1) v
        (unfold try_send ask typing_times is_typing in ground arith)
  IsThrottled-step (report_started reason note) h =
      IsThrottled-Passes s ((start_report now reason note s).1) v
        (unfold start_report ask typing_times is_typing in ground arith)
  IsThrottled-step (report_settled failed) h =
      IsThrottled-Passes s (settle_report failed s) v (unfold settle_report in ground arith)
  IsThrottled-step (attached t) h = unfold attach IsThrottled in v
  IsThrottled-step (energy_set energy) h = unfold IsThrottled in v
  IsThrottled-step (preference_set preference) h = unfold IsThrottled in v
  IsThrottled-step (adult_set adult) h = unfold set_adult IsThrottled in v
  IsThrottled-step (town_set town) h = unfold IsThrottled in v
  IsThrottled-step topic_drawn h = unfold draw_topic IsThrottled in v
  IsThrottled-step topic_dismissed h = unfold IsThrottled in v
  IsThrottled-step sky_topic_cleared h = unfold IsThrottled in v
  IsThrottled-step modal_closed h = unfold IsThrottled in v
  IsThrottled-step notice_dismissed h = unfold IsThrottled in v
  IsThrottled-step (sky_topic_taken word) h = unfold IsThrottled in v
  IsThrottled-step (modal_opened modal) h = unfold IsThrottled in v

play-IsThrottled :
    (print : ℕ → Text) (is : List (ℕ × Input)) (s : Client)
    → IsThrottled s
    → NeverReset is
    → IsThrottled (play print is s)
unfolding play
play-IsThrottled print [] s v h = v
play-IsThrottled print ((now, i) ∷ is) s v h =
    play-IsThrottled print is (step print now i s) (IsThrottled-step print now s v i h.0) h.1

-- From a new store, and as long as it is not reset: after any inputs at any times, the partner has
-- been told that the visitor types at times that are at least three seconds apart.
pub play-IsSpaced :
    (print : ℕ → Text) (is : List (ℕ × Input))
    → NeverReset is
    → IsSpaced (typing_times (play print is initial_client).asked)
unfolding IsThrottled
play-IsSpaced print is h =
    (play-IsThrottled print is initial_client (unfold typing_times in (tt, tt)) h).0
