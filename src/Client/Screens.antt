-- ===== src/Client/Screens.antt =====
-- sessionStore.ts: which data there is in which view, after any inputs.
use focustown_public.Prelude.{ℕ, ◌≡◌, Bool, false, List, [], ◌∷◌, arith, Text, Text_eq}
use focustown_public.Town.World.{ReportReason}
use focustown_public.Client.State.{Client, is_chat, is_waiting, Transport}
use focustown_public.Client.Clock.{ask, to_end}
use focustown_public.Client.Actions.{
  attach, detach, set_adult, start_waiting, cancel_waiting, give_answer, answer_invitation,
  ask_jojo, go_home, leave_chat, try_send, notify_typing, ask_extension, start_report,
  settle_report, draw_topic, reset,
}
use focustown_public.Client.Run.{
  Input, heard, ticked, typing_due, invitation_due, attached, detached, energy_set, preference_set,
  adult_set, town_set, walked_in, again_called, cancelled, jojo_called, went_home, left_chat, typed,
  extension_called, answered_invitation, draft_sent, report_started, report_settled, topic_drawn,
  topic_dismissed, sky_topic_cleared, modal_closed, notice_dismissed, was_reset, sky_topic_taken,
  modal_opened, IsOffered, step, AllOffered, play,
}
use focustown_public.Client.State.{initial_client}
use focustown_public.Client.Consistent.{
  IsConsistent, initial-IsConsistent, IsConsistent-handle_event, IsConsistent-tick_clock,
  IsConsistent-clear_typing, IsConsistent-expire_invitation,
}

module _ (s : Client) (v : IsConsistent s) where
  IsConsistent-start_waiting :
      (now : ℕ) (name : Text) → is_chat s.view ≡ false → IsConsistent (start_waiting now name s)
  unfolding start_waiting ask is_chat is_waiting
  IsConsistent-start_waiting now name h = ground (arith, v)

  IsConsistent-cancel_waiting :
      (now : ℕ) → is_chat s.view ≡ false → IsConsistent (cancel_waiting now s)
  unfolding cancel_waiting ask is_chat is_waiting
  IsConsistent-cancel_waiting now h = ground (arith, v)

  IsConsistent-answer_invitation :
      (now : ℕ) (accept : Bool) → IsConsistent (answer_invitation now accept s)
  unfolding answer_invitation give_answer ask
  IsConsistent-answer_invitation now accept = ground (arith, v)

  IsConsistent-ask_jojo : (now : ℕ) → IsConsistent (ask_jojo now s)
  unfolding ask_jojo ask
  IsConsistent-ask_jojo now = ground (arith, v)

  IsConsistent-go_home : (now : ℕ) → IsConsistent (go_home now s)
  unfolding go_home ask is_chat is_waiting
  IsConsistent-go_home now = ground (arith, v)

  IsConsistent-leave_chat : (now : ℕ) → IsConsistent (leave_chat now s)
  unfolding leave_chat ask to_end is_chat is_waiting
  IsConsistent-leave_chat now = ground (arith, v)

  IsConsistent-notify_typing : (now : ℕ) → IsConsistent (notify_typing now s)
  unfolding notify_typing ask
  IsConsistent-notify_typing now = ground (arith, v)

  IsConsistent-ask_extension : (now : ℕ) → IsConsistent (ask_extension now s)
  unfolding ask_extension ask
  IsConsistent-ask_extension now = ground (arith, v)

  IsConsistent-settle_report : (failed : Bool) → IsConsistent (settle_report failed s)
  unfolding settle_report
  IsConsistent-settle_report failed = ground (arith, v)

  IsConsistent-detach : (t : Transport) → IsConsistent (detach t s)
  unfolding detach
  IsConsistent-detach t = ground (arith, v)

  IsConsistent-try_send : (now : ℕ) (raw : Text) → IsConsistent (try_send now raw s).1
  unfolding try_send ask
  IsConsistent-try_send now raw = ground (arith, v)

  IsConsistent-start_report :
      (now : ℕ) (reason : ReportReason) (note : Text)
      → IsConsistent (start_report now reason note s).1
  unfolding start_report ask
  IsConsistent-start_report now reason note = ground (arith, v)

  pub IsConsistent-step :
      (print : ℕ → Text) (now : ℕ) (i : Input) → IsOffered i s → IsConsistent (step print now i s)
  unfolding step
  IsConsistent-step print now (heard e) h = IsConsistent-handle_event s v print now e
  IsConsistent-step print now ticked h = IsConsistent-tick_clock s v now
  IsConsistent-step print now typing_due h = IsConsistent-clear_typing s v now
  IsConsistent-step print now invitation_due h = IsConsistent-expire_invitation s v now
  IsConsistent-step print now (attached t) h = unfold attach in ground (arith, v)
  IsConsistent-step print now (detached t) h = IsConsistent-detach t
  IsConsistent-step print now (energy_set energy) h = ground (arith, v)
  IsConsistent-step print now (preference_set preference) h = ground (arith, v)
  IsConsistent-step print now (adult_set adult) h = unfold set_adult in ground (arith, v)
  IsConsistent-step print now (town_set town) h = ground (arith, v)
  IsConsistent-step print now (walked_in nickname) h = IsConsistent-start_waiting now nickname h
  IsConsistent-step print now again_called h = IsConsistent-start_waiting now s.nickname h
  IsConsistent-step print now cancelled h = IsConsistent-cancel_waiting now h
  IsConsistent-step print now jojo_called h = IsConsistent-ask_jojo now
  IsConsistent-step print now went_home h = IsConsistent-go_home now
  IsConsistent-step print now left_chat h = IsConsistent-leave_chat now
  IsConsistent-step print now typed h = IsConsistent-notify_typing now
  IsConsistent-step print now extension_called h = IsConsistent-ask_extension now
  IsConsistent-step print now (answered_invitation accept) h =
      IsConsistent-answer_invitation now accept
  IsConsistent-step print now (draft_sent raw) h = IsConsistent-try_send now raw
  IsConsistent-step print now (report_started reason note) h =
      IsConsistent-start_report now reason note
  IsConsistent-step print now (report_settled failed) h = IsConsistent-settle_report failed
  IsConsistent-step print now topic_drawn h = unfold draw_topic in ground (arith, v)
  IsConsistent-step print now topic_dismissed h = ground (arith, v)
  IsConsistent-step print now sky_topic_cleared h = ground (arith, v)
  IsConsistent-step print now modal_closed h = ground (arith, v)
  IsConsistent-step print now notice_dismissed h = ground (arith, v)
  IsConsistent-step print now was_reset h = unfold reset is_chat is_waiting in ground (arith, v)
  IsConsistent-step print now (sky_topic_taken word) h = ground (arith, v)
  IsConsistent-step print now (modal_opened modal) h = ground (arith, v)

play-IsConsistent :
    (print : ℕ → Text) (is : List (ℕ × Input)) (s : Client)
    → IsConsistent s
    → AllOffered print is s
    → IsConsistent (play print is s)
unfolding play
play-IsConsistent print [] s v h = v
play-IsConsistent print ((now, i) ∷ is) s v h =
    play-IsConsistent print is (step print now i s) (IsConsistent-step s v print now i h.0) h.1

-- Whatever the transport reports, the visitor does and the clock shows, in any order, as long as
-- walking in and giving up waiting are done outside a chat: in a chat there are a partner, an end
-- and a running clock, and nothing has ended and no invitation is open; elsewhere there are no
-- partner, end, clock or line, no asked extension and no awaited reply; and a start of waiting is
-- known exactly in the waiting room.
pub play-Consistent :
    (print : ℕ → Text) (is : List (ℕ × Input))
    → AllOffered print is initial_client
    → IsConsistent (play print is initial_client)
play-Consistent print is h = play-IsConsistent print is initial_client initial-IsConsistent h
