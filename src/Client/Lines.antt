-- ===== src/Client/Lines.antt =====
-- sessionStore.ts: the identifiers of the lines of a chat, by which the page tells them apart.
use focustown_public.Prelude.{
  ℕ, ◌≡◌, refl, Bool, true, false, not, ◌||◌, Option, is_some, List, [], ◌∷◌, ◌++◌, arith, Text,
  Bool-cases, inl, inr, Text_eq, ◌⊎◌, ◌≢◌, ◌<◌, subst, text_beq_iff, suc, All, sym, ◌∙◌,
}
use focustown_public.Town.World.{Party, me, partner}
use focustown_public.Client.State.{
  Client, is_chat, is_end, PeerProfile, PartnerRef, SystemCode, system_line, system_id, ChatLine,
  line_id, energy_shown, extend_accepted, extend_asked, met, extend_partner_asked,
}
use focustown_public.Client.Handle.{
  hear_connection, hear_invite, hear_cleared, hear_waiting, hear_typing, hear_error, hear_ended,
  hear_message, hear_idle, say_line, hear_matched, hear_extend_requested, hear_extended,
  handle_event, has_line, line_of, prolong, begin_chat,
}
use focustown_public.Client.Clock.{
  ask, tick_clock, clear_typing, expire_invitation, to_end, start_clock,
}
use focustown_public.Client.Actions.{
  attach, detach, set_adult, start_waiting, cancel_waiting, give_answer, answer_invitation,
  ask_jojo, go_home, leave_chat, try_send, notify_typing, ask_extension, start_report,
  settle_report, draw_topic, reset,
}
use focustown_public.Client.Run.{
  Input, heard, ticked, typing_due, invitation_due, attached, detached, energy_set, preference_set,
  adult_set, town_set, walked_in, again_called, cancelled, jojo_called, went_home, left_chat, typed,
  extension_called, answered_invitation, draft_sent, report_started, report_settled, topic_drawn,
  topic_dismissed, sky_topic_cleared, modal_closed, notice_dismissed, was_reset, sky_topic_taken,
  modal_opened, step, play,
}
use focustown_public.Client.State.{
  initial_client, TransportEvent, connection_event, waiting_event, companion_invite_event,
  companion_cleared_event, matched_event, message_event, typing_event, extend_requested_event,
  extended_event, ended_event, idle_event, error_event,
}

abbrev Absent : Text → List ChatLine → Type 0
Absent id ls = All (λ l. line_id l ≢ id) ls

-- No two lines have the same id.
abbrev pub IsOnce : List ChatLine → Type 0
IsOnce [] = Unit {0}
IsOnce (l ∷ ls) = Absent (line_id l) ls × IsOnce ls

Absent-append :
    (id : Text) (ls : List ChatLine) (l : ChatLine)
    → Absent id ls
    → line_id l ≢ id
    → Absent id (ls ++ l ∷ [])
Absent-append id [] l h n = (n, tt)
Absent-append id (k ∷ ls) l h n = (h.0, Absent-append id ls l h.1 n)

IsOnce-append :
    (ls : List ChatLine) (l : ChatLine) → IsOnce ls → Absent (line_id l) ls → IsOnce (ls ++ l ∷ [])
IsOnce-append [] l o h = (tt, tt)
IsOnce-append (k ∷ ls) l o h =
    (Absent-append (line_id k) ls l o.0 (λ e. h.0 (sym e)), IsOnce-append ls l o.1 h.1)

has_line-Absent : (id : Text) (ls : List ChatLine) → has_line id ls ≡ false → Absent id ls
unfolding has_line
has_line-Absent id [] h = tt
has_line-Absent id (l ∷ ls) h =
    (λ e. ground (arith, text_beq_iff (line_id l) id), has_line-Absent id ls (ground arith))

line_id-line_of :
    (id : Text) (from : Party) (text : Option Text) (ref : Option PartnerRef)
    → line_id (line_of id from text ref) ≡ id
unfolding line_of
line_id-line_of id me text ref = refl
line_id-line_of id partner text ref = refl

-- The lines and the count of the system's lines stay, or the lines are cleared.
abbrev Keeps : Client → Client → Type 0
Keeps s t = ((t.lines ≡ s.lines) ⊎ (t.lines ≡ [])) × (t.system_seq ≡ s.system_seq)

-- The visitor's and the partner's lines have ids of their own.
abbrev pub IsForeign : (ℕ → Text) → Input → Type 0
IsForeign print (heard (message_event id from text ref)) = (n : ℕ) → id ≢ system_id print n
IsForeign print _ = Unit {0}

abbrev pub AllForeign : (ℕ → Text) → List (ℕ × Input) → Type 0
AllForeign print [] = Unit {0}
AllForeign print ((now, i) ∷ is) = IsForeign print i × AllForeign print is

module _ (print : ℕ → Text) (injective : (m n : ℕ) → print m ≡ print n → m ≡ n) where
  system_id-injective : (m n : ℕ) → system_id print m ≡ system_id print n → m ≡ n
  unfolding system_id
  system_id-injective m n e = injective m n (cc e)

  abbrev IsNumbered : Client → Type 0
  IsNumbered s = IsOnce s.lines × ((n : ℕ) → s.system_seq < n → Absent (system_id print n) s.lines)

  IsNumbered-Keeps : (s t : Client) → IsNumbered s → Keeps s t → IsNumbered t
  IsNumbered-Keeps s t v (inl e, q) = (
    subst IsOnce (sym e) v.0,
    λ n b. subst (Absent (system_id print n)) (sym e) (v.1 n (omega (arith, q))),
  )
  IsNumbered-Keeps s t v (inr e, q) =
      (subst IsOnce (sym e) tt, λ n b. subst (Absent (system_id print n)) (sym e) tt)

  IsNumbered-say_line :
      (code : SystemCode) (s : Client) → IsNumbered s → IsNumbered (say_line print code s)
  unfolding say_line
  IsNumbered-say_line code s v =
      let l = system_line (system_id print (suc s.system_seq)) code in
      (
        IsOnce-append s.lines l v.0 (v.1 (suc s.system_seq) (omega arith)),
        λ n b.
            Absent-append (system_id print n) s.lines l (v.1 n (omega arith))
              (λ e. omega (arith, system_id-injective (suc s.system_seq) n e)),
      )

  IsNumbered-hear_matched :
      (now : ℕ) (mine other : PeerProfile) (simulated : Bool) (t : ℕ) (s : Client)
      → IsNumbered s
      → IsNumbered (hear_matched print now mine other simulated t s)
  unfolding hear_matched start_clock begin_chat
  IsNumbered-hear_matched now mine other simulated t s v =
      elim (Bool-cases (is_end s.view || is_some s.end_reason)) [
        | inl e ↦ rw e v
        | inr f ↦ rw f (
            let c = begin_chat now mine other simulated t s in
            IsNumbered-say_line energy_shown (say_line print met c)
              (IsNumbered-say_line met c (tt, λ n b. tt)))
      ]

  IsNumbered-hear_extend_requested :
      (by : Party) (s : Client) → IsNumbered s → IsNumbered (hear_extend_requested print by s)
  unfolding hear_extend_requested
  IsNumbered-hear_extend_requested me s v =
      elim (Bool-cases (not (is_chat s.view) || s.extend_mine)) [
        | inl e ↦ rw e v
        | inr f ↦ rw f (IsNumbered-say_line extend_asked (record s { extend_mine = true }) v)
      ]
  IsNumbered-hear_extend_requested partner s v =
      elim (Bool-cases (not (is_chat s.view) || s.extend_partner)) [
        | inl e ↦ rw e v
        | inr f ↦
            rw f (IsNumbered-say_line extend_partner_asked (record s { extend_partner = true }) v)
      ]

  IsNumbered-hear_extended :
      (now t : ℕ) (s : Client) → IsNumbered s → IsNumbered (hear_extended print now t s)
  unfolding hear_extended prolong
  IsNumbered-hear_extended now t s v = elim (Bool-cases (is_chat s.view)) [
    | inl e ↦ rw e (IsNumbered-say_line extend_accepted (prolong now t s) v)
    | inr f ↦ rw f v
  ]

  IsNumbered-hear_message :
      (id : Text) (from : Party) (text : Option Text) (ref : Option PartnerRef) (s : Client)
      → ((n : ℕ) → id ≢ system_id print n)
      → IsNumbered s
      → IsNumbered (hear_message id from text ref s)
  unfolding hear_message
  IsNumbered-hear_message id from text ref s foreign v =
      let l = line_of id from text ref in
      elim (Bool-cases (not (is_chat s.view) || has_line id s.lines)) [
        | inl t ↦ rw t v
        | inr f ↦ rw f (
          IsOnce-append s.lines l v.0 (
              subst (λ i. Absent i s.lines) (sym (line_id-line_of id from text ref))
                (has_line-Absent id s.lines (ground (arith, f)))),
          λ n b.
              Absent-append (system_id print n) s.lines l (v.1 n b)
                (λ e. foreign n (sym (line_id-line_of id from text ref) ∙ e)),
        )
      ]

  module _ (now : ℕ) (s : Client) (v : IsNumbered s) where
    IsNumbered-handle_event :
        (e : TransportEvent) → IsForeign print (heard e) → IsNumbered (handle_event print now e s)
    unfolding handle_event
    IsNumbered-handle_event (message_event id from text ref) h =
        IsNumbered-hear_message id from text ref s h v
    IsNumbered-handle_event (matched_event mine other simulated t grace) h =
        IsNumbered-hear_matched now mine other simulated t s v
    IsNumbered-handle_event (extend_requested_event me) h = IsNumbered-hear_extend_requested me s v
    IsNumbered-handle_event (extend_requested_event partner) h =
        IsNumbered-hear_extend_requested partner s v
    IsNumbered-handle_event (extended_event t) h = IsNumbered-hear_extended now t s v
    IsNumbered-handle_event (connection_event c) h =
        IsNumbered-Keeps s (hear_connection c s) v (unfold hear_connection in ground arith)
    IsNumbered-handle_event (waiting_event t) h =
        IsNumbered-Keeps s (hear_waiting now t s) v (unfold hear_waiting in ground arith)
    IsNumbered-handle_event (companion_invite_event id t name) h =
        IsNumbered-Keeps s (hear_invite now id t name s) v (unfold hear_invite in ground arith)
    IsNumbered-handle_event (companion_cleared_event id) h =
        IsNumbered-Keeps s (hear_cleared id s) v (unfold hear_cleared in ground arith)
    IsNumbered-handle_event typing_event h =
        IsNumbered-Keeps s (hear_typing now s) v (unfold hear_typing in ground arith)
    IsNumbered-handle_event (ended_event reason) h =
        IsNumbered-Keeps s (hear_ended reason s) v (unfold hear_ended to_end in ground arith)
    IsNumbered-handle_event idle_event h =
        IsNumbered-Keeps s (hear_idle now s) v (unfold hear_idle to_end ask in ground arith)
    IsNumbered-handle_event (error_event code) h =
        IsNumbered-Keeps s (hear_error code s) v (unfold hear_error in ground arith)

    IsNumbered-step : (i : Input) → IsForeign print i → IsNumbered (step print now i s)
    unfolding step
    IsNumbered-step (heard e) h = IsNumbered-handle_event e h
    IsNumbered-step ticked h =
        IsNumbered-Keeps s (tick_clock now s) v (unfold tick_clock in ground arith)
    IsNumbered-step typing_due h =
        IsNumbered-Keeps s (clear_typing now s) v (unfold clear_typing in ground arith)
    IsNumbered-step invitation_due h =
        IsNumbered-Keeps s (expire_invitation now s) v (unfold expire_invitation in ground arith)
    IsNumbered-step (detached t) h =
        IsNumbered-Keeps s (detach t s) v (unfold detach in ground arith)
    IsNumbered-step (walked_in nickname) h =
        IsNumbered-Keeps s (start_waiting now nickname s) v
          (unfold start_waiting ask in ground arith)
    IsNumbered-step again_called h =
        IsNumbered-Keeps s (start_waiting now s.nickname s) v
          (unfold start_waiting ask in ground arith)
    IsNumbered-step cancelled h =
        IsNumbered-Keeps s (cancel_waiting now s) v (unfold cancel_waiting ask in ground arith)
    IsNumbered-step jojo_called h =
        IsNumbered-Keeps s (ask_jojo now s) v (unfold ask_jojo ask in ground arith)
    IsNumbered-step went_home h =
        IsNumbered-Keeps s (go_home now s) v (unfold go_home ask in ground arith)
    IsNumbered-step left_chat h =
        IsNumbered-Keeps s (leave_chat now s) v (unfold leave_chat to_end ask in ground arith)
    IsNumbered-step typed h =
        IsNumbered-Keeps s (notify_typing now s) v (unfold notify_typing ask in ground arith)
    IsNumbered-step extension_called h =
        IsNumbered-Keeps s (ask_extension now s) v (unfold ask_extension ask in ground arith)
    IsNumbered-step (answered_invitation accept) h =
        IsNumbered-Keeps s (answer_invitation now accept s) v
          (unfold answer_invitation give_answer ask in ground arith)
    IsNumbered-step (draft_sent raw) h =
        IsNumbered-Keeps s ((try_send now raw s).1) v (unfold try_send ask in ground arith)
    IsNumbered-step (report_started reason note) h =
        IsNumbered-Keeps s ((start_report now reason note s).1) v
          (unfold start_report ask in ground arith)
    IsNumbered-step (report_settled failed) h =
        IsNumbered-Keeps s (settle_report failed s) v (unfold settle_report in ground arith)
    IsNumbered-step was_reset h = IsNumbered-Keeps s (reset s) v (unfold reset in ground arith)
    IsNumbered-step (attached t) h = unfold attach in v
    IsNumbered-step (energy_set energy) h = v
    IsNumbered-step (preference_set preference) h = v
    IsNumbered-step (adult_set adult) h = unfold set_adult in v
    IsNumbered-step (town_set town) h = v
    IsNumbered-step topic_drawn h = unfold draw_topic in v
    IsNumbered-step topic_dismissed h = v
    IsNumbered-step sky_topic_cleared h = v
    IsNumbered-step modal_closed h = v
    IsNumbered-step notice_dismissed h = v
    IsNumbered-step (sky_topic_taken word) h = v
    IsNumbered-step (modal_opened modal) h = v

  play-IsNumbered :
      (is : List (ℕ × Input)) (s : Client)
      → IsNumbered s
      → AllForeign print is
      → IsNumbered (play print is s)
  unfolding play
  play-IsNumbered [] s v h = v
  play-IsNumbered ((now, i) ∷ is) s v h =
      play-IsNumbered is (step print now i s) (IsNumbered-step now s v i h.0) h.1

-- Where the texts of two numbers differ, and no chat message carries an id that the page makes
-- itself: after any inputs, no two lines of the chat on the screen have the same id.
pub play-IsOnce :
    (print : ℕ → Text)
    → ((m n : ℕ) → print m ≡ print n → m ≡ n)
    → (is : List (ℕ × Input)) → AllForeign print is
    → IsOnce (play print is initial_client).lines
play-IsOnce print injective is h =
    (play-IsNumbered print injective is initial_client (tt, λ n b. tt) h).0
