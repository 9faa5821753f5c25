-- ===== src/Server/Sound.antt =====
-- The town's invariant under the events of edge/src/townObject.ts.
use focustown_public.Prelude.{
  ℕ, ◌≡◌, refl, Bool, true, false, not, Option, none, some, List, [], ◌∷◌, arith, if◌then◌else◌,
  erase, insert, Json, bool, undefined, null, arr, other_num, num, str, obj,
}
use focustown_public.Guest.{guest_beq, GuestId, GuestId_eq, visitor, companion_id, jojo_id}
use focustown_public.Rules.Profile.{Result, ok, err, admin_cannot_queue, invalid_answer, slow_down}
use focustown_public.Prelude.{lookup}
use focustown_public.Store.State.{msg, frame_of, report_by}
use focustown_public.Store.Presence.{set_maintenance}
use focustown_public.Town.World.{World, Deps, ReportReason, new_world}
use focustown_public.Town.Exec.{Exec, Done, done, store_to, modify}
use focustown_public.Town.Session.{send}
use focustown_public.Town.Lobby.{join}
use focustown_public.Town.Chat.{report}
use focustown_public.Town.Hoare.{core, Quiet, quiet_rules, Quiet-done, Quiet-reject}
use focustown_public.Town.Sound.Waits.{IsCalm, NoneStarted}
use focustown_public.Town.Sound.Quiet.{Quiet-hit, Quiet-send, Quiet-modify}
use focustown_public.Town.Sound.Rules.{
  Runs, IsSound, Outcome, Anything, Whatever, Runs-after, Runs-bind, Runs-option, Runs-quiet,
  Runs-if, Runs-throw, Runs-reject, Runs-assume, Runs-pure,
}
use focustown_public.Town.Sound.Ends.{Runs-restrict}
use focustown_public.Town.Sound.Starts.{Runs-pair_waiting}
use focustown_public.Town.Sound.Lobbies.{
  Runs-connect, Runs-cancel, Runs-disconnect, Runs-heartbeat, Runs-join, Quiet-invite_companion,
}
use focustown_public.Town.Sound.Invites.{Runs-answer_companion}
use focustown_public.Town.Sound.Chats.{Runs-send_message, Runs-type_to_partner, Runs-leave}
use focustown_public.Town.Sound.Agreements.{Runs-extend, Runs-report}
use focustown_public.Town.Sound.Residents.{Runs-start_jojo, Runs-finish_reply}
use focustown_public.Town.Sound.Sweeps.{Runs-sweep}
use focustown_public.Server.Dispatch.{
  ClientFrame, companion_invite_frame, companion_answer_frame, jojo_start_frame, join_frame,
  text_frame, heartbeat_frame, cancel_frame, typing_frame, extend_frame, leave_frame, other_frame,
  is_adult, is_input_error, dispatch, answer_error, answered, web_socket_message, on_socket_gone,
  ReportResult, refuse_report, report_limited, switch_maintenance, moderated,
}
use focustown_public.Server.Events.{
  Event, opened, received, socket_gone, reply, report_call, maintenance_call, moderate_call, alarm,
  handle, run, IsKnown, IsAdmissible, AllAdmissible,
}

new_world-Sound : (new_id : ℕ → ℕ) → IsSound new_id new_world
unfolding lookup
new_world-Sound new_id = record {
  current_valid = λ g id h. cc;
  conv_valid = λ id v h. cc;
  active_live = λ id h. absurd h;
  lines_live = λ id l h. cc;
  votes_live = λ id l h. cc;
  waiting_free = λ w m. absurd m;
  queue_once = tt;
  closed_empty = refl;
  drawn_before = λ id v h. cc;
}

Outcome-if :
    (new_id : ℕ → ℕ) {A : Type 0} (b : Bool) (x y : Result A × World)
    → Outcome new_id {A = A} Whatever x
    → Outcome new_id {A = A} Whatever y
    → Outcome new_id {A = A} Whatever (if b then x else y)
Outcome-if new_id true x y h k = h
Outcome-if new_id false x y h k = k

Quiet-pause : (on : Bool) → Quiet (store_to (set_maintenance on))
unfolding store_to set_maintenance
Quiet-pause on = record { same = λ w. refl; grows = λ w. omega arith }

module _ (d : Deps) (injective : (i j : ℕ) → d.new_id i ≡ d.new_id j → i ≡ j) (calm : IsCalm d)
    (now : ℕ) where
  Runs-join_companion :
      (raw : Json) (adult : Bool)
      → Runs d.new_id Anything (join d now companion_id raw adult) Whatever
  unfolding join guest_beq
  Runs-join_companion raw adult =
      Runs-bind d.new_id (λ u k. Unit {0} × (true ≡ false)) _ _
        (Runs-reject d.new_id true admin_cannot_queue)
        (λ u. Runs-assume d.new_id (λ k p. p.1) (λ e. cc))

  Runs-join_known :
      (g : GuestId) (raw : Json) (adult : Bool)
      → IsKnown g
      → Runs d.new_id Anything (join d now g raw adult) Whatever
  Runs-join_known (visitor n) raw adult h = Runs-join d injective calm now (visitor n) raw adult tt
  Runs-join_known companion_id raw adult h = Runs-join_companion raw adult
  Runs-join_known (jojo_id g) raw adult h = absurd h

  Runs-dispatch :
      (g : GuestId) (frame : ClientFrame)
      → IsKnown g
      → Runs d.new_id Anything (dispatch d now g frame) Whatever
  unfolding dispatch
  Runs-dispatch g (companion_invite_frame target identity) h =
      Runs-quiet d.new_id Anything _ (search (quiet_rules, Quiet-invite_companion))
  Runs-dispatch g (companion_answer_frame id (bool accept)) h =
      Runs-answer_companion d injective calm now g id accept
  Runs-dispatch g (companion_answer_frame id undefined) h = Runs-throw d.new_id invalid_answer
  Runs-dispatch g (companion_answer_frame id null) h = Runs-throw d.new_id invalid_answer
  Runs-dispatch g (companion_answer_frame id arr) h = Runs-throw d.new_id invalid_answer
  Runs-dispatch g (companion_answer_frame id other_num) h = Runs-throw d.new_id invalid_answer
  Runs-dispatch g (companion_answer_frame id (num n)) h = Runs-throw d.new_id invalid_answer
  Runs-dispatch g (companion_answer_frame id (str t)) h = Runs-throw d.new_id invalid_answer
  Runs-dispatch g (companion_answer_frame id (obj fs)) h = Runs-throw d.new_id invalid_answer
  Runs-dispatch g (jojo_start_frame consent) h = Runs-start_jojo d injective calm now g consent
  Runs-dispatch g heartbeat_frame h = Runs-heartbeat d now g
  Runs-dispatch g (join_frame profile adult) h = Runs-join_known g profile (is_adult adult) h
  Runs-dispatch g cancel_frame h = Runs-cancel d now g
  Runs-dispatch g (text_frame text) h =
      Runs-after d.new_id _ _ (Quiet-hit (msg g) 30 60000 now) (λ within.
        Runs-after d.new_id _ _ (Quiet-reject (not within) slow_down)
          (λ u. Runs-send_message d now g text))
  Runs-dispatch g typing_frame h = Runs-type_to_partner d now g
  Runs-dispatch g extend_frame h = Runs-extend d calm now g
  Runs-dispatch g leave_frame h = Runs-leave d now g
  Runs-dispatch g other_frame h = Runs-quiet d.new_id Anything done Quiet-done

  Outcome-answer_error :
      (g : GuestId) (r : Result Done × World)
      → Outcome d.new_id Whatever r
      → Outcome d.new_id Whatever (answer_error d now g r)
  unfolding answer_error send modify
  Outcome-answer_error g (ok u, w) o = o
  Outcome-answer_error g (err c, w) o = Outcome-if d.new_id (is_input_error c) _ _ o o

  -- Telling the guest of an error changes nothing of the core.
  Runs-answered :
      (g : GuestId) (m : Exec Done)
      → Runs d.new_id Anything m Whatever
      → Runs d.new_id Anything (answered d now g m) Whatever
  unfolding answered
  Runs-answered g m r = record { at = λ w s p. Outcome-answer_error g (m w) (r.at w s p) }

  Runs-web_socket_message :
      (g : GuestId) (frame : Option ClientFrame)
      → IsKnown g
      → Runs d.new_id Anything (web_socket_message d now g frame) Whatever
  unfolding web_socket_message
  Runs-web_socket_message g frame h =
      Runs-after d.new_id _ _ (Quiet-hit (frame_of g) 120 60000 now) (λ within.
        Runs-if d.new_id within _ _
          (λ t.
            Runs-option d.new_id frame _ _ (λ e. Runs-quiet d.new_id Anything done Quiet-done)
              (λ f e. Runs-answered g (dispatch d now g f) (Runs-dispatch g f h)))
          (λ f. Runs-quiet d.new_id Anything done Quiet-done))

  Outcome-refuse_report :
      (r : Result ℕ × World)
      → Outcome d.new_id {A = ℕ} Whatever r
      → Outcome d.new_id {A = ReportResult} Whatever (refuse_report d now r)
  unfolding refuse_report
  Outcome-refuse_report (ok id, w) o = o
  Outcome-refuse_report (err c, w) o = Outcome-if d.new_id (is_input_error c) _ _ o o

  Runs-report_limited :
      (g : GuestId) (reason : Option ReportReason) (note : Json)
      → Runs d.new_id Anything (report_limited d now g reason note) Whatever
  unfolding report_limited
  Runs-report_limited g reason note =
      Runs-after d.new_id _ _ (Quiet-hit (report_by g) 5 3600000 now) (λ within.
        Runs-if d.new_id within _ _
          (λ t. record {
            at = λ w s p.
                Outcome-refuse_report (report d now g reason note w)
                  ((Runs-report d calm now g reason note).at w s p);
          })
          (λ f. Runs-pure d.new_id _ (λ k p. tt)))

  Runs-switch_maintenance :
      (on : Bool) → Runs d.new_id Anything (switch_maintenance d now on) Whatever
  unfolding switch_maintenance
  Runs-switch_maintenance on = Runs-after d.new_id _ _ (Quiet-pause on) (λ u.
      Runs-if d.new_id on _ _ (λ t. Runs-quiet d.new_id Anything done Quiet-done)
        (λ f.
          Runs-bind d.new_id Whatever _ _ (Runs-pair_waiting d injective calm now)
            (λ u. Runs-quiet d.new_id Anything done Quiet-done)))

  Runs-moderated :
      (g : GuestId) (until : Option ℕ) → Runs d.new_id Anything (moderated d now g until) Whatever
  unfolding moderated
  Runs-moderated g none =
      Runs-quiet d.new_id Anything _ (
        Quiet-modify (λ w. record w { suspensions = erase g w.suspensions }) (λ w. refl)
          (λ w. refl))
  Runs-moderated g (some until) =
      Runs-after d.new_id _ _
        (Quiet-modify (λ w. record w { suspensions = insert g until w.suspensions }) (λ w. refl)
          (λ w. refl))
        (λ u.
          Runs-bind d.new_id Whatever _ _ (Runs-restrict d.new_id g)
            (λ u. Runs-quiet d.new_id Anything _ (Quiet-send g _)))

  Runs-handle : (e : Event) → IsAdmissible e → Runs d.new_id Anything (handle d now e) Whatever
  unfolding handle on_socket_gone
  Runs-handle (opened g) h = Runs-connect d now g
  Runs-handle (received g frame) h = Runs-web_socket_message g frame h
  Runs-handle (socket_gone g true) h = Runs-quiet d.new_id Anything done Quiet-done
  Runs-handle (socket_gone g false) h = Runs-disconnect d now g
  Runs-handle (reply id text) h = Runs-finish_reply d now id text
  Runs-handle (report_call g reason note) h =
      Runs-bind d.new_id Whatever _ _ (Runs-report_limited g reason note)
        (λ u. Runs-quiet d.new_id Anything done Quiet-done)
  Runs-handle (maintenance_call on) h = Runs-switch_maintenance on
  Runs-handle (moderate_call g until) h = Runs-moderated g until
  Runs-handle alarm h = Runs-sweep d now injective calm

Outcome-IsSound :
    (new_id : ℕ → ℕ) (r : Result Done × World) → Outcome new_id Whatever r → IsSound new_id r.1
Outcome-IsSound new_id (ok u, w) o = o.0
Outcome-IsSound new_id (err c, w) o = o.0

module _ (d : Deps) (injective : (i j : ℕ) → d.new_id i ≡ d.new_id j → i ≡ j)
    (calm : IsCalm d) where
  run_from :
      (es : List (ℕ × Event)) (w : World)
      → AllAdmissible es
      → IsSound d.new_id w
      → IsSound d.new_id (run d es w)
  unfolding run
  run_from [] w h s = s
  run_from ((now, e) ∷ es) w h s = run_from es (handle d now e w).1 h.1 (
      Outcome-IsSound d.new_id (handle d now e w)
        ((Runs-handle d injective calm now e h.0).at w s tt))

  -- Where events run while a hook is awaited, they keep the invariant too: what is left to ask of
  -- them is that they start no conversation.
  run-IsCalm :
      (es : World → List (ℕ × Event))
      → ((w : World) → AllAdmissible (es w))
      → ((w : World)
          → IsSound d.new_id w
          → NoneStarted (core w.store) (core (run d (es w) w).store))
      → IsCalm (record d { meanwhile = λ w. run d (es w) w })
  run-IsCalm es admissible none_started = record {
    sound = λ w s. run_from (es w) w (admissible w) s;
    none_started = none_started;
  }

  -- After every history of admissible events, at whatever times and in whatever order, the town's
  -- tables satisfy the invariant, also where a handler threw or a hook that writes to D1 rejected;
  -- provided that no id is drawn twice, and that the events which run while such a hook is awaited
  -- keep the invariant and start no conversation.
  pub run-Sound : (es : List (ℕ × Event)) → AllAdmissible es → IsSound d.new_id (run d es new_world)
  run-Sound es h = run_from es new_world h (new_world-Sound d.new_id)
