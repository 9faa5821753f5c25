-- ===== src/Town/Sound/Agreements.antt =====
-- The invariant under extend and report of edge/src/town.ts.
use focustown_public.Prelude.{
  ℕ, ◌≡◌, sym, ◌∙◌, subst, lookup, eqb_iff, refl, Bool, Option, none, some, List, [], ◌∷◌,
  if◌then◌else◌, Json, ◌==◌, ◌++◌, ℕ_eq,
}
use focustown_public.Guest.{GuestId, GuestId_eq, is_jojo}
use focustown_public.Rules.Profile.{invalid_reason, no_conversation}
use focustown_public.Store.State.{State, Conversation}
use focustown_public.Store.Chats.{add_extend_vote, save_conversation, conversation_id_of}
use focustown_public.Town.World.{Deps, Frame, EndReason, ReportReason}
use focustown_public.Town.Exec.{
  on_option, pure, lift, gets, stored, done, modify, store_to, ◌>>=◌, ◌>>◌, awaited,
}
use focustown_public.Town.Session.{partner_of, close, send, draw_id}
use focustown_public.Town.Chat.{extended_conversation, extend, report_record, finish_report, report}
use focustown_public.Town.Hoare.{Core, core, Quiet, quiet_rules, Quiet-done}
use focustown_public.Town.Sound.{Sound, IsLive}
use focustown_public.Town.Sound.Waits.{IsCalm, Lasts, SameGuests, Runs-awaited}
use focustown_public.Town.Sound.Quiet.{Quiet-send, Quiet-modify, Quiet-draw_id, Quiet-block_pair}
use focustown_public.Town.Sound.Rules.{
  Runs, Anything, Whatever, Runs-after, Runs-bind, Runs-option, Runs-quiet, Runs-weaken,
  Runs-store_to, Runs-gets, Runs-pure, Runs-if, Runs-throw,
}
use focustown_public.Town.Sound.Store.Starting.{resave-Sound}
use focustown_public.Town.Sound.Ends.{
  Held, KeptAs, Runs-close_kept, Finds, Runs-current, Runs-require,
}
use focustown_public.Town.Sound.Chats.{Runs-vote}

Quiet-tell : (a b : GuestId) (f h : Frame) → Quiet (send a f >>= λ u. send b h)
Quiet-tell a b f h = search (quiet_rules, Quiet-send)

-- If the conversation's id still names one, it has the same two guests.
abbrev Unchanged : Conversation → Core → Type 0
Unchanged c k = (v : Conversation) → lookup c.id k.convs ≡ some v → SameGuests v c

Held-Unchanged : (c : Conversation) (k : Core) → Held c k → Unchanged c k
Held-Unchanged c k held v at = let e : c ≡ v = cc in subst (λ v. SameGuests v c) e (refl, refl)

Unchanged-Lasts : (new_id : ℕ → ℕ) (c : Conversation) → Lasts new_id (Unchanged c)
Unchanged-Lasts new_id c m n k k' v v' none_started same w at =
    let (u, before, guests) = none_started c.id w at in
    let own = same u before in (sym guests.0 ∙ own.0, sym guests.1 ∙ own.1)

kept_as : (c : Conversation) (k : Core) → IsLive k c.id → Unchanged c k → KeptAs c k
kept_as c k (v, at) same = (v, at, same v at)

-- What the guest is in is kept.
in_kept :
    (new_id : ℕ → ℕ) (n : ℕ) (s : State) (g : GuestId) (i : ℕ)
    → Sound new_id n (core s)
    → conversation_id_of g s ≡ some i
    → IsLive (core s) i
unfolding conversation_id_of
in_kept new_id n s g i v e = let (c, at, side) = v.current_valid g i e in (c, at)

module _ (d : Deps) (calm : IsCalm d) (now : ℕ) where
  idle_done : {P : Core → Type 0} → Runs d.new_id P done Whatever
  idle_done =
      Runs-weaken d.new_id (λ k p. tt) (λ u k q. q) (Runs-quiet d.new_id Anything done Quiet-done)

  Runs-other_vote :
      (c : Conversation) (other : GuestId) (b : Bool)
      → Runs d.new_id
          (Held c)
          (if b then (do stored (add_extend_vote c other); done) else done)
          (λ u. Held c)
  Runs-other_vote c other b =
      Runs-if d.new_id b _ _
        (λ t.
          Runs-bind d.new_id (λ r. Held c) _ _ (Runs-vote d.new_id c other)
            (λ r. Runs-quiet d.new_id (Held c) done Quiet-done))
        (λ f. Runs-quiet d.new_id (Held c) done Quiet-done)

  extended-Sound :
      (c : Conversation) (n : ℕ) (s : State)
      → Sound d.new_id n (core s)
      → Held c (core s)
      → Sound d.new_id n (core (save_conversation (extended_conversation d now c) s))
  unfolding extended_conversation
  extended-Sound c n s v held =
      resave-Sound d.new_id n s c (extended_conversation d now c) v held refl refl refl

  -- The new window is written only to a conversation that is kept.
  Runs-prolong :
      (c : Conversation)
      → Runs d.new_id
          (Held c)
          (store_to (save_conversation (extended_conversation d now c)))
          Whatever
  Runs-prolong c =
      Runs-store_to d.new_id (save_conversation (extended_conversation d now c))
        (λ s n v held. (extended-Sound c n s v held, tt))

  pub Runs-extend : (g : GuestId) → Runs d.new_id Anything (extend d now g) Whatever
  unfolding extend
  Runs-extend g = Runs-bind d.new_id Held _ _ (Runs-require d.new_id d now g) (λ c.
      Runs-after d.new_id _ _ (search quiet_rules) (λ u.
        Runs-after d.new_id _ _ (search quiet_rules) (λ other.
          Runs-bind d.new_id (λ u. Held c) _ _ (Runs-other_vote c other (is_jojo other))
            (λ u.
              Runs-bind d.new_id (λ b. Held c) _ _ (Runs-vote d.new_id c g)
                (λ complete.
                  Runs-if d.new_id complete _ _
                    (λ t.
                      Runs-bind d.new_id Whatever _ _ (Runs-prolong c)
                        (λ u. Runs-quiet d.new_id Anything _ (Quiet-tell g other _ _)))
                    (λ f.
                      Runs-weaken d.new_id (λ k p. tt) (λ u k q. q)
                        (Runs-quiet d.new_id Anything _ (Quiet-tell g other _ _))))))))

  -- The conversation that is ended after a report is the one that the guest is in: a kept one.
  Runs-close_same :
      (c : Conversation) (g : GuestId) (reasons : List (GuestId × EndReason))
      → Runs d.new_id
          (Unchanged c)
          (do
            id ← gets (λ w. conversation_id_of g w.store)
            on_option id done (λ i. if i == c.id then close c reasons else done))
          Whatever
  Runs-close_same c g reasons =
      Runs-bind d.new_id (λ o k. (i : ℕ) → o ≡ some i → Unchanged c k × IsLive k i) _ _
        (Runs-gets d.new_id (λ w. conversation_id_of g w.store)
          (λ w s p i e. (p, in_kept d.new_id w.drawn w.store g i s e)))
        (λ id.
          Runs-option d.new_id id _ _ (λ e. idle_done)
            (λ i e.
              Runs-if d.new_id _ _ _
                (λ t.
                  Runs-weaken d.new_id
                    (λ k p.
                      kept_as c k (subst (IsLive k) ((eqb_iff i c.id).0 t) (p i e).1) (p i e).0)
                    (λ u k q. q) (Runs-close_kept d.new_id c reasons))
                (λ f. idle_done)))

  Runs-finish_report :
      (c : Conversation) (g other : GuestId)
      → Runs d.new_id (Unchanged c) (finish_report d now c g other) Whatever
  unfolding finish_report
  Runs-finish_report c g other =
      Runs-after d.new_id _ _ (Quiet-block_pair g other _) (λ u. Runs-close_same c g _)

  Runs-report_of :
      (c : Conversation) (g : GuestId) (reason : ReportReason) (note : Json)
      → Runs d.new_id {A = ℕ}
          (Held c)
          (do
            other ← lift (partner_of c g)
            id ← draw_id d now
            evidence ← gets (report_record d now c g other reason note id)
            awaited d
            modify (λ w. record w { reports = w.reports ++ evidence ∷ [] })
            finish_report d now c g other
            pure id)
          Whatever
  Runs-report_of c g reason note = Runs-after d.new_id _ _ (search quiet_rules) (λ other.
      Runs-after d.new_id _ _ (Quiet-draw_id d now) (λ id.
        Runs-after d.new_id _ _ (search quiet_rules) (λ evidence.
          Runs-bind d.new_id (λ u. Unchanged c) _ _
            (Runs-weaken d.new_id (λ k held. Held-Unchanged c k held) (λ u k q. q)
              (Runs-awaited d calm (Unchanged c) (Unchanged-Lasts d.new_id c)))
            (λ u.
              Runs-after d.new_id _ _
                (Quiet-modify (λ w. record w { reports = w.reports ++ evidence ∷ [] }) (λ w. refl)
                  (λ w. refl))
                (λ u.
                  Runs-bind d.new_id Whatever _ _ (Runs-finish_report c g other)
                    (λ u. Runs-pure d.new_id id (λ k p. tt)))))))

  pub Runs-report :
      (g : GuestId) (reason : Option ReportReason) (note : Json)
      → Runs d.new_id Anything (report d now g reason note) Whatever
  unfolding report
  Runs-report g none note = Runs-throw d.new_id invalid_reason
  Runs-report g (some reason) note = Runs-after d.new_id _ _ (search quiet_rules) (λ u.
      Runs-bind d.new_id (λ o k. Unit {0} × Finds g o k) _ _ (Runs-current d.new_id Anything g)
        (λ o.
          Runs-option d.new_id o _ _ (λ e. Runs-throw d.new_id no_conversation)
            (λ c e. rw e (
              Runs-if d.new_id _ _ _
                (λ t.
                  Runs-weaken d.new_id (λ k p. p.1.0) (λ u k q. q) (Runs-report_of c g reason note))
                (λ f. Runs-throw d.new_id no_conversation)))))
