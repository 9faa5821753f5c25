-- ===== src/Town/Sound/Invites.antt =====
-- The invariant under answerCompanion of edge/src/town.ts.
use focustown_public.Prelude.{
  ℕ, ◌≡◌, refl, subst, ◌⊎◌, inl, inr, Bool, not, Option, none, some, is_some, lookup, find,
  find-Among, ◌==◌, or_default,
}
use focustown_public.Guest.{GuestId, visitor, companion_id, jojo_id, GuestId_eq, guest_beq_iff}
use focustown_public.Rules.Pairing.{Waiting}
use focustown_public.Rules.Profile.{
  closed, companion_busy, invite_unavailable, companion_profile_default,
}
use focustown_public.Store.State.{State, CompanionInvite}
use focustown_public.Town.World.{Deps, cancelled, accepted, expired, declined}
use focustown_public.Town.Exec.{Done, gets, throw, ◌>>◌}
use focustown_public.Town.Session.{waiting_of, clear_companion}
use focustown_public.Town.Lobby.{start_conversation}
use focustown_public.Town.Companion.{accept, answer_to, answer_companion}
use focustown_public.Town.Hoare.{Core, core, quiet_rules}
use focustown_public.Town.Sound.{IsVisitor, Sides, Sound}
use focustown_public.Town.Sound.Waits.{IsCalm}
use focustown_public.Town.Sound.Quiet.{quiet, Quiet-clear_companion}
use focustown_public.Town.Sound.Rules.{
  Runs, Anything, Whatever, Runs-after, Runs-bind, Runs-option, Runs-quiet, Runs-weaken, Runs-gets,
  Runs-if, Runs-throw, Runs-reject, Runs-assume,
}
use focustown_public.Town.Sound.Ends.{Finds, Runs-current}
use focustown_public.Town.Sound.Starts.{Runs-start}
use focustown_public.Town.Sound.Lobbies.{unless_talking}

-- An entry of the queue: a visitor who is in no conversation.
abbrev pub IsFree : Waiting → Core → Type 0
IsFree w k = IsVisitor w.guest_id × (lookup w.guest_id k.current ≡ none)

-- The entry that a search by guest found.
abbrev pub Entry : GuestId → Option Waiting → Core → Type 0
Entry g none k = Unit {0}
Entry g (some w) k = (w.guest_id ≡ g) × IsFree w k

Sides-companion : (g : GuestId) → IsVisitor g → Sides g companion_id
Sides-companion (visitor n) h = tt
Sides-companion companion_id h = absurd h
Sides-companion (jojo_id g) h = absurd h

module _ (new_id : ℕ → ℕ) where
  Entry-found :
      (g : GuestId) (n : ℕ) (s : State) (o : Option Waiting)
      → Sound new_id n (core s)
      → find (λ w. w.guest_id == g) s.queue ≡ o
      → Entry g o (core s)
  Entry-found g n s none v e = tt
  Entry-found g n s (some w) v e =
      let (m, t) = find-Among (λ w. w.guest_id == g) s.queue w e in
      let (free, visits) = v.waiting_free w m in ((guest_beq_iff w.guest_id g).0 t, (visits, free))

  pub waiting_of-Entry :
      (g : GuestId) (n : ℕ) (s : State)
      → Sound new_id n (core s)
      → Entry g (waiting_of g s) (core s)
  unfolding waiting_of
  waiting_of-Entry g n s v = Entry-found g n s (find (λ w. w.guest_id == g) s.queue) v refl

  pub Runs-waiting_of :
      (P : Core → Type 0) (g : GuestId)
      → Runs new_id P (gets (λ w. waiting_of g w.store)) (λ o k. P k × Entry g o k)
  Runs-waiting_of P g =
      Runs-gets new_id (λ w. waiting_of g w.store)
        (λ w s p. (p, waiting_of-Entry g w.drawn w.store s))

module _ (d : Deps) (injective : (i j : ℕ) → d.new_id i ≡ d.new_id j → i ≡ j) (calm : IsCalm d)
    (now : ℕ) where
  -- The visitor is free, and so is whoever talks under the other id.
  start_pair :
      (a b : Waiting)
      → Sides a.guest_id b.guest_id
      → Runs d.new_id
          (λ k. IsFree a k × (lookup b.guest_id k.current ≡ none))
          (start_conversation d now a b)
          Whatever
  start_pair a b sides =
      Runs-weaken d.new_id
        (λ k ((visits, free), other) g f. elim f [
          | inl e ↦ subst (λ g. lookup g k.current ≡ none) e free
          | inr e ↦ subst (λ g. lookup g k.current ≡ none) e other
        ])
        (λ u k q. tt)
        (Runs-start d injective calm now (λ g. (a.guest_id ≡ g) ⊎ (b.guest_id ≡ g)) a b (inl refl)
          (inr refl) sides)

  pub Runs-start_pair :
      (a b : Waiting)
      → (IsVisitor a.guest_id → Sides a.guest_id b.guest_id)
      → Runs d.new_id
          (λ k. IsFree a k × (lookup b.guest_id k.current ≡ none))
          (start_conversation d now a b)
          Whatever
  Runs-start_pair a b sides =
      Runs-assume d.new_id (λ k ((visits, free), other). visits)
        (λ visits. start_pair a b (sides visits))

  Runs-accept :
      (i : CompanionInvite) (w : Waiting) → Runs d.new_id (IsFree w) (accept d now i w) Whatever
  unfolding accept
  Runs-accept i w = Runs-after d.new_id _ _ (search quiet_rules) (λ lit.
      Runs-if d.new_id (not lit) _ _
        (λ t.
          Runs-after d.new_id _ _ (Quiet-clear_companion cancelled)
            (λ u. Runs-throw d.new_id closed))
        (λ f.
          Runs-bind d.new_id (λ o k. IsFree w k × Finds companion_id o k) _ _
            (Runs-current d.new_id (IsFree w) companion_id)
            (λ o. Runs-bind d.new_id _ _ _ (Runs-reject d.new_id (is_some o) companion_busy) (λ u.
              Runs-after d.new_id _ _ (search quiet_rules) (λ blocked.
                Runs-after d.new_id _ _ (search quiet_rules) (λ u.
                  Runs-after d.new_id _ _ (Quiet-clear_companion accepted) (λ u.
                    Runs-weaken d.new_id (λ k (p, e). (p.0, unless_talking companion_id o k p.1 e))
                      (λ u k q. q)
                      (Runs-start_pair w
                        (record {
                          guest_id = companion_id;
                          profile = or_default i.profile companion_profile_default;
                          joined_at = now;
                        })
                        (Sides-companion w.guest_id)))))))))

  Runs-lapse :
      Runs d.new_id Anything
        (do clear_companion expired; throw {A = Done} invite_unavailable)
        Whatever
  Runs-lapse =
      Runs-after d.new_id _ _ (Quiet-clear_companion expired)
        (λ u. Runs-throw d.new_id invite_unavailable)

  Runs-answer_to :
      (i : CompanionInvite) (g : GuestId) (accepts : Bool)
      → Runs d.new_id Anything (answer_to d now i g accepts) Whatever
  unfolding answer_to
  Runs-answer_to i g accepts = Runs-after d.new_id _ _ (search quiet_rules) (λ seen.
      Runs-bind d.new_id (λ o k. Unit {0} × Entry g o k) _ _ (Runs-waiting_of d.new_id Anything g)
        (λ o.
          Runs-option d.new_id o _ _ (λ e. Runs-weaken d.new_id (λ k p. tt) (λ u k p. p) Runs-lapse)
            (λ w e. rw e (
              Runs-if d.new_id _ _ _ (λ t. Runs-weaken d.new_id (λ k p. tt) (λ u k p. p) Runs-lapse)
                (λ f.
                  Runs-if d.new_id accepts _ _
                    (λ t. Runs-weaken d.new_id (λ k p. p.1.1) (λ u k q. q) (Runs-accept i w))
                    (λ f.
                      Runs-weaken d.new_id (λ k p. tt) (λ u k p. tt)
                        (Runs-quiet d.new_id Anything _ (Quiet-clear_companion declined))))))))

  pub Runs-answer_companion :
      (g : GuestId) (id : Option ℕ) (accepts : Bool)
      → Runs d.new_id Anything (answer_companion d now g id accepts) Whatever
  unfolding answer_companion
  Runs-answer_companion g id accepts = Runs-after d.new_id _ _ (search quiet) (λ u.
      Runs-after d.new_id _ _ (search quiet) (λ u.
        Runs-after d.new_id _ _ (search quiet_rules) (λ o.
          Runs-option d.new_id o _ _ (λ e. Runs-throw d.new_id invite_unavailable)
            (λ i e.
              Runs-if d.new_id _ _ _ (λ t. Runs-answer_to i g accepts)
                (λ f. Runs-throw d.new_id invite_unavailable)))))
