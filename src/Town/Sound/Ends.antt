-- ===== src/Town/Sound/Ends.antt =====
-- The invariant under close, restrict, require and current of edge/src/town.ts.
use focustown_public.Prelude.{subst, if◌then◌else◌}
use focustown_public.Prelude.{
  ℕ, ◌≡◌, refl, sym, ◌⊎◌, Bool, Option, none, some, List, [], ◌∷◌, arith, lookup, ℕ_eq,
}
use focustown_public.Guest.{GuestId, GuestId_eq}
use focustown_public.Rules.Profile.{no_conversation}
use focustown_public.Store.State.{State, Conversation}
use focustown_public.Store.Queue.{dequeue}
use focustown_public.Store.Chats.{close_conversation, get_conversation, conversation_id_of}
use focustown_public.Town.World.{Deps, EndReason, cancelled, suspended_end, partner_left}
use focustown_public.Town.Exec.{store_to, stored, lift, done, throw, pure, on_option, ◌>>=◌, ◌>>◌}
use focustown_public.Town.Session.{
  current_of, current, close, restrict, abort_request, partner_of, require,
}
use focustown_public.Town.Hoare.{Core, core, quiet_rules, Quiet-done}
use focustown_public.Town.Sound.{Sound}
use focustown_public.Town.Sound.Waits.{SameGuests}
use focustown_public.Town.Sound.Quiet.{
  Quiet-send, Quiet-modify, Quiet-cancel_companion_for, Quiet-require_allowed,
}
use focustown_public.Town.Sound.Rules.{
  Runs, Anything, Whatever, Runs-after, Runs-bind, Runs-option, Runs-quiet, Runs-weaken,
  Runs-store_to, Runs-stored, Runs-gets, Runs-lift, Runs-throw, Runs-pure, Runs-if,
}
use focustown_public.Town.Sound.Store.Ending.{close-Sound}
use focustown_public.Town.Sound.Store.Waiting.{dequeue-Sound}

-- The conversation is kept as it is.
abbrev pub Held : Conversation → Core → Type 0
Held c k = lookup c.id k.convs ≡ some c

-- A conversation of the same two guests is kept under its id.
abbrev pub KeptAs : Conversation → Core → Type 0
KeptAs c k = (v : Conversation) × (lookup c.id k.convs ≡ some v) × SameGuests v c

close-same :
    (u c : Conversation) (s : State)
    → u.id ≡ c.id
    → SameGuests u c
    → close_conversation u s ≡ close_conversation c s
unfolding close_conversation
close-same u c s own (a, b) = rw (own, a, b) refl

-- What `current` found of the guest.
abbrev pub Finds : GuestId → Option Conversation → Core → Type 0
Finds g none k = lookup g k.current ≡ none
Finds g (some c) k =
    (lookup c.id k.convs ≡ some c)
    × (lookup g k.current ≡ some c.id)
    × ((c.guest_a ≡ g) ⊎ (c.guest_b ≡ g))

current_of-none : (s : State) (g : GuestId) → lookup g s.current ≡ none → current_of g s ≡ none
unfolding current_of conversation_id_of
current_of-none s g e = ground arith

current_of-some :
    (s : State) (g : GuestId) (id : ℕ) (c : Conversation)
    → lookup g s.current ≡ some id
    → lookup id s.convs ≡ some c
    → current_of g s ≡ some c
unfolding current_of conversation_id_of get_conversation
current_of-some s g id c e at = ground arith

module _ (new_id : ℕ → ℕ) where
  found :
      (n : ℕ) (s : State) (g : GuestId) (o : Option ℕ)
      → Sound new_id n (core s)
      → lookup g s.current ≡ o
      → Finds g (current_of g s) (core s)
  found n s g none v e = subst (λ o. Finds g o (core s)) (sym (current_of-none s g e)) e
  found n s g (some id) v e =
      let (c, at, side) = v.current_valid g id e in
      let own = (v.conv_valid id c at).own_id in
      subst (λ o. Finds g o (core s)) (sym (current_of-some s g id c e at))
        (subst
          (λ i.
            (lookup i s.convs ≡ some c)
            × (lookup g s.current ≡ some i)
            × ((c.guest_a ≡ g) ⊎ (c.guest_b ≡ g)))
          (sym own) (at, e, side))

  pub current_of-Finds :
      (n : ℕ) (s : State) (g : GuestId)
      → Sound new_id n (core s)
      → Finds g (current_of g s) (core s)
  current_of-Finds n s g v = found n s g (lookup g s.current) v refl

  pub Runs-current :
      (P : Core → Type 0) (g : GuestId) → Runs new_id P (current g) (λ o k. P k × Finds g o k)
  Runs-current P g =
      Runs-gets new_id (λ w. current_of g w.store)
        (λ w s p. (p, current_of-Finds w.drawn w.store g s))

  -- Closing asks for the two guests of what is kept under the id, not for the rest of it.
  close_kept-Sound :
      (n : ℕ) (s : State) (c : Conversation)
      → Sound new_id n (core s)
      → KeptAs c (core s)
      → Sound new_id n (core (close_conversation c s))
  close_kept-Sound n s c v (u, at, same) =
      let own = (v.conv_valid c.id u at).own_id in
      subst (λ t. Sound new_id n (core t)) (close-same u c s own same)
        (close-Sound new_id n s u v (subst (λ i. lookup i s.convs ≡ some u) (sym own) at))

  pub Runs-close_kept :
      (c : Conversation) (reasons : List (GuestId × EndReason))
      → Runs new_id (KeptAs c) (close c reasons) Whatever
  unfolding close
  Runs-close_kept c reasons =
      Runs-after new_id _ _
        (Quiet-modify (λ w. record w { jojo_requests = abort_request c.id w.jojo_requests })
          (λ w. refl) (λ w. refl))
        (λ u.
          Runs-bind new_id Whatever (store_to (close_conversation c)) _
            (Runs-store_to new_id (close_conversation c)
              (λ s n v kept. (close_kept-Sound n s c v kept, tt)))
            (λ u. Runs-quiet new_id Anything _ (search (quiet_rules, Quiet-send))))

  pub Runs-close :
      (c : Conversation) (reasons : List (GuestId × EndReason))
      → Runs new_id (Held c) (close c reasons) Whatever
  Runs-close c reasons =
      Runs-weaken new_id (λ k held. (c, held, (refl, refl))) (λ u k q. q)
        (Runs-close_kept c reasons)

  pub Runs-dequeue : (g : GuestId) → Runs new_id Anything (stored (dequeue g)) Whatever
  Runs-dequeue g = Runs-stored new_id (dequeue g) (λ s n v p. (dequeue-Sound new_id n s v g, tt))

  -- Whatever is known of the partner, the conversation found can be closed.
  pub close_found :
      (g : GuestId) (c : Conversation) (reasons : GuestId → List (GuestId × EndReason))
      → Runs new_id
          (Finds g (some c))
          (lift (partner_of c g) >>= λ other. close c (reasons other))
          Whatever
  close_found g c reasons =
      Runs-bind new_id (λ other. Held c) (lift (partner_of c g)) (λ other. close c (reasons other))
        (Runs-lift new_id (partner_of c g) (λ other e k f. f.0))
        (λ other. Runs-close c (reasons other))

  -- A guest's conversation, ended if there is one.
  pub close_current :
      (g : GuestId) (reasons : GuestId → List (GuestId × EndReason))
      → Runs new_id Anything
          (current g >>= λ c.
            on_option c done (λ c. lift (partner_of c g) >>= λ other. close c (reasons other)))
          Whatever
  close_current g reasons =
      Runs-bind new_id (λ o k. Finds g o k) (current g) _
        (Runs-weaken new_id (λ k p. p) (λ o k f. f.1) (Runs-current Anything g))
        (λ o.
          Runs-option new_id o _ _
            (λ e.
              Runs-weaken new_id (λ k p. tt) (λ u k p. tt)
                (Runs-quiet new_id Anything done Quiet-done))
            (λ c e. rw e (close_found g c reasons)))

  pub Runs-restrict : (g : GuestId) → Runs new_id Anything (restrict g) Whatever
  unfolding restrict
  Runs-restrict g = Runs-after new_id _ _ (Quiet-cancel_companion_for g cancelled) (λ u.
      Runs-bind new_id Whatever _ _ (Runs-dequeue g)
        (λ u. close_current g (λ other. (g, suspended_end) ∷ (other, partner_left) ∷ [])))

  -- Where the partner is suspended, the chat is ended and nothing is returned.
  Runs-unless_barred :
      (c : Conversation) (other : GuestId) (b : Bool)
      → Runs new_id
          (Held c)
          (if b then (do restrict other; throw no_conversation) else pure c)
          (λ r. Held r)
  Runs-unless_barred c other b =
      Runs-if new_id b _ _
        (λ t.
          Runs-weaken new_id (λ k p. tt) (λ r k p. p)
            (Runs-bind new_id Whatever (restrict other) _ (Runs-restrict other)
              (λ u. Runs-throw new_id no_conversation)))
        (λ f. Runs-pure new_id c (λ k p. p))

  pub Runs-require :
      (d : Deps) (now : ℕ) (g : GuestId) → Runs new_id Anything (require d now g) (λ r. Held r)
  unfolding require
  Runs-require d now g = Runs-after new_id _ _ (Quiet-require_allowed d now g) (λ u.
      Runs-bind new_id (λ o k. Finds g o k) (current g) _
        (Runs-weaken new_id (λ k p. p) (λ o k f. f.1) (Runs-current Anything g))
        (λ o.
          Runs-option new_id o _ _ (λ e. Runs-throw new_id no_conversation)
            (λ c e. rw e (
              Runs-bind new_id (λ other. Held c) (lift (partner_of c g)) _
                (Runs-lift new_id (partner_of c g) (λ other q k f. f.0))
                (λ other.
                  Runs-after new_id _ _ (search quiet_rules)
                    (λ b. Runs-unless_barred c other b))))))
