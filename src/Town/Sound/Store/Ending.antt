-- ===== src/Town/Sound/Store/Ending.antt =====
-- The invariant under closeConversation and pruneExpired of edge/src/store.ts.
use focustown_public.Prelude.{keep_entries}
use focustown_public.Prelude.{
  ℕ, ◌≡◌, ◌≢◌, refl, ap, ◌⊎◌, Bool, true, not, none, some, List, [], ◌∷◌, arith, if◌then◌else◌, eqb,
  eqb_iff, lookup, erase, insert, lookup-erase, select, Among, Among-select, select-Among, Assoc,
  ℕ_eq, ◌==◌,
}
use focustown_public.Guest.{
  GuestId, GuestId_eq, guest_beq, guest_beq_iff, visitor, companion_id, jojo_id,
}
use focustown_public.Rules.Pairing.{Waiting}
use focustown_public.Store.State.{State, Conversation, Line}
use focustown_public.Store.Chats.{close_conversation, drop_current, prune_expired}
use focustown_public.Town.Hoare.{core}
use focustown_public.Town.Sound.{IsVisitor, Sides, IsLive, Agrees, Sound}

pub Sides-ne : (a b : GuestId) → Sides a b → a ≢ b
Sides-ne (visitor n) (visitor m) h e = ground arith
Sides-ne (visitor n) companion_id h e = cc
Sides-ne (visitor n) (jojo_id (visitor m)) h e = cc
Sides-ne (visitor n) (jojo_id companion_id) h e = absurd h
Sides-ne (visitor n) (jojo_id (jojo_id g)) h e = absurd h
Sides-ne companion_id b h e = absurd h
Sides-ne (jojo_id a) b h e = absurd h

drop_current_lem :
    (id : ℕ) (g : GuestId) (m : Assoc GuestId ℕ)
    → lookup g m ≡ some id
    → drop_current id g m ≡ erase g m
unfolding drop_current
drop_current_lem id g m h = ground (arith, eqb_iff id id)

module _ (new_id : ℕ → ℕ) (drawn : ℕ) (s : State) (c : Conversation)
    (ok : Sound new_id drawn (core s)) (kept : lookup c.id s.convs ≡ some c) where
  agrees : Agrees (core s) c.id c
  agrees = ok.conv_valid c.id c kept

  current-close :
      (g : GuestId)
      → lookup g (close_conversation c s).current ≡ (
          if guest_beq c.guest_b g
          then none
          else if guest_beq c.guest_a g
          then none
          else lookup g s.current)
  unfolding close_conversation
  current-close g = rw (drop_current_lem c.id c.guest_a s.current agrees.current_a) (
      rw
        (drop_current_lem c.id c.guest_b (erase c.guest_a s.current) (
          ground (
            arith,
            lookup-erase c.guest_a c.guest_b s.current,
            agrees.current_b,
            guest_beq_iff c.guest_a c.guest_b,
            Sides-ne c.guest_a c.guest_b agrees.sides,
          )))
        (rw (lookup-erase c.guest_b g (erase c.guest_a s.current))
          (rw (lookup-erase c.guest_a g s.current))))

  convs-close :
      (id : ℕ)
      → lookup id (close_conversation c s).convs ≡ (if eqb c.id id then none else lookup id s.convs)
  unfolding close_conversation
  convs-close id = lookup-erase c.id id s.convs

  IsLive-close :
      (id : ℕ) → c.id ≢ id → IsLive (core s) id → IsLive (core (close_conversation c s)) id
  IsLive-close id h (v, e) = (v, ground (arith, convs-close id, eqb_iff c.id id))

  other_guest :
      (g : GuestId) (id : ℕ)
      → lookup g (close_conversation c s).current ≡ some id
      → (c.guest_a ≢ g) × (c.guest_b ≢ g) × (lookup g s.current ≡ some id)
  other_guest g id h =
      ground (arith, current-close g, guest_beq_iff c.guest_b g, guest_beq_iff c.guest_a g)

  close-current_valid :
      (g : GuestId) (id : ℕ)
      → lookup g (close_conversation c s).current ≡ some id
      → (v : Conversation) × (lookup id (close_conversation c s).convs ≡ some v)
        × ((v.guest_a ≡ g) ⊎ (v.guest_b ≡ g))
  close-current_valid g id h =
      let (na, nb, old) = other_guest g id h in
      let (v, at, side) = ok.current_valid g id old in
      (v, ground (arith, convs-close id, eqb_iff c.id id, kept, at, side, na, nb), side)

  current_stays :
      (g : GuestId) (id : ℕ)
      → c.id ≢ id
      → lookup g s.current ≡ some id
      → lookup g (close_conversation c s).current ≡ some id
  current_stays g id h e = ground (
    arith,
    current-close g,
    guest_beq_iff c.guest_b g,
    guest_beq_iff c.guest_a g,
    agrees.current_a,
    agrees.current_b,
  )

  close-conv_valid :
      (id : ℕ) (v : Conversation)
      → lookup id (close_conversation c s).convs ≡ some v
      → Agrees (core (close_conversation c s)) id v
  unfolding close_conversation
  close-conv_valid id v h =
      let h' = rw (convs-close id) at h in
      let ne : c.id ≢ id = ground (arith, convs-close id, eqb_iff c.id id) in
      let old = ok.conv_valid id v (ground (arith, convs-close id)) in
      record {
        own_id = old.own_id;
        current_a = current_stays v.guest_a id ne old.current_a;
        current_b = current_stays v.guest_b id ne old.current_b;
        listed =
            select-Among _ id s.active old.listed
              (ground (arith, eqb_iff c.id id, eqb_iff id c.id));
        sides = old.sides;
      }

  close-active-IsLive :
      (id : ℕ)
      → Among id (close_conversation c s).active
      → IsLive (core (close_conversation c s)) id
  unfolding close_conversation
  close-active-IsLive id h =
      let (m, t) = Among-select (λ i. not (i == c.id)) id s.active h in
      IsLive-close id (ground (arith, eqb_iff id c.id)) (ok.active_live id m)

  close-lines-IsLive :
      (id : ℕ) (l : List Line)
      → lookup id (close_conversation c s).lines ≡ some l
      → IsLive (core (close_conversation c s)) id
  unfolding close_conversation
  close-lines-IsLive id l h =
      let e = lookup-erase c.id id s.lines in
      IsLive-close id (ground (arith, e, eqb_iff c.id id)) (ok.lines_live id l (ground (arith, e)))

  close-votes-IsLive :
      (id : ℕ) (l : List GuestId)
      → lookup id (close_conversation c s).votes ≡ some l
      → IsLive (core (close_conversation c s)) id
  unfolding close_conversation
  close-votes-IsLive id l h =
      let e = lookup-erase c.id id s.votes in
      IsLive-close id (ground (arith, e, eqb_iff c.id id)) (ok.votes_live id l (ground (arith, e)))

  close-waiting_free :
      (w : Waiting)
      → Among w s.queue
      → (lookup w.guest_id (close_conversation c s).current ≡ none) × IsVisitor w.guest_id
  close-waiting_free w m =
      let (free, visits) = ok.waiting_free w m in (ground (arith, current-close w.guest_id), visits)

  closed-close : (close_conversation c s).closed ≡ []
  unfolding close_conversation
  closed-close = rw ok.closed_empty (unfold insert erase in ground (arith, eqb_iff c.id c.id))

  -- Ending a kept conversation keeps the invariant.
  pub close-Sound : Sound new_id drawn (core (close_conversation c s))
  unfolding close_conversation
  close-Sound = record {
    current_valid = close-current_valid;
    conv_valid = close-conv_valid;
    active_live = close-active-IsLive;
    lines_live = close-lines-IsLive;
    votes_live = close-votes-IsLive;
    waiting_free = close-waiting_free;
    queue_once = ok.queue_once;
    closed_empty = closed-close;
    drawn_before = λ id v h. ok.drawn_before id v (ground (arith, convs-close id));
  }

module _ (new_id : ℕ → ℕ) (drawn now : ℕ) (s : State) (ok : Sound new_id drawn (core s)) where
  select_all : (p : ℕ → Bool) (xs : List ℕ) → ((x : ℕ) → p x ≡ true) → select p xs ≡ xs
  select_all p [] h = refl
  select_all p (x ∷ xs) h = rw (h x) (ap (◌∷◌ x) (select_all p xs h))

  keep_all : (m : Assoc GuestId ℕ) → keep_entries (λ g id. true) m ≡ m
  unfolding keep_entries
  keep_all [] = refl
  keep_all ((g, id) ∷ m) = ap (◌∷◌ (g, id)) (keep_all m)

  -- With no ending interrupted, the clean-up leaves the conversations alone.
  core-prune_expired : core (prune_expired now s) ≡ core s
  unfolding prune_expired
  core-prune_expired =
      ground
        (arith, ok.closed_empty, keep_all s.current, select_all (λ id. true) s.active (λ x. refl))

  pub prune_expired-Sound : Sound new_id drawn (core (prune_expired now s))
  prune_expired-Sound = rw core-prune_expired ok
