-- ===== src/Town/Sound/Store/Starting.antt =====
-- The invariant under saveConversation of edge/src/store.ts: a new conversation, and an extended one.
use focustown_public.Prelude.{
  ℕ, suc, ◌<◌, ◌≡◌, ◌≢◌, refl, sym, ap, subst, ◌∙◌, ◌⊎◌, inl, inr, true, none, some, List, [], ◌∷◌,
  arith, if◌then◌else◌, eqb, eqb_iff, lookup, insert, lookup-insert, contains, Among, Among-append,
  append-Among_left, append-Among_right, Option-cases, Bool-cases, ℕ_eq,
}
use focustown_public.Guest.{GuestId, GuestId_eq, guest_beq, guest_beq_iff}
use focustown_public.Rules.Pairing.{Waiting}
use focustown_public.Store.State.{State, Conversation}
use focustown_public.Store.Queue.{IsAbsent}
use focustown_public.Store.Chats.{save_conversation}
use focustown_public.Town.Hoare.{core}
use focustown_public.Town.Sound.{IsVisitor, Sides, IsLive, Agrees, Sound}

contains-Among : (k : ℕ) (xs : List ℕ) → contains xs k ≡ true → Among k xs
contains-Among k [] h = cc
contains-Among k (x ∷ xs) h = ground (arith, eqb_iff x k, contains-Among k xs)

absent-ne :
    (g : GuestId) (w : Waiting) (ws : List Waiting) → IsAbsent g ws → Among w ws → w.guest_id ≢ g
absent-ne g w [] h m = absurd m
absent-ne g w (x ∷ ws) h (inl e) = λ i. h.0 (ap (λ (v : Waiting). v.guest_id) (sym e) ∙ i)
absent-ne g w (x ∷ ws) h (inr m) = absent-ne g w ws h.1 m

module _ (s : State) (c : Conversation) where
  pub current-save :
      (g : GuestId)
      → lookup g (save_conversation c s).current ≡ (
          if guest_beq c.guest_b g
          then some c.id
          else if guest_beq c.guest_a g
          then some c.id
          else lookup g s.current)
  unfolding save_conversation
  current-save g =
      rw (lookup-insert c.guest_b g c.id (insert c.guest_a c.id s.current))
        (rw (lookup-insert c.guest_a g c.id s.current))

  pub convs-save :
      (id : ℕ)
      → lookup id (save_conversation c s).convs
        ≡ (if eqb c.id id then some c else lookup id s.convs)
  unfolding save_conversation
  convs-save id = lookup-insert c.id id c s.convs

  active-save_old : (id : ℕ) → Among id s.active → Among id (save_conversation c s).active
  unfolding save_conversation
  active-save_old id h = elim (Bool-cases (contains s.active c.id)) [
    | inl e ↦ rw e h
    | inr e ↦ rw e (append-Among_left id s.active (c.id ∷ []) h)
  ]

  active-save_own : Among c.id (save_conversation c s).active
  unfolding save_conversation
  active-save_own = elim (Bool-cases (contains s.active c.id)) [
    | inl e ↦ rw e (contains-Among c.id s.active e)
    | inr e ↦ rw e (append-Among_right c.id s.active (c.id ∷ []) (inl refl))
  ]

  active-save_split :
      (id : ℕ) → Among id (save_conversation c s).active → Among id s.active ⊎ (id ≡ c.id)
  unfolding save_conversation
  active-save_split id h = ground (arith, Among-append id s.active (c.id ∷ []))

  IsLive-save : (id : ℕ) → IsLive (core s) id → IsLive (core (save_conversation c s)) id
  IsLive-save id (v, e) = elim (Bool-cases (eqb c.id id)) [
    | inl t ↦ (c, ground (arith, convs-save id))
    | inr f ↦ (v, ground (arith, convs-save id))
  ]

  IsLive-save_own : IsLive (core (save_conversation c s)) c.id
  IsLive-save_own = (c, ground (arith, convs-save c.id, eqb_iff c.id c.id))

-- What the two fields that every save writes need, whether the conversation is new or not.
module _ (new_id : ℕ → ℕ) (drawn : ℕ) (s : State) (c : Conversation)
    (ok : Sound new_id drawn (core s)) where
  save-active-IsLive :
      (id : ℕ) → Among id (save_conversation c s).active → IsLive (core (save_conversation c s)) id
  save-active-IsLive id h = elim (active-save_split s c id h) [
    | inl m ↦ IsLive-save s c id (ok.active_live id m)
    | inr e ↦ rw e (IsLive-save_own s c)
  ]

module _ (new_id : ℕ → ℕ) (injective : (i j : ℕ) → new_id i ≡ new_id j → i ≡ j) (drawn : ℕ)
    (s : State) (c : Conversation) (ok : Sound new_id drawn (core s)) (fresh : c.id ≡ new_id drawn)
    (free_a : lookup c.guest_a s.current ≡ none) (free_b : lookup c.guest_b s.current ≡ none)
    (sides : Sides c.guest_a c.guest_b) (left_a : IsAbsent c.guest_a s.queue)
    (left_b : IsAbsent c.guest_b s.queue) where
  unused : lookup c.id s.convs ≡ none
  unused = elim (Option-cases (lookup c.id s.convs)) [
    | inl e ↦ e
    | inr (v, e) ↦
        let (k, below, at) = ok.drawn_before c.id v e in
        absurd (omega (arith, injective k drawn (sym at ∙ fresh)))
  ]

  start-current_valid :
      (g : GuestId) (id : ℕ)
      → lookup g (save_conversation c s).current ≡ some id
      → (v : Conversation) × (lookup id (save_conversation c s).convs ≡ some v)
        × ((v.guest_a ≡ g) ⊎ (v.guest_b ≡ g))
  start-current_valid g id h = elim (Bool-cases (guest_beq c.guest_a g)) [
    | inl at_a ↦ (
      c,
      ground (arith, current-save s c g, convs-save s c id, eqb_iff c.id id),
      inl ((guest_beq_iff c.guest_a g).0 at_a),
    )
    | inr not_a ↦ elim (Bool-cases (guest_beq c.guest_b g)) [
      | inl at_b ↦ (
        c,
        ground (arith, current-save s c g, convs-save s c id, eqb_iff c.id id),
        inr ((guest_beq_iff c.guest_b g).0 at_b),
      )
      | inr not_b ↦
          let (v, at, side) = ok.current_valid g id (ground (arith, current-save s c g)) in
          (v, ground (arith, convs-save s c id, eqb_iff c.id id, unused, at), side)
    ]
  ]

  -- the new conversation itself
  start-own : Agrees (core (save_conversation c s)) c.id c
  start-own = record {
    own_id = refl;
    current_a = ground (arith, current-save s c c.guest_a, guest_beq_iff c.guest_a c.guest_a);
    current_b = ground (arith, current-save s c c.guest_b, guest_beq_iff c.guest_b c.guest_b);
    listed = active-save_own s c;
    sides = sides;
  }

  start-other :
      (id : ℕ) (v : Conversation)
      → Agrees (core s) id v
      → Agrees (core (save_conversation c s)) id v
  start-other id v old = record {
    own_id = old.own_id;
    current_a = ground (
      arith,
      current-save s c v.guest_a,
      guest_beq_iff c.guest_a v.guest_a,
      guest_beq_iff c.guest_b v.guest_a,
      old.current_a,
    );
    current_b = ground (
      arith,
      current-save s c v.guest_b,
      guest_beq_iff c.guest_a v.guest_b,
      guest_beq_iff c.guest_b v.guest_b,
      old.current_b,
    );
    listed = active-save_old s c id old.listed;
    sides = old.sides;
  }

  start-conv_valid :
      (id : ℕ) (v : Conversation)
      → lookup id (save_conversation c s).convs ≡ some v
      → Agrees (core (save_conversation c s)) id v
  start-conv_valid id v h = elim (Bool-cases (eqb c.id id)) [
    | inl same ↦
        subst (λ k. Agrees (core (save_conversation c s)) k v) ((eqb_iff c.id id).0 same)
          (subst (Agrees (core (save_conversation c s)) c.id) (ground (arith, convs-save s c id))
            start-own)
    | inr other ↦ start-other id v (ok.conv_valid id v (ground (arith, convs-save s c id)))
  ]

  start-waiting_free :
      (w : Waiting)
      → Among w s.queue
      → (lookup w.guest_id (save_conversation c s).current ≡ none) × IsVisitor w.guest_id
  start-waiting_free w m =
      let (free, visits) = ok.waiting_free w m in
      (
        ground (
          arith,
          current-save s c w.guest_id,
          guest_beq_iff c.guest_a w.guest_id,
          guest_beq_iff c.guest_b w.guest_id,
          absent-ne c.guest_a w s.queue left_a m,
          absent-ne c.guest_b w s.queue left_b m,
        ),
        visits,
      )

  start-drawn_before :
      (id : ℕ) (v : Conversation)
      → lookup id (save_conversation c s).convs ≡ some v
      → (k : ℕ) × (k < suc drawn) × (id ≡ new_id k)
  start-drawn_before id v h = elim (Bool-cases (eqb c.id id)) [
    | inl same ↦ (drawn, omega arith, ground (arith, eqb_iff c.id id))
    | inr other ↦
        let (k, below, at) = ok.drawn_before id v (ground (arith, convs-save s c id)) in
        (k, omega arith, at)
  ]

  -- A conversation under a fresh id, of two guests who are in none and no longer wait, keeps the
  -- invariant.
  pub start-Sound : Sound new_id (suc drawn) (core (save_conversation c s))
  unfolding save_conversation
  start-Sound = record {
    current_valid = start-current_valid;
    conv_valid = start-conv_valid;
    active_live = save-active-IsLive new_id drawn s c ok;
    lines_live = λ id l h. IsLive-save s c id (ok.lines_live id l h);
    votes_live = λ id l h. IsLive-save s c id (ok.votes_live id l h);
    waiting_free = start-waiting_free;
    queue_once = ok.queue_once;
    closed_empty = ok.closed_empty;
    drawn_before = start-drawn_before;
  }

module _ (new_id : ℕ → ℕ) (drawn : ℕ) (s : State) (c new : Conversation)
    (ok : Sound new_id drawn (core s)) (kept : lookup c.id s.convs ≡ some c)
    (same_id : new.id ≡ c.id) (same_a : new.guest_a ≡ c.guest_a)
    (same_b : new.guest_b ≡ c.guest_b) where
  old : Agrees (core s) c.id c
  old = ok.conv_valid c.id c kept

  same-current : (g : GuestId) → lookup g (save_conversation new s).current ≡ lookup g s.current
  same-current g = ground (
    arith,
    current-save s new g,
    guest_beq_iff new.guest_a g,
    guest_beq_iff new.guest_b g,
    same_id,
    same_a,
    same_b,
    old.current_a,
    old.current_b,
  )

  resave-current_valid :
      (g : GuestId) (id : ℕ)
      → lookup g (save_conversation new s).current ≡ some id
      → (v : Conversation) × (lookup id (save_conversation new s).convs ≡ some v)
        × ((v.guest_a ≡ g) ⊎ (v.guest_b ≡ g))
  resave-current_valid g id h =
      let (v, at, side) = ok.current_valid g id (sym (same-current g) ∙ h) in
      elim (Bool-cases (eqb new.id id)) [
        | inl t ↦ (
          new,
          ground (arith, convs-save s new id),
          ground (arith, eqb_iff new.id id, same_id, same_a, same_b, kept, at, side),
        )
        | inr f ↦ (v, ground (arith, convs-save s new id, at), side)
      ]

  resave-Agrees :
      (id : ℕ) (v w : Conversation)
      → Agrees (core s) id v
      → w.id ≡ v.id
      → w.guest_a ≡ v.guest_a
      → w.guest_b ≡ v.guest_b
      → Agrees (core (save_conversation new s)) id w
  resave-Agrees id v w k e ea eb = record {
    own_id = e ∙ k.own_id;
    current_a = same-current w.guest_a ∙ ap (λ g. lookup g s.current) ea ∙ k.current_a;
    current_b = same-current w.guest_b ∙ ap (λ g. lookup g s.current) eb ∙ k.current_b;
    listed = active-save_old s new id k.listed;
    sides = rw (ea, eb) k.sides;
  }

  resave-conv_valid :
      (id : ℕ) (v : Conversation)
      → lookup id (save_conversation new s).convs ≡ some v
      → Agrees (core (save_conversation new s)) id v
  resave-conv_valid id v h = elim (Bool-cases (eqb new.id id)) [
    | inl t ↦
        let e : new ≡ v = ground (arith, convs-save s new id) in
        let at : c.id ≡ id = sym same_id ∙ (eqb_iff new.id id).0 t in
        subst (Agrees (core (save_conversation new s)) id) e
          (resave-Agrees id c new (subst (λ k. Agrees (core s) k c) at old) same_id same_a same_b)
    | inr f ↦
        resave-Agrees id v v (ok.conv_valid id v (ground (arith, convs-save s new id))) refl refl
          refl
  ]

  resave-drawn_before :
      (id : ℕ) (v : Conversation)
      → lookup id (save_conversation new s).convs ≡ some v
      → (k : ℕ) × (k < drawn) × (id ≡ new_id k)
  resave-drawn_before id v h = elim (Bool-cases (eqb new.id id)) [
    | inl t ↦
        ok.drawn_before id c
          (subst (λ k. lookup k s.convs ≡ some c) (sym same_id ∙ (eqb_iff new.id id).0 t) kept)
    | inr f ↦ ok.drawn_before id v (ground (arith, convs-save s new id))
  ]

  -- So does writing a kept conversation anew, for the same two guests.
  pub resave-Sound : Sound new_id drawn (core (save_conversation new s))
  unfolding save_conversation
  resave-Sound = record {
    current_valid = resave-current_valid;
    conv_valid = resave-conv_valid;
    active_live = save-active-IsLive new_id drawn s new ok;
    lines_live = λ id l h. IsLive-save s new id (ok.lines_live id l h);
    votes_live = λ id l h. IsLive-save s new id (ok.votes_live id l h);
    waiting_free =
        λ w m. let (free, visits) = ok.waiting_free w m in (same-current w.guest_id ∙ free, visits);
    queue_once = ok.queue_once;
    closed_empty = ok.closed_empty;
    drawn_before = resave-drawn_before;
  }
