-- ===== src/Town/Sound/Store/Talking.antt =====
-- The invariant under appendLine and addExtendVote of edge/src/store.ts.
use focustown_public.Prelude.{
  ℕ, ◌≡◌, some, List, [], ◌∷◌, arith, eqb, eqb_iff, lookup, insert, erase, lookup-insert,
  lookup-erase, contains, ◌&&◌, Bool-cases, inl, inr, subst, Assoc, take_last, ◌++◌, ℕ_eq,
}
use focustown_public.Guest.{GuestId, GuestId_eq}
use focustown_public.Store.State.{State, Conversation, Line}
use focustown_public.Store.Chats.{
  append_line, transcript, transcript_max_lines, add_extend_vote, add_vote, extend_votes,
}
use focustown_public.Town.Hoare.{core}
use focustown_public.Town.Sound.{IsLive, Sound}

module _ (new_id : ℕ → ℕ) (drawn : ℕ) (s : State) (ok : Sound new_id drawn (core s)) where
  append-lines-IsLive :
      (id : ℕ) (line : Line)
      → IsLive (core s) id
      → (j : ℕ) (l : List Line) → lookup j (append_line id line s).lines ≡ some l
      → IsLive (core s) j
  unfolding append_line
  append-lines-IsLive id line live j l h = elim (Bool-cases (eqb id j)) [
    | inl t ↦ subst (IsLive (core s)) ((eqb_iff id j).0 t) live
    | inr f ↦ ok.lines_live j l (
        ground (
          arith,
          lookup-insert id j (take_last transcript_max_lines (transcript id s ++ line ∷ []))
              s.lines,
        ))
  ]

  pub append_line-Sound :
      (id : ℕ) (line : Line)
      → IsLive (core s) id
      → Sound new_id drawn (core (append_line id line s))
  unfolding append_line
  append_line-Sound id line live = record {
    current_valid = ok.current_valid;
    conv_valid = λ j v h.
        let a = ok.conv_valid j v h in
        record {
          own_id = a.own_id;
          current_a = a.current_a;
          current_b = a.current_b;
          listed = a.listed;
          sides = a.sides;
        };
    active_live = ok.active_live;
    lines_live = append-lines-IsLive id line live;
    votes_live = ok.votes_live;
    waiting_free = ok.waiting_free;
    queue_once = ok.queue_once;
    closed_empty = ok.closed_empty;
    drawn_before = ok.drawn_before;
  }

  -- The invariant sees nothing of the votes but which conversations have some.
  revote :
      (m : Assoc ℕ (List GuestId))
      → ((j : ℕ) (l : List GuestId) → lookup j m ≡ some l → IsLive (core s) j)
      → Sound new_id drawn (core (record s { votes = m }))
  revote m live = record {
    current_valid = ok.current_valid;
    conv_valid = λ j v h.
        let a = ok.conv_valid j v h in
        record {
          own_id = a.own_id;
          current_a = a.current_a;
          current_b = a.current_b;
          listed = a.listed;
          sides = a.sides;
        };
    active_live = ok.active_live;
    lines_live = ok.lines_live;
    votes_live = live;
    waiting_free = ok.waiting_free;
    queue_once = ok.queue_once;
    closed_empty = ok.closed_empty;
    drawn_before = ok.drawn_before;
  }

  erase-votes-IsLive :
      (id j : ℕ) (l : List GuestId) → lookup j (erase id s.votes) ≡ some l → IsLive (core s) j
  erase-votes-IsLive id j l h = ok.votes_live j l (ground (arith, lookup-erase id j s.votes))

  insert-votes-IsLive :
      (id : ℕ) (votes : List GuestId)
      → IsLive (core s) id
      → (j : ℕ) (l : List GuestId) → lookup j (insert id votes s.votes) ≡ some l
      → IsLive (core s) j
  insert-votes-IsLive id votes live j l h = elim (Bool-cases (eqb id j)) [
    | inl t ↦ subst (IsLive (core s)) ((eqb_iff id j).0 t) live
    | inr f ↦ ok.votes_live j l (ground (arith, lookup-insert id j votes s.votes))
  ]

  pub add_extend_vote-Sound :
      (c : Conversation) (g : GuestId)
      → IsLive (core s) c.id
      → Sound new_id drawn (core (add_extend_vote c g s).1)
  unfolding add_extend_vote
  add_extend_vote-Sound c g live =
      let votes = add_vote g (extend_votes c.id s) in
      elim (Bool-cases (contains votes c.guest_a && contains votes c.guest_b)) [
        | inl both ↦ rw both (revote (erase c.id s.votes) (erase-votes-IsLive c.id))
        | inr one ↦
            rw one (revote (insert c.id votes s.votes) (insert-votes-IsLive c.id votes live))
      ]
