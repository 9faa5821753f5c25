-- ===== src/Town/Sound/Store/Waiting.antt =====
-- The invariant under enqueue and dequeue of edge/src/store.ts.
use focustown_public.Prelude.{
  ℕ, ◌≡◌, none, List, [], ◌∷◌, ◌++◌, arith, inl, inr, lookup, select, Among, Among-select,
  Among-append,
}
use focustown_public.Guest.{GuestId, GuestId_eq}
use focustown_public.Rules.Pairing.{Waiting}
use focustown_public.Store.State.{State}
use focustown_public.Store.Queue.{
  enqueue, dequeue, other_than, IsQueue, enqueue-IsQueue, select-IsQueue, select-same,
}
use focustown_public.Town.Hoare.{core}
use focustown_public.Town.Sound.{IsVisitor, Sound}

-- Written or not, the queue after `dequeue` is the filtered one.
dequeue-core :
    (g : GuestId) (s : State)
    → core (dequeue g s).1 ≡ core (record s { queue = select (other_than g) s.queue })
unfolding dequeue
dequeue-core g s = ground (arith, select-same (other_than g) s.queue)

module _ (new_id : ℕ → ℕ) (drawn : ℕ) (s : State) (ok : Sound new_id drawn (core s)) where
  requeue :
      (ws : List Waiting)
      → ((w : Waiting) → Among w ws → (lookup w.guest_id s.current ≡ none) × IsVisitor w.guest_id)
      → IsQueue ws
      → Sound new_id drawn (core (record s { queue = ws }))
  requeue ws free once = record {
    current_valid = ok.current_valid;
    conv_valid = λ j v h.
        let a = ok.conv_valid j v h in
        record {
          own_id = a.own_id;
          current_a = a.current_a;
          current_b = a.current_b;
          listed = a.listed;
          sides = a.sides;
        };
    active_live = ok.active_live;
    lines_live = ok.lines_live;
    votes_live = ok.votes_live;
    waiting_free = free;
    queue_once = once;
    closed_empty = ok.closed_empty;
    drawn_before = ok.drawn_before;
  }

  pub enqueue-Sound :
      (w : Waiting)
      → lookup w.guest_id s.current ≡ none
      → IsVisitor w.guest_id
      → Sound new_id drawn (core (enqueue w s))
  unfolding enqueue
  enqueue-Sound w free visits =
      requeue (select (other_than w.guest_id) s.queue ++ w ∷ [])
        (λ x m. elim (Among-append x (select (other_than w.guest_id) s.queue) (w ∷ []) m) [
          | inl old ↦ ok.waiting_free x (Among-select (other_than w.guest_id) x s.queue old).0
          | inr (inl e) ↦ rw e (free, visits)
          | inr (inr n) ↦ absurd n
        ])
        (enqueue-IsQueue w s ok.queue_once)

  pub dequeue-Sound : (g : GuestId) → Sound new_id drawn (core (dequeue g s).1)
  dequeue-Sound g = rw (dequeue-core g s) (
      requeue (select (other_than g) s.queue)
        (λ x m. ok.waiting_free x (Among-select (other_than g) x s.queue m).0)
        (select-IsQueue (other_than g) s.queue ok.queue_once))
