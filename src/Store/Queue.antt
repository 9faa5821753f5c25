-- ===== src/Store/Queue.antt =====
-- edge/src/store.ts, the waiting room: listWaiting is the field `queue`.
use focustown_public.Prelude.{
  ◌≡◌, ◌≢◌, refl, Bool, true, false, not, List, [], ◌∷◌, ◌++◌, arith, eqb, if◌then◌else◌, length,
  length-select, select, ◌==◌, All, sym,
}
use focustown_public.Guest.{GuestId, GuestId_eq, guest_beq_iff}
use focustown_public.Rules.Pairing.{Waiting}
use focustown_public.Store.State.{State}

-- `x => x.guestId !== guestId`
abbrev pub other_than : GuestId → Waiting → Bool
other_than guest_id w = not (w.guest_id == guest_id)

unfoldable pub enqueue : Waiting → State → State
enqueue w s = record s { queue = select (other_than w.guest_id) s.queue ++ w ∷ [] }

-- The source writes the queue only when an entry was dropped, and says whether one was.
unfoldable pub dequeue : GuestId → State → Bool × State
dequeue guest_id s =
    let kept = select (other_than guest_id) s.queue in
    if eqb (length kept) (length s.queue) then (false, s) else (true, record s { queue = kept })

-- No guest stands in the queue twice.
abbrev pub IsQueue : List Waiting → Type 0
IsQueue [] = Unit {0}
IsQueue (w ∷ ws) = All (λ x. x.guest_id ≢ w.guest_id) ws × IsQueue ws

-- The guest is not in the queue.
abbrev pub IsAbsent : GuestId → List Waiting → Type 0
IsAbsent g ws = All (λ x. x.guest_id ≢ g) ws

pub select-IsAbsent :
    (p : Waiting → Bool) (g : GuestId) (ws : List Waiting)
    → IsAbsent g ws
    → IsAbsent g (select p ws)
select-IsAbsent p g [] h = tt
select-IsAbsent p g (w ∷ ws) h = ground (arith, select-IsAbsent p g ws)

pub select-IsQueue : (p : Waiting → Bool) (ws : List Waiting) → IsQueue ws → IsQueue (select p ws)
select-IsQueue p [] h = tt
select-IsQueue p (w ∷ ws) h = ground (arith, select-IsQueue p ws, select-IsAbsent p w.guest_id ws)

pub select-other_than : (g : GuestId) (ws : List Waiting) → IsAbsent g (select (other_than g) ws)
select-other_than g [] = tt
select-other_than g (w ∷ ws) = ground (arith, guest_beq_iff w.guest_id g, select-other_than g ws)

append-IsAbsent :
    (g : GuestId) (w : Waiting) (ws : List Waiting)
    → IsAbsent g ws
    → w.guest_id ≢ g
    → IsAbsent g (ws ++ w ∷ [])
append-IsAbsent g w [] h k = (k, tt)
append-IsAbsent g w (x ∷ xs) h k = (h.0, append-IsAbsent g w xs h.1 k)

append-IsQueue :
    (w : Waiting) (ws : List Waiting) → IsAbsent w.guest_id ws → IsQueue ws → IsQueue (ws ++ w ∷ [])
append-IsQueue w [] a q = (tt, tt)
append-IsQueue w (x ∷ xs) a q =
    (append-IsAbsent x.guest_id w xs q.0 (λ e. a.0 (sym e)), append-IsQueue w xs a.1 q.1)

-- Where no guest stands in the queue twice, none does after anyone has joined it.
pub enqueue-IsQueue : (w : Waiting) (s : State) → IsQueue s.queue → IsQueue (enqueue w s).queue
unfolding enqueue
enqueue-IsQueue w s q =
    append-IsQueue w (select (other_than w.guest_id) s.queue) (select-other_than w.guest_id s.queue)
      (select-IsQueue (other_than w.guest_id) s.queue q)

-- A filter that drops nothing changes nothing.
pub select-same :
    (p : Waiting → Bool) (ws : List Waiting) → length (select p ws) ≡ length ws → select p ws ≡ ws
select-same p [] h = refl
select-same p (w ∷ ws) h = ground (arith, select-same p ws, length-select p ws)

-- Whether or not it writes, `dequeue` leaves the queue without the guest.
pub dequeue-queue :
    (g : GuestId) (s : State) → (dequeue g s).1.queue ≡ select (other_than g) s.queue
unfolding dequeue
dequeue-queue g s = ground (arith, select-same (other_than g) s.queue)

pub dequeue-IsAbsent : (g : GuestId) (s : State) → IsAbsent g (dequeue g s).1.queue
dequeue-IsAbsent g s = rw (dequeue-queue g s) (select-other_than g s.queue)

-- Nobody comes back into the queue by a `dequeue`, and nothing but the queue changes.
pub dequeue-IsAbsent_other :
    (g h : GuestId) (s : State) → IsAbsent h s.queue → IsAbsent h (dequeue g s).1.queue
dequeue-IsAbsent_other g h s a = rw (dequeue-queue g s) (select-IsAbsent (other_than g) h s.queue a)

pub dequeue-convs : (g : GuestId) (s : State) → (dequeue g s).1.convs ≡ s.convs
unfolding dequeue
dequeue-convs g s = ground arith

pub dequeue-current : (g : GuestId) (s : State) → (dequeue g s).1.current ≡ s.current
unfolding dequeue
dequeue-current g s = ground arith
