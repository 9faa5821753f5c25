-- ===== src/Store/Blocks.antt =====
-- edge/src/store.ts, safety: pairs of guests that are kept apart. The source's key is the two ids
-- sorted and joined by "|": the same for both orders, and split again on reading.
use focustown_public.Prelude.{
  ℕ, ◌<◌, ◌≡◌, refl, Bool, true, ◌&&◌, ◌||◌, List, [], ◌∷◌, arith, leb, if◌then◌else◌, ◌==◌,
  contains,
}
use focustown_public.Guest.{GuestId, GuestId_eq, guest_beq_iff}
use focustown_public.Store.State.{State, Block}

same_pair : GuestId → GuestId → Block → Bool
same_pair a b k = (k.one == a && k.other == b) || (k.one == b && k.other == a)

put_block : GuestId → GuestId → ℕ → List Block → List Block
unfolding same_pair
put_block a b until [] = record { one = a; other = b; until = until } ∷ []
put_block a b until (k ∷ ks) =
    if same_pair a b k then record k { until = until } ∷ ks else k ∷ put_block a b until ks

unfoldable pub block_pair : GuestId → GuestId → ℕ → State → State
unfolding put_block
block_pair a b until s = record s { blocks = put_block a b until s.blocks }

unfoldable pub partners : GuestId → ℕ → List Block → List GuestId
partners g now [] = []
partners g now (k ∷ ks) =
    let rest = partners g now ks in
    if leb k.until now
    then rest
    else if k.one == g
    then k.other ∷ rest
    else if k.other == g
    then k.one ∷ rest
    else rest

unfoldable pub blocked_for : GuestId → ℕ → State → List GuestId
unfolding partners
blocked_for guest_id now s = partners guest_id now s.blocks

partners_comm :
    (a b : GuestId) (now : ℕ) (ks : List Block)
    → contains (partners a now ks) b ≡ contains (partners b now ks) a
unfolding partners
partners_comm a b now [] = refl
partners_comm a b now (k ∷ ks) = ground (
  arith,
  guest_beq_iff k.one a,
  guest_beq_iff k.one b,
  guest_beq_iff k.other a,
  guest_beq_iff k.other b,
  partners_comm a b now ks,
)

-- At any time, and whatever the blocks, a guest is blocked for another as the other is for them.
pub blocked_for_comm :
    (a b : GuestId) (now : ℕ) (s : State)
    → contains (blocked_for a now s) b ≡ contains (blocked_for b now s) a
unfolding blocked_for
blocked_for_comm a b now s = partners_comm a b now s.blocks

put_block-partners :
    (a b : GuestId) (until now : ℕ) (ks : List Block)
    → now < until
    → contains (partners a now (put_block a b until ks)) b ≡ true
unfolding partners put_block
put_block-partners a b until now [] h = ground (arith, guest_beq_iff a a, guest_beq_iff b b)
put_block-partners a b until now (k ∷ ks) h = ground (
  arith,
  guest_beq_iff k.one a,
  guest_beq_iff k.one b,
  guest_beq_iff k.other a,
  guest_beq_iff k.other b,
  put_block-partners a b until now ks,
)

one_way :
    (a b : GuestId) (until now : ℕ) (s : State)
    → now < until
    → contains (blocked_for a now (block_pair a b until s)) b ≡ true
unfolding blocked_for block_pair
one_way a b until now s h = put_block-partners a b until now s.blocks h

-- Until its time is over, a block of two guests names each of them to the other.
pub blocked_for-block_pair :
    (a b : GuestId) (until now : ℕ) (s : State)
    → now < until
    → (contains (blocked_for a now (block_pair a b until s)) b ≡ true)
      × (contains (blocked_for b now (block_pair a b until s)) a ≡ true)
blocked_for-block_pair a b until now s h = (
  one_way a b until now s h,
  rw (blocked_for_comm b a now (block_pair a b until s)) (one_way a b until now s h),
)
