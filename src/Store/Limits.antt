-- ===== src/Store/Limits.antt =====
-- edge/src/store.ts, limited and hit: fixed-window counters.
use focustown_public.Prelude.{
  ℕ, ◌+◌, ◌-◌, ◌<◌, ◌≡◌, Bool, false, not, ◌&&◌, Option, none, some, List, [], ◌∷◌, arith, ltb, leb,
  min, if◌then◌else◌, lookup, insert, lookup-insert, length, All,
}
use focustown_public.Store.State.{State, Counter, LimitKey, LimitKey_eq, limit_key_beq_iff}

unfoldable pub limited : LimitKey → ℕ → ℕ → State → Bool
limited key limit now s = elim (lookup key s.limits) [
  | none ↦ false
  | some entry ↦ ltb now entry.reset_at && leb limit entry.count
]

-- `entry && entry.resetAt > now ? entry : { count: 0, resetAt: now + windowMs }`
unfoldable pub live_counter : Option Counter → ℕ → ℕ → Counter
live_counter none window now = record { count = 0; reset_at = now + window }
live_counter (some entry) window now =
    if ltb now entry.reset_at then entry else record { count = 0; reset_at = now + window }

unfoldable pub hit : LimitKey → ℕ → ℕ → ℕ → State → Bool × State
unfolding live_counter
hit key limit window now s =
    let entry = live_counter (lookup key s.limits) window now in
    let next = record entry { count = entry.count + 1 } in
    (leb next.count limit, record s { limits = insert key next s.limits })

-- For a limit above 0, `limited`, which counts nothing, foretells what `hit` will answer.
pub hit-limited :
    (key : LimitKey) (limit window now : ℕ) (s : State)
    → 0 < limit
    → (hit key limit window now s).0 ≡ not (limited key limit now s)
unfolding hit limited
hit-limited key limit window now s h = ground arith

-- How many of the hits at these times are within the limit.
pub admitted : LimitKey → ℕ → ℕ → List ℕ → State → ℕ
admitted key limit window [] s = 0
admitted key limit window (t ∷ ts) s =
    let (within, s') = hit key limit window t s in
    (if within then 1 else 0) + admitted key limit window ts s'

module _ (key : LimitKey) (limit window now : ℕ) (s : State) where
  -- A hit in a live window counts one more and keeps the window.
  pub hit-live :
      (entry : Counter)
      → lookup key s.limits ≡ some entry
      → now < entry.reset_at
      → ((hit key limit window now s).0 ≡ leb (entry.count + 1) limit)
        × (lookup key (hit key limit window now s).1.limits
            ≡ some (record entry { count = entry.count + 1 }))
  unfolding hit
  hit-live entry e h = ground (
    arith,
    lookup-insert key key (record entry { count = entry.count + 1 }) s.limits,
    limit_key_beq_iff key key,
  )

  -- A hit with no window starts one.
  pub hit-fresh :
      lookup key s.limits ≡ none
      → ((hit key limit window now s).0 ≡ leb 1 limit)
        × (lookup key (hit key limit window now s).1.limits
            ≡ some (record { count = 1; reset_at = now + window }))
  unfolding hit
  hit-fresh e = ground (
    arith,
    lookup-insert key key (record { count = 1; reset_at = now + window }) s.limits,
    limit_key_beq_iff key key,
  )

admitted-counter :
    (key : LimitKey) (limit window : ℕ) (ts : List ℕ) (s : State) (entry : Counter)
    → lookup key s.limits ≡ some entry
    → All (λ t. t < entry.reset_at) ts
    → admitted key limit window ts s ≡ min (length ts) (limit - entry.count)
unfolding admitted
admitted-counter key limit window [] s entry e h = omega arith
admitted-counter key limit window (t ∷ ts) s entry e h =
    let (within, left) = hit-live key limit window t s entry e h.0 in
    rw within (
      ground (
        arith,
        admitted-counter key limit window ts (hit key limit window t s).1
            (record entry { count = entry.count + 1 }) left h.1,
      ))

-- Where a key has no counter yet, of a first hit and any others at times before its window ends,
-- exactly as many are within the limit as the limit says, or all of them if they are fewer.
pub admitted_window :
    (key : LimitKey) (limit window t : ℕ) (ts : List ℕ) (s : State)
    → lookup key s.limits ≡ none
    → All (λ u. u < t + window) ts
    → admitted key limit window (t ∷ ts) s ≡ min (length (t ∷ ts)) limit
unfolding admitted
admitted_window key limit window t ts s e h =
    let (within, left) = hit-fresh key limit window t s e in
    rw within (
      ground (
        arith,
        admitted-counter key limit window ts (hit key limit window t s).1
            (record { count = 1; reset_at = t + window }) left h,
      ))
