-- ===== src/Prelude/Keys.antt =====
-- Decidable keys, and JavaScript's `Record<key, value>` and `Set<key>` as association lists and
-- lists: an assignment to a present key keeps its place, and a new key goes to the end.
use mathlib.Core.Path.{◌≡◌, refl}
use mathlib.Core.Logic.{◌↔◌}
use mathlib.Core.Bool.{Bool, true}
use mathlib.Core.List.{List, [], ◌∷◌}
use mathlib.Core.Option.{Option, none, some}
use native.Mathlib.Omega.{arith}
use Prim.Native.Nat.{ℕ}
use focustown_public.Prelude.Tests.{if◌then◌else◌, eqb, eqb_iff}
use focustown_public.Prelude.Lists.{any}

pub record Eq (A : Type 0) : Type 0 where
  pub beq : A → A → Bool
  pub beq_iff : (a b : A) → (beq a b ≡ true) ↔ (a ≡ b)

infix 50 ◌==◌
abbrev pub ◌==◌ : {A : Type 0} ⦃e : Eq A⦄ → A → A → Bool
◌==◌ ⦃e⦄ = e.beq

instance abbrev pub ℕ_eq : Eq ℕ
ℕ_eq = record { beq = eqb; beq_iff = eqb_iff }

abbrev pub Assoc : Type 0 → Type 0 → Type 0
Assoc K V = List (K × V)

module _ {K : Type 0} ⦃e : Eq K⦄ where
  abbrev pub contains : List K → K → Bool
  contains xs k = any (λ x. x == k) xs

module _ {K V : Type 0} where
  -- `Object.fromEntries(Object.entries(m).filter(([k, v]) => p(k, v)))`
  unfoldable pub keep_entries : (K → V → Bool) → Assoc K V → Assoc K V
  keep_entries p [] = []
  keep_entries p ((j, w) ∷ m) = if p j w then (j, w) ∷ keep_entries p m else keep_entries p m

module _ {K V : Type 0} ⦃e : Eq K⦄ where
  -- `delete m[k]`
  unfoldable pub erase : K → Assoc K V → Assoc K V
  erase k [] = []
  erase k ((j, w) ∷ m) = if j == k then erase k m else (j, w) ∷ erase k m

  -- `m[key] = value`
  unfoldable pub insert : K → V → Assoc K V → Assoc K V
  insert key value [] = (key, value) ∷ []
  insert key value ((at, old) ∷ rest) =
      if at == key then (key, value) ∷ rest else (at, old) ∷ insert key value rest

  -- `m[key]`
  unfoldable pub lookup : K → Assoc K V → Option V
  lookup key [] = none
  lookup key ((at, value) ∷ rest) = if at == key then some value else lookup key rest

  pub lookup-insert :
      (key asked : K) (value : V) (m : Assoc K V)
      → lookup asked (insert key value m) ≡ (if key == asked then some value else lookup asked m)
  unfolding insert lookup
  lookup-insert key asked value [] = refl
  lookup-insert key asked value ((at, old) ∷ rest) = ground (
    arith,
    lookup-insert key asked value rest,
    e.beq_iff at asked,
    e.beq_iff at key,
    e.beq_iff key asked,
  )

  pub lookup-erase :
      (k j : K) (m : Assoc K V) → lookup j (erase k m) ≡ (if k == j then none else lookup j m)
  unfolding lookup erase
  lookup-erase k j [] = ground arith
  lookup-erase k j ((i, w) ∷ m) =
      ground (arith, e.beq_iff k j, e.beq_iff i k, e.beq_iff i j, lookup-erase k j m)

  -- What a filter keeps it keeps unchanged.
  pub lookup-keep_entries :
      (p : K → V → Bool) (j : K) (v : V) (m : Assoc K V)
      → lookup j m ≡ some v
      → p j v ≡ true
      → lookup j (keep_entries p m) ≡ some v
  unfolding lookup keep_entries
  lookup-keep_entries p j v [] h t = cc
  lookup-keep_entries p j v ((i, w) ∷ m) h t =
      ground (arith, e.beq_iff i j, lookup-keep_entries p j v m)

pub beq_refl : {K : Type 0} ⦃e : Eq K⦄ (k : K) → (k == k) ≡ true
beq_refl ⦃e⦄ k = (e.beq_iff k k).1 refl
