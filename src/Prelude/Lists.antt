-- ===== src/Prelude/Lists.antt =====
-- Lists measured by native numbers and filtered by Boolean tests.
use Prim.Native.Nat.{ℕ, zero, suc, ◌+◌, ◌-◌, ◌≤◌, min}
use mathlib.Core.Path.{◌≡◌, refl, ap}
use mathlib.Core.Logic.{◌⊎◌, inl, inr}
use mathlib.Core.Bool.{Bool, true, false}
use mathlib.Core.List.{List, [], ◌∷◌, ◌++◌}
use mathlib.Core.Option.{Option, none, some}
use native.Mathlib.Omega.{arith}
use focustown_public.Prelude.Tests.{if◌then◌else◌}

module _ {ℓ} {A : Type ℓ} where
  abbrev pub length : List A → ℕ
  length [] = 0
  length (x ∷ xs) = suc (length xs)

  abbrev pub take : ℕ → List A → List A
  take zero xs = []
  take (suc n) [] = []
  take (suc n) (x ∷ xs) = x ∷ take n xs

  abbrev pub drop : ℕ → List A → List A
  drop zero xs = xs
  drop (suc n) [] = []
  drop (suc n) (x ∷ xs) = drop n xs

  -- `xs.slice(-n)`, for n > 0
  abbrev pub take_last : ℕ → List A → List A
  take_last n xs = drop (length xs - n) xs

  -- `xs.filter(p)`
  abbrev pub select : (A → Bool) → List A → List A
  select p [] = []
  select p (x ∷ xs) = if p x then x ∷ select p xs else select p xs

  -- `xs.find(p)`
  abbrev pub find : (A → Bool) → List A → Option A
  find p [] = none
  find p (x ∷ xs) = if p x then some x else find p xs

  -- `xs.some(p)`
  abbrev pub any : (A → Bool) → List A → Bool
  any p [] = false
  any p (x ∷ xs) = if p x then true else any p xs

  abbrev pub All {κ} : (A → Type κ) → List A → Type κ
  All P [] = Unit
  All P (x ∷ xs) = P x × All P xs

module _ {ℓ} {A : Type ℓ} where
  pub length-append : (xs ys : List A) → length (xs ++ ys) ≡ length xs + length ys
  length-append [] ys = omega arith
  length-append (x ∷ xs) ys = omega (arith, length-append xs ys)

  pub length-take : (n : ℕ) (xs : List A) → length (take n xs) ≡ min n (length xs)
  length-take zero xs = omega arith
  length-take (suc n) [] = omega arith
  length-take (suc n) (x ∷ xs) = omega (arith, length-take n xs)

  pub length-drop : (n : ℕ) (xs : List A) → length (drop n xs) ≡ length xs - n
  length-drop zero xs = omega arith
  length-drop (suc n) [] = omega arith
  length-drop (suc n) (x ∷ xs) = omega (arith, length-drop n xs)

  pub length-take_last : (n : ℕ) (xs : List A) → length (take_last n xs) ≡ min n (length xs)
  length-take_last n xs = omega (arith, length-drop (length xs - n) xs)

  pub length-select : (p : A → Bool) (xs : List A) → length (select p xs) ≤ length xs
  length-select p [] = omega arith
  length-select p (x ∷ xs) = ground (arith, length-select p xs)

module _ {A : Type 0} where
  abbrev pub Among : A → List A → Type 0
  Among a [] = ⊥
  Among a (x ∷ xs) = (a ≡ x) ⊎ Among a xs

  pub Among-select :
      (p : A → Bool) (a : A) (xs : List A) → Among a (select p xs) → Among a xs × (p a ≡ true)
  Among-select p a [] h = absurd h
  Among-select p a (x ∷ xs) h = ground (arith, Among-select p a xs)

  pub select-Among :
      (p : A → Bool) (a : A) (xs : List A) → Among a xs → p a ≡ true → Among a (select p xs)
  select-Among p a [] h e = absurd h
  select-Among p a (x ∷ xs) h e = ground (arith, select-Among p a xs)

  pub Among-append : (a : A) (xs ys : List A) → Among a (xs ++ ys) → Among a xs ⊎ Among a ys
  Among-append a [] ys h = inr h
  Among-append a (x ∷ xs) ys (inl e) = inl (inl e)
  Among-append a (x ∷ xs) ys (inr h) = elim (Among-append a xs ys h) [
    | inl i ↦ inl (inr i)
    | inr j ↦ inr j
  ]

  pub append-Among_left : (a : A) (xs ys : List A) → Among a xs → Among a (xs ++ ys)
  append-Among_left a [] ys h = absurd h
  append-Among_left a (x ∷ xs) ys (inl e) = inl e
  append-Among_left a (x ∷ xs) ys (inr h) = inr (append-Among_left a xs ys h)

  pub append-Among_right : (a : A) (xs ys : List A) → Among a ys → Among a (xs ++ ys)
  append-Among_right a [] ys h = h
  append-Among_right a (x ∷ xs) ys h = inr (append-Among_right a xs ys h)

  pub find-Among :
      (p : A → Bool) (xs : List A) (a : A) → find p xs ≡ some a → Among a xs × (p a ≡ true)
  find-Among p [] a h = cc
  find-Among p (x ∷ xs) a h = ground (arith, find-Among p xs a)

  pub Among-find :
      (p : A → Bool) (xs : List A) (a : A) → find p xs ≡ none → Among a xs → p a ≡ false
  Among-find p [] a h m = absurd m
  Among-find p (x ∷ xs) a h m = ground (arith, Among-find p xs a)

module _ {A : Type 0} where
  pub snoc_append : (xs : List A) (x : A) (ys : List A) → (xs ++ x ∷ []) ++ ys ≡ xs ++ x ∷ ys
  snoc_append [] x ys = refl
  snoc_append (z ∷ zs) x ys = ap (λ l. z ∷ l) (snoc_append zs x ys)
