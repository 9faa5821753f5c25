-- ===== src/Unlocks/Fresh.antt =====
-- unlocks.ts, newCode: the loops over random bytes, and the code as it is typed in again.
use focustown_public.Prelude.{
  ℕ, zero, suc, ◌+◌, ◌-◌, ◌%◌, ◌≤◌, ◌<◌, ◌≡◌, refl, sym, ap, ◌∙◌, arith, true, false, not, some,
  List, [], ◌∷◌, ◌++◌, length, All, contains, select, ltb, Text, str, length-append, ℕ_eq,
  Bool-cases, inl, inr, ◌⊎◌, subst, append-nil,
}
use focustown_public.Rules.Cleaning.{is_space}
use focustown_public.Unlocks.{
  alphabet, code_length, units, is_separator, all_in_alphabet, checked_code, normalize_code,
  is_space,
}
use focustown_public.Unlocks.Create.{
  letter_at, sampled, filled, new_code, join_dashes, fours, shown_code,
}

abbrev pub IsLetter : ℕ → Type 0
IsLetter c = contains alphabet c ≡ true

letter_at-contains : (i : ℕ) (s : Text) → i < length s → contains s (letter_at i s) ≡ true
unfolding letter_at
letter_at-contains i [] h = absurd (omega (arith, h))
letter_at-contains zero (c ∷ s) h = ground arith
letter_at-contains (suc i) (c ∷ s) h = ground (arith, letter_at-contains i s (omega (arith, h)))

letter : (b : ℕ) → IsLetter (letter_at (b % 31) alphabet)
letter b = letter_at-contains (b % 31) alphabet (omega arith)

sampled-All : (wanted : ℕ) (bytes : List ℕ) → All IsLetter (sampled wanted bytes)
unfolding sampled
sampled-All zero bytes = tt
sampled-All (suc wanted) [] = tt
sampled-All (suc wanted) (b ∷ bytes) = elim (Bool-cases (ltb b 248)) [
  | inl t ↦ rw t (letter b, sampled-All wanted bytes)
  | inr f ↦ rw f (sampled-All (suc wanted) bytes)
]

length-sampled : (wanted : ℕ) (bytes : List ℕ) → length (sampled wanted bytes) ≤ wanted
unfolding sampled
length-sampled zero bytes = omega arith
length-sampled (suc wanted) [] = omega arith
length-sampled (suc wanted) (b ∷ bytes) =
    ground (arith, length-sampled wanted bytes, length-sampled (suc wanted) bytes)

filled-All : (missing : ℕ) (more : List ℕ) → All IsLetter (filled missing more)
unfolding filled
filled-All zero more = tt
filled-All (suc missing) [] = tt
filled-All (suc missing) (b ∷ more) = (letter b, filled-All missing more)

length-filled :
    (missing : ℕ) (more : List ℕ) → missing ≤ length more → length (filled missing more) ≡ missing
unfolding filled
length-filled zero more h = refl
length-filled (suc missing) [] h = absurd (omega (arith, h))
length-filled (suc missing) (b ∷ more) h =
    omega (arith, length-filled missing more (omega (arith, h)))

All-append : (s t : Text) → All IsLetter s → All IsLetter t → All IsLetter (s ++ t)
All-append [] t a b = b
All-append (c ∷ s) t a b = (a.0, All-append s t a.1 b)

-- Whatever the first random bytes are, and where twelve more can be drawn: the loops end with
-- twelve characters, all of the alphabet.
pub new_code-IsFresh :
    (bytes more : List ℕ)
    → code_length ≤ length more
    → (length (new_code bytes more) ≡ code_length) × All IsLetter (new_code bytes more)
unfolding new_code
new_code-IsFresh bytes more h =
    let first = sampled code_length bytes in
    let rest = filled (code_length - length first) more in
    let short = length-sampled code_length bytes in
    (
      omega (
        arith,
        short,
        length-append first rest,
        length-filled (code_length - length first) more (omega (arith, h, short)),
      ),
      All-append first rest (sampled-All code_length bytes)
          (filled-All (code_length - length first) more),
    )

-- A character of a code, or a dash.
abbrev pub IsShown : ℕ → Type 0
IsShown c = IsLetter c ⊎ (c ≡ 45)

IsLetter-plain : (c : ℕ) → IsLetter c → (is_separator c ≡ false) × (c < 65536)
unfolding is_separator is_space
IsLetter-plain c h = ground (arith, h)

select-letters : (s : Text) → All IsLetter s → select (λ c. not (is_separator c)) s ≡ s
select-letters [] h = refl
select-letters (c ∷ s) h = ground (arith, select-letters s h.1, IsLetter-plain c h.0)

units-letters : (s : Text) → All IsLetter s → units s ≡ length s
unfolding units
units-letters [] h = refl
units-letters (c ∷ s) h = ground (arith, units-letters s h.1, IsLetter-plain c h.0)

all_in_alphabet-letters : (s : Text) → All IsLetter s → all_in_alphabet s ≡ true
unfolding all_in_alphabet
all_in_alphabet-letters [] h = refl
all_in_alphabet-letters (c ∷ s) h = ground (arith, h.0, all_in_alphabet-letters s h.1)

select-dash :
    (t u : Text)
    → All IsLetter t
    → select (λ c. not (is_separator c)) (t ++ 45 ∷ u) ≡ t ++ select (λ c. not (is_separator c)) u
select-dash [] u h = unfold is_separator is_space in refl
select-dash (c ∷ t) u h = ground (arith, select-dash t u h.1, IsLetter-plain c h.0)

units-dash : (t u : Text) → All IsLetter t → units (t ++ 45 ∷ u) ≡ length t + 1 + units u
unfolding units
units-dash [] u h = refl
units-dash (c ∷ t) u h = ground (arith, units-dash t u h.1, IsLetter-plain c h.0)

dash-IsShown : (t u : Text) → All IsLetter t → All IsShown u → All IsShown (t ++ 45 ∷ u)
dash-IsShown [] u h k = (inr refl, k)
dash-IsShown (c ∷ t) u h k = (inl h.0, dash-IsShown t u h.1 k)

letters-IsShown : (t : Text) → All IsLetter t → All IsShown t
letters-IsShown [] h = tt
letters-IsShown (c ∷ t) h = (inl h.0, letters-IsShown t h.1)

module _ (upper : Text → Text) (kept : (t : Text) → All IsShown t → upper t ≡ t) where
  checked_code-letters :
      (s : Text) → All IsLetter s → length s ≡ code_length → checked_code s ≡ some s
  unfolding checked_code
  checked_code-letters s h e = ground (arith, units-letters s h, all_in_alphabet-letters s h, e)

  normalize_code-lem :
      (shown s : Text)
      → units shown ≤ 64
      → upper shown ≡ shown
      → select (λ c. not (is_separator c)) shown ≡ s
      → checked_code s ≡ some s
      → normalize_code upper (str shown) ≡ some s
  unfolding normalize_code
  normalize_code-lem shown s few same chosen checked =
      rw (same, chosen) (ground (arith, few, checked))

  -- Three groups of letters, with dashes between.
  normalize_code-groups :
      (t u v : Text)
      → All IsLetter t
      → All IsLetter u
      → All IsLetter v
      → length (t ++ (u ++ v)) ≡ code_length
      → normalize_code upper (str (t ++ 45 ∷ (u ++ 45 ∷ v))) ≡ some (t ++ (u ++ v))
  normalize_code-groups t u v a b c e =
      let w = u ++ 45 ∷ v in
      normalize_code-lem (t ++ 45 ∷ w) (t ++ (u ++ v))
        (omega (
          arith,
          e,
          units-dash t w a,
          units-dash u v b,
          units-letters v c,
          length-append t (u ++ v),
          length-append u v,
        ))
        (kept (t ++ 45 ∷ w) (dash-IsShown t w a (dash-IsShown u v b (letters-IsShown v c))))
        (select-dash t w a
          ∙ ap (λ x. t ++ x) (select-dash u v b ∙ ap (λ x. u ++ x) (select-letters v c)))
        (checked_code-letters (t ++ (u ++ v)) (All-append t (u ++ v) a (All-append u v b c)) e)

-- The first group of four.
first_four :
    (n : ℕ) (s : Text)
    → length s ≡ 4 + n
    → (t u : Text) × (s ≡ t ++ u) × (length u ≡ n) × (fours s ≡ t ∷ fours u)
unfolding fours
first_four n [] h = absurd (omega (arith, h))
first_four n (a ∷ []) h = absurd (omega (arith, h))
first_four n (a ∷ b ∷ []) h = absurd (omega (arith, h))
first_four n (a ∷ b ∷ c ∷ []) h = absurd (omega (arith, h))
first_four n (a ∷ b ∷ c ∷ d ∷ s) h = (a ∷ b ∷ c ∷ d ∷ [], s, refl, omega (arith, h), refl)

All-split : (s t : Text) → All IsLetter (s ++ t) → All IsLetter s × All IsLetter t
All-split [] t h = (tt, h)
All-split (c ∷ s) t h = let r = All-split s t h.1 in ((h.0, r.0), r.1)

length-zero : (s : Text) → length s ≡ 0 → s ≡ []
length-zero [] h = refl
length-zero (c ∷ s) h = absurd (omega (arith, h))

join_dashes-fours :
    (s : Text)
    → length s ≡ code_length
    → (t u v : Text) × (s ≡ t ++ (u ++ v)) × (join_dashes (fours s) ≡ t ++ 45 ∷ (u ++ 45 ∷ v))
unfolding join_dashes fours
join_dashes-fours s n =
    let (t, x, e, l, g) = first_four 8 s n in
    let (u, y, f, m, k) = first_four 4 x l in
    let (v, z, i, o, j) = first_four 0 y m in
    let none_left = length-zero z o in
    (
      t,
      u,
      v,
      e ∙ ap (λ r. t ++ r) (f ∙ ap (λ r. u ++ r) (i ∙ ap (λ r. v ++ r) none_left ∙ append-nil v)),
      ap join_dashes
          (g ∙ ap (λ r. t ∷ r) (k ∙ ap (λ r. u ∷ r) (j ∙ ap (λ r. v ∷ fours r) none_left))),
    )

normalize_code-fours :
    (upper : Text → Text)
    → ((t : Text) → All IsShown t → upper t ≡ t)
    → (s : Text) → length s ≡ code_length
    → All IsLetter s
    → normalize_code upper (str (join_dashes (fours s))) ≡ some s
normalize_code-fours upper kept s n l =
    let (t, u, v, e, j) = join_dashes-fours s n in
    let parts = All-split t (u ++ v) (subst (All IsLetter) e l) in
    let ends = All-split u v parts.1 in
    rw (j, e) (normalize_code-groups upper kept t u v parts.0 ends.0 ends.1 (ap length (sym e) ∙ n))

-- Where upper case leaves letters of the alphabet and dashes as they are, and twelve more bytes can
-- be drawn: the code that is shown, with its dashes, is looked up as the code that was made.
pub normalize_code-shown_code :
    (upper : Text → Text)
    → ((t : Text) → All IsShown t → upper t ≡ t)
    → (bytes more : List ℕ) → code_length ≤ length more
    → normalize_code upper (str (shown_code bytes more)) ≡ some (new_code bytes more)
unfolding shown_code
normalize_code-shown_code upper kept bytes more h =
    let (n, l) = new_code-IsFresh bytes more h in
    normalize_code-fours upper kept (new_code bytes more) n l
