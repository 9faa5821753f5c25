-- ===== src/Rules/Hours.antt =====
-- edge/src/rules.ts, opening hours. The local time of day is `Intl`'s: the minutes after midnight
-- are an argument.
pub mod Laws
use focustown_public.Prelude.{
  ℕ, ◌+◌, ◌-◌, ◌*◌, ◌%◌, Bool, true, false, not, ◌&&◌, ◌||◌, Option, none, some, List, [], ◌∷◌, ltb,
  leb, eqb, if◌then◌else◌, Text,
}
use focustown_public.Rules.Cleaning.{is_space, trim}

-- Minutes after local midnight.
pub record OpenHours : Type 0 where
  pub start : ℕ
  pub end : ℕ

-- `throw new Error(...)`: `bad_spec` or `empty_window`.
pub data Parsed : Type 0 where
  always : Parsed
  window : OpenHours → Parsed
  bad_spec empty_window : Parsed

abbrev is_ascii_digit : ℕ → Bool
is_ascii_digit c = leb 48 c && leb c 57

-- The parts of HOURS_RE, each with what is left of the text. `\s` is the white space of `trim`.
skip_spaces : Text → Text
skip_spaces [] = []
skip_spaces (c ∷ s) = if is_space c then skip_spaces s else c ∷ s

abbrev Match : Type 0 → Type 0
Match A = Option (A × Text)

infixl 5 ◌>>=◌ ◌>>◌
abbrev ◌>>=◌ : {A B : Type 0} → Option A → (A → Option B) → Option B
none >>= f = none
some a >>= f = f a

abbrev ◌>>◌ : {B : Type 0} → Option (Unit {0}) → Option B → Option B
m >> k = m >>= λ _. k

-- `\d{2}`
two_digits : Text → Match ℕ
two_digits (c ∷ d ∷ s) =
    if is_ascii_digit c && is_ascii_digit d then some ((c - 48) * 10 + (d - 48), s) else none
two_digits _ = none

-- `\d{1,2}`, which takes two digits where there are two: nothing that may follow it is a digit.
digits : Text → Match ℕ
unfolding two_digits
digits [] = none
digits (c ∷ []) = if is_ascii_digit c then some (c - 48, []) else none
digits (c ∷ d ∷ s) =
    if is_ascii_digit c
    then (if is_ascii_digit d then some ((c - 48) * 10 + (d - 48), s) else some (c - 48, d ∷ s))
    else none

literal : ℕ → Text → Option Text
literal k [] = none
literal k (c ∷ s) = if eqb c k then some s else none

-- `(\d{1,2}):(\d{2})`
clock : Text → Match (ℕ × ℕ)
unfolding digits two_digits literal
clock s = do
  (h, after_h) ← digits s
  after_colon ← literal 58 after_h
  (m, rest) ← two_digits after_colon
  some ((h, m), rest)

at_end : Text → Option (Unit {0})
at_end [] = some tt
at_end (c ∷ s) = none

-- HOURS_RE.exec
match_hours : Text → Option ((ℕ × ℕ) × (ℕ × ℕ))
unfolding clock skip_spaces literal at_end
match_hours spec = do
  (from, rest) ← clock (skip_spaces spec)
  after_dash ← literal 45 (skip_spaces rest)
  (to, last) ← clock (skip_spaces after_dash)
  at_end (skip_spaces last)
  some (from, to)

-- the tests on the four numbers
abbrev off_clock : ℕ → ℕ → Bool
off_clock h m = ltb 24 h || ltb 59 m || (eqb h 24 && not (eqb m 0))

unfoldable pub window_of : ℕ × ℕ → ℕ × ℕ → Parsed
window_of (h1, m1) (h2, m2) =
    let start = (h1 % 24) * 60 + m1 in
    let end = (h2 % 24) * 60 + m2 in
    if off_clock h1 m1 || off_clock h2 m2
    then bad_spec
    else if eqb start end
    then empty_window
    else window (record { start = start; end = end })

matched : Option ((ℕ × ℕ) × (ℕ × ℕ)) → Parsed
matched none = bad_spec
matched (some (from, to)) = window_of from to

is_empty : Text → Bool
is_empty [] = true
is_empty (c ∷ s) = false

unfoldable pub parse_open_hours : Text → Parsed
unfolding trim is_empty match_hours matched window_of
parse_open_hours spec = if is_empty (trim spec) then always else matched (match_hours spec)

-- `isOpen`, at the local time of day.
unfoldable pub is_open : ℕ → Option OpenHours → Bool
is_open local none = true
is_open local (some hours) =
    if ltb hours.start hours.end
    then leb hours.start local && ltb local hours.end
    else leb hours.start local || ltb local hours.end
