-- ===== src/Unlocks/Laws.antt =====
-- edge/src/unlocks.ts: lemmas on the rows and on codes.
use focustown_public.Prelude.{
  ℕ, ◌≤◌, ◌≡◌, refl, true, not, Option, none, some, List, [], ◌∷◌, arith, ltb, eqb, eqb_iff, All,
  contains, Text, Json, str, undefined, null, arr, other_num, bool, num, obj, Bool-cases, ℕ_eq,
  select, inl, inr,
}
use focustown_public.Unlocks.{
  CodeRow, has_slot, take_slot, update_slot, redeem_result, is_separator, redeem_row,
  normalize_code, code_length, alphabet, checked_code, all_in_alphabet, units,
}

-- No code has been redeemed more often than its devices allow.
abbrev pub IsWithin : List CodeRow → Type 0
IsWithin rows = All (λ r. r.redemptions ≤ r.max_devices) rows

update_slot-IsWithin :
    (id now until : ℕ) (rows : List CodeRow)
    → IsWithin rows
    → IsWithin (update_slot id now until rows).1
unfolding update_slot has_slot take_slot
update_slot-IsWithin id now until [] h = tt
update_slot-IsWithin id now until (r ∷ rs) h = ground (arith, update_slot-IsWithin id now until rs)

redeem_result-rows : (id : ℕ) (r : Option (Option ℕ) × List CodeRow) → (redeem_result id r).1 ≡ r.1
unfolding redeem_result
redeem_result-rows id (none, rows) = refl
redeem_result-rows id (some e, rows) = refl

-- Where no code has been redeemed more often than its devices allow, none has after a redemption,
-- however stale the row is that it read.
pub redeem_row-IsWithin :
    (six_months_from : ℕ → ℕ) (now : ℕ) (row : CodeRow) (rows : List CodeRow)
    → IsWithin rows
    → IsWithin (redeem_row six_months_from now row rows).1
unfolding redeem_row
redeem_row-IsWithin six_months_from now row rows h = ground (
  arith,
  redeem_result-rows row.id (update_slot row.id now (six_months_from now) rows),
  update_slot-IsWithin row.id now (six_months_from now) rows h,
)

-- A code that is one of ours: twelve characters of the alphabet.
abbrev pub IsCode : Option Text → Type 0
IsCode none = Unit {0}
IsCode (some code) = (units code ≡ code_length) × All (λ c. contains alphabet c ≡ true) code

all_in_alphabet-All :
    (s : Text) → all_in_alphabet s ≡ true → All (λ c. contains alphabet c ≡ true) s
unfolding all_in_alphabet
all_in_alphabet-All [] h = tt
all_in_alphabet-All (c ∷ s) h = (ground arith, all_in_alphabet-All s (ground arith))

checked_code-IsCode : (s : Text) → IsCode (checked_code s)
unfolding checked_code
checked_code-IsCode s = elim (Bool-cases (eqb (units s) code_length)) [
  | inr f ↦ rw f tt
  | inl e ↦ rw e (elim (Bool-cases (all_in_alphabet s)) [
    | inr f ↦ rw f tt
    | inl t ↦ rw t ((eqb_iff (units s) code_length).0 e, all_in_alphabet-All s t)
  ])
]

-- Whatever is typed in, what is looked up is a code of twelve characters of the alphabet.
pub normalize_code-IsCode : (upper : Text → Text) (raw : Json) → IsCode (normalize_code upper raw)
unfolding normalize_code
normalize_code-IsCode upper (str raw) = elim (Bool-cases (ltb 64 (units raw))) [
  | inl t ↦ rw t tt
  | inr f ↦ rw f (checked_code-IsCode (select (λ c. not (is_separator c)) (upper raw)))
]
normalize_code-IsCode upper undefined = tt
normalize_code-IsCode upper null = tt
normalize_code-IsCode upper arr = tt
normalize_code-IsCode upper other_num = tt
normalize_code-IsCode upper (bool b) = tt
normalize_code-IsCode upper (num n) = tt
normalize_code-IsCode upper (obj fs) = tt
