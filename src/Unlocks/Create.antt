-- ===== src/Unlocks/Create.antt =====
-- unlocks.ts: making codes, and the administrator's form. `number` is JavaScript's `Number`, where
-- it gives a natural number, `hash` the SHA-256 of a code; the random bytes are arguments.
use focustown_public.Prelude.{
  ℕ, zero, suc, ◌-◌, ◌%◌, ◌≤◌, ◌≡◌, Bool, true, false, not, ◌&&◌, Option, none, some, List, [], ◌∷◌,
  ◌++◌, arith, ltb, leb, eqb, if◌then◌else◌, length, Text, codes, text_beq, Json, str, num,
  undefined, null, arr, other_num, bool, obj, property, inl, inr, Bool-cases, or_default, ℕ_eq,
}
use focustown_public.Rules.Cleaning.{clean, trim}
use focustown_public.Rules.Cleaning.Laws.{clean_bounds, trim-length}
use focustown_public.Unlocks.{CodeRow, alphabet, code_length, default_max_devices}

-- The codes of the form's errors.
pub data FormError : Type 0 where
  invalid_item invalid_count invalid_devices invalid_duration : FormError

-- `is_timed` is `durationMonths === 6`; the item is the only one.
pub record CreateCodes : Type 0 where
  pub count : ℕ
  pub note : Text
  pub max_devices : ℕ
  pub is_timed : Bool

pub data Form : Type 0 where
  accepted : CreateCodes → Form
  refused_form : FormError → Form

unfoldable pub is_item : Json → Bool
is_item (str t) = text_beq t (codes "koi-pond")
is_item _ = false

-- `v ?? fallback`, as a number
unfoldable pub number_or : (Json → Option ℕ) → ℕ → Json → Option ℕ
number_or number fallback undefined = some fallback
number_or number fallback null = some fallback
number_or number fallback v = number v

unfoldable pub within : ℕ → Option ℕ → Bool
within limit none = false
within limit (some n) = leb 1 n && leb n limit

-- `durationMonths`: absent or null, 6, or anything else
unfoldable pub duration_of : Json → Option Bool
duration_of undefined = some false
duration_of null = some false
duration_of (num n) = if eqb n 6 then some true else none
duration_of _ = none

unfoldable pub note_of_form : Json → Text
note_of_form (str s) = trim (clean s 60)
note_of_form _ = []

unfoldable pub form_of : ℕ → ℕ → Text → Option Bool → Form
form_of count devices note none = refused_form invalid_duration
form_of count devices note (some is_timed) =
    accepted (record { count = count; note = note; max_devices = devices; is_timed = is_timed })

unfoldable pub parse_create_codes : (Json → Option ℕ) → Json → Form
unfolding is_item number_or within duration_of note_of_form form_of property
parse_create_codes number body =
    let count = number_or number 1 (property (codes "count") body) in
    let devices = number_or number default_max_devices (property (codes "maxDevices") body) in
    if not (is_item (property (codes "item") body))
    then refused_form invalid_item
    else if not (within 50 count)
    then refused_form invalid_count
    else if not (within 10 devices)
    then refused_form invalid_devices
    else form_of (or_default count 1) (or_default devices default_max_devices)
        (note_of_form (property (codes "note") body))
        (duration_of (property (codes "durationMonths") body))

-- `ALPHABET[i]`
unfoldable pub letter_at : ℕ → Text → ℕ
letter_at i [] = 0
letter_at zero (c ∷ s) = c
letter_at (suc i) (c ∷ s) = letter_at i s

-- The rejection loop, with how many characters are still wanted.
unfoldable pub sampled : ℕ → List ℕ → Text
unfolding letter_at
sampled zero bytes = []
sampled (suc wanted) [] = []
sampled (suc wanted) (b ∷ bytes) =
    let taken = letter_at (b % 31) alphabet ∷ sampled wanted bytes in
    let skipped = sampled (suc wanted) bytes in if ltb b 248 then taken else skipped

-- The characters that are missing, of one more byte each.
unfoldable pub filled : ℕ → List ℕ → Text
unfolding letter_at
filled zero more = []
filled (suc missing) [] = []
filled (suc missing) (b ∷ more) = letter_at (b % 31) alphabet ∷ filled missing more

-- The twelve characters.
unfoldable pub new_code : List ℕ → List ℕ → Text
unfolding sampled filled
new_code bytes more =
    let first = sampled code_length bytes in first ++ filled (code_length - length first) more

-- `out.match(/.{4}/g)`, and `join("-")`
unfoldable pub fours : Text → List Text
fours (a ∷ b ∷ c ∷ d ∷ s) = (a ∷ b ∷ c ∷ d ∷ []) ∷ fours s
fours _ = []

unfoldable pub join_dashes : List Text → Text
join_dashes [] = []
join_dashes (t ∷ []) = t
join_dashes (t ∷ u ∷ us) = t ++ 45 ∷ join_dashes (u ∷ us)

-- newCode, as it is shown
unfoldable pub shown_code : List ℕ → List ℕ → Text
unfolding fours join_dashes new_code
shown_code bytes more = join_dashes (fours (new_code bytes more))

-- The INSERTs: an id and a plain code for each row.
unfoldable pub insert_codes :
    (Text → ℕ) → CreateCodes → ℕ → List (ℕ × Text) → List CodeRow → List CodeRow
insert_codes hash input now [] rows = rows
insert_codes hash input now ((id, plain) ∷ fresh) rows = insert_codes hash input now fresh (
    rows
    ++ record {
      id = id;
      code_hash = hash plain;
      note = input.note;
      max_devices = input.max_devices;
      redemptions = 0;
      is_revoked = false;
      created_at = now;
      last_redeemed_at = none;
      is_timed = input.is_timed;
      activated_at = none;
      expires_at = none;
    }
      ∷ [])

-- What a form that is accepted asks for.
abbrev pub IsModest : Form → Type 0
IsModest (refused_form e) = Unit {0}
IsModest (accepted f) =
    ((1 ≤ f.count) × (f.count ≤ 50))
    × ((1 ≤ f.max_devices) × (f.max_devices ≤ 10))
    × (length f.note ≤ 60)

within-bounds :
    (limit n : ℕ) (o : Option ℕ)
    → within limit o ≡ true
    → (1 ≤ or_default o n) × (or_default o n ≤ limit)
unfolding within
within-bounds limit n none h = cc
within-bounds limit n (some m) h = ground arith

note_of_form-length : (raw : Json) → length (note_of_form raw) ≤ 60
unfolding note_of_form
note_of_form-length (str s) = omega (arith, trim-length (clean s 60), (clean_bounds s 60).0)
note_of_form-length undefined = omega arith
note_of_form-length null = omega arith
note_of_form-length arr = omega arith
note_of_form-length other_num = omega arith
note_of_form-length (bool b) = omega arith
note_of_form-length (num n) = omega arith
note_of_form-length (obj fs) = omega arith

form_of-IsModest :
    (count devices : ℕ) (note : Text) (d : Option Bool)
    → (1 ≤ count) × (count ≤ 50)
    → (1 ≤ devices) × (devices ≤ 10)
    → length note ≤ 60
    → IsModest (form_of count devices note d)
unfolding form_of
form_of-IsModest count devices note none c v n = tt
form_of-IsModest count devices note (some t) c v n = (c, v, n)

-- Whatever the form, and whatever `Number` makes of its fields: if it is accepted, it asks for 1 to
-- 50 codes of 1 to 10 devices, with a note of at most 60 code points.
pub parse_create_codes-IsModest :
    (number : Json → Option ℕ) (body : Json) → IsModest (parse_create_codes number body)
unfolding parse_create_codes
parse_create_codes-IsModest number body =
    let count = number_or number 1 (property (codes "count") body) in
    let devices = number_or number default_max_devices (property (codes "maxDevices") body) in
    elim (Bool-cases (is_item (property (codes "item") body))) [
      | inr f ↦ rw f tt
      | inl t ↦ rw t (elim (Bool-cases (within 50 count)) [
        | inr f ↦ rw f tt
        | inl in_count ↦ rw in_count (elim (Bool-cases (within 10 devices)) [
          | inr f ↦ rw f tt
          | inl in_devices ↦ rw in_devices (
              form_of-IsModest (or_default count 1) (or_default devices default_max_devices)
                (note_of_form (property (codes "note") body))
                (duration_of (property (codes "durationMonths") body))
                (within-bounds 50 1 count in_count)
                (within-bounds 10 default_max_devices devices in_devices)
                (note_of_form-length (property (codes "note") body)))
        ])
      ])
    ]
