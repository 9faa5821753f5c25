-- ===== src/Unlocks.antt =====
-- edge/src/unlocks.ts: unlock codes. SHA-256, HMAC and the calendar of `Date` are parameters: the
-- codes are kept by the hash of their text. Times are milliseconds, and two ISO texts compare as
-- their times do; each statement runs alone.
pub mod Laws
pub mod Create
pub mod Fresh
use focustown_public.Prelude.{
  ℕ, ◌+◌, ◌≤◌, ◌<◌, ◌≡◌, Bool, true, false, not, ◌&&◌, ◌||◌, Option, none, some, List, [], ◌∷◌,
  ◌++◌, arith, leb, ltb, eqb, if◌then◌else◌, or_default, find, any, map, length, select, contains,
  Text, codes, text_beq, Json, str, num, undefined, null, property, ℕ_eq,
}
use focustown_public.Rules.Cleaning.{clean_text, is_space, trim}

abbrev pub code_length : ℕ
code_length = 12

abbrev pub default_max_devices : ℕ
default_max_devices = 3

abbrev pub alphabet : Text
alphabet = codes "ABCDEFGHJKMNPQRSTUVWXYZ23456789"

-- `raw.length`: a code point beyond the Basic Multilingual Plane is two units.
unfoldable pub units : Text → ℕ
units [] = 0
units (c ∷ s) = (if leb 65536 c then 2 else 1) + units s

-- `[\s-]`
unfoldable pub is_separator : ℕ → Bool
is_separator c = is_space c || eqb c 45

unfoldable pub all_in_alphabet : Text → Bool
all_in_alphabet [] = true
all_in_alphabet (c ∷ s) = contains alphabet c && all_in_alphabet s

unfoldable pub checked_code : Text → Option Text
unfolding all_in_alphabet
checked_code code =
    if not (eqb (units code) code_length)
    then none
    else if all_in_alphabet code
    then some code
    else none

-- `upper` is `String.prototype.toUpperCase`.
unfoldable pub normalize_code : (Text → Text) → Json → Option Text
unfolding units is_separator checked_code
normalize_code upper (str raw) =
    if ltb 64 (units raw)
    then none
    else checked_code (select (λ c. not (is_separator c)) (upper raw))
normalize_code upper _ = none

-- A row of lbt_unlock_codes. UNLOCK_ITEMS has one item, which rows do not spell out.
pub record CodeRow : Type 0 where
  pub id : ℕ
  pub code_hash : ℕ
  pub note : Text
  pub max_devices : ℕ
  pub redemptions : ℕ
  pub is_revoked : Bool
  pub created_at : ℕ
  pub last_redeemed_at : Option ℕ
  -- `duration_months = 6`
  pub is_timed : Bool
  pub activated_at : Option ℕ
  pub expires_at : Option ℕ

pub data RedeemError : Type 0 where
  invalid_code code_used_up code_expired : RedeemError

-- A token names a code's id; the items are all of UNLOCK_ITEMS.
pub data RedeemResult : Type 0 where
  redeemed : ℕ → Option ℕ → RedeemResult
  refused : RedeemError → RedeemResult

-- `expires_at <= now`, where there is an expiry
unfoldable pub has_expired : ℕ → Option ℕ → Bool
has_expired now none = false
has_expired now (some t) = leb t now

-- COALESCE(o, t)
unfoldable pub coalesce : Option ℕ → ℕ → ℕ
coalesce none t = t
coalesce (some u) t = u

-- The WHERE of the UPDATE.
unfoldable pub has_slot : ℕ → CodeRow → Bool
unfolding has_expired
has_slot now row =
    not row.is_revoked
    && ltb row.redemptions row.max_devices
    && not (has_expired now row.expires_at)

-- The SET of the UPDATE; `until` is six months from now.
unfoldable pub take_slot : ℕ → ℕ → CodeRow → CodeRow
unfolding coalesce
take_slot now until row = record row {
  redemptions = row.redemptions + 1;
  last_redeemed_at = some now;
  activated_at = some (coalesce row.activated_at now);
  expires_at = if row.is_timed then some (coalesce row.expires_at until) else none;
}

unfoldable pub update_row : ℕ → (CodeRow → CodeRow) → List CodeRow → List CodeRow
update_row id f rows = map (λ r. if eqb r.id id then f r else r) rows

-- `UPDATE … WHERE id = … RETURNING expires_at`: each row that has a slot is taken, and the first is
-- returned.
unfoldable pub update_slot : ℕ → ℕ → ℕ → List CodeRow → Option (Option ℕ) × List CodeRow
unfolding has_slot take_slot
update_slot id now until [] = (none, [])
update_slot id now until (r ∷ rs) =
    let (taken, rest) = update_slot id now until rs in
    let row = take_slot now until r in
    if eqb r.id id && has_slot now r then (some row.expires_at, row ∷ rest) else (taken, r ∷ rest)

unfoldable pub redeem_result : ℕ → Option (Option ℕ) × List CodeRow → RedeemResult × List CodeRow
redeem_result id (none, rows) = (refused code_used_up, rows)
redeem_result id (some expires_at, rows) = (redeemed id expires_at, rows)

-- Once the row has been read: other devices may have changed `rows` since.
unfoldable pub redeem_row : (ℕ → ℕ) → ℕ → CodeRow → List CodeRow → RedeemResult × List CodeRow
unfolding has_expired update_slot redeem_result
redeem_row six_months_from now row rows =
    if row.is_revoked
    then (refused invalid_code, rows)
    else if has_expired now row.expires_at
    then (refused code_expired, rows)
    else redeem_result row.id (update_slot row.id now (six_months_from now) rows)

module _ (upper : Text → Text) (hash : Text → ℕ) (six_months_from : ℕ → ℕ) where
  unfoldable pub redeem_hashed : ℕ → ℕ → List CodeRow → RedeemResult × List CodeRow
  unfolding redeem_row
  redeem_hashed h now rows = elim (find (λ r. eqb r.code_hash h) rows) [
    | none ↦ (refused invalid_code, rows)
    | some row ↦ redeem_row six_months_from now row rows
  ]

  unfoldable pub redeem_code : Json → ℕ → List CodeRow → RedeemResult × List CodeRow
  unfolding redeem_hashed normalize_code
  redeem_code raw now rows = elim (normalize_code upper raw) [
    | none ↦ (refused invalid_code, rows)
    | some code ↦ redeem_hashed (hash code) now rows
  ]

unfoldable pub revoke_code : ℕ → List CodeRow → Bool × List CodeRow
unfolding update_row
revoke_code id rows =
    (any (λ r. eqb r.id id) rows, update_row id (λ r. record r { is_revoked = true }) rows)

-- What a token unlocks: whether the item, and until when. `none` is a token that names no code.
unfoldable pub verify_unlock : Option ℕ → ℕ → List CodeRow → Bool × Option ℕ
unfolding has_expired
verify_unlock none now rows = (false, none)
verify_unlock (some id) now rows = elim (find (λ r. eqb r.id id) rows) [
  | none ↦ (false, none)
  | some r ↦
      if r.is_revoked || has_expired now r.expires_at then (false, none) else (true, r.expires_at)
]
