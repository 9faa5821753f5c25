-- ===== src/Rules/Contacts.antt =====
-- edge/src/rules.ts, maskContacts. The regular expressions are JavaScript's: `replace` of the
-- engine is a parameter, and the order of the passes and the test on phone numbers are modelled.
use focustown_public.Prelude.{ℕ, Bool, ◌&&◌, ◌||◌, leb, if◌then◌else◌, select, length, Text, codes}

-- The four expressions, named as in the source.
pub data Pattern : Type 0 where
  email_re url_re handle_re phone_re : Pattern

-- `replace p f s` is `s.replace(p, f)`; `declares_minor` and the others are tests of jojo.ts.
pub record RegExp : Type 0 where
  pub replace : Pattern → (Text → Text) → Text → Text
  pub declares_minor : Text → Bool

abbrev pub contact_mask : Text
contact_mask = codes "•••"

-- DIGIT: ASCII and full-width digits.
unfoldable pub is_digit : ℕ → Bool
is_digit c = (leb 48 c && leb c 57) || (leb 65296 c && leb c 65305)

-- what the last `replace` puts for a match
unfoldable pub mask_phone : Text → Text
unfolding is_digit
mask_phone m = if leb 8 (length (select is_digit m)) then contact_mask else m

unfoldable pub mask_contacts : RegExp → Text → Text
unfolding mask_phone
mask_contacts re text = re.replace phone_re mask_phone (
    re.replace handle_re (λ m. contact_mask)
      (re.replace url_re (λ m. contact_mask) (re.replace email_re (λ m. contact_mask) text)))
