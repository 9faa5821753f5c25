-- ===== src/Tokens/Genuine.antt =====
-- token.ts, verifyToken: what has to hold of a token that is accepted, whoever made it.
use focustown_public.Prelude.{
  ℕ, ◌*◌, ◌≤◌, ◌<◌, ◌≡◌, refl, arith, true, Option, none, some, List, [], ◌∷◌, ◌++◌, Text, codes,
  text_beq_iff, Json, num, str, property, bool, obj, undefined, null, arr, other_num, ap,
}
use focustown_public.Unlocks.{units}
use focustown_public.Tokens.{
  Platform, has_text, is_unexpired, subject, check_claims, from_b64url, read_part, is_signed,
  verify_parts, verify_token, split,
}

has_text-str : (t : Text) (j : Json) → has_text t j ≡ true → j ≡ str t
unfolding has_text
has_text-str t (str u) h = ap str ((text_beq_iff u t).0 h)
has_text-str t undefined h = cc
has_text-str t null h = cc
has_text-str t arr h = cc
has_text-str t other_num h = cc
has_text-str t (bool b) h = cc
has_text-str t (num n) h = cc
has_text-str t (obj fs) h = cc

is_unexpired-num :
    (now : ℕ) (j : Json)
    → is_unexpired now j ≡ true
    → (exp : ℕ) × (j ≡ num exp) × (now < exp * 1000)
unfolding is_unexpired
is_unexpired-num now (num n) h = (n, refl, ground (arith, h))
is_unexpired-num now (str u) h = cc
is_unexpired-num now undefined h = cc
is_unexpired-num now null h = cc
is_unexpired-num now arr h = cc
is_unexpired-num now other_num h = cc
is_unexpired-num now (bool b) h = cc
is_unexpired-num now (obj fs) h = cc

subject-str : (j : Json) (t : Text) → subject j ≡ some t → j ≡ str t
unfolding subject
subject-str (str u) t h = ap str (cc h)
subject-str (num n) t h = cc
subject-str undefined t h = cc
subject-str null t h = cc
subject-str arr t h = cc
subject-str other_num t h = cc
subject-str (bool b) t h = cc
subject-str (obj fs) t h = cc

-- The claims name the type and the subject, and an end that is still to come.
abbrev pub AreClaims : Json → Text → Text → ℕ → Type 0
AreClaims claims type sub now =
    (property (codes "type") claims ≡ str type)
    × (property (codes "sub") claims ≡ str sub)
    × ((exp : ℕ) × (property (codes "exp") claims ≡ num exp) × (now < exp * 1000))

check_claims-AreClaims :
    (now : ℕ) (type sub : Text) (o : Option Json)
    → check_claims now type o ≡ some sub
    → (claims : Json) × (o ≡ some claims) × AreClaims claims type sub now
unfolding check_claims
check_claims-AreClaims now type sub none h = cc
check_claims-AreClaims now type sub (some claims) h = (
  claims,
  refl,
  (
    has_text-str type (property (codes "type") claims) (ground (arith, h)),
    subject-str (property (codes "sub") claims) sub (ground (arith, h)),
    is_unexpired-num now (property (codes "exp") claims) (ground (arith, h)),
  ),
)

is_signed-verify :
    (p : Platform) (secret : Text) (o : Option (List ℕ)) (input : Text)
    → is_signed p secret o input ≡ true
    → (signature : List ℕ) × (o ≡ some signature) × (p.verify secret signature input ≡ true)
unfolding is_signed
is_signed-verify p secret none input h = cc
is_signed-verify p secret (some signature) input h = (signature, refl, h)

-- A signed header and payload, and claims in the payload.
pub record IsGenuine (p : Platform) (secret type sub : Text) (now : ℕ) (parts : List Text)
    : Type 0 where
  pub header : Text
  pub payload : Text
  pub tail : Text
  pub three : parts ≡ header ∷ payload ∷ tail ∷ []
  pub signature : List ℕ
  pub signature_read : from_b64url p tail ≡ some signature
  pub signed : p.verify secret signature (header ++ 46 ∷ payload) ≡ true
  pub claims : Json
  pub claims_read : read_part p payload ≡ some claims
  pub claimed : AreClaims claims type sub now

verify_parts-IsGenuine :
    (p : Platform) (secret type sub : Text) (now : ℕ) (parts : List Text)
    → verify_parts p secret parts now type ≡ some sub
    → IsGenuine p secret type sub now parts
unfolding verify_parts
verify_parts-IsGenuine p secret type sub now (h ∷ q ∷ s ∷ []) e =
    let (signature, read, signed) =
      is_signed-verify p secret (from_b64url p s) (h ++ 46 ∷ q) (ground (arith, e)) in
    let (claims, claims_read, claimed) =
      check_claims-AreClaims now type sub (read_part p q) (ground (arith, e)) in
    record {
      header = h;
      payload = q;
      tail = s;
      three = refl;
      signature = signature;
      signature_read = read;
      signed = signed;
      claims = claims;
      claims_read = claims_read;
      claimed = claimed;
    }
verify_parts-IsGenuine p secret type sub now [] e = absurd (cc e)
verify_parts-IsGenuine p secret type sub now (h ∷ []) e = absurd (cc e)
verify_parts-IsGenuine p secret type sub now (h ∷ q ∷ []) e = absurd (cc e)
verify_parts-IsGenuine p secret type sub now (h ∷ q ∷ s ∷ t ∷ ts) e = absurd (cc e)

-- Whatever is presented as a token, at any time: what is accepted has no more than 2048 characters
-- and three parts, of which the third is a signature that the secret verifies for the first two,
-- and its second part has claims of the type that was asked for, of the subject that is answered,
-- and with an end that is still to come. Everything else is refused.
pub verify_token-IsGenuine :
    (p : Platform) (secret token type sub : Text) (now : ℕ)
    → verify_token p secret token now type ≡ some sub
    → (units token ≤ 2048) × IsGenuine p secret type sub now (split token)
unfolding verify_token
verify_token-IsGenuine p secret token type sub now e = (
  ground (arith, e),
  verify_parts-IsGenuine p secret type sub now (split token) (ground (arith, e)),
)
