-- ===== src/Tokens.antt =====
-- edge/src/token.ts: the tokens by which guests, the operator's socket and the administrator are
-- known. What the platform does is a parameter: Web Crypto's HMAC, `btoa` and `atob` on bytes,
-- UTF-8, and JSON. A key is its secret. Times are milliseconds.
pub mod Base64
pub mod Laws
pub mod Genuine
use focustown_public.Prelude.{
  ℕ, ◌+◌, ◌*◌, ◌/◌, ◌-◌, ◌%◌, ◌^◌, Bool, true, false, not, ◌&&◌, ◌||◌, Option, none, some, List, [],
  ◌∷◌, ◌++◌, map, length, drop, leb, ltb, eqb, if◌then◌else◌, Text, codes, text_beq, Json, str, num,
  obj, no_fields, field, property,
}
use focustown_public.Unlocks.{units}

-- The platform.
pub record Platform : Type 0 where
  pub sign : Text → Text → List ℕ
  pub verify : Text → List ℕ → Text → Bool
  pub btoa : List ℕ → Text
  pub atob : Text → Option (List ℕ)
  pub encode : Text → List ℕ
  pub decode : List ℕ → Text
  pub stringify : Json → Text
  pub parse : Text → Option Json

-- `replace(/\+/g, "-").replace(/\//g, "_")`, and back
unfoldable pub to_url : ℕ → ℕ
to_url c = if eqb c 43 then 45 else if eqb c 47 then 95 else c

unfoldable pub from_url : ℕ → ℕ
from_url c = if eqb c 45 then 43 else if eqb c 95 then 47 else c

-- `replace(/=+$/, "")`
unfoldable pub keep_unless_pad : ℕ → Text → Text
keep_unless_pad c [] = if eqb c 61 then [] else c ∷ []
keep_unless_pad c (d ∷ ds) = c ∷ d ∷ ds

unfoldable pub strip_pads : Text → Text
unfolding keep_unless_pad
strip_pads [] = []
strip_pads (c ∷ cs) = keep_unless_pad c (strip_pads cs)

-- `split(".")`
unfoldable pub push : ℕ → List Text → List Text
push c [] = (c ∷ []) ∷ []
push c (p ∷ ps) = (c ∷ p) ∷ ps

unfoldable pub split : Text → List Text
unfolding push
split [] = [] ∷ []
split (c ∷ cs) = if eqb c 46 then [] ∷ split cs else push c (split cs)

-- `s.startsWith("g_")`
unfoldable pub starts_with : Text → Text → Bool
starts_with [] t = true
starts_with (c ∷ cs) [] = false
starts_with (c ∷ cs) (d ∷ ds) = eqb c d && starts_with cs ds

abbrev pub guest_token_type : Text
guest_token_type = codes "lbt_guest"

abbrev pub guest_id_prefix : Text
guest_id_prefix = codes "g_"

-- `{ alg: "HS256", typ: "JWT" }`, and the claims
abbrev pub jwt_header : Json
jwt_header =
    obj (
      field (codes "alg") (str (codes "HS256")) (field (codes "typ") (str (codes "JWT")) no_fields))

abbrev pub claims_of : Text → ℕ → ℕ → Text → Text → Json
claims_of sub iat exp type jti = obj (
    field (codes "sub") (str sub) (
      field (codes "iat") (num iat) (
        field (codes "exp") (num exp)
          (field (codes "type") (str type) (field (codes "jti") (str jti) no_fields)))))

-- Number.isSafeInteger, of a natural number
unfoldable pub is_safe : ℕ → Bool
is_safe n = ltb n (2 ^ 53)

unfoldable pub has_text : Text → Json → Bool
has_text t (str u) = text_beq u t
has_text t _ = false

unfoldable pub is_unexpired : ℕ → Json → Bool
unfolding is_safe
is_unexpired now (num exp) = is_safe exp && ltb now (exp * 1000)
is_unexpired now _ = false

unfoldable pub subject : Json → Option Text
subject (str t) = some t
subject _ = none

-- The claims of a token whose signature holds; what is no JSON is no claims.
unfoldable pub check_claims : ℕ → Text → Option Json → Option Text
unfolding has_text is_unexpired subject property
check_claims now type none = none
check_claims now type (some claims) =
    if not (has_text type (property (codes "type") claims))
    then none
    else if not (is_unexpired now (property (codes "exp") claims))
    then none
    else subject (property (codes "sub") claims)

module _ (p : Platform) where
  unfoldable pub b64url : List ℕ → Text
  unfolding to_url strip_pads
  b64url bytes = strip_pads (map to_url (p.btoa bytes))

  unfoldable pub from_b64url : Text → Option (List ℕ)
  unfolding from_url
  from_b64url s = p.atob (map from_url s ++ drop ((length s + 3) % 4) (codes "==="))

  -- JSON.parse(new TextDecoder().decode(fromB64url(s))), which throws where there is none
  unfoldable pub read_part : Text → Option Json
  unfolding from_b64url
  read_part s = elim (from_b64url s) [ none ↦ none | some bytes ↦ p.parse (p.decode bytes) ]

  unfoldable pub is_hs256 : Option Json → Bool
  unfolding has_text property
  is_hs256 none = false
  is_hs256 (some header) = has_text (codes "HS256") (property (codes "alg") header)

  unfoldable pub is_signed : Text → Option (List ℕ) → Text → Bool
  is_signed secret none input = false
  is_signed secret (some signature) input = p.verify secret signature input

  unfoldable pub create_token : Text → Text → Text → ℕ → ℕ → Text → Text
  unfolding b64url
  create_token secret sub type now ttl jti =
      let iat = now / 1000 in
      let header = b64url (p.encode (p.stringify jwt_header)) in
      let payload = b64url (p.encode (p.stringify (claims_of sub iat (iat + ttl) type jti))) in
      let signing_input = header ++ 46 ∷ payload in
      signing_input ++ 46 ∷ b64url (p.sign secret signing_input)

  unfoldable pub verify_parts : Text → List Text → ℕ → Text → Option Text
  unfolding is_hs256 is_signed read_part from_b64url check_claims
  verify_parts secret (h ∷ q ∷ s ∷ []) now type =
      if not (is_hs256 (read_part h))
      then none
      else if not (is_signed secret (from_b64url s) (h ++ 46 ∷ q))
      then none
      else check_claims now type (read_part q)
  verify_parts secret _ now type = none

  unfoldable pub verify_token : Text → Text → ℕ → Text → Option Text
  unfolding verify_parts split
  verify_token secret token now type =
      if ltb 2048 (units token) then none else verify_parts secret (split token) now type

  unfoldable pub create_guest_token : Text → Text → ℕ → ℕ → Text → Text
  unfolding create_token
  create_guest_token secret guest_id now ttl_hours jti =
      create_token secret guest_id guest_token_type now (ttl_hours * 3600) jti

  unfoldable pub create_companion_token : Text → ℕ → Text → Text
  unfolding create_token
  create_companion_token secret now jti =
      create_token secret (codes "companion") (codes "lbt_companion") now 300 jti

  unfoldable pub create_admin_session : Text → ℕ → Text → Text
  unfolding create_token
  create_admin_session secret now jti =
      create_token secret (codes "admin") (codes "lbt_admin") now (12 * 3600) jti

  unfoldable pub keep_guest : Option Text → Option Text
  unfolding starts_with
  keep_guest none = none
  keep_guest (some sub) = if starts_with guest_id_prefix sub then some sub else none

  unfoldable pub verify_guest_token : Text → Text → ℕ → Option Text
  unfolding verify_token keep_guest
  verify_guest_token secret token now = keep_guest (verify_token secret token now guest_token_type)

  unfoldable pub is_subject : Text → Option Text → Bool
  is_subject name none = false
  is_subject name (some sub) = text_beq sub name

  unfoldable pub verify_companion_token : Text → Text → ℕ → Bool
  unfolding verify_token is_subject
  verify_companion_token secret token now =
      is_subject (codes "companion") (verify_token secret token now (codes "lbt_companion"))

  unfoldable pub verify_admin_session : Text → Text → ℕ → Bool
  unfolding verify_token is_subject
  verify_admin_session secret token now =
      is_subject (codes "admin") (verify_token secret token now (codes "lbt_admin"))
