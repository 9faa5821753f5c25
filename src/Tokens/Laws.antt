-- ===== src/Tokens/Laws.antt =====
-- token.ts: which tokens are accepted.
use focustown_public.Prelude.{
  ℕ, ◌+◌, ◌*◌, ◌/◌, ◌≤◌, ◌<◌, ◌≢◌, ◌⊎◌, All, ◌≡◌, refl, arith, true, ◌&&◌, none, some, List, [],
  ◌∷◌, ◌++◌, ltb, if◌then◌else◌, Text, text_beq, Json, property, append_assoc, ◌∙◌,
}
use focustown_public.Unlocks.{units}
use focustown_public.Tokens.{
  Platform, jwt_header, claims_of, is_safe, has_text, is_unexpired, subject, check_claims, b64url,
  read_part, is_hs256, is_signed, create_token, verify_parts, verify_token, split,
}
use focustown_public.Tokens.Base64.{
  IsBase64, from_b64url-b64url, b64url-dots, split-dot, split-whole,
}

-- What UTF-8 keeps: a text without surrogates on their own, for which U+FFFD would be written, and
-- without a byte order mark in front, which the decoder takes away.
abbrev pub IsScalar : ℕ → Type 0
IsScalar c = (c < 55296) ⊎ ((57343 < c) × (c < 1114112))

abbrev pub IsUnmarked : Text → Type 0
IsUnmarked [] = Unit {0}
IsUnmarked (c ∷ cs) = c ≢ 65279

abbrev pub IsReadable : Text → Type 0
IsReadable t = All IsScalar t × IsUnmarked t

-- What a signature and the texts of the platform promise: HMAC accepts what it signed with the
-- same secret, if there is one, UTF-8 reads back a text that it can write, and JSON writes the
-- header as such a text and reads it back.
pub record IsPlatform (p : Platform) : Type 0 where
  pub base64 : IsBase64 p
  pub signed :
      (secret input : Text) → secret ≢ [] → p.verify secret (p.sign secret input) input ≡ true
  pub decoded : (t : Text) → IsReadable t → p.decode (p.encode t) ≡ t
  pub readable : IsReadable (p.stringify jwt_header)
  pub header : p.parse (p.stringify jwt_header) ≡ some jwt_header

module _ (p : Platform) (i : IsPlatform p) where
  read_part-b64url :
      (j : Json)
      → IsReadable (p.stringify j)
      → p.parse (p.stringify j) ≡ some j
      → read_part p (b64url p (p.encode (p.stringify j))) ≡ some j
  unfolding read_part
  read_part-b64url j plain h =
      rw
        (
          read_part,
          from_b64url-b64url p i.base64 (p.encode (p.stringify j)),
          i.decoded (p.stringify j) plain,
        )
        h

  split-token :
      (h q s : List ℕ)
      → split ((b64url p h ++ 46 ∷ b64url p q) ++ 46 ∷ b64url p s)
        ≡ b64url p h ∷ b64url p q ∷ b64url p s ∷ []
  split-token h q s =
      rw
        (
          append_assoc (b64url p h) (46 ∷ b64url p q) (46 ∷ b64url p s),
          split-dot (b64url p h) (b64url p q ++ 46 ∷ b64url p s) (b64url-dots p i.base64 h),
          split-dot (b64url p q) (b64url p s) (b64url-dots p i.base64 q),
          split-whole (b64url p s) (b64url-dots p i.base64 s),
        )
        refl

  -- A token of the three parts that create_token makes: all that is left are its claims.
  verify_parts-signed :
      (secret : Text) (claims : Json) (now : ℕ) (asked : Text)
      → secret ≢ []
      → IsReadable (p.stringify claims)
      → p.parse (p.stringify claims) ≡ some claims
      → (let h = b64url p (p.encode (p.stringify jwt_header)) in
          let q = b64url p (p.encode (p.stringify claims)) in
          verify_parts p secret (h ∷ q ∷ b64url p (p.sign secret (h ++ 46 ∷ q)) ∷ []) now asked
          ≡ check_claims now asked (some claims))
  unfolding verify_parts is_hs256 is_signed has_text property text_beq
  verify_parts-signed secret claims now asked given plain e =
      let h = b64url p (p.encode (p.stringify jwt_header)) in
      let q = b64url p (p.encode (p.stringify claims)) in
      rw
        (
          read_part-b64url jwt_header i.readable i.header,
          read_part-b64url claims plain e,
          from_b64url-b64url p i.base64 (p.sign secret (h ++ 46 ∷ q)),
          i.signed secret (h ++ 46 ∷ q) given,
        )
        refl

  verify_token-parts :
      (secret token : Text) (parts : List Text) (now : ℕ) (asked : Text)
      → units token ≤ 2048
      → split token ≡ parts
      → verify_token p secret token now asked ≡ verify_parts p secret parts now asked
  unfolding verify_token
  verify_token-parts secret token parts now asked short e = ground (arith, short, e)

check_claims-claims_of :
    (sub : Text) (iat exp : ℕ) (type jti asked : Text) (now : ℕ)
    → check_claims now asked (some (claims_of sub iat exp type jti))
      ≡ (if text_beq type asked && is_safe exp && ltb now (exp * 1000) then some sub else none)
unfolding check_claims has_text is_unexpired subject property text_beq
check_claims-claims_of sub iat exp type jti asked now = ground arith

-- Where the platform keeps what it promises: a token that was made for a subject and a type with a
-- secret that is not empty, if it has no more than 2048 characters and JSON writes its claims as a
-- text that UTF-8 can write, and reads them back, is accepted at any time exactly for its own type
-- and before its end, and then names the subject.
pub verify_token-create_token :
    (p : Platform)
    → IsPlatform p
    → (secret sub type : Text) (now ttl : ℕ) (jti asked : Text) (later : ℕ) → secret ≢ []
    → (let claims = claims_of sub (now / 1000) (now / 1000 + ttl) type jti in
        IsReadable (p.stringify claims) × (p.parse (p.stringify claims) ≡ some claims))
    → units (create_token p secret sub type now ttl jti) ≤ 2048
    → verify_token p secret (create_token p secret sub type now ttl jti) later asked ≡ (
        if text_beq type asked
          && is_safe (now / 1000 + ttl)
          && ltb later ((now / 1000 + ttl) * 1000)
        then some sub
        else none)
verify_token-create_token p i secret sub type now ttl jti asked later given (plain, parsed) short =
    let claims = claims_of sub (now / 1000) (now / 1000 + ttl) type jti in
    let h = b64url p (p.encode (p.stringify jwt_header)) in
    let q = b64url p (p.encode (p.stringify claims)) in
    verify_token-parts p i secret (create_token p secret sub type now ttl jti)
      (h ∷ q ∷ b64url p (p.sign secret (h ++ 46 ∷ q)) ∷ []) later asked short
      (unfold create_token in
        split-token p i (p.encode (p.stringify jwt_header)) (p.encode (p.stringify claims))
          (p.sign secret (h ++ 46 ∷ q)))
    ∙ verify_parts-signed p i secret claims later asked given plain parsed
    ∙ check_claims-claims_of sub (now / 1000) (now / 1000 + ttl) type jti asked later
