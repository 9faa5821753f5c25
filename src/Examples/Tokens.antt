-- ===== src/Examples/Tokens.antt =====
-- Concrete inputs for the theorems on tokens and on fresh codes: a platform that signs by writing
-- the secret down and whose base64 has four characters for a byte.
use focustown_public.Unlocks.Fresh.{IsLetter, normalize_code-shown_code, new_code-IsFresh}
use focustown_public.Unlocks.Create.{new_code, shown_code}
use focustown_public.Tokens.Genuine.{IsGenuine, verify_token-IsGenuine}
use focustown_public.Prelude.{
  ℕ, ◌+◌, ◌-◌, ◌%◌, ◌≤◌, ◌≡◌, refl, ap, arith, inl, Option, none, some, List, [], ◌∷◌, ◌++◌, length,
  Text, codes, text_beq, text_beq_iff, Json, str, if◌then◌else◌, property, All, append-nil, sym,
  ◌&&◌, ltb,
}
use focustown_public.Unlocks.{units, normalize_code, code_length}
use focustown_public.Tokens.{
  Platform, jwt_header, claims_of, guest_token_type, create_token, verify_token, split, has_text,
  is_safe,
}
use focustown_public.Tokens.Base64.{IsBody, pads}
use focustown_public.Tokens.Laws.{IsPlatform, IsReadable, verify_token-create_token}

fourfold : List ℕ → Text
fourfold [] = []
fourfold (c ∷ cs) = (c + 256) ∷ (c + 256) ∷ (c + 256) ∷ (c + 256) ∷ fourfold cs

folded : Text → List ℕ
folded (a ∷ b ∷ c ∷ d ∷ s) = (a - 256) ∷ folded s
folded _ = []

folded-fourfold : (bytes : List ℕ) → folded (fourfold bytes) ≡ bytes
unfolding folded fourfold
folded-fourfold [] = refl
folded-fourfold (c ∷ cs) = ground (arith, folded-fourfold cs)

fourfold-whole : (bytes : List ℕ) → (length (fourfold bytes) + 0) % 4 ≡ 0
unfolding fourfold
fourfold-whole [] = refl
fourfold-whole (c ∷ cs) = omega (arith, fourfold-whole cs)

far-IsBody : (c : ℕ) → IsBody (c + 256)
far-IsBody c =
    (λ e. omega (arith, e), λ e. omega (arith, e), λ e. omega (arith, e), λ e. omega (arith, e))

fourfold-plain : (bytes : List ℕ) → All IsBody (fourfold bytes)
unfolding fourfold
fourfold-plain [] = tt
fourfold-plain (c ∷ cs) =
    let body = far-IsBody c in (body, (body, (body, (body, fourfold-plain cs))))

abbrev claims : Json
claims = claims_of (codes "g_1") 0 3600 guest_token_type (codes "j")

written : Json → Text
written j = if has_text (codes "HS256") (property (codes "alg") j) then codes "h" else codes "c"

read : Text → Option Json
read t = if text_beq t (codes "h") then some jwt_header else some claims

abbrev toy : Platform
toy = record {
  sign = λ secret input. secret ++ input;
  verify = λ secret signature input. text_beq signature (secret ++ input);
  btoa = fourfold;
  atob = λ t. some (folded t);
  encode = λ t. t;
  decode = λ bytes. bytes;
  stringify = written;
  parse = read;
}

toy-IsPlatform : IsPlatform toy
unfolding written read has_text property text_beq
toy-IsPlatform = record {
  base64 = record {
    body = fourfold;
    padded = λ bytes. 0;
    shape = λ bytes. unfold pads in sym (append-nil (fourfold bytes));
    few = λ bytes. omega arith;
    whole = fourfold-whole;
    plain = fourfold-plain;
    back = λ bytes. ap some (folded-fourfold bytes);
  };
  signed = λ secret input given. (text_beq_iff (secret ++ input) (secret ++ input)).1 refl;
  decoded = λ t plain. refl;
  readable = ((inl (omega arith), tt), λ e. omega (arith, e));
  header = refl;
}

claims-read : IsReadable (written claims) × (read (written claims) ≡ some claims)
unfolding written read has_text property text_beq
claims-read = (((inl (omega arith), tt), λ e. omega (arith, e)), refl)

abbrev token : Text
token = create_token toy (codes "s") (codes "g_1") guest_token_type 500 3600 (codes "j")

token-units : units token ≤ 2048
unfolding units create_token written has_text property text_beq fourfold
token-units = omega arith

verify_token-create_token_example : verify_token toy (codes "s") token 1000 guest_token_type ≡ (
    if text_beq guest_token_type guest_token_type && is_safe 3600 && ltb 1000 3600000
    then some (codes "g_1")
    else none)
verify_token-create_token_example =
    verify_token-create_token toy toy-IsPlatform (codes "s") (codes "g_1") guest_token_type 500 3600
      (codes "j") guest_token_type 1000 (λ e. cc) claims-read token-units

token-accepted : verify_token toy (codes "s") token 1000 guest_token_type ≡ some (codes "g_1")
unfolding text_beq is_safe
token-accepted =
    verify_token-create_token toy toy-IsPlatform (codes "s") (codes "g_1") guest_token_type 500 3600
      (codes "j") guest_token_type 1000 (λ e. cc) claims-read token-units

verify_token-IsGenuine_example :
    (units token ≤ 2048)
    × IsGenuine toy (codes "s") guest_token_type (codes "g_1") 1000 (split token)
verify_token-IsGenuine_example =
    verify_token-IsGenuine toy (codes "s") token guest_token_type (codes "g_1") 1000 token-accepted

abbrev bytes : List ℕ
bytes = 0 ∷ 250 ∷ 31 ∷ 5 ∷ []

abbrev more : List ℕ
more = 1 ∷ 2 ∷ 3 ∷ 4 ∷ 5 ∷ 6 ∷ 7 ∷ 8 ∷ 9 ∷ 10 ∷ 11 ∷ 255 ∷ []

new_code-IsFresh_example :
    (length (new_code bytes more) ≡ code_length) × All IsLetter (new_code bytes more)
new_code-IsFresh_example = new_code-IsFresh bytes more (omega arith)

normalize_code-shown_code_example :
    normalize_code (λ t. t) (str (shown_code bytes more)) ≡ some (new_code bytes more)
normalize_code-shown_code_example =
    normalize_code-shown_code (λ t. t) (λ t h. refl) bytes more (omega arith)
