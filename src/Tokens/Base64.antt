-- ===== src/Tokens/Base64.antt =====
-- token.ts, b64url and fromB64url: the URL-safe text of bytes, without its padding.
use focustown_public.Prelude.{
  ℕ, zero, suc, ◌+◌, ◌-◌, ◌%◌, ◌≤◌, ◌≡◌, ◌≢◌, refl, sym, ap, arith, some, List, [], ◌∷◌, ◌++◌, map,
  length, drop, All, Text, codes,
}
use focustown_public.Tokens.{
  Platform, to_url, from_url, keep_unless_pad, strip_pads, b64url, from_b64url, split, push,
}

unfoldable pub pads : ℕ → Text
pads zero = []
pads (suc n) = 61 ∷ pads n

-- Not `=`, `-`, `_` or `.`
abbrev pub IsBody : ℕ → Type 0
IsBody c = (c ≢ 61) × (c ≢ 45) × (c ≢ 95) × (c ≢ 46)

-- What `btoa` does: a body of the alphabet, filled up with at most two `=` to a multiple of four
-- characters, which `atob` reads back.
pub record IsBase64 (p : Platform) : Type 0 where
  pub body : List ℕ → Text
  pub padded : List ℕ → ℕ
  pub shape : (bytes : List ℕ) → p.btoa bytes ≡ body bytes ++ pads (padded bytes)
  pub few : (bytes : List ℕ) → padded bytes ≤ 2
  pub whole : (bytes : List ℕ) → (length (body bytes) + padded bytes) % 4 ≡ 0
  pub plain : (bytes : List ℕ) → All IsBody (body bytes)
  pub back : (bytes : List ℕ) → p.atob (p.btoa bytes) ≡ some bytes

strip_pads-body :
    (b : Text) (n : ℕ) → All IsBody b → strip_pads (map to_url (b ++ pads n)) ≡ map to_url b
unfolding strip_pads keep_unless_pad to_url pads
strip_pads-body [] zero h = refl
strip_pads-body [] (suc n) h = rw (strip_pads-body [] n tt) refl
strip_pads-body (c ∷ []) n h = rw (strip_pads-body [] n tt) (ground (arith, h))
strip_pads-body (c ∷ d ∷ ds) n h = rw (strip_pads-body (d ∷ ds) n h.1) refl

from_url-to_url : (b : Text) → All IsBody b → map from_url (map to_url b) ≡ b
unfolding from_url to_url
from_url-to_url [] h = refl
from_url-to_url (c ∷ cs) h =
    rw (from_url-to_url cs h.1) (ap (λ d. d ∷ cs) (unfold from_url to_url in ground (arith, h.0)))

length-map_url : (b : Text) → length (map to_url b) ≡ length b
length-map_url [] = refl
length-map_url (c ∷ cs) = ap (λ n. suc n) (length-map_url cs)

map_url-dots : (b : Text) → All IsBody b → All (λ c. c ≢ 46) (map to_url b)
map_url-dots [] h = tt
map_url-dots (c ∷ cs) h = ((unfold to_url in ground (arith, h.0)), map_url-dots cs h.1)

remainder : (l n : ℕ) → n ≤ 2 → (l + n) % 4 ≡ 0 → (l + 3) % 4 ≡ 3 - n
remainder l n h e = omega (arith, h, e)

-- The padding that fromB64url puts back.
pads_back : (l n : ℕ) → n ≤ 2 → (l + n) % 4 ≡ 0 → drop ((l + 3) % 4) (codes "===") ≡ pads n
unfolding pads
pads_back l zero h e = rw (remainder l 0 h e) refl
pads_back l (suc zero) h e = rw (remainder l 1 h e) refl
pads_back l (suc (suc zero)) h e = rw (remainder l 2 h e) refl
pads_back l (suc (suc (suc n))) h e = absurd (omega (arith, h))

module _ (p : Platform) (i : IsBase64 p) (bytes : List ℕ) where
  b64url_lem : b64url p bytes ≡ map to_url (i.body bytes)
  unfolding b64url
  b64url_lem = rw (i.shape bytes) (strip_pads-body (i.body bytes) (i.padded bytes) (i.plain bytes))

  from_b64url-body : from_b64url p (map to_url (i.body bytes)) ≡ some bytes
  unfolding from_b64url
  from_b64url-body =
      rw
        (
          from_b64url,
          length-map_url (i.body bytes),
          from_url-to_url (i.body bytes) (i.plain bytes),
          pads_back (length (i.body bytes)) (i.padded bytes) (i.few bytes) (i.whole bytes),
          sym (i.shape bytes),
        )
        (i.back bytes)

  -- What b64url makes of bytes, fromB64url reads back.
  pub from_b64url-b64url : from_b64url p (b64url p bytes) ≡ some bytes
  from_b64url-b64url = rw b64url_lem from_b64url-body

  -- There is no dot in it.
  pub b64url-dots : All (λ c. c ≢ 46) (b64url p bytes)
  b64url-dots = rw b64url_lem (map_url-dots (i.body bytes) (i.plain bytes))

-- Up to a dot, and from it on.
pub split-dot : (s t : Text) → All (λ c. c ≢ 46) s → split (s ++ 46 ∷ t) ≡ s ∷ split t
unfolding split push
split-dot [] t h = refl
split-dot (c ∷ cs) t h = rw (split-dot cs t h.1) (ground (arith, h.0))

pub split-whole : (s : Text) → All (λ c. c ≢ 46) s → split s ≡ s ∷ []
unfolding split push
split-whole [] h = refl
split-whole (c ∷ cs) h = rw (split-whole cs h.1) (ground (arith, h.0))
