-- ===== src/Avatars.antt =====
-- edge/src/avatars.ts: the two battery-family avatars of a conversation. An avatar is its place in
-- AVATAR_IDS. The id's UTF-16 code units are its code points, as ids are ASCII.
use focustown_public.Prelude.{ℕ, ◌+◌, ◌*◌, ◌/◌, ◌%◌, ◌^◌, ◌<◌, ◌≢◌, [], ◌∷◌, bit_xor, arith, Text}

abbrev pub avatar_count : ℕ
avatar_count = 10

fnv1a_from : ℕ → Text → ℕ
fnv1a_from h [] = h
fnv1a_from h (c ∷ s) = fnv1a_from ((bit_xor h c * 0x01000193) % 2 ^ 32) s

-- FNV-1a; `Math.imul(h, p) >>> 0` is the product modulo 2^32.
pub fnv1a : Text → ℕ
unfolding fnv1a_from
fnv1a text = fnv1a_from 0x811c9dc5 text

unfoldable pub avatar_pair_of : ℕ → ℕ × ℕ
avatar_pair_of h =
    (h % avatar_count, (h % avatar_count + 1 + (h / avatar_count) % 9) % avatar_count)

unfoldable pub avatar_pair : Text → ℕ × ℕ
avatar_pair conversation_id = avatar_pair_of (fnv1a conversation_id)

-- The two sides of a conversation get avatars of the list, and never the same.
pub avatar_pair_distinct :
    (id : Text)
    → ((avatar_pair id).0 < avatar_count)
      × ((avatar_pair id).1 < avatar_count)
      × ((avatar_pair id).0 ≢ (avatar_pair id).1)
unfolding avatar_pair avatar_pair_of
avatar_pair_distinct id = omega arith
