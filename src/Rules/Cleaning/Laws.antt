-- ===== src/Rules/Cleaning/Laws.antt =====
-- What cleanText promises its callers.
use focustown_public.Prelude.{
  ℕ, zero, suc, ◌≤◌, ◌≡◌, refl, ap, false, [], ◌∷◌, arith, eqb, length, take, All, Text,
  length-take,
}
use focustown_public.Rules.Cleaning.{
  is_control, is_space, trim_start, keep_before, trim_end, trim, line_feeds, strip_control, clean,
}

abbrev pub IsVisible : ℕ → Type 0
IsVisible c = is_control c ≡ false

-- Text with no white space at its start.
abbrev StartsSolid : Text → Type 0
StartsSolid [] = Unit {0}
StartsSolid (c ∷ s) = is_space c ≡ false

-- Text with no white space at either end, by what trimming does to it.
abbrev pub IsTrimmed : Text → Type 0
IsTrimmed s = trim s ≡ s

trim_start-StartsSolid : (s : Text) → StartsSolid (trim_start s)
unfolding trim_start
trim_start-StartsSolid [] = tt
trim_start-StartsSolid (c ∷ s) = ground (arith, trim_start-StartsSolid s)

trim_start-solid : (s : Text) → StartsSolid s → trim_start s ≡ s
unfolding trim_start
trim_start-solid [] h = refl
trim_start-solid (c ∷ s) h = ground arith

keep_before-solid : (c : ℕ) (s : Text) → is_space c ≡ false → keep_before c s ≡ c ∷ s
unfolding keep_before
keep_before-solid c [] h = ground arith
keep_before-solid c (d ∷ s) h = refl

trim_end-StartsSolid : (s : Text) → StartsSolid s → StartsSolid (trim_end s)
unfolding trim_end
trim_end-StartsSolid [] h = tt
trim_end-StartsSolid (c ∷ s) h = rw (keep_before-solid c (trim_end s) h) h

trim_end-keep_before :
    (c : ℕ) (s : Text) → trim_end s ≡ s → trim_end (keep_before c s) ≡ keep_before c s
unfolding trim_end keep_before
trim_end-keep_before c [] h = ground arith
trim_end-keep_before c (d ∷ s) h = rw h

trim_end_idem : (s : Text) → trim_end (trim_end s) ≡ trim_end s
unfolding trim_end
trim_end_idem [] = refl
trim_end_idem (c ∷ s) = trim_end-keep_before c (trim_end s) (trim_end_idem s)

pub trim_idem : (s : Text) → trim (trim s) ≡ trim s
unfolding trim
trim_idem s =
    rw
      (trim_start-solid (trim_end (trim_start s))
        (trim_end-StartsSolid (trim_start s) (trim_start-StartsSolid s)))
      (trim_end_idem (trim_start s))

module _ (P : ℕ → Type 0) where
  trim_start-All : (s : Text) → All P s → All P (trim_start s)
  unfolding trim_start
  trim_start-All [] h = tt
  trim_start-All (c ∷ s) h = ground (arith, trim_start-All s)

  keep_before-All : (c : ℕ) (s : Text) → P c → All P s → All P (keep_before c s)
  unfolding keep_before
  keep_before-All c [] p h = ground arith
  keep_before-All c (d ∷ s) p h = (p, h)

  trim_end-All : (s : Text) → All P s → All P (trim_end s)
  unfolding trim_end
  trim_end-All [] h = tt
  trim_end-All (c ∷ s) h = keep_before-All c (trim_end s) h.0 (trim_end-All s h.1)

  trim-All : (s : Text) → All P s → All P (trim s)
  unfolding trim
  trim-All s h = trim_end-All (trim_start s) (trim_start-All s h)

  take-All : (n : ℕ) (s : Text) → All P s → All P (take n s)
  take-All zero s h = tt
  take-All (suc n) [] h = tt
  take-All (suc n) (c ∷ s) h = (h.0, take-All n s h.1)

strip_control-All : (s : Text) → All IsVisible (strip_control s)
unfolding strip_control
strip_control-All [] = tt
strip_control-All (c ∷ s) = ground (arith, strip_control-All s)

strip_control-visible : (s : Text) → All IsVisible s → strip_control s ≡ s
unfolding strip_control
strip_control-visible [] h = refl
strip_control-visible (c ∷ s) h = ground (arith, strip_control-visible s)

visible-ne-cr : (c : ℕ) → is_control c ≡ false → eqb c 13 ≡ false
unfolding is_control
visible-ne-cr c h = ground arith

line_feeds-visible : (s : Text) → All IsVisible s → line_feeds s ≡ s
unfolding line_feeds
line_feeds-visible [] h = refl
line_feeds-visible (c ∷ s) h = ground (arith, visible-ne-cr c, line_feeds-visible s)

-- Behind the control filter, the replacement of line endings changes nothing.
pub line_feeds-strip_control : (s : Text) → line_feeds (strip_control s) ≡ strip_control s
line_feeds-strip_control s = line_feeds-visible (strip_control s) (strip_control-All s)

trim_start-length : (s : Text) → length (trim_start s) ≤ length s
unfolding trim_start
trim_start-length [] = omega arith
trim_start-length (c ∷ s) = ground (arith, trim_start-length s)

keep_before-length : (c : ℕ) (s : Text) → length (keep_before c s) ≤ suc (length s)
unfolding keep_before
keep_before-length c [] = ground arith
keep_before-length c (d ∷ s) = omega arith

trim_end-length : (s : Text) → length (trim_end s) ≤ length s
unfolding trim_end
trim_end-length [] = omega arith
trim_end-length (c ∷ s) = omega (arith, trim_end-length s, keep_before-length c (trim_end s))

pub trim-length : (s : Text) → length (trim s) ≤ length s
unfolding trim
trim-length s = omega (arith, trim_start-length s, trim_end-length (trim_start s))

take-short : (n : ℕ) (s : Text) → length s ≤ n → take n s ≡ s
take-short zero [] h = refl
take-short zero (c ∷ s) h = absurd (omega arith)
take-short (suc n) [] h = refl
take-short (suc n) (c ∷ s) h = ap (◌∷◌ c) (take-short n s (omega arith))

clean-IsVisible : (s : Text) (n : ℕ) → All IsVisible (clean s n)
unfolding clean
clean-IsVisible s n = trim-All IsVisible _ (
    take-All IsVisible n _ (
      trim-All IsVisible (line_feeds (strip_control s))
        (rw (line_feeds-strip_control s) (strip_control-All s))))

clean-length : (s : Text) (n : ℕ) → length (clean s n) ≤ n
unfolding clean
clean-length s n = omega (
  arith,
  trim-length (take n (trim (line_feeds (strip_control s)))),
  length-take n (trim (line_feeds (strip_control s))),
)

clean-IsTrimmed : (s : Text) (n : ℕ) → IsTrimmed (clean s n)
unfolding clean
clean-IsTrimmed s n = trim_idem (take n (trim (line_feeds (strip_control s))))

-- Cleaned text has at most `n` code points, no control or bidi character, and trimming leaves it
-- as it is.
pub clean_bounds :
    (s : Text) (n : ℕ)
    → (length (clean s n) ≤ n) × All IsVisible (clean s n) × IsTrimmed (clean s n)
clean_bounds s n = (clean-length s n, clean-IsVisible s n, clean-IsTrimmed s n)

-- Text that is short, visible and trimmed passes unchanged.
pub clean-fixed : (s : Text) (n : ℕ) → length s ≤ n → All IsVisible s → IsTrimmed s → clean s n ≡ s
unfolding clean
clean-fixed s n short visible trimmed =
    rw
      (strip_control-visible s visible, line_feeds-visible s visible, trimmed, take-short n s short)
      trimmed

-- Cleaning a second time changes nothing.
pub clean_idem : (s : Text) (n : ℕ) → clean (clean s n) n ≡ clean s n
clean_idem s n =
    let (short, visible, trimmed) = clean_bounds s n in
    clean-fixed (clean s n) n short visible trimmed
