-- ===== src/Rules/Hours/Laws.antt =====
-- The opening window.
use focustown_public.Prelude.{
  ℕ, ◌<◌, ◌≡◌, ◌≢◌, not, Option, none, some, arith, Bool-cases, inl, inr, Text,
}
use focustown_public.Rules.Cleaning.{trim}
use focustown_public.Rules.Hours.{
  OpenHours, window, parse_open_hours, matched, match_hours, is_empty, window_of, is_open,
}

-- Of two windows that exchange their start and end, which differ, exactly one is open at any time
-- of day.
pub is_open_swap :
    (s e local : ℕ)
    → s ≢ e
    → is_open local (some (record { start = s; end = e }))
      ≡ not (is_open local (some (record { start = e; end = s })))
unfolding is_open
is_open_swap s e local h = ground arith

pub record IsWindow (w : OpenHours) : Type 0 where
  pub start_in_day : w.start < 1440
  pub end_in_day : w.end < 1440
  pub nonempty : w.start ≢ w.end

window_of-IsWindow : (a b : ℕ × ℕ) (w : OpenHours) → window_of a b ≡ window w → IsWindow w
unfolding window_of
window_of-IsWindow (h1, m1) (h2, m2) w h = ground arith

matched-IsWindow :
    (m : Option ((ℕ × ℕ) × (ℕ × ℕ))) (w : OpenHours) → matched m ≡ window w → IsWindow w
unfolding matched
matched-IsWindow none w h = cc
matched-IsWindow (some (a, b)) w h = window_of-IsWindow a b w h

-- A window that is parsed starts and ends at minutes of one day, and not at the same.
pub parse_open_hours-IsWindow :
    (spec : Text) (w : OpenHours) → parse_open_hours spec ≡ window w → IsWindow w
unfolding parse_open_hours
parse_open_hours-IsWindow spec w h = elim (Bool-cases (is_empty (trim spec))) [
  | inl e ↦ cc
  | inr e ↦ matched-IsWindow (match_hours spec) w (rw e at h)
]
