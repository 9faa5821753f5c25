-- ===== src/Settings.antt =====
-- edge/src/config.ts: the environment's numbers, and the town's configuration. `number` is
-- JavaScript's `Number` on texts, where it gives a natural number.
use focustown_public.Prelude.{
  ℕ, ◌*◌, ◌<◌, ◌≡◌, refl, Option, none, some, [], ◌∷◌, arith, ltb, if◌then◌else◌, Text, or_default,
}
use focustown_public.Rules.Cleaning.{trim}
use focustown_public.Rules.Hours.{
  OpenHours, Parsed, always, window, bad_spec, empty_window, parse_open_hours,
}
use focustown_public.Rules.Hours.Laws.{IsWindow, parse_open_hours-IsWindow}
use focustown_public.Town.World.{Config, default_config}

-- The variables that the town's configuration reads, and the retention.
pub record Env : Type 0 where
  pub open_hours : Option Text
  pub session_seconds : Option Text
  pub token_ttl_hours : Option Text
  pub report_retention_days : Option Text
  pub feedback_retention_days : Option Text

-- The opening hours are those of a window, if there are any.
abbrev pub AreHours : Option OpenHours → Type 0
AreHours none = Unit {0}
AreHours (some w) = IsWindow w

-- A configuration under which visitors can meet.
abbrev pub IsUsable : Option Config → Type 0
IsUsable none = Unit {0}
IsUsable (some c) = (0 < c.session_ms) × AreHours c.open_hours

module _ (number : Text → Option ℕ) where
  -- `Number.isInteger(n) && n > 0 ? n : fallback`
  unfoldable pub positive_or : Option ℕ → ℕ → ℕ
  positive_or none fallback = fallback
  positive_or (some n) fallback = if ltb 0 n then n else fallback

  unfoldable pub int : Option Text → ℕ → ℕ
  unfolding positive_or
  int none fallback = fallback
  int (some []) fallback = fallback
  int (some (c ∷ s)) fallback = positive_or (number (c ∷ s)) fallback

  unfoldable pub with_hours : ℕ → Parsed → Option Config
  with_hours session_ms always = some (record default_config { session_ms = session_ms })
  with_hours session_ms (window w) =
      some (record default_config { session_ms = session_ms; open_hours = some w })
  with_hours session_ms bad_spec = none
  with_hours session_ms empty_window = none

  -- none where it throws
  unfoldable pub town_config : Env → Option Config
  unfolding int with_hours
  town_config env =
      with_hours (int env.session_seconds 420 * 1000)
        (parse_open_hours (trim (or_default env.open_hours [])))

  unfoldable pub token_ttl : Env → ℕ
  unfolding int
  token_ttl env = int env.token_ttl_hours 24

  unfoldable pub retention_days : Env → ℕ
  unfolding int
  retention_days env = int env.report_retention_days 180

  unfoldable pub feedback_retention : Env → ℕ
  unfolding int
  feedback_retention env = int env.feedback_retention_days 30

  positive_or-positive : (o : Option ℕ) (n : ℕ) → 0 < n → 0 < positive_or o n
  unfolding positive_or
  positive_or-positive none n h = h
  positive_or-positive (some m) n h = ground arith

  int-positive : (raw : Option Text) (n : ℕ) → 0 < n → 0 < int raw n
  unfolding int
  int-positive none n h = h
  int-positive (some []) n h = h
  int-positive (some (c ∷ s)) n h = positive_or-positive (number (c ∷ s)) n h

  with_hours-IsUsable :
      (spec : Text) (n : ℕ) (p : Parsed)
      → 0 < n
      → parse_open_hours spec ≡ p
      → IsUsable (with_hours n p)
  unfolding with_hours
  with_hours-IsUsable spec n always h e = (h, tt)
  with_hours-IsUsable spec n (window w) h e = (h, parse_open_hours-IsWindow spec w e)
  with_hours-IsUsable spec n bad_spec h e = tt
  with_hours-IsUsable spec n empty_window h e = tt

  -- Whatever the environment, and whatever `Number` makes of its texts, a configuration that is not
  -- refused has conversations longer than 0 and either no opening hours or a window that starts and
  -- ends at different minutes of one day.
  pub town_config-IsUsable : (env : Env) → IsUsable (town_config env)
  unfolding town_config
  town_config-IsUsable env =
      with_hours-IsUsable (trim (or_default env.open_hours [])) (int env.session_seconds 420 * 1000)
        (parse_open_hours (trim (or_default env.open_hours [])))
        (omega (arith, int-positive env.session_seconds 420 (omega arith))) refl
