-- ===== src/Stats.antt =====
-- edge/src/dailyStats.ts: conversations, reports and feedback by day. A UTC day is the number of
-- days since the epoch, in place of its text.
use focustown_public.Prelude.{
  ℕ, zero, suc, ◌+◌, ◌-◌, ◌*◌, ◌/◌, ◌≤◌, ◌≡◌, refl, Option, some, none, List, [], ◌∷◌, arith, min,
  max, eqb, eqb_iff, if◌then◌else◌, length, select, lookup, insert, lookup-insert, or_default,
  Assoc, ℕ_eq,
}

abbrev pub day_ms : ℕ
day_ms = 86400000

unfoldable pub utc_day : ℕ → ℕ
utc_day ms = ms / day_ms

-- The times of reports and feedback are those of their tables' rows.
pub record Tallies : Type 0 where
  pub conversations : Assoc ℕ ℕ
  pub reports : List ℕ
  pub feedback : List ℕ

-- INSERT … ON CONFLICT(date) DO UPDATE SET conversations = conversations + 1
unfoldable pub record_conversation : ℕ → Tallies → Tallies
unfolding utc_day
record_conversation now t = record t {
  conversations =
      insert (utc_day now) (or_default (lookup (utc_day now) t.conversations) 0 + 1)
        t.conversations;
}

pub record DailyTrend : Type 0 where
  pub date : ℕ
  pub conversations : ℕ
  pub reports : ℕ
  pub feedback : ℕ

unfoldable pub count_on : ℕ → List ℕ → ℕ
unfolding utc_day
count_on day times = length (select (λ t. eqb (utc_day t) day) times)

-- A day's row, with zeros where no table has any. The tables' own bound `since` is the first day
-- listed, and leaves out no day that is.
unfoldable pub trend_of : Tallies → ℕ → DailyTrend
unfolding count_on
trend_of t day = record {
  date = day;
  conversations = or_default (lookup day t.conversations) 0;
  reports = count_on day t.reports;
  feedback = count_on day t.feedback;
}

-- What Math.floor gives: an integer (of which `negsuc n` is -1 - n), an infinity, or NaN.
pub data Floor : Type 0 where
  pos negsuc : ℕ → Floor
  infinity negative_infinity nan : Floor

-- `days || 30`
unfoldable pub or_thirty : Floor → Floor
or_thirty (pos n) = if eqb n 0 then pos 30 else pos n
or_thirty nan = pos 30
or_thirty f = f

-- `Math.max(1, days)`
unfoldable pub at_least_one : Floor → Floor
at_least_one (pos n) = pos (max 1 n)
at_least_one (negsuc n) = pos 1
at_least_one negative_infinity = pos 1
at_least_one f = f

-- `Math.min(90, days)`
unfoldable pub at_most_ninety : Floor → Floor
at_most_ninety (pos n) = pos (min 90 n)
at_most_ninety infinity = pos 90
at_most_ninety f = f

-- `Math.min(90, Math.max(1, Math.floor(days) || 30))`
unfoldable pub span_of : Floor → Floor
unfolding or_thirty at_least_one at_most_ninety
span_of days = at_most_ninety (at_least_one (or_thirty days))

-- The loop: `left` more days, the last of them that of `now`.
unfoldable pub trends_from : Tallies → ℕ → ℕ → List DailyTrend
unfolding trend_of utc_day
trends_from t now zero = []
trends_from t now (suc left) = trend_of t (utc_day (now - left * day_ms)) ∷ trends_from t now left

-- The rows of a span. The loop does nothing for a negative one; for one that is no integer, the
-- date `since` is invalid, and toISOString throws.
unfoldable pub rows_of : Tallies → ℕ → Floor → Option (List DailyTrend)
unfolding trends_from
rows_of t now (pos n) = some (trends_from t now n)
rows_of t now (negsuc n) = some []
rows_of t now _ = none

-- `days` is what Math.floor gives of the number asked for.
unfoldable pub list_daily_trends : Tallies → ℕ → Floor → Option (List DailyTrend)
unfolding rows_of span_of
list_daily_trends t now days = rows_of t now (span_of days)

-- The rows are those of consecutive days, up to the given number of days before `today`.
abbrev pub AreDays : ℕ → List DailyTrend → Type 0
AreDays today [] = Unit {0}
AreDays today (r ∷ rs) = (r.date + length rs ≡ today) × AreDays today rs

trends_from-length : (t : Tallies) (now left : ℕ) → length (trends_from t now left) ≡ left
unfolding trends_from
trends_from-length t now zero = omega arith
trends_from-length t now (suc left) = omega (arith, trends_from-length t now left)

trends_from-AreDays :
    (t : Tallies) (now left : ℕ)
    → left * day_ms ≤ now
    → AreDays (utc_day now) (trends_from t now left)
unfolding trends_from trend_of utc_day
trends_from-AreDays t now zero h = tt
trends_from-AreDays t now (suc left) h =
    (omega (arith, trends_from-length t now left), trends_from-AreDays t now left (omega arith))

-- The span is a number of days from 1 to 90, whatever number is asked for.
span_of-IsBounded : (days : Floor) → (n : ℕ) × (span_of days ≡ pos n) × (1 ≤ n) × (n ≤ 90)
unfolding span_of
span_of-IsBounded (pos zero) = (30, refl, omega arith, omega arith)
span_of-IsBounded (pos (suc n)) = (min 90 (suc n), ground arith, ground arith, ground arith)
span_of-IsBounded (negsuc n) = (1, refl, omega arith, omega arith)
span_of-IsBounded infinity = (90, refl, omega arith, omega arith)
span_of-IsBounded negative_infinity = (1, refl, omega arith, omega arith)
span_of-IsBounded nan = (30, refl, omega arith, omega arith)

-- From 90 days after the epoch on, whatever number of days is asked for, also a negative one, an
-- infinity or NaN: the trend is given, with between 1 and 90 rows, one for each day without a gap,
-- of which the last is today's.
pub list_daily_trends-AreDays :
    (t : Tallies) (now : ℕ) (days : Floor)
    → 90 * day_ms ≤ now
    → (rows : List DailyTrend) × (list_daily_trends t now days ≡ some rows)
      × (1 ≤ length rows)
      × (length rows ≤ 90)
      × AreDays (utc_day now) rows
unfolding list_daily_trends
list_daily_trends-AreDays t now days h =
    let (n, e, least, most) = span_of-IsBounded days in
    let count = trends_from-length t now n in
    (
      trends_from t now n,
      rw e refl,
      omega (arith, count, least),
      omega (arith, count, most),
      trends_from-AreDays t now n (omega (arith, most, h)),
    )

-- A conversation counts for the day it starts on, and for no other.
pub record_conversation-trend :
    (t : Tallies) (now day : ℕ)
    → (trend_of (record_conversation now t) day).conversations
      ≡ (trend_of t day).conversations + (if eqb (utc_day now) day then 1 else 0)
unfolding record_conversation trend_of
record_conversation-trend t now day = ground (
  arith,
  eqb_iff (utc_day now) day,
  lookup-insert (utc_day now) day (or_default (lookup (utc_day now) t.conversations) 0 + 1)
      t.conversations,
)
