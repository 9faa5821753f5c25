-- ===== src/Client/TownTime.antt =====
-- frontend/lib/lbt/townTime.ts: the time of day and the week of the visitor's own clock. A date is
-- its local hours, minutes and day of the week; the attributes of the root element and the query's
-- parameters are texts, or not there.
use focustown_public.Prelude.{
  ℕ, ◌+◌, ◌*◌, ◌≡◌, refl, arith, ◌||◌, Option, none, some, List, [], ◌∷◌, leb, ltb, eqb,
  if◌then◌else◌, contains, Text, codes, text_beq, Text_eq, text_beq_iff,
}

pub data TownTime : Type 0 where
  dawn day dusk night : TownTime

pub data TownWeek : Type 0 where
  weekday weekend : TownWeek

pub record LocalDate : Type 0 where
  pub hours : ℕ
  pub minutes : ℕ
  pub week_day : ℕ

-- TOWN_TIME_STARTS
abbrev dawn_start : ℕ
dawn_start = 5 * 60

abbrev day_start : ℕ
day_start = 6 * 60 + 30

abbrev dusk_start : ℕ
dusk_start = 17 * 60

abbrev night_start : ℕ
night_start = 19 * 60

unfoldable pub town_time_at : LocalDate → TownTime
town_time_at date =
    let m = date.hours * 60 + date.minutes in
    if leb night_start m || ltb m dawn_start
    then night
    else if leb dusk_start m
    then dusk
    else if leb day_start m
    then day
    else dawn

unfoldable pub town_week_at : LocalDate → TownWeek
town_week_at date = if eqb date.week_day 0 || eqb date.week_day 6 then weekend else weekday

abbrev pub town_times : List Text
town_times = codes "dawn" ∷ codes "day" ∷ codes "dusk" ∷ codes "night" ∷ []

abbrev pub town_weeks : List Text
town_weeks = codes "weekday" ∷ codes "weekend" ∷ []

-- The attributes `data-lbt-time` and `data-lbt-week`.
pub record Root : Type 0 where
  pub time : Option Text
  pub week : Option Text

-- `asked && known.indexOf(asked) >= 0 ? asked : otherwise`
unfoldable pub preview : List Text → Option Text → Text → Text
preview known none otherwise = otherwise
preview known (some asked) otherwise = if contains known asked then asked else otherwise

-- `if (root.getAttribute(…) !== value) root.setAttribute(…, value)`
unfoldable pub set_attribute : Option Text → Text → Option Text
set_attribute none value = some value
set_attribute (some old) value = if text_beq old value then some old else some value

unfoldable pub boot_time : LocalDate → Text
boot_time now =
    let m = now.hours * 60 + now.minutes in
    if leb 1140 m || ltb m 300
    then codes "night"
    else if leb 1020 m
    then codes "dusk"
    else if leb 390 m
    then codes "day"
    else codes "dawn"

unfoldable pub boot_week : LocalDate → Text
boot_week now =
    if eqb now.week_day 0 || eqb now.week_day 6 then codes "weekend" else codes "weekday"

unfoldable pub apply_town_time : LocalDate → Option Text → Option Text → Root → Root
unfolding preview set_attribute boot_time boot_week
apply_town_time now asked_time asked_week root = record {
  time = set_attribute root.time (preview town_times asked_time (boot_time now));
  week = set_attribute root.week (preview town_weeks asked_week (boot_week now));
}

pub time_text : TownTime → Text
time_text dawn = codes "dawn"
time_text day = codes "day"
time_text dusk = codes "dusk"
time_text night = codes "night"

pub week_text : TownWeek → Text
week_text weekday = codes "weekday"
week_text weekend = codes "weekend"

boot_time-town_time_at : (now : LocalDate) → boot_time now ≡ time_text (town_time_at now)
unfolding boot_time town_time_at time_text
boot_time-town_time_at now = ground arith

boot_week-town_week_at : (now : LocalDate) → boot_week now ≡ week_text (town_week_at now)
unfolding boot_week town_week_at week_text
boot_week-town_week_at now = ground arith

set_attribute_lem : (o : Option Text) (value : Text) → set_attribute o value ≡ some value
unfolding set_attribute
set_attribute_lem none value = refl
set_attribute_lem (some old) value = ground (arith, text_beq_iff old value)

-- Without a preview in the address, the script that runs before the first paint sets the time of
-- day and the week that the page computes later, whatever was set before.
pub apply_town_time-agrees :
    (now : LocalDate) (root : Root)
    → apply_town_time now none none root ≡ record {
      time = some (time_text (town_time_at now));
      week = some (week_text (town_week_at now));
    }
unfolding apply_town_time preview
apply_town_time-agrees now root =
    rw
      (
        set_attribute_lem root.time (boot_time now),
        set_attribute_lem root.week (boot_week now),
        boot_time-town_time_at now,
        boot_week-town_week_at now,
      )
      refl
