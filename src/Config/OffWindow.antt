-- ===== src/Config/OffWindow.antt =====
-- internal/config/config.go: the windows in which a rule sends no notifications. Days are numbered
-- as in time.Weekday, Sunday first; a moment is its weekday and its minute of the day.
use malert.Base.{
  ltb, leb, ◌==◌, int64_half, Text, codes, text_eq, trim_space, is_empty, Unicode, to_lower, ℕ, ◌+◌,
  ◌-◌, ◌*◌, ◌≤◌, ◌<◌, ◌≡◌, Bool, true, false, not, ◌&&◌, ◌||◌, Option, none, some, List, [], ◌∷◌,
  arith, if◌then◌else◌, ◌≢◌,
}
use malert.Config.Rule.{CompiledNotifyOffWindow, RuleNotifyOff}

abbrev pub sunday : ℕ
sunday = 0

abbrev pub saturday : ℕ
saturday = 6

-- `notifyOffWeekdays`.
unfoldable pub weekday_of : Text → Option ℕ
weekday_of token =
    if text_eq token (codes "sun")
    then some 0
    else if text_eq token (codes "mon")
    then some 1
    else if text_eq token (codes "tue")
    then some 2
    else if text_eq token (codes "wed")
    then some 3
    else if text_eq token (codes "thu")
    then some 4
    else if text_eq token (codes "fri")
    then some 5
    else if text_eq token (codes "sat")
    then some 6
    else none

-- `previousWeekday`.
unfoldable pub previous_weekday : ℕ → ℕ
previous_weekday day = if day == sunday then saturday else day - 1

-- `_, ok := weekdays[day]`.
unfoldable pub has_day : List ℕ → ℕ → Bool
has_day [] day = false
has_day (d ∷ days) day = d == day || has_day days day

-- `notifyOffContainsMinute`.
unfoldable pub notify_off_contains_minute : List ℕ → ℕ → ℕ → ℕ → ℕ → ℕ → Bool
unfolding has_day
notify_off_contains_minute weekdays weekday previous minute from to =
    if ltb from to
    then has_day weekdays weekday && (leb from minute && ltb minute to)
    else if leb from minute
    then has_day weekdays weekday
    else if ltb minute to
    then has_day weekdays previous
    else false

-- The digits of strconv.Atoi, at least one; `none` is an error.
unfoldable pub parse_digits : Text → ℕ → Option ℕ
parse_digits [] acc = some acc
parse_digits (c ∷ s) acc =
    if leb b'0' c && leb c b'9' then parse_digits s (acc * 10 + (c - b'0')) else none

-- A value that an int holds; `limit` is the largest magnitude.
abbrev within : ℕ → Option ℕ → Option ℕ
within limit none = none
within limit (some n) = if leb n limit then some n else none

abbrev parse_magnitude : ℕ → Text → Option ℕ
parse_magnitude limit [] = none
parse_magnitude limit (c ∷ s) = within limit (parse_digits (c ∷ s) 0)

-- An int that was parsed: its sign and its magnitude.
pub record SignedInt : Type 0 where
  pub negative : Bool
  pub magnitude : ℕ

-- `strconv.Atoi`.
unfoldable pub atoi : Text → Option SignedInt
unfolding parse_digits
atoi [] = none
atoi (c ∷ s) =
    if c == b'-'
    then elim (parse_magnitude int64_half s) [
      | none ↦ none
      | some n ↦ some (record { negative = true; magnitude = n })
    ]
    else elim (parse_magnitude (int64_half - 1) (if c == b'+' then s else c ∷ s)) [
      | none ↦ none
      | some n ↦ some (record { negative = false; magnitude = n })
    ]

-- `n < 0`.
abbrev pub below_zero : SignedInt → Bool
below_zero n = n.negative && ltb 0 n.magnitude

-- `strings.Split(value, ":")`.
unfoldable pub split_colon : Text → List Text
split_colon [] = [] ∷ []
split_colon (c ∷ s) = elim (split_colon s) [
  | [] ↦ []
  | part ∷ parts ↦ if c == b':' then [] ∷ (part ∷ parts) else (c ∷ part) ∷ parts
]

-- The ranges that `parseNotifyOffClock` accepts.
unfoldable pub clock_minute : Bool → SignedInt → SignedInt → Option ℕ
clock_minute allow_2400 hour minute =
    if below_zero minute || ltb 59 minute.magnitude
    then none
    else if allow_2400 && (hour.magnitude == 24 && not hour.negative) && minute.magnitude == 0
    then some 1440
    else if below_zero hour || ltb 23 hour.magnitude
    then none
    else some (hour.magnitude * 60 + minute.magnitude)

abbrev parse_clock_parts : Bool → List Text → Option ℕ
parse_clock_parts allow [] = none
parse_clock_parts allow (h ∷ []) = none
parse_clock_parts allow (h ∷ m ∷ []) = elim (atoi h) [
  | none ↦ none
  | some hour ↦ elim (atoi m) [ none ↦ none | some minute ↦ clock_minute allow hour minute ]
]
parse_clock_parts allow (h ∷ m ∷ more ∷ rest) = none

-- `parseNotifyOffClock`.
unfoldable pub parse_notify_off_clock : Text → Bool → Option ℕ
unfolding split_colon atoi clock_minute
parse_notify_off_clock raw allow_2400 =
    let value = trim_space raw in
    if is_empty value then none else parse_clock_parts allow_2400 (split_colon value)

module _ (u : Unicode) where
  -- The loop of `parseNotifyOffDays`.
  unfoldable pub parse_days : List Text → Option (List ℕ)
  unfolding weekday_of
  parse_days [] = some []
  parse_days (raw ∷ days) =
      let rest = parse_days days in
      elim (weekday_of (to_lower u (trim_space raw))) [
        | none ↦ none
        | some day ↦ elim rest [ none ↦ none | some found ↦ some (day ∷ found) ]
      ]

  -- `parseNotifyOffDays`.
  unfoldable pub parse_notify_off_days : List Text → Option (List ℕ)
  unfolding parse_days
  parse_notify_off_days [] = none
  parse_notify_off_days (raw ∷ days) = parse_days (raw ∷ days)

  -- `compileNotifyOffWindow`.
  unfoldable pub compile_notify_off_window : RuleNotifyOff → Option CompiledNotifyOffWindow
  unfolding parse_notify_off_days parse_notify_off_clock
  compile_notify_off_window window = elim (parse_notify_off_days window.days) [
    | none ↦ none
    | some weekdays ↦ elim (parse_notify_off_clock window.from false) [
      | none ↦ none
      | some from ↦ elim (parse_notify_off_clock window.to true) [
        | none ↦ none
        | some to ↦
            if from == to
            then none
            else some (record { weekdays = weekdays; from_minute = from; to_minute = to })
      ]
    ]
  ]

  -- The window that `NotifyOffActiveAt` tests.
  unfoldable pub runtime_window : RuleNotifyOff → Option CompiledNotifyOffWindow
  unfolding compile_notify_off_window
  runtime_window window = elim window.compiled [
    | none ↦ compile_notify_off_window window
    | some c ↦ some c
  ]

  -- `NotifyOffActiveAt` at a weekday and a minute of the local day; `none` is an error.
  unfoldable pub notify_off_active_at : List RuleNotifyOff → ℕ → ℕ → Option Bool
  unfolding runtime_window notify_off_contains_minute previous_weekday
  notify_off_active_at [] weekday minute = some false
  notify_off_active_at (window ∷ windows) weekday minute =
      let rest = notify_off_active_at windows weekday minute in
      elim (runtime_window window) [
        | none ↦ none
        | some c ↦
            if notify_off_contains_minute c.weekdays weekday (previous_weekday weekday) minute
              c.from_minute c.to_minute
            then some true
            else rest
      ]

-- One interval of minutes that starts on a day of the window; a window whose end is not behind its
-- start runs into the next day.
abbrev pub window_end : ℕ → ℕ → ℕ
window_end from to = if ltb from to then to else to + 1440

-- The minute lies in the interval that starts today, or in the one that started yesterday.
abbrev pub covers : List ℕ → ℕ → ℕ → ℕ → ℕ → Bool
covers weekdays weekday minute from to =
    (has_day weekdays weekday && (leb from minute && ltb minute (window_end from to)))
    || (has_day weekdays (previous_weekday weekday)
        && (leb from (minute + 1440) && ltb (minute + 1440) (window_end from to)))

-- For every minute of a day and every window within a day: the test of a moment says exactly whether
-- it lies in an interval of the window that starts today or started yesterday, over midnight too.
pub notify_off_contains_minute-covers :
    (weekdays : List ℕ) (weekday minute from to : ℕ)
    → minute < 1440
    → from < 1440
    → to ≤ 1440
    → notify_off_contains_minute weekdays weekday (previous_weekday weekday) minute from to
      ≡ covers weekdays weekday minute from to
unfolding notify_off_contains_minute
notify_off_contains_minute-covers weekdays weekday minute from to m f t = ground arith

parse_clock_parts_bounds :
    (allow : Bool) (parts : List Text) (n : ℕ)
    → parse_clock_parts allow parts ≡ some n
    → n ≤ (if allow then 1440 else 1439)
unfolding clock_minute
parse_clock_parts_bounds allow [] n h = cc
parse_clock_parts_bounds allow (a ∷ []) n h = cc
parse_clock_parts_bounds allow (a ∷ b ∷ []) n h = ground arith
parse_clock_parts_bounds allow (a ∷ b ∷ c ∷ rest) n h = cc

parse_notify_off_clock_bounds :
    (raw : Text) (allow : Bool) (n : ℕ)
    → parse_notify_off_clock raw allow ≡ some n
    → n ≤ (if allow then 1440 else 1439)
unfolding parse_notify_off_clock
parse_notify_off_clock_bounds raw allow n h =
    ground (arith, parse_clock_parts_bounds allow (split_colon (trim_space raw)) n)

-- A window that compiles holds the days of its tokens and a time of day from 00:00 to 23:59 and one
-- up to 24:00, which differ; and at every minute of a day the test says exactly whether the moment
-- lies in an interval of the window that starts today or started yesterday.
pub compile_notify_off_window-covers :
    (u : Unicode) (window : RuleNotifyOff) (c : CompiledNotifyOffWindow) (weekday minute : ℕ)
    → compile_notify_off_window u window ≡ some c
    → minute < 1440
    → (c.from_minute < 1440)
      × (c.to_minute ≤ 1440)
      × (c.from_minute ≢ c.to_minute)
      × (parse_notify_off_days u window.days ≡ some c.weekdays)
      × (notify_off_contains_minute c.weekdays weekday
            (previous_weekday weekday)
            minute
            c.from_minute
            c.to_minute
          ≡ covers c.weekdays weekday minute c.from_minute c.to_minute)
unfolding compile_notify_off_window
compile_notify_off_window-covers u window c weekday minute h m =
    let from = parse_notify_off_clock_bounds window.from false c.from_minute in
    let to = parse_notify_off_clock_bounds window.to true c.to_minute in
    let facts : (c.from_minute < 1440) × (c.to_minute ≤ 1440) = ground (arith, from, to) in
    (
      facts.0,
      facts.1,
      ground arith,
      ground arith,
      notify_off_contains_minute-covers c.weekdays weekday minute c.from_minute c.to_minute m
          facts.0 facts.1,
    )
