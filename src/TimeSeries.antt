-- ===== src/TimeSeries.antt =====
-- `timeseries` of src/python/Core/Utils/Common.py, the intervals of a plot over time.
pub mod Cover
pub mod Loops
use dqmgui_prod.Base.{
  ℕ, zero, suc, ◌+◌, ◌-◌, ◌*◌, ◌/◌, String, Bool, true, false, Option, none, some, List, [], ◌∷◌,
  map, ltb, leb, ◌==◌, if◌then◌else◌, ℤ, sub_ℕ,
}

-- The calendar: `time.gmtime`, of which the week's day, the year and the month are read, and
-- `calendar.timegm` of the first of a month.
pub record Calendar : Type 0 where
  pub week_day : ℕ → ℕ
  pub year_of : ℕ → ℕ
  pub month_of : ℕ → ℕ
  pub first_of : ℕ → ℕ → ℕ

-- `max(a, b)`
abbrev pub larger : ℕ → ℕ → ℕ
larger a b = if ltb a b then b else a

-- `range(low, high, step)`; the first argument is fuel
unfoldable pub range_from : ℕ → ℕ → ℕ → ℕ → List ℕ
range_from zero low high step = []
range_from (suc fuel) low high step = elim (ltb low high) [
  | true ↦ low ∷ range_from fuel (low + step) high step
  | false ↦ []
]

-- the intervals of `step` units, where a unit has so many seconds
unfoldable pub intervals : ℕ → ℕ → ℕ → ℕ → List (ℕ × ℕ)
unfolding range_from
intervals unit step low high =
    map (λ t. (t * unit, (t + step) * unit)) (range_from (high - low) low high step)

-- The `while True` that ends with the first date beyond the limit; `next` is the date after another.
unfoldable pub until : {D : Type 0} → (D → D) → (D → ℕ) → ℕ → ℕ → D → ℕ → Option (List (ℕ × ℕ))
until next day_of limit zero date low = none
until next day_of limit (suc fuel) date low =
    let day = day_of (next date) in
    elim (leb limit day) [
      | true ↦ some ((low, day) ∷ [])
      | false ↦ elim (until next day_of limit fuel (next date) day) [
        | none ↦ none
        | some series ↦ some ((low, day) ∷ series)
      ]
    ]

-- the month after one of a year
unfoldable pub next_month : ℕ × ℕ → ℕ × ℕ
next_month (year, month) = if ltb 12 (month + 1) then (year + 1, 1) else (year, month + 1)

-- times that lie before 1970 are negative
abbrev pub earlier_by : ℕ → ℕ × ℕ → ℤ × ℤ
earlier_by d (low, high) = (sub_ℕ low d, sub_ℕ high d)

-- the day after the last second, at midnight
abbrev pub day_limit : ℕ → ℕ
day_limit last = (last + 86399) / 86400 * 86400

-- Hours and days are counted from 1970.
unfoldable pub fixed_series : ℕ → ℕ → ℕ → List (ℕ × ℕ)
unfolding intervals
fixed_series unit start last =
    let low = start / unit in intervals unit 1 low (larger (low + 1) ((last + (unit - 1)) / unit))

-- Weeks begin on the Monday before. The days are counted from as many days before 1970 as the day of
-- `start` is after its Monday, so that none is negative.
unfoldable pub week_series : Calendar → ℕ → ℕ → List (ℕ × ℕ)
unfolding intervals
week_series c start last =
    let low = start / 86400 in
    intervals 86400 7 low (larger (low + 1) ((last + 86399) / 86400 + c.week_day start))

unfoldable pub month_series : Calendar → ℕ → ℕ → ℕ → Option (List (ℕ × ℕ))
unfolding until next_month
month_series c fuel start last =
    let date : ℕ × ℕ = (c.year_of start, c.month_of start) in
    until next_month (λ d. c.first_of d.0 d.1) (day_limit last) fuel date (c.first_of date.0 date.1)

unfoldable pub year_series : Calendar → ℕ → ℕ → ℕ → Option (List (ℕ × ℕ))
unfolding until
year_series c fuel start last =
    let year = c.year_of start in
    until suc (λ y. c.first_of y 1) (day_limit last) fuel year (c.first_of year 1)

-- what is not a unit gives nothing, which is Python's `None`
abbrev pub dated : ℕ → Option (List (ℕ × ℕ)) → Option (List (ℤ × ℤ))
dated d none = none
dated d (some series) = some (map (earlier_by d) series)

unfoldable pub timeseries : Calendar → ℕ → String → ℕ → ℕ → Option (List (ℤ × ℤ))
unfolding fixed_series week_series month_series year_series
timeseries c fuel span start last =
    if span == "hour"
    then dated 0 (some (fixed_series 3600 start last))
    else if span == "day"
    then dated 0 (some (fixed_series 86400 start last))
    else if span == "week"
    then dated (c.week_day start * 86400) (some (week_series c start last))
    else if span == "month"
    then dated 0 (month_series c fuel start last)
    else if span == "year"
    then dated 0 (year_series c fuel start last)
    else none
