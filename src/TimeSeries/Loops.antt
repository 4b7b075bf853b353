-- ===== src/TimeSeries/Loops.antt =====
-- The intervals of months and years, and all of `timeseries` (src/python/Core/Utils/Common.py).
use dqmgui_prod.Base.{
  ℕ, zero, suc, ◌+◌, ◌*◌, ◌≡◌, ◌≤◌, ◌<◌, refl, String, Bool, true, Option, some, List, [], ◌∷◌, map,
  leb, leb→le, ◌||◌, ◌==◌, arith, Bool-cases, inl, inr, ℤ,
}
use mathlib.Core.Path.{subst}
use dqmgui_prod.TimeSeries.{
  Calendar, until, next_month, day_limit, earlier_by, dated, fixed_series, week_series,
  month_series, year_series, timeseries,
}
use dqmgui_prod.TimeSeries.Cover.{IsChain, IsCover, hours-IsCover, days-IsCover, weeks-IsCover}

abbrev pub is_unit : String → Bool
is_unit span =
    span == "hour" || span == "day" || span == "week" || span == "month" || span == "year"

abbrev IsMonth : ℕ × ℕ → Type 0
IsMonth (year, month) = (1 ≤ month) × (month ≤ 12)

-- what `time.gmtime` and `calendar.timegm` do: months begin at midnight, one after the other, and a
-- time is in its month and in its year
pub record IsCalendar (c : Calendar) : Type 0 where
  pub week : (t : ℕ) → c.week_day t < 7
  pub midnight : (year month : ℕ) → (days : ℕ) × (c.first_of year month ≡ days * 86400)
  pub month_later :
      (year month : ℕ)
      → 1 ≤ month
      → month ≤ 12
      → c.first_of year month < c.first_of (next_month (year, month)).0 (next_month (year, month)).1
  pub year_later : (year : ℕ) → c.first_of year 1 < c.first_of (suc year) 1
  pub in_month :
      (t : ℕ)
      → (1 ≤ c.month_of t)
        × (c.month_of t ≤ 12)
        × (c.first_of (c.year_of t) (c.month_of t) ≤ t)
        × (t
            < c.first_of
                (next_month (c.year_of t, c.month_of t)).0
                (next_month (c.year_of t, c.month_of t)).1)
  pub in_year : (t : ℕ) → (c.first_of (c.year_of t) 1 ≤ t) × (t < c.first_of (suc (c.year_of t)) 1)

module _ {D : Type 0} (IsDate : D → Type 0) (next : D → D)
    (next-IsDate : (d : D) → IsDate d → IsDate (next d)) (day_of : D → ℕ)
    (later : (d : D) → IsDate d → day_of d < day_of (next d)) where
  -- the loop ends with enough fuel, and its intervals cover all up to the limit
  until_covers :
      (last limit : ℕ)
      → last ≤ limit
      → ((d : D) → day_of d < limit → day_of d < last)
      → (fuel : ℕ) (d : D) → IsDate d
      → 0 < fuel
      → limit ≤ day_of d + fuel
      → (l : List (ℕ × ℕ)) × (high : ℕ) × (until next day_of limit fuel d (day_of d)
          ≡ some ((day_of d, day_of (next d)) ∷ l))
        × IsChain last (day_of (next d)) l high
        × (last ≤ high)
  unfolding until
  until_covers last limit far before zero d date some_fuel enough = absurd (omega arith)
  until_covers last limit far before (suc fuel) d date some_fuel enough =
      elim (Bool-cases (leb limit (day_of (next d)))) [
        | inl over ↦ (
          [],
          day_of (next d),
          rw (until, over) refl,
          refl,
          omega (arith, leb→le limit (day_of (next d)) over),
        )
        | inr more ↦
            let date' = next-IsDate d date in
            let under : day_of (next d) < limit = ground (arith, more) in
            let (l, high, run, chain, end) =
              until_covers last limit far before fuel (next d) date' (omega (arith, later d date))
                (omega (arith, later d date)) in
            (
              (day_of (next d), day_of (next (next d))) ∷ l,
              high,
              rw (until, more) (rw run refl),
              (refl, later (next d) date', before (next d) under, chain),
              end,
            )
      ]

next_month-IsMonth : (d : ℕ × ℕ) → IsMonth d → IsMonth (next_month d)
unfolding next_month
next_month-IsMonth (year, month) h = ground (arith, h)

module _ (c : Calendar) (h : IsCalendar c) (fuel start last : ℕ) (some_fuel : 0 < fuel)
    (enough : day_limit last ≤ fuel) where
  before_limit :
      (year month : ℕ) → c.first_of year month < day_limit last → c.first_of year month < last
  before_limit year month under =
      let (days, whole) = h.midnight year month in omega (arith, whole, under)

  months-IsCover :
      (l : List (ℕ × ℕ)) × (month_series c fuel start last ≡ some l) × IsCover start last l
  unfolding month_series
  months-IsCover =
      let date : ℕ × ℕ = (c.year_of start, c.month_of start) in
      let (positive, small, from, to) = h.in_month start in
      let (l, high, run, chain, end) =
        until_covers IsMonth next_month next_month-IsMonth (λ d. c.first_of d.0 d.1)
          (λ d m. h.month_later d.0 d.1 m.0 m.1) last (day_limit last) (omega arith)
          (λ d. before_limit d.0 d.1) fuel date (positive, small) some_fuel (omega arith) in
      (
        (c.first_of date.0 date.1, c.first_of (next_month date).0 (next_month date).1) ∷ l,
        run,
        (from, to, (high, chain, end)),
      )

  years-IsCover :
      (l : List (ℕ × ℕ)) × (year_series c fuel start last ≡ some l) × IsCover start last l
  unfolding year_series
  years-IsCover =
      let (from, to) = h.in_year start in
      let (l, high, run, chain, end) =
        until_covers (λ y. Unit {0}) suc (λ y u. tt) (λ y. c.first_of y 1) (λ y u. h.year_later y)
          last (day_limit last) (omega arith) (λ y. before_limit y 1) fuel (c.year_of start) tt
          some_fuel (omega arith) in
      (
        (c.first_of (c.year_of start) 1, c.first_of (suc (c.year_of start)) 1) ∷ l,
        run,
        (from, to, (high, chain, end)),
      )

  abbrev Covered : Option (List (ℤ × ℤ)) → Type 0
  Covered r =
      (d : ℕ) × (l : List (ℕ × ℕ)) × (r ≡ some (map (earlier_by d) l))
      × IsCover (start + d) (last + d) l

  plain :
      (r : Option (List (ℕ × ℕ)))
      → (l : List (ℕ × ℕ)) → r ≡ some l
      → IsCover start last l
      → Covered (dated 0 r)
  plain r l same cover =
      let first : start ≡ start + 0 = omega arith in
      let second : last ≡ last + 0 = omega arith in
      (
        0,
        l,
        rw same refl,
        subst (λ a. IsCover a (last + 0) l) first (subst (λ b. IsCover start b l) second cover),
      )

  -- For each of the five units, and with fuel that is not 0 and not less than the first midnight
  -- from the end on, the time series is computed, and is a list of intervals, with all times less
  -- by the same number, where each begins where the one before ends and none is empty: the first
  -- one holds the start, the next ones begin before the end, and the last one does not end before
  -- it. The calendar has months that begin at midnight, one after the other, days of the week
  -- below 7, and every time is in its month and in its year.
  pub timeseries-IsCover :
      (span : String) → is_unit span ≡ true → Covered (timeseries c fuel span start last)
  unfolding timeseries
  timeseries-IsCover span known = elim (Bool-cases (span == "hour")) [
    | inl hour ↦ rw hour (
        plain (some (fixed_series 3600 start last)) (fixed_series 3600 start last) refl
          (hours-IsCover start last))
    | inr no_hour ↦ elim (Bool-cases (span == "day")) [
      | inl day ↦
          rw (no_hour, day)
            (plain (some (fixed_series 86400 start last)) (fixed_series 86400 start last) refl
              (days-IsCover start last))
      | inr no_day ↦ elim (Bool-cases (span == "week")) [
        | inl week ↦
            rw (no_hour, no_day, week)
              (
                c.week_day start * 86400,
                week_series c start last,
                refl,
                weeks-IsCover c start last (h.week start),
              )
        | inr no_week ↦ elim (Bool-cases (span == "month")) [
          | inl month ↦
              let (l, run, cover) = months-IsCover in
              rw (no_hour, no_day, no_week, month)
                (plain (month_series c fuel start last) l run cover)
          | inr no_month ↦ elim (Bool-cases (span == "year")) [
            | inl year ↦
                let (l, run, cover) = years-IsCover in
                rw (no_hour, no_day, no_week, no_month, year)
                  (plain (year_series c fuel start last) l run cover)
            | inr no_year ↦ ground (arith, known, no_hour, no_day, no_week, no_month, no_year)
          ]
        ]
      ]
    ]
  ]
