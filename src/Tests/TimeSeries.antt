-- ===== src/Tests/TimeSeries.antt =====
-- Time series (src/python/Core/Utils/Common.py).
use dqmgui_prod.Base.{ℕ, ◌+◌, ◌-◌, ◌*◌, ◌/◌, ◌%◌, ◌≡◌, refl, some, List, map, arith}
use dqmgui_prod.TimeSeries.{Calendar, next_month, earlier_by, timeseries}
use dqmgui_prod.TimeSeries.Cover.{IsCover}
use dqmgui_prod.TimeSeries.Loops.{IsCalendar, timeseries-IsCover}

-- a calendar of months of thirty days each
abbrev even : Calendar
even = record {
  week_day = λ t. (t / 86400 + 3) % 7;
  year_of = λ t. t / 31104000;
  month_of = λ t. t % 31104000 / 2592000 + 1;
  first_of = λ year month. (year * 12 + (month - 1)) * 30 * 86400;
}

even-IsCalendar : IsCalendar even
unfolding next_month
even-IsCalendar = record {
  week = λ t. omega arith;
  midnight = λ year month. ((year * 12 + (month - 1)) * 30, refl);
  month_later = λ year month positive small. ground arith;
  year_later = λ year. omega arith;
  in_month = λ t. (omega arith, omega arith, omega arith, ground arith);
  in_year = λ t. (omega arith, omega arith);
}

timeseries-IsCover_example :
    (d : ℕ) × (l : List (ℕ × ℕ)) × (timeseries even 9000000 "month" 2500000 8000000
      ≡ some (map (earlier_by d) l))
    × IsCover (2500000 + d) (8000000 + d) l
timeseries-IsCover_example =
    timeseries-IsCover even even-IsCalendar 9000000 2500000 8000000 (omega arith) (omega arith)
      "month" refl
