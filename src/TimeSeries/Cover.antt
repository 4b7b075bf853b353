-- ===== src/TimeSeries/Cover.antt =====
-- The intervals of hours, days and weeks (`timeseries` of src/python/Core/Utils/Common.py).
use dqmgui_prod.Base.{
  ℕ, zero, suc, ◌+◌, ◌-◌, ◌*◌, ◌/◌, ◌≡◌, ◌≤◌, ◌<◌, refl, List, [], ◌∷◌, map, ltb, ltb→lt, lt→ltb,
  arith, Bool-cases, inl, inr, ◌⊎◌,
}
use mathlib.Core.Path.{subst}
use native.Mathlib.Nat.{mul-le-mul_right, mul-lt-mul_of_pos_right}
use dqmgui_prod.TimeSeries.{larger, range_from, intervals, fixed_series, Calendar, week_series}

-- The intervals follow each other from one time to another, and all begin before `last`.
abbrev pub IsChain : ℕ → ℕ → List (ℕ × ℕ) → ℕ → Type 0
IsChain last low [] high = low ≡ high
IsChain last low ((a, b) ∷ l) high = (a ≡ low) × (a < b) × (a < last) × IsChain last b l high

-- The first interval holds `start`, the next ones begin before `last`, and the end is not before it.
abbrev pub IsCover : ℕ → ℕ → List (ℕ × ℕ) → Type 0
IsCover start last [] = ⊥
IsCover start last ((a, b) ∷ l) =
    (a ≤ start) × (start < b) × ((high : ℕ) × IsChain last b l high × (last ≤ high))

module _ (unit step : ℕ) (some_unit : 0 < unit) (some_step : 0 < step) where
  scaled_le : (a b : ℕ) → a ≤ b → a * unit ≤ b * unit
  scaled_le a b h = mul-le-mul_right unit h

  scaled_lt : (t : ℕ) → t * unit < (t + step) * unit
  scaled_lt t = mul-lt-mul_of_pos_right (omega arith) some_unit

  -- the intervals of a range from `t` on, where all beyond `base` begin before `last`
  range-IsChain :
      (last base high : ℕ)
      → last ≤ high * unit
      → ((t : ℕ) → base < t → t < high → t * unit < last)
      → (fuel t : ℕ) → base < t
      → high ≤ t + fuel
      → (end : ℕ) × IsChain last
          (t * unit)
          (map (λ t. (t * unit, (t + step) * unit)) (range_from fuel t high step))
          end
        × (last ≤ end)
  unfolding range_from
  range-IsChain last base high bound before zero t beyond enough =
      (t * unit, refl, omega (arith, bound, scaled_le high t (omega (arith, enough))))
  range-IsChain last base high bound before (suc fuel) t beyond enough =
      elim (Bool-cases (ltb t high)) [
        | inl more ↦
            let (end, chain, far) =
              range-IsChain last base high bound before fuel (t + step) (omega arith)
                (omega arith) in
            rw (range_from, more)
              (end, (refl, scaled_lt t, before t beyond (ltb→lt t high more), chain), far)
        | inr over ↦
            rw (range_from, over)
              (t * unit, refl, omega (arith, bound, scaled_le high t (ground (arith, over))))
      ]

  -- the whole series: the range is not empty, and its first interval holds `start`
  intervals-IsCover :
      (start last low high : ℕ)
      → low < high
      → low * unit ≤ start
      → start < (low + step) * unit
      → last ≤ high * unit
      → ((t : ℕ) → low < t → t < high → t * unit < last)
      → IsCover start last (intervals unit step low high)
  unfolding intervals range_from
  intervals-IsCover start last low high some_left from_low to_high bound before =
      let counted : suc (high - low - 1) ≡ high - low = omega arith in
      subst
        (λ fuel.
          IsCover start last
            (map (λ t. (t * unit, (t + step) * unit)) (range_from fuel low high step)))
        counted covers
    where
      covers : IsCover start last (
          map
            (λ t. (t * unit, (t + step) * unit))
            (range_from (suc (high - low - 1)) low high step))
      covers =
          rw (range_from, lt→ltb low high some_left)
            (
              from_low,
              to_high,
              range-IsChain last low high bound before (high - low - 1) (low + step) (omega arith)
                  (omega arith),
            )

-- the largest of a range's two ends
larger_lem :
    (a b : ℕ) → (a ≤ larger a b) × (b ≤ larger a b) × ((t : ℕ) → t < larger a b → (t < a) ⊎ (t < b))
larger_lem a b = elim (Bool-cases (ltb a b)) [
  | inl below ↦ rw below (omega (arith, ltb→lt a b below), omega arith, λ t h. inr h)
  | inr above ↦ rw above (omega arith, ground (arith, above), λ t h. inl h)
]

pub hours-IsCover : (start last : ℕ) → IsCover start last (fixed_series 3600 start last)
unfolding fixed_series
hours-IsCover start last =
    let low = start / 3600 in
    let (a, b, c) = larger_lem (low + 1) ((last + 3599) / 3600) in
    intervals-IsCover 3600 1 (omega arith) (omega arith) start last low
      (larger (low + 1) ((last + 3599) / 3600)) (omega arith) (omega arith) (omega arith)
      (omega (arith, b))
      (λ t after under. elim (c t under) [ inl x ↦ omega arith | inr x ↦ omega arith ])

pub days-IsCover : (start last : ℕ) → IsCover start last (fixed_series 86400 start last)
unfolding fixed_series
days-IsCover start last =
    let low = start / 86400 in
    let (a, b, c) = larger_lem (low + 1) ((last + 86399) / 86400) in
    intervals-IsCover 86400 1 (omega arith) (omega arith) start last low
      (larger (low + 1) ((last + 86399) / 86400)) (omega arith) (omega arith) (omega arith)
      (omega (arith, b))
      (λ t after under. elim (c t under) [ inl x ↦ omega arith | inr x ↦ omega arith ])

pub weeks-IsCover :
    (cal : Calendar) (start last : ℕ)
    → cal.week_day start < 7
    → IsCover
        (start + cal.week_day start * 86400)
        (last + cal.week_day start * 86400)
        (week_series cal start last)
unfolding week_series
weeks-IsCover cal start last short =
    let low = start / 86400 in
    let d = cal.week_day start in
    let (a, b, c) = larger_lem (low + 1) ((last + 86399) / 86400 + d) in
    intervals-IsCover 86400 7 (omega arith) (omega arith) (start + d * 86400) (last + d * 86400) low
      (larger (low + 1) ((last + 86399) / 86400 + d)) (omega arith) (omega arith) (omega arith)
      (omega (arith, b))
      (λ t after under. elim (c t under) [ inl x ↦ omega arith | inr x ↦ omega arith ])
