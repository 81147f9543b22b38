-- ===== src/Web/DateRange/Presets.antt =====
-- Which days the presets of apps/web/src/components/date-range-picker.tsx stand for.
use ad_link.Common.{
  ℕ, suc, ◌+◌, ◌-◌, ◌≤◌, ◌≡◌, refl, sym, ap, ◌∙◌, arith, ltb, Bool-cases, inl, inr,
}
use ad_link.Web.DateRange.{
  start, month_of, days_in, month_start, previous_month, Preset, today, yesterday, l7, l14, l28,
  l30, this_month, last_month, maximum, earliest, preset_range,
}
use ad_link.Web.DateRange.Calendar.{
  days_in_bounds, start-suc, month_of_bounds, start_mono, month_of_unique, month_of-start,
}

-- So many days, the last of them today.
abbrev pub LastDays : ℕ → ℕ → ℕ × ℕ → Type 0
LastDays n now (f, t) = (t ≡ now) × (t + 1 ≡ f + n)

-- What the labels say.
abbrev pub Covers : Preset → ℕ → ℕ × ℕ → Type 0
Covers today now r = LastDays 1 now r
Covers yesterday now (f, t) = (f ≡ t) × (t + 1 ≡ now)
Covers l7 now r = LastDays 7 now r
Covers l14 now r = LastDays 14 now r
Covers l28 now r = LastDays 28 now r
Covers l30 now r = LastDays 30 now r
Covers this_month now (f, t) = (f ≡ start (month_of now)) × (t ≡ now)
Covers last_month now (f, t) =
    (month_of now ≡ month_of f + 1)
    × (f ≡ start (month_of f))
    × (month_of t ≡ month_of f)
    × (t + 1 ≡ start (month_of now))
Covers maximum now (f, t) = (f ≡ earliest) × (t ≡ now)

earliest_day : earliest ≡ 5479
unfolding start
earliest_day = refl

-- From 2015 on the first month has passed.
month_of_late : (now : ℕ) → earliest ≤ now → 180 ≤ month_of now
month_of_late now h = elim (Bool-cases (ltb (month_of now) 180)) [
  | inl less ↦ absurd (
      omega (
        arith,
        start_mono (suc (month_of now)) 180 (ground arith),
        start-suc (month_of now),
        (month_of_bounds now).1,
      ))
  | inr late ↦ ground arith
]

module _ (now m : ℕ) (e : month_of now ≡ suc m) where
  first_day : month_start now ≡ start m + days_in m
  first_day = ap start e ∙ start-suc m

  previous_start : previous_month (month_start now) ≡ start m
  previous_start =
      let before : month_of (month_start now) - 1 ≡ m =
        omega (arith, month_of-start (month_of now), e) in
      ap start before

  previous_end : month_of (month_start now - 1) ≡ m
  previous_end =
      month_of_unique m (month_start now - 1) (omega (arith, first_day, (days_in_bounds m).0))
        (omega (arith, first_day, (days_in_bounds m).0, start-suc m))

  last_month-Covers :
      Covers last_month now (preset_range last_month now)
      × ((preset_range last_month now).0 ≤ (preset_range last_month now).1)
      × ((preset_range last_month now).1 ≤ now)
  unfolding preset_range
  last_month-Covers =
      let month : month_of (previous_month (month_start now)) ≡ m =
        ap month_of previous_start ∙ month_of-start m in
      (
        (
          e ∙ ap suc (sym month) ∙ omega arith,
          previous_start ∙ ap start (sym month),
          previous_end ∙ sym month,
          omega (arith, first_day, (days_in_bounds m).0),
        ),
        omega (arith, previous_start, first_day, (days_in_bounds m).0),
        omega (arith, (month_of_bounds now).0),
      )

-- Each preset covers the days that its label names, none of them after today, where today is not
-- before 2015.
pub preset_range-Covers :
    (p : Preset) (now : ℕ)
    → earliest ≤ now
    → Covers p now (preset_range p now)
      × ((preset_range p now).0 ≤ (preset_range p now).1)
      × ((preset_range p now).1 ≤ now)
unfolding preset_range
preset_range-Covers today now h = (omega arith, omega arith, omega arith)
preset_range-Covers yesterday now h = ground (arith, earliest_day)
preset_range-Covers l7 now h = omega (arith, earliest_day)
preset_range-Covers l14 now h = omega (arith, earliest_day)
preset_range-Covers l28 now h = omega (arith, earliest_day)
preset_range-Covers l30 now h = omega (arith, earliest_day)
preset_range-Covers this_month now h = ((refl, refl), (month_of_bounds now).0, omega arith)
preset_range-Covers last_month now h =
    last_month-Covers now (month_of now - 1) (omega (arith, month_of_late now h))
preset_range-Covers maximum now h = ((refl, refl), h, omega arith)
