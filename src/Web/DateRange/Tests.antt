-- ===== src/Web/DateRange/Tests.antt =====
-- Runs of the panel and of the presets of apps/web/src/components/date-range-picker.tsx.
use ad_link.Common.{ℕ, ◌≤◌, ◌<◌, true, none, some, List, [], ◌∷◌, ◌≡◌, refl, arith, Elem, length}
use ad_link.Web.DateRange.{
  start, month_of, last_month, earliest, preset_range, pick_day, Action, pick, back, act, acts,
  apply_custom, opened, mark, cells,
}
use ad_link.Web.DateRange.Presets.{Covers, preset_range-Covers}
use ad_link.Web.DateRange.Selection.{acts-reports}
use ad_link.Web.DateRange.Grid.{IsAligned, cells-IsAligned}

-- 2000-03-01 is the day 60, and its last month is February.
last_month_run : preset_range last_month 60 ≡ (31, 59)
unfolding preset_range start month_of
last_month_run = refl

-- January 2000 has six blanks and 31 days.
cells_run : length (cells 5) ≡ 37
unfolding cells start month_of
cells_run = refl

abbrev clicks : List Action
clicks = pick 20 ∷ back ∷ pick 10 ∷ pick 15 ∷ []

clicks_run : apply_custom (acts clicks (opened none none 59)) ≡ some (10, 15)
unfolding acts act pick_day apply_custom
clicks_run = refl

preset_range-Covers_run :
    Covers last_month 9000 (preset_range last_month 9000)
    × ((preset_range last_month 9000).0 ≤ (preset_range last_month 9000).1)
    × ((preset_range last_month 9000).1 ≤ 9000)
preset_range-Covers_run = preset_range-Covers last_month 9000 late
  where
    late : earliest ≤ 9000
    late = unfold start in omega arith

acts-reports_example :
    (10 ≤ 15)
    × ((d : ℕ)
        → ((mark (acts clicks (opened none none 59)) 59 d).in_range ≡ true → (10 < d) × (d < 15))
          × ((10 < d) × (d < 15) → (mark (acts clicks (opened none none 59)) 59 d).in_range ≡ true))
acts-reports_example = acts-reports none none 59 clicks 10 15 tt clicks_run

cells-IsAligned_example :
    IsAligned 0 (cells 40)
    × ((d : ℕ) → Elem (some d) (cells 40) → month_of d ≡ month_of 40)
    × ((d : ℕ) → month_of d ≡ month_of 40 → Elem (some d) (cells 40))
cells-IsAligned_example = cells-IsAligned 40
