-- ===== src/Web/DateRange.antt =====
-- apps/web/src/components/date-range-picker.tsx. A local day is the number of days since 2000-01-01, and
-- a month the number of months since January 2000; earlier days are left out. The texts that name a
-- day are left out too: `iso` stands for the day itself.
pub mod Calendar
pub mod Presets
pub mod Selection
pub mod Grid
mod Tests
use ad_link.Common.{
  ℕ, zero, suc, ◌+◌, ◌-◌, ◌%◌, ◌/◌, Bool, true, false, ◌&&◌, ◌||◌, not, Option, none, some, String,
  List, [], ◌∷◌, ◌++◌, eqb, ltb, if◌then◌else◌, map, get_or,
}

-- The calendar of `Date`: the days of a month, and the day on which a month starts.
abbrev pub is_leap : ℕ → Bool
is_leap y = eqb (y % 4) 0 && (not (eqb (y % 100) 0) || eqb (y % 400) 0)

unfoldable pub days_in : ℕ → ℕ
days_in m =
    let k = m % 12 in
    if eqb k 1
    then if is_leap (2000 + m / 12) then 29 else 28
    else if eqb k 3 || (eqb k 5 || (eqb k 8 || eqb k 10))
    then 30
    else 31

unfoldable pub start : ℕ → ℕ
unfolding days_in
start zero = 0
start (suc m) = start m + days_in m

-- The month of the day that is `rest` days after the start of the month `m`, with rounds to go.
unfoldable pub month_from : ℕ → ℕ → ℕ → ℕ
month_from zero m rest = m
month_from (suc k) m rest =
    let later = month_from k (suc m) (rest - days_in m) in if ltb rest (days_in m) then m else later

-- `getFullYear` and `getMonth`
unfoldable pub month_of : ℕ → ℕ
unfolding month_from
month_of d = month_from (suc d) 0 d

-- `getDay`: 0 is a Sunday; 2000-01-01 was a Saturday.
abbrev pub weekday : ℕ → ℕ
weekday d = (d + 6) % 7

abbrev pub month_start : ℕ → ℕ
month_start d = start (month_of d)

-- `addMonths(d, 1)` and `addMonths(d, -1)`
abbrev pub next_month : ℕ → ℕ
next_month d = start (month_of d + 1)

abbrev pub previous_month : ℕ → ℕ
previous_month d = start (month_of d - 1)

pub data Preset : Type 0 where
  today yesterday l7 l14 l28 l30 this_month last_month maximum : Preset

-- `new Date(2015, 0, 1)`
abbrev pub earliest : ℕ
earliest = start 180

-- `range()` of a preset, on the day `now`
unfoldable pub preset_range : Preset → ℕ → ℕ × ℕ
preset_range today now = (now, now)
preset_range yesterday now = (now - 1, now - 1)
preset_range l7 now = (now - 6, now)
preset_range l14 now = (now - 13, now)
preset_range l28 now = (now - 27, now)
preset_range l30 now = (now - 29, now)
preset_range this_month now = (month_start now, now)
preset_range last_month now = (previous_month (month_start now), month_start now - 1)
preset_range maximum now = (earliest, now)

-- The state of the panel: the two ends of the selection, and the first of the two months shown.
pub record Panel : Type 0 where
  pub from : Option ℕ
  pub to : Option ℕ
  pub view : ℕ

-- `useState` of the panel, for the value that it opens with
abbrev pub opened : Option ℕ → Option ℕ → ℕ → Panel
opened from to now = record { from = from; to = to; view = month_start (get_or from now) }

-- `pickDay`
unfoldable pub pick_day : ℕ → Panel → Panel
pick_day d p = elim p.from [
  | none ↦ record p { from = some d; to = none }
  | some f ↦ elim p.to [
    | some t ↦ record p { from = some d; to = none }
    | none ↦ if ltb d f then record p { from = some d } else record p { to = some d }
  ]
]

-- What can happen to an open panel.
pub data Action : Type 0 where
  pick : ℕ → Action
  back forward : Action

unfoldable pub act : Action → Panel → Panel
act (pick d) p = pick_day d p
act back p = record p { view = previous_month p.view }
act forward p = record p { view = next_month p.view }

unfoldable pub acts : List Action → Panel → Panel
acts [] p = p
acts (a ∷ as') p = acts as' (act a p)

-- `applyCustom`: the range that is reported, if any
unfoldable pub apply_custom : Panel → Option (ℕ × ℕ)
apply_custom p = elim p.from [ none ↦ none | some f ↦ some (f, get_or p.to f) ]

abbrev pub blanks : ℕ → List (Option ℕ)
blanks zero = []
blanks (suc n) = none ∷ blanks n

-- The days from `d` on.
abbrev pub days_from : ℕ → ℕ → List (Option ℕ)
days_from d zero = []
days_from d (suc n) = some d ∷ days_from (d + 1) n

-- `cells` of `MonthGrid`: blanks up to the first day's weekday, and the days of the month.
unfoldable pub cells : ℕ → List (Option ℕ)
cells month =
    let first = month_start month in
    blanks (weekday first) ++ days_from first (days_in (month_of month))

-- How a cell is marked.
pub record Mark : Type 0 where
  pub is_from : Bool
  pub is_to : Bool
  pub in_range : Bool
  pub is_today : Bool

abbrev pub is_day : Option ℕ → ℕ → Bool
is_day none d = false
is_day (some e) d = eqb d e

abbrev pub between : Option ℕ → Option ℕ → ℕ → Bool
between none to d = false
between (some f) none d = false
between (some f) (some t) d = ltb f d && ltb d t

unfoldable pub mark : Panel → ℕ → ℕ → Mark
mark p now d = record {
  is_from = is_day p.from d;
  is_to = is_day p.to d;
  in_range = between p.from p.to d;
  is_today = eqb d now;
}
