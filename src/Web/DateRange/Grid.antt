-- ===== src/Web/DateRange/Grid.antt =====
-- What the grid of a month in apps/web/src/components/date-range-picker.tsx shows.
use ad_link.Common.{
  ℕ, zero, suc, ◌+◌, ◌%◌, ◌≤◌, ◌<◌, Option, none, some, List, [], ◌∷◌, ◌++◌, ◌≡◌, inl, inr, ap,
  subst, arith, eqb, Bool-cases, Elem, Elem-append_right, Elem-append_cases,
}
use ad_link.Web.DateRange.{start, month_of, days_in, month_start, weekday, blanks, days_from, cells}
use ad_link.Web.DateRange.Calendar.{start-suc, month_of_unique, month_of_bounds}

-- From the cell `i` on, every day stands in the column of its weekday.
abbrev pub IsAligned : ℕ → List (Option ℕ) → Type 0
IsAligned i [] = Unit
IsAligned i (none ∷ cs) = IsAligned (i + 1) cs
IsAligned i (some d ∷ cs) = (i % 7 ≡ weekday d) × IsAligned (i + 1) cs

days_from-IsAligned : (n d i : ℕ) → i % 7 ≡ weekday d → IsAligned i (days_from d n)
days_from-IsAligned zero d i h = tt
days_from-IsAligned (suc n) d i h = (h, days_from-IsAligned n (d + 1) (i + 1) (omega arith))

blanks-IsAligned :
    (k i : ℕ) (cs : List (Option ℕ)) → IsAligned (i + k) cs → IsAligned i (blanks k ++ cs)
blanks-IsAligned zero i cs h = let e : i + 0 ≡ i = omega arith in subst (λ j. IsAligned j cs) e h
blanks-IsAligned (suc k) i cs h =
    let e : i + suc k ≡ i + 1 + k = omega arith in
    blanks-IsAligned k (i + 1) cs (subst (λ j. IsAligned j cs) e h)

Elem-days_from : (n d e : ℕ) → Elem (some e) (days_from d n) → (d ≤ e) × (e < d + n)
Elem-days_from zero d e h = absurd h
Elem-days_from (suc n) d e (inl same) = let eq : e ≡ d = cc same in (omega arith, omega arith)
Elem-days_from (suc n) d e (inr h) =
    let (low, high) = Elem-days_from n (d + 1) e h in (omega arith, omega arith)

days_from-Elem : (n d e : ℕ) → d ≤ e → e < d + n → Elem (some e) (days_from d n)
days_from-Elem zero d e low high = absurd (omega arith)
days_from-Elem (suc n) d e low high = elim (Bool-cases (eqb e d)) [
  | inl k ↦ inl (ap some (ground arith))
  | inr k ↦ inr (days_from-Elem n (d + 1) e (ground arith) (omega arith))
]

not-Elem-blanks : (k e : ℕ) → ¬ Elem (some e) (blanks k)
not-Elem-blanks zero e h = absurd h
not-Elem-blanks (suc k) e (inl same) = absurd (cc same)
not-Elem-blanks (suc k) e (inr h) = not-Elem-blanks k e h

-- The grid of a month shows exactly its days, each in the column of its weekday.
pub cells-IsAligned :
    (month : ℕ)
    → IsAligned 0 (cells month)
      × ((d : ℕ) → Elem (some d) (cells month) → month_of d ≡ month_of month)
      × ((d : ℕ) → month_of d ≡ month_of month → Elem (some d) (cells month))
unfolding cells
cells-IsAligned month =
    let m = month_of month in
    let first = month_start month in
    let column = weekday first in
    (
      blanks-IsAligned column 0 (days_from first (days_in m))
          (days_from-IsAligned (days_in m) first (0 + column) (omega arith)),
      λ d h. elim (Elem-append_cases (some d) (blanks column) (days_from first (days_in m)) h) [
        | inl b ↦ absurd (not-Elem-blanks column d b)
        | inr k ↦
            let (low, high) = Elem-days_from (days_in m) first d k in
            month_of_unique m d low (omega (arith, start-suc m))
      ],
      λ d e.
          let (low, high) = month_of_bounds d in
          Elem-append_right (some d) (blanks column) (days_from first (days_in m)) (
            days_from-Elem (days_in m) first d (subst (λ k. start k ≤ d) e low)
              (subst (λ k. d < start k + days_in k) e high)),
    )
