-- ===== src/Web/DateRange/Calendar.antt =====
-- The calendar that apps/web/src/components/date-range-picker.tsx takes from `Date`.
use ad_link.Common.{
  ℕ, zero, suc, ◌+◌, ◌-◌, ◌≤◌, ◌<◌, ◌≡◌, ap, subst, inl, inr, refl, arith, ltb, Bool-cases,
}
use native.Mathlib.Nat.{add-zero}
use ad_link.Web.DateRange.{days_in, start, month_from, month_of}

-- A month has 28 to 31 days.
pub days_in_bounds : (m : ℕ) → (28 ≤ days_in m) × (days_in m ≤ 31)
unfolding days_in
days_in_bounds m = ground arith

pub start-suc : (m : ℕ) → start (suc m) ≡ start m + days_in m
unfolding start
start-suc m = refl

start_zero : start 0 ≡ 0
unfolding start
start_zero = refl

month_from_bounds :
    (k m rest : ℕ)
    → rest < k
    → (start (month_from k m rest) ≤ start m + rest)
      × (start m + rest < start (month_from k m rest) + days_in (month_from k m rest))
unfolding month_from
month_from_bounds zero m rest h = absurd (omega arith)
month_from_bounds (suc k) m rest h = elim (Bool-cases (ltb rest (days_in m))) [
  | inl e ↦ rw e (ground arith)
  | inr e ↦ rw e (
      let some_days = (days_in_bounds m).0 in
      let step = start-suc m in
      let ih = month_from_bounds k (suc m) (rest - days_in m) (ground arith) in
      (ground arith, ground arith))
]

-- A day lies in its month.
pub month_of_bounds :
    (d : ℕ) → (start (month_of d) ≤ d) × (d < start (month_of d) + days_in (month_of d))
unfolding month_of
month_of_bounds d =
    let b = month_from_bounds (suc d) 0 d (omega arith) in
    (omega (arith, b.0, start_zero), omega (arith, b.1, start_zero))

start_mono_by : (m k : ℕ) → start m ≤ start (m + k)
start_mono_by m zero = rw (add-zero m) (omega arith)
start_mono_by m (suc k) = omega (arith, start_mono_by m k, start-suc (m + k), start_at m k)
  where
    start_at : (m k : ℕ) → start (m + suc k) ≡ start (suc (m + k))
    start_at m k = ap start (omega arith)

-- A later month starts later.
pub start_mono : (m n : ℕ) → m ≤ n → start m ≤ start n
start_mono m n h =
    let e : m + (n - m) ≡ n = omega arith in
    subst (λ k. start m ≤ start k) e (start_mono_by m (n - m))

-- A day from the start of a month on, and before the start of the next, is of that month.
pub month_of_unique : (m d : ℕ) → start m ≤ d → d < start (suc m) → month_of d ≡ m
month_of_unique m d from before =
    let (low, high) = month_of_bounds d in
    let n = month_of d in
    elim (Bool-cases (ltb n m)) [
      | inl less ↦ absurd (omega (arith, start_mono (suc n) m (ground arith), start-suc n))
      | inr e ↦ elim (Bool-cases (ltb m n)) [
        | inl more ↦ absurd (omega (arith, start_mono (suc m) n (ground arith)))
        | inr f ↦ ground arith
      ]
    ]

-- The month of the first day of a month is that month.
pub month_of-start : (m : ℕ) → month_of (start m) ≡ m
month_of-start m =
    month_of_unique m (start m) (omega arith) (omega (arith, start-suc m, (days_in_bounds m).0))
