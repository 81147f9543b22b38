-- ===== src/Core/Metrics/Laws.antt =====
-- The fractions of packages/core/src/metrics.ts.
use ad_link.Common.{
  ℕ, zero, suc, ◌*◌, ◌≤◌, true, false, Option, none, some, ◌≡◌, ◌≢◌, ◌↔◌, refl, arith, leb→le,
  le→leb, Bool-cases, inl, inr,
}
use ad_link.Core.Metrics.{
  Ratio, den, ratio, ratio_lt, ratio_le, MetricInputs, Derived, derive_metrics,
}

-- A quotient is there exactly when its denominator is not 0, and then `q` is the quotient:
-- q.num / den q is n / d.
pub ratio-eq-none_iff : (n d : ℕ) → (ratio n d ≡ none) ↔ (d ≡ 0)
unfolding ratio
ratio-eq-none_iff n zero = ground arith
ratio-eq-none_iff n (suc d) = ground arith

pub ratio-eq-some : (n d : ℕ) (q : Ratio) → ratio n d ≡ some q → (q.num ≡ n) × (den q ≡ d)
unfolding ratio
ratio-eq-some n zero q e = cc
ratio-eq-some n (suc d) q e = ground arith

pub ratio_le_total : (a b : Ratio) → ratio_le a b ≡ false → ratio_le b a ≡ true
ratio_le_total a b h = ground arith

le_of_mul_le_mul : (a b k : ℕ) → a * suc k ≤ b * suc k → a ≤ b
le_of_mul_le_mul a b k h = grind arith

mul_le_mul_right : (a b k : ℕ) → a ≤ b → a * k ≤ b * k
mul_le_mul_right a b k h = grind arith

le_of_cross : (a p b q c r : ℕ) → a * q ≤ b * p → b * r ≤ c * q → a * r * q ≤ c * p * q
le_of_cross a p b q c r h k =
    omega (arith, mul_le_mul_right (a * q) (b * p) r h, mul_le_mul_right (b * r) (c * q) p k)

pub ratio_le_trans :
    (a b c : Ratio) → ratio_le a b ≡ true → ratio_le b c ≡ true → ratio_le a c ≡ true
ratio_le_trans a b c h k = le→leb _ _ (
    le_of_mul_le_mul (a.num * den c) (c.num * den a) b.den_pred
      (le_of_cross a.num (den a) b.num (den b) c.num (den c) (leb→le _ _ h) (leb→le _ _ k)))

pub ratio_lt-ratio_le : (a b : Ratio) → (ratio_lt a b ≡ false) ↔ (ratio_le b a ≡ true)
ratio_lt-ratio_le a b = ground arith

pub ratio_lt_of_le :
    (a b c : Ratio) → ratio_le a b ≡ true → ratio_lt b c ≡ true → ratio_lt a c ≡ true
ratio_lt_of_le a b c h k = elim (Bool-cases (ratio_lt a c)) [
  | inl e ↦ e
  | inr e ↦ absurd (
      ground (
        arith,
        ratio_lt-ratio_le a c,
        ratio_lt-ratio_le b c,
        ratio_le_trans c a b,
        ratio_le_total b c,
      ))
]

-- The quotient of two numbers, missing where the second is 0.
abbrev pub IsQuotient : Option Ratio → ℕ → ℕ → Type 0
IsQuotient none n d = d ≡ 0
IsQuotient (some q) n d = (d ≢ 0) × (q.num ≡ n) × (den q ≡ d)

pub record IsDerived (i : MetricInputs) (m : Derived) : Type 0 where
  pub ctr : IsQuotient m.ctr i.clicks i.impressions
  pub cpl : IsQuotient m.cpl i.spend i.leads
  pub ql_rate : IsQuotient m.ql_rate i.qualified_leads i.leads
  pub cost_per_ql : IsQuotient m.cost_per_ql i.spend i.qualified_leads
  pub cac : IsQuotient m.cac i.spend i.sales
  pub roas : IsQuotient m.roas i.revenue i.spend
  pub arpl : IsQuotient m.arpl i.revenue i.leads
  pub conv_rate : IsQuotient m.conv_rate i.sales i.leads

ratio-IsQuotient : (n d : ℕ) → IsQuotient (ratio n d) n d
unfolding ratio
ratio-IsQuotient n zero = refl
ratio-IsQuotient n (suc d) = ((λ e. ground arith), refl, refl)

-- A derived metric is missing exactly where its denominator is 0, so that none divides by 0; where
-- it is there it is the quotient of the two inputs.
pub derive_metrics-IsDerived : (i : MetricInputs) → IsDerived i (derive_metrics i)
unfolding derive_metrics
derive_metrics-IsDerived i = record {
  ctr = ratio-IsQuotient _ _;
  cpl = ratio-IsQuotient _ _;
  ql_rate = ratio-IsQuotient _ _;
  cost_per_ql = ratio-IsQuotient _ _;
  cac = ratio-IsQuotient _ _;
  roas = ratio-IsQuotient _ _;
  arpl = ratio-IsQuotient _ _;
  conv_rate = ratio-IsQuotient _ _;
}
