-- ===== src/Core/Metrics.antt =====
-- packages/core/src/metrics.ts and the read model of types.ts. The counts are natural numbers. An
-- amount of money is the exact number of units of 10⁻¹⁴: the database's 6 decimals of a spend times
-- the 8 decimals of an exchange rate. A quotient is an exact fraction; the source rounds both to
-- the nearest double. Amounts below 0 are left out.
use ad_link.Common.{ℕ, zero, suc, ◌*◌, ◌^◌, Bool, Option, none, some, String, ltb, leb}
pub mod Laws

-- numerator / (den_pred + 1)
pub record Ratio : Type 0 where
  pub num : ℕ
  pub den_pred : ℕ

abbrev pub den : Ratio → ℕ
den r = suc r.den_pred

-- `null` when the denominator is 0.
unfoldable pub ratio : ℕ → ℕ → Option Ratio
ratio numerator zero = none
ratio numerator (suc d) = some (record { num = numerator; den_pred = d })

-- `a < b` and `a <= b` on fractions
abbrev pub ratio_lt : Ratio → Ratio → Bool
ratio_lt a b = ltb (a.num * den b) (b.num * den a)

abbrev pub ratio_le : Ratio → Ratio → Bool
ratio_le a b = leb (a.num * den b) (b.num * den a)

abbrev pub whole : ℕ → Ratio
whole n = record { num = n; den_pred = 0 }

abbrev pub money_unit : ℕ
money_unit = 10 ^ 14

pub record MetricInputs : Type 0 where
  pub spend : ℕ
  pub impressions : ℕ
  pub clicks : ℕ
  pub leads : ℕ
  pub qualified_leads : ℕ
  pub sales : ℕ
  pub revenue : ℕ

pub record Derived : Type 0 where
  pub ctr : Option Ratio
  pub cpl : Option Ratio
  pub ql_rate : Option Ratio
  pub cost_per_ql : Option Ratio
  pub cac : Option Ratio
  pub roas : Option Ratio
  pub arpl : Option Ratio
  pub conv_rate : Option Ratio

unfoldable pub derive_metrics : MetricInputs → Derived
derive_metrics i = record {
  ctr = ratio i.clicks i.impressions;
  cpl = ratio i.spend i.leads;
  ql_rate = ratio i.qualified_leads i.leads;
  cost_per_ql = ratio i.spend i.qualified_leads;
  cac = ratio i.spend i.sales;
  roas = ratio i.revenue i.spend;
  arpl = ratio i.revenue i.leads;
  conv_rate = ratio i.sales i.leads;
}

pub data Level : Type 0 where
  campaign adset ad : Level

-- A row of the performance table.
pub record MetricRow : Type 0 where
  pub level : Level
  pub id : String
  pub name : String
  pub parent_id : Option String
  pub status : Option String
  pub effective_status : Option String
  pub currency : String
  pub spend : ℕ
  pub impressions : ℕ
  pub clicks : ℕ
  pub leads : ℕ
  pub qualified_leads : ℕ
  pub sales : ℕ
  pub revenue : ℕ
  pub derived : Derived
