-- ===== src/Metrics/Creatives.antt =====
-- `creativeInsights` of apps/api/src/metrics/metrics.service.ts: the rows of the ads, grouped by a
-- dimension of their creatives. Which creative an ad has is a parameter.
pub mod Totals
use ad_link.Common.{
  ℕ, ◌+◌, Bool, true, false, Option, none, some, String, List, [], ◌∷◌, ◌++◌, Text, ◌≡◌, inl, inr,
  refl, sym, ap, ◌∙◌, arith, ◌==◌, string_eq, text_eq, if◌then◌else◌, get_or, filter, map, lookup,
  insert, sort, insert_sorted, Bool-cases, Option-cases,
}
use ad_link.Core.Metrics.{MetricInputs, Derived, Ratio, ratio_le, derive_metrics, Level, MetricRow}
use ad_link.Core.Creative.{ParsedCreative, Dimension, field}
use ad_link.Metrics.{Store, Range, TouchModel, report_currency, round}
use ad_link.Metrics.Performance.{no_counts, performance}

-- "(untagged)"
abbrev pub untagged : Text
untagged = 40 ∷ 117 ∷ 110 ∷ 116 ∷ 97 ∷ 103 ∷ 103 ∷ 101 ∷ 100 ∷ 41 ∷ []

-- `value || '(untagged)'`
abbrev pub or_untagged : Option Text → Text
or_untagged none = untagged
or_untagged (some []) = untagged
or_untagged (some (c ∷ s)) = c ∷ s

-- `dimByAd.get(id) ?? '(untagged)'`
abbrev pub value_of : Dimension → List (String × Option ParsedCreative) → String → Text
value_of dimension creatives id = elim (lookup id creatives) [
  | none ↦ untagged
  | some none ↦ untagged
  | some (some parsed) ↦ or_untagged (field dimension parsed)
]

abbrev pub is_ad : MetricRow → Bool
is_ad r = elim r.level [ Level.ad ↦ true | _ ↦ false ]

abbrev pub inputs_of : MetricRow → MetricInputs
inputs_of r = record {
  spend = r.spend;
  impressions = r.impressions;
  clicks = r.clicks;
  leads = r.leads;
  qualified_leads = r.qualified_leads;
  sales = r.sales;
  revenue = r.revenue;
}

-- `g.spend += r.spend` and so on
abbrev pub plus : MetricInputs → MetricInputs → MetricInputs
plus a b = record {
  spend = a.spend + b.spend;
  impressions = a.impressions + b.impressions;
  clicks = a.clicks + b.clicks;
  leads = a.leads + b.leads;
  qualified_leads = a.qualified_leads + b.qualified_leads;
  sales = a.sales + b.sales;
  revenue = a.revenue + b.revenue;
}

abbrev pub Groups : Type 0
Groups = List (Text × MetricInputs)

-- `groups.get(value)`, with a new group where there is none
abbrev pub group_of : Text → Groups → MetricInputs
group_of value groups = get_or (lookup value groups) no_counts

-- The loop over the rows.
unfoldable pub grouped : (String → Text) → List MetricRow → Groups → Groups
grouped value [] groups = groups
grouped value (r ∷ rows) groups = grouped value rows (
    if is_ad r
    then insert (value r.id) (plus (group_of (value r.id) groups) (inputs_of r)) groups
    else groups)

pub record CreativeRow : Type 0 where
  pub value : Text
  pub spend : ℕ
  pub leads : ℕ
  pub qualified_leads : ℕ
  pub sales : ℕ
  pub revenue : ℕ
  pub derived : Derived

abbrev pub row_of : Text × MetricInputs → CreativeRow
row_of (value, g) = record {
  value = value;
  spend = round g.spend;
  leads = g.leads;
  qualified_leads = g.qualified_leads;
  sales = g.sales;
  revenue = round g.revenue;
  derived = derive_metrics g;
}

-- `(b.roas ?? -1) - (a.roas ?? -1)` is at most 0; a quotient is never below 0.
abbrev pub roas_not_below : Option Ratio → Option Ratio → Bool
roas_not_below a none = true
roas_not_below none (some b) = false
roas_not_below (some a) (some b) = ratio_le b a

abbrev pub by_roas : CreativeRow → CreativeRow → Bool
by_roas a b = roas_not_below a.derived.roas b.derived.roas

unfoldable pub creative_insights :
    (List (String × Option ParsedCreative))
    → String
    → Range
    → Dimension
    → TouchModel
    → Store
    → List CreativeRow
creative_insights creatives tenant_id range dimension model s =
    sort by_roas
      (map row_of (grouped (value_of dimension creatives) (performance tenant_id range model s) []))
