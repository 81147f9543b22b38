-- ===== src/Core/Recommendations.antt =====
-- packages/core/src/recommendations.ts. The text of a reason is kept as the sentence that is chosen
-- with the numbers that are printed into it; the formatting of a number is left out.
use ad_link.Common.{
  ℕ, ◌+◌, ◌*◌, ◌/◌, Bool, true, false, ◌&&◌, ◌||◌, not, Option, none, some, String, List, [], ◌∷◌,
  ltb, leb, eqb, if◌then◌else◌, get_or, sort,
}
use ad_link.Core.Metrics.{
  Ratio, den, ratio_lt, ratio_le, whole, money_unit, Level, campaign, adset, ad, MetricRow,
}
pub mod Laws
pub mod Order

pub data RecommendationType : Type 0 where
  scale pause investigate : RecommendationType

pub data Reason : Type 0 where
  -- `${leads} leads but 0 sales`
  no_sales : ℕ → Reason
  -- `ROAS ${roas.toFixed(1)}× (below 1.0)`
  losing : Ratio → Reason
  -- `ROAS ${roas.toFixed(1)}× with ${sales} sale${sales > 1 ? 's' : ''}`
  winning : Ratio → ℕ → Reason
  -- `Only ${Math.round(qlRate * 100)}% of leads qualified`
  low_quality : ℕ → Reason

pub record Recommendation : Type 0 where
  pub type : RecommendationType
  pub level : Level
  pub id : String
  pub name : String
  pub title : String
  pub reason : Reason
  pub roas : Option Ratio
  pub spend : ℕ

pub record RecommendOptions : Type 0 where
  pub target_roas : Option Ratio
  pub min_spend : Option ℕ
  pub min_leads : Option ℕ

abbrev pub is_ad : Level → Bool
is_ad ad = true
is_ad _ = false

-- `value !== null && test(value)`
abbrev pub holds : Option Ratio → (Ratio → Bool) → Bool
holds none test = false
holds (some r) test = test r

abbrev pub one_fifth : Ratio
one_fifth = record { num = 1; den_pred = 4 }

-- `Math.round(rate * 100)`: half goes up.
abbrev pub percent : Ratio → ℕ
percent r = (200 * r.num + den r) / (2 * den r)

abbrev pub recommendation : MetricRow → RecommendationType → String → Reason → Recommendation
recommendation r type title reason = record {
  type = type;
  level = r.level;
  id = r.id;
  name = r.name;
  title = title;
  reason = reason;
  roas = r.derived.roas;
  spend = r.spend;
}

-- `recs.push(…)`, if there is something to push
abbrev pub push : Option Recommendation → List Recommendation → List Recommendation
push none recs = recs
push (some rec) recs = rec ∷ recs

module _ (target_roas : Ratio) (min_leads : ℕ) where
  -- The ladder of rules, for a row that is not skipped.
  unfoldable pub advise : MetricRow → Option Recommendation
  advise r =
      if eqb r.sales 0 && leb min_leads r.leads
      then some (recommendation r pause "Pause — cheap leads, no sales" (no_sales r.leads))
      else if holds r.derived.roas (λ q. ratio_lt q (whole 1))
      then some
          (recommendation r pause "Pause — losing money" (losing (get_or r.derived.roas (whole 0))))
      else if holds r.derived.roas (λ q. ratio_le target_roas q) && leb 1 r.sales
      then some (
          recommendation r scale "Scale — winner"
            (winning (get_or r.derived.roas (whole 0)) r.sales))
      else if holds r.derived.ql_rate (λ q. ratio_lt q one_fifth) && leb min_leads r.leads
      then some (
          recommendation r investigate "Low lead quality"
            (low_quality (percent (get_or r.derived.ql_rate (whole 0)))))
      else none

  -- One round of the loop: the `continue` and the rules.
  unfoldable pub consider : ℕ → MetricRow → Option Recommendation
  consider min_spend r = if not (is_ad r.level) || ltb r.spend min_spend then none else advise r

  unfoldable pub collect : ℕ → List MetricRow → List Recommendation
  collect min_spend [] = []
  collect min_spend (r ∷ rows) = push (consider min_spend r) (collect min_spend rows)

-- `order[type]`
abbrev pub order : RecommendationType → ℕ
order pause = 0
order scale = 1
order investigate = 2

abbrev pub is_scale : RecommendationType → Bool
is_scale scale = true
is_scale _ = false

-- The comparator's answer for `a` and `b` is at most 0.
abbrev pub not_after : Recommendation → Recommendation → Bool
not_after a b =
    if eqb (order a.type) (order b.type)
    then if is_scale a.type
      then ratio_le (get_or b.roas (whole 0)) (get_or a.roas (whole 0))
      else leb b.spend a.spend
    else ltb (order a.type) (order b.type)

unfoldable pub recommend : List MetricRow → RecommendOptions → List Recommendation
recommend rows opts = sort not_after (
    collect (get_or opts.target_roas (whole 3)) (get_or opts.min_leads 10)
      (get_or opts.min_spend (50 * money_unit)) rows)
