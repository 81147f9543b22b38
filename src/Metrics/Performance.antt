-- ===== src/Metrics/Performance.antt =====
-- `performance` and `recommendations` of apps/api/src/metrics/metrics.service.ts. An amount is in units
-- of 10⁻¹⁴.
mod Hierarchy
unfoldable pub use Hierarchy.*
use ad_link.Common.{
  ℕ, ◌+◌, ◌*◌, Bool, ◌&&◌, ◌||◌, Option, none, some, String, List, [], ◌∷◌, ◌==◌, string_eq, leb,
  if◌then◌else◌, get_or, is_some, truthy, filter, map, contains, add, keys, values, lookup, insert,
  dict_of,
}
use ad_link.Core.Enums.{is_matched, is_won, is_qualified}
use ad_link.Core.Metrics.{MetricInputs, derive_metrics, Level, campaign, adset, ad, MetricRow}
use ad_link.Core.Recommendations.{Recommendation, recommend}
use ad_link.Db.{day_ms, Lead, Deal, Insight}
use ad_link.Metrics.{
  AdRow, Store, Range, first_moment, last_moment, later_of, meta_floor, crm_floor, not_before,
  report_currency, convert, round, TouchModel, contact_ad,
}

-- The sums of one group of the query by ad.
pub record Delivery : Type 0 where
  pub spend : ℕ
  pub impressions : ℕ
  pub clicks : ℕ

unfoldable pub sum_of : String → List Insight → Delivery
sum_of ad_id [] = record { spend = 0; impressions = 0; clicks = 0 }
sum_of ad_id (i ∷ is) =
    let rest = sum_of ad_id is in
    if i.ad_id == ad_id
    then record {
      spend = i.spend + rest.spend;
      impressions = i.impressions + rest.impressions;
      clicks = i.clicks + rest.clicks;
    }
    else rest

unfoldable pub ads_of : List Insight → List String
ads_of [] = []
ads_of (i ∷ is) = add (ads_of is) i.ad_id

abbrev pub deliver : ℕ → Delivery → MetricInputs → MetricInputs
deliver spend d c = record c {
  spend = c.spend + spend;
  impressions = c.impressions + d.impressions;
  clicks = c.clicks + d.clicks;
}

unfoldable pub add_spend :
    Store
    → String
    → List (String × AdMeta)
    → List Insight
    → List String
    → List (String × Acc)
    → List (String × Acc)
add_spend s report metas rows [] m = m
add_spend s report metas rows (id ∷ ids) m =
    let d = sum_of id rows in
    let currency : String = elim (lookup id metas) [ none ↦ report | some meta ↦ meta.currency ] in
    add_spend s report metas rows ids
      (add_up metas id (deliver (convert s report d.spend currency) d) m)

-- `new Set(leads.map(contactId).filter(…))`
unfoldable pub contacts_of : List Lead → List String
contacts_of [] = []
contacts_of (l ∷ leads) =
    if truthy l.contact_id
    then add (contacts_of leads) (get_or l.contact_id "")
    else contacts_of leads

abbrev pub is_contact_deal : String → List String → Option ℕ → Deal → Bool
is_contact_deal tenant_id contacts floor d =
    d.tenant_id == tenant_id
    && ((is_some d.contact_id && contains contacts (get_or d.contact_id ""))
        && not_before floor d.created_at)

unfoldable pub qualified_of : List Deal → List String
qualified_of [] = []
qualified_of (d ∷ deals) =
    if truthy d.contact_id && (is_qualified d.canonical || is_won d.canonical)
    then add (qualified_of deals) (get_or d.contact_id "")
    else qualified_of deals

abbrev pub count_lead : Bool → MetricInputs → MetricInputs
count_lead qualified c = record c {
  leads = c.leads + 1;
  qualified_leads = if qualified then c.qualified_leads + 1 else c.qualified_leads;
}

unfoldable pub add_leads :
    List (String × AdMeta) → List String → List Lead → List (String × Acc) → List (String × Acc)
add_leads metas qualified [] m = m
add_leads metas qualified (l ∷ leads) m = add_leads metas qualified leads (
    add_up metas (get_or l.ad_id "")
      (count_lead (truthy l.contact_id && contains qualified (get_or l.contact_id ""))) m)

abbrev pub count_sale : ℕ → MetricInputs → MetricInputs
count_sale revenue c = record c { sales = c.sales + 1; revenue = c.revenue + revenue }

-- A deal's amount in units of 10⁻⁶, converted.
abbrev pub revenue_of : Store → String → Deal → ℕ
revenue_of s report d = convert s report (get_or d.amount 0 * 10000) (get_or d.currency report)

unfoldable pub add_sales :
    Store
    → String
    → List (String × AdMeta)
    → List (String × String)
    → List Deal
    → List (String × Acc)
    → List (String × Acc)
add_sales s report metas contact_ads [] m = m
add_sales s report metas contact_ads (d ∷ deals) m =
    let sold : List (String × Acc) = elim (lookup (get_or d.contact_id "") contact_ads) [
      | none ↦ m
      | some ad_id ↦ add_up metas ad_id (count_sale (revenue_of s report d)) m
    ] in
    add_sales s report metas contact_ads deals
      (if is_won d.canonical && truthy d.contact_id then sold else m)

abbrev pub to_row : String → Acc → MetricRow
to_row currency a = record {
  level = a.level;
  id = a.id;
  name = a.name;
  parent_id = a.parent_id;
  status = a.status;
  effective_status = a.effective_status;
  currency = currency;
  spend = round a.counts.spend;
  impressions = a.counts.impressions;
  clicks = a.counts.clicks;
  leads = a.counts.leads;
  qualified_leads = a.counts.qualified_leads;
  sales = a.counts.sales;
  revenue = round a.counts.revenue;
  derived = derive_metrics a.counts;
}

-- The leads of the range.
abbrev pub is_lead_between : String → ℕ → ℕ → Lead → Bool
is_lead_between tenant_id from to l =
    l.tenant_id == tenant_id
    && (is_some l.ad_id
        && (is_matched l.match_status && (leb from l.created_at && leb l.created_at to)))

abbrev pub is_insight_between : String → ℕ → ℕ → Insight → Bool
is_insight_between tenant_id from to i =
    i.tenant_id == tenant_id && (leb from (i.date * day_ms) && leb (i.date * day_ms) to)

unfoldable pub performance : String → Range → TouchModel → Store → List MetricRow
performance tenant_id range model s =
    let report = report_currency tenant_id s in
    let floor = crm_floor tenant_id s in
    let spend_from = later_of (first_moment range) (meta_floor tenant_id s) in
    let lead_from = later_of (first_moment range) floor in
    let to = last_moment range in
    let ads = filter (λ r. r.ad.tenant_id == tenant_id) s.ads in
    let metas = dict_of [] (map meta_entry ads) in
    let insights = filter (is_insight_between tenant_id spend_from to) s.insights in
    let leads = filter (is_lead_between tenant_id lead_from to) s.leads in
    let deals = filter (is_contact_deal tenant_id (contacts_of leads) floor) s.deals in
    map (to_row report) (
      values (
        add_sales s report metas (contact_ad model tenant_id s) deals (
          add_leads metas (qualified_of deals) leads
            (add_spend s report metas insights (ads_of insights) (hierarchy ads [])))))

-- `recommendations`
abbrev pub recommendations : String → Range → TouchModel → Store → List Recommendation
recommendations tenant_id range model s =
    recommend (performance tenant_id range model s)
      (record { target_roas = none; min_spend = none; min_leads = none })
