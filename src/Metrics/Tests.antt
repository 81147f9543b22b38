-- ===== src/Metrics/Tests.antt =====
-- Runs of the models of apps/api/src/metrics/metrics.service.ts on one ad with two leads of one
-- contact and a won deal.
use ad_link.Common.{
  ℕ, ◌+◌, ◌*◌, ◌≤◌, ◌<◌, ◌%◌, true, none, some, String, [], ◌∷◌, ◌≡◌, refl, arith, length, lookup,
  insert, dict_of, sort, insert_sorted, add, map, string_eq,
}
use ad_link.Core.Enums.{CanonicalStatus, LeadSource, MatchStatus}
use ad_link.Core.Creative.{ParsedCreative, Dimension}
use ad_link.Core.Metrics.{derive_metrics, ratio}
use ad_link.Metrics.Creatives.{untagged, is_ad, grouped, creative_insights}
use ad_link.Metrics.Creatives.Totals.{sum_by, creative_insights-total}
use ad_link.Common.{Text, List, Option, filter, text_eq}
use ad_link.Db.{day_ms, AdAccount, Lead, Deal}
use ad_link.Metrics.{
  AdRow, Store, Range, first_touch, last_touch, contact_ad, contact_ads, least, rate_of,
}
use ad_link.Metrics.Performance.{
  performance, hierarchy, bump, add_up, add_spend, add_leads, add_sales, ads_of, sum_of,
  contacts_of, qualified_of,
}
use ad_link.Metrics.Touch.{IsCredit, touches, contact_ad-first_touch, contact_ad-last_touch}
use ad_link.Metrics.Cohorts.{cohorts, cohort_leads, monday_of}
use ad_link.Metrics.Weeks.{monday_of-IsMonday}
use ad_link.Metrics.Vintage.{total_leads, cohorts-total}

abbrev account : AdAccount
account = record {
  id = "acc";
  tenant_id = "t";
  external_id = "x";
  currency = "USD";
  feedback_opt_in = true;
  created_at = 0;
}

abbrev an_ad : String → AdRow
an_ad id = record {
  ad = record {
    id = id;
    tenant_id = "t";
    ad_set_id = "set";
    external_id = id;
    name = id;
    status = none;
    effective_status = none;
    creative_id = none;
  };
  ad_set = record {
    id = "set";
    tenant_id = "t";
    campaign_id = "camp";
    external_id = "x";
    name = "n";
    status = none;
    effective_status = none;
  };
  campaign = record {
    id = "camp";
    tenant_id = "t";
    ad_account_id = "acc";
    external_id = "x";
    name = "n";
    status = none;
    effective_status = none;
  };
  account = account;
}

abbrev a_lead : String → String → ℕ → Lead
a_lead id ad_id day = record {
  id = id;
  tenant_id = "t";
  contact_id = some "c";
  source = LeadSource.website;
  external_id = none;
  leadgen_id = none;
  fbclid = none;
  utm_source = none;
  utm_medium = none;
  utm_campaign = none;
  utm_content = none;
  utm_term = none;
  created_at = day * day_ms;
  ad_id = some ad_id;
  match_method = none;
  match_status = MatchStatus.matched;
  confidence = none;
}

abbrev a_deal : Deal
a_deal = record {
  id = "d";
  tenant_id = "t";
  contact_id = some "c";
  external_id = "d";
  stage_external_id = "w";
  stage_history = [];
  canonical = CanonicalStatus.won;
  amount = some 100;
  currency = some "USD";
  created_at = 20 * day_ms;
  won_at = none;
}

abbrev store : Store
store = record {
  tenants = record { id = "t"; report_currency = "USD" } ∷ [];
  ads = an_ad "a1" ∷ an_ad "a2" ∷ [];
  accounts = account ∷ [];
  connections = [];
  insights =
      record {
        tenant_id = "t";
        ad_id = "a1";
        date = 10;
        spend = 1000000;
        currency = "USD";
        impressions = 10;
        clicks = 1;
      }
      ∷ [];
  leads = a_lead "l2" "a2" 12 ∷ a_lead "l1" "a1" 10 ∷ [];
  deals = a_deal ∷ [];
  rates = [];
}

abbrev range : Range
range = record { from = 1; to = 30 }

first_run : lookup "c" (contact_ad first_touch "t" store) ≡ some "a1"
unfolding contact_ads lookup insert sort insert_sorted least
first_run = refl

last_run : lookup "c" (contact_ad last_touch "t" store) ≡ some "a2"
unfolding contact_ads lookup insert sort insert_sorted least
last_run = refl

-- The sale is credited to the last ad, its ad set and its campaign; the spend is that of the first.
performance_run :
    map {B = String × ℕ × ℕ}
      (λ r. (r.id, r.leads, r.sales))
      (performance "t" range last_touch store)
    ≡ ("a1", 1, 0) ∷ ("set", 2, 1) ∷ ("camp", 2, 1) ∷ ("a2", 1, 1) ∷ []
unfolding performance hierarchy bump add_up add_spend add_leads add_sales ads_of sum_of contacts_of
    qualified_of contact_ads lookup insert dict_of sort insert_sorted least add rate_of
performance_run = refl

contact_ad-first_touch_run : IsCredit (λ x y. x ≤ y) "c" "a1" (touches "t" store)
contact_ad-first_touch_run = contact_ad-first_touch "t" "c" "a1" store first_run

contact_ad-last_touch_run : IsCredit (λ x y. y ≤ x) "c" "a2" (touches "t" store)
contact_ad-last_touch_run = contact_ad-last_touch "t" "c" "a2" store last_run

monday_of-IsMonday_run :
    ((monday_of 12 + 3) % 7 ≡ 0) × (monday_of 12 ≤ 12) × (12 < monday_of 12 + 7)
monday_of-IsMonday_run = monday_of-IsMonday 12 (omega arith)

cohorts-total_example :
    total_leads (cohorts "t" range store) ≡ length (cohort_leads "t" range store)
cohorts-total_example = cohorts-total "t" range store

-- The first ad has the hook 1; the other has no creative.
abbrev creatives : List (String × Option ParsedCreative)
creatives =
    (
      "a1",
      some (record {
        video = none;
        hook = some (1 ∷ []);
        concept = none;
        angle = none;
        format = none;
        audience = none;
      }),
    )
    ∷ []

creative_insights_run :
    map {B = Text × ℕ × ℕ}
      (λ r. (r.value, r.leads, r.sales))
      (creative_insights creatives "t" range Dimension.hook last_touch store)
    ≡ (1 ∷ [], 1, 0) ∷ (untagged, 1, 1) ∷ []
unfolding performance hierarchy bump add_up add_spend add_leads add_sales ads_of sum_of contacts_of
    qualified_of contact_ads lookup insert dict_of sort insert_sorted least add rate_of
    creative_insights grouped derive_metrics ratio
creative_insights_run = refl

creative_insights-total_example :
    let rows = creative_insights creatives "t" range Dimension.hook last_touch store in
    let ads = filter is_ad (performance "t" range last_touch store) in
    (sum_by (λ r. r.leads) rows ≡ sum_by (λ r. r.leads) ads)
    × (sum_by (λ r. r.qualified_leads) rows ≡ sum_by (λ r. r.qualified_leads) ads)
    × (sum_by (λ r. r.sales) rows ≡ sum_by (λ r. r.sales) ads)
creative_insights-total_example =
    creative_insights-total creatives "t" range Dimension.hook last_touch store
