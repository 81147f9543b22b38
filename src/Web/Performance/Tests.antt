-- ===== src/Web/Performance/Tests.antt =====
-- The page of apps/web/src/app/(app)/performance/page.tsx on a campaign with two ad sets.
use ad_link.Common.{
  none, some, Option, String, List, [], ◌∷◌, ◌≡◌, refl, filter, ◌&&◌, lookup, insert,
}
use ad_link.Core.Metrics.{MetricRow, Level, derive_metrics}
use ad_link.Metrics.Performance.{no_counts}
use ad_link.Metrics.Creatives.{plus}
use ad_link.Web.Performance.{
  StatusFilter, passes, visible_rows, index_children, totals, drill, click, delivery_info,
  destructive, muted,
}
use ad_link.Web.Performance.Levels.{belongs, visible_rows-filter}
use ad_link.Web.Performance.Sums.{totals-split}

abbrev a_row : Level → String → Option String → String → MetricRow
a_row level id parent status = record {
  level = level;
  id = id;
  name = id;
  parent_id = parent;
  status = some status;
  effective_status = none;
  currency = "USD";
  spend = 1;
  impressions = 0;
  clicks = 0;
  leads = 2;
  qualified_leads = 0;
  sales = 0;
  revenue = 0;
  derived = derive_metrics no_counts;
}

abbrev campaign : MetricRow
campaign = a_row Level.campaign "c" none "ACTIVE"

abbrev rows : List MetricRow
rows =
    campaign
    ∷ a_row Level.adset "s1" (some "c") "ACTIVE"
    ∷ a_row Level.adset "s2" (some "c") "PAUSED"
    ∷ []

click_run : click (drill campaign) rows [] ≡ campaign ∷ []
unfolding click index_children insert lookup
click_run = refl

delivery_run :
    (delivery_info (some "ACTIVE") (some "ADSET_PAUSED") ≡ ("Paused (parent)", destructive))
    × (delivery_info (some "PAUSED") none ≡ ("Off", muted))
unfolding delivery_info
delivery_run = (refl, refl)

visible_rows-filter_example :
    visible_rows (campaign ∷ []) StatusFilter.paused rows
    ≡ filter (λ r. belongs (some campaign) r && passes StatusFilter.paused r) rows
visible_rows-filter_example = visible_rows-filter (campaign ∷ []) StatusFilter.paused rows

totals-split_run :
    (totals (visible_rows (campaign ∷ []) StatusFilter.all rows)).sums
    ≡ plus
        (totals (visible_rows (campaign ∷ []) StatusFilter.active rows)).sums
        (totals (visible_rows (campaign ∷ []) StatusFilter.paused rows)).sums
totals-split_run = totals-split (campaign ∷ []) rows
