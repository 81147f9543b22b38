-- ===== src/Metrics/Performance/Hierarchy.antt =====
-- The nodes of `performance` of apps/api/src/metrics/metrics.service.ts: the ads, their ad sets and
-- their campaigns, and how a count goes up to them.
use ad_link.Common.{
  Option, none, some, String, List, [], ◌∷◌, string_eq, if◌then◌else◌, contains, keys, lookup,
  insert,
}
use ad_link.Core.Metrics.{MetricInputs, Level, campaign, adset, ad}
use ad_link.Metrics.{AdRow}

abbrev pub no_counts : MetricInputs
no_counts = record {
  spend = 0;
  impressions = 0;
  clicks = 0;
  leads = 0;
  qualified_leads = 0;
  sales = 0;
  revenue = 0;
}

-- A node of the hierarchy with what is summed for it.
pub record Acc : Type 0 where
  pub level : Level
  pub id : String
  pub name : String
  pub parent_id : Option String
  pub status : Option String
  pub effective_status : Option String
  pub counts : MetricInputs

abbrev pub ensure : Acc → List (String × Acc) → List (String × Acc)
ensure a m = if contains (keys m) a.id then m else insert a.id a m

abbrev pub ad_node : AdRow → Acc
ad_node r = record {
  level = ad;
  id = r.ad.id;
  name = r.ad.name;
  parent_id = some r.ad.ad_set_id;
  status = r.ad.status;
  effective_status = r.ad.effective_status;
  counts = no_counts;
}

abbrev pub ad_set_node : AdRow → Acc
ad_set_node r = record {
  level = adset;
  id = r.ad_set.id;
  name = r.ad_set.name;
  parent_id = some r.ad_set.campaign_id;
  status = r.ad_set.status;
  effective_status = r.ad_set.effective_status;
  counts = no_counts;
}

abbrev pub campaign_node : AdRow → Acc
campaign_node r = record {
  level = campaign;
  id = r.campaign.id;
  name = r.campaign.name;
  parent_id = none;
  status = r.campaign.status;
  effective_status = r.campaign.effective_status;
  counts = no_counts;
}

unfoldable pub hierarchy : List AdRow → List (String × Acc) → List (String × Acc)
hierarchy [] m = m
hierarchy (r ∷ rows) m =
    hierarchy rows (ensure (campaign_node r) (ensure (ad_set_node r) (ensure (ad_node r) m)))

pub record AdMeta : Type 0 where
  pub adset_id : String
  pub campaign_id : String
  pub currency : String

abbrev pub meta_entry : AdRow → String × AdMeta
meta_entry r = (
  r.ad.id,
  record { adset_id = r.ad_set.id; campaign_id = r.campaign.id; currency = r.account.currency },
)

-- `const node = acc.get(id); if (node) fn(node)`
unfoldable pub bump :
    (MetricInputs → MetricInputs) → String → List (String × Acc) → List (String × Acc)
bump fn id m = elim (lookup id m) [
  | none ↦ m
  | some a ↦ insert id (record a { counts = fn a.counts }) m
]

-- `addUp`: the ad, its ad set and its campaign.
unfoldable pub add_up :
    List (String × AdMeta)
    → String
    → (MetricInputs → MetricInputs)
    → List (String × Acc)
    → List (String × Acc)
add_up metas ad_id fn m = elim (lookup ad_id metas) [
  | none ↦ m
  | some meta ↦ bump fn meta.campaign_id (bump fn meta.adset_id (bump fn ad_id m))
]
