-- ===== src/MetaSync.antt =====
-- apps/api/src/ingest/meta-sync.service.ts: an ad account is pulled into campaigns, ad sets, ads,
-- creatives and daily insights. The connector is a parameter, each of its methods gives its rows or
-- throws (none); the ids of new rows are a parameter too. The reach and the frequency of an insight
-- are left out.
pub mod Hierarchy
pub mod Run
pub mod Insights
mod Tests
use ad_link.Common.{
  ℕ, ◌+◌, ◌-◌, ◌*◌, Bool, true, false, ◌&&◌, Option, none, some, String, List, [], ◌∷◌, ◌++◌, Text,
  ◌==◌, string_eq, eqb, ltb, if◌then◌else◌, get_or, truthy, any, filter, find?, update_where, map,
  lookup, dict_of,
}
use ad_link.Core.Enums.{SyncState}
use ad_link.Core.Creative.{ParsedCreative, parse_creative_name}
use ad_link.Db.{day_ms, day_of, Campaign, AdSet, Ad, Insight}
use ad_link.Conversions.{account_of}

pub record RawAd : Type 0 where
  pub external_id : String
  pub name : String
  pub status : Option String
  pub effective_status : Option String
  pub creative_external_id : Option String
  pub creative_name : Option Text

pub record RawAdSet : Type 0 where
  pub external_id : String
  pub name : String
  pub status : Option String
  pub effective_status : Option String
  pub ads : List RawAd

pub record RawCampaign : Type 0 where
  pub external_id : String
  pub name : String
  pub status : Option String
  pub effective_status : Option String
  pub ad_sets : List RawAdSet

pub record RawInsight : Type 0 where
  pub ad_external_id : String
  pub date : ℕ
  pub spend : ℕ
  pub currency : String
  pub impressions : ℕ
  pub clicks : ℕ

pub record Creative : Type 0 where
  pub id : String
  pub tenant_id : String
  pub external_id : String
  pub name : Option Text
  pub parsed : ParsedCreative

abbrev pub or_else : Option Text → Option Text → Option Text
or_else none old = old
or_else (some v) old = some v

-- `{ ...parsed }` in the data of an update: a dimension that the name does not give keeps its value.
abbrev pub merged : ParsedCreative → ParsedCreative → ParsedCreative
merged new old = record {
  video = or_else new.video old.video;
  hook = or_else new.hook old.hook;
  concept = or_else new.concept old.concept;
  angle = or_else new.angle old.angle;
  format = or_else new.format old.format;
  audience = or_else new.audience old.audience;
}

-- The state of an account's sync.
pub record AccountSync : Type 0 where
  pub id : String
  pub last_sync_at : Option ℕ
  pub sync_state : SyncState

-- The tables, and the number of ids that were drawn.
pub record Store : Type 0 where
  pub campaigns : List Campaign
  pub ad_sets : List AdSet
  pub ads : List Ad
  pub creatives : List Creative
  pub insights : List Insight
  pub accounts : List AccountSync
  pub drawn : ℕ

pub record DateRange : Type 0 where
  pub from : ℕ
  pub to : ℕ

-- The answers of the connector: the hierarchy, and the insights of a range.
pub record AdConnector : Type 0 where
  pub hierarchy : Option (List RawCampaign)
  pub insights : DateRange → Option (List RawInsight)

abbrev pub trailing_range : ℕ → ℕ → DateRange
trailing_range days now = record { from = day_of (now - days * day_ms); to = day_of now }

-- The range never starts before the day on which the account was connected.
abbrev pub floored : Option ℕ → DateRange → DateRange
floored none range = range
floored (some t) range =
    if ltb range.from (day_of t) then record range { from = day_of t } else range

-- `ins.date < floorIso`
abbrev pub is_early : Option ℕ → ℕ → Bool
is_early none date = false
is_early (some t) date = ltb date (day_of t)

abbrev pub is_day : String → ℕ → Insight → Bool
is_day ad_id date i = i.ad_id == ad_id && eqb i.date date

abbrev pub insight_of : String → String → RawInsight → Insight
insight_of tenant_id ad_id raw = record {
  tenant_id = tenant_id;
  ad_id = ad_id;
  date = raw.date;
  spend = raw.spend;
  currency = raw.currency;
  impressions = raw.impressions;
  clicks = raw.clicks;
}

-- The data of an update.
abbrev pub measured : RawInsight → Insight → Insight
measured raw i = record i {
  spend = raw.spend;
  currency = raw.currency;
  impressions = raw.impressions;
  clicks = raw.clicks;
}

-- `adInsightDaily.upsert`
unfoldable pub put_insight : String → String → RawInsight → List Insight → List Insight
put_insight tenant_id ad_id raw rows =
    if any (is_day ad_id raw.date) rows
    then update_where (is_day ad_id raw.date) (measured raw) rows
    else rows ++ insight_of tenant_id ad_id raw ∷ []

-- The loop of `upsertInsights`.
unfoldable pub put_insights :
    String → Option ℕ → List (String × String) → List RawInsight → List Insight → List Insight
put_insights tenant_id connected by_external [] rows = rows
put_insights tenant_id connected by_external (raw ∷ raws) rows =
    put_insights tenant_id connected by_external raws
      (elim (lookup raw.ad_external_id by_external) [
        | none ↦ rows
        | some ad_id ↦
            if is_early connected raw.date then rows else put_insight tenant_id ad_id raw rows
      ])

-- `byExternal`: the ads of the tenant's account.
unfoldable pub ads_of_account : String → String → Store → List Ad → List (String × String)
ads_of_account tenant_id account_id s [] = []
ads_of_account tenant_id account_id s (ad ∷ ads) =
    let rest = ads_of_account tenant_id account_id s ads in
    elim (account_of s.ad_sets s.campaigns ad) [
      | none ↦ rest
      | some acc ↦
          if ad.tenant_id == tenant_id && acc == account_id
          then (ad.external_id, ad.id) ∷ rest
          else rest
    ]

unfoldable pub upsert_insights : String → String → Option ℕ → List RawInsight → Store → Store
upsert_insights tenant_id account_id connected raws s = record s {
  insights =
      put_insights tenant_id connected (dict_of [] (ads_of_account tenant_id account_id s s.ads))
        raws s.insights;
}
