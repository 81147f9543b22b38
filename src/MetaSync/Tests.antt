-- ===== src/MetaSync/Tests.antt =====
-- Runs of the model of apps/api/src/ingest/meta-sync.service.ts on one ad.
use ad_link.Common.{
  ℕ, ◌*◌, none, some, String, List, [], ◌∷◌, ◌≡◌, refl, All, string_eq, insert, dict_of, lookup,
  length, eqb, if◌then◌else◌,
}
use ad_link.Core.Enums.{SyncState}
use ad_link.Conversions.{account_of}
use ad_link.Db.{day_ms}
use ad_link.MetaSync.{
  RawCampaign, RawInsight, Store, AdConnector, trailing_range, floored, put_insight, put_insights,
  ads_of_account, upsert_insights, insight_of,
}
use ad_link.MetaSync.Hierarchy.{
  upsert_campaign, upsert_ad_set, upsert_creative, upsert_ad, upsert_ads, upsert_ad_sets,
  upsert_hierarchy,
}
use ad_link.MetaSync.Run.{pull, sync}
use ad_link.MetaSync.Insights.{IsUnique, IsTimely, upsert_insights-IsUnique}

abbrev id_of : ℕ → String
id_of n = if eqb n 0 then "camp" else if eqb n 1 then "set" else "ad"

abbrev raw_hierarchy : List RawCampaign
raw_hierarchy =
    record {
      external_id = "c";
      name = "C";
      status = none;
      effective_status = none;
      ad_sets =
          record {
            external_id = "s";
            name = "S";
            status = none;
            effective_status = none;
            ads =
                record {
                  external_id = "a";
                  name = "A";
                  status = none;
                  effective_status = none;
                  creative_external_id = none;
                  creative_name = none;
                }
                ∷ [];
          }
          ∷ [];
    }
    ∷ []

abbrev an_insight : ℕ → ℕ → RawInsight
an_insight date spend = record {
  ad_external_id = "a";
  date = date;
  spend = spend;
  currency = "USD";
  impressions = 1;
  clicks = 1;
}

-- Two days after the connection, one of them twice, and the day before it.
abbrev raws : List RawInsight
raws = an_insight 20 5 ∷ an_insight 21 6 ∷ an_insight 20 7 ∷ an_insight 19 8 ∷ []

abbrev connector : AdConnector
connector = record { hierarchy = some raw_hierarchy; insights = λ range. some raws }

abbrev store : Store
store = record {
  campaigns = [];
  ad_sets = [];
  ads = [];
  creatives = [];
  insights = [];
  accounts = record { id = "acc"; last_sync_at = none; sync_state = SyncState.ok } ∷ [];
  drawn = 0;
}

abbrev synced : Store
synced = (sync id_of "t" connector "acc" none (some (20 * day_ms)) (22 * day_ms) store).0

-- The range starts with the day of the connection.
floored_run :
    floored (some (20 * day_ms)) (trailing_range 28 (40 * day_ms)) ≡ record { from = 20; to = 40 }
floored_run = refl

sync_run : length synced.insights ≡ 2
unfolding sync pull upsert_hierarchy upsert_campaign upsert_ad_sets upsert_ad_set upsert_ads
    upsert_ad upsert_creative upsert_insights put_insights put_insight ads_of_account account_of
    dict_of insert lookup
sync_run = refl

-- A row of an account that was connected earlier.
abbrev earlier : Store
earlier = record store { insights = insight_of "t" "old" (an_insight 3 9) ∷ [] }

upsert_insights-IsUnique_example :
    IsUnique (upsert_insights "t" "acc" (some (20 * day_ms)) raws earlier).insights
    × All
        (IsTimely (some (20 * day_ms)) earlier.insights)
        (upsert_insights "t" "acc" (some (20 * day_ms)) raws earlier).insights
upsert_insights-IsUnique_example =
    upsert_insights-IsUnique "t" (some (20 * day_ms)) "acc" raws earlier (refl, tt)
