-- ===== src/MetaSync/Hierarchy.antt =====
-- The upserts of apps/api/src/ingest/meta-sync.service.ts for campaigns, ad sets, ads and creatives.
use ad_link.Common.{
  ℕ, ◌+◌, Bool, ◌&&◌, Option, none, some, String, List, [], ◌∷◌, ◌++◌, ◌==◌, string_eq,
  if◌then◌else◌, get_or, truthy, any, find?, update_where,
}
use ad_link.Core.Creative.{parse_creative_name}
use ad_link.Db.{Campaign, AdSet, Ad}
use ad_link.MetaSync.{RawAd, RawAdSet, RawCampaign, Creative, Store, merged}

module _ (id_of : ℕ → String) (tenant_id : String) where
  unfoldable pub upsert_campaign : String → RawCampaign → Store → Store × String
  upsert_campaign account_id raw s =
      let is_row : Campaign → Bool =
        λ c. c.ad_account_id == account_id && c.external_id == raw.external_id in
      elim (find? is_row s.campaigns) [
        | some c ↦ (
          record s {
            campaigns =
                update_where is_row
                  (λ c. record c {
                    name = raw.name;
                    status = raw.status;
                    effective_status = raw.effective_status;
                  })
                  s.campaigns;
          },
          c.id,
        )
        | none ↦ (
          record s {
            campaigns =
                s.campaigns
                ++ record {
                  id = id_of s.drawn;
                  tenant_id = tenant_id;
                  ad_account_id = account_id;
                  external_id = raw.external_id;
                  name = raw.name;
                  status = raw.status;
                  effective_status = raw.effective_status;
                }
                  ∷ [];
            drawn = s.drawn + 1;
          },
          id_of s.drawn,
        )
      ]

  unfoldable pub upsert_ad_set : String → RawAdSet → Store → Store × String
  upsert_ad_set campaign_id raw s =
      let is_row : AdSet → Bool =
        λ a. a.campaign_id == campaign_id && a.external_id == raw.external_id in
      elim (find? is_row s.ad_sets) [
        | some a ↦ (
          record s {
            ad_sets =
                update_where is_row
                  (λ a. record a {
                    name = raw.name;
                    status = raw.status;
                    effective_status = raw.effective_status;
                  })
                  s.ad_sets;
          },
          a.id,
        )
        | none ↦ (
          record s {
            ad_sets =
                s.ad_sets
                ++ record {
                  id = id_of s.drawn;
                  tenant_id = tenant_id;
                  campaign_id = campaign_id;
                  external_id = raw.external_id;
                  name = raw.name;
                  status = raw.status;
                  effective_status = raw.effective_status;
                }
                  ∷ [];
            drawn = s.drawn + 1;
          },
          id_of s.drawn,
        )
      ]

  -- `upsertCreative`
  unfoldable pub upsert_creative : RawAd → Store → Store × Option String
  upsert_creative raw s =
      if truthy raw.creative_external_id
      then (let external = get_or raw.creative_external_id "" in
          let parsed = parse_creative_name (get_or raw.creative_name []) in
          let is_row : Creative → Bool =
            λ c. c.tenant_id == tenant_id && c.external_id == external in
          elim (find? is_row s.creatives) [
            | some existing ↦ (
              record s {
                creatives =
                    update_where (λ c. c.id == existing.id)
                      (λ c. record c { name = raw.creative_name; parsed = merged parsed c.parsed })
                      s.creatives;
              },
              some existing.id,
            )
            | none ↦ (
              record s {
                creatives =
                    s.creatives
                    ++ record {
                      id = id_of s.drawn;
                      tenant_id = tenant_id;
                      external_id = external;
                      name = raw.creative_name;
                      parsed = parsed;
                    }
                      ∷ [];
                drawn = s.drawn + 1;
              },
              some (id_of s.drawn),
            )
          ])
      else (s, none)

  unfoldable pub upsert_ad : String → RawAd → Store → Store
  upsert_ad ad_set_id raw s =
      let (s', creative) = upsert_creative raw s in
      let is_row : Ad → Bool = λ a. a.ad_set_id == ad_set_id && a.external_id == raw.external_id in
      if any is_row s'.ads
      then record s' {
        ads =
            update_where is_row
              (λ a. record a {
                name = raw.name;
                status = raw.status;
                effective_status = raw.effective_status;
                creative_id = creative;
              })
              s'.ads;
      }
      else record s' {
        ads =
            s'.ads
            ++ record {
              id = id_of s'.drawn;
              tenant_id = tenant_id;
              ad_set_id = ad_set_id;
              external_id = raw.external_id;
              name = raw.name;
              status = raw.status;
              effective_status = raw.effective_status;
              creative_id = creative;
            }
              ∷ [];
        drawn = s'.drawn + 1;
      }

  unfoldable pub upsert_ads : String → List RawAd → Store → Store
  upsert_ads ad_set_id [] s = s
  upsert_ads ad_set_id (a ∷ ads) s = upsert_ads ad_set_id ads (upsert_ad ad_set_id a s)

  unfoldable pub upsert_ad_sets : String → List RawAdSet → Store → Store
  upsert_ad_sets campaign_id [] s = s
  upsert_ad_sets campaign_id (a ∷ sets) s =
      let (s', id) = upsert_ad_set campaign_id a s in
      upsert_ad_sets campaign_id sets (upsert_ads id a.ads s')

  unfoldable pub upsert_hierarchy : String → List RawCampaign → Store → Store
  upsert_hierarchy account_id [] s = s
  upsert_hierarchy account_id (c ∷ campaigns) s =
      let (s', id) = upsert_campaign account_id c s in
      upsert_hierarchy account_id campaigns (upsert_ad_sets id c.ad_sets s')
