-- ===== src/Jobs/Tests.antt =====
-- Jobs without their row, and a click on an ad, at concrete inputs.
use ad_link.Common.{true, false, none, some, List, [], ◌∷◌, ◌≡◌, refl, string_eq}
use ad_link.Core.Enums.{TouchType}
use ad_link.Db.{Ad}
use ad_link.Jobs.{record_click}

abbrev ads : List Ad
ads =
    record {
      id = "a";
      tenant_id = "t";
      ad_set_id = "s";
      external_id = "x";
      name = "A";
      status = none;
      effective_status = none;
      creative_id = none;
    }
    ∷ []

-- The tag of the address names the ad; another tenant's ad is not found.
record_click_run :
    (record_click
        (record { tenant_id = "t"; ad_external_id = none; utm_content = some "x" })
        7
        ads
        []
      ≡ (
        record { tenant_id = "t"; ad_id = "a"; type = TouchType.click; occurred_at = 7 } ∷ [],
        true,
      ))
    × (record_click
          (record { tenant_id = "u"; ad_external_id = none; utm_content = some "x" })
          7
          ads
          []
        ≡ ([], false))
unfolding record_click
record_click_run = (refl, refl)
