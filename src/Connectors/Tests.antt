-- ===== src/Connectors/Tests.antt =====
-- Runs of the connectors of apps/api/src/connectors on two pages, and their theorems there.
use ad_link.Common.{
  ℕ, ◌≤◌, true, false, Option, none, some, String, List, [], ◌∷◌, ◌++◌, ◌≡◌, refl, map, eqb,
  if◌then◌else◌, string_eq, ◌==◌,
}
use ad_link.Core.Enums.{ConversionType}
use ad_link.CrmSync.{RawDeal}
use ad_link.Connectors.{follow, done, rows_of}
use ad_link.Connectors.Paging.{Chain, ends, goes}
use ad_link.Connectors.Complete.{IsRead, bitrix_paged-IsRead, paged_get-IsRead, amo_connector-deals}
use ad_link.Connectors.Meta
use ad_link.Connectors.Bitrix
use ad_link.Connectors.Amo

abbrev a_deal : String → Option String → Bitrix.BitrixDeal
a_deal id contact = record {
  id = id;
  contact_id = contact;
  stage_id = "NEW";
  opportunity = some 5;
  currency_id = some "USD";
  date_create = 7;
  closed = some "Y";
  closedate = some 9;
}

-- Two pages, which start at 0 and at 50.
abbrev deals : ℕ → ℕ → Bitrix.Response Bitrix.BitrixDeal
deals i start =
    if eqb start 0
    then Bitrix.page (some (a_deal "1" (some "c1") ∷ [])) (some 50)
    else Bitrix.page (some (a_deal "2" none ∷ [])) none

abbrev bound : String → Option (List Bitrix.BoundContact)
bound id = some (
    record { contact_id = some "c8"; is_primary = some "N" }
    ∷ record { contact_id = some "c9"; is_primary = some "Y" }
    ∷ [])

abbrev raw_deal : String → Option String → RawDeal
raw_deal id contact = record {
  external_id = id;
  contact_external_id = contact;
  stage_external_id = "NEW";
  amount = some 5;
  currency = some "USD";
  created_at = 7;
  won_at = some 9;
}

-- The deal without a contact gets the primary one that it is bound to.
fetch_deals_run :
    Bitrix.fetch_deals bound deals ≡ some (raw_deal "1" (some "c1") ∷ raw_deal "2" (some "c9") ∷ [])
unfolding Bitrix.fetch_deals Bitrix.paged follow Bitrix.recover_all Bitrix.recover
fetch_deals_run = refl

failed_run : rows_of (Bitrix.paged {R = Bitrix.HistoryItem} (λ i start. Bitrix.not_ok)) ≡ none
unfolding Bitrix.paged follow
failed_run = refl

abbrev graph : ℕ → String → Meta.Response ℕ
graph i url =
    if url == "first"
    then Meta.page (some (1 ∷ 2 ∷ [])) (some "next")
    else Meta.page (some (3 ∷ [])) none

paged_get_run : Meta.paged_get graph "first" ≡ done (1 ∷ 2 ∷ 3 ∷ []) 2
unfolding Meta.paged_get follow
paged_get_run = refl

-- The value 0 is not sent.
push_run :
    (Meta.push_conversion
      (some "dataset")
      (λ e. true)
      (record {
        type = ConversionType.purchase;
        event_id = "PUR:1";
        leadgen_id = none;
        value = some 0;
        currency = some "USD";
        phone = none;
        email = some "hash";
        occurred_at = 5000;
      })).0
    ≡ some (record {
      event_name = "Purchase";
      event_time = 5;
      event_id = "PUR:1";
      em = some "hash";
      ph = none;
      lead_id = none;
      custom_data = none;
    })
unfolding Meta.push_conversion
push_run = refl

bitrix_paged-IsRead_example :
    IsRead (λ i start. Bitrix.rest_page (deals i start)) 1000 0 (Bitrix.paged deals)
bitrix_paged-IsRead_example = bitrix_paged-IsRead deals

paged_get-IsRead_run : IsRead (Meta.ask graph) 1000 "first" (Meta.paged_get graph "first")
paged_get-IsRead_run = paged_get-IsRead graph "first" (λ e. cc e)

abbrev an_amo_lead : String → Amo.AmoLead
an_amo_lead id = record {
  id = id;
  contacts = some (record { id = "k"; is_main = false } ∷ []);
  status_id = "142";
  price = some 3;
  created_at = 1;
  closed_at = some 2;
}

abbrev amo_leads : ℕ → ℕ → Amo.Response Amo.AmoLead
amo_leads i n = if eqb n 1 then Amo.page (some (an_amo_lead "1" ∷ [])) true else Amo.no_content

abbrev account : Amo.AmoAccount
account = record { contacts = λ i n. Amo.no_content; leads = amo_leads }

amo_chain : Chain (λ i n. Amo.amo_page n (amo_leads i n)) 0 1 (an_amo_lead "1" ∷ []) 2
amo_chain =
    goes {next = 2} {here = an_amo_lead "1" ∷ []} {rest = []} {n = 1} refl (ends refl refl) refl
      refl

amo_connector-deals_example :
    (first rest : List Amo.AmoLead) × ((Amo.amo_connector account).deals
      ≡ some (map Amo.deal_of first))
    × (an_amo_lead "1" ∷ [] ≡ first ++ rest)
    × (2 ≤ 1000 → rest ≡ [])
amo_connector-deals_example = amo_connector-deals account (an_amo_lead "1" ∷ []) 2 amo_chain
