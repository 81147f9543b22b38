-- ===== src/CrmSync/Rows.antt =====
-- The rows of apps/api/src/ingest/crm-sync.service.ts: what a connector gives, the tables, and how one
-- row of a table is written.
use ad_link.Common.{
  ℕ, ◌*◌, Bool, true, false, ◌&&◌, Option, none, some, String, List, [], ◌∷◌, ◌++◌, ◌==◌, string_eq,
  ltb, if◌then◌else◌, get_or, truthy, is_text, any, filter, find?, update_where, add, lookup,
  insert,
}
use ad_link.Core.Enums.{CanonicalStatus, LeadSource, MatchStatus, SyncState}
use ad_link.Db.{day_ms, day_of, Ad, Lead, Deal, CrmConnection, StageMapping}
use ad_link.Crm.{Mapping, mapping_of}
use ad_link.Contacts.{RawPerson}

pub record RawContact : Type 0 where
  pub external_id : String
  pub person : RawPerson

pub record RawLead : Type 0 where
  pub source : LeadSource
  pub external_id : Option String
  pub leadgen_id : Option String
  pub ad_external_id : Option String
  pub fbclid : Option String
  pub utm_source : Option String
  pub utm_medium : Option String
  pub utm_campaign : Option String
  pub utm_content : Option String
  pub utm_term : Option String
  pub person : RawPerson
  pub created_at : ℕ

pub record RawDeal : Type 0 where
  pub external_id : String
  pub contact_external_id : Option String
  pub stage_external_id : String
  pub amount : Option ℕ
  pub currency : Option String
  pub created_at : ℕ
  pub won_at : Option ℕ

pub record RawDealStageHistory : Type 0 where
  pub deal_external_id : String
  pub stage_external_id : String

-- The answers of the connector; it need not have the method for the history.
pub record CrmConnector : Type 0 where
  pub contacts : Option (List RawContact)
  pub leads : Option (List RawLead)
  pub history : Option (Option (List RawDealStageHistory))
  pub deals : Option (List RawDeal)

pub record SyncRun : Type 0 where
  pub id : String
  pub tenant_id : String
  pub kind : String
  pub state : SyncState

-- The tables, and the number of ids that were drawn.
pub record Store : Type 0 where
  pub contacts : ad_link.Contacts.Store
  pub matching : ad_link.Matching.Store
  pub deals : List Deal
  pub mappings : List StageMapping
  pub connections : List CrmConnection
  pub runs : List SyncRun
  pub drawn : ℕ

-- `floorDay` and `before`
abbrev pub floor_day : Option ℕ → Option ℕ
floor_day none = none
floor_day (some t) = some (day_of t * day_ms)

abbrev pub before : Option ℕ → ℕ → Bool
before none t = false
before (some floor) t = ltb t floor

abbrev pub same_source : LeadSource → LeadSource → Bool
same_source LeadSource.meta_lead_ad LeadSource.meta_lead_ad = true
same_source LeadSource.website LeadSource.website = true
same_source LeadSource.dm LeadSource.dm = true
same_source LeadSource.crm LeadSource.crm = true
same_source _ _ = false

-- The unique key `tenantId_source_externalId`.
abbrev pub is_lead : String → RawLead → Lead → Bool
is_lead tenant_id raw l =
    l.tenant_id == tenant_id
    && (same_source l.source raw.source && is_text l.external_id (get_or raw.external_id ""))

-- What a re-sync refreshes: the contact and the signals.
abbrev pub refreshed : RawLead → Option String → Lead → Lead
refreshed raw contact_id l = record l {
  contact_id = contact_id;
  leadgen_id = raw.leadgen_id;
  fbclid = raw.fbclid;
  utm_source = raw.utm_source;
  utm_medium = raw.utm_medium;
  utm_campaign = raw.utm_campaign;
  utm_content = raw.utm_content;
  utm_term = raw.utm_term;
}

abbrev pub new_lead : String → String → RawLead → Option String → Option String → Lead
new_lead tenant_id id raw contact_id ad_id = record {
  id = id;
  tenant_id = tenant_id;
  contact_id = contact_id;
  source = raw.source;
  external_id = raw.external_id;
  leadgen_id = raw.leadgen_id;
  fbclid = raw.fbclid;
  utm_source = raw.utm_source;
  utm_medium = raw.utm_medium;
  utm_campaign = raw.utm_campaign;
  utm_content = raw.utm_content;
  utm_term = raw.utm_term;
  created_at = raw.created_at;
  ad_id = ad_id;
  match_method = none;
  match_status = MatchStatus.unmatched;
  confidence = none;
}

-- The ad of the external id that the lead carries.
unfoldable pub seeded_ad : String → RawLead → List Ad → Option String
seeded_ad tenant_id raw ads =
    if truthy raw.ad_external_id
    then elim (find? (λ a. a.tenant_id == tenant_id && is_text raw.ad_external_id a.external_id)
        ads) [ none ↦ none | some a ↦ some a.id ]
    else none

-- `lead.upsert`
unfoldable pub put_lead :
    String → String → RawLead → Option String → Option String → List Lead → List Lead
put_lead tenant_id id raw contact_id ad_id leads =
    if any (is_lead tenant_id raw) leads
    then update_where (is_lead tenant_id raw) (refreshed raw contact_id) leads
    else leads ++ new_lead tenant_id id raw contact_id ad_id ∷ []

-- What a sync writes for a deal.
abbrev pub deal_of :
    String → String → RawDeal → CanonicalStatus → Option String → List String → Deal
deal_of tenant_id id raw canonical contact_id stages = record {
  id = id;
  tenant_id = tenant_id;
  contact_id = contact_id;
  external_id = raw.external_id;
  stage_external_id = raw.stage_external_id;
  stage_history = stages;
  canonical = canonical;
  amount = raw.amount;
  currency = raw.currency;
  created_at = raw.created_at;
  won_at = raw.won_at;
}

abbrev pub is_deal : String → RawDeal → Deal → Bool
is_deal tenant_id raw d = d.tenant_id == tenant_id && d.external_id == raw.external_id

-- `upsertDeal`
unfoldable pub put_deal :
    String
    → String
    → RawDeal
    → CanonicalStatus
    → Option String
    → List String
    → List Deal
    → List Deal
put_deal tenant_id id raw canonical contact_id stages deals =
    if any (is_deal tenant_id raw) deals
    then update_where (is_deal tenant_id raw)
        (λ d. deal_of tenant_id d.id raw canonical contact_id stages) deals
    else deals ++ deal_of tenant_id id raw canonical contact_id stages ∷ []

-- `histByDeal`
unfoldable pub add_history :
    List RawDealStageHistory → List (String × List String) → List (String × List String)
add_history [] m = m
add_history (h ∷ hs) m = add_history hs (
    insert h.deal_external_id (add (get_or (lookup h.deal_external_id m) []) h.stage_external_id) m)

-- `[...new Set([stage, ...history])]`
unfoldable pub add_all : List String → List String → List String
add_all xs [] = xs
add_all xs (k ∷ ks) = add_all (add xs k) ks

-- `loadMappings`
abbrev pub load_mappings : String → List StageMapping → Mapping
load_mappings connection_id rows =
    mapping_of (filter (λ r. r.crm_connection_id == connection_id) rows)

abbrev pub set_sync_state : String → SyncState → List CrmConnection → List CrmConnection
set_sync_state id state = update_where (λ c. c.id == id) (λ c. record c { sync_state = state })

-- `lastSyncAt` with the state.
abbrev pub set_synced : String → ℕ → List CrmConnection → List CrmConnection
set_synced id now =
    update_where (λ c. c.id == id)
      (λ c. record c { last_sync_at = some now; sync_state = SyncState.ok })

-- `SyncRunService.finish`
abbrev pub finish : String → SyncState → List SyncRun → List SyncRun
finish id state = update_where (λ r. r.id == id) (λ r. record r { state = state })
