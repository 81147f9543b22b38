-- ===== src/CrmSync/Tests.antt =====
-- Runs of the model of apps/api/src/ingest/crm-sync.service.ts: one lead with an ad's id, one won
-- deal, a connector that throws.
use ad_link.Common.{Elem, inl, ℕ, ◌*◌, false, none, some, String, [], ◌∷◌, Text, ◌≡◌, refl}
use ad_link.Core.Enums.{LeadSource, CrmProvider, SyncState}
use ad_link.Db.{day_ms, Lead, CrmConnection}
use ad_link.CrmSync.{new_lead, RawLead, CrmConnector, Store, sync, sync_leads, pull, begin, settle}
use ad_link.CrmSync.Runs.{IsSettled, sync-IsSettled}
use ad_link.CrmSync.Matches.{IsSameMatch, sync_leads-IsSameMatch}

abbrev hash : Text → Text
hash t = t

abbrev id_of : ℕ → String
id_of n = "id"

abbrev raw : RawLead
raw = record {
  source = LeadSource.crm;
  external_id = some "7";
  leadgen_id = none;
  ad_external_id = some "x1";
  fbclid = none;
  utm_source = none;
  utm_medium = none;
  utm_campaign = none;
  utm_content = none;
  utm_term = none;
  person = record { name = none; phones = none; emails = none };
  created_at = 5 * day_ms;
}

abbrev connection : CrmConnection
connection = record {
  id = "crm";
  tenant_id = "t";
  client_id = "k";
  provider = CrmProvider.bitrix24;
  external_ref = "";
  auth_ref = "";
  revenue_field = none;
  last_sync_at = none;
  sync_state = SyncState.ok;
  created_at = 0;
}

abbrev store : Store
store = record {
  contacts = record { contacts = []; identifiers = [] };
  matching = record { leads = []; ads = []; insights = []; audits = [] };
  deals = [];
  mappings = [];
  connections = connection ∷ [];
  runs = [];
  drawn = 0;
}

-- The connector throws at the contacts.
abbrev broken : CrmConnector
broken = record { contacts = none; leads = none; history = none; deals = none }

broken_run : (sync hash id_of "t" broken "crm" none 9 store).1 ≡ false
unfolding sync pull begin settle
broken_run = refl

sync-IsSettled_example : IsSettled "crm" "id" (sync hash id_of "t" broken "crm" none 9 store)
sync-IsSettled_example = sync-IsSettled hash id_of "t" broken "crm" none 9 store

abbrev known : Lead
known = new_lead "t" "l" raw none (some "a1")

abbrev synced : Store
synced = record store { matching = record store.matching { leads = known ∷ [] } }

sync_leads-IsSameMatch_example :
    (m : Lead) × Elem m (sync_leads hash id_of "t" none (raw ∷ []) synced).matching.leads
    × IsSameMatch known m
sync_leads-IsSameMatch_example =
    sync_leads-IsSameMatch hash id_of "t" none (raw ∷ []) synced known (inl refl)
