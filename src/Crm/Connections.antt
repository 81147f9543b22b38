-- ===== src/Crm/Connections.antt =====
-- apps/api/src/crm/crm.service.ts: a tenant connects a CRM, lists, syncs and removes its connections.
-- The drawn ids and the encryption of a secret are parameters; the tables of the clients are those of
-- the ad accounts. The mappings of a connection that is removed go with it in the database.
pub mod Isolation
mod Tests
use ad_link.Common.{
  ℕ, ◌+◌, Bool, true, false, ◌&&◌, not, Option, none, some, String, List, [], ◌∷◌, ◌++◌, ◌==◌,
  string_eq, if◌then◌else◌, leb, any, map, filter, find?, sort,
}
use ad_link.Core.Enums.{CrmProvider, SyncState}
use ad_link.Db.{CrmConnection}
use ad_link.AdAccounts.{client_of}
use ad_link.AdAccounts

-- What the frontend sees of a connection: not its secret.
pub record SafeConnection : Type 0 where
  pub id : String
  pub client_id : String
  pub provider : CrmProvider
  pub external_ref : String
  pub revenue_field : Option String
  pub last_sync_at : Option ℕ
  pub sync_state : SyncState

abbrev pub safe_connection : CrmConnection → SafeConnection
safe_connection c = record {
  id = c.id;
  client_id = c.client_id;
  provider = c.provider;
  external_ref = c.external_ref;
  revenue_field = c.revenue_field;
  last_sync_at = c.last_sync_at;
  sync_state = c.sync_state;
}

-- `ConnectBitrixDto` and `ConnectAmocrmDto`: the portal or the base address, and the secret.
pub record ConnectCrm : Type 0 where
  pub client_id : Option String
  pub external_ref : String
  pub secret : String

-- The connections, the tables of the clients, and the sync jobs that are queued.
pub record Store : Type 0 where
  pub connections : List CrmConnection
  pub tables : AdAccounts.Store
  pub queue : List String

pub data Answer : Type 0 where
  connected : SafeConnection → Answer
  enqueued : String → Answer
  removed not_found duplicate : Answer

abbrev pub same_provider : CrmProvider → CrmProvider → Bool
same_provider CrmProvider.bitrix24 CrmProvider.bitrix24 = true
same_provider CrmProvider.amocrm CrmProvider.amocrm = true
same_provider CrmProvider.hubspot CrmProvider.hubspot = true
same_provider CrmProvider.salesforce CrmProvider.salesforce = true
same_provider _ _ = false

-- The unique key of provider and reference.
abbrev pub is_connection : CrmProvider → String → CrmConnection → Bool
is_connection provider external_ref c =
    same_provider c.provider provider && c.external_ref == external_ref

-- A row that the tenant's scoped client sees under this id: `requireConn`
abbrev pub is_own_connection : String → String → CrmConnection → Bool
is_own_connection tenant_id id c = c.id == id && c.tenant_id == tenant_id

abbrev pub newest_connection : CrmConnection → CrmConnection → Bool
newest_connection a b = leb b.created_at a.created_at

-- `list`
unfoldable pub list_connections : String → Store → List SafeConnection
list_connections tenant_id s =
    map safe_connection
      (sort newest_connection (filter (λ c. c.tenant_id == tenant_id) s.connections))

module _ (id_of : ℕ → String) (seal : String → String) (tenant_id : String) (now : ℕ) where
  unfoldable pub new_connection : String → String → CrmProvider → ConnectCrm → CrmConnection
  new_connection id client_id provider dto = record {
    id = id;
    tenant_id = tenant_id;
    client_id = client_id;
    provider = provider;
    external_ref = dto.external_ref;
    auth_ref = seal dto.secret;
    revenue_field = none;
    last_sync_at = none;
    sync_state = SyncState.ok;
    created_at = now;
  }

  -- `connectBitrix` and `connectAmocrm`, with the first sync
  unfoldable pub connect_crm : CrmProvider → ConnectCrm → Store → Store × Answer
  unfolding new_connection
  connect_crm provider dto s =
      let (tables, client_id) = client_of id_of seal tenant_id now dto.client_id s.tables in
      let created = new_connection (id_of tables.drawn) client_id provider dto in
      if any (is_connection provider dto.external_ref) s.connections
      then (record s { tables = tables }, duplicate)
      else (
        record s {
          connections = s.connections ++ created ∷ [];
          tables = record tables { drawn = tables.drawn + 1 };
          queue = s.queue ++ created.id ∷ [];
        },
        connected (safe_connection created),
      )

unfoldable pub trigger_crm_sync : String → String → Store → Store × Answer
trigger_crm_sync tenant_id id s = elim (find? (is_own_connection tenant_id id) s.connections) [
  | none ↦ (s, not_found)
  | some c ↦ (record s { queue = s.queue ++ c.id ∷ [] }, enqueued c.id)
]

unfoldable pub remove_connection : String → String → Store → Store × Answer
remove_connection tenant_id id s = elim (find? (is_own_connection tenant_id id) s.connections) [
  | none ↦ (s, not_found)
  | some c ↦ (record s { connections = filter (λ b. not (b.id == id)) s.connections }, removed)
]

-- The requests to the service (crm.controller.ts) that write to these tables.
pub data Request : Type 0 where
  connect_bitrix connect_amocrm : ConnectCrm → Request
  sync_crm : String → Request
  delete_crm : String → Request

unfoldable pub serve_crm :
    (ℕ → String) → (String → String) → String → ℕ → Request → Store → Store × Answer
serve_crm id_of seal tenant_id now (connect_bitrix dto) s =
    connect_crm id_of seal tenant_id now CrmProvider.bitrix24 dto s
serve_crm id_of seal tenant_id now (connect_amocrm dto) s =
    connect_crm id_of seal tenant_id now CrmProvider.amocrm dto s
serve_crm id_of seal tenant_id now (sync_crm id) s = trigger_crm_sync tenant_id id s
serve_crm id_of seal tenant_id now (delete_crm id) s = remove_connection tenant_id id s
