-- ===== src/AdAccounts.antt =====
-- apps/api/src/ad-accounts/ad-accounts.service.ts with apps/api/src/clients/default-client.ts: the
-- ad accounts of a tenant. Prisma's base client, the vault and the drawn ids are as in CrmSync: the
-- text that the vault makes of a token and the ids are parameters, and the queue is the list of the
-- accounts whose sync was asked for. The tenant of the request is an argument.
mod Rows
pub mod Picker
pub mod Oauth
pub mod Isolation
pub mod Import
pub mod Keys
mod Tests
unfoldable pub use Rows.*
use ad_link.Common.{
  ℕ, ◌+◌, Bool, true, false, ◌&&◌, Option, none, some, String, List, [], ◌∷◌, ◌++◌, ◌==◌, string_eq,
  leb, not, if◌then◌else◌, get_or, head?, any, filter, find?, update_where, map, sort, append_text,
  length,
}
use ad_link.Core.Enums.{AdProvider, SyncState}

module _ (id_of : ℕ → String) (seal : String → String) (tenant_id : String) (now : ℕ) where
  -- `ensureDefaultClient`
  unfoldable pub ensure_default_client : Store → Store × String
  ensure_default_client s =
      elim (head? (sort older_client (filter (λ c. c.tenant_id == tenant_id) s.clients))) [
        | some c ↦ (s, c.id)
        | none ↦
            let id = id_of s.drawn in
            (
              record s {
                clients =
                    s.clients
                    ++ record { id = id; tenant_id = tenant_id; name = "Default"; created_at = now }
                      ∷ [];
                drawn = s.drawn + 1;
              },
              id,
            )
      ]

  -- The client of a new connection: the one that is named, or the default one.
  abbrev pub client_of : Option String → Store → Store × String
  client_of (some id) s = (s, id)
  client_of none s = ensure_default_client s

  unfoldable pub new_account : String → String → ConnectMeta → Account
  new_account id client_id dto = record {
    id = id;
    tenant_id = tenant_id;
    client_id = client_id;
    provider = AdProvider.meta;
    external_id = dto.external_id;
    name = some dto.name;
    currency = dto.currency;
    timezone = dto.timezone;
    token_ref = seal dto.token;
    feedback_opt_in = false;
    last_sync_at = none;
    sync_state = SyncState.ok;
    created_at = now;
  }

  unfoldable pub connect_meta : ConnectMeta → Store → Store × Answer
  unfolding new_account
  connect_meta dto s =
      let (s', client_id) = client_of dto.client_id s in
      let created = new_account (id_of s'.drawn) client_id dto in
      if any (is_account dto.external_id) s'.accounts then (s', duplicate) else (
        record s' { accounts = s'.accounts ++ created ∷ []; drawn = s'.drawn + 1 },
        connected (safe created),
      )

  -- The `create` of an import.
  abbrev pub imported_account : String → String → String → MetaRawAccount → Account
  imported_account id client_id token_ref raw = record {
    id = id;
    tenant_id = tenant_id;
    client_id = client_id;
    provider = AdProvider.meta;
    external_id = external_id_of raw;
    name = raw.name;
    currency = get_or raw.currency "USD";
    timezone = get_or raw.timezone_name "UTC";
    token_ref = token_ref;
    feedback_opt_in = false;
    last_sync_at = none;
    sync_state = SyncState.ok;
    created_at = now;
  }

  -- `adAccount.upsert`, and the first sync right after it.
  unfoldable pub import_account : String → String → MetaRawAccount → Store → Store
  import_account client_id token_ref raw s =
      elim (find? (is_account (external_id_of raw)) s.accounts) [
        | some a ↦ record s {
          accounts =
              update_where (is_account (external_id_of raw)) (reimported token_ref raw) s.accounts;
          queue = s.queue ++ a.id ∷ [];
        }
        | none ↦ record s {
          accounts = s.accounts ++ imported_account (id_of s.drawn) client_id token_ref raw ∷ [];
          queue = s.queue ++ id_of s.drawn ∷ [];
          drawn = s.drawn + 1;
        }
      ]

  unfoldable pub import_accounts : String → String → List MetaRawAccount → Store → Store
  import_accounts client_id token_ref [] s = s
  import_accounts client_id token_ref (raw ∷ raws) s =
      import_accounts client_id token_ref raws (import_account client_id token_ref raw s)

  -- `importMetaAccounts`
  unfoldable pub import_meta_accounts : String → List MetaRawAccount → Store → Store
  import_meta_accounts token raws s =
      let (s', client_id) = ensure_default_client s in
      import_accounts client_id (seal token) raws s'

-- The scoped look-up, and then the update by the id alone.
unfoldable pub set_feedback : String → String → Bool → Store → Store × Answer
set_feedback tenant_id id opt_in s = elim (find? (is_own tenant_id id) s.accounts) [
  | none ↦ (s, not_found)
  | some a ↦ (
    record s {
      accounts =
          update_where (λ b. b.id == id) (λ b. record b { feedback_opt_in = opt_in }) s.accounts;
    },
    changed (safe (record a { feedback_opt_in = opt_in })),
  )
]

unfoldable pub trigger_sync : String → String → Store → Store × Answer
trigger_sync tenant_id id s = elim (find? (is_own tenant_id id) s.accounts) [
  | none ↦ (s, not_found)
  | some a ↦ (record s { queue = s.queue ++ a.id ∷ [] }, enqueued a.id)
]

unfoldable pub remove : String → String → Store → Store × Answer
remove tenant_id id s = elim (find? (is_own tenant_id id) s.accounts) [
  | none ↦ (s, not_found)
  | some a ↦ (record s { accounts = filter (λ b. not (b.id == id)) s.accounts }, removed)
]

-- The requests to the service (ad-accounts.controller.ts) that write to the tables.
pub data Request : Type 0 where
  connect : ConnectMeta → Request
  import_picked : String → List MetaRawAccount → Request
  feedback : String → Bool → Request
  sync : String → Request
  delete : String → Request

unfoldable pub serve :
    (ℕ → String) → (String → String) → String → ℕ → Request → Store → Store × Answer
serve id_of seal tenant_id now (connect dto) s = connect_meta id_of seal tenant_id now dto s
serve id_of seal tenant_id now (import_picked token raws) s =
    (import_meta_accounts id_of seal tenant_id now token raws s, imported (length raws))
serve id_of seal tenant_id now (feedback id opt_in) s = set_feedback tenant_id id opt_in s
serve id_of seal tenant_id now (sync id) s = trigger_sync tenant_id id s
serve id_of seal tenant_id now (delete id) s = remove tenant_id id s
