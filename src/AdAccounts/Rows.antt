-- ===== src/AdAccounts/Rows.antt =====
-- The rows of apps/api/src/ad-accounts/ad-accounts.service.ts, and its reads.
use ad_link.Common.{
  ℕ, Bool, true, false, ◌&&◌, Option, String, List, ◌==◌, string_eq, leb, get_or, filter, map, sort,
  append_text,
}
use ad_link.Core.Enums.{AdProvider, SyncState}

pub record Client : Type 0 where
  pub id : String
  pub tenant_id : String
  pub name : String
  pub created_at : ℕ

-- The whole row of an ad account.
pub record Account : Type 0 where
  pub id : String
  pub tenant_id : String
  pub client_id : String
  pub provider : AdProvider
  pub external_id : String
  pub name : Option String
  pub currency : String
  pub timezone : String
  pub token_ref : String
  pub feedback_opt_in : Bool
  pub last_sync_at : Option ℕ
  pub sync_state : SyncState
  pub created_at : ℕ

-- What the frontend sees of a row: all but the token's reference.
pub record SafeAccount : Type 0 where
  pub id : String
  pub client_id : String
  pub provider : AdProvider
  pub external_id : String
  pub name : Option String
  pub currency : String
  pub timezone : String
  pub feedback_opt_in : Bool
  pub last_sync_at : Option ℕ
  pub sync_state : SyncState

abbrev pub safe : Account → SafeAccount
safe a = record {
  id = a.id;
  client_id = a.client_id;
  provider = a.provider;
  external_id = a.external_id;
  name = a.name;
  currency = a.currency;
  timezone = a.timezone;
  feedback_opt_in = a.feedback_opt_in;
  last_sync_at = a.last_sync_at;
  sync_state = a.sync_state;
}

pub record MetaRawAccount : Type 0 where
  pub account_id : String
  pub name : Option String
  pub currency : Option String
  pub timezone_name : Option String

pub record ConnectMeta : Type 0 where
  pub client_id : Option String
  pub external_id : String
  pub name : String
  pub currency : String
  pub timezone : String
  pub token : String

-- The tables, the queue, and the number of ids that were drawn.
pub record Store : Type 0 where
  pub accounts : List Account
  pub clients : List Client
  pub queue : List String
  pub drawn : ℕ

-- What the methods answer; `duplicate` is the database's refusal of a second row for a unique key.
pub data Answer : Type 0 where
  connected : SafeAccount → Answer
  imported : ℕ → Answer
  changed : SafeAccount → Answer
  enqueued : String → Answer
  removed not_found duplicate : Answer

-- `act_${a.account_id}`
abbrev pub external_id_of : MetaRawAccount → String
external_id_of raw = append_text "act_" raw.account_id

abbrev pub is_meta : AdProvider → Bool
is_meta AdProvider.meta = true
is_meta _ = false

-- The unique key `provider_externalId`, for Meta.
abbrev pub is_account : String → Account → Bool
is_account external_id a = is_meta a.provider && a.external_id == external_id

-- A row that the tenant's scoped client sees under this id.
abbrev pub is_own : String → String → Account → Bool
is_own tenant_id id a = a.id == id && a.tenant_id == tenant_id

abbrev pub older_client : Client → Client → Bool
older_client a b = leb a.created_at b.created_at

abbrev pub newest_account : Account → Account → Bool
newest_account a b = leb b.created_at a.created_at

-- `list`
unfoldable pub list : String → Store → List SafeAccount
list tenant_id s =
    map safe (sort newest_account (filter (λ a. a.tenant_id == tenant_id) s.accounts))

-- The `update` of an import.
abbrev pub reimported : String → MetaRawAccount → Account → Account
reimported token_ref raw a = record a {
  name = raw.name;
  currency = get_or raw.currency "USD";
  timezone = get_or raw.timezone_name "UTC";
  token_ref = token_ref;
  sync_state = SyncState.ok;
}
