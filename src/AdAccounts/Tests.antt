-- ===== src/AdAccounts/Tests.antt =====
-- Runs of the model of apps/api/src/ad-accounts, and its theorems at concrete inputs.
use ad_link.Common.{
  ℕ, ◌*◌, true, Option, none, some, String, List, [], ◌∷◌, ◌≡◌, ◌≢◌, ◌⊎◌, refl, All, string_eq,
  ◌==◌, ◌+◌, lookup, insert, eqb, if◌then◌else◌, length,
}
use ad_link.Core.Enums.{AdProvider, SyncState}
use ad_link.AdAccounts.{
  Account, MetaRawAccount, Store, imported, not_found, import_accounts, remove, import_picked,
  serve,
}
use ad_link.AdAccounts.Oauth.{
  answered, Settings, Graph, ok, exchange_meta_code, short_token, long_token, list_meta_accounts,
  exchange_meta_code_ok,
}
use ad_link.AdAccounts.Picker.{
  MetaSession, Sessions, create_session, get_session, meta_session, meta_import, picker,
  open_picker, meta_callback,
}
use ad_link.AdAccounts.Picker.Safety.{IsAllowed, meta_import-IsAllowed, meta_import-once}
use ad_link.AdAccounts.Picker.Callback.{IsOpened, meta_callback-IsOpened}
use ad_link.AdAccounts.Import.{IsImported, import_accounts-IsImported}
use ad_link.AdAccounts.Isolation.{foreign, serve-isolated}

abbrev id_of : ℕ → String
id_of n = if eqb n 0 then "id0" else if eqb n 1 then "id1" else "id2"

abbrev seal : String → String
seal token = if token == "token" then "sealed" else "other"

abbrev raw_one : MetaRawAccount
raw_one = record { account_id = "1"; name = none; currency = none; timezone_name = some "UTC" }

abbrev raw_two : MetaRawAccount
raw_two = record { account_id = "2"; name = some "B"; currency = some "EUR"; timezone_name = none }

-- The account act_1 of another tenant.
abbrev taken : Account
taken = record {
  id = "old";
  tenant_id = "rival";
  client_id = "c";
  provider = AdProvider.meta;
  external_id = "act_1";
  name = some "A";
  currency = "USD";
  timezone = "UTC";
  token_ref = "rival's";
  feedback_opt_in = true;
  last_sync_at = none;
  sync_state = SyncState.failed;
  created_at = 1;
}

abbrev store : Store
store = record { accounts = taken ∷ []; clients = []; queue = []; drawn = 0 }

abbrev raws : List MetaRawAccount
raws = raw_one ∷ raw_two ∷ []

abbrev settings : Settings
settings = record { app_id = some "app"; app_secret = some "s"; redirect_uri = some "uri" }

abbrev graph : Graph
graph = record {
  access_token = λ code. answered (some "short");
  long_lived = λ short. answered (some "token");
  ad_accounts = λ token. answered (some raws);
}

abbrev verify : String → Option String
verify state = if state == "signed" then some "t" else none

-- A session that has expired is dropped when a picker is opened.
abbrev stale : Sessions
stale =
    ("old session", record { token = "x"; tenant_id = "rival"; accounts = []; expires = 5 }) ∷ []

abbrev opened : Sessions
opened =
    (meta_callback settings graph verify "sid" (some "code") (some "signed") (some "signed") 10
      stale).0

exchange_run : exchange_meta_code settings graph "code" ≡ ok "token"
unfolding exchange_meta_code short_token long_token
exchange_run = refl

opened_run : length opened ≡ 1
unfolding meta_callback open_picker exchange_meta_code short_token long_token list_meta_accounts
    create_session insert
opened_run = refl

import_run : (meta_import id_of seal "t" "sid" ("act_2" ∷ []) 20 (opened, store)).1 ≡ imported 1
unfolding meta_callback open_picker exchange_meta_code short_token long_token list_meta_accounts
    create_session insert lookup get_session meta_import
import_run = refl

-- Another tenant's session lists nothing.
foreign_run : (meta_session "rival" "sid" 20 opened).1 ≡ []
unfolding meta_callback open_picker exchange_meta_code short_token long_token list_meta_accounts
    create_session insert lookup get_session meta_session
foreign_run = refl

-- Nor can another tenant's account be removed.
remove_run : (remove "t" "old" store).1 ≡ not_found
unfolding remove
remove_run = refl

exchange_meta_code_ok_run :
    (short : String) × (graph.access_token "code" ≡ answered (some short))
    × (short ≢ "")
    × ((graph.long_lived short ≡ answered (some "token")) ⊎ ("token" ≡ short))
exchange_meta_code_ok_run = exchange_meta_code_ok settings graph "code" "token" exchange_run

meta_import-IsAllowed_example :
    All
      (λ a. IsAllowed "t" "sid" ("act_2" ∷ []) 20 (opened, store) a.external_id)
      (meta_import id_of seal "t" "sid" ("act_2" ∷ []) 20 (opened, store)).0.1.accounts
meta_import-IsAllowed_example =
    meta_import-IsAllowed id_of seal "t" "sid" ("act_2" ∷ []) 20 (opened, store)

abbrev session : MetaSession
session = record { token = "token"; tenant_id = "t"; accounts = raws; expires = 10 + 10 * 60000 }

session_run : (get_session "sid" 20 opened).1 ≡ some session
unfolding meta_callback open_picker exchange_meta_code short_token long_token list_meta_accounts
    create_session insert lookup get_session
session_run = refl

meta_import-once_run :
    let w = (meta_import id_of seal "t" "sid" ("act_2" ∷ []) 20 (opened, store)).0 in
    meta_import id_of seal "t" "sid" ("act_1" ∷ []) 30 w ≡ (w, imported 0)
meta_import-once_run =
    meta_import-once id_of seal "t" "sid" ("act_2" ∷ []) 20 (opened, store) session session_run refl
      "t" ("act_1" ∷ []) 30

callback_run :
    (meta_callback settings graph verify "sid"
      (some "code")
      (some "signed")
      (some "signed")
      10
      stale).1
    ≡ picker "sid"
unfolding meta_callback open_picker exchange_meta_code short_token long_token list_meta_accounts
callback_run = refl

meta_callback-IsOpened_example :
    (c signed tenant_id : String) × (some "code" ≡ some c)
    × (some "signed" ≡ some signed)
    × (some "signed" ≡ some signed)
    × (verify signed ≡ some tenant_id)
    × IsOpened settings graph "sid" c tenant_id 10 opened
meta_callback-IsOpened_example =
    meta_callback-IsOpened settings graph verify "sid" (some "code") (some "signed") (some "signed")
      10 stale "sid" callback_run

-- The account of the other tenant keeps its owner and has the new token.
import_accounts-IsImported_example :
    IsImported "t" "sealed" raws store.accounts
      (import_accounts id_of seal "t" 20 "c" "sealed" raws store).accounts
import_accounts-IsImported_example =
    import_accounts-IsImported id_of seal "t" 20 "c" "sealed" raws store

serve-isolated_example :
    foreign "t" (serve id_of seal "t" 20 (import_picked "token" (raw_two ∷ [])) store).0.accounts
    ≡ foreign "t" store.accounts
serve-isolated_example =
    serve-isolated id_of seal "t" 20 (import_picked "token" (raw_two ∷ [])) store (refl, tt)
      ((λ e. absurd (cc e), tt), tt)
