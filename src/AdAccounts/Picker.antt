-- ===== src/AdAccounts/Picker.antt =====
-- The picker of ad accounts: its short-lived sessions, kept in a Map of the process
-- (apps/api/src/ad-accounts/ad-accounts.service.ts), and the requests that use them
-- (apps/api/src/ad-accounts/ad-accounts.controller.ts). The guards on the roles are in Access.
pub mod Safety
pub mod Callback
use ad_link.Common.{
  ℕ, ◌+◌, ◌*◌, Bool, true, false, not, Option, none, some, String, List, [], ◌∷◌, ◌==◌, string_eq,
  ltb, if◌then◌else◌, filter, map, length, contains, lookup, insert, get_or, ◌&&◌, truthy, is_text,
}
use ad_link.AdAccounts.{
  MetaRawAccount, Store, Answer, imported, external_id_of, import_meta_accounts,
}
use ad_link.AdAccounts.Oauth.{
  Settings, Graph, Result, ok, err, exchange_meta_code, list_meta_accounts,
}

pub record MetaSession : Type 0 where
  pub token : String
  pub tenant_id : String
  pub accounts : List MetaRawAccount
  pub expires : ℕ

abbrev pub Sessions : Type 0
Sessions = List (String × MetaSession)

abbrev pub ttl_ms : ℕ
ttl_ms = 10 * 60000

-- `pruneMetaSessions`
abbrev pub prune : ℕ → Sessions → Sessions
prune now = filter (λ e. not (ltb e.1.expires now))

-- `deleteMetaSession`
abbrev pub delete_session : String → Sessions → Sessions
delete_session id = filter (λ e. not (e.0 == id))

-- `createMetaSession`, with the id that is drawn for it
unfoldable pub create_session :
    String → String → String → List MetaRawAccount → ℕ → Sessions → Sessions
create_session id token tenant_id accounts now sessions =
    insert id
      (record { token = token; tenant_id = tenant_id; accounts = accounts; expires = now + ttl_ms })
      (prune now sessions)

-- `getMetaSession`, which drops a session that has expired
unfoldable pub get_session : String → ℕ → Sessions → Sessions × Option MetaSession
get_session id now sessions = elim (lookup id sessions) [
  | none ↦ (sessions, none)
  | some found ↦
      if ltb found.expires now then (delete_session id sessions, none) else (sessions, some found)
]

-- A row of the picker.
pub record Candidate : Type 0 where
  pub external_id : String
  pub name : Option String
  pub currency : String

abbrev pub candidate_of : MetaRawAccount → Candidate
candidate_of raw = record {
  external_id = external_id_of raw;
  name = raw.name;
  currency = get_or raw.currency "USD";
}

-- `metaSession`
unfoldable pub meta_session : String → String → ℕ → Sessions → Sessions × List Candidate
meta_session tenant_id id now sessions =
    let (sessions', found) = get_session id now sessions in
    elim found [
      | none ↦ (sessions', [])
      | some s ↦
          if s.tenant_id == tenant_id
          then (sessions', map candidate_of s.accounts)
          else (sessions', [])
    ]

-- The accounts of the session that the request names.
abbrev pub chosen : List String → List MetaRawAccount → List MetaRawAccount
chosen external_ids = filter (λ a. contains external_ids (external_id_of a))

-- The state of the service: the sessions and the tables.
abbrev pub Service : Type 0
Service = Sessions × Store

module _ (id_of : ℕ → String) (seal : String → String) where
  -- `metaImport`
  unfoldable pub meta_import : String → String → List String → ℕ → Service → Service × Answer
  meta_import tenant_id id external_ids now (sessions, s) =
      let (sessions', found) = get_session id now sessions in
      elim found [
        | none ↦ ((sessions', s), imported 0)
        | some m ↦
            if m.tenant_id == tenant_id
            then (
              (
                delete_session id sessions',
                import_meta_accounts id_of seal tenant_id now m.token
                    (chosen external_ids m.accounts) s,
              ),
              imported (length (chosen external_ids m.accounts)),
            )
            else ((sessions', s), imported 0)
      ]

-- Where `metaCallback` sends the browser.
pub data Redirect : Type 0 where
  picker : String → Redirect
  failed : Redirect

-- What the tables of the token's signer say of a state: the tenant that it was signed for, or that it
-- does not verify.
module _ (settings : Settings) (graph : Graph) (verify : String → Option String) where
  -- The body of the `try` of `metaCallback` past the test of the state.
  unfoldable pub open_picker : String → String → String → ℕ → Sessions → Sessions × Redirect
  open_picker session_id code tenant_id now sessions =
      elim (exchange_meta_code settings graph code) [
        | err e ↦ (sessions, failed)
        | ok token ↦ elim (list_meta_accounts graph token) [
          | err e ↦ (sessions, failed)
          | ok accounts ↦
              (create_session session_id token tenant_id accounts now sessions, picker session_id)
        ]
      ]

  -- `metaCallback`: the code and the state of the request, and the state of the cookie.
  unfoldable pub meta_callback :
      String → Option String → Option String → Option String → ℕ → Sessions → Sessions × Redirect
  meta_callback session_id none state cookie_state now sessions = (sessions, failed)
  meta_callback session_id (some code) none cookie_state now sessions = (sessions, failed)
  meta_callback session_id (some code) (some state) cookie_state now sessions =
      if not (code == "") && (not (state == "") && is_text cookie_state state)
      then (elim (verify state) [
        | none ↦ (sessions, failed)
        | some tenant_id ↦ open_picker session_id code tenant_id now sessions
      ])
      else (sessions, failed)
