-- ===== src/Jobs.antt =====
-- The jobs of the queues: apps/api/src/connectors/crm/crm-sync.processor.ts and
-- apps/api/src/connectors/meta/meta.processor.ts, which run a sync for a connection or an account, and
-- the click that apps/api/src/matching/capture.service.ts records. The vault's `retrieve` (`none` where
-- it throws) and what a platform answers to an address and a secret are parameters.
pub mod Settled
mod Tests
use ad_link.Common.{
  ℕ, ◌+◌, Bool, true, false, ◌&&◌, Option, none, some, String, List, [], ◌∷◌, ◌++◌, Text, ◌==◌,
  string_eq, if◌then◌else◌, get_or, find?, filter, map,
}
use ad_link.Core.Enums.{CrmProvider, TouchType}
use ad_link.Core.Enums
use ad_link.Db.{Ad}
use ad_link.AdAccounts.{Account, is_meta}
use ad_link.CrmSync.{CrmConnector}
use ad_link.CrmSync
use ad_link.MetaSync.{AdConnector}
use ad_link.MetaSync
use ad_link.MetaSync.Run

-- The accounts, what a sync of one writes, and the queue of the syncs.
pub record MetaJobs : Type 0 where
  pub accounts : List Account
  pub synced : MetaSync.Store
  pub queue : List String

module _ (id_of : ℕ → String) (retrieve : String → Option String) where
  -- `CrmSyncProcessor.process`: from the last sync on, or from the connection on, and never before that.
  -- `false` says that the job throws.
  unfoldable pub process_crm :
      (Text → Text)
      → (CrmProvider → String → String → ℕ → Option CrmConnector)
      → String
      → ℕ
      → CrmSync.Store
      → CrmSync.Store × Bool
  process_crm sha256 resolve id now s = elim (find? (λ c. c.id == id) s.connections) [
    | none ↦ (s, true)
    | some c ↦ elim (retrieve c.auth_ref) [
      | none ↦ (s, false)
      | some auth ↦
          elim (resolve c.provider c.external_ref auth (get_or c.last_sync_at c.created_at)) [
            | none ↦ (s, false)
            | some connector ↦
                CrmSync.sync sha256 id_of c.tenant_id connector id (some c.created_at) now s
          ]
    ]
  ]

  -- `enqueueAllAccounts`
  unfoldable pub enqueue_all : MetaJobs → MetaJobs
  enqueue_all s = record s {
    queue = s.queue ++ map (λ a. a.id) (filter (λ a. is_meta a.provider) s.accounts);
  }

  -- A job of the queue `meta-sync`: `none` for 'sync-all', else the account.
  unfoldable pub process_meta :
      (String → String → AdConnector) → Option String → ℕ → MetaJobs → MetaJobs × Bool
  process_meta connect none now s = (enqueue_all s, true)
  process_meta connect (some id) now s = elim (find? (λ a. a.id == id) s.accounts) [
    | none ↦ (s, true)
    | some a ↦ elim (retrieve a.token_ref) [
      | none ↦ (s, false)
      | some token ↦
          let (synced, fine) =
            MetaSync.Run.sync id_of a.tenant_id (connect a.external_id token) id (some 28)
              (some a.created_at) now s.synced in
          (record s { synced = synced }, fine)
    ]
  ]

-- A point of contact, with what the capture sets.
pub record TouchPoint : Type 0 where
  pub tenant_id : String
  pub ad_id : String
  pub type : TouchType
  pub occurred_at : ℕ

pub record Click : Type 0 where
  pub tenant_id : String
  pub ad_external_id : Option String
  pub utm_content : Option String

-- `adExternalId ?? utmContent`
abbrev pub clicked : Click → Option String
clicked dto = elim dto.ad_external_id [ some id ↦ some id | none ↦ dto.utm_content ]

-- `record`: the ads, and the points of contact. The flag is the answer.
unfoldable pub record_click : Click → ℕ → List Ad → List TouchPoint → List TouchPoint × Bool
record_click dto now ads points = elim (clicked dto) [
  | none ↦ (points, false)
  | some external_id ↦
      if external_id == ""
      then (points, false)
      else (elim (find? (λ a. a.tenant_id == dto.tenant_id && a.external_id == external_id) ads) [
        | none ↦ (points, false)
        | some ad ↦
            let point : TouchPoint = record {
              tenant_id = dto.tenant_id;
              ad_id = ad.id;
              type = TouchType.click;
              occurred_at = now;
            } in
            (points ++ point ∷ [], true)
      ])
]
