-- ===== src/MetaSync/Run.antt =====
-- `sync` of apps/api/src/ingest/meta-sync.service.ts, with its `try` and `catch`.
use ad_link.Common.{
  ℕ, Bool, true, false, ◌&&◌, Option, none, some, String, List, ◌==◌, string_eq, if◌then◌else◌,
  get_or, any, update_where,
}
use ad_link.Core.Enums.{SyncState}
use ad_link.MetaSync.{AccountSync, Store, AdConnector, trailing_range, floored, upsert_insights}
use ad_link.MetaSync.Hierarchy.{upsert_hierarchy}

module _ (id_of : ℕ → String) (tenant_id : String) where
  -- What stands in the `try` before the account is updated; `false` says that it throws.
  unfoldable pub pull : AdConnector → String → ℕ → Option ℕ → ℕ → Store → Store × Bool
  pull connector account_id trailing_days connected now s = elim connector.hierarchy [
    | none ↦ (s, false)
    | some campaigns ↦
        let s' = upsert_hierarchy id_of tenant_id account_id campaigns s in
        elim (connector.insights (floored connected (trailing_range trailing_days now))) [
          | none ↦ (s', false)
          | some raws ↦ (upsert_insights tenant_id account_id connected raws s', true)
        ]
  ]

  abbrev pub set_account : String → SyncState → List AccountSync → List AccountSync
  set_account id state = update_where (λ a. a.id == id) (λ a. record a { sync_state = state })

  -- The whole sync but the rows of its run, `trailingDays` being 28 where it is not given; an update
  -- of an account that is gone throws.
  unfoldable pub sync : AdConnector → String → Option ℕ → Option ℕ → ℕ → Store → Store × Bool
  sync connector account_id trailing_days connected now s =
      let (s', fine) =
        pull connector account_id (get_or trailing_days 28) connected now
          (record s { accounts = set_account account_id SyncState.running s.accounts }) in
      if fine && any (λ a. a.id == account_id) s'.accounts
      then (
        record s' {
          accounts =
              update_where (λ a. a.id == account_id)
                (λ a. record a { last_sync_at = some now; sync_state = SyncState.ok }) s'.accounts;
        },
        true,
      )
      else (record s' { accounts = set_account account_id SyncState.failed s'.accounts }, false)
