-- ===== src/Jobs/Settled.antt =====
-- How a job of apps/api/src/connectors/crm/crm-sync.processor.ts leaves its connection.
use ad_link.Common.{
  ℕ, Option, some, String, Text, ◌≡◌, ◌⊎◌, inl, inr, refl, ◌==◌, string_eq, find?, get_or,
  Option-cases,
}
use ad_link.Core.Enums.{CrmProvider}
use ad_link.CrmSync.{CrmConnector}
use ad_link.CrmSync
use ad_link.CrmSync.Runs.{IsSettled, sync-IsSettled}
use ad_link.Jobs.{process_crm}

module _ (id_of : ℕ → String) (retrieve : String → Option String) (sha256 : Text → Text)
    (resolve : CrmProvider → String → String → ℕ → Option CrmConnector) where
  -- A job on a connection never leaves it RUNNING, whatever the vault, the registry and the platform
  -- do: either it writes nothing, or the connection and the run are OK where it returns and FAILED
  -- where it throws.
  pub process_crm-IsSettled :
      (id : String) (now : ℕ) (s : CrmSync.Store)
      → let r = process_crm id_of retrieve sha256 resolve id now s in
        (r.0 ≡ s) ⊎ IsSettled id (id_of s.drawn) r
  unfolding process_crm
  process_crm-IsSettled id now s = elim (Option-cases (find? (λ c. c.id == id) s.connections)) [
    | inl e ↦ rw (e, process_crm) (inl refl)
    | inr (c, e) ↦ elim (Option-cases (retrieve c.auth_ref)) [
      | inl k ↦ rw (e, k, process_crm) (inl refl)
      | inr (auth, k) ↦
          elim (Option-cases
            (resolve c.provider c.external_ref auth (get_or c.last_sync_at c.created_at))) [
              | inl j ↦ rw (e, k, j, process_crm) (inl refl)
              | inr (connector, j) ↦
                  rw (e, k, j, process_crm)
                    (inr (
                      sync-IsSettled sha256 id_of c.tenant_id connector id (some c.created_at) now
                        s))
            ]
    ]
  ]
