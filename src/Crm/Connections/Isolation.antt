-- ===== src/Crm/Connections/Isolation.antt =====
-- What the requests of apps/api/src/crm/crm.controller.ts on connections leave alone, and what they
-- queue.
use ad_link.Common.{
  ℕ, String, List, [], ◌∷◌, ◌++◌, ◌≡◌, refl, string_eq, any, find?, map, Bool-cases, Option-cases,
  IsDistinct, inl, inr, ap, arith, eq_iff, find?-Elem, Elem, Elem-append_right,
}
use ad_link.Core.Enums.{CrmProvider}
use ad_link.Db.{CrmConnection}
use ad_link.Tenancy
use ad_link.Tenancy.{foreign-filter, foreign-snoc, find?-IsOwnWhere}
use ad_link.AdAccounts.{client_of}
use ad_link.Crm.Connections.{
  Store, ConnectCrm, is_connection, is_own_connection, connect_crm, new_connection,
  trigger_crm_sync, remove_connection, Request, connect_bitrix, connect_amocrm, sync_crm,
  delete_crm, serve_crm,
}

abbrev connection_tenant : CrmConnection → String
connection_tenant c = c.tenant_id

abbrev pub foreign_connections : String → List CrmConnection → List CrmConnection
foreign_connections = Tenancy.foreign (λ c. c.id) connection_tenant

module _ (id_of : ℕ → String) (seal : String → String) (t : String) (now : ℕ) where
  connect_crm-foreign :
      (provider : CrmProvider) (dto : ConnectCrm) (s : Store)
      → foreign_connections t (connect_crm id_of seal t now provider dto s).0.connections
        ≡ foreign_connections t s.connections
  unfolding connect_crm
  connect_crm-foreign provider dto s =
      elim (Bool-cases (any (is_connection provider dto.external_ref) s.connections)) [
        | inl e ↦ rw (e, connect_crm) refl
        | inr e ↦
            rw (e, connect_crm) (foreign-snoc (λ c. c.id) connection_tenant t s.connections _ refl)
      ]

  remove_connection-foreign :
      (id : String) (s : Store)
      → IsDistinct (map (λ c. c.id) s.connections)
      → foreign_connections t (remove_connection t id s).0.connections
        ≡ foreign_connections t s.connections
  unfolding remove_connection
  remove_connection-foreign id s d =
      elim (Option-cases (find? (is_own_connection t id) s.connections)) [
        | inl e ↦ rw (e, remove_connection)
        | inr (c, e) ↦
            rw (e, remove_connection)
              (foreign-filter (λ c. c.id) connection_tenant t _ s.connections
                (find?-IsOwnWhere (λ c. c.id) connection_tenant t id s.connections c d e))
      ]

  trigger_crm_sync-connections :
      (id : String) (s : Store) → (trigger_crm_sync t id s).0.connections ≡ s.connections
  unfolding trigger_crm_sync
  trigger_crm_sync-connections id s =
      elim (Option-cases (find? (is_own_connection t id) s.connections)) [
        | inl e ↦ rw (e, trigger_crm_sync)
        | inr (c, e) ↦ rw (e, trigger_crm_sync)
      ]

  -- At most one job is queued, for a connection of the tenant that is in the table.
  pub data IsQueued (before : Store) : Store → Type 0 where
    unqueued : {after : Store} → after.queue ≡ before.queue → IsQueued before after
    queued :
        {after : Store} (c : CrmConnection)
        → Elem c after.connections
        → c.tenant_id ≡ t
        → after.queue ≡ before.queue ++ c.id ∷ []
        → IsQueued before after

  connect_crm-IsQueued :
      (provider : CrmProvider) (dto : ConnectCrm) (s : Store)
      → IsQueued s (connect_crm id_of seal t now provider dto s).0
  unfolding connect_crm new_connection
  connect_crm-IsQueued provider dto s =
      elim (Bool-cases (any (is_connection provider dto.external_ref) s.connections)) [
        | inl e ↦ rw (e, connect_crm) (unqueued refl)
        | inr e ↦
            let (tables, client_id) = client_of id_of seal t now dto.client_id s.tables in
            let created =
              new_connection id_of seal t now (id_of tables.drawn) client_id provider dto in
            let there = Elem-append_right created s.connections (created ∷ []) (inl refl) in
            rw (e, connect_crm) (queued created there refl refl)
      ]

  trigger_crm_sync-IsQueued : (id : String) (s : Store) → IsQueued s (trigger_crm_sync t id s).0
  unfolding trigger_crm_sync
  trigger_crm_sync-IsQueued id s =
      elim (Option-cases (find? (is_own_connection t id) s.connections)) [
        | inl e ↦ rw (e, trigger_crm_sync) (unqueued refl)
        | inr (c, e) ↦
            let (there, own) = find?-Elem (is_own_connection t id) c s.connections e in
            rw (e, trigger_crm_sync)
              (queued c there ((eq_iff c.tenant_id t).0 (ground (arith, own))) refl)
      ]

  remove_connection-IsQueued : (id : String) (s : Store) → IsQueued s (remove_connection t id s).0
  unfolding remove_connection
  remove_connection-IsQueued id s =
      elim (Option-cases (find? (is_own_connection t id) s.connections)) [
        | inl e ↦ rw (e, remove_connection) (unqueued refl)
        | inr (c, e) ↦ rw (e, remove_connection) (unqueued refl)
      ]

  -- Whatever a tenant asks of its CRM connections, those of the other tenants stay as they are, and the
  -- request queues at most one sync, of a connection of the tenant. The ids of the connections are
  -- unique.
  pub serve_crm-isolated :
      (r : Request) (s : Store)
      → IsDistinct (map (λ c. c.id) s.connections)
      → let s' = (serve_crm id_of seal t now r s).0 in
        (foreign_connections t s'.connections ≡ foreign_connections t s.connections) × IsQueued s s'
  unfolding serve_crm
  serve_crm-isolated (connect_bitrix dto) s d = (
    connect_crm-foreign CrmProvider.bitrix24 dto s,
    connect_crm-IsQueued CrmProvider.bitrix24 dto s,
  )
  serve_crm-isolated (connect_amocrm dto) s d =
      (connect_crm-foreign CrmProvider.amocrm dto s, connect_crm-IsQueued CrmProvider.amocrm dto s)
  serve_crm-isolated (sync_crm id) s d = (
    ap (foreign_connections t) (trigger_crm_sync-connections id s),
    trigger_crm_sync-IsQueued id s,
  )
  serve_crm-isolated (delete_crm id) s d =
      (remove_connection-foreign id s d, remove_connection-IsQueued id s)
