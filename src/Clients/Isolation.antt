-- ===== src/Clients/Isolation.antt =====
-- What apps/api/src/clients/clients.service.ts leaves alone when a client is removed, and the names of
-- the clients.
use ad_link.Common.{
  true, String, List, ◌≡◌, refl, ◌==◌, string_eq, find?, find?-Elem, map, Option-cases, IsDistinct,
  inl, inr, Elem, arith, eq_iff, subst,
}
use ad_link.Db.{CrmConnection}
use ad_link.Tenancy
use ad_link.Tenancy.{foreign-filter, find?-IsOwnWhere}
use ad_link.AdAccounts.{Client, Account}
use ad_link.AdAccounts.Isolation.{foreign}
use ad_link.Crm.Connections.Isolation.{foreign_connections}
use ad_link.Clients.{Store, is_own_client, remove_client}

abbrev client_tenant : Client → String
client_tenant c = c.tenant_id

abbrev pub foreign_clients : String → List Client → List Client
foreign_clients = Tenancy.foreign (λ c. c.id) client_tenant

-- What hangs on a client is of the tenant whose client it is.
pub record IsOwned (s : Store) : Type 0 where
  pub of_accounts :
      (t : String) (c : Client)
      → Elem c s.clients
      → (c.tenant_id == t) ≡ true
      → Tenancy.IsOwnWhere {A = Account}
          (λ a. a.id)
          (λ a. a.tenant_id)
          t
          (λ a. a.client_id == c.id)
          s.accounts
  pub of_connections :
      (t : String) (c : Client)
      → Elem c s.clients
      → (c.tenant_id == t) ≡ true
      → Tenancy.IsOwnWhere {A = CrmConnection}
          (λ a. a.id)
          (λ a. a.tenant_id)
          t
          (λ a. a.client_id == c.id)
          s.connections

-- A tenant that removes a client removes nothing of another tenant: no client, and, where every
-- account and connection is of the tenant of its client, no account and no connection that goes with
-- it. The ids of the clients are unique.
pub remove_client-isolated :
    (t id : String) (s : Store)
    → IsDistinct (map (λ c. c.id) s.clients)
    → IsOwned s
    → let s' = (remove_client t id s).0 in
      (foreign_clients t s'.clients ≡ foreign_clients t s.clients)
      × (foreign t s'.accounts ≡ foreign t s.accounts)
      × (foreign_connections t s'.connections ≡ foreign_connections t s.connections)
unfolding remove_client
remove_client-isolated t id s d own = elim (Option-cases (find? (is_own_client t id) s.clients)) [
  | inl e ↦ rw (e, remove_client) (refl, refl, refl)
  | inr (c, e) ↦
      let (there, mine) = find?-Elem (is_own_client t id) c s.clients e in
      let same : c.id ≡ id = (eq_iff c.id id).0 (ground (arith, mine)) in
      let tenant : (c.tenant_id == t) ≡ true = ground (arith, mine) in
      let accounts =
        subst
          (λ i.
            Tenancy.IsOwnWhere {A = Account} (λ a. a.id) (λ a. a.tenant_id) t
              (λ a. a.client_id == i) s.accounts)
          same (own.of_accounts t c there tenant) in
      let connections =
        subst
          (λ i.
            Tenancy.IsOwnWhere {A = CrmConnection} (λ a. a.id) (λ a. a.tenant_id) t
              (λ a. a.client_id == i) s.connections)
          same (own.of_connections t c there tenant) in
      rw (e, remove_client)
        (
          foreign-filter (λ c. c.id) client_tenant t _ s.clients
              (find?-IsOwnWhere (λ c. c.id) client_tenant t id s.clients c d e),
          foreign-filter (λ a. a.id) (λ a. a.tenant_id) t _ s.accounts accounts,
          foreign-filter (λ a. a.id) (λ a. a.tenant_id) t _ s.connections connections,
        )
]
