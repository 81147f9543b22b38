-- ===== src/Clients.antt =====
-- apps/api/src/clients/clients.service.ts: the clients of a tenant. That two names are the same but for
-- their case is a parameter, the comparison of the database. The accounts and the connections of a
-- client that is removed go with it (`onDelete: Cascade`).
pub mod Isolation
mod Tests
use ad_link.Common.{
  ℕ, ◌+◌, Bool, ◌&&◌, not, none, some, String, List, [], ◌∷◌, ◌++◌, ◌==◌, string_eq, leb, filter,
  find?, sort,
}
use ad_link.Db.{CrmConnection}
use ad_link.AdAccounts.{Client, Account}

pub record Store : Type 0 where
  pub clients : List Client
  pub accounts : List Account
  pub connections : List CrmConnection
  pub drawn : ℕ

pub data Answer : Type 0 where
  created : Client → Answer
  conflict removed not_found : Answer

abbrev pub newest_client : Client → Client → Bool
newest_client a b = leb b.created_at a.created_at

-- `list`
unfoldable pub list_clients : String → Store → List Client
list_clients tenant_id s = sort newest_client (filter (λ c. c.tenant_id == tenant_id) s.clients)

-- A client of the tenant with this name.
abbrev pub is_named : (String → String → Bool) → String → String → Client → Bool
is_named same_name tenant_id name c = c.tenant_id == tenant_id && same_name c.name name

abbrev pub is_own_client : String → String → Client → Bool
is_own_client tenant_id id c = c.id == id && c.tenant_id == tenant_id

-- `create`
unfoldable pub create_client :
    (ℕ → String) → (String → String → Bool) → String → ℕ → String → Store → Store × Answer
create_client id_of same_name tenant_id now name s =
    elim (find? (is_named same_name tenant_id name) s.clients) [
      | some c ↦ (s, conflict)
      | none ↦
          let c : Client = record {
            id = id_of s.drawn;
            tenant_id = tenant_id;
            name = name;
            created_at = now;
          } in
          (record s { clients = s.clients ++ c ∷ []; drawn = s.drawn + 1 }, created c)
    ]

-- `remove`
unfoldable pub remove_client : String → String → Store → Store × Answer
remove_client tenant_id id s = elim (find? (is_own_client tenant_id id) s.clients) [
  | none ↦ (s, not_found)
  | some c ↦ (
    record s {
      clients = filter (λ b. not (b.id == id)) s.clients;
      accounts = filter (λ a. not (a.client_id == id)) s.accounts;
      connections = filter (λ x. not (x.client_id == id)) s.connections;
    },
    removed,
  )
]
