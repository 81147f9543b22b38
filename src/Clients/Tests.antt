-- ===== src/Clients/Tests.antt =====
-- The clients of two tenants, of apps/api/src/clients/clients.service.ts.
use ad_link.Common.{[], ◌∷◌, ◌≡◌, refl, ◌==◌, string_eq}
use ad_link.Clients.{Store, conflict, not_found, create_client, remove_client}

abbrev store : Store
store = record {
  clients =
      record { id = "a"; tenant_id = "t"; name = "A"; created_at = 0 }
      ∷ record { id = "b"; tenant_id = "u"; name = "B"; created_at = 0 }
      ∷ [];
  accounts = [];
  connections = [];
  drawn = 0;
}

-- A name is taken within a tenant only, and the client of another tenant is not found.
create_client_run : (create_client (λ n. "id") (λ x y. x == y) "t" 5 "A" store).1 ≡ conflict
unfolding create_client
create_client_run = refl

remove_client_run : remove_client "t" "b" store ≡ (store, not_found)
unfolding remove_client
remove_client_run = refl
