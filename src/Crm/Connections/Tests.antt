-- ===== src/Crm/Connections/Tests.antt =====
-- The connections of two tenants, of apps/api/src/crm/crm.service.ts, at concrete inputs.
use ad_link.Common.{none, String, [], ◌∷◌, ◌≡◌, refl, string_eq}
use ad_link.Core.Enums.{CrmProvider, SyncState}
use ad_link.Db.{CrmConnection}
use ad_link.Crm.Connections.{Store, not_found, removed, remove_connection, delete_crm, serve_crm}
use ad_link.Crm.Connections.Isolation.{foreign_connections, IsQueued, serve_crm-isolated}

abbrev a_connection : String → String → CrmConnection
a_connection id tenant_id = record {
  id = id;
  tenant_id = tenant_id;
  client_id = "k";
  provider = CrmProvider.bitrix24;
  external_ref = id;
  auth_ref = "";
  revenue_field = none;
  last_sync_at = none;
  sync_state = SyncState.ok;
  created_at = 0;
}

abbrev store : Store
store = record {
  connections = a_connection "a" "t" ∷ a_connection "b" "u" ∷ [];
  tables = record { accounts = []; clients = []; queue = []; drawn = 0 };
  queue = [];
}

-- A connection of another tenant is not found, and one's own is removed.
remove_foreign_run : remove_connection "t" "b" store ≡ (store, not_found)
unfolding remove_connection
remove_foreign_run = refl

remove_run : (remove_connection "t" "a" store).1 ≡ removed
unfolding remove_connection
remove_run = refl

serve_crm-isolated_example :
    let s' = (serve_crm (λ n. "id") (λ x. x) "t" 5 (delete_crm "a") store).0 in
    (foreign_connections "t" s'.connections ≡ foreign_connections "t" store.connections)
    × IsQueued (λ n. "id") (λ x. x) "t" 5 store s'
serve_crm-isolated_example =
    serve_crm-isolated (λ n. "id") (λ x. x) "t" 5 (delete_crm "a") store (refl, (refl, tt))
