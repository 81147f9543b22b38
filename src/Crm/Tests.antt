-- ===== src/Crm/Tests.antt =====
-- Runs of the models of apps/api/src/crm on two connections of one tenant.
use ad_link.Common.{
  false, none, some, String, List, [], ◌∷◌, ◌≡◌, ◌≢◌, ◌⊎◌, inl, inr, refl, All, Elem, ◌==◌,
  string_eq, lookup, dict_of, insert, eq_iff, arith,
}
use ad_link.Core.Enums.{CanonicalStatus, lead, qualified, won, lost, CrmProvider, SyncState}
use ad_link.Db.{Deal, CrmConnection, StageMapping}
use ad_link.Crm.{
  Mapping, rollup_canonical, MappingInput, Store, upsert_mapping, upsert_mappings, mappings_of,
  mapping_of, recanonicalize, set_mappings, ok,
}
use ad_link.Crm.Rollup.{
  IsRolledUp, rollup_canonical-IsRolledUp, rollup_canonical-won, rollup_canonical-qualified,
}
use ad_link.Crm.Mappings.{Agrees, set_mappings-Agrees, set_mappings-Elem, recanonicalize_unmapped}

abbrev mapping : Mapping
mapping = ("n", lead) ∷ ("q", qualified) ∷ ("w", won) ∷ ("l", lost) ∷ []

-- A deal that was won and moved on counts as won, one that was qualified and lost as qualified.
rollup_won : rollup_canonical ("l" ∷ "w" ∷ []) mapping "l" ≡ won
unfolding rollup_canonical lookup
rollup_won = refl

rollup_qualified : rollup_canonical ("l" ∷ "q" ∷ []) mapping "l" ≡ qualified
unfolding rollup_canonical lookup
rollup_qualified = refl

rollup_lost : rollup_canonical ("l" ∷ "n" ∷ []) mapping "l" ≡ lost
unfolding rollup_canonical lookup
rollup_lost = refl

rollup_canonical-IsRolledUp_example :
    IsRolledUp ("l" ∷ "w" ∷ []) mapping "l" (rollup_canonical ("l" ∷ "w" ∷ []) mapping "l")
rollup_canonical-IsRolledUp_example =
    rollup_canonical-IsRolledUp ("l" ∷ "w" ∷ []) mapping "l" (inl refl)

won_stage : rollup_canonical ("w" ∷ []) mapping "w" ≡ won
unfolding rollup_canonical lookup
won_stage = refl

rollup_canonical-won_run : rollup_canonical ("w" ∷ "l" ∷ []) mapping "l" ≡ won
rollup_canonical-won_run =
    rollup_canonical-won ("w" ∷ []) ("l" ∷ []) mapping "w" "l" (inl refl) won_stage

qualified_stage : rollup_canonical ("q" ∷ []) mapping "q" ≡ qualified
unfolding rollup_canonical lookup
qualified_stage = refl

rollup_canonical-qualified_run :
    (rollup_canonical ("q" ∷ "w" ∷ []) mapping "w" ≡ qualified)
    ⊎ (rollup_canonical ("q" ∷ "w" ∷ []) mapping "w" ≡ won)
rollup_canonical-qualified_run =
    rollup_canonical-qualified ("q" ∷ []) ("w" ∷ []) mapping "q" "w" (inl refl) qualified_stage

abbrev a_connection : String → CrmConnection
a_connection id = record {
  id = id;
  tenant_id = "t";
  client_id = "k";
  provider = CrmProvider.bitrix24;
  external_ref = "";
  auth_ref = "";
  revenue_field = none;
  last_sync_at = none;
  sync_state = SyncState.ok;
  created_at = 0;
}

abbrev a_deal : String → String → String → CanonicalStatus → Deal
a_deal id tenant_id stage canonical = record {
  id = id;
  tenant_id = tenant_id;
  contact_id = some "c";
  external_id = id;
  stage_external_id = stage;
  stage_history = [];
  canonical = canonical;
  amount = none;
  currency = none;
  created_at = 0;
  won_at = none;
}

abbrev a_mapping : String → String → CanonicalStatus → StageMapping
a_mapping connection_id stage canonical = record {
  tenant_id = "t";
  crm_connection_id = connection_id;
  external_stage_id = stage;
  external_stage_name = stage;
  canonical = canonical;
}

-- "a" maps its stage "w"; the deal "d2" came from "b".
abbrev store : Store
store = record {
  connections = a_connection "a" ∷ a_connection "b" ∷ [];
  mappings = a_mapping "b" "C1:w" won ∷ [];
  deals = a_deal "d1" "t" "w" lead ∷ a_deal "d2" "t" "C1:w" won ∷ a_deal "d3" "u" "w" lost ∷ [];
}

abbrev input : MappingInput
input = record { external_stage_id = "w"; external_stage_name = "Won"; canonical = won }

abbrev answer : List StageMapping
answer = record (a_mapping "a" "w" won) { external_stage_name = "Won" } ∷ []

abbrev after : Store
after = record {
  connections = store.connections;
  mappings = a_mapping "b" "C1:w" won ∷ answer;
  deals = a_deal "d1" "t" "w" won ∷ a_deal "d2" "t" "C1:w" lead ∷ a_deal "d3" "u" "w" lost ∷ [];
}

-- The deal of the other connection is no longer won.
set_mappings_run : set_mappings "t" "a" (input ∷ []) store ≡ ok after answer
unfolding set_mappings upsert_mappings upsert_mapping recanonicalize rollup_canonical lookup insert
    dict_of
set_mappings_run = refl

set_mappings-Agrees_example : All (Agrees "t" (mapping_of answer)) after.deals
set_mappings-Agrees_example =
    set_mappings-Agrees "t" "a" (input ∷ []) store after answer set_mappings_run

set_mappings-Elem_run : Elem (a_deal "d3" "u" "w" lost) after.deals
set_mappings-Elem_run =
    set_mappings-Elem "t" "a" (input ∷ []) store after answer (a_deal "d3" "u" "w" lost)
      set_mappings_run (inr (inr (inl refl))) (distinct "u" "t" refl)
  where
    distinct : (x y : String) → (x == y) ≡ false → x ≢ y
    distinct x y h = λ e. ground (arith, h, (eq_iff x y).1 e)

unmapped : lookup "C1:w" (mapping_of (mappings_of "t" "a" answer)) ≡ none
unfolding lookup insert dict_of
unmapped = refl

-- The deal stands behind one that the connection maps.
recanonicalize_unmapped_example :
    Elem
      (a_deal "d2" "t" "C1:w" lead)
      (recanonicalize "t" "a" answer (a_deal "d1" "t" "w" lead ∷ a_deal "d2" "t" "C1:w" won ∷ []))
recanonicalize_unmapped_example =
    recanonicalize_unmapped "t" "a" answer
      (a_deal "d1" "t" "w" lead ∷ a_deal "d2" "t" "C1:w" won ∷ []) (a_deal "d2" "t" "C1:w" won)
      (inr (inl refl)) refl (unmapped, (unmapped, tt))
