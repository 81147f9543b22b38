-- ===== src/Crm.antt =====
-- apps/api/src/crm/canonical.ts, and the stage mappings of apps/api/src/crm/crm.service.ts. The
-- service's queries run in the tenant of the request, `tenant_id`.
use ad_link.Common.{
  ℕ, Bool, true, false, ◌&&◌, not, Option, none, some, String, List, [], ◌∷◌, ◌++◌, ◌==◌, string_eq,
  if◌then◌else◌, get_or, filter, find?, update_where, any, map, lookup, dict_of,
}
use ad_link.Core.Enums.{CanonicalStatus, lead, qualified, won, is_won, is_qualified}
use ad_link.Db.{Deal, CrmConnection, StageMapping}
pub mod Rollup
pub mod Mappings
pub mod Connections
mod Tests

-- A map from the CRM's stages to the canonical status.
abbrev pub Mapping : Type 0
Mapping = List (String × CanonicalStatus)

-- `stages.map((s) => mapping.get(s)).filter((c) => !!c)`
abbrev pub keep_status : Option CanonicalStatus → List CanonicalStatus → List CanonicalStatus
keep_status none rest = rest
keep_status (some c) rest = c ∷ rest

unfoldable pub reached : List String → Mapping → List CanonicalStatus
reached [] mapping = []
reached (s ∷ stages) mapping = keep_status (lookup s mapping) (reached stages mapping)

unfoldable pub rollup_canonical : List String → Mapping → String → CanonicalStatus
unfolding reached
rollup_canonical stages mapping current_stage =
    let found = reached stages mapping in
    if any is_won found
    then won
    else if any is_qualified found
    then qualified
    else get_or (lookup current_stage mapping) lead

-- One entry of the request of `setMappings`.
pub record MappingInput : Type 0 where
  pub external_stage_id : String
  pub external_stage_name : String
  pub canonical : CanonicalStatus

pub record Store : Type 0 where
  pub connections : List CrmConnection
  pub mappings : List StageMapping
  pub deals : List Deal

abbrev pub is_mapping : String → String → StageMapping → Bool
is_mapping connection_id stage m =
    m.crm_connection_id == connection_id && m.external_stage_id == stage

-- The `upsert` of one mapping.
unfoldable pub upsert_mapping :
    String → String → MappingInput → List StageMapping → List StageMapping
upsert_mapping tenant_id connection_id m rows =
    if any (is_mapping connection_id m.external_stage_id) rows
    then update_where (is_mapping connection_id m.external_stage_id)
        (λ r. record r { external_stage_name = m.external_stage_name; canonical = m.canonical })
        rows
    else rows
      ++ record {
        tenant_id = tenant_id;
        crm_connection_id = connection_id;
        external_stage_id = m.external_stage_id;
        external_stage_name = m.external_stage_name;
        canonical = m.canonical;
      }
        ∷ []

unfoldable pub upsert_mappings :
    String → String → List MappingInput → List StageMapping → List StageMapping
upsert_mappings tenant_id connection_id [] rows = rows
upsert_mappings tenant_id connection_id (m ∷ ms) rows =
    upsert_mappings tenant_id connection_id ms (upsert_mapping tenant_id connection_id m rows)

-- The mappings of a connection, as the query in the request's tenant returns them.
abbrev pub mappings_of : String → String → List StageMapping → List StageMapping
mappings_of tenant_id connection_id =
    filter (λ r. r.tenant_id == tenant_id && r.crm_connection_id == connection_id)

-- `new Map(rows.map((r) => [r.externalStageId, r.canonical]))`
abbrev pub mapping_of : List StageMapping → Mapping
mapping_of rows = dict_of [] (map (λ r. (r.external_stage_id, r.canonical)) rows)

-- The stages that count for a deal: its history, or its stage if there is none.
abbrev pub stages_of : Deal → List String
stages_of d = elim d.stage_history [ [] ↦ d.stage_external_id ∷ [] | s ∷ ss ↦ s ∷ ss ]

abbrev pub recanonicalized : Mapping → Deal → Deal
recanonicalized mapping d = record d {
  canonical = rollup_canonical (stages_of d) mapping d.stage_external_id;
}

unfoldable pub recanonicalize : String → String → List StageMapping → List Deal → List Deal
recanonicalize tenant_id connection_id rows deals =
    let mapping = mapping_of (mappings_of tenant_id connection_id rows) in
    update_where (λ d. d.tenant_id == tenant_id) (recanonicalized mapping) deals

pub data Result : Type 0 where
  ok : Store → List StageMapping → Result
  not_found : Result

unfoldable pub set_mappings : String → String → List MappingInput → Store → Result
set_mappings tenant_id id inputs s =
    elim (find? (λ c. c.id == id && c.tenant_id == tenant_id) s.connections) [
      | none ↦ not_found
      | some conn ↦
          let rows = upsert_mappings conn.tenant_id id inputs s.mappings in
          ok (record s { mappings = rows; deals = recanonicalize conn.tenant_id id rows s.deals })
            (mappings_of tenant_id id rows)
    ]
