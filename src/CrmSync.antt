-- ===== src/CrmSync.antt =====
-- apps/api/src/ingest/crm-sync.service.ts with apps/api/src/jobs/sync-run.service.ts: a CRM is pulled
-- into contacts, leads and deals. The connector is a parameter, each of its methods gives its rows or
-- throws (none); the hash and the ids of new rows are parameters too. The database itself does not
-- fail.
mod Rows
pub mod Runs
pub mod Matches
mod Tests
unfoldable pub use Rows.*
use ad_link.Common.{
  ℕ, ◌+◌, ◌*◌, Bool, true, false, ◌&&◌, not, Option, none, some, String, List, [], ◌∷◌, ◌++◌, Text,
  ◌==◌, string_eq, ltb, if◌then◌else◌, get_or, truthy, is_text, any, filter, find?, update_where,
  map, add, lookup, insert,
}
use ad_link.Core.Enums.{CanonicalStatus, LeadSource, MatchStatus, SyncState}
use ad_link.Db.{day_ms, day_of, Ad, Lead, Deal, CrmConnection, StageMapping}
use ad_link.Crm.{Mapping, mapping_of, rollup_canonical}
use ad_link.Contacts.{RawPerson, resolve}
use ad_link.Matching.{match_unmatched}

module _ (sha256 : Text → Text) (id_of : ℕ → String) (tenant_id : String) where
  -- `this.contacts.resolve`, with a fresh id at hand.
  unfoldable pub resolve_person : RawPerson → Store → Store × Option String
  resolve_person person s =
      let (contacts, id) = resolve sha256 tenant_id person (id_of s.drawn) s.contacts in
      (record s { contacts = contacts; drawn = s.drawn + 1 }, id)

  unfoldable pub sync_contacts :
      List RawContact → List (String × String) → Store → Store × List (String × String)
  sync_contacts [] m s = (s, m)
  sync_contacts (c ∷ cs) m s =
      let (s', id) = resolve_person c.person s in
      sync_contacts cs (if truthy id then insert c.external_id (get_or id "") m else m) s'

  unfoldable pub upsert_lead : RawLead → Store → Store
  upsert_lead raw s =
      if truthy raw.external_id
      then (let (s', contact_id) = resolve_person raw.person s in
          let ad_id = seeded_ad tenant_id raw s'.matching.ads in
          let leads = put_lead tenant_id (id_of s'.drawn) raw contact_id ad_id s'.matching.leads in
          record s' { matching = record s'.matching { leads = leads }; drawn = s'.drawn + 1 })
      else s

  unfoldable pub sync_leads : Option ℕ → List RawLead → Store → Store
  sync_leads floor [] s = s
  sync_leads floor (l ∷ ls) s =
      sync_leads floor ls (if before floor l.created_at then s else upsert_lead l s)

  unfoldable pub upsert_deal :
      Mapping → List (String × String) → List (String × List String) → RawDeal → Store → Store
  upsert_deal mapping contacts history raw s =
      let stages =
        add_all (raw.stage_external_id ∷ []) (get_or (lookup raw.external_id history) []) in
      let canonical = rollup_canonical stages mapping raw.stage_external_id in
      let contact_id : Option String =
        if truthy raw.contact_external_id
        then lookup (get_or raw.contact_external_id "") contacts
        else none in
      record s {
        deals = put_deal tenant_id (id_of s.drawn) raw canonical contact_id stages s.deals;
        drawn = s.drawn + 1;
      }

  unfoldable pub sync_deals :
      Option ℕ
      → Mapping
      → List (String × String)
      → List (String × List String)
      → List RawDeal
      → Store
      → Store
  sync_deals floor mapping contacts history [] s = s
  sync_deals floor mapping contacts history (d ∷ ds) s =
      sync_deals floor mapping contacts history ds
        (if before floor d.created_at then s else upsert_deal mapping contacts history d s)

  -- `matchUnmatched` on the synced leads.
  abbrev pub match_synced : Store → Store
  match_synced s = record s { matching = (match_unmatched tenant_id s.matching).0 }

  -- From the history on.
  unfoldable pub pull_deals :
      Option ℕ → Mapping → List (String × String) → CrmConnector → Store → Store × Bool
  pull_deals floor mapping contacts connector s = elim (get_or connector.history (some [])) [
    | none ↦ (s, false)
    | some rows ↦ elim connector.deals [
      | none ↦ (s, false)
      | some deals ↦
          (match_synced (sync_deals floor mapping contacts (add_history rows []) deals s), true)
    ]
  ]

  -- What stands in the `try`; `false` says that a method of the connector threw.
  unfoldable pub pull : Option ℕ → Mapping → CrmConnector → Store → Store × Bool
  pull floor mapping connector s = elim connector.contacts [
    | none ↦ (s, false)
    | some rows ↦
        let (s', contacts) = sync_contacts rows [] s in
        elim connector.leads [
          | none ↦ (s', false)
          | some leads ↦ pull_deals floor mapping contacts connector (sync_leads floor leads s')
        ]
  ]

  -- `SyncRunService.start`, and the connection is marked as running.
  unfoldable pub begin : String → Store → Store
  begin id s = record s {
    runs =
        s.runs
        ++ record {
          id = id_of s.drawn;
          tenant_id = tenant_id;
          kind = "crm_sync";
          state = SyncState.running;
        }
          ∷ [];
    connections = set_sync_state id SyncState.running s.connections;
    drawn = s.drawn + 1;
  }

  -- The end of the `try`, or the `catch`; an update of a connection that is gone throws.
  unfoldable pub settle : String → String → ℕ → Store × Bool → Store × Bool
  settle id run now (s, fine) =
      if fine && any (λ c. c.id == id) s.connections
      then (
        record s {
          connections = set_synced id now s.connections;
          runs = finish run SyncState.ok s.runs;
        },
        true,
      )
      else (
        record s {
          connections = set_sync_state id SyncState.failed s.connections;
          runs = finish run SyncState.failed s.runs;
        },
        false,
      )

  -- The whole sync; `false` says that it throws.
  unfoldable pub sync : CrmConnector → String → Option ℕ → ℕ → Store → Store × Bool
  sync connector id floor now s =
      settle id (id_of s.drawn) now
        (pull (floor_day floor) (load_mappings id s.mappings) connector (begin id s))
