-- ===== src/Crm/Mappings.antt =====
-- What `setMappings` of apps/api/src/crm/crm.service.ts leaves in the database.
use ad_link.Common.{
  Bool, true, false, ◌&&◌, none, String, List, [], ◌∷◌, ◌≡◌, ◌≢◌, ◌⊎◌, inl, inr, refl, arith, Elem,
  Elem-append_left, Elem-update_where, Elem-update_where_hit, any-snoc, All, All-append, any,
  lookup, string_eq, ◌==◌, Bool-cases, Option-cases, ◌∙◌, eq_iff, find?, find?-Elem, update_where,
}
use ad_link.Core.Enums.{lead}
use ad_link.Db.{Deal, CrmConnection, StageMapping}
use ad_link.Crm.{
  Mapping, reached, rollup_canonical, MappingInput, Store, is_mapping, upsert_mapping,
  upsert_mappings, mappings_of, mapping_of, stages_of, recanonicalized, recanonicalize,
  set_mappings, ok,
}

-- The rows before and after against the mapping that is written.
pub record IsUpserted (connection_id : String) (m : MappingInput) (rows rows' : List StageMapping)
    : Type 0 where
  pub there : any (is_mapping connection_id m.external_stage_id) rows' ≡ true
  pub mapped :
      All
        (λ r.
          is_mapping connection_id m.external_stage_id r ≡ true
          → (r.canonical ≡ m.canonical) × (r.external_stage_name ≡ m.external_stage_name))
        rows'
  pub kept :
      (r : StageMapping)
      → Elem r rows
      → is_mapping connection_id m.external_stage_id r ≡ false
      → Elem r rows'

any-update_where :
    (p : StageMapping → Bool) (f : StageMapping → StageMapping) (rows : List StageMapping)
    → ((r : StageMapping) → p (f r) ≡ p r)
    → any p (update_where p f rows) ≡ any p rows
any-update_where p f [] same = refl
any-update_where p f (r ∷ rows) same = ground (arith, same r, any-update_where p f rows same)

All-none :
    (P : StageMapping → Type 0) (p : StageMapping → Bool) (rows : List StageMapping)
    → any p rows ≡ false
    → All (λ r. p r ≡ true → P r) rows
All-none P p [] h = tt
All-none P p (r ∷ rows) h = ((λ e. absurd (ground arith)), All-none P p rows (ground arith))

All-replaced :
    (P : StageMapping → Type 0) (p : StageMapping → Bool) (f : StageMapping → StageMapping)
    (rows : List StageMapping)
    → ((r : StageMapping) → P (f r))
    → All (λ r. p r ≡ true → P r) (update_where p f rows)
All-replaced P p f [] g = tt
All-replaced P p f (r ∷ rows) g =
    let rest = All-replaced P p f rows g in
    elim (Bool-cases (p r)) [
      | inl e ↦ rw e ((λ _. g r), rest)
      | inr e ↦ rw e ((λ t. absurd (cc (t, e))), rest)
    ]

-- After the upsert of a mapping there is a row for the stage of the connection, every such row has
-- the name and the status that were asked for, and every other row is there as before.
pub upsert_mapping-IsUpserted :
    (tenant_id connection_id : String) (m : MappingInput) (rows : List StageMapping)
    → IsUpserted connection_id m rows (upsert_mapping tenant_id connection_id m rows)
unfolding upsert_mapping
upsert_mapping-IsUpserted tenant_id connection_id m rows =
    let p = is_mapping connection_id m.external_stage_id in
    elim (Bool-cases (any p rows)) [
      | inl old ↦ rw old (record {
        there = any-update_where p _ rows (λ r. refl) ∙ old;
        mapped =
            All-replaced
              (λ r. (r.canonical ≡ m.canonical) × (r.external_stage_name ≡ m.external_stage_name)) p
              _ rows (λ r. (refl, refl));
        kept = λ r k e. Elem-update_where p _ r rows k e;
      })
      | inr new ↦ rw new (record {
        there = any-snoc p rows _ (
            ground (
              arith,
              eq_iff connection_id connection_id,
              eq_iff m.external_stage_id m.external_stage_id,
            ));
        mapped =
            All-append _ rows _
              (All-none
                (λ r. (r.canonical ≡ m.canonical) × (r.external_stage_name ≡ m.external_stage_name))
                p rows new)
              ((λ _. (refl, refl)), tt);
        kept = λ r k e. Elem-append_left r rows _ k;
      })
    ]

-- A deal of the tenant agrees with the mappings of the connection.
abbrev pub Agrees : String → Mapping → Deal → Type 0
Agrees tenant_id mapping d =
    (d.tenant_id ≢ tenant_id)
    ⊎ (d.canonical ≡ rollup_canonical (stages_of d) mapping d.stage_external_id)

recanonicalize-Agrees :
    (tenant_id : String) (mapping : Mapping) (deals : List Deal)
    → All
        (Agrees tenant_id mapping)
        (update_where (λ d. d.tenant_id == tenant_id) (recanonicalized mapping) deals)
recanonicalize-Agrees tenant_id mapping [] = tt
recanonicalize-Agrees tenant_id mapping (d ∷ deals) =
    let rest = recanonicalize-Agrees tenant_id mapping deals in
    elim (Bool-cases (d.tenant_id == tenant_id)) [
      | inl e ↦ rw e (inr refl, rest)
      | inr e ↦ rw e (inl (λ same. ground (arith, eq_iff d.tenant_id tenant_id)), rest)
    ]

set_mappings-ok :
    (tenant_id id : String) (inputs : List MappingInput) (s t : Store) (rows : List StageMapping)
    → set_mappings tenant_id id inputs s ≡ ok t rows
    → t.deals
      ≡ update_where (λ d. d.tenant_id == tenant_id) (recanonicalized (mapping_of rows)) s.deals
unfolding set_mappings recanonicalize
set_mappings-ok tenant_id id inputs s t rows e =
    let p = λ (c : CrmConnection). c.id == id && c.tenant_id == tenant_id in
    elim (Option-cases (find? p s.connections)) [
      | inl miss ↦ absurd (cc (rw (miss, set_mappings) at e))
      | inr (conn, hit) ↦
          let own : conn.tenant_id ≡ tenant_id =
            ground
              (arith, (find?-Elem p conn s.connections hit).1, eq_iff conn.tenant_id tenant_id) in
          let table = upsert_mappings conn.tenant_id id inputs s.mappings in
          let answer : mappings_of tenant_id id table ≡ rows = cc (rw (hit, set_mappings) at e) in
          let deals : recanonicalize conn.tenant_id id table s.deals ≡ t.deals =
            cc (rw (hit, set_mappings) at e) in
          rw (← answer, ← deals, own)
    ]

-- Where `setMappings` succeeds, every deal that it leaves is another tenant's or has the status that
-- its stages and the mappings in the answer give it.
pub set_mappings-Agrees :
    (tenant_id id : String) (inputs : List MappingInput) (s t : Store) (rows : List StageMapping)
    → set_mappings tenant_id id inputs s ≡ ok t rows
    → All (Agrees tenant_id (mapping_of rows)) t.deals
set_mappings-Agrees tenant_id id inputs s t rows e =
    rw (set_mappings-ok tenant_id id inputs s t rows e)
      (recanonicalize-Agrees tenant_id (mapping_of rows) s.deals)

-- Where `setMappings` succeeds, the deals of other tenants are there unchanged.
pub set_mappings-Elem :
    (tenant_id id : String) (inputs : List MappingInput) (s t : Store) (rows : List StageMapping)
    (d : Deal)
    → set_mappings tenant_id id inputs s ≡ ok t rows
    → Elem d s.deals
    → d.tenant_id ≢ tenant_id
    → Elem d t.deals
set_mappings-Elem tenant_id id inputs s t rows d e k other =
    rw (set_mappings-ok tenant_id id inputs s t rows e) (
      Elem-update_where (λ x. x.tenant_id == tenant_id) (recanonicalized (mapping_of rows)) d
        s.deals k (ground (arith, eq_iff d.tenant_id tenant_id)))

reached-unmapped :
    (stages : List String) (mapping : Mapping)
    → All (λ s. lookup s mapping ≡ none) stages
    → reached stages mapping ≡ []
unfolding reached
reached-unmapped [] mapping h = refl
reached-unmapped (s ∷ stages) mapping (p, h) = rw (p, reached-unmapped stages mapping h)

rollup_canonical-unmapped :
    (stages : List String) (mapping : Mapping) (current : String)
    → All (λ s. lookup s mapping ≡ none) stages
    → lookup current mapping ≡ none
    → rollup_canonical stages mapping current ≡ lead
unfolding rollup_canonical
rollup_canonical-unmapped stages mapping current h e = rw (reached-unmapped stages mapping h, e)

-- A remap of one connection resets the deals of the tenant's other connections: wherever a deal of
-- the tenant stands in the table and whatever status it had, it is in the table with the status LEAD
-- afterwards if none of its stages is mapped by the connection.
pub recanonicalize_unmapped :
    (tenant_id id : String) (rows : List StageMapping) (deals : List Deal) (d : Deal)
    → Elem d deals
    → d.tenant_id ≡ tenant_id
    → All
        (λ s. lookup s (mapping_of (mappings_of tenant_id id rows)) ≡ none)
        (d.stage_external_id ∷ stages_of d)
    → Elem (record d { canonical = lead }) (recanonicalize tenant_id id rows deals)
unfolding recanonicalize
recanonicalize_unmapped tenant_id id rows deals d there same none_mapped =
    let mapping = mapping_of (mappings_of tenant_id id rows) in
    let status =
      rollup_canonical-unmapped (stages_of d) mapping d.stage_external_id none_mapped.1
        none_mapped.0 in
    rw status at (
      Elem-update_where_hit (λ x. x.tenant_id == tenant_id) (recanonicalized mapping) d deals there
        ((eq_iff d.tenant_id tenant_id).1 same))
