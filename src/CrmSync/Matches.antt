-- ===== src/CrmSync/Matches.antt =====
-- What a re-sync of apps/api/src/ingest/crm-sync.service.ts leaves of the leads.
use ad_link.Common.{
  ℕ, Bool, true, false, Option, String, List, [], ◌∷◌, Text, ◌≡◌, inl, inr, refl, ◌∙◌, any,
  update_where, Elem, Elem-append_left, Bool-cases, truthy, if◌then◌else◌,
}
use ad_link.Db.{Lead}
use ad_link.CrmSync.{
  RawLead, Store, is_lead, refreshed, put_lead, before, upsert_lead, sync_leads, resolve_person,
}

-- The same lead with the same match.
pub record IsSameMatch (l m : Lead) : Type 0 where
  pub id : m.id ≡ l.id
  pub created_at : m.created_at ≡ l.created_at
  pub ad_id : m.ad_id ≡ l.ad_id
  pub match_method : m.match_method ≡ l.match_method
  pub match_status : m.match_status ≡ l.match_status
  pub confidence : m.confidence ≡ l.confidence

-- A lead of the list is in the other one with the same match.
abbrev pub Keeps : List Lead → List Lead → Type 0
Keeps xs ys = (l : Lead) → Elem l xs → (m : Lead) × Elem m ys × IsSameMatch l m

same_match : (l : Lead) → IsSameMatch l l
same_match l = record {
  id = refl;
  created_at = refl;
  ad_id = refl;
  match_method = refl;
  match_status = refl;
  confidence = refl;
}

Keeps-trans : (xs ys zs : List Lead) → Keeps xs ys → Keeps ys zs → Keeps xs zs
Keeps-trans xs ys zs h k l there =
    let (m, n, e) = h l there in
    let (o, p, f) = k m n in
    (
      o,
      p,
      record {
        id = f.id ∙ e.id;
        created_at = f.created_at ∙ e.created_at;
        ad_id = f.ad_id ∙ e.ad_id;
        match_method = f.match_method ∙ e.match_method;
        match_status = f.match_status ∙ e.match_status;
        confidence = f.confidence ∙ e.confidence;
      },
    )

refresh-Keeps :
    (p : Lead → Bool) (raw : RawLead) (contact_id : Option String) (leads : List Lead)
    → Keeps leads (update_where p (refreshed raw contact_id) leads)
refresh-Keeps p raw contact_id [] l there = absurd there
refresh-Keeps p raw contact_id (x ∷ xs) l (inr there) =
    let (m, n, e) = refresh-Keeps p raw contact_id xs l there in (m, inr n, e)
refresh-Keeps p raw contact_id (x ∷ xs) l (inl here) = elim (Bool-cases (p x)) [
  | inl e ↦
      rw (e, here)
        (
          refreshed raw contact_id x,
          inl refl,
          record {
            id = refl;
            created_at = refl;
            ad_id = refl;
            match_method = refl;
            match_status = refl;
            confidence = refl;
          },
        )
  | inr e ↦ rw (e, here) (x, inl refl, same_match x)
]

put_lead-Keeps :
    (tenant_id id : String) (raw : RawLead) (contact_id ad_id : Option String) (leads : List Lead)
    → Keeps leads (put_lead tenant_id id raw contact_id ad_id leads)
unfolding put_lead
put_lead-Keeps tenant_id id raw contact_id ad_id leads =
    elim (Bool-cases (any (is_lead tenant_id raw) leads)) [
      | inl e ↦ rw e (refresh-Keeps (is_lead tenant_id raw) raw contact_id leads)
      | inr e ↦ rw e (λ l there. (l, Elem-append_left l leads _ there, same_match l))
    ]

module _ (sha256 : Text → Text) (id_of : ℕ → String) (tenant_id : String) where
  upsert_lead-Keeps :
      (raw : RawLead) (s : Store)
      → Keeps s.matching.leads (upsert_lead sha256 id_of tenant_id raw s).matching.leads
  unfolding upsert_lead resolve_person
  upsert_lead-Keeps raw s = elim (Bool-cases (truthy raw.external_id)) [
    | inl e ↦ rw e (put_lead-Keeps tenant_id _ raw _ _ s.matching.leads)
    | inr e ↦ rw e (λ l there. (l, there, same_match l))
  ]

  gated-Keeps :
      (b : Bool) (raw : RawLead) (s : Store)
      → Keeps s.matching.leads
          (if b then s else upsert_lead sha256 id_of tenant_id raw s).matching.leads
  gated-Keeps true raw s = λ l there. (l, there, same_match l)
  gated-Keeps false raw s = upsert_lead-Keeps raw s

  sync_leads-Keeps :
      (floor : Option ℕ) (rows : List RawLead) (s : Store)
      → Keeps s.matching.leads (sync_leads sha256 id_of tenant_id floor rows s).matching.leads
  unfolding sync_leads
  sync_leads-Keeps floor [] s = λ l there. (l, there, same_match l)
  sync_leads-Keeps floor (raw ∷ rows) s =
      Keeps-trans s.matching.leads _ _ (gated-Keeps (before floor raw.created_at) raw s)
        (sync_leads-Keeps floor rows _)

  -- The upsert of the leads of a sync, before the matching that ends the sync, touches no match: every
  -- lead that was there is there after it with its ad, method, status and confidence, and none is lost.
  pub sync_leads-IsSameMatch :
      (floor : Option ℕ) (rows : List RawLead) (s : Store) (l : Lead)
      → Elem l s.matching.leads
      → (m : Lead) × Elem m (sync_leads sha256 id_of tenant_id floor rows s).matching.leads
        × IsSameMatch l m
  sync_leads-IsSameMatch floor rows s l there = sync_leads-Keeps floor rows s l there
