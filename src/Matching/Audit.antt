-- ===== src/Matching/Audit.antt =====
-- The audit trail of apps/api/src/matching/matching.service.ts.
use ad_link.Common.{
  ℕ, true, Option, none, some, String, List, [], ◌∷◌, ◌++◌, ◌≡◌, ◌≢◌, ◌⊎◌, inl, inr, ◌&&◌, ◌==◌,
  string_eq, Bool-cases, Option-cases, find?, All, All-append, Elem-All, find?-Elem, refl, arith,
  eq_iff, truthy, get_or, map, sort, All-sort, head?, All-filter, is_text,
}
use ad_link.Core.Enums.{MatchMethod, unmatched}
use ad_link.Core.Matching.{MatchCandidate, MatchDecision, decide_match, decide_best, not_after}
use ad_link.Db.{Lead, Ad, Insight}
use ad_link.Matching.{
  Store, by_leadgen, by_sibling, is_sibling, sibling_candidate, by_name, by_utm, candidates_of,
  match_lead, audit, MatchAudit, candidates, disambiguate_by_spend,
}

abbrev pub HasId : Ad → Type 0
HasId a = a.id ≢ ""

abbrev NamesAd : MatchCandidate → Type 0
NamesAd c = c.ad_id ≢ ""

truthy_ne : (o : Option String) → truthy o ≡ true → get_or o "" ≢ ""
truthy_ne none h = cc
truthy_ne (some t) h = ground (arith, eq_iff t "")

by_leadgen-NamesAd : (lead : Lead) → All NamesAd (by_leadgen lead)
unfolding by_leadgen
by_leadgen-NamesAd lead = elim (Bool-cases (truthy lead.leadgen_id && truthy lead.ad_id)) [
  | inl e ↦ rw e (truthy_ne lead.ad_id (ground arith), tt)
  | inr e ↦ rw e tt
]

sibling_candidate-NamesAd : (o : Option Lead) → All NamesAd (sibling_candidate o)
sibling_candidate-NamesAd none = tt
sibling_candidate-NamesAd (some l) = elim (Bool-cases (truthy l.ad_id)) [
  | inl e ↦ rw e (truthy_ne l.ad_id e, tt)
  | inr e ↦ rw e tt
]

by_sibling-NamesAd :
    (tenant_id : String) (lead : Lead) (leads : List Lead)
    → All NamesAd (by_sibling tenant_id lead leads)
unfolding by_sibling
by_sibling-NamesAd tenant_id lead leads = elim (Bool-cases (truthy lead.contact_id)) [
  | inl e ↦ rw e (sibling_candidate-NamesAd (find? (is_sibling tenant_id lead) leads))
  | inr e ↦ rw e tt
]

by_name-NamesAd :
    (ads : List Ad) (at : ℕ) (insights : List Insight)
    → All HasId ads
    → All NamesAd (by_name ads at insights)
unfolding by_name
by_name-NamesAd [] at insights h = tt
by_name-NamesAd (a ∷ []) at insights h = h
by_name-NamesAd (a ∷ b ∷ more) at insights (p, h) =
    let winner = disambiguate_by_spend (a.id ∷ b.id ∷ map (λ x. x.id) more) at insights in
    elim (Bool-cases (truthy winner)) [
      | inl e ↦ rw e (truthy_ne winner e, tt)
      | inr e ↦ rw e (p, tt)
    ]

by_utm-NamesAd :
    (tenant_id : String) (lead : Lead) (ads : List Ad) (insights : List Insight)
    → All HasId ads
    → All NamesAd (by_utm tenant_id lead ads insights)
unfolding by_utm
by_utm-NamesAd tenant_id lead ads insights h = elim (Bool-cases (truthy lead.utm_content)) [
  | inr e ↦ rw e tt
  | inl e ↦
      elim (Option-cases
        (find? (λ a. a.tenant_id == tenant_id && is_text lead.utm_content a.external_id) ads)) [
          | inl miss ↦
              rw (e, miss) (by_name-NamesAd _ lead.created_at insights (All-filter HasId _ ads h))
          | inr (a, hit) ↦ rw (e, hit) (Elem-All HasId a ads h (find?-Elem _ a ads hit).0, tt)
        ]
]

candidates_of-NamesAd :
    (tenant_id : String) (lead : Lead) (s : Store)
    → All HasId s.ads
    → All NamesAd (candidates_of tenant_id lead s)
unfolding candidates_of
candidates_of-NamesAd tenant_id lead s h =
    All-append NamesAd (by_leadgen lead) _ (by_leadgen-NamesAd lead) (
      All-append NamesAd (by_sibling tenant_id lead s.leads) _
        (by_sibling-NamesAd tenant_id lead s.leads)
        (by_utm-NamesAd tenant_id lead s.ads s.insights h))

decide_best-NamesAd :
    (l : List MatchCandidate)
    → All NamesAd l
    → ((decide_best (head? l)).status ≡ unmatched) × ((decide_best (head? l)).method ≡ none)
      ⊎ ((m : MatchMethod) × (a : String) × ((decide_best (head? l)).method ≡ some m)
          × ((decide_best (head? l)).ad_id ≡ some a)
          × (truthy (decide_best (head? l)).ad_id ≡ true))
decide_best-NamesAd [] h = inl (refl, refl)
decide_best-NamesAd (c ∷ l) (p, h) =
    inr (c.method, c.ad_id, refl, refl, ground (arith, eq_iff c.ad_id ""))

module _ (tenant_id lead_id : String) (d : MatchDecision) (cs : List MatchCandidate)
    (audits : List MatchAudit) where
  audit-none : d.method ≡ none → audit tenant_id lead_id d cs audits ≡ audits
  unfolding audit
  audit-none h = rw h

  audit-some :
      (m : MatchMethod)
      → d.method ≡ some m
      → truthy d.ad_id ≡ true
      → audit tenant_id lead_id d cs audits
        ≡ audits
          ++ record {
            tenant_id = tenant_id;
            lead_id = lead_id;
            method = m;
            confidence = d.confidence;
            resolved_by = "engine";
            detail = candidates cs;
          }
            ∷ []
  unfolding audit
  audit-some m h k = rw (h, k)

-- Every decision of the engine is auditable: where `matchLead` finds no ad it adds no audit entry;
-- where it finds one it adds one entry, with the lead, the method and the confidence of the
-- decision and all candidates. (The ads of the store have ids that are not empty.)
pub match_lead-audits :
    (tenant_id : String) (lead : Lead) (s : Store)
    → All HasId s.ads
    → (((match_lead tenant_id lead s).1.status ≡ unmatched)
        × ((match_lead tenant_id lead s).0.audits ≡ s.audits))
      ⊎ ((m : MatchMethod) × (a : String) × ((match_lead tenant_id lead s).1.method ≡ some m)
          × ((match_lead tenant_id lead s).1.ad_id ≡ some a)
          × ((match_lead tenant_id lead s).0.audits
              ≡ s.audits
                ++ record {
                  tenant_id = tenant_id;
                  lead_id = lead.id;
                  method = m;
                  confidence = (match_lead tenant_id lead s).1.confidence;
                  resolved_by = "engine";
                  detail = candidates (candidates_of tenant_id lead s);
                }
                  ∷ []))
unfolding match_lead decide_match
match_lead-audits tenant_id lead s h =
    let cs = candidates_of tenant_id lead s in
    elim (decide_best-NamesAd (sort not_after cs)
      (All-sort not_after NamesAd cs (candidates_of-NamesAd tenant_id lead s h))) [
        | inl (status, method) ↦ inl (status, audit-none _ _ _ _ _ method)
        | inr (m, a, method, ad, there) ↦
            inr (m, a, method, ad, audit-some _ _ _ _ _ m method there)
      ]
