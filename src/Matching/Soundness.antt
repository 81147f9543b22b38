-- ===== src/Matching/Soundness.antt =====
-- The invariant of the attribution edge in apps/api/src/matching/matching.service.ts.
use ad_link.Common.{
  ℕ, ◌≤◌, ◌<◌, ◌&&◌, none, some, String, List, [], ◌∷◌, ◌≡◌, ◌≢◌, inl, inr, ◌==◌, string_eq,
  Option-cases, find?, All, All-update_where, refl, arith, subst,
}
use ad_link.Core.Enums.{matched, review, manual, review_threshold}
use ad_link.Core.Matching.{MatchDecision}
use ad_link.Core.Matching.Laws.{decide_match-IsGraded, IsGraded}
use ad_link.Db.{Lead}
use ad_link.Matching.{
  Store, write_match, match_lead, match_all, match_unmatched, resolve_manual, ok, candidates_of,
}

-- A MATCHED lead has an ad, a method and a confidence that is not below the review threshold; one
-- in REVIEW has an ad, a method and a confidence below it.
pub record IsSound (l : Lead) : Type 0 where
  pub counted :
      l.match_status ≡ matched
      → (l.ad_id ≢ none)
        × (l.match_method ≢ none)
        × ((c : ℕ) × (l.confidence ≡ some c) × (review_threshold ≤ c))
  pub parked :
      l.match_status ≡ review
      → (l.ad_id ≢ none)
        × (l.match_method ≢ none)
        × ((c : ℕ) × (l.confidence ≡ some c) × (c < review_threshold))

IsSound-decided :
    (l : Lead) (d : MatchDecision)
    → IsGraded d
    → IsSound (record l {
      ad_id = d.ad_id;
      match_method = d.method;
      confidence = some d.confidence;
      match_status = d.status;
    })
IsSound-decided l d g = record {
  counted = λ e.
      let (ad, high) = g.matched_iff.0 e in
      (ad, (λ m. ad (g.method_iff.0 m)), (d.confidence, refl, high));
  parked = λ e.
      let (ad, low) = g.review_iff.0 e in
      (ad, (λ m. ad (g.method_iff.0 m)), (d.confidence, refl, low));
}

pub match_lead-IsSound :
    (tenant_id : String) (lead : Lead) (s : Store)
    → All IsSound s.leads
    → All IsSound (match_lead tenant_id lead s).0.leads
unfolding match_lead
match_lead-IsSound tenant_id lead s h =
    All-update_where IsSound _ _ s.leads
      (λ l _ _. IsSound-decided l _ (decide_match-IsGraded (candidates_of tenant_id lead s))) h

match_all-IsSound :
    (tenant_id : String) (leads : List Lead) (s : Store) (n : ℕ)
    → All IsSound s.leads
    → All IsSound (match_all tenant_id leads s n).0.leads
unfolding match_all
match_all-IsSound tenant_id [] s n h = h
match_all-IsSound tenant_id (x ∷ leads) s n h =
    match_all-IsSound tenant_id leads _ _ (match_lead-IsSound tenant_id x s h)

-- `matchUnmatched` keeps the invariant: what it counts as MATCHED has an ad with a confidence that
-- reaches the review threshold, and what it parks for REVIEW has one below it.
pub match_unmatched-IsSound :
    (tenant_id : String) (s : Store)
    → All IsSound s.leads
    → All IsSound (match_unmatched tenant_id s).0.leads
unfolding match_unmatched
match_unmatched-IsSound tenant_id s h = match_all-IsSound tenant_id _ s 0 h

IsSound-manual :
    (l : Lead) (ad_id : String)
    → IsSound (record l {
      ad_id = some ad_id;
      match_method = some manual;
      confidence = some 100;
      match_status = matched;
    })
IsSound-manual l ad_id = record {
  counted = λ e. ((λ a. cc), (λ a. cc), (100, refl, omega arith));
  parked = λ e. cc;
}

-- `resolveManual` keeps the invariant as well, where it succeeds.
pub resolve_manual-IsSound :
    (tenant_id lead_id ad_id user_id : String) (s t : Store)
    → resolve_manual tenant_id lead_id ad_id user_id s ≡ ok t
    → All IsSound s.leads
    → All IsSound t.leads
unfolding resolve_manual
resolve_manual-IsSound tenant_id lead_id ad_id user_id s t e h =
    elim (Option-cases (find? (λ l. l.id == lead_id && l.tenant_id == tenant_id) s.leads)) [
      | inl miss ↦ absurd (cc (rw (miss, resolve_manual) at e))
      | inr (lead, found) ↦
          elim (Option-cases (find? (λ a. a.id == ad_id && a.tenant_id == tenant_id) s.ads)) [
            | inl miss ↦ absurd (cc (rw (found, miss, resolve_manual) at e))
            | inr (ad, hit) ↦
                let same : write_match lead_id (some ad_id) (some manual) 100 matched s.leads
                    ≡ t.leads =
                  cc (rw (found, hit, resolve_manual) at e) in
                subst (All IsSound) same
                  (All-update_where IsSound _ _ s.leads (λ l _ _. IsSound-manual l ad_id) h)
          ]
    ]
