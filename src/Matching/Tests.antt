-- ===== src/Matching/Tests.antt =====
-- Runs of the models of apps/api/src/matching/matching.service.ts on a small store.
use ad_link.Common.{
  ℕ, ◌*◌, false, Option, none, some, String, [], ◌∷◌, ◌≡◌, ◌≢◌, ◌⊎◌, inl, inr, refl, All, Elem,
  ◌==◌, string_eq, arith, eq_iff, sort,
}
use ad_link.Core.Enums.{
  LeadSource, MatchMethod, manual, MatchStatus, matched, unmatched, review, rejected,
}
use ad_link.Core.Matching.{decide_match}
use ad_link.Db.{Lead, Ad, Insight, day_ms}
use ad_link.Matching.{
  Store, candidates, chosen_ad, candidates_of, match_lead, match_all, by_leadgen, by_sibling,
  by_utm, by_name, match_unmatched, disambiguate_by_spend, resolve_manual, ok, write_match,
}
use ad_link.Matching.Frame.{distinct-HasUniqueIds, match_unmatched-Elem}
use ad_link.Matching.Soundness.{IsSound, match_unmatched-IsSound, resolve_manual-IsSound}
use ad_link.Matching.Audit.{match_lead-audits}
use ad_link.Matching.Spend.{IsTieBreak, disambiguate_by_spend-IsTieBreak}

abbrev a_lead : String → Option String → Option String → Option String → MatchStatus → Lead
a_lead id contact_id utm_content ad_id status = record {
  id = id;
  tenant_id = "t";
  contact_id = contact_id;
  source = LeadSource.website;
  external_id = none;
  leadgen_id = none;
  fbclid = none;
  utm_source = none;
  utm_medium = none;
  utm_campaign = none;
  utm_content = utm_content;
  utm_term = none;
  created_at = 2 * day_ms;
  ad_id = ad_id;
  match_method = none;
  match_status = status;
  confidence = none;
}

abbrev an_ad : String → String → String → Ad
an_ad id external_id name = record {
  id = id;
  tenant_id = "t";
  ad_set_id = "set";
  external_id = external_id;
  name = name;
  status = none;
  effective_status = none;
  creative_id = none;
}

abbrev a_day : String → ℕ → ℕ → Insight
a_day ad_id date spend = record {
  tenant_id = "t";
  ad_id = ad_id;
  date = date;
  spend = spend;
  currency = "USD";
  impressions = 10;
  clicks = 1;
}

-- A lead by UTM, one of a contact whose other lead is in review, one that was rejected.
abbrev store : Store
store = record {
  leads =
      a_lead "l1" none (some "x2") none unmatched
      ∷ a_lead "l2" (some "c") none none unmatched
      ∷ a_lead "l3" (some "c") none (some "a1") rejected
      ∷ [];
  ads = an_ad "a1" "x1" "summer" ∷ an_ad "a2" "x2" "summer" ∷ [];
  insights = a_day "a1" 2 5 ∷ a_day "a2" 2 9 ∷ [];
  audits = [];
}

-- Both open leads are matched, the second one by the rejected lead of its contact.
match_unmatched_run : (match_unmatched "t" store).1 ≡ record { processed = 2; matched = 2 }
unfolding match_unmatched match_all match_lead candidates_of by_leadgen by_sibling by_utm by_name
    disambiguate_by_spend decide_match sort
match_unmatched_run = refl

-- The tie between the two ads of one name goes to the one that spent more.
disambiguate_run : disambiguate_by_spend ("a1" ∷ "a2" ∷ []) (2 * day_ms) store.insights ≡ some "a2"
unfolding disambiguate_by_spend sort
disambiguate_run = refl

closed_row : (l : Lead) → l.match_status ≢ matched → l.match_status ≢ review → IsSound l
closed_row l m r = record { counted = λ e. absurd (m e); parked = λ e. absurd (r e) }

store-IsSound : All IsSound store.leads
store-IsSound = (
  closed_row _ (λ e. cc) (λ e. cc),
  (closed_row _ (λ e. cc) (λ e. cc), (closed_row _ (λ e. cc) (λ e. cc), tt)),
)

match_unmatched-IsSound_example : All IsSound (match_unmatched "t" store).0.leads
match_unmatched-IsSound_example = match_unmatched-IsSound "t" store store-IsSound

match_unmatched-Elem_run :
    Elem (a_lead "l3" (some "c") none (some "a1") rejected) (match_unmatched "t" store).0.leads
match_unmatched-Elem_run =
    match_unmatched-Elem "t" store (a_lead "l3" (some "c") none (some "a1") rejected)
      (distinct-HasUniqueIds store.leads (refl, (refl, (refl, tt)))) (inr (inr (inl refl)))
      (inr (inr refl))

resolved :
    resolve_manual "t" "l1" "a1" "u" store
    ≡ ok (record store {
      leads = write_match "l1" (some "a1") (some manual) 100 matched store.leads;
      audits =
          record {
            tenant_id = "t";
            lead_id = "l1";
            method = manual;
            confidence = 100;
            resolved_by = "u";
            detail = chosen_ad "a1";
          }
          ∷ [];
    })
unfolding resolve_manual
resolved = refl

resolve_manual-IsSound_run :
    All IsSound (write_match "l1" (some "a1") (some manual) 100 matched store.leads)
resolve_manual-IsSound_run = resolve_manual-IsSound "t" "l1" "a1" "u" store _ resolved store-IsSound

not_empty : (t : String) → (t == "") ≡ false → t ≢ ""
not_empty t h = λ e. ground (arith, h, (eq_iff t "").1 e)

match_lead-audits_run :
    (((match_lead "t" (a_lead "l1" none (some "x2") none unmatched) store).1.status ≡ unmatched)
      × ((match_lead "t" (a_lead "l1" none (some "x2") none unmatched) store).0.audits ≡ []))
    ⊎ ((m : MatchMethod) × (a : String) × ((match_lead "t"
            (a_lead "l1" none (some "x2") none unmatched)
            store).1.method
          ≡ some m)
        × ((match_lead "t" (a_lead "l1" none (some "x2") none unmatched) store).1.ad_id ≡ some a)
        × ((match_lead "t" (a_lead "l1" none (some "x2") none unmatched) store).0.audits
            ≡ record {
              tenant_id = "t";
              lead_id = "l1";
              method = m;
              confidence =
                  (match_lead "t" (a_lead "l1" none (some "x2") none unmatched) store).1.confidence;
              resolved_by = "engine";
              detail =
                  candidates
                    (candidates_of "t" (a_lead "l1" none (some "x2") none unmatched) store);
            }
              ∷ []))
match_lead-audits_run =
    match_lead-audits "t" (a_lead "l1" none (some "x2") none unmatched) store
      (not_empty "a1" refl, (not_empty "a2" refl, tt))

disambiguate_by_spend-IsTieBreak_example :
    IsTieBreak
      ("a1" ∷ "a2" ∷ [])
      2
      store.insights
      (disambiguate_by_spend ("a1" ∷ "a2" ∷ []) (2 * day_ms) store.insights)
disambiguate_by_spend-IsTieBreak_example =
    disambiguate_by_spend-IsTieBreak ("a1" ∷ "a2" ∷ []) (2 * day_ms) store.insights
