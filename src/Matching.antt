-- ===== src/Matching.antt =====
-- apps/api/src/matching/matching.service.ts: which ad produced a lead. The state is the tables that
-- the service reads and writes.
mod Candidates
pub mod Frame
pub mod Soundness
pub mod Audit
pub mod Signals
pub mod Rate
pub mod Spend
mod Tests
unfoldable pub use Candidates.*
use ad_link.Common.{
  ℕ, ◌+◌, ◌-◌, Bool, true, ◌&&◌, ◌||◌, not, Option, none, some, String, List, [], ◌∷◌, ◌++◌, ◌==◌,
  string_eq, eqb, ltb, leb, if◌then◌else◌, get_or, head?, is_some, truthy, is_text, filter, find?,
  update_where, length, take, map, contains, add, sort,
}
use ad_link.Core.Enums.{
  MatchMethod, leadgen_id, phone, utm, manual, MatchStatus, matched, is_matched, is_review,
  is_unmatched,
}
use ad_link.Core.Metrics.{Ratio, ratio}
use ad_link.Core.Matching.{MatchCandidate, MatchDecision, decide_match}
use ad_link.Db.{Lead, Ad, Insight, day_of}

-- `lead.update({ where: { id }, data })`
abbrev pub write_match :
    String → Option String → Option MatchMethod → ℕ → MatchStatus → List Lead → List Lead
write_match id ad_id method confidence status =
    update_where (λ l. l.id == id)
      (λ l. record l {
        ad_id = ad_id;
        match_method = method;
        confidence = some confidence;
        match_status = status;
      })

-- `if (decision.adId && decision.method)`
unfoldable pub audit :
    String → String → MatchDecision → List MatchCandidate → List MatchAudit → List MatchAudit
audit tenant_id lead_id d cs audits = elim d.method [
  | none ↦ audits
  | some method ↦
      if truthy d.ad_id
      then audits
        ++ record {
          tenant_id = tenant_id;
          lead_id = lead_id;
          method = method;
          confidence = d.confidence;
          resolved_by = "engine";
          detail = candidates cs;
        }
          ∷ []
      else audits
]

unfoldable pub match_lead : String → Lead → Store → Store × MatchDecision
match_lead tenant_id lead s =
    let cs = candidates_of tenant_id lead s in
    let d = decide_match cs in
    (
      record s {
        leads = write_match lead.id d.ad_id d.method d.confidence d.status s.leads;
        audits = audit tenant_id lead.id d cs s.audits;
      },
      d,
    )

-- The loop of `matchUnmatched`, with the number of matches.
unfoldable pub match_all : String → List Lead → Store → ℕ → Store × ℕ
match_all tenant_id [] s n = (s, n)
match_all tenant_id (lead ∷ leads) s n =
    let (s', d) = match_lead tenant_id lead s in
    match_all tenant_id leads s' (if is_matched d.status then n + 1 else n)

abbrev pub is_open : String → Lead → Bool
is_open tenant_id l =
    l.tenant_id == tenant_id && (is_unmatched l.match_status || is_review l.match_status)

pub record Matched : Type 0 where
  pub processed : ℕ
  pub matched : ℕ

unfoldable pub match_unmatched : String → Store → Store × Matched
match_unmatched tenant_id s =
    let leads = filter (is_open tenant_id) s.leads in
    let (s', n) = match_all tenant_id leads s 0 in
    (s', record { processed = length leads; matched = n })

pub data Failure : Type 0 where
  lead_not_found ad_not_found : Failure

pub data Outcome : Type 0 where
  ok : Store → Outcome
  fail : Failure → Outcome

unfoldable pub resolve_manual : String → String → String → String → Store → Outcome
resolve_manual tenant_id lead_id ad_id user_id s =
    elim (find? (λ l. l.id == lead_id && l.tenant_id == tenant_id) s.leads) [
      | none ↦ fail lead_not_found
      | some lead ↦ elim (find? (λ a. a.id == ad_id && a.tenant_id == tenant_id) s.ads) [
        | none ↦ fail ad_not_found
        | some ad ↦ ok (record s {
          leads = write_match lead_id (some ad_id) (some manual) 100 matched s.leads;
          audits =
              s.audits
              ++ record {
                tenant_id = tenant_id;
                lead_id = lead_id;
                method = manual;
                confidence = 100;
                resolved_by = user_id;
                detail = chosen_ad ad_id;
              }
                ∷ [];
        })
      ]
    ]

pub record MatchRate : Type 0 where
  pub total : ℕ
  pub matched : ℕ
  pub review : ℕ
  pub unmatched : ℕ
  pub rate : Option Ratio

-- `lead.count` of the tenant's leads that meet a condition
abbrev pub count_leads : String → (Lead → Bool) → List Lead → ℕ
count_leads tenant_id p leads = length (filter (λ l. l.tenant_id == tenant_id && p l) leads)

unfoldable pub match_rate : String → List Lead → MatchRate
match_rate tenant_id leads =
    let n_total = count_leads tenant_id (λ _. true) leads in
    let n_matched = count_leads tenant_id (λ l. is_matched l.match_status) leads in
    let n_review = count_leads tenant_id (λ l. is_review l.match_status) leads in
    record {
      total = n_total;
      matched = n_matched;
      review = n_review;
      unmatched = n_total - n_matched - n_review;
      rate = ratio n_matched n_total;
    }

abbrev pub newest_first : Lead → Lead → Bool
newest_first a b = leb b.created_at a.created_at

unfoldable pub review_queue : String → List Lead → List Lead
review_queue tenant_id leads =
    take 200
      (sort newest_first (filter (λ l. l.tenant_id == tenant_id && is_review l.match_status) leads))
