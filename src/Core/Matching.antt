-- ===== src/Core/Matching.antt =====
-- packages/core/src/matching.ts: the choice among match candidates.
use ad_link.Common.{
  ℕ, Bool, Option, none, some, String, List, [], ◌∷◌, leb, if◌then◌else◌, get_or, head?, sort,
}
use ad_link.Core.Enums.{
  MatchMethod, leadgen_id, fbclid, phone, email, utm, fuzzy, manual, MatchStatus, matched,
  unmatched, review, match_confidence, review_threshold,
}
pub mod Laws

pub record MatchCandidate : Type 0 where
  pub method : MatchMethod
  pub ad_id : String
  pub confidence : Option ℕ

pub record MatchDecision : Type 0 where
  pub method : Option MatchMethod
  pub ad_id : Option String
  pub confidence : ℕ
  pub status : MatchStatus

-- `PRIORITY.indexOf(method)`
abbrev pub priority : MatchMethod → ℕ
priority leadgen_id = 0
priority fbclid = 1
priority phone = 2
priority email = 3
priority utm = 4
priority fuzzy = 5
priority manual = 6

-- The comparator: `a` is not after `b`.
abbrev pub not_after : MatchCandidate → MatchCandidate → Bool
not_after a b = leb (priority a.method) (priority b.method)

-- `best.confidence ?? MATCH_CONFIDENCE[best.method]`
abbrev pub confidence_of : MatchCandidate → ℕ
confidence_of c = get_or c.confidence (match_confidence c.method)

-- From `best` on; without one, the early return for an empty list.
abbrev pub decide_best : Option MatchCandidate → MatchDecision
decide_best none = record { method = none; ad_id = none; confidence = 0; status = unmatched }
decide_best (some best) = record {
  method = some best.method;
  ad_id = some best.ad_id;
  confidence = confidence_of best;
  status = if leb review_threshold (confidence_of best) then matched else review;
}

unfoldable pub decide_match : List MatchCandidate → MatchDecision
decide_match candidates = decide_best (head? (sort not_after candidates))
