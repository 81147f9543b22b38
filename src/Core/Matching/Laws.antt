-- ===== src/Core/Matching/Laws.antt =====
-- What `decideMatch` of packages/core/src/matching.ts answers.
use ad_link.Common.{
  ◌≤◌, ◌<◌, Option, none, some, List, [], ◌∷◌, ◌≡◌, ◌≢◌, ◌↔◌, ◌⊎◌, refl, arith, head?, sort, All,
  All-sort, IsFirstLeast,
}
use ad_link.Core.Enums.{utm, fuzzy, MatchStatus, matched, unmatched, review, review_threshold}
use ad_link.Core.Matching.{
  MatchCandidate, MatchDecision, not_after, confidence_of, decide_best, decide_match,
}

-- The decision is for the first candidate of the most reliable method: every candidate before it
-- has a less reliable method, and none after it has a more reliable one.
pub record IsChosen (candidates : List MatchCandidate) (d : MatchDecision) : Type 0 where
  pub best : MatchCandidate
  pub first : IsFirstLeast not_after best candidates
  pub method : d.method ≡ some best.method
  pub ad_id : d.ad_id ≡ some best.ad_id
  pub confidence : d.confidence ≡ confidence_of best

-- The status against the ad, the method and the confidence.
pub record IsGraded (d : MatchDecision) : Type 0 where
  pub unmatched_iff : (d.status ≡ unmatched) ↔ (d.ad_id ≡ none)
  pub matched_iff : (d.status ≡ matched) ↔ ((d.ad_id ≢ none) × (review_threshold ≤ d.confidence))
  pub review_iff : (d.status ≡ review) ↔ ((d.ad_id ≢ none) × (d.confidence < review_threshold))
  pub never_rejected : d.status ≢ MatchStatus.rejected
  pub method_iff : (d.method ≡ none) ↔ (d.ad_id ≡ none)

pub decide_best-IsGraded : (o : Option MatchCandidate) → IsGraded (decide_best o)
decide_best-IsGraded none = record {
  unmatched_iff = (λ _. refl, λ _. refl);
  matched_iff = (λ e. cc, λ h. absurd (h.0 refl));
  review_iff = (λ e. cc, λ h. absurd (h.0 refl));
  never_rejected = λ e. cc;
  method_iff = (λ _. refl, λ _. refl);
}
decide_best-IsGraded (some b) = record {
  unmatched_iff = ground arith;
  matched_iff = ground arith;
  review_iff = ground arith;
  never_rejected = ground arith;
  method_iff = ground arith;
}

-- `decideMatch` answers UNMATCHED exactly when there is no candidate, MATCHED exactly when there is
-- an ad and the confidence is at least the review threshold, REVIEW exactly when there is an ad and
-- the confidence is below it, and never REJECTED. There is an ad exactly when there is a method.
pub decide_match-IsGraded : (cs : List MatchCandidate) → IsGraded (decide_match cs)
unfolding decide_match
decide_match-IsGraded cs = decide_best-IsGraded (head? (sort not_after cs))

-- A candidate by UTM or by a fuzzy match, without a confidence of its own.
abbrev pub IsWeak : MatchCandidate → Type 0
IsWeak c = ((c.method ≡ utm) ⊎ (c.method ≡ fuzzy)) × (c.confidence ≡ none)

-- If every candidate is by UTM or by a fuzzy match and none carries a confidence of its own, the
-- answer is never MATCHED: such a match is not counted automatically.
pub decide_match-IsWeak :
    (cs : List MatchCandidate) → All IsWeak cs → (decide_match cs).status ≢ matched
unfolding decide_match
decide_match-IsWeak cs h = weak (sort not_after cs) (All-sort not_after IsWeak cs h)
  where
    weak : (l : List MatchCandidate) → All IsWeak l → (decide_best (head? l)).status ≢ matched
    weak [] k = λ e. cc
    weak (b ∷ l) (k, ks) = ground arith
