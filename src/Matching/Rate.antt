-- ===== src/Matching/Rate.antt =====
-- The match rate of apps/api/src/matching/matching.service.ts.
use ad_link.Common.{◌+◌, Bool, true, false, String, List, [], ◌∷◌, ◌≡◌, string_eq, arith}
use ad_link.Core.Enums.{MatchStatus, rejected, is_matched, is_review, is_unmatched}
use ad_link.Db.{Lead}
use ad_link.Matching.{count_leads, match_rate}

abbrev pub is_rejected : MatchStatus → Bool
is_rejected rejected = true
is_rejected _ = false

count_split :
    (tenant_id : String) (leads : List Lead)
    → count_leads tenant_id (λ _. true) leads
      ≡ count_leads tenant_id (λ l. is_matched l.match_status) leads
        + count_leads tenant_id (λ l. is_review l.match_status) leads
        + count_leads tenant_id (λ l. is_unmatched l.match_status) leads
        + count_leads tenant_id (λ l. is_rejected l.match_status) leads
count_split tenant_id [] = omega arith
count_split tenant_id (l ∷ leads) = ground (arith, count_split tenant_id leads)

-- The numbers of the match rate add up: matched and in review never exceed the total, so that the
-- subtraction in the source does not go below 0; and what it reports as unmatched are the leads
-- that are UNMATCHED and those that were REJECTED.
pub match_rate_total :
    (tenant_id : String) (leads : List Lead)
    → ((match_rate tenant_id leads).matched
          + (match_rate tenant_id leads).review
          + (match_rate tenant_id leads).unmatched
        ≡ (match_rate tenant_id leads).total)
      × ((match_rate tenant_id leads).unmatched
          ≡ count_leads tenant_id (λ l. is_unmatched l.match_status) leads
            + count_leads tenant_id (λ l. is_rejected l.match_status) leads)
unfolding match_rate
match_rate_total tenant_id leads =
    (omega (arith, count_split tenant_id leads), omega (arith, count_split tenant_id leads))
