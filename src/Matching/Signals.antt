-- ===== src/Matching/Signals.antt =====
-- The signals of apps/api/src/matching/matching.service.ts and what they decide.
use ad_link.Common.{◌≡◌, string_eq}
use ad_link.Core.Enums.{utm}
use ad_link.Core.Matching.{MatchCandidate}

abbrev IsUtm : MatchCandidate → Type 0
IsUtm c = c.method ≡ utm
