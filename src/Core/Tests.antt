-- ===== src/Core/Tests.antt =====
-- Runs of the models of packages/core/src on small inputs.
use ad_link.Common.{
  ◌*◌, true, false, none, some, [], ◌∷◌, ◌++◌, Text, ◌≡◌, ◌↔◌, inl, refl, arith, All, Elem, sort,
  insert_sorted,
}
use ad_link.Core.Enums.{phone, utm, matched, review}
use ad_link.Core.Metrics.{whole, money_unit, ad, MetricInputs, derive_metrics, MetricRow}
use ad_link.Core.Matching.{MatchCandidate, decide_match}
use ad_link.Core.Matching.Laws.{IsGraded, decide_match-IsGraded}
use ad_link.Core.Recommendations.{pause, Recommendation, RecommendOptions, recommend}
use ad_link.Core.Recommendations.Laws.{IsJustified, recommend_sound, recommend_pause}
use ad_link.Core.Recommendations.Order.{IsOrdered, recommend-IsOrdered}
use ad_link.Core.Identity.{
  normalize_phone_naive, normalize_email, normalize_identifiers, email_matches, map_lower, is_digit,
  is_space, lower, trim_start, domain_matches,
}
use ad_link.Core.Identity.Phone.{IsE164, normalize_phone_naive_idem}
use ad_link.Core.Identity.Email.{IsEmail, email_matches_iff, normalize_email_idem}
use ad_link.Core.Identity.Identifiers.{IsNormal, AreUnique, normalize_identifiers-AreUnique}
use ad_link.Core.Creative.{
  video, field, parse_creative_name, split_tokens, read_tokens, read_token, exec, strip_prefix,
}
use ad_link.Core.Creative.Laws.{parse_creative_name-append}

-- A match by UTM without a confidence is parked; one by phone wins over it.
abbrev utm_candidate : MatchCandidate
utm_candidate = record { method = utm; ad_id = "a1"; confidence = none }

abbrev phone_candidate : MatchCandidate
phone_candidate = record { method = phone; ad_id = "a2"; confidence = none }

decide_utm :
    decide_match (utm_candidate ∷ [])
    ≡ record { method = some utm; ad_id = some "a1"; confidence = 50; status = review }
unfolding decide_match sort insert_sorted
decide_utm = refl

decide_phone :
    decide_match (utm_candidate ∷ phone_candidate ∷ [])
    ≡ record { method = some phone; ad_id = some "a2"; confidence = 95; status = matched }
unfolding decide_match sort insert_sorted
decide_phone = refl

decide_match-IsGraded_run : IsGraded (decide_match (utm_candidate ∷ phone_candidate ∷ []))
decide_match-IsGraded_run = decide_match-IsGraded (utm_candidate ∷ phone_candidate ∷ [])

abbrev inputs : MetricInputs
inputs = record {
  spend = 100 * money_unit;
  impressions = 1000;
  clicks = 10;
  leads = 12;
  qualified_leads = 1;
  sales = 0;
  revenue = 0;
}

-- An ad with twelve leads and no sale.
abbrev a_row : MetricRow
a_row = record {
  level = ad;
  id = "a";
  name = "A";
  parent_id = none;
  status = none;
  effective_status = none;
  currency = "USD";
  spend = 100 * money_unit;
  impressions = 1000;
  clicks = 10;
  leads = 12;
  qualified_leads = 1;
  sales = 0;
  revenue = 0;
  derived = derive_metrics inputs;
}

abbrev defaults : RecommendOptions
defaults = record { target_roas = none; min_spend = none; min_leads = none }

recommend_sound_example :
    All (IsJustified (whole 3) (50 * money_unit) 10 (a_row ∷ [])) (recommend (a_row ∷ []) defaults)
recommend_sound_example = recommend_sound (a_row ∷ []) defaults

recommend_pause_run :
    (rec : Recommendation) × Elem rec (recommend (a_row ∷ []) defaults)
    × (rec.type ≡ pause)
    × (rec.id ≡ "a")
recommend_pause_run =
    recommend_pause (a_row ∷ []) defaults a_row (inl refl) refl (omega arith)
      (inl (refl, omega arith))

recommend-IsOrdered_run : IsOrdered (recommend (a_row ∷ []) defaults)
recommend-IsOrdered_run = recommend-IsOrdered (a_row ∷ []) defaults

abbrev digits : Text
digits = b'9' ∷ b'9' ∷ b'8' ∷ b'9' ∷ b'0' ∷ b'1' ∷ b'2' ∷ []

abbrev written : Text
written = b'9' ∷ b'9' ∷ b'8' ∷ b' ' ∷ b'9' ∷ b'0' ∷ b'-' ∷ b'1' ∷ b'2' ∷ []

phone_run : normalize_phone_naive written ≡ some (b'+' ∷ digits)
unfolding normalize_phone_naive is_digit
phone_run = refl

normalize_phone_naive_idem_run :
    IsE164 (b'+' ∷ digits) × (normalize_phone_naive (b'+' ∷ digits) ≡ some (b'+' ∷ digits))
normalize_phone_naive_idem_run = normalize_phone_naive_idem written (b'+' ∷ digits) phone_run

-- " A@b.C"
abbrev raw_email : Text
raw_email = b' ' ∷ b'A' ∷ b'@' ∷ b'b' ∷ b'.' ∷ b'C' ∷ []

abbrev an_email : Text
an_email = b'a' ∷ b'@' ∷ b'b' ∷ b'.' ∷ b'c' ∷ []

email_run : normalize_email raw_email ≡ some an_email
unfolding normalize_email email_matches map_lower lower trim_start is_space domain_matches
email_run = refl

normalize_email_idem_run :
    IsEmail an_email × (map_lower an_email ≡ an_email) × (normalize_email an_email ≡ some an_email)
normalize_email_idem_run = normalize_email_idem raw_email an_email email_run

email_matches_iff_run : (email_matches false an_email ≡ true) ↔ IsEmail an_email
email_matches_iff_run = email_matches_iff an_email

normalize_identifiers-AreUnique_example :
    All IsNormal (normalize_identifiers (some (written ∷ digits ∷ [])) none)
    × AreUnique (normalize_identifiers (some (written ∷ digits ∷ [])) none)
normalize_identifiers-AreUnique_example =
    normalize_identifiers-AreUnique (some (written ∷ digits ∷ [])) none

-- "Vid1-h2"
abbrev a_name : Text
a_name = b'V' ∷ b'i' ∷ b'd' ∷ b'1' ∷ b'-' ∷ b'h' ∷ b'2' ∷ []

video_run : field video (parse_creative_name a_name) ≡ some (b'1' ∷ [])
unfolding parse_creative_name split_tokens read_tokens read_token exec strip_prefix lower is_space
video_run = refl

-- A second video does not replace the first.
parse_creative_name-append_run :
    field video (parse_creative_name (a_name ++ b'_' ∷ b'v' ∷ b'3' ∷ [])) ≡ some (b'1' ∷ [])
parse_creative_name-append_run =
    parse_creative_name-append a_name b'_' (b'v' ∷ b'3' ∷ []) video (b'1' ∷ []) refl video_run
