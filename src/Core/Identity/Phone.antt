-- ===== src/Core/Identity/Phone.antt =====
-- What `normalizePhoneNaive` of packages/core/src/identity.ts answers.
use ad_link.Common.{
  ◌≤◌, ◌<◌, true, none, some, [], ◌∷◌, Text, ◌≡◌, ◌⊎◌, ◌↔◌, refl, arith, length, filter, All,
}
use ad_link.Core.Identity.{is_digit, normalize_phone_naive}

-- A plus sign and 7 to 15 digits.
pub record IsE164 (n : Text) : Type 0 where
  pub digits : Text
  pub split : n ≡ b'+' ∷ digits
  pub all_digits : All (λ c. is_digit c ≡ true) digits
  pub at_least : 7 ≤ length digits
  pub at_most : length digits ≤ 15

All-filter_self : (s : Text) → All (λ c. is_digit c ≡ true) (filter is_digit s)
All-filter_self [] = tt
All-filter_self (c ∷ s) = ground (arith, All-filter_self s)

filter_of_All : (s : Text) → All (λ c. is_digit c ≡ true) s → filter is_digit s ≡ s
filter_of_All [] h = refl
filter_of_All (c ∷ s) (p, h) = rw (p, filter_of_All s h)

-- A number is refused exactly when it has fewer than 7 digits or more than 15.
pub normalize_phone_naive-eq-none_iff :
    (raw : Text)
    → (normalize_phone_naive raw ≡ none)
      ↔ ((length (filter is_digit raw) < 7) ⊎ (15 < length (filter is_digit raw)))
unfolding normalize_phone_naive
normalize_phone_naive-eq-none_iff raw = ground arith

pub normalize_phone_naive-IsE164 : (raw n : Text) → normalize_phone_naive raw ≡ some n → IsE164 n
unfolding normalize_phone_naive
normalize_phone_naive-IsE164 raw n e = record {
  digits = filter is_digit raw;
  split = ground arith;
  all_digits = All-filter_self raw;
  at_least = ground arith;
  at_most = ground arith;
}

pub normalize_phone_naive_of_IsE164 : (n : Text) → IsE164 n → normalize_phone_naive n ≡ some n
unfolding normalize_phone_naive is_digit
normalize_phone_naive_of_IsE164 n h =
    let same = filter_of_All h.digits h.all_digits in
    rw (h.split, same) (ground (arith, h.at_least, h.at_most))

-- A number that is accepted becomes `+` and 7 to 15 digits, and that is its own normal form, so that
-- the same number is found again.
pub normalize_phone_naive_idem :
    (raw n : Text)
    → normalize_phone_naive raw ≡ some n
    → IsE164 n × (normalize_phone_naive n ≡ some n)
normalize_phone_naive_idem raw n e =
    let form = normalize_phone_naive-IsE164 raw n e in
    (form, normalize_phone_naive_of_IsE164 n form)
