-- ===== src/Core/Format.antt =====
-- packages/core/src/format.ts without the number formats of Intl: the dash for a missing value and
-- the bands of ROAS.
use ad_link.Common.{
  ℕ, ◌≤◌, ◌≡◌, refl, true, Option, none, some, Text, [], ◌∷◌, arith, if◌then◌else◌,
}
use ad_link.Core.Metrics.{Ratio, ratio_lt, ratio_le, whole}
use ad_link.Core.Metrics.Laws.{ratio_lt_of_le}

abbrev pub dash : Text
dash = 0x2014 ∷ []

-- `formatOrDash`; a quotient of the model is never NaN.
unfoldable pub format_or_dash : Option Ratio → (Ratio → Text) → Text
format_or_dash none fmt = dash
format_or_dash (some value) fmt = fmt value

pub data RoasBand : Type 0 where
  loss thin healthy winner : RoasBand

unfoldable pub band_of : Ratio → RoasBand
band_of roas =
    if ratio_lt roas (whole 1)
    then loss
    else if ratio_lt roas (whole 2)
    then thin
    else if ratio_lt roas (whole 4)
    then healthy
    else winner

unfoldable pub roas_band : Option Ratio → Option RoasBand
unfolding band_of
roas_band none = none
roas_band (some roas) = some (band_of roas)

abbrev pub rank : RoasBand → ℕ
rank loss = 0
rank thin = 1
rank healthy = 2
rank winner = 3

-- The bands are intervals in order: of two ROAS values that are there, the one that is not higher
-- has a band, and one that is not higher.
pub roas_band_mono :
    (p q : Ratio)
    → ratio_le p q ≡ true
    → (b : RoasBand) × (c : RoasBand) × (roas_band (some p) ≡ some b)
      × (roas_band (some q) ≡ some c)
      × (rank b ≤ rank c)
unfolding roas_band
roas_band_mono p q h = (
  band_of p,
  band_of q,
  refl,
  refl,
  ground (
    arith,
    ratio_lt_of_le p q (whole 1) h,
    ratio_lt_of_le p q (whole 2) h,
    ratio_lt_of_le p q (whole 4) h,
  ),
)
