-- ===== src/Core/Recommendations/Order.antt =====
-- The order of the recommendations of packages/core/src/recommendations.ts.
use ad_link.Common.{
  ◌<◌, ◌≤◌, ◌≢◌, ◌⊎◌, All, [], ◌∷◌, true, false, List, ◌≡◌, arith, get_or, IsSorted, sort-IsSorted,
  inl, inr,
}
use native.Mathlib.Decide.{dec_lt}
use ad_link.Core.Metrics.{ratio_le, whole, MetricRow}
use ad_link.Core.Metrics.Laws.{ratio_le_total, ratio_le_trans}
use ad_link.Core.Recommendations.{
  scale, Recommendation, RecommendOptions, not_after, recommend, order,
}

not_after_total : (a b : Recommendation) → not_after a b ≡ false → not_after b a ≡ true
not_after_total a b h =
    ground (arith, ratio_le_total (get_or b.roas (whole 0)) (get_or a.roas (whole 0)))

not_after_trans :
    (a b c : Recommendation) → not_after a b ≡ true → not_after b c ≡ true → not_after a c ≡ true
not_after_trans a b c h k = ground (
  arith,
  ratio_le_trans (get_or c.roas (whole 0)) (get_or b.roas (whole 0)) (get_or a.roas (whole 0)),
)

-- `a` may stand before `b`: a pause before what to scale, and that before what to investigate;
-- among those to scale the higher ROAS first (a missing one counts as 0), among the others of one
-- type the higher spend first.
abbrev pub Precedes : Recommendation → Recommendation → Type 0
Precedes a b =
    (order a.type < order b.type)
    ⊎ ((a.type ≡ b.type)
        × (a.type ≡ scale → ratio_le (get_or b.roas (whole 0)) (get_or a.roas (whole 0)) ≡ true)
        × (a.type ≢ scale → b.spend ≤ a.spend))

abbrev pub IsOrdered : List Recommendation → Type 0
IsOrdered [] = Unit
IsOrdered (a ∷ l) = All (Precedes a) l × IsOrdered l

Precedes-of_not_after : (a b : Recommendation) → not_after a b ≡ true → Precedes a b
Precedes-of_not_after a b h = elim (dec_lt (order a.type) (order b.type)) [
  | yes p ↦ inl p
  | no p ↦ inr (ground arith, (λ e. ground arith), (λ e. ground arith))
]

All-Precedes :
    (a : Recommendation) (l : List Recommendation)
    → All (λ b. not_after a b ≡ true) l
    → All (Precedes a) l
All-Precedes a [] h = tt
All-Precedes a (b ∷ l) (p, h) = (Precedes-of_not_after a b p, All-Precedes a l h)

IsOrdered-of_IsSorted : (l : List Recommendation) → IsSorted not_after l → IsOrdered l
IsOrdered-of_IsSorted [] h = tt
IsOrdered-of_IsSorted (a ∷ l) (p, h) = (All-Precedes a l p, IsOrdered-of_IsSorted l h)

-- Of any two recommendations in the answer the earlier one may stand before the later one: pauses
-- first, then what to scale from the highest ROAS down, then what to investigate, pauses and
-- investigations from the highest spend down.
pub recommend-IsOrdered :
    (rows : List MetricRow) (opts : RecommendOptions) → IsOrdered (recommend rows opts)
unfolding recommend
recommend-IsOrdered rows opts =
    IsOrdered-of_IsSorted _ (sort-IsSorted not_after not_after_total not_after_trans _)
