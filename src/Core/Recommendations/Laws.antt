-- ===== src/Core/Recommendations/Laws.antt =====
-- Which rows packages/core/src/recommendations.ts reports, and why.
use ad_link.Common.{
  ℕ, ◌*◌, ◌≤◌, Bool, true, false, ◌&&◌, Option, none, some, List, [], ◌∷◌, ◌≡◌, ◌≢◌, ◌⊎◌, inl, inr,
  refl, arith, subst, eqb, leb, get_or, All, Elem, All-sort, Elem-sort, Option-cases, Bool-cases,
}
use Prim.Native.String.{String}
use ad_link.Core.Metrics.{Ratio, ratio_lt, ratio_le, whole, money_unit, ad, MetricRow}
use ad_link.Core.Recommendations.{
  RecommendationType, scale, pause, investigate, Recommendation, RecommendOptions, holds, one_fifth,
  Reason, no_sales, losing, advise, consider, collect, not_after, recommend, recommendation,
}

-- The reason for a recommendation of each type, on the row.
module _ (target_roas : Ratio) (min_leads : ℕ) (r : MetricRow) where
  abbrev pub Rule : RecommendationType → Type 0
  Rule pause =
      ((r.sales ≡ 0) × (min_leads ≤ r.leads))
      ⊎ ((q : Ratio) × (r.derived.roas ≡ some q) × (ratio_lt q (whole 1) ≡ true))
  Rule scale =
      (q : Ratio) × (r.derived.roas ≡ some q)
      × (ratio_le target_roas q ≡ true)
      × (1 ≤ r.sales)
      × (ratio_lt q (whole 1) ≡ false)
  Rule investigate =
      (q : Ratio) × (r.derived.ql_rate ≡ some q)
      × (ratio_lt q one_fifth ≡ true)
      × (min_leads ≤ r.leads)
      × (r.sales ≢ 0)

-- `rec` is about a listed ad that spent enough, copies its id, spend and ROAS, and the rule for its
-- type holds of the ad.
pub record IsJustified (target_roas : Ratio) (min_spend min_leads : ℕ) (rows : List MetricRow)
    (rec : Recommendation) : Type 0 where
  pub row : MetricRow
  pub listed : Elem row rows
  pub is_ad : row.level ≡ ad
  pub spent : min_spend ≤ row.spend
  pub id : rec.id ≡ row.id
  pub spend : rec.spend ≡ row.spend
  pub roas : rec.roas ≡ row.derived.roas
  pub rule : Rule target_roas min_leads row rec.type

holds-true :
    (o : Option Ratio) (test : Ratio → Bool)
    → holds o test ≡ true
    → (q : Ratio) × (o ≡ some q) × (test q ≡ true)
holds-true none test h = cc
holds-true (some q) test h = (q, refl, h)

holds-false :
    (o : Option Ratio) (test : Ratio → Bool) (q : Ratio)
    → holds o test ≡ false
    → o ≡ some q
    → test q ≡ false
holds-false none test q h e = cc
holds-false (some p) test q h e = ground arith

module _ (target_roas : Ratio) (min_leads : ℕ) where
  abbrev Advised : MetricRow → Recommendation → Type 0
  Advised r rec =
      (rec.id ≡ r.id)
      × (rec.spend ≡ r.spend)
      × (rec.roas ≡ r.derived.roas)
      × Rule target_roas min_leads r rec.type

  advised :
      (r : MetricRow) (rec : Recommendation) (type : RecommendationType) (title : String)
      (reason : Reason)
      → Rule target_roas min_leads r type
      → some (recommendation r type title reason) ≡ some rec
      → Advised r rec
  advised r rec type title reason rule e =
      let same : recommendation r type title reason ≡ rec = cc in
      subst (Advised r) same (refl, refl, refl, rule)

  advise_sound :
      (r : MetricRow) (rec : Recommendation)
      → advise target_roas min_leads r ≡ some rec
      → Advised r rec
  unfolding advise
  advise_sound r rec e = elim (Bool-cases (eqb r.sales 0 && leb min_leads r.leads)) [
    | inl h ↦ advised r rec pause _ _ (inl (ground arith)) (rw h at e)
    | inr h ↦ elim (Bool-cases (holds r.derived.roas (λ q. ratio_lt q (whole 1)))) [
      | inl k ↦ advised r rec pause _ _ (inr (holds-true _ _ k)) (rw (h, k) at e)
      | inr k ↦
          elim (Bool-cases (holds r.derived.roas (λ q. ratio_le target_roas q) && leb 1 r.sales)) [
            | inl l ↦
                let (q, found, good) =
                  holds-true r.derived.roas (λ q. ratio_le target_roas q) (ground arith) in
                advised r rec scale _ _ (q, found, good, ground arith, holds-false _ _ q k found)
                  (rw (h, k, l) at e)
            | inr l ↦
                elim (Bool-cases
                  (holds r.derived.ql_rate (λ q. ratio_lt q one_fifth) && leb min_leads r.leads)) [
                    | inl m ↦
                        let (q, found, low) =
                          holds-true r.derived.ql_rate (λ q. ratio_lt q one_fifth) (ground arith) in
                        advised r rec investigate _ _ (q, found, low, ground arith, ground arith)
                          (rw (h, k, l, m) at e)
                    | inr m ↦ absurd (cc (rw (h, k, l, m) at e))
                  ]
          ]
    ]
  ]

module _ (target_roas : Ratio) (min_leads min_spend : ℕ) where
  consider_sound :
      (rows : List MetricRow) (r : MetricRow) (rec : Recommendation)
      → Elem r rows
      → consider target_roas min_leads min_spend r ≡ some rec
      → IsJustified target_roas min_spend min_leads rows rec
  unfolding consider
  consider_sound rows r rec listed e =
      let advice : advise target_roas min_leads r ≡ some rec = ground arith in
      let (id, spend, roas, rule) = advise_sound target_roas min_leads r rec advice in
      record {
        row = r;
        listed = listed;
        is_ad = ground arith;
        spent = ground arith;
        id = id;
        spend = spend;
        roas = roas;
        rule = rule;
      }

  collect_sound :
      (all rows : List MetricRow)
      → ((r : MetricRow) → Elem r rows → Elem r all)
      → All
          (IsJustified target_roas min_spend min_leads all)
          (collect target_roas min_leads min_spend rows)
  unfolding collect
  collect_sound all [] sub = tt
  collect_sound all (r ∷ rows) sub =
      let rest = collect_sound all rows (λ s k. sub s (inr k)) in
      elim (Option-cases (consider target_roas min_leads min_spend r)) [
        | inl e ↦ rw e rest
        | inr (rec, e) ↦ rw e (consider_sound all r rec (sub r (inl refl)) e, rest)
      ]

  Elem-collect :
      (rows : List MetricRow) (r : MetricRow) (rec : Recommendation)
      → Elem r rows
      → consider target_roas min_leads min_spend r ≡ some rec
      → Elem rec (collect target_roas min_leads min_spend rows)
  unfolding collect
  Elem-collect [] r rec k e = absurd k
  Elem-collect (s ∷ rows) r rec (inl same) e = rw (← same, e) (inl refl)
  Elem-collect (s ∷ rows) r rec (inr k) e =
      let later = Elem-collect rows r rec k e in
      elim (Option-cases (consider target_roas min_leads min_spend s)) [
        | inl miss ↦ rw miss later
        | inr (other, found) ↦ rw found (inr later)
      ]

  consider_pause :
      (r : MetricRow)
      → r.level ≡ ad
      → min_spend ≤ r.spend
      → Rule target_roas min_leads r pause
      → (rec : Recommendation) × (consider target_roas min_leads min_spend r ≡ some rec)
        × (rec.type ≡ pause)
        × (rec.id ≡ r.id)
  unfolding consider advise
  consider_pause r is spent rule = elim (Bool-cases (eqb r.sales 0 && leb min_leads r.leads)) [
    | inl h ↦ (
      recommendation r pause "Pause — cheap leads, no sales" (no_sales r.leads),
      ground arith,
      refl,
      refl,
    )
    | inr h ↦ elim rule [
      | inl (none_sold, many) ↦ absurd (ground arith)
      | inr (q, found, low) ↦ (
        recommendation r pause "Pause — losing money" (losing q),
        rw (is, found) (ground arith),
        refl,
        refl,
      )
    ]
  ]

-- Every recommendation is justified: it is about one of the rows, an ad that spent at least the
-- minimum, whose id, spend and ROAS it carries. A pause is given to an ad with no sale and enough
-- leads or to one with a ROAS below 1; a scale to one with a ROAS that is at least the target and
-- not below 1, and a sale; an investigation to one with a sale, enough leads and less than a
-- fifth of them qualified.
pub recommend_sound :
    (rows : List MetricRow) (opts : RecommendOptions)
    → All
        (IsJustified
          (get_or opts.target_roas (whole 3))
          (get_or opts.min_spend (50 * money_unit))
          (get_or opts.min_leads 10)
          rows)
        (recommend rows opts)
unfolding recommend
recommend_sound rows opts = All-sort not_after _ _ (collect_sound _ _ _ rows rows (λ r k. k))

-- No waste is missed: an ad that spent at least the minimum, and has no sale and enough leads or a
-- ROAS below 1, gets a recommendation to pause.
pub recommend_pause :
    (rows : List MetricRow) (opts : RecommendOptions) (r : MetricRow)
    → Elem r rows
    → r.level ≡ ad
    → get_or opts.min_spend (50 * money_unit) ≤ r.spend
    → Rule (get_or opts.target_roas (whole 3)) (get_or opts.min_leads 10) r pause
    → (rec : Recommendation) × Elem rec (recommend rows opts) × (rec.type ≡ pause) × (rec.id ≡ r.id)
unfolding recommend
recommend_pause rows opts r listed is spent rule =
    let (rec, found, type, id) = consider_pause _ _ _ r is spent rule in
    (rec, Elem-sort not_after _ _ (Elem-collect _ _ _ rows r rec listed found), type, id)
