-- ===== src/Web/Performance/Sums.antt =====
-- The totals of the page of apps/web/src/app/(app)/performance/page.tsx.
use ad_link.Common.{
  Bool, true, ◌&&◌, not, List, [], ◌∷◌, ◌≡◌, inl, inr, sym, ap, ◌∙◌, arith, string_eq, Bool-cases,
  filter,
}
use ad_link.Core.Metrics.{MetricInputs, MetricRow}
use ad_link.Metrics.Performance.{no_counts}
use ad_link.Metrics.Creatives.{inputs_of, plus}
use ad_link.Web.Performance.{StatusFilter, current, passes, visible_rows, sums_of, totals}
use ad_link.Web.Performance.Levels.{belongs, visible_rows-filter}

inputs_eq :
    (a b : MetricInputs)
    → a.spend ≡ b.spend
    → a.impressions ≡ b.impressions
    → a.clicks ≡ b.clicks
    → a.leads ≡ b.leads
    → a.qualified_leads ≡ b.qualified_leads
    → a.sales ≡ b.sales
    → a.revenue ≡ b.revenue
    → a ≡ b
inputs_eq a b p q r s t u v = cc (p, q, r, s, t, u, v)

plus_assoc : (a b c : MetricInputs) → plus (plus a b) c ≡ plus a (plus b c)
plus_assoc a b c =
    inputs_eq _ _ (omega arith) (omega arith) (omega arith) (omega arith) (omega arith)
      (omega arith) (omega arith)

plus_left_comm : (a b c : MetricInputs) → plus a (plus b c) ≡ plus b (plus a c)
plus_left_comm a b c =
    inputs_eq _ _ (omega arith) (omega arith) (omega arith) (omega arith) (omega arith)
      (omega arith) (omega arith)

no_counts-plus : (a : MetricInputs) → plus no_counts a ≡ a
no_counts-plus a =
    inputs_eq _ _ (omega arith) (omega arith) (omega arith) (omega arith) (omega arith)
      (omega arith) (omega arith)

plus-no_counts : (a : MetricInputs) → plus a no_counts ≡ a
plus-no_counts a =
    inputs_eq _ _ (omega arith) (omega arith) (omega arith) (omega arith) (omega arith)
      (omega arith) (omega arith)

sums_of-acc :
    (rows : List MetricRow) (acc : MetricInputs)
    → sums_of rows acc ≡ plus acc (sums_of rows no_counts)
unfolding sums_of
sums_of-acc [] acc = sym (plus-no_counts acc)
sums_of-acc (r ∷ rows) acc =
    let first =
      sums_of-acc rows (plus no_counts (inputs_of r))
      ∙ ap (λ a. plus a (sums_of rows no_counts)) (no_counts-plus (inputs_of r)) in
    sums_of-acc rows (plus acc (inputs_of r))
    ∙ plus_assoc acc (inputs_of r) (sums_of rows no_counts)
    ∙ ap (plus acc) (sym first)

sums_of-∷ :
    (r : MetricRow) (rows : List MetricRow)
    → sums_of (r ∷ rows) no_counts ≡ plus (inputs_of r) (sums_of rows no_counts)
unfolding sums_of
sums_of-∷ r rows =
    sums_of-acc rows (plus no_counts (inputs_of r))
    ∙ ap (λ a. plus a (sums_of rows no_counts)) (no_counts-plus (inputs_of r))

-- The sums of the rows that have a property, and of those that have not.
sums_of-split :
    (b p : MetricRow → Bool) (rows : List MetricRow)
    → sums_of (filter (λ r. b r && true) rows) no_counts
      ≡ plus
          (sums_of (filter (λ r. b r && p r) rows) no_counts)
          (sums_of (filter (λ r. b r && not (p r)) rows) no_counts)
unfolding sums_of
sums_of-split b p [] = sym (plus-no_counts (sums_of [] no_counts))
sums_of-split b p (r ∷ rows) =
    let i = inputs_of r in
    let X = filter (λ r. b r && true) rows in
    let Y = filter (λ r. b r && p r) rows in
    let Z = filter (λ r. b r && not (p r)) rows in
    let SY = sums_of Y no_counts in
    let SZ = sums_of Z no_counts in
    let rest = sums_of-split b p rows in
    elim (Bool-cases (b r)) [
      | inr e ↦ rw e rest
      | inl e ↦ elim (Bool-cases (p r)) [
        | inl k ↦
            rw (e, k)
              (sums_of-∷ r X
                ∙ ap (plus i) rest
                ∙ sym (plus_assoc i SY SZ)
                ∙ ap (λ a. plus a SZ) (sym (sums_of-∷ r Y)))
        | inr k ↦
            rw (e, k)
              (sums_of-∷ r X
                ∙ ap (plus i) rest
                ∙ plus_left_comm i SY SZ
                ∙ ap (plus SY) (sym (sums_of-∷ r Z)))
      ]
    ]

-- At every level the totals of the rows that are active and of those that are not add up to the totals
-- of all rows: each row of the level is counted under one of the two filters.
pub totals-split :
    (path : List MetricRow) (rows : List MetricRow)
    → (totals (visible_rows path StatusFilter.all rows)).sums
      ≡ plus
          (totals (visible_rows path StatusFilter.active rows)).sums
          (totals (visible_rows path StatusFilter.paused rows)).sums
totals-split path rows =
    rw
      (
        visible_rows-filter path StatusFilter.all rows,
        visible_rows-filter path StatusFilter.active rows,
        visible_rows-filter path StatusFilter.paused rows,
      )
      (sums_of-split (belongs (current path)) (passes StatusFilter.active) rows)
