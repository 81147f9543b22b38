-- ===== src/Metrics/Creatives/Totals.antt =====
-- The totals of `creativeInsights` of apps/api/src/metrics/metrics.service.ts.
use ad_link.Common.{
  ℕ, ◌+◌, Bool, Option, String, List, [], ◌∷◌, Text, ◌≡◌, inl, inr, refl, arith, ◌==◌, string_eq,
  text_eq, filter, map, lookup, insert, sort, insert_sorted, Bool-cases,
}
use ad_link.Core.Metrics.{MetricInputs, MetricRow}
use ad_link.Core.Creative.{ParsedCreative, Dimension}
use ad_link.Metrics.{Store, Range, TouchModel}
use ad_link.Metrics.Performance.{no_counts, performance}
use ad_link.Metrics.Creatives.{
  value_of, is_ad, inputs_of, plus, Groups, group_of, grouped, CreativeRow, row_of, by_roas,
  creative_insights,
}

-- The sum over the groups, over the rows, and over the report.
abbrev pub sum_by : {A : Type 0} → (A → ℕ) → List A → ℕ
sum_by f [] = 0
sum_by f (x ∷ xs) = f x + sum_by f xs

sum-insert_sorted :
    {A : Type 0} (le : A → A → Bool) (h : A → ℕ) (x : A) (ys : List A)
    → sum_by h (insert_sorted le x ys) ≡ h x + sum_by h ys
unfolding insert_sorted
sum-insert_sorted le h x [] = refl
sum-insert_sorted le h x (y ∷ ys) = elim (Bool-cases (le x y)) [
  | inl e ↦ rw e refl
  | inr e ↦ rw e (omega (arith, sum-insert_sorted le h x ys))
]

sum-sort :
    {A : Type 0} (le : A → A → Bool) (h : A → ℕ) (xs : List A) → sum_by h (sort le xs) ≡ sum_by h xs
unfolding sort
sum-sort le h [] = refl
sum-sort le h (x ∷ xs) = omega (arith, sum-insert_sorted le h x (sort le xs), sum-sort le h xs)

module _ (f : MetricInputs → ℕ) (additive : (a b : MetricInputs) → f (plus a b) ≡ f a + f b)
    (empty : f no_counts ≡ 0) where
  abbrev of_group : Text × MetricInputs → ℕ
  of_group e = f e.1

  abbrev of_row : MetricRow → ℕ
  of_row r = f (inputs_of r)

  sum-insert :
      (k : Text) (v : MetricInputs) (m : Groups)
      → sum_by of_group (insert k v m) + f (group_of k m) ≡ f v + sum_by of_group m
  unfolding insert lookup
  sum-insert k v [] = omega (arith, empty)
  sum-insert k v ((j, w) ∷ m) = elim (Bool-cases (j == k)) [
    | inl e ↦ rw e (omega arith)
    | inr e ↦ rw e (omega (arith, sum-insert k v m))
  ]

  sum-grouped :
      (value : String → Text) (rows : List MetricRow) (m : Groups)
      → sum_by of_group (grouped value rows m)
        ≡ sum_by of_group m + sum_by of_row (filter is_ad rows)
  unfolding grouped
  sum-grouped value [] m = omega arith
  sum-grouped value (r ∷ rows) m = elim (Bool-cases (is_ad r)) [
    | inr e ↦ rw e (sum-grouped value rows m)
    | inl e ↦
        let g = group_of (value r.id) m in
        let m' = insert (value r.id) (plus g (inputs_of r)) m in
        rw e (
          omega (
            arith,
            sum-grouped value rows m',
            sum-insert (value r.id) (plus g (inputs_of r)) m,
            additive g (inputs_of r),
          ))
  ]

  module _ (h : CreativeRow → ℕ) (kept : (e : Text × MetricInputs) → h (row_of e) ≡ f e.1) where
    sum-map-row_of : (m : Groups) → sum_by h (map row_of m) ≡ sum_by of_group m
    sum-map-row_of [] = refl
    sum-map-row_of (e ∷ m) = omega (arith, kept e, sum-map-row_of m)

    sum-creative_insights :
        (creatives : List (String × Option ParsedCreative)) (tenant_id : String) (range : Range)
        (dimension : Dimension) (model : TouchModel) (s : Store)
        → sum_by h (creative_insights creatives tenant_id range dimension model s)
          ≡ sum_by of_row (filter is_ad (performance tenant_id range model s))
    unfolding creative_insights
    sum-creative_insights creatives tenant_id range dimension model s =
        let value = value_of dimension creatives in
        let rows = performance tenant_id range model s in
        omega (
          arith,
          sum-sort by_roas h (map row_of (grouped value rows [])),
          sum-map-row_of (grouped value rows []),
          sum-grouped value rows [],
        )

-- The leads, the qualified leads and the sales of the rows of the report add up to those of the ads in
-- the performance table.
pub creative_insights-total :
    (creatives : List (String × Option ParsedCreative)) (tenant_id : String) (range : Range)
    (dimension : Dimension) (model : TouchModel) (s : Store)
    → let rows = creative_insights creatives tenant_id range dimension model s in
      let ads = filter is_ad (performance tenant_id range model s) in
      (sum_by (λ r. r.leads) rows ≡ sum_by (λ r. r.leads) ads)
      × (sum_by (λ r. r.qualified_leads) rows ≡ sum_by (λ r. r.qualified_leads) ads)
      × (sum_by (λ r. r.sales) rows ≡ sum_by (λ r. r.sales) ads)
creative_insights-total creatives tenant_id range dimension model s = (
  sum-creative_insights (λ c. c.leads) (λ a b. refl) refl (λ r. r.leads) (λ e. refl) creatives
      tenant_id range dimension model s,
  sum-creative_insights (λ c. c.qualified_leads) (λ a b. refl) refl (λ r. r.qualified_leads)
      (λ e. refl) creatives tenant_id range dimension model s,
  sum-creative_insights (λ c. c.sales) (λ a b. refl) refl (λ r. r.sales) (λ e. refl) creatives
      tenant_id range dimension model s,
)
