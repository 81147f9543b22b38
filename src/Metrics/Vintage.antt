-- ===== src/Metrics/Vintage.antt =====
-- What the cohort report of apps/api/src/metrics/metrics.service.ts counts.
use ad_link.Common.{
  ℕ, ◌+◌, Bool, Option, none, some, String, List, [], ◌∷◌, ◌≡◌, inl, inr, refl, arith, ◌==◌, nat_eq,
  string_eq, lookup, insert, length, map, values, sort, Bool-cases, Option-cases, ap, ◌∙◌,
  insert_sorted, contains,
}
use ad_link.Db.{Lead, Insight, day_of}
use ad_link.Metrics.{Store, Range, convert}
use ad_link.Metrics.Cohorts.{
  CohortRow, empty_week, in_week, count_lead, add_leads, Won, credit, add_contacts, spend_in,
  add_spend, finished, earlier_week, cohort_leads, cohorts, monday_of,
}

abbrev pub total_leads : List CohortRow → ℕ
total_leads [] = 0
total_leads (c ∷ cs) = c.leads + total_leads cs

insert-total :
    (w : ℕ) (row : CohortRow) (m : List (ℕ × CohortRow))
    → lookup w m ≡ none
    → total_leads (values (insert w row m)) ≡ total_leads (values m) + row.leads
unfolding lookup insert
insert-total w row [] e = omega arith
insert-total w row ((v, old) ∷ m) e = elim (Bool-cases (v == w)) [
  | inl f ↦ absurd (ground (arith, e, f))
  | inr f ↦ rw f (omega (arith, insert-total w row m (ground (arith, e, f))))
]

replace-total :
    (w : ℕ) (row old : CohortRow) (m : List (ℕ × CohortRow))
    → lookup w m ≡ some old
    → total_leads (values (insert w row m)) + old.leads ≡ total_leads (values m) + row.leads
unfolding lookup insert
replace-total w row old [] e = absurd (cc e)
replace-total w row old ((v, here) ∷ m) e = elim (Bool-cases (v == w)) [
  | inl f ↦ let same : here ≡ old = ground (arith, e, f) in rw (f, same) (omega arith)
  | inr f ↦ rw f (omega (arith, replace-total w row old m (ground (arith, e, f))))
]

-- An update that adds `n` leads to a row adds them to the total.
in_week-total :
    (n w : ℕ) (fn : CohortRow → CohortRow) (m : List (ℕ × CohortRow))
    → ((row : CohortRow) → (fn row).leads ≡ row.leads + n)
    → total_leads (values (in_week w fn m)) ≡ total_leads (values m) + n
unfolding in_week
in_week-total n w fn m adds = elim (Option-cases (lookup w m)) [
  | inl e ↦
      rw (e, in_week) (omega (arith, insert-total w (fn (empty_week w)) m e, adds (empty_week w)))
  | inr (row, e) ↦ rw (e, in_week) (omega (arith, replace-total w (fn row) row m e, adds row))
]

add_leads-total :
    (leads : List Lead) (weeks : List (ℕ × CohortRow)) (contact_week : List (String × ℕ))
    → total_leads (values (add_leads leads weeks contact_week).0)
      ≡ total_leads (values weeks) + length leads
unfolding add_leads
add_leads-total [] weeks cw = omega arith
add_leads-total (l ∷ leads) weeks cw =
    let w = monday_of (day_of l.created_at) in
    omega (
      arith,
      add_leads-total leads (in_week w count_lead weeks) _,
      in_week-total 1 w count_lead weeks (λ row. refl),
    )

credit-leads :
    (q : Bool) (o : Option Won) (row : CohortRow) → (credit q o row).leads ≡ row.leads + 0
credit-leads q none row = omega arith
credit-leads q (some w) row = omega arith

add_contacts-total :
    (qualified : List String) (won : List (String × Won)) (contacts : List (String × ℕ))
    (weeks : List (ℕ × CohortRow))
    → total_leads (values (add_contacts qualified won contacts weeks)) ≡ total_leads (values weeks)
unfolding add_contacts
add_contacts-total qualified won [] weeks = refl
add_contacts-total qualified won ((c, w) ∷ contacts) weeks =
    let fn = credit (contains qualified c) (lookup c won) in
    omega (
      arith,
      add_contacts-total qualified won contacts (in_week w fn weeks),
      in_week-total 0 w fn weeks (credit-leads (contains qualified c) (lookup c won)),
    )

add_spend-total :
    (s : Store) (report : String) (insights : List Insight) (weeks : List (ℕ × CohortRow))
    → total_leads (values (add_spend s report insights weeks)) ≡ total_leads (values weeks)
unfolding add_spend
add_spend-total s report [] weeks = refl
add_spend-total s report (i ∷ insights) weeks =
    let w = monday_of i.date in
    let fn = spend_in (convert s report i.spend i.currency) in
    omega (
      arith,
      add_spend-total s report insights (in_week w fn weeks),
      in_week-total 0 w fn weeks (λ row. omega arith),
    )

finished-total : (rows : List CohortRow) → total_leads (map finished rows) ≡ total_leads rows
finished-total [] = refl
finished-total (c ∷ rows) = ap (λ n. c.leads + n) (finished-total rows)

insert_sorted-total :
    (c : CohortRow) (rows : List CohortRow)
    → total_leads (insert_sorted earlier_week c rows) ≡ c.leads + total_leads rows
unfolding insert_sorted
insert_sorted-total c [] = refl
insert_sorted-total c (r ∷ rows) = elim (Bool-cases (earlier_week c r)) [
  | inl e ↦ rw e refl
  | inr e ↦ rw e (omega (arith, insert_sorted-total c rows))
]

sort-total : (rows : List CohortRow) → total_leads (sort earlier_week rows) ≡ total_leads rows
unfolding sort
sort-total [] = refl
sort-total (c ∷ rows) =
    insert_sorted-total c (sort earlier_week rows) ∙ ap (λ n. c.leads + n) (sort-total rows)

-- The cohorts are a partition of the leads: over all weeks of the report the leads add up to the
-- number of matched leads of the tenant in the range since the CRM was connected.
pub cohorts-total :
    (tenant_id : String) (range : Range) (s : Store)
    → total_leads (cohorts tenant_id range s) ≡ length (cohort_leads tenant_id range s)
unfolding cohorts
cohorts-total tenant_id range s =
    sort-total _
    ∙ finished-total _
    ∙ add_spend-total s _ _ _
    ∙ add_contacts-total _ _ _ _
    ∙ add_leads-total (cohort_leads tenant_id range s) [] []
    ∙ zero_add (length (cohort_leads tenant_id range s))
  where
    zero_add : (n : ℕ) → 0 + n ≡ n
    zero_add n = omega arith
