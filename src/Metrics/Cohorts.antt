-- ===== src/Metrics/Cohorts.antt =====
-- `cohorts` of apps/api/src/metrics/metrics.service.ts. A week is named by the date of its Monday; the
-- dates are from 5 January 1970 on.
use ad_link.Common.{
  ℕ, ◌+◌, ◌-◌, ◌%◌, Bool, ◌&&◌, Option, none, some, String, List, [], ◌∷◌, ◌==◌, string_eq, nat_eq,
  leb, if◌then◌else◌, get_or, truthy, filter, map, contains, keys, values, lookup, insert, sort,
}
use ad_link.Core.Enums.{is_matched, is_won}
use ad_link.Core.Metrics.{Ratio, ratio}
use ad_link.Db.{day_of, Lead, Deal, Insight}
use ad_link.Metrics.{
  Store, Range, first_moment, last_moment, later_of, meta_floor, crm_floor, report_currency,
  convert, round, older_lead,
}
use ad_link.Metrics.Performance.{is_contact_deal, is_insight_between, qualified_of, revenue_of}

-- The Monday of the week of a date; 1 January 1970 was a Thursday.
abbrev pub monday_of : ℕ → ℕ
monday_of day = day - (day + 3) % 7

pub record CohortRow : Type 0 where
  pub week : ℕ
  pub leads : ℕ
  pub qualified_leads : ℕ
  pub sales : ℕ
  pub revenue : ℕ
  pub spend : ℕ
  pub roas : Option Ratio

abbrev pub empty_week : ℕ → CohortRow
empty_week w = record {
  week = w;
  leads = 0;
  qualified_leads = 0;
  sales = 0;
  revenue = 0;
  spend = 0;
  roas = none;
}

-- `ensureWeek(w)`, and an update of the row that it gives.
unfoldable pub in_week : ℕ → (CohortRow → CohortRow) → List (ℕ × CohortRow) → List (ℕ × CohortRow)
in_week w fn weeks = elim (lookup w weeks) [
  | none ↦ insert w (fn (empty_week w)) weeks
  | some row ↦ insert w (fn row) weeks
]

abbrev pub count_lead : CohortRow → CohortRow
count_lead row = record row { leads = row.leads + 1 }

-- The loop over the leads, the oldest first: the weeks, and the week of each contact.
unfoldable pub add_leads :
    List Lead → List (ℕ × CohortRow) → List (String × ℕ) → List (ℕ × CohortRow) × List (String × ℕ)
add_leads [] weeks contact_week = (weeks, contact_week)
add_leads (l ∷ leads) weeks contact_week =
    let w = monday_of (day_of l.created_at) in
    add_leads leads (in_week w count_lead weeks) (
      if truthy l.contact_id
      then (if contains (keys contact_week) (get_or l.contact_id "")
          then contact_week
          else insert (get_or l.contact_id "") w contact_week)
      else contact_week)

pub record Won : Type 0 where
  pub count : ℕ
  pub revenue : ℕ

-- `won`: the sales and the revenue of each contact.
unfoldable pub won_of : Store → String → List Deal → List (String × Won) → List (String × Won)
won_of s report [] m = m
won_of s report (d ∷ deals) m =
    let k = get_or d.contact_id "" in
    let cur = get_or (lookup k m) (record { count = 0; revenue = 0 }) in
    won_of s report deals (
      if truthy d.contact_id && is_won d.canonical
      then insert k
          (record { count = cur.count + 1; revenue = cur.revenue + revenue_of s report d }) m
      else m)

-- What a contact adds to the row of its week.
abbrev pub credit : Bool → Option Won → CohortRow → CohortRow
credit qualified none row = record row {
  qualified_leads = if qualified then row.qualified_leads + 1 else row.qualified_leads;
}
credit qualified (some w) row = record row {
  qualified_leads = if qualified then row.qualified_leads + 1 else row.qualified_leads;
  sales = row.sales + w.count;
  revenue = row.revenue + w.revenue;
}

unfoldable pub add_contacts :
    List String
    → List (String × Won)
    → List (String × ℕ)
    → List (ℕ × CohortRow)
    → List (ℕ × CohortRow)
add_contacts qualified won [] weeks = weeks
add_contacts qualified won ((contact_id, w) ∷ contacts) weeks =
    add_contacts qualified won contacts
      (in_week w (credit (contains qualified contact_id) (lookup contact_id won)) weeks)

abbrev pub spend_in : ℕ → CohortRow → CohortRow
spend_in amount row = record row { spend = row.spend + amount }

unfoldable pub add_spend :
    Store → String → List Insight → List (ℕ × CohortRow) → List (ℕ × CohortRow)
add_spend s report [] weeks = weeks
add_spend s report (i ∷ insights) weeks =
    add_spend s report insights
      (in_week (monday_of i.date) (spend_in (convert s report i.spend i.currency)) weeks)

abbrev pub finished : CohortRow → CohortRow
finished c = record c {
  spend = round c.spend;
  revenue = round c.revenue;
  roas = ratio c.revenue c.spend;
}

abbrev pub earlier_week : CohortRow → CohortRow → Bool
earlier_week a b = leb a.week b.week

-- The matched leads of the range, with or without an ad.
abbrev pub is_cohort_lead : String → ℕ → ℕ → Lead → Bool
is_cohort_lead tenant_id from to l =
    l.tenant_id == tenant_id
    && (is_matched l.match_status && (leb from l.created_at && leb l.created_at to))

-- The leads of the report, the oldest first.
abbrev pub cohort_leads : String → Range → Store → List Lead
cohort_leads tenant_id range s =
    let from = later_of (first_moment range) (crm_floor tenant_id s) in
    sort older_lead (filter (is_cohort_lead tenant_id from (last_moment range)) s.leads)

unfoldable pub cohorts : String → Range → Store → List CohortRow
cohorts tenant_id range s =
    let report = report_currency tenant_id s in
    let spend_from = later_of (first_moment range) (meta_floor tenant_id s) in
    let (weeks, contact_week) = add_leads (cohort_leads tenant_id range s) [] [] in
    let deals =
      filter (is_contact_deal tenant_id (keys contact_week) (crm_floor tenant_id s)) s.deals in
    let insights =
      filter (is_insight_between tenant_id spend_from (last_moment range)) s.insights in
    sort earlier_week (
      map finished (
        values (
          add_spend s report insights
            (add_contacts (qualified_of deals) (won_of s report deals []) contact_week weeks))))
