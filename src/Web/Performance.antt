-- ===== src/Web/Performance.antt =====
-- The page of apps/web/src/app/(app)/performance/page.tsx over the rows of the API's report: the
-- levels that it drills into, the rows that it shows, their totals, and the state of their delivery.
-- The elements that show them, the formats of the numbers and the sorting of the table's library are
-- left out.
pub mod Levels
pub mod Sums
mod Tests
use ad_link.Common.{
  ℕ, ◌+◌, ◌-◌, ltb, Bool, true, false, not, ◌&&◌, ◌||◌, Option, none, some, String, List, [], ◌∷◌,
  ◌++◌, ◌==◌, string_eq, if◌then◌else◌, filter, lookup, insert, get_or, length,
}
use ad_link.Core.Metrics.{MetricInputs, MetricRow, Level, Derived, derive_metrics}
use ad_link.Metrics.Performance.{no_counts}
use ad_link.Metrics.Creatives.{inputs_of, plus}

pub data StatusFilter : Type 0 where
  all active paused : StatusFilter

abbrev pub is_campaign : MetricRow → Bool
is_campaign r = elim r.level [ Level.campaign ↦ true | _ ↦ false ]

abbrev pub Children : Type 0
Children = List (String × List MetricRow)

-- `r.parentId`, where it is not empty
abbrev pub parent_of : Option String → Option String
parent_of none = none
parent_of (some id) = if id == "" then none else some id

-- The parent under which a row is listed.
abbrev pub listed_under : MetricRow → Option String
listed_under r = if is_campaign r then none else parent_of r.parent_id

abbrev pub add_under : Option String → MetricRow → Children → Children
add_under none r m = m
add_under (some id) r m = insert id (get_or (lookup id m) [] ++ r ∷ []) m

-- `childrenOf`: the loop over the rows
unfoldable pub index_children : List MetricRow → Children → Children
index_children [] m = m
index_children (r ∷ rows) m = index_children rows (add_under (listed_under r) r m)

abbrev pub children_of : List MetricRow → Children
children_of rows = index_children rows []

abbrev pub roots : List MetricRow → List MetricRow
roots = filter is_campaign

abbrev pub has_children : String → Children → Bool
has_children id m = ltb 0 (length (get_or (lookup id m) []))

-- `path.at(-1) ?? null`
abbrev pub current : List MetricRow → Option MetricRow
current [] = none
current (r ∷ []) = some r
current (r ∷ next ∷ path) = current (next ∷ path)

abbrev pub is_active : Option String → Bool
is_active none = false
is_active (some status) = status == "ACTIVE"

-- The test of a row under the filter.
abbrev pub passes : StatusFilter → MetricRow → Bool
passes StatusFilter.all r = true
passes StatusFilter.active r = is_active r.status
passes StatusFilter.paused r = not (is_active r.status)

abbrev pub level_rows : Option MetricRow → List MetricRow → List MetricRow
level_rows none rows = roots rows
level_rows (some r) rows = get_or (lookup r.id (children_of rows)) []

-- `visibleRows`
unfoldable pub visible_rows : List MetricRow → StatusFilter → List MetricRow → List MetricRow
visible_rows path StatusFilter.all rows = level_rows (current path) rows
visible_rows path status rows = filter (passes status) (level_rows (current path) rows)

-- The clicks on the page: on a row, which drills in where the row has children, on a name of the path,
-- and on the root of the path.
pub data Click : Type 0 where
  drill : MetricRow → Click
  back : ℕ → Click
  top : Click

-- `path.slice(0, n)`
abbrev pub slice : ℕ → List MetricRow → List MetricRow
slice n [] = []
slice n (r ∷ path) = if ltb 0 n then r ∷ slice (n - 1) path else []

unfoldable pub click : Click → List MetricRow → List MetricRow → List MetricRow
click (drill r) rows path = if has_children r.id (children_of rows) then path ++ r ∷ [] else path
click (back i) rows path = slice (i + 1) path
click top rows path = []

-- `levelLabel`
abbrev pub level_label : Option MetricRow → String
level_label none = "campaigns"
level_label (some r) = if is_campaign r then "ad sets" else "ads"

-- `visibleRows.reduce`
unfoldable pub sums_of : List MetricRow → MetricInputs → MetricInputs
sums_of [] acc = acc
sums_of (r ∷ rows) acc = sums_of rows (plus acc (inputs_of r))

pub record Totals : Type 0 where
  pub sums : MetricInputs
  pub derived : Derived

-- `totals`
abbrev pub totals : List MetricRow → Totals
totals rows =
    let sums = sums_of rows no_counts in record { sums = sums; derived = derive_metrics sums }

-- `EFFECTIVE_STATUS_LABELS`
abbrev pub effective_label : String → String
effective_label s =
    if s == "PENDING_BILLING_INFO"
    then "Payment error"
    else if s == "CAMPAIGN_PAUSED" || s == "ADSET_PAUSED"
    then "Paused (parent)"
    else if s == "DISAPPROVED"
    then "Disapproved"
    else if s == "WITH_ISSUES"
    then "Delivery issue"
    else if s == "PENDING_REVIEW" || s == "IN_PROCESS"
    then "In review"
    else "Not delivering"

-- The colour of the dot.
pub data Dot : Type 0 where
  muted emerald destructive : Dot

abbrev pub delivering : Option String → Bool
delivering none = true
delivering (some s) = s == "" || s == "ACTIVE"

-- `deliveryInfo`
unfoldable pub delivery_info : Option String → Option String → String × Dot
delivery_info status effective_status =
    if not (is_active status)
    then ("Off", muted)
    else if delivering effective_status
    then ("Active", emerald)
    else (effective_label (get_or effective_status ""), destructive)
