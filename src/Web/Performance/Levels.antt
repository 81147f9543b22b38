-- ===== src/Web/Performance/Levels.antt =====
-- What the page of apps/web/src/app/(app)/performance/page.tsx shows at a level.
use ad_link.Common.{
  Bool, true, false, ◌&&◌, Option, none, some, String, List, [], ◌∷◌, ◌++◌, append_assoc,
  append-nil, ◌≡◌, inl, inr, refl, sym, ap, ◌∙◌, arith, ◌==◌, string_eq, eq_iff, Bool-cases, filter,
  lookup, lookup-insert, get_or, if◌then◌else◌,
}
use ad_link.Core.Metrics.{MetricRow}
use ad_link.Web.Performance.{
  StatusFilter, is_campaign, Children, listed_under, add_under, index_children, current, passes,
  level_rows, visible_rows,
}

-- A row is listed under this one.
abbrev pub is_under : String → Option String → Bool
is_under id none = false
is_under id (some parent) = parent == id

abbrev pub is_child : String → MetricRow → Bool
is_child id r = is_under id (listed_under r)

lookup-add_under :
    (id : String) (p : Option String) (r : MetricRow) (m : Children)
    → get_or (lookup id (add_under p r m)) []
      ≡ get_or (lookup id m) [] ++ (if is_under id p then r ∷ [] else [])
lookup-add_under id none r m = sym (append-nil _)
lookup-add_under id (some parent) r m =
    let found = lookup-insert parent id (get_or (lookup parent m) [] ++ r ∷ []) m in
    elim (Bool-cases (parent == id)) [
      | inl e ↦
          let same = (eq_iff parent id).0 e in
          rw (found, e) (ap (λ i. get_or (lookup i m) [] ++ r ∷ []) same)
      | inr e ↦ rw (found, e) (sym (append-nil _))
    ]

lookup-index_children :
    (id : String) (rows : List MetricRow) (m : Children)
    → get_or (lookup id (index_children rows m)) []
      ≡ get_or (lookup id m) [] ++ filter (is_child id) rows
unfolding index_children
lookup-index_children id [] m = sym (append-nil _)
lookup-index_children id (r ∷ rows) m =
    lookup-index_children id rows (add_under (listed_under r) r m)
    ∙ ap (λ found. found ++ filter (is_child id) rows) (lookup-add_under id (listed_under r) r m)
    ∙ append_assoc (get_or (lookup id m) []) (if is_child id r then r ∷ [] else [])
        (filter (is_child id) rows)
    ∙ elim (Bool-cases (is_child id r)) [ inl e ↦ rw e refl | inr e ↦ rw e refl ]

-- A row belongs to the level below this one, or to the top.
abbrev pub belongs : Option MetricRow → MetricRow → Bool
belongs none = is_campaign
belongs (some above) = is_child above.id

level_rows-filter :
    (above : Option MetricRow) (rows : List MetricRow)
    → level_rows above rows ≡ filter (belongs above) rows
unfolding lookup
level_rows-filter none rows = refl
level_rows-filter (some above) rows = lookup-index_children above.id rows []

filter-filter :
    (p q : MetricRow → Bool) (rows : List MetricRow)
    → filter q (filter p rows) ≡ filter (λ r. p r && q r) rows
filter-filter p q [] = refl
filter-filter p q (r ∷ rows) = ground (arith, filter-filter p q rows)

filter_all :
    (p : MetricRow → Bool) (rows : List MetricRow) → filter p rows ≡ filter (λ r. p r && true) rows
filter_all p [] = refl
filter_all p (r ∷ rows) = ground (arith, filter_all p rows)

-- The page shows, in the order of the report, the rows that belong to the level of the path and that
-- the filter lets through: the campaigns at the top, and else the rows whose parent was drilled into.
pub visible_rows-filter :
    (path : List MetricRow) (status : StatusFilter) (rows : List MetricRow)
    → visible_rows path status rows ≡ filter (λ r. belongs (current path) r && passes status r) rows
unfolding visible_rows
visible_rows-filter path StatusFilter.all rows =
    level_rows-filter (current path) rows ∙ filter_all (belongs (current path)) rows
visible_rows-filter path StatusFilter.active rows =
    ap (filter (passes StatusFilter.active)) (level_rows-filter (current path) rows)
    ∙ filter-filter (belongs (current path)) (passes StatusFilter.active) rows
visible_rows-filter path StatusFilter.paused rows =
    ap (filter (passes StatusFilter.paused)) (level_rows-filter (current path) rows)
    ∙ filter-filter (belongs (current path)) (passes StatusFilter.paused) rows
