-- ===== src/Connectors.antt =====
-- The connectors of apps/api/src/connectors, which read an ad platform or a CRM page by page. What a
-- server answers is a parameter; it may answer each request anew, so that an answer depends on the
-- number of the request too.
pub mod Paging
pub mod Meta
pub mod Bitrix
pub mod Amo
pub mod Complete
mod Tests
use ad_link.Common.{
  ℕ, zero, suc, ◌+◌, Bool, true, false, Option, none, some, List, [], ◌∷◌, ◌++◌, String, truthy,
  if◌then◌else◌,
}

-- What the body of a paging loop makes of one answer: it throws, it has the last rows, or it has rows
-- and goes on at a cursor.
pub data Page (R C : Type 0) : Type 0 where
  failed : Page R C
  last : List R → Page R C
  more : List R → C → Page R C

-- How a loop ends: it throws, it has read its pages, or its rounds are used up before the last page.
pub data Outcome (R : Type 0) : Type 0 where
  thrown : Outcome R
  done : List R → ℕ → Outcome R
  cut : List R → Outcome R

module _ {R C : Type 0} (ask : ℕ → C → Page R C) where
  -- The loop `while (guard++ < rounds)`, from the request `i` on, with the rows of the earlier pages.
  unfoldable pub follow : ℕ → ℕ → C → List R → Outcome R
  follow zero i cursor out = cut out
  follow (suc rounds) i cursor out = elim (ask i cursor) [
    | failed ↦ thrown
    | last rows ↦ done (out ++ rows) (i + 1)
    | more rows next ↦ follow rounds (i + 1) next (out ++ rows)
  ]

-- What the caller gets: the rows, in both cases in which the loop does not throw.
abbrev pub rows_of : {R : Type 0} → Outcome R → Option (List R)
rows_of thrown = none
rows_of (done rows pages) = some rows
rows_of (cut rows) = some rows

abbrev pub map_option : {A B : Type 0} → (A → B) → Option A → Option B
map_option f none = none
map_option f (some a) = some (f a)

-- `text ? text : undefined`
abbrev pub when_truthy : Option String → Option String
when_truthy o = if truthy o then o else none
