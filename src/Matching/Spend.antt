-- ===== src/Matching/Spend.antt =====
-- How apps/api/src/matching/matching.service.ts breaks a tie among ads of one name by their spend.
use ad_link.Common.{
  ℕ, ◌≤◌, Bool, true, ◌&&◌, Option, none, some, String, List, [], ◌∷◌, ◌≡◌, ◌≢◌, inl, inr, eqb,
  Option-cases, ◌==◌, string_eq, Bool-cases, filter, Elem, Elem-filter, Elem-filter_intro,
  Elem-sort, Elem-of_sort, Elem-All, refl, arith, eq_iff, head?, sort, nil_of_sort-nil,
  sort-IsSorted, contains, contains-add, subst, sym, IsSorted, leb→le,
}
use native.Mathlib.Nat.{le_refl}
use ad_link.Db.{Insight, day_of}
use ad_link.Matching.{disambiguate_by_spend, is_spent, by_spend_desc, ads_of, only}

ads_of-Elem :
    (rows : List Insight) (a : String)
    → contains (ads_of rows) a ≡ true
    → (i : Insight) × Elem i rows × (i.ad_id ≡ a)
unfolding ads_of
ads_of-Elem [] a h = cc
ads_of-Elem (i ∷ rows) a h = elim (Bool-cases (i.ad_id == a)) [
  | inl e ↦ (i, inl refl, (eq_iff i.ad_id a).0 e)
  | inr e ↦
      let (j, k, same) =
        ads_of-Elem rows a (ground (arith, contains-add (ads_of rows) i.ad_id a)) in
      (j, inr k, same)
]

contains-only : (l : List String) (a : String) → only l ≡ some a → contains l a ≡ true
contains-only [] a e = cc
contains-only (x ∷ []) a e = ground (arith, eq_iff x a)
contains-only (x ∷ y ∷ l) a e = cc

-- `i` is a row of the ad `a` with a spend. If one of the ads spent on the day, `i` is a row of that
-- day, and none of the day has a higher spend.
pub record IsWinner (ids : List String) (day : ℕ) (insights : List Insight) (a : String)
    (i : Insight) : Type 0 where
  pub listed : Elem i insights
  pub ad_id : i.ad_id ≡ a
  pub spent : is_spent ids i ≡ true
  pub top :
      (j : Insight)
      → Elem j insights
      → is_spent ids j ≡ true
      → j.date ≡ day
      → (i.date ≡ day) × (j.spend ≤ i.spend)

le_top :
    (top : Insight) (rest : List Insight) (j : Insight)
    → IsSorted by_spend_desc (top ∷ rest)
    → Elem j (top ∷ rest)
    → j.spend ≤ top.spend
le_top top rest j order (inl e) = rw e (le_refl _)
le_top top rest j order (inr k) =
    leb→le _ _ (Elem-All (λ y. by_spend_desc top y ≡ true) j rest order.0 k)

abbrev on_day : List String → ℕ → Insight → Bool
on_day ids day i = is_spent ids i && eqb i.date day

module _ (ids : List String) (day : ℕ) (insights : List Insight) (a : String) where
  Elem-on_day :
      (j : Insight)
      → Elem j insights
      → is_spent ids j ≡ true
      → j.date ≡ day
      → Elem j (sort by_spend_desc (filter (on_day ids day) insights))
  Elem-on_day j k s d =
      Elem-sort by_spend_desc j _ (Elem-filter_intro (on_day ids day) j insights k (ground arith))

  IsWinner-top :
      (top : Insight) (rest : List Insight)
      → sort by_spend_desc (filter (on_day ids day) insights) ≡ top ∷ rest
      → top.ad_id ≡ a
      → IsWinner ids day insights a top
  IsWinner-top top rest e same =
      let sorted = subst (λ l. Elem top l) (sym e) (inl refl) in
      let (listed, good) =
        Elem-filter (on_day ids day) top insights (Elem-of_sort by_spend_desc top _ sorted) in
      let order = rw e at (
        sort-IsSorted by_spend_desc (λ x y h. ground arith) (λ x y z h k. ground arith)
          (filter (on_day ids day) insights)) in
      record {
        listed = listed;
        ad_id = same;
        spent = ground arith;
        top = λ j k s d. (ground arith, le_top top rest j order (rw e at (Elem-on_day j k s d)));
      }

  IsWinner-only :
      filter (on_day ids day) insights ≡ []
      → only (ads_of (filter (is_spent ids) insights)) ≡ some a
      → (i : Insight) × IsWinner ids day insights a i
  IsWinner-only quiet e =
      let (i, k, same) = ads_of-Elem _ a (contains-only _ a e) in
      let (listed, spent) = Elem-filter (is_spent ids) i insights k in
      (
        i,
        record {
          listed = listed;
          ad_id = same;
          spent = spent;
          top = λ j m s d.
              absurd (rw quiet at (Elem-filter_intro (on_day ids day) j insights m (ground arith)));
        },
      )

-- What a tie comes to: with an ad, that ad is a winner; with none, no given ad spent on the day.
abbrev pub IsTieBreak : List String → ℕ → List Insight → Option String → Type 0
IsTieBreak ids day insights (some a) = (i : Insight) × IsWinner ids day insights a i
IsTieBreak ids day insights none =
    (j : Insight) → Elem j insights → is_spent ids j ≡ true → j.date ≢ day

-- The tie among ads of one name goes to one of the given ads that has a row with a spend: where any of
-- them spent on the day of the lead, to one with the highest spend of that day. It goes to none only
-- where none of them spent on that day.
pub disambiguate_by_spend-IsTieBreak :
    (ids : List String) (at : ℕ) (insights : List Insight)
    → IsTieBreak ids (day_of at) insights (disambiguate_by_spend ids at insights)
unfolding disambiguate_by_spend
disambiguate_by_spend-IsTieBreak ids at insights =
    decide (sort by_spend_desc (filter (on_day ids (day_of at)) insights)) refl
  where
    decide :
        (l : List Insight)
        → sort by_spend_desc (filter (on_day ids (day_of at)) insights) ≡ l
        → IsTieBreak ids (day_of at) insights (elim (head? l) as (λ _. Option String) [
          | some top ↦ some top.ad_id
          | none ↦ only (ads_of (filter (is_spent ids) insights))
        ])
    decide (top ∷ rest) q = (top, IsWinner-top ids (day_of at) insights top.ad_id top rest q refl)
    decide [] q = elim (Option-cases (only (ads_of (filter (is_spent ids) insights)))) [
      | inl e ↦ rw e (λ j k s d. absurd (rw q at (Elem-on_day ids (day_of at) insights "" j k s d)))
      | inr (a, e) ↦
          rw e (IsWinner-only ids (day_of at) insights a (nil_of_sort-nil by_spend_desc _ q) e)
    ]
