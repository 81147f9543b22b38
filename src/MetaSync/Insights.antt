-- ===== src/MetaSync/Insights.antt =====
-- The daily insights that apps/api/src/ingest/meta-sync.service.ts stores.
use ad_link.Common.{
  ℕ, Bool, true, false, ◌⊎◌, All-of_Elem, Elem, Option, String, List, [], ◌∷◌, ◌++◌, ◌≡◌, inl, inr,
  refl, arith, string_eq, eq_iff, any, update_where, All, All-append, All-update_where, Bool-cases,
  Option-cases, lookup,
}
use ad_link.Db.{Insight}
use ad_link.MetaSync.{
  RawInsight, Store, is_early, is_day, insight_of, measured, put_insight, put_insights,
  upsert_insights,
}

-- No ad has two rows of one day.
abbrev pub IsUnique : List Insight → Type 0
IsUnique [] = Unit
IsUnique (i ∷ rows) = (any (is_day i.ad_id i.date) rows ≡ false) × IsUnique rows

-- The row is of the day of the connection or later.
abbrev pub IsFresh : Option ℕ → Insight → Type 0
IsFresh connected i = is_early connected i.date ≡ false

any-measured :
    (ad_id : String) (date : ℕ) (p : Insight → Bool) (raw : RawInsight) (rows : List Insight)
    → any (is_day ad_id date) (update_where p (measured raw) rows) ≡ any (is_day ad_id date) rows
any-measured ad_id date p raw [] = refl
any-measured ad_id date p raw (i ∷ rows) = elim (Bool-cases (p i)) [
  | inl e ↦ rw (e, any-measured ad_id date p raw rows) refl
  | inr e ↦ rw (e, any-measured ad_id date p raw rows) refl
]

IsUnique-measured :
    (p : Insight → Bool) (raw : RawInsight) (rows : List Insight)
    → IsUnique rows
    → IsUnique (update_where p (measured raw) rows)
IsUnique-measured p raw [] u = tt
IsUnique-measured p raw (i ∷ rows) (h, u) = elim (Bool-cases (p i)) [
  | inl e ↦ rw (e, any-measured i.ad_id i.date p raw rows) (h, IsUnique-measured p raw rows u)
  | inr e ↦ rw (e, any-measured i.ad_id i.date p raw rows) (h, IsUnique-measured p raw rows u)
]

any-snoc :
    (p : Insight → Bool) (rows : List Insight) (n : Insight)
    → any p rows ≡ false
    → p n ≡ false
    → any p (rows ++ n ∷ []) ≡ false
any-snoc p [] n h k = rw k
any-snoc p (x ∷ rows) n h k = ground (arith, any-snoc p rows n)

IsUnique-snoc :
    (rows : List Insight) (n : Insight)
    → IsUnique rows
    → any (is_day n.ad_id n.date) rows ≡ false
    → IsUnique (rows ++ n ∷ [])
IsUnique-snoc [] n u h = (refl, tt)
IsUnique-snoc (i ∷ rows) n (p, u) h = (
  any-snoc (is_day i.ad_id i.date) rows n p
      (ground (arith, eq_iff i.ad_id n.ad_id, eq_iff n.ad_id i.ad_id)),
  IsUnique-snoc rows n u (ground arith),
)

-- A row after a sync: it is for an ad and a day that had a row before, or not from before the connection.
abbrev pub IsTimely : Option ℕ → List Insight → Insight → Type 0
IsTimely connected before i = (any (is_day i.ad_id i.date) before ≡ true) ⊎ IsFresh connected i

any-Elem :
    (i : Insight) (rows : List Insight) → Elem i rows → any (is_day i.ad_id i.date) rows ≡ true
any-Elem i [] k = absurd k
any-Elem i (j ∷ rows) (inl same) = rw (← same) (ground (arith, eq_iff i.ad_id i.ad_id))
any-Elem i (j ∷ rows) (inr k) = ground (arith, any-Elem i rows k)

module _ (tenant_id : String) (connected : Option ℕ) (before : List Insight) where
  put_insight-IsUnique :
      (ad_id : String) (raw : RawInsight) (rows : List Insight)
      → is_early connected raw.date ≡ false
      → IsUnique rows × All (IsTimely connected before) rows
      → IsUnique (put_insight tenant_id ad_id raw rows)
        × All (IsTimely connected before) (put_insight tenant_id ad_id raw rows)
  unfolding put_insight
  put_insight-IsUnique ad_id raw rows late (u, f) =
      elim (Bool-cases (any (is_day ad_id raw.date) rows)) [
        | inl e ↦ rw e (
          IsUnique-measured (is_day ad_id raw.date) raw rows u,
          All-update_where (IsTimely connected before) (is_day ad_id raw.date) (measured raw) rows
              (λ i h q. h) f,
        )
        | inr e ↦ rw e (
          IsUnique-snoc rows (insight_of tenant_id ad_id raw) u e,
          All-append (IsTimely connected before) rows _ f (inr late, tt),
        )
      ]

  put_insights-IsUnique :
      (by_external : List (String × String)) (raws : List RawInsight) (rows : List Insight)
      → IsUnique rows × All (IsTimely connected before) rows
      → IsUnique (put_insights tenant_id connected by_external raws rows)
        × All (IsTimely connected before) (put_insights tenant_id connected by_external raws rows)
  unfolding put_insights
  put_insights-IsUnique by_external [] rows h = h
  put_insights-IsUnique by_external (raw ∷ raws) rows h =
      elim (Option-cases (lookup raw.ad_external_id by_external)) [
        | inl e ↦ rw (e, put_insights) (put_insights-IsUnique by_external raws rows h)
        | inr (ad_id, e) ↦ elim (Bool-cases (is_early connected raw.date)) [
          | inl early ↦ rw (e, early, put_insights) (put_insights-IsUnique by_external raws rows h)
          | inr late ↦
              rw (e, late, put_insights)
                (put_insights-IsUnique by_external raws (put_insight tenant_id ad_id raw rows)
                  (put_insight-IsUnique ad_id raw rows late h))
        ]
      ]

-- A sync never counts twice and never reaches before the connection: however often a range is pulled
-- again, where no ad had two rows of one day, none has afterwards, and every row is for an ad and a
-- day that had a row before the sync or is not older than the day on which the account was connected.
pub upsert_insights-IsUnique :
    (tenant_id : String) (connected : Option ℕ) (account_id : String) (raws : List RawInsight)
    (s : Store)
    → IsUnique s.insights
    → IsUnique (upsert_insights tenant_id account_id connected raws s).insights
      × All
          (IsTimely connected s.insights)
          (upsert_insights tenant_id account_id connected raws s).insights
unfolding upsert_insights
upsert_insights-IsUnique tenant_id connected account_id raws s u =
    put_insights-IsUnique tenant_id connected s.insights _ raws s.insights
      (u, All-of_Elem _ s.insights (λ i k. inl (any-Elem i s.insights k)))
