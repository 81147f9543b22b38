-- ===== src/Matching/Frame.antt =====
-- What apps/api/src/matching/matching.service.ts leaves as it is.
use ad_link.Common.{
  contains, IsDistinct, map, sym, ap, ◌∙◌, ℕ, true, false, String, List, [], ◌∷◌, ◌≡◌, ◌≢◌, ◌⊎◌,
  inl, inr, ◌==◌, string_eq, filter, Elem-update_where, All, Elem, Elem-filter, refl, arith, ap,
  sym, ◌∙◌, eq_iff,
}
use ad_link.Core.Enums.{matched, rejected}
use ad_link.Db.{Lead}
use ad_link.Matching.{Store, match_lead, match_all, match_unmatched, is_open}

-- Two rows with one id are one row.
abbrev pub HasUniqueIds : List Lead → Type 0
HasUniqueIds leads = (a b : Lead) → Elem a leads → Elem b leads → a.id ≡ b.id → a ≡ b

contains-id :
    (b : Lead) (leads : List Lead) → Elem b leads → contains (map (λ l. l.id) leads) b.id ≡ true
contains-id b [] h = absurd h
contains-id b (x ∷ xs) (inl e) = ground (arith, eq_iff x.id b.id, ap (λ l. l.id) e)
contains-id b (x ∷ xs) (inr m) = ground (arith, contains-id b xs m)

pub distinct-HasUniqueIds :
    (leads : List Lead) → IsDistinct (map (λ l. l.id) leads) → HasUniqueIds leads
distinct-HasUniqueIds [] d a b h k same = absurd h
distinct-HasUniqueIds (x ∷ xs) (h, d) a b (inl e) (inl f) same = e ∙ sym f
distinct-HasUniqueIds (x ∷ xs) (h, d) a b (inl e) (inr m) same =
    absurd (cc (h, contains-id b xs m, same, ap (λ l. l.id) e))
distinct-HasUniqueIds (x ∷ xs) (h, d) a b (inr m) (inl f) same =
    absurd (cc (h, contains-id a xs m, same, ap (λ l. l.id) f))
distinct-HasUniqueIds (x ∷ xs) (h, d) a b (inr m) (inr n) same =
    distinct-HasUniqueIds xs d a b m n same

-- `matchLead` keeps every row but that of the lead.
match_lead-Elem :
    (tenant_id : String) (lead : Lead) (s : Store) (l : Lead)
    → Elem l s.leads
    → l.id ≢ lead.id
    → Elem l (match_lead tenant_id lead s).0.leads
unfolding match_lead
match_lead-Elem tenant_id lead s l k ne =
    let other : (l.id == lead.id) ≡ false = ground (arith, eq_iff l.id lead.id) in
    Elem-update_where (λ x. x.id == lead.id) _ l s.leads k other

match_all-Elem :
    (tenant_id : String) (leads : List Lead) (s : Store) (n : ℕ) (l : Lead)
    → Elem l s.leads
    → All (λ x. l.id ≢ x.id) leads
    → Elem l (match_all tenant_id leads s n).0.leads
unfolding match_all
match_all-Elem tenant_id [] s n l k h = k
match_all-Elem tenant_id (x ∷ leads) s n l k (p, h) =
    match_all-Elem tenant_id leads _ _ l (match_lead-Elem tenant_id x s l k p) h

All-open :
    (tenant_id : String) (leads : List Lead) (l : Lead)
    → HasUniqueIds leads
    → Elem l leads
    → is_open tenant_id l ≡ false
    → (xs : List Lead) → ((x : Lead) → Elem x xs → Elem x (filter (is_open tenant_id) leads))
    → All (λ x. l.id ≢ x.id) xs
All-open tenant_id leads l u k closed [] sub = tt
All-open tenant_id leads l u k closed (x ∷ xs) sub =
    let (there, is) = Elem-filter (is_open tenant_id) x leads (sub x (inl refl)) in
    (
      (λ e. let same = u l x k there e in absurd (cc (is, closed, ap (is_open tenant_id) same))),
      All-open tenant_id leads l u k closed xs (λ y m. sub y (inr m)),
    )

-- A row that is neither UNMATCHED nor REVIEW, or that is another tenant's, is there unchanged after
-- `matchUnmatched`: it never touches a match that was made, by the engine or by hand, nor a
-- rejection.
pub match_unmatched-Elem :
    (tenant_id : String) (s : Store) (l : Lead)
    → HasUniqueIds s.leads
    → Elem l s.leads
    → (l.tenant_id ≢ tenant_id) ⊎ (l.match_status ≡ matched) ⊎ (l.match_status ≡ rejected)
    → Elem l (match_unmatched tenant_id s).0.leads
unfolding match_unmatched
match_unmatched-Elem tenant_id s l u k h =
    match_all-Elem tenant_id (filter (is_open tenant_id) s.leads) s 0 l k
      (All-open tenant_id s.leads l u k (ground (arith, eq_iff l.tenant_id tenant_id)) _ (λ x m. m))
