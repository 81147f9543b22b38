-- ===== src/Metrics/Touch.antt =====
-- Which ad a contact's deals are credited to by apps/api/src/metrics/metrics.service.ts.
use ad_link.Common.{
  ℕ, ◌≤◌, Bool, true, false, Option, none, some, String, List, [], ◌∷◌, ◌≡◌, ◌⊎◌, inl, inr, refl,
  arith, ◌==◌, string_eq, eq_iff, get_or, if◌then◌else◌, All-of_Elem, find?, find?-Elem, lookup,
  lookup-insert, insert, contains, keys, lookup-eq-none_iff, Bool-cases, Option-cases, ◌∙◌, sym, ap,
  Elem, Elem-All, Elem-sort, Elem-of_sort, IsSorted, sort-IsSorted, sort, filter, leb→le, All,
  subst,
}
use ad_link.Db.{Lead}
use ad_link.Metrics.{
  Store, first_touch, last_touch, contact_ads, contact_ad, is_touch, older_lead, crm_floor,
}

-- The lead is the contact's.
abbrev pub is_of : String → Lead → Bool
is_of c l = get_or l.contact_id "" == c

-- The last lead of a list that meets a test.
abbrev pub find_last? : (Lead → Bool) → List Lead → Option Lead
find_last? p [] = none
find_last? p (l ∷ ls) = elim (find_last? p ls) [
  | some x ↦ some x
  | none ↦ if p l then some l else none
]

abbrev pub ad_of : Option Lead → Option String
ad_of none = none
ad_of (some l) = some (get_or l.ad_id "")

abbrev pub or_else : Option String → Option String → Option String
or_else none d = d
or_else (some a) d = some a

or_else-none : (o : Option String) → or_else o none ≡ o
or_else-none none = refl
or_else-none (some a) = refl

contact_ads-last_touch :
    (c : String) (leads : List Lead) (m : List (String × String))
    → lookup c (contact_ads last_touch leads m)
      ≡ or_else (ad_of (find_last? (is_of c) leads)) (lookup c m)
unfolding contact_ads
contact_ads-last_touch c [] m = refl
contact_ads-last_touch c (l ∷ leads) m =
    let k = get_or l.contact_id "" in
    let v = get_or l.ad_id "" in
    contact_ads-last_touch c leads (insert k v m)
    ∙ elim (Option-cases (find_last? (is_of c) leads)) [
      | inr (x, e) ↦ rw e refl
      | inl e ↦
          rw (e, lookup-insert k c v m)
            (elim (Bool-cases (is_of c l)) [ inl b ↦ rw b refl | inr b ↦ rw b refl ])
    ]

contact_ads-first_touch :
    (c : String) (leads : List Lead) (m : List (String × String))
    → lookup c (contact_ads first_touch leads m)
      ≡ or_else (lookup c m) (ad_of (find? (is_of c) leads))
unfolding contact_ads
contact_ads-first_touch c [] m = sym (or_else-none (lookup c m))
contact_ads-first_touch c (l ∷ leads) m =
    let k = get_or l.contact_id "" in
    let v = get_or l.ad_id "" in
    elim (Bool-cases (contains (keys m) k)) [
      | inl there ↦ rw there (
          contact_ads-first_touch c leads m ∙ elim (Option-cases (lookup c m)) [
            | inr (a, e) ↦ rw e refl
            | inl e ↦ elim (Bool-cases (is_of c l)) [
              | inl b ↦ absurd (ground (arith, (lookup-eq-none_iff c m).0 e, eq_iff k c, there, b))
              | inr b ↦ rw (e, b) refl
            ]
          ])
      | inr fresh ↦ rw fresh (
          contact_ads-first_touch c leads (insert k v m)
          ∙ rw (lookup-insert k c v m) (elim (Bool-cases (is_of c l)) [
            | inl b ↦
                rw
                  (
                    b,
                    (lookup-eq-none_iff c m).1
                        (subst (λ i. contains (keys m) i ≡ false) ((eq_iff k c).0 b) fresh),
                  )
                  refl
            | inr b ↦ rw b refl
          ]))
    ]

find?-least :
    (p : Lead → Bool) (a b : Lead) (xs : List Lead)
    → IsSorted older_lead xs
    → find? p xs ≡ some a
    → Elem b xs
    → p b ≡ true
    → a.created_at ≤ b.created_at
find?-least p a b [] order e m q = absurd m
find?-least p a b (x ∷ xs) order e m q = elim (Bool-cases (p x)) [
  | inl f ↦
      let same : x ≡ a = ground arith in
      elim m [
        | inl here ↦ rw (← same, here) (omega arith)
        | inr there ↦
            rw (← same) (leb→le _ _ (Elem-All (λ y. older_lead x y ≡ true) b xs order.0 there))
      ]
  | inr f ↦ elim m [
    | inl here ↦ absurd (cc (ap p here, f, q))
    | inr there ↦ find?-least p a b xs order.1 (ground arith) there q
  ]
]

find_last?-none :
    (p : Lead → Bool) (b : Lead) (xs : List Lead) → find_last? p xs ≡ none → Elem b xs → p b ≡ false
find_last?-none p b [] e m = absurd m
find_last?-none p b (x ∷ xs) e m = elim (Option-cases (find_last? p xs)) [
  | inr (y, f) ↦ absurd (cc (rw f at e))
  | inl f ↦ elim (Bool-cases (p x)) [
    | inl t ↦ absurd (cc (rw (f, t) at e))
    | inr t ↦ elim m [ inl here ↦ ap p here ∙ t | inr there ↦ find_last?-none p b xs f there ]
  ]
]

find_last?-Elem :
    (p : Lead → Bool) (a : Lead) (xs : List Lead)
    → find_last? p xs ≡ some a
    → Elem a xs × (p a ≡ true)
find_last?-Elem p a [] e = absurd (cc e)
find_last?-Elem p a (x ∷ xs) e = elim (Option-cases (find_last? p xs)) [
  | inr (y, f) ↦
      let same : y ≡ a = cc (rw f at e) in
      let (m, q) = find_last?-Elem p y xs f in
      subst (λ z. (Elem z (x ∷ xs)) × (p z ≡ true)) same (inr m, q)
  | inl f ↦ elim (Bool-cases (p x)) [
    | inl t ↦
        let same : x ≡ a = cc (rw (f, t) at e) in
        subst (λ z. (Elem z (x ∷ xs)) × (p z ≡ true)) same (inl refl, t)
    | inr t ↦ absurd (cc (rw (f, t) at e))
  ]
]

find_last?-greatest :
    (p : Lead → Bool) (a b : Lead) (xs : List Lead)
    → IsSorted older_lead xs
    → find_last? p xs ≡ some a
    → Elem b xs
    → p b ≡ true
    → b.created_at ≤ a.created_at
find_last?-greatest p a b [] order e m q = absurd m
find_last?-greatest p a b (x ∷ xs) order e m q = elim (Option-cases (find_last? p xs)) [
  | inr (y, f) ↦
      let same : y ≡ a = cc (rw f at e) in
      rw (← same) (elim m [
        | inl here ↦ rw here (
            leb→le _ _
              (Elem-All (λ z. older_lead x z ≡ true) y xs order.0 (find_last?-Elem p y xs f).0))
        | inr there ↦ find_last?-greatest p y b xs order.1 f there q
      ])
  | inl f ↦ elim m [
    | inr there ↦ absurd (cc (find_last?-none p b xs f there, q))
    | inl here ↦
        let t : p x ≡ true = sym (ap p here) ∙ q in
        let same : x ≡ a = cc (rw (f, t) at e) in rw (← same, here) (omega arith)
  ]
]

-- The ad is that of a lead of the contact, whose time stands in the relation to that of every lead
-- of the contact.
pub record IsCredit (rel : ℕ → ℕ → Type 0) (c a : String) (leads : List Lead) : Type 0 where
  pub lead : Lead
  pub listed : Elem lead leads
  pub contact : is_of c lead ≡ true
  pub ad : get_or lead.ad_id "" ≡ a
  pub extreme : All (λ l. (is_of c l ≡ false) ⊎ rel lead.created_at l.created_at) leads

ad_of-some :
    (o : Option Lead) (a : String)
    → ad_of o ≡ some a
    → (l : Lead) × (o ≡ some l) × (get_or l.ad_id "" ≡ a)
ad_of-some none a e = absurd (cc e)
ad_of-some (some l) a e = (l, refl, cc e)

-- The leads that count as touches.
abbrev pub touches : String → Store → List Lead
touches tenant_id s = filter (is_touch tenant_id (crm_floor tenant_id s)) s.leads

touches-IsSorted :
    (tenant_id : String) (s : Store) → IsSorted older_lead (sort older_lead (touches tenant_id s))
touches-IsSorted tenant_id s =
    sort-IsSorted older_lead (λ x y h. ground arith) (λ x y z h k. ground arith)
      (touches tenant_id s)

-- FIRST_TOUCH credits a contact to the ad of its earliest matched lead since the CRM was connected.
pub contact_ad-first_touch :
    (tenant_id c a : String) (s : Store)
    → lookup c (contact_ad first_touch tenant_id s) ≡ some a
    → IsCredit (λ x y. x ≤ y) c a (touches tenant_id s)
unfolding lookup
contact_ad-first_touch tenant_id c a s e =
    let leads = sort older_lead (touches tenant_id s) in
    let (l, found, named) =
      ad_of-some (find? (is_of c) leads) a (sym (contact_ads-first_touch c leads []) ∙ e) in
    let (there, own) = find?-Elem (is_of c) l leads found in
    record {
      lead = l;
      listed = Elem-of_sort older_lead l (touches tenant_id s) there;
      contact = own;
      ad = named;
      extreme = All-of_Elem _ (touches tenant_id s) (λ b m. elim (Bool-cases (is_of c b)) [
        | inr other ↦ inl other
        | inl q ↦ inr (
            find?-least (is_of c) l b leads (touches-IsSorted tenant_id s) found
              (Elem-sort older_lead b (touches tenant_id s) m) q)
      ]);
    }

-- LAST_TOUCH credits a contact to the ad of its latest matched lead since the CRM was connected.
pub contact_ad-last_touch :
    (tenant_id c a : String) (s : Store)
    → lookup c (contact_ad last_touch tenant_id s) ≡ some a
    → IsCredit (λ x y. y ≤ x) c a (touches tenant_id s)
unfolding lookup
contact_ad-last_touch tenant_id c a s e =
    let leads = sort older_lead (touches tenant_id s) in
    let (l, found, named) =
      ad_of-some (find_last? (is_of c) leads) a
        (sym (or_else-none _) ∙ sym (contact_ads-last_touch c leads []) ∙ e) in
    let (there, own) = find_last?-Elem (is_of c) l leads found in
    record {
      lead = l;
      listed = Elem-of_sort older_lead l (touches tenant_id s) there;
      contact = own;
      ad = named;
      extreme = All-of_Elem _ (touches tenant_id s) (λ b m. elim (Bool-cases (is_of c b)) [
        | inr other ↦ inl other
        | inl q ↦ inr (
            find_last?-greatest (is_of c) l b leads (touches-IsSorted tenant_id s) found
              (Elem-sort older_lead b (touches tenant_id s) m) q)
      ]);
    }
