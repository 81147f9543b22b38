-- ===== src/Tenancy.antt =====
-- Tables that hold the rows of several tenants, as apps/api/src/prisma/prisma.client.ts scopes them: a
-- look-up within a tenant, and what a change under an id that was found so leaves alone.
use ad_link.Common.{
  Bool, true, false, ◌&&◌, not, some, String, List, [], ◌∷◌, ◌++◌, ◌≡◌, refl, arith, ◌==◌,
  string_eq, eq_iff, find?, filter, update_where, map, All, Bool-cases, beq_refl, contains,
  IsDistinct, inl, inr,
}

module _ {A : Type 0} (id_of tenant_of : A → String) where
  -- A row that the tenant's scoped client sees under this id.
  abbrev pub owned : String → String → A → Bool
  owned tenant_id id a = id_of a == id && tenant_of a == tenant_id

  -- The rows of the other tenants.
  abbrev pub foreign : String → List A → List A
  foreign tenant_id = filter (λ a. not (tenant_of a == tenant_id))

  -- Every row that the test picks is the tenant's own.
  abbrev pub IsOwnWhere : String → (A → Bool) → List A → Type 0
  IsOwnWhere tenant_id p = All (λ a. p a ≡ true → (tenant_of a == tenant_id) ≡ true)

  module _ (t : String) where
    pub foreign-update_where :
        (p : A → Bool) (f : A → A) (xs : List A)
        → ((x : A) → tenant_of (f x) ≡ tenant_of x)
        → IsOwnWhere t p xs
        → foreign t (update_where p f xs) ≡ foreign t xs
    foreign-update_where p f [] same h = refl
    foreign-update_where p f (x ∷ xs) same (q, h) =
        let rest = foreign-update_where p f xs same h in
        elim (Bool-cases (p x)) [
          | inl e ↦ rw (e, same x, q e, rest) refl
          | inr e ↦ rw (e, rest) refl
        ]

    pub foreign-filter :
        (p : A → Bool) (xs : List A)
        → IsOwnWhere t p xs
        → foreign t (filter (λ x. not (p x)) xs) ≡ foreign t xs
    foreign-filter p [] h = refl
    foreign-filter p (x ∷ xs) (q, h) =
        let rest = foreign-filter p xs h in
        elim (Bool-cases (p x)) [
          | inl e ↦ rw (e, q e, rest) refl
          | inr e ↦ rw e (elim (Bool-cases (tenant_of x == t)) [
            | inl k ↦ rw k rest
            | inr k ↦ rw (k, rest) refl
          ])
        ]

    pub foreign-snoc :
        (xs : List A) (n : A) → tenant_of n ≡ t → foreign t (xs ++ n ∷ []) ≡ foreign t xs
    foreign-snoc [] n e = rw (e, beq_refl t) refl
    foreign-snoc (x ∷ xs) n e = elim (Bool-cases (tenant_of x == t)) [
      | inl k ↦ rw (k, foreign-snoc xs n e) refl
      | inr k ↦ rw (k, foreign-snoc xs n e) refl
    ]

    other_ids :
        (id : String) (xs : List A)
        → contains (map id_of xs) id ≡ false
        → IsOwnWhere t (λ a. id_of a == id) xs
    other_ids id [] h = tt
    other_ids id (x ∷ xs) h = (λ e. absurd (ground arith), other_ids id xs (ground arith))

    contains-find? :
        (id : String) (xs : List A) (a : A)
        → find? (owned t id) xs ≡ some a
        → contains (map id_of xs) id ≡ true
    contains-find? id [] a h = absurd (cc h)
    contains-find? id (x ∷ xs) a h = ground (arith, contains-find? id xs a)

    -- Ids are unique, so that no other tenant has a row under an id that was found to be one's own.
    pub find?-IsOwnWhere :
        (id : String) (xs : List A) (a : A)
        → IsDistinct (map id_of xs)
        → find? (owned t id) xs ≡ some a
        → IsOwnWhere t (λ a. id_of a == id) xs
    find?-IsOwnWhere id [] a d h = tt
    find?-IsOwnWhere id (x ∷ xs) a (new, d) h = elim (Bool-cases (id_of x == id)) [
      | inr e ↦ (λ f. absurd (cc (e, f)), find?-IsOwnWhere id xs a d (rw e at h))
      | inl e ↦
          let same : id_of x ≡ id = (eq_iff (id_of x) id).0 e in
          let alone : contains (map id_of xs) id ≡ false = rw same at new in
          elim (Bool-cases (tenant_of x == t)) [
            | inl k ↦ (λ f. k, other_ids id xs alone)
            | inr k ↦ absurd (cc (contains-find? id xs a (rw (e, k) at h), alone))
          ]
    ]
