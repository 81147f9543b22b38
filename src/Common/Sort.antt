-- ===== src/Common/Sort.antt =====
-- `Array.prototype.sort`, which is stable: `le a b` says that the comparator's answer for `a` and
-- `b` is at most 0. Equal elements keep their order.
use mathlib.Core.Path.{◌≡◌, refl, ap, subst}
use mathlib.Core.Logic.{inl, inr, ◌≢◌, ◌⊎◌}
use mathlib.Core.Bool.{Bool, true, false}
use mathlib.Core.List.{List, [], ◌∷◌, ◌++◌, Perm}
use mathlib.Core.List.Perm
use native.Mathlib.Omega.{arith}
use ad_link.Common.Tests.{if◌then◌else◌, Bool-cases}
use ad_link.Common.Lists.{All, All-append, Elem}

module _ {A : Type 0} (le : A → A → Bool) where
  unfoldable pub insert_sorted : A → List A → List A
  insert_sorted x [] = x ∷ []
  insert_sorted x (y ∷ ys) = if le x y then x ∷ y ∷ ys else y ∷ insert_sorted x ys

  unfoldable pub sort : List A → List A
  unfolding insert_sorted
  sort [] = []
  sort (x ∷ xs) = insert_sorted x (sort xs)

  insert_sorted-perm : (x : A) (ys : List A) → Perm (insert_sorted x ys) (x ∷ ys)
  unfolding insert_sorted
  insert_sorted-perm x [] = Perm.refl _
  insert_sorted-perm x (y ∷ ys) = elim (Bool-cases (le x y)) [
    | inl e ↦ rw e (Perm.refl _)
    | inr e ↦ rw e (Perm.trans (Perm.cons y (insert_sorted-perm x ys)) (Perm.swap x y ys))
  ]

  -- Sorting neither drops nor repeats an element.
  pub sort-perm : (xs : List A) → Perm (sort xs) xs
  unfolding sort
  sort-perm [] = Perm.refl _
  sort-perm (x ∷ xs) = Perm.trans (insert_sorted-perm x (sort xs)) (Perm.cons x (sort-perm xs))

  insert_sorted-ne : (x : A) (ys : List A) → insert_sorted x ys ≢ []
  unfolding insert_sorted
  insert_sorted-ne x [] = cc
  insert_sorted-ne x (y ∷ ys) = ground arith

  pub nil_of_sort-nil : (xs : List A) → sort xs ≡ [] → xs ≡ []
  unfolding sort
  nil_of_sort-nil [] e = refl
  nil_of_sort-nil (x ∷ xs) e = absurd (insert_sorted-ne x (sort xs) e)

  -- `b` is the first of the least elements of `xs`.
  pub record IsFirstLeast (b : A) (xs : List A) : Type 0 where
    pub before : List A
    pub after : List A
    pub split : xs ≡ before ++ b ∷ after
    pub greater : All (λ y. le y b ≡ false) before
    pub least : All (λ y. le b y ≡ true) after

  module _ (P : A → Type 0) where
    All-insert_sorted_self : (x : A) (ys : List A) → P x → All P ys → All P (insert_sorted x ys)
    unfolding insert_sorted
    All-insert_sorted_self x [] p h = (p, tt)
    All-insert_sorted_self x (y ∷ ys) p (q, h) = ground (arith, All-insert_sorted_self x ys p h)

    -- What holds of every element holds of every element of the result.
    pub All-sort : (xs : List A) → All P xs → All P (sort xs)
    unfolding sort
    All-sort [] h = tt
    All-sort (x ∷ xs) (p, h) = All-insert_sorted_self x (sort xs) p (All-sort xs h)

  Elem-insert_sorted : (a x : A) (ys : List A) → (a ≡ x) ⊎ Elem a ys → Elem a (insert_sorted x ys)
  unfolding insert_sorted
  Elem-insert_sorted a x [] h = h
  Elem-insert_sorted a x (y ∷ ys) h = elim (Bool-cases (le x y)) [
    | inl e ↦ rw e h
    | inr e ↦ rw e (elim h [
      | inl p ↦ inr (Elem-insert_sorted a x ys (inl p))
      | inr (inl p) ↦ inl p
      | inr (inr k) ↦ inr (Elem-insert_sorted a x ys (inr k))
    ])
  ]

  -- Every element of the list is in the result.
  pub Elem-sort : (a : A) (xs : List A) → Elem a xs → Elem a (sort xs)
  unfolding sort
  Elem-sort a [] h = h
  Elem-sort a (x ∷ xs) (inl e) = Elem-insert_sorted a x (sort xs) (inl e)
  Elem-sort a (x ∷ xs) (inr h) = Elem-insert_sorted a x (sort xs) (inr (Elem-sort a xs h))

  Elem-of_insert_sorted :
      (a x : A) (ys : List A) → Elem a (insert_sorted x ys) → (a ≡ x) ⊎ Elem a ys
  unfolding insert_sorted
  Elem-of_insert_sorted a x [] h = h
  Elem-of_insert_sorted a x (y ∷ ys) h = elim (Bool-cases (le x y)) [
    | inl e ↦ rw e at h
    | inr e ↦ Elem-swap a x y ys (Elem-of_insert_sorted a x ys) (rw e at h)
  ]
    where
      Elem-swap :
          (a x y : A) (ys : List A)
          → (Elem a (insert_sorted x ys) → (a ≡ x) ⊎ Elem a ys)
          → (a ≡ y) ⊎ Elem a (insert_sorted x ys)
          → (a ≡ x) ⊎ ((a ≡ y) ⊎ Elem a ys)
      Elem-swap a x y ys ih (inl p) = inr (inl p)
      Elem-swap a x y ys ih (inr k) = elim (ih k) [ inl p ↦ inl p | inr m ↦ inr (inr m) ]

  -- Every element of the result is in the list.
  pub Elem-of_sort : (a : A) (xs : List A) → Elem a (sort xs) → Elem a xs
  unfolding sort
  Elem-of_sort a [] h = h
  Elem-of_sort a (x ∷ xs) h = elim (Elem-of_insert_sorted a x (sort xs) h) [
    | inl e ↦ inl e
    | inr k ↦ inr (Elem-of_sort a xs k)
  ]

  abbrev pub IsSorted : List A → Type 0
  IsSorted [] = Unit
  IsSorted (x ∷ xs) = All (λ y. le x y ≡ true) xs × IsSorted xs

  module _ (total : (a b : A) → le a b ≡ false → le b a ≡ true)
      (trans : (a b c : A) → le a b ≡ true → le b c ≡ true → le a c ≡ true) where
    All-le_trans :
        (a b : A) (xs : List A)
        → le a b ≡ true
        → All (λ y. le b y ≡ true) xs
        → All (λ y. le a y ≡ true) xs
    All-le_trans a b [] h k = tt
    All-le_trans a b (x ∷ xs) h (p, k) = (trans a b x h p, All-le_trans a b xs h k)

    All-insert_sorted :
        (a x : A) (ys : List A)
        → le a x ≡ true
        → All (λ y. le a y ≡ true) ys
        → All (λ y. le a y ≡ true) (insert_sorted x ys)
    unfolding insert_sorted
    All-insert_sorted a x [] h k = (h, tt)
    All-insert_sorted a x (y ∷ ys) h (p, k) = elim (Bool-cases (le x y)) [
      | inl e ↦ rw e (h, (p, k))
      | inr e ↦ rw e (p, All-insert_sorted a x ys h k)
    ]

    insert_sorted-IsSorted : (x : A) (ys : List A) → IsSorted ys → IsSorted (insert_sorted x ys)
    unfolding insert_sorted
    insert_sorted-IsSorted x [] h = (tt, tt)
    insert_sorted-IsSorted x (y ∷ ys) (p, h) = elim (Bool-cases (le x y)) [
      | inl e ↦ rw e ((e, All-le_trans x y ys e p), (p, h))
      | inr e ↦ rw e (All-insert_sorted y x ys (total x y e) p, insert_sorted-IsSorted x ys h)
    ]

    -- The result is in order.
    pub sort-IsSorted : (xs : List A) → IsSorted (sort xs)
    unfolding sort
    sort-IsSorted [] = tt
    sort-IsSorted (x ∷ xs) = insert_sorted-IsSorted x (sort xs) (sort-IsSorted xs)

    All-le_of_false :
        (x y : A) (before : List A)
        → le x y ≡ true
        → All (λ z. le z y ≡ false) before
        → All (λ z. le x z ≡ true) before
    All-le_of_false x y [] h k = tt
    All-le_of_false x y (z ∷ zs) h (p, k) =
        (trans x y z h (total z y p), All-le_of_false x y zs h k)

    IsFirstLeast-insert :
        (x b : A) (xs ys rest : List A)
        → sort xs ≡ ys
        → ((c : A) (r : List A) → sort xs ≡ c ∷ r → IsFirstLeast c xs)
        → insert_sorted x ys ≡ b ∷ rest
        → IsFirstLeast b (x ∷ xs)
    unfolding insert_sorted
    IsFirstLeast-insert x b xs [] rest s ih e = rw (nil_of_sort-nil xs s) (
        subst (λ c. IsFirstLeast c (x ∷ [])) (cc)
          (record { before = []; after = []; split = refl; greater = tt; least = tt }))
    IsFirstLeast-insert x b xs (y ∷ ys) rest s ih e =
        let f = ih y ys s in
        elim (Bool-cases (le x y)) [
          | inl h ↦
              subst (λ c. IsFirstLeast c (x ∷ xs)) (cc (rw h at e))
                (record {
                  before = [];
                  after = xs;
                  split = refl;
                  greater = tt;
                  least = rw f.split (
                      All-append (λ z. le x z ≡ true) f.before (y ∷ f.after)
                        (All-le_of_false x y f.before h f.greater)
                        (h, All-le_trans x y f.after h f.least));
                })
          | inr h ↦
              subst (λ c. IsFirstLeast c (x ∷ xs)) (cc (rw h at e))
                (record {
                  before = x ∷ f.before;
                  after = f.after;
                  split = ap (◌∷◌ x) f.split;
                  greater = (h, f.greater);
                  least = f.least;
                })
        ]

    -- The first element of the result is the first of the least elements of the list: nothing
    -- before it is as small, and nothing after it is smaller.
    pub sort-head : (xs : List A) (b : A) (rest : List A) → sort xs ≡ b ∷ rest → IsFirstLeast b xs
    unfolding sort
    sort-head [] b rest e = cc
    sort-head (x ∷ xs) b rest e = IsFirstLeast-insert x b xs (sort xs) rest refl (sort-head xs) e
