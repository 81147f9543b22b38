-- ===== src/Common/Lists.antt =====
-- Lists measured by native numbers, and predicates by recursion.
use Prim.Native.Nat.{ℕ, zero, suc, ◌+◌, ◌≤◌}
use mathlib.Core.Path.{◌≡◌, refl, sym, subst}
use mathlib.Core.Logic.{◌⊎◌, inl, inr}
use mathlib.Core.Bool.{Bool, true, false, ◌&&◌, ◌||◌}
use mathlib.Core.List.{List, [], ◌∷◌, ◌++◌}
use mathlib.Core.Option.{Option, none, some}
use native.Mathlib.Omega.{arith}
use ad_link.Common.Tests.{if◌then◌else◌, Bool-cases}

module _ {ℓ} {A : Type ℓ} where
  abbrev pub length : List A → ℕ
  length [] = 0
  length (x ∷ xs) = suc (length xs)

  abbrev pub head? : List A → Option A
  head? [] = none
  head? (x ∷ xs) = some x

  -- `xs.filter(p)`
  abbrev pub filter : (A → Bool) → List A → List A
  filter p [] = []
  filter p (x ∷ xs) = if p x then x ∷ filter p xs else filter p xs

  -- `findFirst` with the condition `p`: the first row that meets it
  abbrev pub find? : (A → Bool) → List A → Option A
  find? p [] = none
  find? p (x ∷ xs) = if p x then some x else find? p xs

  abbrev pub any : (A → Bool) → List A → Bool
  any p [] = false
  any p (x ∷ xs) = p x || any p xs

  abbrev pub all : (A → Bool) → List A → Bool
  all p [] = true
  all p (x ∷ xs) = p x && all p xs

  -- `updateMany`: the rows that meet `p` are replaced
  abbrev pub update_where : (A → Bool) → (A → A) → List A → List A
  update_where p f [] = []
  update_where p f (x ∷ xs) = (if p x then f x else x) ∷ update_where p f xs

  -- `take` of a query
  abbrev pub take : ℕ → List A → List A
  take zero xs = []
  take (suc n) [] = []
  take (suc n) (x ∷ xs) = x ∷ take n xs

  pub length-append : (xs ys : List A) → length (xs ++ ys) ≡ length xs + length ys
  length-append [] ys = omega arith
  length-append (x ∷ xs) ys = omega (arith, length-append xs ys)

  pub length-filter-le : (p : A → Bool) (xs : List A) → length (filter p xs) ≤ length xs
  length-filter-le p [] = omega arith
  length-filter-le p (x ∷ xs) = ground (arith, length-filter-le p xs)

  pub length-update_where :
      (p : A → Bool) (f : A → A) (xs : List A) → length (update_where p f xs) ≡ length xs
  length-update_where p f [] = refl
  length-update_where p f (x ∷ xs) = omega (arith, length-update_where p f xs)

module _ {ℓ κ} {A : Type ℓ} (P : A → Type κ) where
  abbrev pub All : List A → Type κ
  All [] = Unit
  All (x ∷ xs) = P x × All xs

  pub All-append : (xs ys : List A) → All xs → All ys → All (xs ++ ys)
  All-append [] ys h k = k
  All-append (x ∷ xs) ys (p, h) k = (p, All-append xs ys h k)

  pub All-filter : (p : A → Bool) (xs : List A) → All xs → All (filter p xs)
  All-filter p [] h = tt
  All-filter p (x ∷ xs) (q, h) = ground (arith, All-filter p xs h)

  pub All-update_where :
      (p : A → Bool) (f : A → A) (xs : List A)
      → ((x : A) → P x → p x ≡ true → P (f x))
      → All xs
      → All (update_where p f xs)
  All-update_where p f [] step h = tt
  All-update_where p f (x ∷ xs) step (q, h) =
      let rest = All-update_where p f xs step h in
      elim (Bool-cases (p x)) [ inl e ↦ rw e (step x q e, rest) | inr e ↦ rw e (q, rest) ]

module _ {A : Type 0} where
  -- Membership by recursion, which the tactics take apart.
  abbrev pub Elem : A → List A → Type 0
  Elem a [] = ⊥
  Elem a (x ∷ xs) = (a ≡ x) ⊎ Elem a xs

  pub Elem-append_right : (a : A) (xs ys : List A) → Elem a ys → Elem a (xs ++ ys)
  Elem-append_right a [] ys h = h
  Elem-append_right a (x ∷ xs) ys h = inr (Elem-append_right a xs ys h)

  pub Elem-append_left : (a : A) (xs ys : List A) → Elem a xs → Elem a (xs ++ ys)
  Elem-append_left a [] ys h = absurd h
  Elem-append_left a (x ∷ xs) ys (inl e) = inl e
  Elem-append_left a (x ∷ xs) ys (inr h) = inr (Elem-append_left a xs ys h)

  pub Elem-append_cases : (a : A) (xs ys : List A) → Elem a (xs ++ ys) → Elem a xs ⊎ Elem a ys
  Elem-append_cases a [] ys h = inr h
  Elem-append_cases a (x ∷ xs) ys (inl e) = inl (inl e)
  Elem-append_cases a (x ∷ xs) ys (inr h) = elim (Elem-append_cases a xs ys h) [
    | inl k ↦ inl (inr k)
    | inr k ↦ inr k
  ]

  pub Elem-All : (P : A → Type 0) (a : A) (xs : List A) → All P xs → Elem a xs → P a
  Elem-All P a [] h k = absurd k
  Elem-All P a (x ∷ xs) (p, h) (inl e) = subst P (sym e) p
  Elem-All P a (x ∷ xs) (p, h) (inr k) = Elem-All P a xs h k

  pub Elem-filter :
      (p : A → Bool) (a : A) (xs : List A) → Elem a (filter p xs) → Elem a xs × (p a ≡ true)
  Elem-filter p a [] h = absurd h
  Elem-filter p a (x ∷ xs) h = ground (arith, Elem-filter p a xs)

  pub Elem-filter_intro :
      (p : A → Bool) (a : A) (xs : List A) → Elem a xs → p a ≡ true → Elem a (filter p xs)
  Elem-filter_intro p a [] k e = absurd k
  Elem-filter_intro p a (x ∷ xs) (inl same) e =
      let here : p x ≡ true = subst (λ b. p b ≡ true) same e in rw here (inl same)
  Elem-filter_intro p a (x ∷ xs) (inr k) e =
      let later = Elem-filter_intro p a xs k e in
      elim (Bool-cases (p x)) [ inl h ↦ rw h (inr later) | inr h ↦ rw h later ]

  -- A row that is not replaced stays.
  pub Elem-update_where :
      (p : A → Bool) (f : A → A) (a : A) (xs : List A)
      → Elem a xs
      → p a ≡ false
      → Elem a (update_where p f xs)
  Elem-update_where p f a [] k e = absurd k
  Elem-update_where p f a (x ∷ xs) (inl same) e =
      let other : p x ≡ false = subst (λ b. p b ≡ false) same e in rw other (inl same)
  Elem-update_where p f a (x ∷ xs) (inr k) e = inr (Elem-update_where p f a xs k e)

  pub find?-Elem :
      (p : A → Bool) (a : A) (xs : List A) → find? p xs ≡ some a → Elem a xs × (p a ≡ true)
  find?-Elem p a [] e = cc
  find?-Elem p a (x ∷ xs) e = ground (arith, find?-Elem p a xs)
