-- ===== src/Common/Dict.antt =====
-- A JavaScript Map: the entries in insertion order, one for each key. `set` on a key that is there
-- keeps its place. And a Set, as the list of its elements in insertion order.
use mathlib.Core.Path.{◌≡◌, refl, sym, subst}
use mathlib.Core.Logic.{◌↔◌, inl, inr}
use mathlib.Core.Bool.{Bool, true, false}
use mathlib.Core.List.{List, [], ◌∷◌, ◌++◌, map}
use mathlib.Core.Option.{Option, none, some}
use native.Mathlib.Omega.{arith}
use ad_link.Common.Equality.{Eq, ◌==◌, beq_refl}
use ad_link.Common.Tests.{if◌then◌else◌, Bool-cases}
use ad_link.Common.Lists.{All}

module _ {ℓ κ} {K : Type ℓ} {V : Type κ} ⦃e : Eq K⦄ where
  -- `m.get(q)`
  unfoldable pub lookup : (q : K) (m : List (K × V)) → Option V
  lookup q [] = none
  lookup q ((k, here) ∷ more) = if k == q then some here else lookup q more

  -- `m.set(q, new)`
  unfoldable pub insert : (q : K) (new : V) (m : List (K × V)) → List (K × V)
  insert q new [] = (q, new) ∷ []
  insert q new ((k, old) ∷ more) = if k == q then (k, new) ∷ more else (k, old) ∷ insert q new more

  -- `new Map(entries)`: a later entry for a key wins.
  unfoldable pub dict_of : (m entries : List (K × V)) → List (K × V)
  unfolding insert
  dict_of m [] = m
  dict_of m ((q, new) ∷ entries) = dict_of (insert q new m) entries

  pub lookup-insert :
      (q k : K) (new : V) (m : List (K × V))
      → lookup k (insert q new m) ≡ (if q == k then some new else lookup k m)
  unfolding lookup insert
  lookup-insert q k new [] = refl
  lookup-insert q k new ((j, old) ∷ more) =
      ground (arith, lookup-insert q k new more, e.same_iff j q, e.same_iff j k, e.same_iff q k)

  pub lookup-insert_self :
      (q : K) (new : V) (m : List (K × V)) → lookup q (insert q new m) ≡ some new
  lookup-insert_self q new m = rw (lookup-insert q q new m, beq_refl q)

-- `[...m.keys()]`
abbrev pub keys {ℓ κ} : {K : Type ℓ} {V : Type κ} → List (K × V) → List K
keys = map (λ e. e.0)

-- `[...m.values()]`
abbrev pub values {ℓ κ} : {K : Type ℓ} {V : Type κ} → List (K × V) → List V
values = map (λ e. e.1)

module _ {ℓ} {K : Type ℓ} ⦃e : Eq K⦄ where
  -- `s.has(k)`, and `includes` of an array
  abbrev pub contains : List K → K → Bool
  contains [] k = false
  contains (x ∷ xs) k = if x == k then true else contains xs k

  -- `s.add(k)`
  unfoldable pub add : List K → K → List K
  add s k = if contains s k then s else s ++ k ∷ []

  -- No element twice.
  abbrev pub IsDistinct : List K → Type 0
  IsDistinct [] = Unit
  IsDistinct (x ∷ xs) = (contains xs x ≡ false) × IsDistinct xs

  pub contains-append :
      (xs ys : List K) (k : K)
      → contains (xs ++ ys) k ≡ (if contains xs k then true else contains ys k)
  contains-append [] ys k = refl
  contains-append (x ∷ xs) ys k = ground (arith, contains-append xs ys k)

  pub contains-add :
      (xs : List K) (k j : K) → contains (add xs k) j ≡ (if k == j then true else contains xs j)
  unfolding add
  contains-add xs k j = ground (arith, contains-append xs (k ∷ []) j, e.same_iff k j)

  pub IsDistinct-snoc :
      (xs : List K) (k : K) → contains xs k ≡ false → IsDistinct xs → IsDistinct (xs ++ k ∷ [])
  IsDistinct-snoc [] k h d = (refl, tt)
  IsDistinct-snoc (x ∷ xs) k h d = (
    ground (arith, contains-append xs (k ∷ []) x, e.same_iff k x, e.same_iff x k),
    IsDistinct-snoc xs k (ground arith) d.1,
  )

  pub add-IsDistinct : (xs : List K) (k : K) → IsDistinct xs → IsDistinct (add xs k)
  unfolding add
  add-IsDistinct xs k d = elim (Bool-cases (contains xs k)) [
    | inl h ↦ rw h d
    | inr h ↦ rw h (IsDistinct-snoc xs k h d)
  ]

module _ {ℓ κ} {K : Type ℓ} {V : Type κ} ⦃e : Eq K⦄ where
  pub contains-keys-insert :
      (k j : K) (v : V) (m : List (K × V))
      → contains (keys (insert k v m)) j ≡ (if k == j then true else contains (keys m) j)
  unfolding insert
  contains-keys-insert k j v [] = refl
  contains-keys-insert k j v ((i, w) ∷ m) =
      ground (arith, e.same_iff k j, e.same_iff i k, e.same_iff i j, contains-keys-insert k j v m)

  -- A Map never holds a key twice.
  pub insert-IsDistinct :
      (k : K) (v : V) (m : List (K × V)) → IsDistinct (keys m) → IsDistinct (keys (insert k v m))
  unfolding insert
  insert-IsDistinct k v [] d = (refl, tt)
  insert-IsDistinct k v ((i, w) ∷ m) (h, d) = ground (
    arith,
    e.same_iff i k,
    e.same_iff k i,
    contains-keys-insert k i v m,
    insert-IsDistinct k v m d,
  )

  pub lookup-eq-none_iff :
      (k : K) (m : List (K × V)) → (lookup k m ≡ none) ↔ (contains (keys m) k ≡ false)
  unfolding lookup
  lookup-eq-none_iff k [] = ground arith
  lookup-eq-none_iff k ((j, v) ∷ m) = ground (arith, lookup-eq-none_iff k m)

  pub All-insert :
      (P : K × V → Type 0) (k : K) (v : V) (m : List (K × V))
      → P (k, v)
      → All P m
      → All P (insert k v m)
  unfolding insert
  All-insert P k v [] p h = (p, tt)
  All-insert P k v ((j, w) ∷ m) p (q, h) = elim (Bool-cases (j == k)) [
    | inl same ↦ rw same (subst (λ i. P (i, v)) (sym ((e.same_iff j k).0 same)) p, h)
    | inr other ↦ rw other (q, All-insert P k v m p h)
  ]
