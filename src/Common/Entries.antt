-- ===== src/Common/Entries.antt =====
-- What holds of all entries of a Map.
use mathlib.Core.Path.{◌≡◌, refl, subst}
use mathlib.Core.Logic.{inl, inr}
use mathlib.Core.List.{List, [], ◌∷◌, map}
use mathlib.Core.Option.{some}
use native.Mathlib.Omega.{arith}
use Prim.Native.String.{String}
use text.Mathlib.TextEquality.{eq_iff}
use ad_link.Common.Equality.{◌==◌, string_eq}
use ad_link.Common.Tests.{Bool-cases}
use ad_link.Common.Lists.{All, Elem}
use ad_link.Common.Dict.{lookup, insert, dict_of, All-insert}

pub lookup-All :
    {V : Type 0} (P : String × V → Type 0) (k : String) (v : V) (m : List (String × V))
    → All P m
    → lookup k m ≡ some v
    → P (k, v)
unfolding lookup
lookup-All P k v [] h e = absurd (cc e)
lookup-All P k v ((j, w) ∷ m) (p, h) e = elim (Bool-cases (j == k)) [
  | inl same ↦
      let here : w ≡ v = ground arith in
      let keyed : j ≡ k = (eq_iff j k).0 same in
      subst (λ q. P (k, q)) here (subst (λ i. P (i, w)) keyed p)
  | inr other ↦ lookup-All P k v m h (ground arith)
]

pub dict_of-All :
    {V : Type 0} (P : String × V → Type 0) (m es : List (String × V))
    → All P m
    → All P es
    → All P (dict_of m es)
unfolding dict_of
dict_of-All P m [] h k = h
dict_of-All P m ((j, v) ∷ es) h (p, k) = dict_of-All P (insert j v m) es (All-insert P j v m p h) k

pub All-of_Elem :
    {A : Type 0} (P : A → Type 0) (xs : List A) → ((x : A) → Elem x xs → P x) → All P xs
All-of_Elem P [] h = tt
All-of_Elem P (x ∷ xs) h = (h x (inl refl), All-of_Elem P xs (λ y m. h y (inr m)))

pub All-map :
    {A B : Type 0} (P : B → Type 0) (f : A → B) (xs : List A)
    → All (λ x. P (f x)) xs
    → All P (map f xs)
All-map P f [] h = tt
All-map P f (x ∷ xs) (p, h) = (p, All-map P f xs h)
