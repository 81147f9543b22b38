-- ===== src/Common/Updates.antt =====
-- What a test finds in a table after its rows were updated or one was added.
use mathlib.Core.Path.{◌≡◌, refl}
use mathlib.Core.Logic.{inl, inr}
use mathlib.Core.Bool.{Bool, true, false}
use mathlib.Core.Option.{some, none}
use mathlib.Core.List.{List, [], ◌∷◌, ◌++◌, map}
use native.Mathlib.Omega.{arith}
use ad_link.Common.Tests.{Bool-cases}
use ad_link.Common.Lists.{Elem, any, find?, update_where}

module _ {A : Type 0} where
  pub find?-any : (p : A → Bool) (xs : List A) → find? p xs ≡ none → any p xs ≡ false
  find?-any p [] h = refl
  find?-any p (x ∷ xs) h = elim (Bool-cases (p x)) [
    | inl e ↦ absurd (cc (rw e at h))
    | inr e ↦ rw e (find?-any p xs (rw e at h))
  ]

  pub any-update_where :
      (p q : A → Bool) (f : A → A) (xs : List A)
      → ((x : A) → q x ≡ true → q (f x) ≡ true)
      → any q xs ≡ true
      → any q (update_where p f xs) ≡ true
  any-update_where p q f [] keep h = h
  any-update_where p q f (x ∷ xs) keep h = ground (arith, keep x, any-update_where p q f xs keep)

  pub any-update_where_found :
      (p q : A → Bool) (f : A → A) (xs : List A) (a : A)
      → ((x : A) → p x ≡ true → q (f x) ≡ true)
      → find? p xs ≡ some a
      → any q (update_where p f xs) ≡ true
  any-update_where_found p q f [] a made h = absurd (cc h)
  any-update_where_found p q f (x ∷ xs) a made h =
      ground (arith, made x, any-update_where_found p q f xs a made)

  pub any-append_left : (q : A → Bool) (xs ys : List A) → any q xs ≡ true → any q (xs ++ ys) ≡ true
  any-append_left q [] ys h = absurd (cc h)
  any-append_left q (x ∷ xs) ys h = ground (arith, any-append_left q xs ys)

  pub any-snoc : (q : A → Bool) (xs : List A) (y : A) → q y ≡ true → any q (xs ++ y ∷ []) ≡ true
  any-snoc q [] y h = rw h
  any-snoc q (x ∷ xs) y h = ground (arith, any-snoc q xs y h)

  pub map-update_where :
      {B : Type 0} (g : A → B) (p : A → Bool) (f : A → A) (xs : List A)
      → ((x : A) → g (f x) ≡ g x)
      → map g (update_where p f xs) ≡ map g xs
  map-update_where g p f [] same = refl
  map-update_where g p f (x ∷ xs) same = elim (Bool-cases (p x)) [
    | inl e ↦ rw (e, same x, map-update_where g p f xs same) refl
    | inr e ↦ rw (e, map-update_where g p f xs same) refl
  ]

  pub Elem-update_where_hit :
      (p : A → Bool) (f : A → A) (x : A) (xs : List A)
      → Elem x xs
      → p x ≡ true
      → Elem (f x) (update_where p f xs)
  Elem-update_where_hit p f x [] k e = absurd k
  Elem-update_where_hit p f x (y ∷ xs) (inl same) e = rw (← same, e) (inl refl)
  Elem-update_where_hit p f x (y ∷ xs) (inr k) e = inr (Elem-update_where_hit p f x xs k e)
