-- ===== src/Auth/Emails.antt =====
-- What the requests of apps/api/src/auth/auth.service.ts keep: one user for an email, and the accounts.
use ad_link.Common.{
  ℕ, Bool, true, false, none, some, List, [], ◌∷◌, ◌++◌, Text, ◌≡◌, inl, inr, refl, ap, ◌∙◌, arith,
  text_eq, find?, update_where, map, contains, IsDistinct, Bool-cases, if◌then◌else◌,
  IsDistinct-snoc,
}
use mathlib.Core.List.{map-append}
use ad_link.Auth.{Calls, User, Store, has_email}
use ad_link.Auth.Telegram.{Digests}
use ad_link.Auth.Service.{Request, run}
use ad_link.Auth.Accounts.{account_of, Evolves, kept, changed, joined, run-Evolves}

abbrev pub emails : List User → List Text
emails = map (λ u. u.email)

pub email_of_account : (u v : User) → account_of u ≡ account_of v → u.email ≡ v.email
email_of_account u v e = ap (λ a. a.2) e

emails-update_where :
    (p : User → Bool) (f : User → User) (xs : List User)
    → ((u : User) → account_of (f u) ≡ account_of u)
    → emails (update_where p f xs) ≡ emails xs
emails-update_where p f [] same = refl
emails-update_where p f (x ∷ xs) same = elim (Bool-cases (p x)) [
  | inl e ↦ rw (e, email_of_account (f x) x (same x), emails-update_where p f xs same) refl
  | inr e ↦ rw (e, emails-update_where p f xs same) refl
]

contains-emails :
    (e : Text) (xs : List User) → find? (has_email e) xs ≡ none → contains (emails xs) e ≡ false
contains-emails e [] h = refl
contains-emails e (x ∷ xs) h = elim (Bool-cases (has_email e x)) [
  | inl k ↦ absurd (cc (rw k at h))
  | inr k ↦ rw k (contains-emails e xs (rw k at h))
]

-- The account of the first user with this email.
pub record HasAccount (email : Text) (u : User) (xs : List User) : Type 0 where
  pub row : User
  pub found : find? (has_email email) xs ≡ some row
  pub same : account_of row ≡ account_of u

find?-append :
    (p : User → Bool) (xs ys : List User) (u : User)
    → find? p xs ≡ some u
    → find? p (xs ++ ys) ≡ some u
find?-append p [] ys u h = absurd (cc h)
find?-append p (x ∷ xs) ys u h = ground (arith, find?-append p xs ys u)

account_of_if :
    (b : Bool) (f : User → User) (x : User)
    → ((u : User) → account_of (f u) ≡ account_of u)
    → account_of (if b then f x else x) ≡ account_of x
account_of_if true f x same = same x
account_of_if false f x same = refl

find?-update_where :
    (email : Text) (p : User → Bool) (f : User → User) (xs : List User) (u : User)
    → ((u : User) → account_of (f u) ≡ account_of u)
    → find? (has_email email) xs ≡ some u
    → HasAccount email u (update_where p f xs)
find?-update_where email p f [] u same h = absurd (cc h)
find?-update_where email p f (x ∷ xs) u same h =
    let y : User = if p x then f x else x in
    let kept_account = account_of_if (p x) f x same in
    let mail : y.email ≡ x.email = email_of_account y x kept_account in
    elim (Bool-cases (has_email email x)) [
      | inl e ↦
          let head : x ≡ u = cc (rw e at h) in
          record { row = y; found = rw (mail, e) refl; same = kept_account ∙ ap account_of head }
      | inr e ↦
          let more = find?-update_where email p f xs u same (rw e at h) in
          record { row = more.row; found = rw (mail, e) more.found; same = more.same }
    ]

-- What has evolved keeps the account of every email.
pub Evolves-HasAccount :
    {xs ys : List User} (email : Text) (u : User)
    → Evolves xs ys
    → find? (has_email email) xs ≡ some u
    → HasAccount email u ys
Evolves-HasAccount email u kept h = record { row = u; found = h; same = refl }
Evolves-HasAccount email u (changed {ys} p f same e) h =
    let before = Evolves-HasAccount email u e h in
    let after = find?-update_where email p f ys before.row same before.found in
    record { row = after.row; found = after.found; same = after.same ∙ before.same }
Evolves-HasAccount email u (joined {ys} v fresh e) h =
    let before = Evolves-HasAccount email u e h in
    record {
      row = before.row;
      found = find?-append (has_email email) ys (v ∷ []) before.row before.found;
      same = before.same;
    }

Evolves-IsDistinct :
    {xs ys : List User} → Evolves xs ys → IsDistinct (emails xs) → IsDistinct (emails ys)
Evolves-IsDistinct kept d = d
Evolves-IsDistinct (changed {ys} p f same e) d =
    rw (emails-update_where p f ys same) (Evolves-IsDistinct e d)
Evolves-IsDistinct (joined {ys} v fresh e) d = rw (map-append (λ u. u.email) ys (v ∷ [])) (
    IsDistinct-snoc (emails ys) v.email (contains-emails v.email ys fresh) (Evolves-IsDistinct e d))

module _ (calls : Calls) (digests : Digests) where
  -- However people register and sign in, no email gets a second user: emails that are distinct stay
  -- distinct over every sequence of requests.
  pub run-EmailsDistinct :
      (rs : List (ℕ × Request)) (s : Store)
      → IsDistinct (emails s.users)
      → IsDistinct (emails (run calls digests rs s).users)
  run-EmailsDistinct rs s d = Evolves-IsDistinct (run-Evolves calls s.users digests rs s kept) d

  -- And no account is lost or taken over by a later row: whatever is requested, the first user with an
  -- email keeps its id, its tenant, its password and its role.
  pub run-HasAccount :
      (rs : List (ℕ × Request)) (s : Store) (email : Text) (u : User)
      → find? (has_email email) s.users ≡ some u
      → HasAccount email u (run calls digests rs s).users
  run-HasAccount rs s email u h =
      Evolves-HasAccount email u (run-Evolves calls s.users digests rs s kept) h
