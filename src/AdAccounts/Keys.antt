-- ===== src/AdAccounts/Keys.antt =====
-- The rows of the ad accounts by the account that they stand for, for an import of
-- apps/api/src/ad-accounts/ad-accounts.service.ts.
use ad_link.Common.{
  Bool, true, false, ◌&&◌, String, List, [], ◌∷◌, ◌++◌, ◌≡◌, refl, arith, ◌==◌, string_eq, any, map,
  All, eq_iff,
}
use mathlib.Core.List.{map-append}
use ad_link.Core.Enums.{AdProvider}
use ad_link.AdAccounts.Rows.{is_meta}
use ad_link.AdAccounts.{Account, is_account}

-- Whose the row is: its id, its tenant, its client, and the account that it stands for.
abbrev pub owner : Account → String × String × String × AdProvider × String
owner a = (a.id, a.tenant_id, a.client_id, a.provider, a.external_id)

-- No row of the list stands for the account.
abbrev pub IsUnused : List Account → String → Type 0
IsUnused rows external_id = any (is_account external_id) rows ≡ false

-- No account has two rows.
abbrev pub IsKeyed : List Account → Type 0
IsKeyed [] = Unit
IsKeyed (a ∷ rows) = IsUnused rows a.external_id × IsKeyed rows

abbrev keyed_by : String → String × String × String × AdProvider × String → Bool
keyed_by external_id (i, t, c, p, x) = is_meta p && x == external_id

any-owner :
    (e : String) (rows : List Account) → any (is_account e) rows ≡ any (keyed_by e) (map owner rows)
any-owner e [] = refl
any-owner e (a ∷ rows) = ground (arith, any-owner e rows)

any-append :
    (e : String) (xs ys : List Account) → IsUnused (xs ++ ys) e → IsUnused xs e × IsUnused ys e
any-append e [] ys h = (refl, h)
any-append e (x ∷ xs) ys h = ground (arith, any-append e xs ys)

-- An account without a row has none in the table and none in what was created for it.
pub IsUnused-before :
    (before created after : List Account)
    → map owner after ≡ map owner before ++ map owner created
    → (e : String) → IsUnused after e
    → IsUnused before e × IsUnused created e
IsUnused-before before created after kept e h =
    let owners = rw (any-owner e after) at h in
    let joined = rw (kept, ← map-append owner before created) at owners in
    any-append e before created (rw (← any-owner e (before ++ created)) at joined)

pub All-IsUnused_before :
    (before created after new : List Account)
    → map owner after ≡ map owner before ++ map owner created
    → All (λ a. IsUnused after a.external_id) new
    → All (λ a. IsUnused before a.external_id) new × All (λ a. IsUnused created a.external_id) new
All-IsUnused_before before created after [] kept h = (tt, tt)
All-IsUnused_before before created after (a ∷ new) kept (p, h) =
    let (q, r) = IsUnused-before before created after kept a.external_id p in
    let (qs, rs) = All-IsUnused_before before created after new kept h in ((q, qs), (r, rs))

IsUnused-append :
    (e : String) (xs ys : List Account) → IsUnused xs e → IsUnused ys e → IsUnused (xs ++ ys) e
IsUnused-append e [] ys h k = k
IsUnused-append e (x ∷ xs) ys h k = ground (arith, IsUnused-append e xs ys)

-- If a row stands for no account of the list, no row of the list stands for its account.
IsUnused-of_All :
    (x : Account) (xs ys : List Account)
    → is_meta x.provider ≡ true
    → All (λ a. IsUnused (x ∷ xs) a.external_id) ys
    → IsUnused ys x.external_id × All (λ a. IsUnused xs a.external_id) ys
IsUnused-of_All x xs [] m h = (refl, tt)
IsUnused-of_All x xs (y ∷ ys) m (p, h) =
    let (q, r) = IsUnused-of_All x xs ys m h in
    (
      ground (arith, q, eq_iff x.external_id y.external_id, eq_iff y.external_id x.external_id),
      (ground arith, r),
    )

pub IsKeyed-append :
    (xs ys : List Account)
    → All (λ a. is_meta a.provider ≡ true) xs
    → IsKeyed xs
    → IsKeyed ys
    → All (λ a. IsUnused xs a.external_id) ys
    → IsKeyed (xs ++ ys)
IsKeyed-append [] ys m u v h = v
IsKeyed-append (x ∷ xs) ys (m, ms) (p, u) v h =
    let (q, r) = IsUnused-of_All x xs ys m h in
    (IsUnused-append x.external_id xs ys p q, IsKeyed-append xs ys ms u v r)
