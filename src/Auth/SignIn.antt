-- ===== src/Auth/SignIn.antt =====
-- To whom apps/api/src/auth/auth.service.ts issues a token.
use ad_link.Common.{
  ℕ, Bool, true, false, ◌&&◌, not, Option, none, some, List, [], ◌∷◌, ◌++◌, Text, ◌≡◌, inl, inr,
  refl, ap, ◌∙◌, subst, arith, text_eq, find?, Bool-cases, Option-cases, lookup, beq_refl,
}
use ad_link.Access.{AuthUser, authenticate, context_of, bearer}
use ad_link.Auth.{
  Calls, User, SafeUser, sanitize, Store, issued, Issued, RegisterInput, has_email, payload_of,
  issue, filled, register, login, find_or_create_user, upsert_telegram_user, refresh_avatar,
  same_avatar, new_owner,
}
use ad_link.Auth.Telegram.{Digests, check_widget, text_of, without_hash, id_key, telegram_email}
use ad_link.Auth.Service.{
  failed, without_token, undecodable, claimed, is_unverified, login_with_google,
  login_with_telegram, login_telegram_profile, Request, registers, logs_in, google, widget, profile,
  serve, later, run,
}
use ad_link.Auth.Accounts.{account_of}
use ad_link.Auth.Emails.{run-HasAccount}

-- The payload of a token is part of the account.
payload_of_account : (u v : User) → account_of u ≡ account_of v → payload_of u ≡ payload_of v
payload_of_account u v e = ground (arith, e)

-- Whom a token is for, from the user that is shown with it.
abbrev pub claims_of : SafeUser → AuthUser
claims_of u = record { sub = u.id; tenant_id = u.tenant_id; role = u.role; client_id = u.client_id }

find?-snoc :
    (p : User → Bool) (xs : List User) (u : User)
    → find? p xs ≡ none
    → p u ≡ true
    → find? p (xs ++ u ∷ []) ≡ some u
find?-snoc p [] u h k = rw k
find?-snoc p (x ∷ xs) u h k = ground (arith, find?-snoc p xs u)

-- The email under which a provider's request looks for its user.
abbrev pub provider_email : Request → Option Text
provider_email (registers input) = none
provider_email (logs_in email password) = none
provider_email (google configured failed) = none
provider_email (google configured without_token) = none
provider_email (google configured undecodable) = none
provider_email (google configured (claimed c)) = some (text_of c.email)
provider_email (widget bot_token data' now) =
    some (telegram_email (text_of (lookup id_key (without_hash data'))))
provider_email (profile p) = some (telegram_email p.id)

module _ (calls : Calls) (digests : Digests) where
  -- A token is a bearer token of its user, where a signature verifies.
  pub issue-authenticate :
      (verify : Text → Option AuthUser) (clock : ℕ) (u : User)
      → verify (calls.sign clock (payload_of u)) ≡ some (payload_of u)
      → authenticate verify (some (bearer ++ calls.sign clock (payload_of u)))
        ≡ context_of (payload_of u)
  unfolding authenticate
  issue-authenticate verify clock u h = rw (h, authenticate)

  login_issued :
      (email password : Text) (u : User) (s : Store)
      → find? (has_email email) s.users ≡ some u
      → calls.compare password u.password_hash ≡ true
      → login calls email password s ≡ (s, issue calls s.clock u)
  unfolding login
  login_issued email password u s e c = rw (e, c, login)

  register_created :
      (input : RegisterInput) (s : Store) (i : Issued)
      → (register calls input s).1 ≡ issued i
      → let u = new_owner calls s.drawn input.email input.password input.name in
        (find? (has_email input.email) (register calls input s).0.users ≡ some u)
        × (issue calls s.clock u ≡ issued i)
  unfolding register
  register_created input s i h = elim (Option-cases (find? (has_email input.email) s.users)) [
    | inr (u, e) ↦ absurd (cc (rw (e, register) at h))
    | inl e ↦
        rw (e, register) (find?-snoc _ s.users _ e (beq_refl input.email), rw (e, register) at h)
  ]

  refresh_avatar-account :
      (url : Option Text) (u : User) (s : Store)
      → account_of (refresh_avatar calls url u s).1 ≡ account_of u
  unfolding refresh_avatar
  refresh_avatar-account none u s = refl
  refresh_avatar-account (some url) u s =
      elim (Bool-cases (filled (some url) && not (same_avatar u.avatar_url url))) [
        | inl e ↦ rw (e, refresh_avatar) refl
        | inr e ↦ rw (e, refresh_avatar) refl
      ]

  pub find_or_create_user-account :
      (email : Text) (name url : Option Text) (u : User) (s : Store)
      → find? (has_email email) s.users ≡ some u
      → account_of (find_or_create_user calls email name url s).1 ≡ account_of u
  unfolding find_or_create_user
  find_or_create_user-account email name url u s e =
      rw (e, find_or_create_user) (refresh_avatar-account url u s)

  pub upsert_telegram_user-account :
      (email name username : Text) (photo : Option Text) (u : User) (s : Store)
      → find? (has_email email) s.users ≡ some u
      → account_of (upsert_telegram_user calls email name username photo s).1 ≡ account_of u
  unfolding upsert_telegram_user
  upsert_telegram_user-account email name username photo u s e = rw (e, upsert_telegram_user) refl

  issued-token :
      (clock : ℕ) (v u : User) (j : Issued)
      → account_of v ≡ account_of u
      → issue calls clock v ≡ issued j
      → j.token ≡ calls.sign clock (payload_of u)
  issued-token clock v u j same h = cc (payload_of_account v u same, h)

  found_under :
      (asked email : Text) (u : User) (s : Store)
      → some asked ≡ some email
      → find? (has_email email) s.users ≡ some u
      → find? (has_email asked) s.users ≡ some u
  found_under asked email u s p e =
      let same : email ≡ asked = cc p in subst (λ m. find? (has_email m) s.users ≡ some u) same e

  issue_found :
      (asked email : Text) (name url : Option Text) (u : User) (s : Store) (j : Issued)
      → some asked ≡ some email
      → find? (has_email email) s.users ≡ some u
      → issue calls s.clock (find_or_create_user calls asked name url s).1 ≡ issued j
      → j.token ≡ calls.sign s.clock (payload_of u)
  issue_found asked email name url u s j p e =
      issued-token s.clock (find_or_create_user calls asked name url s).1 u j
        (find_or_create_user-account asked name url u s (found_under asked email u s p e))

  issue_upserted :
      (asked email name username : Text) (photo : Option Text) (u : User) (s : Store) (j : Issued)
      → some asked ≡ some email
      → find? (has_email email) s.users ≡ some u
      → issue calls s.clock (upsert_telegram_user calls asked name username photo s).1 ≡ issued j
      → j.token ≡ calls.sign s.clock (payload_of u)
  issue_upserted asked email name username photo u s j p e =
      issued-token s.clock (upsert_telegram_user calls asked name username photo s).1 u j (
        upsert_telegram_user-account asked name username photo u s
          (found_under asked email u s p e))

  -- A provider signs a user in to the account that the email already has.
  provider-same_account :
      (r : Request) (email : Text) (u : User) (s : Store) (j : Issued)
      → provider_email r ≡ some email
      → find? (has_email email) s.users ≡ some u
      → (serve calls digests r s).1 ≡ issued j
      → j.token ≡ calls.sign s.clock (payload_of u)
  unfolding serve login_with_google login_with_telegram login_telegram_profile
  provider-same_account (registers input) email u s j p e h = absurd (cc p)
  provider-same_account (logs_in mail password) email u s j p e h = absurd (cc p)
  provider-same_account (google false (claimed c)) email u s j p e h = absurd (cc h)
  provider-same_account (google configured failed) email u s j p e h = absurd (cc p)
  provider-same_account (google configured without_token) email u s j p e h = absurd (cc p)
  provider-same_account (google configured undecodable) email u s j p e h = absurd (cc p)
  provider-same_account (google true (claimed c)) email u s j p e h =
      elim (Bool-cases (filled c.email && not (is_unverified c.email_verified))) [
        | inr k ↦ absurd (cc (rw (k, login_with_google) at h))
        | inl k ↦
            issue_found (text_of c.email) email c.name c.picture u s j p e
              (rw (k, login_with_google) at h)
      ]
  provider-same_account (widget bot_token data' now) email u s j p e h =
      elim (Option-cases (check_widget digests bot_token data' now)) [
        | inr (reason, k) ↦ absurd (cc (rw (k, login_with_telegram) at h))
        | inl k ↦ issue_found _ email _ _ u s j p e (rw (k, login_with_telegram) at h)
      ]
  provider-same_account (profile q) email u s j p e h =
      issue_upserted _ email _ _ q.photo_file_id u s j p e h

  -- Whoever has registered keeps the account: after a registration and whatever requests follow, at
  -- whatever times, its email and password sign in, and change nothing; the token is signed then for the
  -- user, tenant and role of the registration, as the token of the registration was. And an email is
  -- one account: a provider that vouches for the same email has a token signed for them as well. The
  -- hash of a password is one that the comparison with this password accepts.
  pub register-login :
      (checks : (n : ℕ) (p : Text) → calls.compare p (calls.hash n p) ≡ true)
      (input : RegisterInput) (s : Store) (i : Issued)
      → (register calls input s).1 ≡ issued i
      → (rs : List (ℕ × Request)) (seconds : ℕ)
      → let s' = later calls digests seconds (run calls digests rs (register calls input s).0) in
        (i.token ≡ calls.sign s.clock (claims_of i.user))
        × ((j : Issued) × (login calls input.email input.password s' ≡ (s', issued j))
            × (j.token ≡ calls.sign s'.clock (claims_of i.user)))
        × ((r : Request) (j : Issued)
            → provider_email r ≡ some input.email
            → (serve calls digests r s').1 ≡ issued j
            → j.token ≡ calls.sign s'.clock (claims_of i.user))
  register-login checks input s i h rs seconds =
      let (found, first) = register_created input s i h in
      let u = new_owner calls s.drawn input.email input.password input.name in
      let s' = later calls digests seconds (run calls digests rs (register calls input s).0) in
      let kept = run-HasAccount calls digests rs (register calls input s).0 input.email u found in
      let same = kept.same in
      let shown : sanitize u ≡ i.user = cc first in
      let claims : payload_of u ≡ claims_of i.user = ap claims_of shown in
      let payload : payload_of kept.row ≡ claims_of i.user =
        payload_of_account kept.row u same ∙ claims in
      let fits : calls.compare input.password kept.row.password_hash ≡ true =
        ap (λ a. calls.compare input.password a.3) same ∙ checks s.drawn input.password in
      let signed : i.token ≡ calls.sign s.clock (payload_of u) = cc first in
      (
        signed ∙ ap (calls.sign s.clock) claims,
        (
          _,
          login_issued input.email input.password kept.row s' kept.found fits,
          ap (calls.sign s'.clock) payload,
        ),
        λ r j p k.
            provider-same_account r input.email kept.row s' j p kept.found k
            ∙ ap (calls.sign s'.clock) payload,
      )
