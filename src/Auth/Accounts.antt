-- ===== src/Auth/Accounts.antt =====
-- How the requests of apps/api/src/auth/auth.service.ts change the table of users: rows are refreshed
-- without touching what makes an account, and a row is added only for an email that has none.
use ad_link.Common.{
  ℕ, Bool, true, false, ◌&&◌, not, Option, none, some, String, List, [], ◌∷◌, ◌++◌, Text, ◌≡◌, inl,
  inr, refl, text_eq, string_eq, find?, update_where, Bool-cases, Option-cases,
}
use ad_link.Core.Enums.{Role}
use ad_link.Auth.{
  Calls, User, Store, RegisterInput, has_email, is_user, filled, same_avatar, with_avatar,
  refresh_avatar, with_profile, refresh_profile, photo_of, or_text, register, login,
  find_or_create_user, upsert_telegram_user, with_owner, new_telegram_user, workspace,
}
use ad_link.Auth.Telegram.{Digests, Fields, check_widget}
use ad_link.Auth.Service.{
  GoogleAnswer, failed, without_token, undecodable, claimed, is_unverified, login_with_google,
  login_with_telegram, login_telegram_profile, Request, registers, logs_in, google, widget, profile,
  serve, later, run,
}

-- What makes an account: whose it is, how its password is checked, and what it may do.
abbrev pub account_of : User → String × String × Text × Text × Role × Option String
account_of u = (u.id, u.tenant_id, u.email, u.password_hash, u.role, u.client_id)

-- The table `xs` has become this one.
pub data Evolves (xs : List User) : List User → Type 0 where
  kept : Evolves xs xs
  changed :
      {ys : List User} (p : User → Bool) (f : User → User)
      → ((u : User) → account_of (f u) ≡ account_of u)
      → Evolves xs ys
      → Evolves xs (update_where p f ys)
  joined :
      {ys : List User} (u : User)
      → find? (has_email u.email) ys ≡ none
      → Evolves xs ys
      → Evolves xs (ys ++ u ∷ [])

module _ (calls : Calls) (xs : List User) where
  refresh_avatar-Evolves :
      (url : Option Text) (u : User) (s : Store)
      → Evolves xs s.users
      → Evolves xs (refresh_avatar calls url u s).0.users
  unfolding refresh_avatar
  refresh_avatar-Evolves none u s h = h
  refresh_avatar-Evolves (some url) u s h =
      elim (Bool-cases (filled (some url) && not (same_avatar u.avatar_url url))) [
        | inl e ↦
            rw (e, refresh_avatar) (changed (is_user u.id) (with_avatar calls url) (λ v. refl) h)
        | inr e ↦ rw (e, refresh_avatar) h
      ]

  find_or_create_user-Evolves :
      (email : Text) (name url : Option Text) (s : Store)
      → Evolves xs s.users
      → Evolves xs (find_or_create_user calls email name url s).0.users
  unfolding find_or_create_user
  find_or_create_user-Evolves email name url s h =
      elim (Option-cases (find? (has_email email) s.users)) [
        | inl e ↦ rw (e, find_or_create_user) (joined _ e h)
        | inr (u, e) ↦ rw (e, find_or_create_user) (refresh_avatar-Evolves url u s h)
      ]

  refresh_profile-Evolves :
      (username : Text) (photo : Option Text) (u : User) (s : Store)
      → Evolves xs s.users
      → Evolves xs (refresh_profile calls username photo u s).0.users
  refresh_profile-Evolves username photo u s h =
      changed (is_user u.id)
        (with_profile calls username (photo_of calls photo u)
          (or_text calls photo u.tg_photo_file_id))
        (λ v. refl) h

  upsert_telegram_user-Evolves :
      (email name username : Text) (photo : Option Text) (s : Store)
      → Evolves xs s.users
      → Evolves xs (upsert_telegram_user calls email name username photo s).0.users
  unfolding upsert_telegram_user
  upsert_telegram_user-Evolves email name username photo s h =
      elim (Option-cases (find? (has_email email) s.users)) [
        | inl e ↦
            rw (e, upsert_telegram_user)
              (refresh_profile-Evolves username photo
                (new_telegram_user calls s.drawn email name username)
                (with_owner calls (name ++ workspace)
                  (new_telegram_user calls s.drawn email name username) s)
                (joined _ e h))
        | inr (u, e) ↦ rw (e, upsert_telegram_user) (refresh_profile-Evolves username photo u s h)
      ]

  register-Evolves :
      (input : RegisterInput) (s : Store)
      → Evolves xs s.users
      → Evolves xs (register calls input s).0.users
  unfolding register
  register-Evolves input s h = elim (Option-cases (find? (has_email input.email) s.users)) [
    | inl e ↦ rw (e, register) (joined _ e h)
    | inr (u, e) ↦ rw (e, register) h
  ]

  pub login-users : (email password : Text) (s : Store) → (login calls email password s).0 ≡ s
  unfolding login
  login-users email password s = elim (Option-cases (find? (has_email email) s.users)) [
    | inl e ↦ rw (e, login)
    | inr (u, e) ↦ elim (Bool-cases (calls.compare password u.password_hash)) [
      | inl c ↦ rw (e, c, login)
      | inr c ↦ rw (e, c, login)
    ]
  ]

  module _ (digests : Digests) where
    login_with_google-Evolves :
        (configured : Bool) (answer : GoogleAnswer) (s : Store)
        → Evolves xs s.users
        → Evolves xs (login_with_google calls digests configured answer s).0.users
    unfolding login_with_google
    login_with_google-Evolves false answer s h = h
    login_with_google-Evolves true failed s h = h
    login_with_google-Evolves true without_token s h = h
    login_with_google-Evolves true undecodable s h = h
    login_with_google-Evolves true (claimed c) s h =
        elim (Bool-cases (filled c.email && not (is_unverified c.email_verified))) [
          | inl e ↦ rw (e, login_with_google) (find_or_create_user-Evolves _ c.name c.picture s h)
          | inr e ↦ rw (e, login_with_google) h
        ]

    login_with_telegram-Evolves :
        (bot_token : Option Text) (data' : Fields) (now : ℕ) (s : Store)
        → Evolves xs s.users
        → Evolves xs (login_with_telegram calls digests bot_token data' now s).0.users
    unfolding login_with_telegram
    login_with_telegram-Evolves bot_token data' now s h =
        elim (Option-cases (check_widget digests bot_token data' now)) [
          | inl e ↦ rw (e, login_with_telegram) (find_or_create_user-Evolves _ _ _ s h)
          | inr (reason, e) ↦ rw (e, login_with_telegram) h
        ]

    pub serve-Evolves :
        (r : Request) (s : Store)
        → Evolves xs s.users
        → Evolves xs (serve calls digests r s).0.users
    unfolding serve login_telegram_profile
    serve-Evolves (registers input) s h = register-Evolves input s h
    serve-Evolves (logs_in email password) s h = rw (login-users email password s) h
    serve-Evolves (google configured answer) s h = login_with_google-Evolves configured answer s h
    serve-Evolves (widget bot_token data' now) s h =
        login_with_telegram-Evolves bot_token data' now s h
    serve-Evolves (profile p) s h = upsert_telegram_user-Evolves _ _ _ p.photo_file_id s h

    pub run-Evolves :
        (rs : List (ℕ × Request)) (s : Store)
        → Evolves xs s.users
        → Evolves xs (run calls digests rs s).users
    unfolding run
    run-Evolves [] s h = h
    run-Evolves ((n, r) ∷ rs) s h =
        run-Evolves rs (serve calls digests r (later calls digests n s)).0
          (serve-Evolves r (later calls digests n s) h)
