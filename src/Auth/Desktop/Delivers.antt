-- ===== src/Auth/Desktop/Delivers.antt =====
-- What the sign-in of a desktop through a phone comes to: the bot of
-- apps/api/src/auth/qr/telegram-bot.service.ts and the callback of apps/api/src/auth/auth.controller.ts
-- together with the sessions of apps/api/src/auth/qr/qr-login.service.ts.
use ad_link.Common.{
  ℕ, ◌+◌, ◌≤◌, Option, some, String, List, [], ◌∷◌, Text, ◌≡◌, inl, inr, refl, ap, ◌∙◌, arith,
  text_eq, text_eqb_iff, Option-cases, find?, find?-Elem,
}
use ad_link.QrLogin.{IssuedAuth, Redis, granted, delivered, start, status, approve, run, step}
use ad_link.QrLogin
use ad_link.QrLogin.Sessions.{ttl_ms}
use ad_link.QrLogin.InTime.{get-start, approve-granted, status-delivers}
use ad_link.Auth.{
  Calls, Store, User, Issued, has_email, payload_of, sanitize, find_or_create_user,
  upsert_telegram_user,
}
use ad_link.Auth.Telegram.{Digests, telegram_email, display_name, or_else, generate_username}
use ad_link.Auth.Emails.{email_of_account}
use ad_link.Auth.SignIn.{claims_of, find_or_create_user-account, upsert_telegram_user-account}
use ad_link.Auth.Service.{TelegramProfile, trimmed, login_telegram_profile}
use ad_link.Auth.Desktop.{
  TgUser, TgMessage, start_payload, reply_of, signed_in, confirm, handle, profile_of,
  profile_photo_file_id,
}

module _ (calls : Calls) (digests : Digests) where
  -- What is issued is for the account with this email: the user is shown with it, and the token is
  -- signed for that user at this second.
  pub record IsIssuedFor (clock : ℕ) (email : Text) (i : Issued) : Type 0 where
    pub mail : i.user.email ≡ email
    pub signs : i.token ≡ calls.sign clock (claims_of i.user)

  found-email :
      (email : Text) (u : User) (s : Store)
      → find? (has_email email) s.users ≡ some u
      → u.email ≡ email
  found-email email u s e =
      (text_eqb_iff u.email email).0 (find?-Elem (has_email email) u s.users e).1

  pub find_or_create_user-email :
      (email : Text) (name url : Option Text) (s : Store)
      → (find_or_create_user calls email name url s).1.email ≡ email
  unfolding find_or_create_user
  find_or_create_user-email email name url s =
      elim (Option-cases (find? (has_email email) s.users)) [
        | inl e ↦ rw (e, find_or_create_user) refl
        | inr (u, e) ↦
            email_of_account (find_or_create_user calls email name url s).1 u
              (find_or_create_user-account calls digests email name url u s e)
            ∙ found-email email u s e
      ]

  upsert_telegram_user-email :
      (email name username : Text) (photo : Option Text) (s : Store)
      → (upsert_telegram_user calls email name username photo s).1.email ≡ email
  unfolding upsert_telegram_user
  upsert_telegram_user-email email name username photo s =
      elim (Option-cases (find? (has_email email) s.users)) [
        | inl e ↦ rw (e, upsert_telegram_user) refl
        | inr (u, e) ↦
            email_of_account (upsert_telegram_user calls email name username photo s).1 u
              (upsert_telegram_user-account calls digests email name username photo u s e)
            ∙ found-email email u s e
      ]

  abbrev pub issued_to : ℕ → User → Issued
  issued_to clock u = record { token = calls.sign clock (payload_of u); user = sanitize u }

  pub issued_to-IsIssuedFor :
      (clock : ℕ) (email : Text) (u : User)
      → u.email ≡ email
      → IsIssuedFor clock email (issued_to clock u)
  issued_to-IsIssuedFor clock email u e = record { mail = e; signs = refl }

module _ (redis : Redis) (calls : Calls) (digests : Digests) (key_of : Text → String)
    (stored : Issued → IssuedAuth) (gap : ℕ) where
  -- The poll of the desktop, `n` milliseconds after the approval.
  abbrev pub polled : String → String → ℕ → redis.State → QrLogin.Answer
  polled q x n r = (status redis q x (redis.wait n r)).1

  pub approved_in_time :
      (q x : String) (a : IssuedAuth) (m n : ℕ) (r : redis.State)
      → m + gap + n + 1000 ≤ ttl_ms
      → let (r', result) = approve redis q a gap (redis.wait m (start redis q x r).0) in
        (result ≡ granted) × (polled q x n r' ≡ delivered (some a))
  unfolding run step
  approved_in_time q x a m n r h = (
    approve-granted redis q a gap _ _ (get-start redis q x m r (omega arith)).0 refl,
    status-delivers redis q x a m gap n r h,
  )

  -- What the approval of a session in time comes to: the desktop gets, at the first
  -- poll with its secret, what was issued for the account with this email.
  pub record IsDelivered (q x : String) (n clock : ℕ) (email : Text) (r : redis.State)
      : Type 0 where
    pub auth : Issued
    pub issued_for : IsIssuedFor calls digests clock email auth
    pub answer : polled q x n r ≡ delivered (some (stored auth))

  confirm-delivers :
      (payload : Text) (x : String) (profile : TelegramProfile) (m n : ℕ) (r : redis.State)
      (s : Store)
      → m + gap + n + 1000 ≤ ttl_ms
      → let r₁ = redis.wait m (start redis (key_of payload) x r).0 in
        let (w, reply) = confirm redis calls digests key_of stored gap payload profile (r₁, s) in
        (reply ≡ signed_in)
        × IsDelivered (key_of payload) x n s.clock (telegram_email profile.id) w.0
  unfolding confirm login_telegram_profile
  confirm-delivers payload x p m n r s h =
      let email = telegram_email p.id in
      let name = display_name p.first_name p.last_name p.username p.id in
      let username =
        or_else (trimmed calls digests p.username) (generate_username digests name p.id) in
      let u : User = (upsert_telegram_user calls email name username p.photo_file_id s).1 in
      let auth = issued_to calls digests s.clock u in
      let (g, d) = approved_in_time (key_of payload) x (stored auth) m n r h in
      let mail = upsert_telegram_user-email calls digests email name username p.photo_file_id s in
      (
        ap reply_of g,
        record {
          auth = auth;
          issued_for = issued_to-IsIssuedFor calls digests s.clock email u mail;
          answer = d;
        },
      )

  -- A desktop that shows its code is signed in as the person who starts the bot with it: where the
  -- sender starts the bot with the payload of the code, and the approval and the poll of the desktop
  -- fall within five minutes of the opening, less one second, the bot confirms, and the first poll with
  -- the desktop's secret gets a token for the account with the sender's synthetic address.
  pub handle-delivers :
      (photos : Text → Option (List (List Text))) (user : TgUser) (text payload : Text) (x : String)
      (m n : ℕ) (r : redis.State) (s : Store)
      → start_payload text ≡ some (some payload)
      → m + gap + n + 1000 ≤ ttl_ms
      → let message : TgMessage = record { from = some user; text = some text } in
        let r₁ = redis.wait m (start redis (key_of payload) x r).0 in
        let ((r₂, s₂), reply) =
          handle redis calls digests key_of stored gap photos (some message) (r₁, s) in
        (reply ≡ signed_in) × IsDelivered (key_of payload) x n s.clock (telegram_email user.id) r₂
  unfolding handle
  handle-delivers photos user [] payload x m n r s p h = absurd (cc p)
  handle-delivers photos user (c ∷ text) payload x m n r s p h =
      let profile =
        profile_of redis calls digests key_of stored gap (profile_photo_file_id (photos user.id))
          user in
      rw (p, handle) (confirm-delivers payload x profile m n r s h)
