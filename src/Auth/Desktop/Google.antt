-- ===== src/Auth/Desktop/Google.antt =====
-- The sign-in with Google of apps/api/src/auth/auth.controller.ts: when its callback does anything, and
-- what it comes to for a desktop.
use ad_link.Common.{
  ℕ, ◌+◌, ◌≤◌, Bool, true, false, ◌&&◌, not, Option, some, String, [], ◌∷◌, ◌++◌, Text, ◌≡◌, ◌⊎◌,
  inl, inr, refl, ap, ◌∙◌, arith, ◌==◌, text_eq, text_eqb_iff, beq_refl, Bool-cases,
}
use ad_link.Secrets.{split_colon}
use ad_link.Secrets.RoundTrip.{IsPlain, split_colon-append}
use ad_link.QrLogin.{IssuedAuth, Redis, start}
use ad_link.QrLogin.Sessions.{ttl_ms}
use ad_link.Auth.{Calls, Store, User, Issued, refused, Reason, filled, find_or_create_user}
use ad_link.Auth.Telegram.{Digests, text_of}
use ad_link.Auth.Service.{
  Claims, GoogleAnswer, without_token, undecodable, claimed, is_unverified, login_with_google,
}
use ad_link.Auth.Desktop.{World, confirmed, failed, qr_state, land, google_callback}
use ad_link.Auth.Desktop.Delivers.{
  IsDelivered, approved_in_time, issued_to, issued_to-IsIssuedFor, find_or_create_user-email,
}

pub GoogleAnswer-cases :
    (a : GoogleAnswer)
    → (a ≡ GoogleAnswer.failed)
      ⊎ (a ≡ without_token)
      ⊎ (a ≡ undecodable)
      ⊎ ((c : Claims) × (a ≡ claimed c))
GoogleAnswer-cases GoogleAnswer.failed = inl refl
GoogleAnswer-cases without_token = inr (inl refl)
GoogleAnswer-cases undecodable = inr (inr (inl refl))
GoogleAnswer-cases (claimed c) = inr (inr (inr (c, refl)))

-- What a Google account vouches for: its answer to the code has an email that it does not call
-- unverified.
pub record IsVouched (google : Text → GoogleAnswer) (code : Text) (c : Claims) : Type 0 where
  pub answered : google code ≡ claimed c
  pub verified : (filled c.email && not (is_unverified c.email_verified)) ≡ true

module _ (redis : Redis) (calls : Calls) (digests : Digests) (key_of : Text → String)
    (stored : Issued → IssuedAuth) (gap : ℕ) where
  -- A desktop is signed in by a phone that signs in with Google: where the state that `qrGoogleStart`
  -- made for the code comes back with the same cookie, Google vouches for an account, and the approval
  -- and the poll of the desktop fall within five minutes of the opening, less one second, the phone is
  -- shown the confirmation, and the first poll with the desktop's secret gets a token for the account
  -- with Google's address. The id of a session has no colon.
  pub google_callback-delivers :
      (google : Text → GoogleAnswer) (code csrf qr_id : Text) (c : Claims) (x : String) (m n : ℕ)
      (r : redis.State) (s : Store)
      → filled (some code) ≡ true
      → IsPlain qr_id
      → IsVouched google code c
      → m + gap + n + 1000 ≤ ttl_ms
      → let state = some (qr_state qr_id csrf) in
        let r₁ = redis.wait m (start redis (key_of qr_id) x r).0 in
        let ((r₂, s₂), landing) =
          google_callback redis calls digests key_of stored gap true google
            (some code)
            state
            state
            (r₁, s) in
        (landing ≡ confirmed qr_id)
        × IsDelivered redis calls digests key_of stored gap
            (key_of qr_id)
            x
            n
            s.clock
            (text_of c.email)
            r₂
  unfolding google_callback land login_with_google
  google_callback-delivers google code csrf qr_id c x m n r s full plain v h =
      let email = text_of c.email in
      let u : User = (find_or_create_user calls email c.name c.picture s).1 in
      let auth = issued_to calls digests s.clock u in
      let (g, d) =
        approved_in_time redis calls digests key_of stored gap (key_of qr_id) x (stored auth) m n r
          h in
      let asked = v.answered in
      let verified = v.verified in
      let qr : IsPlain (113 ∷ 114 ∷ []) = (refl, (refl, tt)) in
      let parts : split_colon (qr_state qr_id csrf) ≡ (113 ∷ 114 ∷ []) ∷ qr_id ∷ split_colon csrf =
        split_colon-append (113 ∷ 114 ∷ []) (qr_id ++ 58 ∷ csrf) qr
        ∙ ap (◌∷◌ (113 ∷ 114 ∷ [])) (split_colon-append qr_id csrf plain) in
      let same = beq_refl (qr_state qr_id csrf) in
      let mail = find_or_create_user-email calls digests email c.name c.picture s in
      rw (full, same, asked, verified, parts, google_callback, land, login_with_google)
        (
          refl,
          record {
            auth = auth;
            issued_for = issued_to-IsIssuedFor calls digests s.clock email u mail;
            answer = d;
          },
        )

  login_with_google-IsVouched :
      (configured : Bool) (google : Text → GoogleAnswer) (code : Text) (s : Store)
      → ((reason : Reason) × (login_with_google calls digests configured (google code) s
            ≡ (s, refused reason)))
        ⊎ ((c : Claims) × IsVouched google code c)
  unfolding login_with_google
  login_with_google-IsVouched false google code s = inl (Reason.not_configured, refl)
  login_with_google-IsVouched true google code s = elim (GoogleAnswer-cases (google code)) [
    | inl e ↦ inl (Reason.exchange_failed, rw (e, login_with_google) refl)
    | inr (inl e) ↦ inl (Reason.no_id_token, rw (e, login_with_google) refl)
    | inr (inr (inl e)) ↦ inl (Reason.malformed_id_token, rw (e, login_with_google) refl)
    | inr (inr (inr (c, e))) ↦
        elim (Bool-cases (filled c.email && not (is_unverified c.email_verified))) [
          | inl k ↦ inr (c, record { answered = e; verified = k })
          | inr k ↦ inl (Reason.email_not_verified, rw (e, k, login_with_google) refl)
        ]
  ]

  -- The callback of Google changes no account and no session, and signs nobody in, unless the request
  -- has a code and a state, the state is that of the cookie, and Google answers the code with an
  -- address that it does not call unverified.
  pub google_callback-IsGuarded :
      (configured : Bool) (google : Text → GoogleAnswer) (code state cookie_state : Option Text)
      (w : World redis calls digests key_of stored gap)
      → (google_callback redis calls digests key_of stored gap configured google code state
            cookie_state w
          ≡ (w, failed))
        ⊎ ((filled code ≡ true)
            × (filled state ≡ true)
            × (text_of state ≡ text_of cookie_state)
            × ((c : Claims) × IsVouched google (text_of code) c))
  unfolding google_callback
  google_callback-IsGuarded configured google code state cookie_state (r, s) =
      elim (Bool-cases (
        filled code
        && (filled state && (filled cookie_state && text_of state == text_of cookie_state)))) [
          | inr e ↦ inl (rw (e, google_callback) refl)
          | inl e ↦ elim (login_with_google-IsVouched configured google (text_of code) s) [
            | inl (reason, k) ↦ inl (rw (e, k, google_callback) (ap (λ p. ((r, p.0), failed)) k))
            | inr v ↦ inr (
              ground (arith, e),
              ground (arith, e),
              (text_eqb_iff (text_of state) (text_of cookie_state)).0 (ground (arith, e)),
              v,
            )
          ]
        ]
