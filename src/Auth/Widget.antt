-- ===== src/Auth/Widget.antt =====
-- What the login widget of Telegram must show to apps/api/src/auth/auth.service.ts.
use ad_link.Common.{
  ℕ, ◌+◌, ◌/◌, ◌≤◌, Bool, true, false, Option, none, some, Text, ◌≡◌, inl, inr, refl, arith, ◌==◌,
  text_eq, Bool-cases, Option-cases, if◌then◌else◌, text_eqb_iff, lookup, ltb,
}
use ad_link.Auth.{Calls, Store, issued, Issued, Reason, filled}
use ad_link.Auth.Telegram.{
  Digests, Fields, check_widget, is_complete, signature_of, text_of, without_hash, hash_key,
  auth_date_key,
}
use ad_link.Auth.Service.{login_with_telegram}

module _ (calls : Calls) (digests : Digests) where
  -- What the login widget must have shown.
  pub record IsSigned (bot_token : Option Text) (data' : Fields) (now : ℕ) : Type 0 where
    pub configured : filled bot_token ≡ true
    pub complete : is_complete data' ≡ true
    pub signed :
        signature_of digests (text_of bot_token) (without_hash data')
        ≡ text_of (lookup hash_key data')
    pub fresh :
        (t : ℕ)
        → digests.number (text_of (lookup auth_date_key (without_hash data'))) ≡ some t
        → now / 1000 ≤ t + 86400

  not_stale : (now t : ℕ) → ltb (t + 86400) (now / 1000) ≡ false → now / 1000 ≤ t + 86400
  not_stale now t h = ground arith

  stale_of : (b : Bool) → (if b then some Reason.login_expired else none) ≡ none → b ≡ false
  stale_of false h = refl
  stale_of true h = absurd (cc h)

  check_widget-IsSigned :
      (bot_token : Option Text) (data' : Fields) (now : ℕ)
      → check_widget digests bot_token data' now ≡ none
      → IsSigned bot_token data' now
  unfolding check_widget
  check_widget-IsSigned bot_token data' now h = elim (Bool-cases (filled bot_token)) [
    | inr a ↦ absurd (cc (rw (a, check_widget) at h))
    | inl a ↦ elim (Bool-cases (is_complete data')) [
      | inr b ↦ absurd (cc (rw (a, b, check_widget) at h))
      | inl b ↦
          elim (Bool-cases (
            signature_of digests (text_of bot_token) (without_hash data')
            == text_of (lookup hash_key data'))) [
              | inr c ↦ absurd (cc (rw (a, b, c, check_widget) at h))
              | inl c ↦ record {
                configured = a;
                complete = b;
                signed = (text_eqb_iff _ _).0 c;
                fresh = λ t e. not_stale now t (stale_of _ (rw (a, b, c, e, check_widget) at h));
              }
            ]
    ]
  ]

  -- The widget signs a user in only on a payload that is complete, that carries the keyed digest of its
  -- own fields under the bot's token, and that is not older than a day where its date is a number.
  pub login_with_telegram-IsSigned :
      (bot_token : Option Text) (data' : Fields) (now : ℕ) (s : Store) (i : Issued)
      → (login_with_telegram calls digests bot_token data' now s).1 ≡ issued i
      → IsSigned bot_token data' now
  unfolding login_with_telegram
  login_with_telegram-IsSigned bot_token data' now s i h =
      elim (Option-cases (check_widget digests bot_token data' now)) [
        | inl e ↦ check_widget-IsSigned bot_token data' now e
        | inr (reason, e) ↦ absurd (cc (rw (e, login_with_telegram) at h))
      ]
