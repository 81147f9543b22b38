-- ===== src/AdAccounts/Picker/Callback.antt =====
-- Which callbacks of apps/api/src/ad-accounts/ad-accounts.controller.ts open a picker.
use ad_link.Common.{
  ℕ, ◌+◌, true, ◌&&◌, not, Option, none, some, String, ◌≡◌, refl, ap, arith, ◌==◌, string_eq,
  eq_iff, Bool-cases, Option-cases, inl, inr, lookup, lookup-insert_self, is_text,
}
use ad_link.AdAccounts.Oauth.{
  Result-cases, Settings, Graph, ok, exchange_meta_code, list_meta_accounts,
}
use ad_link.AdAccounts.Picker.{
  MetaSession, Sessions, prune, ttl_ms, create_session, picker, open_picker, meta_callback,
}

is_text-eq : (o : Option String) (x : String) → is_text o x ≡ true → o ≡ some x
is_text-eq none x h = absurd (cc h)
is_text-eq (some y) x h = ap some ((eq_iff y x).0 h)

-- A picker that the callback has opened: its session is the tenant's, lasts ten minutes, and keeps the
-- token that Meta gave for the code.
pub record IsOpened (settings : Settings) (graph : Graph) (session_id code tenant_id : String)
    (now : ℕ) (sessions : Sessions) : Type 0 where
  pub session : MetaSession
  pub found : lookup session_id sessions ≡ some session
  pub own : session.tenant_id ≡ tenant_id
  pub lasts : session.expires ≡ now + ttl_ms
  pub exchanged : exchange_meta_code settings graph code ≡ ok session.token

module _ (settings : Settings) (graph : Graph) (verify : String → Option String) where
  open_picker_picker :
      (session_id code tenant_id shown : String) (now : ℕ) (sessions : Sessions)
      → (open_picker settings graph verify session_id code tenant_id now sessions).1 ≡ picker shown
      → IsOpened settings graph session_id code tenant_id now
          (open_picker settings graph verify session_id code tenant_id now sessions).0
  unfolding open_picker create_session
  open_picker_picker session_id code tenant_id shown now sessions h =
      elim (Result-cases (exchange_meta_code settings graph code)) [
        | inr (f, e) ↦ absurd (cc (rw (e, open_picker) at h))
        | inl (token, e) ↦ elim (Result-cases (list_meta_accounts graph token)) [
          | inr (f, l) ↦ absurd (cc (rw (e, l, open_picker) at h))
          | inl (accounts, l) ↦
              rw (e, l, open_picker)
                (record {
                  session = record {
                    token = token;
                    tenant_id = tenant_id;
                    accounts = accounts;
                    expires = now + ttl_ms;
                  };
                  found = lookup-insert_self session_id _ (prune now sessions);
                  own = refl;
                  lasts = refl;
                  exchanged = e;
                })
        ]
      ]

  -- The browser is sent to a picker only if the request carries a code and a state, the cookie has the
  -- same state, and the state was signed for a tenant; the session that is opened is that tenant's,
  -- lasts ten minutes, and keeps the token that Meta gave for the code.
  pub meta_callback-IsOpened :
      (session_id : String) (code state cookie_state : Option String) (now : ℕ)
      (sessions : Sessions) (shown : String)
      → (meta_callback settings graph verify session_id code state cookie_state now sessions).1
        ≡ picker shown
      → (c signed tenant_id : String) × (code ≡ some c)
        × (state ≡ some signed)
        × (cookie_state ≡ some signed)
        × (verify signed ≡ some tenant_id)
        × IsOpened settings graph session_id c tenant_id now
            (meta_callback settings graph verify session_id code state cookie_state now sessions).0
  unfolding meta_callback
  meta_callback-IsOpened session_id none state cookie_state now sessions shown h = absurd (cc h)
  meta_callback-IsOpened session_id (some c) none cookie_state now sessions shown h = absurd (cc h)
  meta_callback-IsOpened session_id (some c) (some st) cookie now sessions shown h =
      elim (Bool-cases (not (c == "") && (not (st == "") && is_text cookie st))) [
        | inr e ↦ absurd (cc (rw (e, meta_callback) at h))
        | inl e ↦ elim (Option-cases (verify st)) [
          | inl v ↦ absurd (cc (rw (e, v, meta_callback) at h))
          | inr (t, v) ↦ (
            c,
            st,
            t,
            refl,
            refl,
            is_text-eq cookie st (ground arith),
            v,
            rw (e, v, meta_callback)
                (open_picker_picker session_id c t shown now sessions
                  (rw (e, v, meta_callback) at h)),
          )
        ]
      ]
