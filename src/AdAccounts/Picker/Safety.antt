-- ===== src/AdAccounts/Picker/Safety.antt =====
-- What the picker of apps/api/src/ad-accounts/ad-accounts.controller.ts lets through.
use ad_link.Common.{
  ℕ, ◌≤◌, true, none, some, String, List, [], ◌∷◌, ◌≡◌, refl, ap, ◌∙◌, arith, ◌==◌, string_eq,
  eq_iff, map, All, Bool-cases, Option-cases, beq_refl, contains, inl, inr, ◌⊎◌, lookup, ltb, Elem,
  subst,
}
use ad_link.AdAccounts.{
  Account, MetaRawAccount, Store, imported, external_id_of, import_accounts, import_meta_accounts,
  ensure_default_client,
}
use ad_link.AdAccounts.Import.{import_account-All}
use ad_link.AdAccounts.Isolation.{ensure_default_client-accounts}
use ad_link.AdAccounts.Picker.{
  MetaSession, Sessions, delete_session, get_session, chosen, Service, meta_import,
}

lookup-delete_session : (id : String) (m : Sessions) → lookup id (delete_session id m) ≡ none
unfolding lookup
lookup-delete_session id [] = refl
lookup-delete_session id ((k, v) ∷ m) = ground (arith, lookup-delete_session id m)

-- A session that is given out is in the Map, and has not expired.
get_session-some :
    (id : String) (now : ℕ) (sessions : Sessions) (m : MetaSession)
    → (get_session id now sessions).1 ≡ some m
    → (lookup id sessions ≡ some m) × (now ≤ m.expires)
unfolding get_session
get_session-some id now sessions m h = elim (Option-cases (lookup id sessions)) [
  | inl e ↦ absurd (cc (rw (e, get_session) at h))
  | inr (found, e) ↦ elim (Bool-cases (ltb found.expires now)) [
    | inl late ↦ absurd (cc (rw (e, late, get_session) at h))
    | inr early ↦
        let got : found ≡ m = cc (rw (e, early, get_session) at h) in
        (e ∙ ap some got, subst (λ v. now ≤ v.expires) got (ground arith))
  ]
]

module _ (id_of : ℕ → String) (seal : String → String) (t : String) (now : ℕ)
    (P : String → Type 0) where
  import_accounts-All :
      (client_id token_ref : String) (raws : List MetaRawAccount) (s : Store)
      → All (λ raw. P (external_id_of raw)) raws
      → All (λ a. P a.external_id) s.accounts
      → All
          (λ a. P a.external_id)
          (import_accounts id_of seal t now client_id token_ref raws s).accounts
  unfolding import_accounts
  import_accounts-All client_id token_ref [] s h k = k
  import_accounts-All client_id token_ref (raw ∷ raws) s (p, h) k =
      import_accounts-All client_id token_ref raws _ h (
        import_account-All id_of seal t now client_id token_ref (λ a. P a.external_id) raw s
          (λ a q. q) (λ id. p) k)

  import_meta_accounts-All :
      (token : String) (raws : List MetaRawAccount) (s : Store)
      → All (λ raw. P (external_id_of raw)) raws
      → All (λ a. P a.external_id) s.accounts
      → All (λ a. P a.external_id) (import_meta_accounts id_of seal t now token raws s).accounts
  unfolding import_meta_accounts
  import_meta_accounts-All token raws s h k =
      import_accounts-All _ (seal token) raws (ensure_default_client id_of seal t now s).0 h
        (rw (ensure_default_client-accounts id_of seal t now s) k)

-- The request may import the account: it names it, and the session that it names is of the tenant, has
-- not expired, and lists it.
pub record IsOffered (tenant_id id : String) (external_ids : List String) (now : ℕ)
    (sessions : Sessions) (external_id : String) : Type 0 where
  pub session : MetaSession
  pub raw : MetaRawAccount
  pub found : lookup id sessions ≡ some session
  pub own : session.tenant_id ≡ tenant_id
  pub live : now ≤ session.expires
  pub listed : Elem raw session.accounts
  pub named : contains external_ids external_id ≡ true
  pub same : external_id_of raw ≡ external_id

-- What a request may leave in the table: the accounts that were there, and those it may import.
abbrev pub IsAllowed : String → String → List String → ℕ → Service → String → Type 0
IsAllowed tenant_id id external_ids now (sessions, s) external_id =
    (contains (map (λ a. a.external_id) s.accounts) external_id ≡ true)
    ⊎ IsOffered tenant_id id external_ids now sessions external_id

All-known :
    (Q : String → Type 0) (xs rest : List Account)
    → ((e : String) → contains (map (λ a. a.external_id) rest) e ≡ true → Q e)
    → ((e : String)
        → contains (map (λ a. a.external_id) xs) e ≡ true
        → contains (map (λ a. a.external_id) rest) e ≡ true)
    → All (λ a. Q a.external_id) xs
All-known Q [] rest h k = tt
All-known Q (x ∷ xs) rest h k = (
  h x.external_id (k x.external_id (rw (beq_refl x.external_id) refl)),
  All-known Q xs rest h (λ e q. k e (ground (arith, q))),
)

All-chosen :
    (Q : String → Type 0) (external_ids : List String) (xs : List MetaRawAccount)
    → ((raw : MetaRawAccount)
        → Elem raw xs
        → contains external_ids (external_id_of raw) ≡ true
        → Q (external_id_of raw))
    → All (λ raw. Q (external_id_of raw)) (chosen external_ids xs)
All-chosen Q external_ids [] h = tt
All-chosen Q external_ids (x ∷ xs) h =
    let rest = All-chosen Q external_ids xs (λ raw m. h raw (inr m)) in
    elim (Bool-cases (contains external_ids (external_id_of x))) [
      | inl e ↦ rw e (h x (inl refl) e, rest)
      | inr e ↦ rw e rest
    ]

module _ (id_of : ℕ → String) (seal : String → String) where
  meta_import-none :
      (tenant_id id : String) (external_ids : List String) (now : ℕ) (sessions : Sessions)
      (s : Store)
      → (get_session id now sessions).1 ≡ none
      → meta_import id_of seal tenant_id id external_ids now (sessions, s)
        ≡ (((get_session id now sessions).0, s), imported 0)
  unfolding meta_import
  meta_import-none tenant_id id external_ids now sessions s e = rw (e, meta_import)

  -- An import adds no account but those that were offered: after it every account of the table was
  -- there before, or is one that the request names and that the picker's session lists, where the
  -- session belongs to the tenant of the request and has not expired.
  pub meta_import-IsAllowed :
      (tenant_id id : String) (external_ids : List String) (now : ℕ) (w : Service)
      → All
          (λ a. IsAllowed tenant_id id external_ids now w a.external_id)
          (meta_import id_of seal tenant_id id external_ids now w).0.1.accounts
  unfolding meta_import
  meta_import-IsAllowed tenant_id id external_ids now (sessions, s) =
      let known =
        All-known (IsAllowed tenant_id id external_ids now (sessions, s)) s.accounts s.accounts
          (λ e k. inl k) (λ e k. k) in
      elim (Option-cases (get_session id now sessions).1) [
        | inl e ↦ rw (meta_import-none tenant_id id external_ids now sessions s e) known
        | inr (m, e) ↦ elim (Bool-cases (m.tenant_id == tenant_id)) [
          | inr other ↦ rw (e, other, meta_import) known
          | inl same ↦
              let (found, live) = get_session-some id now sessions m e in
              rw (e, same, meta_import)
                (import_meta_accounts-All id_of seal tenant_id now
                  (IsAllowed tenant_id id external_ids now (sessions, s)) m.token
                  (chosen external_ids m.accounts) s
                  (All-chosen (IsAllowed tenant_id id external_ids now (sessions, s)) external_ids
                    m.accounts
                    (λ raw listed named. inr (record {
                      session = m;
                      raw = raw;
                      found = found;
                      own = (eq_iff m.tenant_id tenant_id).0 same;
                      live = live;
                      listed = listed;
                      named = named;
                      same = refl;
                    })))
                  known)
        ]
      ]

  meta_import-absent :
      (tenant_id id : String) (external_ids : List String) (now : ℕ) (w : Service)
      → lookup id w.0 ≡ none
      → meta_import id_of seal tenant_id id external_ids now w ≡ (w, imported 0)
  unfolding meta_import get_session
  meta_import-absent tenant_id id external_ids now (sessions, s) e =
      let absent : get_session id now sessions ≡ (sessions, none) = rw (e, get_session) in
      meta_import-none tenant_id id external_ids now sessions s (ap (λ p. p.1) absent)
      ∙ ap (λ p. ((p.0, s), imported 0)) absent

  meta_import-lookup :
      (tenant_id id : String) (external_ids : List String) (now : ℕ) (w : Service) (m : MetaSession)
      → (get_session id now w.0).1 ≡ some m
      → (m.tenant_id == tenant_id) ≡ true
      → lookup id (meta_import id_of seal tenant_id id external_ids now w).0.0 ≡ none
  unfolding meta_import
  meta_import-lookup tenant_id id external_ids now (sessions, s) m e same =
      rw (e, same, meta_import) (lookup-delete_session id (get_session id now sessions).0)

  -- A session serves one import: once it has, every request that names it imports nothing.
  pub meta_import-once :
      (tenant_id id : String) (external_ids : List String) (now : ℕ) (w : Service) (m : MetaSession)
      → (get_session id now w.0).1 ≡ some m
      → m.tenant_id ≡ tenant_id
      → (tenant' : String) (ids' : List String) (later : ℕ)
      → let w' = (meta_import id_of seal tenant_id id external_ids now w).0 in
        meta_import id_of seal tenant' id ids' later w' ≡ (w', imported 0)
  unfolding meta_import
  meta_import-once tenant_id id external_ids now (sessions, s) m h own tenant' ids' later =
      meta_import-absent tenant' id ids' later _ (
        meta_import-lookup tenant_id id external_ids now (sessions, s) m h
          ((eq_iff m.tenant_id tenant_id).1 own))
