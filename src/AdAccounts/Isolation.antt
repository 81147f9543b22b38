-- ===== src/AdAccounts/Isolation.antt =====
-- What the requests of apps/api/src/ad-accounts/ad-accounts.controller.ts leave alone: the accounts of
-- the other tenants.
use ad_link.Common.{
  ℕ, Bool, Option, none, some, String, List, [], ◌∷◌, ◌≡◌, refl, ap, ◌∙◌, ◌==◌, string_eq, any,
  find?, filter, map, All, Bool-cases, Option-cases, beq_refl, IsDistinct, inl, inr, head?, sort,
}
use ad_link.Tenancy
use ad_link.Tenancy.{foreign-update_where, foreign-filter, foreign-snoc, find?-IsOwnWhere}
use ad_link.AdAccounts.{
  Account, MetaRawAccount, ConnectMeta, Store, external_id_of, is_account, is_own, reimported,
  ensure_default_client, client_of, connect_meta, import_account, import_accounts,
  import_meta_accounts, set_feedback, trigger_sync, remove, Request, connect, import_picked,
  feedback, sync, delete, serve, older_client,
}
use ad_link.AdAccounts.Import.{import_account-All}

abbrev account_tenant : Account → String
account_tenant a = a.tenant_id

-- The accounts of the other tenants.
abbrev pub foreign : String → List Account → List Account
foreign = Tenancy.foreign (λ a. a.id) account_tenant

-- Every account that the test picks is the tenant's own.
abbrev pub IsOwnWhere : String → (Account → Bool) → List Account → Type 0
IsOwnWhere = Tenancy.IsOwnWhere (λ a. a.id) account_tenant

-- No account that an import is given stands in the table for another tenant.
abbrev pub IsUntaken : String → List MetaRawAccount → List Account → Type 0
IsUntaken tenant_id raws accounts =
    All (λ raw. IsOwnWhere tenant_id (is_account (external_id_of raw)) accounts) raws

-- What the isolation of a request asks for: an import does not take another tenant's account.
abbrev pub IsHarmless : String → Request → List Account → Type 0
IsHarmless tenant_id (import_picked token raws) accounts = IsUntaken tenant_id raws accounts
IsHarmless tenant_id (connect dto) accounts = Unit
IsHarmless tenant_id (feedback id opt_in) accounts = Unit
IsHarmless tenant_id (sync id) accounts = Unit
IsHarmless tenant_id (delete id) accounts = Unit

module _ (id_of : ℕ → String) (seal : String → String) (t : String) (now : ℕ) where
  pub ensure_default_client-accounts :
      (s : Store) → (ensure_default_client id_of seal t now s).0.accounts ≡ s.accounts
  unfolding ensure_default_client
  ensure_default_client-accounts s =
      elim (Option-cases (head? (sort older_client (filter (λ c. c.tenant_id == t) s.clients)))) [
        | inl e ↦ rw (e, ensure_default_client)
        | inr (c, e) ↦ rw (e, ensure_default_client)
      ]

  client_of-accounts :
      (named : Option String) (s : Store)
      → (client_of id_of seal t now named s).0.accounts ≡ s.accounts
  client_of-accounts none s = ensure_default_client-accounts s
  client_of-accounts (some id) s = refl

  connect_meta-foreign :
      (dto : ConnectMeta) (s : Store)
      → foreign t (connect_meta id_of seal t now dto s).0.accounts ≡ foreign t s.accounts
  unfolding connect_meta
  connect_meta-foreign dto s =
      let (s', client_id) = client_of id_of seal t now dto.client_id s in
      elim (Bool-cases (any (is_account dto.external_id) s'.accounts)) [
        | inl e ↦ rw (e, connect_meta) (ap (foreign t) (client_of-accounts dto.client_id s))
        | inr e ↦
            rw (e, connect_meta)
              (foreign-snoc (λ a. a.id) account_tenant t s'.accounts _ refl
                ∙ ap (foreign t) (client_of-accounts dto.client_id s))
      ]

  module _ (client_id token_ref : String) where
    abbrev one : MetaRawAccount → Store → Store
    one = import_account id_of seal t now client_id token_ref

    import_account-foreign :
        (raw : MetaRawAccount) (s : Store)
        → IsOwnWhere t (is_account (external_id_of raw)) s.accounts
        → foreign t (one raw s).accounts ≡ foreign t s.accounts
    unfolding import_account
    import_account-foreign raw s own =
        elim (Option-cases (find? (is_account (external_id_of raw)) s.accounts)) [
          | inl e ↦
              rw (e, import_account) (foreign-snoc (λ a. a.id) account_tenant t s.accounts _ refl)
          | inr (a, e) ↦
              rw (e, import_account)
                (foreign-update_where (λ a. a.id) account_tenant t _ (reimported token_ref raw)
                  s.accounts (λ x. refl) own)
        ]

    import_account-IsOwnWhere :
        (ext : String) (raw : MetaRawAccount) (s : Store)
        → IsOwnWhere t (is_account ext) s.accounts
        → IsOwnWhere t (is_account ext) (one raw s).accounts
    import_account-IsOwnWhere ext raw s own =
        import_account-All id_of seal t now client_id token_ref _ raw s (λ a q. q)
          (λ id f. beq_refl t) own

    import_account-IsUntaken :
        (raws : List MetaRawAccount) (raw : MetaRawAccount) (s : Store)
        → IsUntaken t raws s.accounts
        → IsUntaken t raws (one raw s).accounts
    import_account-IsUntaken [] raw s h = tt
    import_account-IsUntaken (r ∷ raws) raw s (own, h) = (
      import_account-IsOwnWhere (external_id_of r) raw s own,
      import_account-IsUntaken raws raw s h,
    )

    import_accounts-foreign :
        (raws : List MetaRawAccount) (s : Store)
        → IsUntaken t raws s.accounts
        → foreign t (import_accounts id_of seal t now client_id token_ref raws s).accounts
          ≡ foreign t s.accounts
    unfolding import_accounts
    import_accounts-foreign [] s h = refl
    import_accounts-foreign (raw ∷ raws) s (own, h) =
        import_accounts-foreign raws (one raw s) (import_account-IsUntaken raws raw s h)
        ∙ import_account-foreign raw s own

  import_meta_accounts-foreign :
      (token : String) (raws : List MetaRawAccount) (s : Store)
      → IsUntaken t raws s.accounts
      → foreign t (import_meta_accounts id_of seal t now token raws s).accounts
        ≡ foreign t s.accounts
  unfolding import_meta_accounts
  import_meta_accounts-foreign token raws s h =
      import_accounts-foreign _ (seal token) raws (ensure_default_client id_of seal t now s).0
        (rw (ensure_default_client-accounts s) h)
      ∙ ap (foreign t) (ensure_default_client-accounts s)

  set_feedback-foreign :
      (id : String) (opt_in : Bool) (s : Store)
      → IsDistinct (map (λ a. a.id) s.accounts)
      → foreign t (set_feedback t id opt_in s).0.accounts ≡ foreign t s.accounts
  unfolding set_feedback
  set_feedback-foreign id opt_in s d = elim (Option-cases (find? (is_own t id) s.accounts)) [
    | inl e ↦ rw (e, set_feedback)
    | inr (a, e) ↦
        rw (e, set_feedback)
          (foreign-update_where (λ a. a.id) account_tenant t _ _ s.accounts (λ x. refl)
            (find?-IsOwnWhere (λ a. a.id) account_tenant t id s.accounts a d e))
  ]

  remove-foreign :
      (id : String) (s : Store)
      → IsDistinct (map (λ a. a.id) s.accounts)
      → foreign t (remove t id s).0.accounts ≡ foreign t s.accounts
  unfolding remove
  remove-foreign id s d = elim (Option-cases (find? (is_own t id) s.accounts)) [
    | inl e ↦ rw (e, remove)
    | inr (a, e) ↦
        rw (e, remove)
          (foreign-filter (λ a. a.id) account_tenant t _ s.accounts
            (find?-IsOwnWhere (λ a. a.id) account_tenant t id s.accounts a d e))
  ]

  trigger_sync-accounts : (id : String) (s : Store) → (trigger_sync t id s).0.accounts ≡ s.accounts
  unfolding trigger_sync
  trigger_sync-accounts id s = elim (Option-cases (find? (is_own t id) s.accounts)) [
    | inl e ↦ rw (e, trigger_sync)
    | inr (a, e) ↦ rw (e, trigger_sync)
  ]

  -- Tenants are isolated: whatever a tenant asks for, the accounts of the others stay as they are, where
  -- ids are unique and an import takes no account that stands in the table for another tenant.
  pub serve-isolated :
      (r : Request) (s : Store)
      → IsDistinct (map (λ a. a.id) s.accounts)
      → IsHarmless t r s.accounts
      → foreign t (serve id_of seal t now r s).0.accounts ≡ foreign t s.accounts
  unfolding serve
  serve-isolated (connect dto) s d h = connect_meta-foreign dto s
  serve-isolated (import_picked token raws) s d h = import_meta_accounts-foreign token raws s h
  serve-isolated (feedback id opt_in) s d h = set_feedback-foreign id opt_in s d
  serve-isolated (sync id) s d h = ap (foreign t) (trigger_sync-accounts id s)
  serve-isolated (delete id) s d h = remove-foreign id s d
