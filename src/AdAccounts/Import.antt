-- ===== src/AdAccounts/Import.antt =====
-- What an import of apps/api/src/ad-accounts/ad-accounts.service.ts does to the table of accounts.
use ad_link.Common.{
  ℕ, Bool, true, ◌&&◌, String, List, [], ◌∷◌, ◌++◌, ◌≡◌, refl, sym, ap, ◌∙◌, arith, ◌==◌, string_eq,
  any, find?, update_where, map, find?-any, any-update_where, any-update_where_found,
  any-append_left, any-snoc, map-update_where, All, All-append, All-update_where, Bool-cases,
  Option-cases, beq_refl, append_assoc, append-nil, inl, inr,
}
use mathlib.Core.List.{map-append}
use ad_link.AdAccounts.Rows.{is_meta}
use ad_link.AdAccounts.Keys.{owner, IsUnused, IsKeyed, All-IsUnused_before, IsKeyed-append}
use ad_link.AdAccounts.{
  Account, MetaRawAccount, Store, external_id_of, is_account, reimported, imported_account,
  import_account, import_accounts,
}

-- The row stands for the account, with this token.
abbrev pub holds : String → String → Account → Bool
holds external_id token_ref a = is_account external_id a && a.token_ref == token_ref

-- If the row stands for the account, it has this token.
abbrev pub HasToken : String → String → Account → Type 0
HasToken external_id token_ref a = is_account external_id a ≡ true → a.token_ref ≡ token_ref

-- What an import for a tenant makes of the table.
pub record IsImported (tenant_id token_ref : String) (raws : List MetaRawAccount)
    (before after : List Account) : Type 0 where
  pub created : List Account
  pub kept : map owner after ≡ map owner before ++ map owner created
  pub own : All (λ a. a.tenant_id ≡ tenant_id) created
  pub unused : All (λ a. IsUnused before a.external_id) created
  pub by_meta : All (λ a. is_meta a.provider ≡ true) created
  pub keyed : IsKeyed created
  pub present : All (λ raw. any (holds (external_id_of raw) token_ref) after ≡ true) raws
  pub renewed : All (λ raw. All (HasToken (external_id_of raw) token_ref) after) raws

module _ (id_of : ℕ → String) (seal : String → String) (tenant_id : String) (now : ℕ)
    (client_id token_ref : String) where
  holds-reimported :
      (ext : String) (raw : MetaRawAccount) (a : Account)
      → is_account ext a ≡ true
      → holds ext token_ref (reimported token_ref raw a) ≡ true
  holds-reimported ext raw a h = rw (h, beq_refl token_ref)

  holds-imported :
      (id : String) (raw : MetaRawAccount)
      → holds
          (external_id_of raw)
          token_ref
          (imported_account id_of seal tenant_id now id client_id token_ref raw)
        ≡ true
  holds-imported id raw = rw (beq_refl (external_id_of raw), beq_refl token_ref)

  abbrev one : MetaRawAccount → Store → Store
  one = import_account id_of seal tenant_id now client_id token_ref

  -- What holds of every row still does, where the upsert keeps it and the new row has it.
  pub import_account-All :
      (P : Account → Type 0) (raw : MetaRawAccount) (s : Store)
      → ((a : Account) → P a → P (reimported token_ref raw a))
      → ((id : String) → P (imported_account id_of seal tenant_id now id client_id token_ref raw))
      → All P s.accounts
      → All P (one raw s).accounts
  unfolding import_account
  import_account-All P raw s keep fresh h =
      elim (Option-cases (find? (is_account (external_id_of raw)) s.accounts)) [
        | inl e ↦ rw (e, import_account) (All-append P s.accounts _ h (fresh _, tt))
        | inr (a, e) ↦
            rw (e, import_account)
              (All-update_where P _ (reimported token_ref raw) s.accounts (λ x q _. keep x q) h)
      ]

  renewed-update_where :
      (ext : String) (raw : MetaRawAccount) (rows : List Account)
      → All (HasToken ext token_ref) (update_where (is_account ext) (reimported token_ref raw) rows)
  renewed-update_where ext raw [] = tt
  renewed-update_where ext raw (a ∷ rows) =
      let rest = renewed-update_where ext raw rows in
      elim (Bool-cases (is_account ext a)) [
        | inl e ↦ rw e ((λ _. refl), rest)
        | inr e ↦ rw e ((λ h. absurd (cc (h, e))), rest)
      ]

  renewed-unused :
      (ext : String) (rows : List Account) → IsUnused rows ext → All (HasToken ext token_ref) rows
  renewed-unused ext [] h = tt
  renewed-unused ext (a ∷ rows) h =
      ((λ e. absurd (ground arith)), renewed-unused ext rows (ground arith))

  -- One account of an import.
  import_account-IsImported :
      (raw : MetaRawAccount) (s : Store)
      → IsImported tenant_id token_ref (raw ∷ []) s.accounts (one raw s).accounts
  unfolding import_account
  import_account-IsImported raw s =
      elim (Option-cases (find? (is_account (external_id_of raw)) s.accounts)) [
        | inr (a, e) ↦
            rw (e, import_account)
              (record {
                created = [];
                kept =
                    map-update_where owner (is_account (external_id_of raw))
                      (reimported token_ref raw) s.accounts (λ x. refl)
                    ∙ sym (append-nil _);
                own = tt;
                unused = tt;
                by_meta = tt;
                keyed = tt;
                renewed = (renewed-update_where (external_id_of raw) raw s.accounts, tt);
                present = (
                  any-update_where_found (is_account (external_id_of raw))
                      (holds (external_id_of raw) token_ref) (reimported token_ref raw) s.accounts a
                      (holds-reimported (external_id_of raw) raw) e,
                  tt,
                );
              })
        | inl e ↦
            rw (e, import_account)
              (record {
                created =
                    imported_account id_of seal tenant_id now (id_of s.drawn) client_id token_ref
                      raw
                    ∷ [];
                kept = map-append owner s.accounts _;
                own = (refl, tt);
                unused = (find?-any _ s.accounts e, tt);
                by_meta = (refl, tt);
                keyed = (refl, tt);
                renewed = (
                  All-append _ s.accounts _
                      (renewed-unused (external_id_of raw) s.accounts (find?-any _ s.accounts e))
                      ((λ _. refl), tt),
                  tt,
                );
                present = (any-snoc _ s.accounts _ (holds-imported (id_of s.drawn) raw), tt);
              })
      ]

  import_accounts-renewed :
      (ext : String) (raws : List MetaRawAccount) (s : Store)
      → All (HasToken ext token_ref) s.accounts
      → All
          (HasToken ext token_ref)
          (import_accounts id_of seal tenant_id now client_id token_ref raws s).accounts
  unfolding import_accounts
  import_accounts-renewed ext [] s h = h
  import_accounts-renewed ext (raw ∷ raws) s h =
      import_accounts-renewed ext raws (one raw s)
        (import_account-All (HasToken ext token_ref) raw s (λ a p e. refl) (λ id e. refl) h)

  -- A later account of the import keeps what an earlier one has brought.
  import_account-holds :
      (ext : String) (raw : MetaRawAccount) (s : Store)
      → any (holds ext token_ref) s.accounts ≡ true
      → any (holds ext token_ref) (one raw s).accounts ≡ true
  unfolding import_account
  import_account-holds ext raw s h =
      elim (Option-cases (find? (is_account (external_id_of raw)) s.accounts)) [
        | inr (a, e) ↦
            rw (e, import_account)
              (any-update_where (is_account (external_id_of raw)) (holds ext token_ref)
                (reimported token_ref raw) s.accounts (λ x k. rw beq_refl (ground arith)) h)
        | inl e ↦ rw (e, import_account) (any-append_left _ s.accounts _ h)
      ]

  import_accounts-holds :
      (ext : String) (raws : List MetaRawAccount) (s : Store)
      → any (holds ext token_ref) s.accounts ≡ true
      → any
          (holds ext token_ref)
          (import_accounts id_of seal tenant_id now client_id token_ref raws s).accounts
        ≡ true
  unfolding import_accounts
  import_accounts-holds ext [] s h = h
  import_accounts-holds ext (raw ∷ raws) s h =
      import_accounts-holds ext raws (one raw s) (import_account-holds ext raw s h)

  -- An import brings every account that it is given, and every row that stands for one of them, also
  -- another tenant's, has the new token afterwards. It moves no row: a row that was there keeps its
  -- id, its tenant and its client. A row that is created is the tenant's own, for an account that had
  -- no row, and no account gets two.
  pub import_accounts-IsImported :
      (raws : List MetaRawAccount) (s : Store)
      → IsImported tenant_id token_ref raws s.accounts
          (import_accounts id_of seal tenant_id now client_id token_ref raws s).accounts
  unfolding import_accounts
  import_accounts-IsImported [] s = record {
    created = [];
    kept = sym (append-nil _);
    own = tt;
    unused = tt;
    by_meta = tt;
    keyed = tt;
    present = tt;
    renewed = tt;
  }
  import_accounts-IsImported (raw ∷ raws) s =
      let first = import_account-IsImported raw s in
      let more = import_accounts-IsImported raws (one raw s) in
      let (absent, apart) =
        All-IsUnused_before s.accounts first.created (one raw s).accounts more.created first.kept
          more.unused in
      record {
        created = first.created ++ more.created;
        kept =
            more.kept
            ∙ ap (λ o. o ++ map owner more.created) first.kept
            ∙ append_assoc (map owner s.accounts) (map owner first.created) (map owner more.created)
            ∙ ap (λ o. map owner s.accounts ++ o)
                (sym (map-append owner first.created more.created));
        own =
            All-append (λ a. a.tenant_id ≡ tenant_id) first.created more.created first.own more.own;
        unused = All-append _ first.created more.created first.unused absent;
        by_meta = All-append _ first.created more.created first.by_meta more.by_meta;
        keyed =
            IsKeyed-append first.created more.created first.by_meta first.keyed more.keyed apart;
        renewed = (
          import_accounts-renewed (external_id_of raw) raws (one raw s) first.renewed.0,
          more.renewed,
        );
        present = (
          import_accounts-holds (external_id_of raw) raws (one raw s) first.present.0,
          more.present,
        );
      }
