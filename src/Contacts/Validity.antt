-- ===== src/Contacts/Validity.antt =====
-- The invariant of the tables that apps/api/src/identity/contact-resolver.service.ts writes.
use ad_link.Common.{
  Bool, false, Option, none, some, String, List, [], ◌∷◌, ◌++◌, Text, ◌≡◌, inl, inr, refl, arith,
  string_eq, text_eq, eq_iff, text_eqb_iff, find?, find?-Elem, any, All, All-append, Elem, Elem-All,
  Elem-append_left, Elem-append_right, Option-cases, sym, ◌∙◌,
}
use ad_link.Core.Enums.{IdentifierType, phone, email}
use ad_link.Core.Identity.{NormalizedIdentifier}
use ad_link.Db.{Contact, ContactIdentifier}
use ad_link.Contacts.{
  Store, RawPerson, same_type, is_row, new_row, attach_one, attach, first_contact, resolve_ids,
  resolve_with, resolve,
}
use ad_link.Contacts.Rows.{attach_one-new, attach_one-old}
use ad_link.Contacts.Resolve.{
  resolve_ids-found, resolve_ids-created, first_contact-nil, first_contact-hit, first_contact-miss,
}

-- The identifier that a row registers.
abbrev pub identifier_of : ContactIdentifier → NormalizedIdentifier
identifier_of r = record { type = r.type; normalized = r.normalized }

-- No two rows of one tenant register one identifier.
abbrev pub IsUnique : List ContactIdentifier → Type 0
IsUnique [] = Unit
IsUnique (r ∷ rows) = (any (is_row r.tenant_id (identifier_of r)) rows ≡ false) × IsUnique rows

-- The row's contact is there, in the row's tenant.
abbrev pub HasContact : List Contact → ContactIdentifier → Type 0
HasContact contacts r =
    (c : Contact) × Elem c contacts × (c.id ≡ r.contact_id) × (c.tenant_id ≡ r.tenant_id)

pub record IsValid (sha256 : Text → Text) (s : Store) : Type 0 where
  pub unique : IsUnique s.identifiers
  pub owned : All (HasContact s.contacts) s.identifiers
  pub hashed : All (λ r. r.hash ≡ sha256 r.normalized) s.identifiers

same_type_sym : (a b : IdentifierType) → same_type a b ≡ same_type b a
same_type_sym phone phone = refl
same_type_sym phone email = refl
same_type_sym email phone = refl
same_type_sym email email = refl

any-snoc :
    (p : ContactIdentifier → Bool) (rows : List ContactIdentifier) (r : ContactIdentifier)
    → any p rows ≡ false
    → p r ≡ false
    → any p (rows ++ r ∷ []) ≡ false
any-snoc p [] r h k = rw k
any-snoc p (x ∷ rows) r h k = ground (arith, any-snoc p rows r)

IsUnique-snoc :
    (rows : List ContactIdentifier) (n : ContactIdentifier)
    → IsUnique rows
    → find? (is_row n.tenant_id (identifier_of n)) rows ≡ none
    → IsUnique (rows ++ n ∷ [])
IsUnique-snoc [] n u miss = (refl, tt)
IsUnique-snoc (r ∷ rows) n (p, u) miss = (
  any-snoc _ rows n p (
      ground (
        arith,
        eq_iff r.tenant_id n.tenant_id,
        eq_iff n.tenant_id r.tenant_id,
        text_eqb_iff r.normalized n.normalized,
        text_eqb_iff n.normalized r.normalized,
        same_type_sym r.type n.type,
      )),
  IsUnique-snoc rows n u (ground arith),
)

module _ (sha256 : Text → Text) where
  -- Rows of one store of contacts.
  record AreValid (contacts : List Contact) (rows : List ContactIdentifier) : Type 0 where
    unique : IsUnique rows
    owned : All (HasContact contacts) rows
    hashed : All (λ r. r.hash ≡ sha256 r.normalized) rows

  attach_one-AreValid :
      (tenant_id c : String) (contacts : List Contact) (i : NormalizedIdentifier)
      (rows : List ContactIdentifier)
      → HasContact contacts (new_row sha256 tenant_id c i)
      → AreValid contacts rows
      → AreValid contacts (attach_one sha256 tenant_id c i rows)
  attach_one-AreValid tenant_id c contacts i rows own h =
      elim (Option-cases (find? (is_row tenant_id i) rows)) [
        | inl miss ↦ rw (attach_one-new sha256 tenant_id c i rows miss) (record {
          unique = IsUnique-snoc rows _ h.unique miss;
          owned = All-append (HasContact contacts) rows _ h.owned (own, tt);
          hashed = All-append (λ r. r.hash ≡ sha256 r.normalized) rows _ h.hashed (refl, tt);
        })
        | inr (r, hit) ↦ rw (attach_one-old sha256 tenant_id c i rows r hit) h
      ]

  attach-AreValid :
      (tenant_id c : String) (contacts : List Contact) (ids : List NormalizedIdentifier)
      (rows : List ContactIdentifier)
      → ((k : Contact) × Elem k contacts × (k.id ≡ c) × (k.tenant_id ≡ tenant_id))
      → AreValid contacts rows
      → AreValid contacts (attach sha256 tenant_id c ids rows)
  unfolding attach
  attach-AreValid tenant_id c contacts [] rows own h = h
  attach-AreValid tenant_id c contacts (i ∷ ids) rows own h =
      attach-AreValid tenant_id c contacts ids _ own
        (attach_one-AreValid tenant_id c contacts i rows own h)

  first_contact-owned :
      (tenant_id found : String) (contacts : List Contact) (ids : List NormalizedIdentifier)
      (rows : List ContactIdentifier)
      → All (HasContact contacts) rows
      → first_contact tenant_id ids rows ≡ some found
      → (k : Contact) × Elem k contacts × (k.id ≡ found) × (k.tenant_id ≡ tenant_id)
  first_contact-owned tenant_id found contacts [] rows h e =
      absurd (cc (e, first_contact-nil tenant_id rows))
  first_contact-owned tenant_id found contacts (i ∷ ids) rows h e =
      elim (Option-cases (find? (is_row tenant_id i) rows)) [
        | inl miss ↦
            first_contact-owned tenant_id found contacts ids rows h
              (sym (first_contact-miss tenant_id i ids rows miss) ∙ e)
        | inr (r, hit) ↦
            let (listed, fits) = find?-Elem (is_row tenant_id i) r rows hit in
            let (k, there, id, tenant) = Elem-All (HasContact contacts) r rows h listed in
            (
              k,
              there,
              cc (id, e, first_contact-hit tenant_id i ids rows r hit),
              tenant ∙ (eq_iff r.tenant_id tenant_id).0 (ground arith),
            )
      ]

  All-grow :
      (contacts : List Contact) (k : Contact) (rows : List ContactIdentifier)
      → All (HasContact contacts) rows
      → All (HasContact (contacts ++ k ∷ [])) rows
  All-grow contacts k [] h = tt
  All-grow contacts k (r ∷ rows) ((c, there, id, tenant), h) =
      ((c, Elem-append_left c contacts (k ∷ []) there, id, tenant), All-grow contacts k rows h)

  resolve_ids-IsValid :
      (tenant_id : String) (name : Option String) (new_id : String)
      (ids : List NormalizedIdentifier) (s : Store)
      → IsValid sha256 s
      → IsValid sha256 (resolve_ids sha256 tenant_id name new_id ids s).0
  resolve_ids-IsValid tenant_id name new_id ids s h =
      elim (Option-cases (first_contact tenant_id ids s.identifiers)) [
        | inl none_yet ↦
            let created : Contact = record { id = new_id; tenant_id = tenant_id; name = name } in
            let rows =
              attach-AreValid tenant_id new_id (s.contacts ++ created ∷ []) ids s.identifiers
                (created, Elem-append_right created s.contacts _ (inl refl), refl, refl)
                (record {
                  unique = h.unique;
                  owned = All-grow s.contacts created s.identifiers h.owned;
                  hashed = h.hashed;
                }) in
            rw (resolve_ids-created sha256 tenant_id name new_id ids s none_yet)
              (record { unique = rows.unique; owned = rows.owned; hashed = rows.hashed })
        | inr (found, e) ↦
            let rows =
              attach-AreValid tenant_id found s.contacts ids s.identifiers
                (first_contact-owned tenant_id found s.contacts ids s.identifiers h.owned e)
                (record { unique = h.unique; owned = h.owned; hashed = h.hashed }) in
            rw (resolve_ids-found sha256 tenant_id name new_id found ids s e)
              (record { unique = rows.unique; owned = rows.owned; hashed = rows.hashed })
      ]

  resolve_with-IsValid :
      (tenant_id : String) (name : Option String) (new_id : String)
      (ids : List NormalizedIdentifier) (s : Store)
      → IsValid sha256 s
      → IsValid sha256 (resolve_with sha256 tenant_id name new_id ids s).0
  unfolding resolve_with
  resolve_with-IsValid tenant_id name new_id [] s h = h
  resolve_with-IsValid tenant_id name new_id (i ∷ ids) s h =
      resolve_ids-IsValid tenant_id name new_id (i ∷ ids) s h

  -- `resolve` keeps the tables valid: no identifier of a tenant has two rows, every row belongs to a
  -- contact of its tenant, and carries the hash of what it registers.
  pub resolve-IsValid :
      (tenant_id : String) (raw : RawPerson) (new_id : String) (s : Store)
      → IsValid sha256 s
      → IsValid sha256 (resolve sha256 tenant_id raw new_id s).0
  unfolding resolve
  resolve-IsValid tenant_id raw new_id s h = resolve_with-IsValid tenant_id raw.name new_id _ s h
