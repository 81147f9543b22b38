-- ===== src/Contacts/Resolve.antt =====
-- What `resolve` of apps/api/src/identity/contact-resolver.service.ts promises.
use ad_link.Common.{
  Option, none, some, String, List, [], ◌∷◌, ◌++◌, Text, ◌≡◌, inl, inr, refl, string_eq, text_eq,
  find?, All, Option-cases, ap, ◌∙◌,
}
use ad_link.Core.Identity.{NormalizedIdentifier, normalize_identifiers}
use ad_link.Db.{ContactIdentifier}
use ad_link.Contacts.{
  Store, RawPerson, is_row, new_row, attach, first_contact, resolve_ids, resolve_with, resolve,
}
use ad_link.Contacts.Rows.{attach_one_self, attach-keep, attach-registers, attach-registered}

pub first_contact-nil :
    (tenant_id : String) (rows : List ContactIdentifier) → first_contact tenant_id [] rows ≡ none
unfolding first_contact
first_contact-nil tenant_id rows = refl

pub first_contact-hit :
    (tenant_id : String) (i : NormalizedIdentifier) (ids : List NormalizedIdentifier)
    (rows : List ContactIdentifier) (r : ContactIdentifier)
    → find? (is_row tenant_id i) rows ≡ some r
    → first_contact tenant_id (i ∷ ids) rows ≡ some r.contact_id
unfolding first_contact
first_contact-hit tenant_id i ids rows r hit = rw (hit, first_contact)

pub first_contact-miss :
    (tenant_id : String) (i : NormalizedIdentifier) (ids : List NormalizedIdentifier)
    (rows : List ContactIdentifier)
    → find? (is_row tenant_id i) rows ≡ none
    → first_contact tenant_id (i ∷ ids) rows ≡ first_contact tenant_id ids rows
unfolding first_contact
first_contact-miss tenant_id i ids rows miss = rw (miss, first_contact)

module _ (sha256 : Text → Text) where
  -- The contact of the head's row is the one that is attached.
  first_contact-attach :
      (tenant_id c : String) (i : NormalizedIdentifier) (ids : List NormalizedIdentifier)
      (rows : List ContactIdentifier)
      → ((r : ContactIdentifier) → find? (is_row tenant_id i) rows ≡ some r → r.contact_id ≡ c)
      → first_contact tenant_id (i ∷ ids) (attach sha256 tenant_id c (i ∷ ids) rows) ≡ some c
  first_contact-attach tenant_id c i ids rows own =
      elim (Option-cases (find? (is_row tenant_id i) rows)) [
        | inl miss ↦ first_contact-hit tenant_id i ids _ (new_row sha256 tenant_id c i) (
            unfold attach in
            attach-keep sha256 tenant_id c ids i _ _
              (attach_one_self sha256 tenant_id c i rows miss))
        | inr (r, hit) ↦
            first_contact-hit tenant_id i ids _ r
              (attach-keep sha256 tenant_id c (i ∷ ids) i rows r hit)
            ∙ ap some (own r hit)
      ]

  pub resolve_ids-found :
      (tenant_id : String) (name : Option String) (new_id found : String)
      (ids : List NormalizedIdentifier) (s : Store)
      → first_contact tenant_id ids s.identifiers ≡ some found
      → resolve_ids sha256 tenant_id name new_id ids s
        ≡ (record s { identifiers = attach sha256 tenant_id found ids s.identifiers }, found)
  unfolding resolve_ids
  resolve_ids-found tenant_id name new_id found ids s e = rw (e, resolve_ids)

  pub resolve_ids-created :
      (tenant_id : String) (name : Option String) (new_id : String)
      (ids : List NormalizedIdentifier) (s : Store)
      → first_contact tenant_id ids s.identifiers ≡ none
      → resolve_ids sha256 tenant_id name new_id ids s ≡ (
        record {
          contacts = s.contacts ++ record { id = new_id; tenant_id = tenant_id; name = name } ∷ [];
          identifiers = attach sha256 tenant_id new_id ids s.identifiers;
        },
        new_id,
      )
  unfolding resolve_ids
  resolve_ids-created tenant_id name new_id ids s e = rw (e, resolve_ids)

  -- What one resolution leaves: the contact in the answer is that of the first identifier, and every
  -- identifier has a row.
  record IsResolved (tenant_id : String) (ids : List NormalizedIdentifier) (s : Store) (c : String)
      : Type 0 where
    first : first_contact tenant_id ids s.identifiers ≡ some c
    rows :
        All (λ i. (r : ContactIdentifier) × (find? (is_row tenant_id i) s.identifiers ≡ some r)) ids

  resolve_ids-IsResolved :
      (tenant_id : String) (name : Option String) (new_id : String) (i : NormalizedIdentifier)
      (ids : List NormalizedIdentifier) (s : Store)
      → IsResolved tenant_id
          (i ∷ ids)
          (resolve_ids sha256 tenant_id name new_id (i ∷ ids) s).0
          (resolve_ids sha256 tenant_id name new_id (i ∷ ids) s).1
  resolve_ids-IsResolved tenant_id name new_id i ids s =
      elim (Option-cases (first_contact tenant_id (i ∷ ids) s.identifiers)) [
        | inl none_yet ↦
            rw (resolve_ids-created tenant_id name new_id (i ∷ ids) s none_yet) (record {
              first = first_contact-attach tenant_id new_id i ids s.identifiers (λ r hit.
                  absurd (cc (none_yet, first_contact-hit tenant_id i ids s.identifiers r hit)));
              rows = attach-registers sha256 tenant_id new_id (i ∷ ids) s.identifiers;
            })
        | inr (found, e) ↦
            rw (resolve_ids-found tenant_id name new_id found (i ∷ ids) s e) (record {
              first =
                  first_contact-attach tenant_id found i ids s.identifiers
                    (λ r hit. cc (e, first_contact-hit tenant_id i ids s.identifiers r hit));
              rows = attach-registers sha256 tenant_id found (i ∷ ids) s.identifiers;
            })
      ]

  resolve_ids-again :
      (tenant_id : String) (name : Option String) (new_id c : String)
      (ids : List NormalizedIdentifier) (s : Store)
      → IsResolved tenant_id ids s c
      → resolve_ids sha256 tenant_id name new_id ids s ≡ (s, c)
  resolve_ids-again tenant_id name new_id c ids s h =
      resolve_ids-found tenant_id name new_id c ids s h.first
      ∙ ap (λ rows. (record s { identifiers = rows }, c))
          (attach-registered sha256 tenant_id c ids s.identifiers h.rows)

  resolve_with_idem :
      (tenant_id : String) (name : Option String) (new_id later_id : String)
      (ids : List NormalizedIdentifier) (s : Store)
      → resolve_with sha256 tenant_id name later_id ids
          (resolve_with sha256 tenant_id name new_id ids s).0
        ≡ resolve_with sha256 tenant_id name new_id ids s
  unfolding resolve_with
  resolve_with_idem tenant_id name new_id later_id [] s = refl
  resolve_with_idem tenant_id name new_id later_id (i ∷ ids) s = rw (
      resolve_ids-again tenant_id name later_id _ (i ∷ ids) _
        (resolve_ids-IsResolved tenant_id name new_id i ids s))

  -- Resolution is idempotent: to resolve a payload again, with whatever id a new contact would get,
  -- answers with the same contact and writes nothing.
  pub resolve_idem :
      (tenant_id : String) (raw : RawPerson) (new_id later_id : String) (s : Store)
      → resolve sha256 tenant_id raw later_id (resolve sha256 tenant_id raw new_id s).0
        ≡ resolve sha256 tenant_id raw new_id s
  unfolding resolve
  resolve_idem tenant_id raw new_id later_id s =
      resolve_with_idem tenant_id raw.name new_id later_id _ s

  -- The same human is one contact: if some identifier of a payload is registered in the tenant, no
  -- contact is created, and the answer is the contact of the first of them that is registered.
  pub resolve_known :
      (tenant_id : String) (raw : RawPerson) (new_id c : String) (s : Store)
      → first_contact tenant_id (normalize_identifiers raw.phones raw.emails) s.identifiers ≡ some c
      → ((resolve sha256 tenant_id raw new_id s).1 ≡ some c)
        × ((resolve sha256 tenant_id raw new_id s).0.contacts ≡ s.contacts)
        × All
            (λ i.
              (r : ContactIdentifier) × (find?
                  (is_row tenant_id i)
                  (resolve sha256 tenant_id raw new_id s).0.identifiers
                ≡ some r))
            (normalize_identifiers raw.phones raw.emails)
  unfolding resolve resolve_with
  resolve_known tenant_id raw new_id c s e = known (normalize_identifiers raw.phones raw.emails) e
    where
      known :
          (ids : List NormalizedIdentifier)
          → first_contact tenant_id ids s.identifiers ≡ some c
          → ((resolve_with sha256 tenant_id raw.name new_id ids s).1 ≡ some c)
            × ((resolve_with sha256 tenant_id raw.name new_id ids s).0.contacts ≡ s.contacts)
            × All
                (λ i.
                  (r : ContactIdentifier) × (find?
                      (is_row tenant_id i)
                      (resolve_with sha256 tenant_id raw.name new_id ids s).0.identifiers
                    ≡ some r))
                ids
      known [] f = absurd (cc (f, first_contact-nil tenant_id s.identifiers))
      known (i ∷ ids) f = (
        ap (λ p. some p.1) (resolve_ids-found tenant_id raw.name new_id c (i ∷ ids) s f),
        ap (λ p. p.0.contacts) (resolve_ids-found tenant_id raw.name new_id c (i ∷ ids) s f),
        (resolve_ids-IsResolved tenant_id raw.name new_id i ids s).rows,
      )
