-- ===== src/Contacts.antt =====
-- apps/api/src/identity/contact-resolver.service.ts. The hash (SHA-256 of node:crypto) and the id of
-- a new contact (drawn by the database) are arguments.
use ad_link.Common.{
  ℕ, Bool, true, false, ◌&&◌, Option, none, some, String, List, [], ◌∷◌, ◌++◌, Text, ◌==◌,
  string_eq, text_eq, if◌then◌else◌, find?, any,
}
use ad_link.Core.Enums.{IdentifierType, phone, email}
use ad_link.Core.Identity.{NormalizedIdentifier, normalize_identifiers}
use ad_link.Db.{Contact, ContactIdentifier}
pub mod Rows
pub mod Resolve
pub mod Validity
mod Tests

pub record Store : Type 0 where
  pub contacts : List Contact
  pub identifiers : List ContactIdentifier

-- The payload of a person.
pub record RawPerson : Type 0 where
  pub name : Option String
  pub phones : Option (List Text)
  pub emails : Option (List Text)

abbrev pub same_type : IdentifierType → IdentifierType → Bool
same_type phone phone = true
same_type email email = true
same_type _ _ = false

-- The unique key `tenantId_type_normalized`.
abbrev pub is_row : String → NormalizedIdentifier → ContactIdentifier → Bool
is_row tenant_id i r =
    r.tenant_id == tenant_id && (same_type r.type i.type && r.normalized == i.normalized)

-- The loop over the identifiers: the contact of the first one that is registered.
unfoldable pub first_contact :
    String → List NormalizedIdentifier → List ContactIdentifier → Option String
first_contact tenant_id [] rows = none
first_contact tenant_id (i ∷ ids) rows =
    let rest = first_contact tenant_id ids rows in
    elim (find? (is_row tenant_id i) rows) [ some r ↦ some r.contact_id | none ↦ rest ]

module _ (sha256 : Text → Text) where
  abbrev pub new_row : String → String → NormalizedIdentifier → ContactIdentifier
  new_row tenant_id contact_id i = record {
    tenant_id = tenant_id;
    contact_id = contact_id;
    type = i.type;
    normalized = i.normalized;
    hash = sha256 i.normalized;
  }

  -- `upsert` with an empty update: a row that is there stays as it is.
  unfoldable pub attach_one :
      String → String → NormalizedIdentifier → List ContactIdentifier → List ContactIdentifier
  attach_one tenant_id contact_id i rows = elim (find? (is_row tenant_id i) rows) [
    | some r ↦ rows
    | none ↦ rows ++ new_row tenant_id contact_id i ∷ []
  ]

  unfoldable pub attach :
      String → String → List NormalizedIdentifier → List ContactIdentifier → List ContactIdentifier
  attach tenant_id contact_id [] rows = rows
  attach tenant_id contact_id (i ∷ ids) rows =
      attach tenant_id contact_id ids (attach_one tenant_id contact_id i rows)

  -- What follows the loop: the contact that was found, or a new one.
  unfoldable pub resolve_ids :
      String → Option String → String → List NormalizedIdentifier → Store → Store × String
  resolve_ids tenant_id name new_id ids s = elim (first_contact tenant_id ids s.identifiers) [
    | some found ↦ (record s { identifiers = attach tenant_id found ids s.identifiers }, found)
    | none ↦ (
      record {
        contacts = s.contacts ++ record { id = new_id; tenant_id = tenant_id; name = name } ∷ [];
        identifiers = attach tenant_id new_id ids s.identifiers;
      },
      new_id,
    )
  ]

  -- The whole method for the identifiers; without one the answer is `null`.
  unfoldable pub resolve_with :
      String → Option String → String → List NormalizedIdentifier → Store → Store × Option String
  resolve_with tenant_id name new_id [] s = (s, none)
  resolve_with tenant_id name new_id (i ∷ ids) s =
      let (s', id) = resolve_ids tenant_id name new_id (i ∷ ids) s in (s', some id)

  unfoldable pub resolve : String → RawPerson → String → Store → Store × Option String
  resolve tenant_id raw new_id s =
      resolve_with tenant_id raw.name new_id (normalize_identifiers raw.phones raw.emails) s
