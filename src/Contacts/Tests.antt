-- ===== src/Contacts/Tests.antt =====
-- Runs of the model of apps/api/src/identity/contact-resolver.service.ts; the hash is the identity.
use ad_link.Common.{none, some, [], ◌∷◌, Text, ◌≡◌, refl, All, find?, insert, inl}
use ad_link.Core.Enums.{phone}
use ad_link.Core.Identity.{
  normalize_identifiers, put_phones, put_emails, put_identifier, key, normalize_phone_naive,
  is_digit,
}
use ad_link.Db.{ContactIdentifier}
use ad_link.Contacts.{
  Store, RawPerson, is_row, first_contact, resolve, resolve_with, resolve_ids, attach, attach_one,
}
use ad_link.Contacts.Resolve.{resolve_idem, resolve_known}
use ad_link.Contacts.Validity.{IsValid, resolve-IsValid}

abbrev hash : Text → Text
hash t = t

abbrev digits : Text
digits = b'9' ∷ b'9' ∷ b'8' ∷ b'9' ∷ b'0' ∷ b'1' ∷ b'2' ∷ []

-- The number as one writes it.
abbrev written : Text
written = b'9' ∷ b'9' ∷ b'8' ∷ b' ' ∷ b'9' ∷ b'0' ∷ b'-' ∷ b'1' ∷ b'2' ∷ []

abbrev person : RawPerson
person = record { name = some "Ali"; phones = some (written ∷ []); emails = none }

abbrev row : ContactIdentifier
row = record {
  tenant_id = "t";
  contact_id = "c1";
  type = phone;
  normalized = b'+' ∷ digits;
  hash = b'+' ∷ digits;
}

abbrev empty_store : Store
empty_store = record { contacts = []; identifiers = [] }

abbrev store : Store
store = record {
  contacts = record { id = "c1"; tenant_id = "t"; name = some "Ali" } ∷ [];
  identifiers = row ∷ [];
}

normalized :
    normalize_identifiers (some (written ∷ [])) none
    ≡ record { type = phone; normalized = b'+' ∷ digits } ∷ []
unfolding normalize_identifiers put_phones put_emails put_identifier normalize_phone_naive is_digit
    key insert
normalized = refl

-- The first payload creates the contact, the same number later finds it.
resolve_created : resolve hash "t" person "c1" empty_store ≡ (store, some "c1")
unfolding resolve resolve_with resolve_ids attach attach_one first_contact normalize_identifiers
    put_phones put_emails put_identifier normalize_phone_naive is_digit key insert
resolve_created = refl

resolve_idem_example :
    resolve hash "t" person "c2" (resolve hash "t" person "c1" empty_store).0
    ≡ resolve hash "t" person "c1" empty_store
resolve_idem_example = resolve_idem hash "t" person "c1" "c2" empty_store

registered :
    first_contact "t" (normalize_identifiers person.phones person.emails) store.identifiers
    ≡ some "c1"
unfolding first_contact normalize_identifiers put_phones put_emails put_identifier
    normalize_phone_naive is_digit key insert
registered = refl

resolve_known_run :
    ((resolve hash "t" person "c2" store).1 ≡ some "c1")
    × ((resolve hash "t" person "c2" store).0.contacts ≡ store.contacts)
    × All
        (λ i.
          (r : ContactIdentifier) × (find?
              (is_row "t" i)
              (resolve hash "t" person "c2" store).0.identifiers
            ≡ some r))
        (normalize_identifiers person.phones person.emails)
resolve_known_run = resolve_known hash "t" person "c2" "c1" store registered

store-IsValid : IsValid hash store
store-IsValid = record {
  unique = (refl, tt);
  owned = ((record { id = "c1"; tenant_id = "t"; name = some "Ali" }, inl refl, refl, refl), tt);
  hashed = (refl, tt);
}

resolve-IsValid_example : IsValid hash (resolve hash "t" person "c2" store).0
resolve-IsValid_example = resolve-IsValid hash "t" person "c2" store store-IsValid
