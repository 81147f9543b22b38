-- ===== src/Contacts/Rows.antt =====
-- The rows of identifiers that apps/api/src/identity/contact-resolver.service.ts registers.
use ad_link.Common.{
  Bool, true, none, some, String, List, [], ◌∷◌, ◌++◌, Text, ◌≡◌, inl, inr, refl, arith, string_eq,
  text_eq, beq_refl, if◌then◌else◌, find?, All, Option-cases,
}
use ad_link.Core.Enums.{IdentifierType, phone, email}
use ad_link.Core.Identity.{NormalizedIdentifier}
use ad_link.Db.{ContactIdentifier}
use ad_link.Contacts.{same_type, is_row, new_row, attach_one, attach}

find?-append :
    (p : ContactIdentifier → Bool) (xs ys : List ContactIdentifier) (r : ContactIdentifier)
    → find? p xs ≡ some r
    → find? p (xs ++ ys) ≡ some r
find?-append p [] ys r e = cc
find?-append p (x ∷ xs) ys r e = ground (arith, find?-append p xs ys r)

find?-snoc :
    (p : ContactIdentifier → Bool) (xs : List ContactIdentifier) (r : ContactIdentifier)
    → find? p xs ≡ none
    → find? p (xs ++ r ∷ []) ≡ (if p r then some r else none)
find?-snoc p [] r e = refl
find?-snoc p (x ∷ xs) r e = ground (arith, find?-snoc p xs r)

same_type_refl : (t : IdentifierType) → same_type t t ≡ true
same_type_refl phone = refl
same_type_refl email = refl

module _ (sha256 : Text → Text) (tenant_id contact_id : String) where
  pub is_row-new_row :
      (i : NormalizedIdentifier) → is_row tenant_id i (new_row sha256 tenant_id contact_id i) ≡ true
  is_row-new_row i = rw (beq_refl tenant_id, same_type_refl i.type, beq_refl i.normalized)

  pub attach_one-new :
      (i : NormalizedIdentifier) (rows : List ContactIdentifier)
      → find? (is_row tenant_id i) rows ≡ none
      → attach_one sha256 tenant_id contact_id i rows
        ≡ rows ++ new_row sha256 tenant_id contact_id i ∷ []
  unfolding attach_one
  attach_one-new i rows miss = rw (miss, attach_one)

  pub attach_one-old :
      (i : NormalizedIdentifier) (rows : List ContactIdentifier) (r : ContactIdentifier)
      → find? (is_row tenant_id i) rows ≡ some r
      → attach_one sha256 tenant_id contact_id i rows ≡ rows
  unfolding attach_one
  attach_one-old i rows r hit = rw (hit, attach_one)

  -- A registered identifier keeps its row.
  pub attach_one-keep :
      (i j : NormalizedIdentifier) (rows : List ContactIdentifier) (r : ContactIdentifier)
      → find? (is_row tenant_id j) rows ≡ some r
      → find? (is_row tenant_id j) (attach_one sha256 tenant_id contact_id i rows) ≡ some r
  attach_one-keep i j rows r e = elim (Option-cases (find? (is_row tenant_id i) rows)) [
    | inl miss ↦ rw (attach_one-new i rows miss) (find?-append _ rows _ r e)
    | inr (q, hit) ↦ rw (attach_one-old i rows q hit) e
  ]

  pub attach-keep :
      (ids : List NormalizedIdentifier) (j : NormalizedIdentifier) (rows : List ContactIdentifier)
      (r : ContactIdentifier)
      → find? (is_row tenant_id j) rows ≡ some r
      → find? (is_row tenant_id j) (attach sha256 tenant_id contact_id ids rows) ≡ some r
  unfolding attach
  attach-keep [] j rows r e = e
  attach-keep (i ∷ ids) j rows r e = attach-keep ids j _ r (attach_one-keep i j rows r e)

  -- After it is attached an identifier has a row: its old one, or a new one of the contact.
  pub attach_one_self :
      (i : NormalizedIdentifier) (rows : List ContactIdentifier)
      → find? (is_row tenant_id i) rows ≡ none
      → find? (is_row tenant_id i) (attach_one sha256 tenant_id contact_id i rows)
        ≡ some (new_row sha256 tenant_id contact_id i)
  attach_one_self i rows miss = rw (
    attach_one-new i rows miss,
    find?-snoc (is_row tenant_id i) rows (new_row sha256 tenant_id contact_id i) miss,
    is_row-new_row i,
  )

  pub attach_one-registers :
      (i : NormalizedIdentifier) (rows : List ContactIdentifier)
      → (r : ContactIdentifier) × (find?
            (is_row tenant_id i)
            (attach_one sha256 tenant_id contact_id i rows)
          ≡ some r)
  attach_one-registers i rows = elim (Option-cases (find? (is_row tenant_id i) rows)) [
    | inl miss ↦ (_, attach_one_self i rows miss)
    | inr (r, hit) ↦ (r, attach_one-keep i i rows r hit)
  ]

  pub attach-registers :
      (ids : List NormalizedIdentifier) (rows : List ContactIdentifier)
      → All
          (λ i.
            (r : ContactIdentifier) × (find?
                (is_row tenant_id i)
                (attach sha256 tenant_id contact_id ids rows)
              ≡ some r))
          ids
  unfolding attach
  attach-registers [] rows = tt
  attach-registers (i ∷ ids) rows =
      let (r, hit) = attach_one-registers i rows in
      ((r, attach-keep ids i _ r hit), attach-registers ids _)

  -- Nothing is written for identifiers that are registered.
  pub attach-registered :
      (ids : List NormalizedIdentifier) (rows : List ContactIdentifier)
      → All (λ i. (r : ContactIdentifier) × (find? (is_row tenant_id i) rows ≡ some r)) ids
      → attach sha256 tenant_id contact_id ids rows ≡ rows
  unfolding attach
  attach-registered [] rows h = refl
  attach-registered (i ∷ ids) rows ((r, hit), h) =
      rw (attach_one-old i rows r hit) (attach-registered ids rows h)
