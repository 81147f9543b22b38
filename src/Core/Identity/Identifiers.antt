-- ===== src/Core/Identity/Identifiers.antt =====
-- What `normalizeIdentifiers` of packages/core/src/identity.ts answers.
use ad_link.Common.{
  false, Option, none, some, List, [], ◌∷◌, Text, ◌≡◌, ◌≢◌, inl, inr, refl, arith, All, Elem,
  Bool-cases, ap, lookup, values, keys, text_eq, IsDistinct, All-insert, insert-IsDistinct,
  contains, get_or, lookup-insert, text_eqb_iff, ◌==◌, lookup-insert_self,
}
use ad_link.Core.Enums.{IdentifierType, phone, email}
use ad_link.Core.Identity.{
  NormalizedIdentifier, key, put_identifier, put_phones, put_emails, normalize_identifiers,
  normalize_phone_naive, normalize_email, map_lower,
}
use ad_link.Core.Identity.Phone.{IsE164, normalize_phone_naive-IsE164}
use ad_link.Core.Identity.Email.{IsEmail, normalize_email_idem}

-- The normal form that belongs to the kind of the identifier.
abbrev pub IsNormal : NormalizedIdentifier → Type 0
IsNormal i =
    (i.type ≡ phone → IsE164 i.normalized)
    × (i.type ≡ email → IsEmail i.normalized × (map_lower i.normalized ≡ i.normalized))

-- No identifier twice.
abbrev pub AreUnique : List NormalizedIdentifier → Type 0
AreUnique [] = Unit
AreUnique (i ∷ is) = All (λ j. i ≢ j) is × AreUnique is

Entry : Text × NormalizedIdentifier → Type 0
Entry e = (e.0 ≡ key e.1) × IsNormal e.1

record IsMap (m : List (Text × NormalizedIdentifier)) : Type 0 where
  entries : All Entry m
  distinct : IsDistinct (keys m)

put_identifier-IsMap :
    (type : IdentifierType) (o : Option Text) (m : List (Text × NormalizedIdentifier))
    → ((n : Text) → o ≡ some n → IsNormal (record { type = type; normalized = n }))
    → IsMap m
    → IsMap (put_identifier type o m)
unfolding put_identifier Entry
put_identifier-IsMap type none m ok h = h
put_identifier-IsMap type (some n) m ok h = record {
  entries = All-insert Entry _ _ m (refl, ok n refl) h.entries;
  distinct = insert-IsDistinct _ _ m h.distinct;
}

put_phones-IsMap :
    (ps : List Text) (m : List (Text × NormalizedIdentifier)) → IsMap m → IsMap (put_phones ps m)
unfolding put_phones
put_phones-IsMap [] m h = h
put_phones-IsMap (p ∷ ps) m h = put_phones-IsMap ps _ (
    put_identifier-IsMap phone (normalize_phone_naive p) m
      (λ n e. ((λ _. normalize_phone_naive-IsE164 p n e), (λ k. cc))) h)

put_emails-IsMap :
    (es : List Text) (m : List (Text × NormalizedIdentifier)) → IsMap m → IsMap (put_emails es m)
unfolding put_emails
put_emails-IsMap [] m h = h
put_emails-IsMap (x ∷ es) m h = put_emails-IsMap es _ (
    put_identifier-IsMap email (normalize_email x) m
      (λ n e. let (form, low, _) = normalize_email_idem x n e in ((λ k. cc), (λ _. (form, low)))) h)

All-values : (m : List (Text × NormalizedIdentifier)) → All Entry m → All IsNormal (values m)
unfolding Entry
All-values [] h = tt
All-values (e ∷ m) (p, h) = (p.1, All-values m h)

All-ne :
    (k : Text) (i : NormalizedIdentifier) (m : List (Text × NormalizedIdentifier))
    → k ≡ key i
    → contains (keys m) k ≡ false
    → All Entry m
    → All (λ j. i ≢ j) (values m)
unfolding Entry
All-ne k i [] e c h = tt
All-ne k i ((l, j) ∷ m) e c (p, h) =
    ((λ same. ground (arith, text_eqb_iff l k, ap key same)), All-ne k i m e (ground arith) h)

AreUnique-values :
    (m : List (Text × NormalizedIdentifier))
    → All Entry m
    → IsDistinct (keys m)
    → AreUnique (values m)
unfolding Entry
AreUnique-values [] h d = tt
AreUnique-values ((k, i) ∷ m) ((p, _), h) (c, d) = (All-ne k i m p c h, AreUnique-values m h d)

-- Whatever is read, every identifier is in the normal form of its kind and none is listed twice.
pub normalize_identifiers-AreUnique :
    (phones emails : Option (List Text))
    → All IsNormal (normalize_identifiers phones emails)
      × AreUnique (normalize_identifiers phones emails)
unfolding normalize_identifiers
normalize_identifiers-AreUnique phones emails =
    let h =
      put_emails-IsMap (get_or emails []) (put_phones (get_or phones []) [])
        (put_phones-IsMap (get_or phones []) [] (record { entries = tt; distinct = tt })) in
    (All-values _ h.entries, AreUnique-values _ h.entries h.distinct)

key_injective : (i j : NormalizedIdentifier) → key i ≡ key j → i ≡ j
unfolding key
key_injective i j e = ground arith

-- An entry stays when others are put.
lookup-put_identifier :
    (type : IdentifierType) (o : Option Text) (i : NormalizedIdentifier)
    (m : List (Text × NormalizedIdentifier))
    → lookup (key i) m ≡ some i
    → lookup (key i) (put_identifier type o m) ≡ some i
unfolding put_identifier
lookup-put_identifier type none i m h = h
lookup-put_identifier type (some n) i m h =
    let j : NormalizedIdentifier = record { type = type; normalized = n } in
    rw (lookup-insert (key j) (key i) j m) (elim (Bool-cases (key j == key i)) [
      | inl same ↦ rw same (ap some (key_injective j i ((text_eqb_iff _ _).0 same)))
      | inr other ↦ rw other h
    ])

abbrev pub identifier : IdentifierType → Text → NormalizedIdentifier
identifier type n = record { type = type; normalized = n }

put_phones-keep :
    (ps : List Text) (i : NormalizedIdentifier) (m : List (Text × NormalizedIdentifier))
    → lookup (key i) m ≡ some i
    → lookup (key i) (put_phones ps m) ≡ some i
unfolding put_phones
put_phones-keep [] i m h = h
put_phones-keep (p ∷ ps) i m h =
    put_phones-keep ps i _ (lookup-put_identifier phone (normalize_phone_naive p) i m h)

put_emails-keep :
    (es : List Text) (i : NormalizedIdentifier) (m : List (Text × NormalizedIdentifier))
    → lookup (key i) m ≡ some i
    → lookup (key i) (put_emails es m) ≡ some i
unfolding put_emails
put_emails-keep [] i m h = h
put_emails-keep (x ∷ es) i m h =
    put_emails-keep es i _ (lookup-put_identifier email (normalize_email x) i m h)

put_identifier_self :
    (type : IdentifierType) (o : Option Text) (n : Text) (m : List (Text × NormalizedIdentifier))
    → o ≡ some n
    → lookup (key (identifier type n)) (put_identifier type o m) ≡ some (identifier type n)
unfolding put_identifier
put_identifier_self type none n m e = cc
put_identifier_self type (some k) n m e =
    let same : k ≡ n = cc in
    rw same (lookup-insert_self (key (identifier type n)) (identifier type n) m)

put_phones-listed :
    (ps : List Text) (p n : Text) (m : List (Text × NormalizedIdentifier))
    → Elem p ps
    → normalize_phone_naive p ≡ some n
    → lookup (key (identifier phone n)) (put_phones ps m) ≡ some (identifier phone n)
unfolding put_phones
put_phones-listed [] p n m k e = absurd k
put_phones-listed (q ∷ ps) p n m (inl same) e =
    put_phones-keep ps (identifier phone n) _
      (put_identifier_self phone (normalize_phone_naive q) n m (rw (← same) e))
put_phones-listed (q ∷ ps) p n m (inr k) e = put_phones-listed ps p n _ k e

put_emails-listed :
    (es : List Text) (x n : Text) (m : List (Text × NormalizedIdentifier))
    → Elem x es
    → normalize_email x ≡ some n
    → lookup (key (identifier email n)) (put_emails es m) ≡ some (identifier email n)
unfolding put_emails
put_emails-listed [] x n m k e = absurd k
put_emails-listed (y ∷ es) x n m (inl same) e =
    put_emails-keep es (identifier email n) _
      (put_identifier_self email (normalize_email y) n m (rw (← same) e))
put_emails-listed (y ∷ es) x n m (inr k) e = put_emails-listed es x n _ k e

Elem-values :
    (k : Text) (i : NormalizedIdentifier) (m : List (Text × NormalizedIdentifier))
    → lookup k m ≡ some i
    → Elem i (values m)
unfolding lookup
Elem-values k i [] h = cc
Elem-values k i ((j, v) ∷ m) h = elim (Bool-cases (j == k)) [
  | inl same ↦ inl (ground arith)
  | inr other ↦ inr (Elem-values k i m (rw other at h))
]

-- No usable phone is lost: one that has a normal form is listed in that form.
pub normalize_identifiers-phone :
    (phones emails : List Text) (p n : Text)
    → Elem p phones
    → normalize_phone_naive p ≡ some n
    → Elem (identifier phone n) (normalize_identifiers (some phones) (some emails))
unfolding normalize_identifiers
normalize_identifiers-phone phones emails p n k e =
    Elem-values _ _ _
      (put_emails-keep emails (identifier phone n) _ (put_phones-listed phones p n [] k e))

-- No usable address is lost: one that has a normal form is listed in that form.
pub normalize_identifiers-email :
    (phones emails : List Text) (x n : Text)
    → Elem x emails
    → normalize_email x ≡ some n
    → Elem (identifier email n) (normalize_identifiers (some phones) (some emails))
unfolding normalize_identifiers
normalize_identifiers-email phones emails x n k e =
    Elem-values _ _ _ (put_emails-listed emails x n _ k e)
