-- ===== src/Core/Identity.antt =====
-- packages/core/src/identity.ts, on texts as lists of UTF-16 codes. `toLowerCase` is modelled on
-- ASCII: a letter outside ASCII is taken to be in lower case.
use ad_link.Common.{
  ℕ, ◌+◌, ◌-◌, Bool, true, false, ◌&&◌, ◌||◌, not, Option, none, some, List, [], ◌∷◌, ◌++◌, Text,
  eqb, ltb, leb, ◌==◌, text_eq, if◌then◌else◌, length, filter, insert, values, get_or,
}
use mathlib.Core.List.{reverse}
use ad_link.Core.Enums.{IdentifierType, phone, email}
pub mod Phone
pub mod Email
pub mod Identifiers

-- White space of `trim` and of `\s`.
unfoldable pub is_space : ℕ → Bool
is_space c =
    leb 9 c && leb c 13
    || eqb c 32
    || eqb c 160
    || eqb c 5760
    || leb 8192 c && leb c 8202
    || eqb c 8232
    || eqb c 8233
    || eqb c 8239
    || eqb c 8287
    || eqb c 12288
    || eqb c 65279

unfoldable pub is_digit : ℕ → Bool
is_digit c = leb b'0' c && leb c b'9'

unfoldable pub lower : ℕ → ℕ
lower c = if leb b'A' c && leb c b'Z' then c + 32 else c

unfoldable pub trim_start : Text → Text
trim_start [] = []
trim_start (c ∷ s) = if is_space c then trim_start s else c ∷ s

abbrev pub trim : Text → Text
trim s = reverse (trim_start (reverse (trim_start s)))

unfoldable pub map_lower : Text → Text
map_lower [] = []
map_lower (c ∷ s) = lower c ∷ map_lower s

-- A character of the class [^@\s].
abbrev pub is_plain : ℕ → Bool
is_plain c = not (eqb c b'@') && not (is_space c)

-- The rest of EMAIL_RE behind `@`: a plain character, further plain characters, a dot and at least
-- one plain character, up to the end. `seen` says that a plain character stands before, `dot` that
-- a dot stands behind such a one, and `last` that a plain character stands behind that dot.
unfoldable pub domain_matches : Bool → Bool → Bool → Text → Bool
domain_matches seen dot last [] = last
domain_matches seen dot last (c ∷ s) =
    is_plain c && domain_matches true (dot || seen && eqb c b'.') dot s

-- EMAIL_RE.test: `seen` says that a character of the local part has been read.
unfoldable pub email_matches : Bool → Text → Bool
unfolding domain_matches
email_matches seen [] = false
email_matches seen (c ∷ s) =
    if eqb c b'@'
    then seen && domain_matches false false false s
    else is_plain c && email_matches true s

unfoldable pub normalize_email : Text → Option Text
normalize_email raw = let e = map_lower (trim raw) in if email_matches false e then some e else none

unfoldable pub normalize_phone_naive : Text → Option Text
normalize_phone_naive raw =
    let digits = filter is_digit raw in
    if ltb (length digits) 7 || ltb 15 (length digits) then none else some (b'+' ∷ digits)

pub record NormalizedIdentifier : Type 0 where
  pub type : IdentifierType
  pub normalized : Text

-- `PHONE:${n}` and `EMAIL:${n}`
unfoldable pub key : NormalizedIdentifier → Text
key i = elim i.type [
  | phone ↦ b'P' ∷ b'H' ∷ b'O' ∷ b'N' ∷ b'E' ∷ b':' ∷ i.normalized
  | email ↦ b'E' ∷ b'M' ∷ b'A' ∷ b'I' ∷ b'L' ∷ b':' ∷ i.normalized
]

-- `if (n) out.set(…)`; a normalised text is never empty.
unfoldable pub put_identifier :
    IdentifierType
    → Option Text
    → List (Text × NormalizedIdentifier)
    → List (Text × NormalizedIdentifier)
put_identifier type none out = out
put_identifier type (some n) out =
    let i : NormalizedIdentifier = record { type = type; normalized = n } in insert (key i) i out

unfoldable pub put_phones :
    List Text → List (Text × NormalizedIdentifier) → List (Text × NormalizedIdentifier)
put_phones [] out = out
put_phones (p ∷ ps) out = put_phones ps (put_identifier phone (normalize_phone_naive p) out)

unfoldable pub put_emails :
    List Text → List (Text × NormalizedIdentifier) → List (Text × NormalizedIdentifier)
put_emails [] out = out
put_emails (e ∷ es) out = put_emails es (put_identifier email (normalize_email e) out)

-- `phones` and `emails` may be missing.
unfoldable pub normalize_identifiers :
    Option (List Text) → Option (List Text) → List NormalizedIdentifier
normalize_identifiers phones emails =
    values (put_emails (get_or emails []) (put_phones (get_or phones []) []))
