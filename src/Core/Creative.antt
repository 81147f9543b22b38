-- ===== src/Core/Creative.antt =====
-- packages/core/src/creative.ts: the dimensions in the name of a creative, on texts as lists of
-- codes. The case of a letter is ignored on ASCII.
use ad_link.Common.{
  ℕ, Bool, true, false, ◌||◌, not, Option, none, some, List, [], ◌∷◌, ◌++◌, Text, eqb,
  if◌then◌else◌, is_some,
}
use ad_link.Core.Identity.{is_space, lower}
pub mod Laws

-- keyof ParsedCreative
pub data Dimension : Type 0 where
  video hook concept audience angle format : Dimension

pub record ParsedCreative : Type 0 where
  pub video : Option Text
  pub hook : Option Text
  pub concept : Option Text
  pub angle : Option Text
  pub format : Option Text
  pub audience : Option Text

-- `out[key]`
abbrev pub field : Dimension → ParsedCreative → Option Text
field video p = p.video
field hook p = p.hook
field concept p = p.concept
field audience p = p.audience
field angle p = p.angle
field format p = p.format

-- `out[key] = value`
abbrev pub set_field : Dimension → Text → ParsedCreative → ParsedCreative
set_field video v p = record p { video = some v }
set_field hook v p = record p { hook = some v }
set_field concept v p = record p { concept = some v }
set_field audience v p = record p { audience = some v }
set_field angle v p = record p { angle = some v }
set_field format v p = record p { format = some v }

abbrev pub no_dimensions : ParsedCreative
no_dimensions = record {
  video = none;
  hook = none;
  concept = none;
  angle = none;
  format = none;
  audience = none;
}

-- What stands behind the prefix, if it is there and something stands behind it: `(.+)`.
unfoldable pub strip_prefix : Text → Text → Option Text
strip_prefix [] [] = none
strip_prefix [] (c ∷ s) = some (c ∷ s)
strip_prefix (p ∷ ps) [] = none
strip_prefix (p ∷ ps) (c ∷ s) = if eqb p (lower c) then strip_prefix ps s else none

-- `re.exec(token)?.[1]` for /^(?:a|b|…)(.+)$/i: the first alternative that lets the rest match.
unfoldable pub exec : List Text → Text → Option Text
exec [] token = none
exec (a ∷ alternatives) token = elim (strip_prefix a token) [
  | none ↦ exec alternatives token
  | some rest ↦ some rest
]

abbrev pub prefixes : List (List Text × Dimension)
prefixes =
    ((b'v' ∷ b'i' ∷ b'd' ∷ []) ∷ (b'v' ∷ []) ∷ [], video)
    ∷ ((b'h' ∷ b'o' ∷ b'o' ∷ b'k' ∷ []) ∷ (b'h' ∷ []) ∷ [], hook)
    ∷ (
      (b'c' ∷ b'o' ∷ b'n' ∷ b'c' ∷ b'e' ∷ b'p' ∷ b't' ∷ [])
          ∷ (b'c' ∷ b'o' ∷ b'n' ∷ [])
          ∷ (b'c' ∷ [])
          ∷ [],
      concept,
    )
    ∷ (
      (b'a' ∷ b'u' ∷ b'd' ∷ b'i' ∷ b'e' ∷ b'n' ∷ b'c' ∷ b'e' ∷ []) ∷ (b'a' ∷ b'u' ∷ b'd' ∷ []) ∷ [],
      audience,
    )
    ∷ ((b'a' ∷ b'n' ∷ b'g' ∷ b'l' ∷ b'e' ∷ []) ∷ (b'a' ∷ []) ∷ [], angle)
    ∷ (
      (b'f' ∷ b'o' ∷ b'r' ∷ b'm' ∷ b'a' ∷ b't' ∷ []) ∷ (b'f' ∷ b'm' ∷ b't' ∷ []) ∷ (b'f' ∷ []) ∷ [],
      format,
    )
    ∷ []

-- The inner loop: the first entry whose expression matches and whose dimension is not set yet sets
-- it and ends the loop.
unfoldable pub read_token : List (List Text × Dimension) → Text → ParsedCreative → ParsedCreative
read_token [] token out = out
read_token ((alternatives, key) ∷ more) token out =
    let rest = read_token more token out in
    elim (exec alternatives token) [
      | none ↦ rest
      | some value ↦ if is_some (field key out) then rest else set_field key value out
    ]

abbrev pub is_separator : ℕ → Bool
is_separator c = eqb c b'-' || eqb c b'_' || is_space c

-- `name.split(/[-_\s]+/).filter(Boolean)`: `cur` is the token that is being read.
abbrev pub push_token : Text → List Text → List Text
push_token [] tokens = tokens
push_token (c ∷ cur) tokens = (c ∷ cur) ∷ tokens

unfoldable pub split_tokens : Text → Text → List Text
split_tokens cur [] = push_token cur []
split_tokens cur (c ∷ s) =
    let closed = push_token cur (split_tokens [] s) in
    let longer = split_tokens (cur ++ c ∷ []) s in if is_separator c then closed else longer

unfoldable pub read_tokens : List Text → ParsedCreative → ParsedCreative
read_tokens [] out = out
read_tokens (token ∷ tokens) out = read_tokens tokens (read_token prefixes token out)

unfoldable pub parse_creative_name : Text → ParsedCreative
unfolding strip_prefix exec read_token split_tokens read_tokens
parse_creative_name name = read_tokens (split_tokens [] name) no_dimensions
