-- ===== src/Core/Creative/Laws.antt =====
-- What `parseCreativeName` of packages/core/src/creative.ts answers.
use ad_link.Common.{
  ℕ, true, false, none, some, List, [], ◌∷◌, ◌++◌, Text, ◌≡◌, ◌≢◌, inl, inr, refl, arith, All,
  All-append, eqb, is_some, Bool-cases, Option-cases,
}
use ad_link.Core.Identity.{lower}
use ad_link.Core.Creative.{
  Dimension, video, hook, concept, audience, angle, format, ParsedCreative, field, set_field,
  no_dimensions, strip_prefix, exec, prefixes, read_token, is_separator, push_token, split_tokens,
  read_tokens, parse_creative_name,
}

-- A text without separators.
abbrev pub NoSeparator : Text → Type 0
NoSeparator s = All (λ c. is_separator c ≡ false) s

abbrev pub IsValue : Text → Type 0
IsValue v = (v ≢ []) × NoSeparator v

abbrev IsGood : ParsedCreative → Type 0
IsGood p = (k : Dimension) (v : Text) → field k p ≡ some v → IsValue v

strip_prefix-IsValue : (p s v : Text) → strip_prefix p s ≡ some v → NoSeparator s → IsValue v
unfolding strip_prefix
strip_prefix-IsValue [] [] v e h = cc
strip_prefix-IsValue [] (c ∷ s) v e h = let same : c ∷ s ≡ v = cc in rw (← same) ((λ n. cc), h)
strip_prefix-IsValue (a ∷ p) [] v e h = cc
strip_prefix-IsValue (a ∷ p) (c ∷ s) v e h = elim (Bool-cases (eqb a (lower c))) [
  | inl t ↦ strip_prefix-IsValue p s v (rw t at e) h.1
  | inr f ↦ absurd (cc (rw f at e))
]

exec-IsValue :
    (alternatives : List Text) (token v : Text)
    → exec alternatives token ≡ some v
    → NoSeparator token
    → IsValue v
unfolding exec
exec-IsValue [] token v e h = cc
exec-IsValue (a ∷ rest) token v e h = elim (Option-cases (strip_prefix a token)) [
  | inl miss ↦ exec-IsValue rest token v (rw (miss, exec) at e) h
  | inr (w, hit) ↦ strip_prefix-IsValue a token v (ground (arith, hit, e)) h
]

set_field-IsGood :
    (key : Dimension) (v : Text) (out : ParsedCreative)
    → IsValue v
    → IsGood out
    → IsGood (set_field key v out)
set_field-IsGood video v out good h video w e = ground arith
set_field-IsGood hook v out good h hook w e = ground arith
set_field-IsGood concept v out good h concept w e = ground arith
set_field-IsGood audience v out good h audience w e = ground arith
set_field-IsGood angle v out good h angle w e = ground arith
set_field-IsGood format v out good h format w e = ground arith
set_field-IsGood _ v out good h k w e = h k w e

set_field-keep :
    (key : Dimension) (v : Text) (out : ParsedCreative) (k : Dimension) (w : Text)
    → is_some (field key out) ≡ false
    → field k out ≡ some w
    → field k (set_field key v out) ≡ some w
set_field-keep video v out video w h e = absurd (ground arith)
set_field-keep hook v out hook w h e = absurd (ground arith)
set_field-keep concept v out concept w h e = absurd (ground arith)
set_field-keep audience v out audience w h e = absurd (ground arith)
set_field-keep angle v out angle w h e = absurd (ground arith)
set_field-keep format v out format w h e = absurd (ground arith)
set_field-keep _ v out _ w h e = e

-- A dimension that is set stays as it is.
read_token-keep :
    (ps : List (List Text × Dimension)) (token : Text) (out : ParsedCreative) (k : Dimension)
    (w : Text)
    → field k out ≡ some w
    → field k (read_token ps token out) ≡ some w
unfolding read_token
read_token-keep [] token out k w e = e
read_token-keep ((alts, key) ∷ ps) token out k w e =
    let ih = read_token-keep ps token out k w e in
    elim (Option-cases (exec alts token)) [
      | inl miss ↦ rw (miss, read_token) ih
      | inr (v, hit) ↦ elim (Bool-cases (is_some (field key out))) [
        | inl t ↦ rw (hit, t, read_token) ih
        | inr f ↦ rw (hit, f, read_token) (set_field-keep key v out k w f e)
      ]
    ]

read_token-IsGood :
    (ps : List (List Text × Dimension)) (token : Text) (out : ParsedCreative)
    → NoSeparator token
    → IsGood out
    → IsGood (read_token ps token out)
unfolding read_token
read_token-IsGood [] token out n h = h
read_token-IsGood ((alts, key) ∷ ps) token out n h =
    let ih = read_token-IsGood ps token out n h in
    elim (Option-cases (exec alts token)) [
      | inl miss ↦ λ k v e. ih k v (rw (miss, read_token) at e)
      | inr (v, hit) ↦ elim (Bool-cases (is_some (field key out))) [
        | inl t ↦ λ k w e. ih k w (rw (hit, t, read_token) at e)
        | inr f ↦ λ k w e.
            set_field-IsGood key v out (exec-IsValue alts token v hit n) h k w
              (rw (hit, f, read_token) at e)
      ]
    ]

read_tokens-keep :
    (tokens : List Text) (out : ParsedCreative) (k : Dimension) (w : Text)
    → field k out ≡ some w
    → field k (read_tokens tokens out) ≡ some w
unfolding read_tokens
read_tokens-keep [] out k w e = e
read_tokens-keep (t ∷ tokens) out k w e =
    read_tokens-keep tokens _ k w (read_token-keep prefixes t out k w e)

read_tokens-IsGood :
    (tokens : List Text) (out : ParsedCreative)
    → All NoSeparator tokens
    → IsGood out
    → IsGood (read_tokens tokens out)
unfolding read_tokens
read_tokens-IsGood [] out n h = h
read_tokens-IsGood (t ∷ tokens) out (n, ns) h =
    read_tokens-IsGood tokens _ ns (read_token-IsGood prefixes t out n h)

push_token-NoSeparator :
    (cur : Text) (tokens : List Text)
    → NoSeparator cur
    → All NoSeparator tokens
    → All NoSeparator (push_token cur tokens)
push_token-NoSeparator [] tokens n h = h
push_token-NoSeparator (c ∷ cur) tokens n h = (n, h)

split_tokens-NoSeparator : (cur s : Text) → NoSeparator cur → All NoSeparator (split_tokens cur s)
unfolding split_tokens
split_tokens-NoSeparator cur [] n = push_token-NoSeparator cur [] n tt
split_tokens-NoSeparator cur (c ∷ s) n = elim (Bool-cases (is_separator c)) [
  | inl t ↦ rw t (push_token-NoSeparator cur _ n (split_tokens-NoSeparator [] s tt))
  | inr f ↦ rw f (
      split_tokens-NoSeparator (cur ++ c ∷ []) s
        (All-append (λ c. is_separator c ≡ false) cur (c ∷ []) n (f, tt)))
]

-- Every dimension that is read is a non-empty text without "-", "_" and white space.
pub parse_creative_name-IsValue :
    (name : Text) (k : Dimension) (v : Text)
    → field k (parse_creative_name name) ≡ some v
    → IsValue v
unfolding parse_creative_name
parse_creative_name-IsValue name k v e =
    read_tokens-IsGood (split_tokens [] name) no_dimensions (split_tokens-NoSeparator [] name tt)
      nothing k v e
  where
    nothing : IsGood no_dimensions
    nothing video v e = cc
    nothing _ v e = cc

push_token-append :
    (cur : Text) (xs ys : List Text) → push_token cur (xs ++ ys) ≡ push_token cur xs ++ ys
push_token-append [] xs ys = refl
push_token-append (c ∷ cur) xs ys = refl

split_tokens-append :
    (cur s : Text) (c : ℕ) (t : Text)
    → is_separator c ≡ true
    → split_tokens cur (s ++ c ∷ t) ≡ split_tokens cur s ++ split_tokens [] t
unfolding split_tokens
split_tokens-append cur [] c t h = rw h (push_token-append cur [] _)
split_tokens-append cur (d ∷ s) c t h = elim (Bool-cases (is_separator d)) [
  | inl e ↦ rw (e, split_tokens-append [] s c t h) (push_token-append cur (split_tokens [] s) _)
  | inr e ↦ rw e (split_tokens-append (cur ++ d ∷ []) s c t h)
]

read_tokens-append :
    (xs ys : List Text) (out : ParsedCreative)
    → read_tokens (xs ++ ys) out ≡ read_tokens ys (read_tokens xs out)
unfolding read_tokens
read_tokens-append [] ys out = refl
read_tokens-append (x ∷ xs) ys out = read_tokens-append xs ys _

-- What stands further right never changes a dimension that is set: if `name` gives a dimension the
-- value `v`, so does `name` with a separator and any text behind it.
pub parse_creative_name-append :
    (name : Text) (c : ℕ) (more : Text) (k : Dimension) (v : Text)
    → is_separator c ≡ true
    → field k (parse_creative_name name) ≡ some v
    → field k (parse_creative_name (name ++ c ∷ more)) ≡ some v
unfolding parse_creative_name
parse_creative_name-append name c more k v h e =
    rw (split_tokens-append [] name c more h, read_tokens-append)
      (read_tokens-keep (split_tokens [] more) _ k v e)

abbrev pub aud : Text → Text
aud u = b'a' ∷ b'u' ∷ b'd' ∷ u

-- Once the audience is set and the angle is not, a further token that begins with "aud" is read as
-- an angle: the angle becomes "ud" and what stands behind "aud", and nothing else changes.
pub read_token-repeated_audience :
    (c : ℕ) (u : Text) (out : ParsedCreative)
    → out.audience ≢ none
    → out.angle ≡ none
    → read_token prefixes (aud (c ∷ u)) out ≡ record out { angle = some (b'u' ∷ b'd' ∷ c ∷ u) }
unfolding read_token exec strip_prefix lower
read_token-repeated_audience c u out h e = ground arith
