-- ===== src/Secrets/RoundTrip.antt =====
-- What apps/api/src/common/crypto encrypts, it decrypts.
use ad_link.Common.{
  false, List, [], ◌∷◌, ◌++◌, Text, ◌≡◌, ◌≢◌, refl, ap, ◌∙◌, eqb, All, if◌then◌else◌,
}
use ad_link.Secrets.{
  Bytes, Crypto, ok, err, malformed, split_colon, join_colon, is_empty, encrypt, open_parts,
  decrypt_parts, decrypt,
}

-- A text without a colon.
abbrev pub IsPlain : Text → Type 0
IsPlain = All (λ c. eqb c 58 ≡ false)

split_colon-plain : (s : Text) → IsPlain s → split_colon s ≡ s ∷ []
unfolding split_colon
split_colon-plain [] h = refl
split_colon-plain (c ∷ s) (p, h) = rw (p, split_colon-plain s h, split_colon)

pub split_colon-append : (s t : Text) → IsPlain s → split_colon (s ++ 58 ∷ t) ≡ s ∷ split_colon t
unfolding split_colon
split_colon-append [] t h = refl
split_colon-append (c ∷ s) t (p, h) = rw (p, split_colon-append s t h, split_colon)

-- Splitting undoes joining, on parts that have no colon.
pub split_colon-join_colon :
    (part : Text) (parts : List Text)
    → All IsPlain (part ∷ parts)
    → split_colon (join_colon (part ∷ parts)) ≡ part ∷ parts
unfolding join_colon
split_colon-join_colon part [] (p, h) = split_colon-plain part p
split_colon-join_colon part (next ∷ parts) (p, h) =
    split_colon-append part (join_colon (next ∷ parts)) p
    ∙ ap (◌∷◌ part) (split_colon-join_colon next parts h)

is_empty-false : (s : Text) → s ≢ [] → is_empty s ≡ false
is_empty-false [] h = absurd (h refl)
is_empty-false (c ∷ s) h = refl

module _ (crypto : Crypto) (key iv : Bytes) where
  split_colon-encrypt :
      (plain : Text)
      → let (enc, tag) = crypto.cipher key iv (crypto.utf8 plain) in
        split_colon (encrypt crypto key iv plain)
        ≡ crypto.base64 iv ∷ crypto.base64 tag ∷ crypto.base64 enc ∷ []
  unfolding encrypt
  split_colon-encrypt plain =
      let (enc, tag) = crypto.cipher key iv (crypto.utf8 plain) in
      split_colon-join_colon (crypto.base64 iv) (crypto.base64 tag ∷ crypto.base64 enc ∷ [])
        (crypto.base64_plain iv, (crypto.base64_plain tag, (crypto.base64_plain enc, tt)))

  open_parts-cipher :
      (plain : Text)
      → let (enc, tag) = crypto.cipher key iv (crypto.utf8 plain) in
        open_parts crypto key (crypto.base64 iv) (crypto.base64 tag) (crypto.base64 enc) ≡ ok plain
  unfolding open_parts
  open_parts-cipher plain =
      let (enc, tag) = crypto.cipher key iv (crypto.utf8 plain) in
      rw (
        crypto.unbase64-base64 iv,
        crypto.unbase64-base64 tag,
        crypto.unbase64-base64 enc,
        crypto.decipher-cipher key iv (crypto.utf8 plain),
        crypto.text_of-utf8 plain,
        open_parts,
      )

  base64-tag : (b : Bytes) → is_empty (crypto.base64 (crypto.cipher key iv b).1) ≡ false
  base64-tag b = is_empty-false _ (crypto.base64-ne_nil _ (crypto.tag-ne_nil key iv b))

  -- A secret that is encrypted with a vector that is not empty comes back when it is decrypted, and the
  -- empty secret alone does not: its cipher text is empty, and is refused as malformed.
  pub decrypt-encrypt :
      (plain : Text)
      → iv ≢ []
      → decrypt crypto key (encrypt crypto key iv plain)
        ≡ (if is_empty plain then err malformed else ok plain)
  unfolding decrypt decrypt_parts
  decrypt-encrypt [] drawn =
      let filled = is_empty-false (crypto.base64 iv) (crypto.base64-ne_nil iv drawn) in
      let tagged = base64-tag (crypto.utf8 []) in
      let nothing : crypto.base64 (crypto.cipher key iv (crypto.utf8 [])).0 ≡ [] =
        rw (crypto.utf8-nil, crypto.cipher-nil key iv, crypto.base64-nil) refl in
      rw (split_colon-encrypt [], filled, tagged, nothing)
  decrypt-encrypt (c ∷ s) drawn =
      let plain : Text = c ∷ s in
      let filled = is_empty-false (crypto.base64 iv) (crypto.base64-ne_nil iv drawn) in
      let tagged = base64-tag (crypto.utf8 plain) in
      let kept = is_empty-false (crypto.base64 (crypto.cipher key iv (crypto.utf8 plain)).0) (
        crypto.base64-ne_nil _
          (crypto.cipher-ne_nil key iv _ (crypto.utf8-ne_nil plain (λ e. cc e)))) in
      rw (split_colon-encrypt plain, filled, tagged, kept) (open_parts-cipher plain)
