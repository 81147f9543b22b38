-- ===== src/Secrets/Tests.antt =====
-- The encryption of apps/api/src/common/crypto at a cipher that hides nothing, which shows that the laws
-- of the parameter can hold.
use ad_link.Common.{
  ◌+◌, ◌-◌, false, some, [], ◌∷◌, Text, ◌≡◌, ◌≢◌, refl, arith, All, map, eqb, if◌then◌else◌,
}
use ad_link.Secrets.{
  Bytes, Crypto, ok, err, malformed, split_colon, join_colon, is_empty, encrypt, decrypt_parts,
  decrypt,
}
use ad_link.Secrets.RoundTrip.{decrypt-encrypt}

abbrev shifted : Bytes → Text
shifted = map (λ x. x + 100)

abbrev unshifted : Text → Bytes
unshifted = map (λ x. x - 100)

unshifted-shifted : (b : Bytes) → unshifted (shifted b) ≡ b
unshifted-shifted [] = refl
unshifted-shifted (x ∷ b) = ground (arith, unshifted-shifted b)

shifted_plain : (b : Bytes) → All (λ c. eqb c 58 ≡ false) (shifted b)
shifted_plain [] = tt
shifted_plain (x ∷ b) = (ground arith, shifted_plain b)

shifted-ne_nil : (b : Bytes) → b ≢ [] → shifted b ≢ []
shifted-ne_nil [] h = absurd (h refl)
shifted-ne_nil (x ∷ b) h = λ e. cc e

abbrev plain_cipher : Bytes → Bytes → Bytes → Bytes × Bytes
plain_cipher key iv b = (b, 1 ∷ [])

tag_filled : let tag : Bytes = 1 ∷ [] in tag ≢ []
tag_filled e = cc e

abbrev crypto : Crypto
crypto = record {
  utf8 = λ s. s;
  text_of = λ b. b;
  base64 = shifted;
  unbase64 = unshifted;
  cipher = plain_cipher;
  decipher = λ key iv tag b. some b;
  text_of-utf8 = λ s. refl;
  unbase64-base64 = unshifted-shifted;
  base64_plain = shifted_plain;
  base64-nil = refl;
  base64-ne_nil = shifted-ne_nil;
  utf8-nil = refl;
  utf8-ne_nil = λ s h. h;
  cipher-nil = λ key iv. refl;
  cipher-ne_nil = λ key iv b h. h;
  tag-ne_nil = λ key iv b. tag_filled;
  decipher-cipher = λ key iv b. refl;
}

encrypt_run : encrypt crypto [] (5 ∷ []) (7 ∷ []) ≡ 105 ∷ 58 ∷ 101 ∷ 58 ∷ 107 ∷ []
unfolding encrypt join_colon
encrypt_run = refl

empty_run : decrypt crypto [] (encrypt crypto [] (5 ∷ []) []) ≡ err malformed
unfolding encrypt join_colon decrypt decrypt_parts split_colon
empty_run = refl

decrypt-encrypt_example :
    decrypt crypto [] (encrypt crypto [] (5 ∷ []) (7 ∷ 8 ∷ []))
    ≡ (if is_empty (7 ∷ 8 ∷ []) then err malformed else ok (7 ∷ 8 ∷ []))
decrypt-encrypt_example = decrypt-encrypt crypto [] (5 ∷ []) (7 ∷ 8 ∷ []) (λ e. cc e)
