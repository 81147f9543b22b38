-- ===== src/Secrets.antt =====
-- apps/api/src/common/crypto: the encryption of credentials at rest, and the vault over it. AES-256-GCM
-- and base64 are Node's and a parameter: a text is the list of its codes, and bytes are numbers.
pub mod RoundTrip
mod Tests
use ad_link.Common.{
  ℕ, ◌<◌, Bool, true, false, ◌&&◌, ◌||◌, not, Option, none, some, List, [], ◌∷◌, ◌++◌, Text, ◌≡◌,
  eqb, length, if◌then◌else◌, All, ◌≢◌,
}

abbrev pub Bytes : Type 0
Bytes = List ℕ

-- `Buffer.from(text, 'utf8')` and `toString('utf8')`, base64, and the cipher under a key: it gives the
-- encrypted bytes with their tag; decryption throws (none) where the tag does not fit. The laws are
-- those of their documentation: each decoding undoes its encoding, base64 writes no colon and is empty
-- only for no bytes, GCM's cipher text is as long as the text, and its tag has bytes.
pub record Crypto : Type 0 where
  pub utf8 : Text → Bytes
  pub text_of : Bytes → Text
  pub base64 : Bytes → Text
  pub unbase64 : Text → Bytes
  pub cipher : Bytes → Bytes → Bytes → Bytes × Bytes
  pub decipher : Bytes → Bytes → Bytes → Bytes → Option Bytes
  pub text_of-utf8 : (s : Text) → text_of (utf8 s) ≡ s
  pub unbase64-base64 : (b : Bytes) → unbase64 (base64 b) ≡ b
  pub base64_plain : (b : Bytes) → All (λ c. eqb c 58 ≡ false) (base64 b)
  pub base64-nil : base64 [] ≡ []
  pub base64-ne_nil : (b : Bytes) → b ≢ [] → base64 b ≢ []
  pub utf8-nil : utf8 [] ≡ []
  pub utf8-ne_nil : (s : Text) → s ≢ [] → utf8 s ≢ []
  pub cipher-nil : (key iv : Bytes) → (cipher key iv []).0 ≡ []
  pub cipher-ne_nil : (key iv b : Bytes) → b ≢ [] → (cipher key iv b).0 ≢ []
  pub tag-ne_nil : (key iv b : Bytes) → (cipher key iv b).1 ≢ []
  pub decipher-cipher :
      (key iv b : Bytes) → decipher key iv (cipher key iv b).1 (cipher key iv b).0 ≡ some b

pub data Failure : Type 0 where
  bad_key malformed tampered : Failure

pub data Result {ℓ} (A : Type ℓ) : Type ℓ where
  ok : A → Result A
  err : Failure → Result A

-- `split(':')`
abbrev pub in_front : ℕ → List Text → List Text
in_front c [] = (c ∷ []) ∷ []
in_front c (part ∷ parts) = (c ∷ part) ∷ parts

unfoldable pub split_colon : Text → List Text
split_colon [] = [] ∷ []
split_colon (c ∷ s) = let rest = split_colon s in if eqb c 58 then [] ∷ rest else in_front c rest

-- `join(':')`
unfoldable pub join_colon : List Text → Text
join_colon [] = []
join_colon (part ∷ []) = part
join_colon (part ∷ next ∷ parts) = part ++ 58 ∷ join_colon (next ∷ parts)

abbrev pub is_empty : Text → Bool
is_empty [] = true
is_empty (c ∷ s) = false

module _ (crypto : Crypto) where
  -- The constructor: the key of the environment must have 32 bytes.
  unfoldable pub key_of : Text → Result Bytes
  key_of k = if eqb (length (crypto.utf8 k)) 32 then ok (crypto.utf8 k) else err bad_key

  module _ (key : Bytes) where
    -- `encrypt`, with the vector that is drawn
    unfoldable pub encrypt : Bytes → Text → Text
    encrypt iv plain =
        let (enc, tag) = crypto.cipher key iv (crypto.utf8 plain) in
        join_colon (crypto.base64 iv ∷ crypto.base64 tag ∷ crypto.base64 enc ∷ [])

    -- What follows the test of the three parts.
    unfoldable pub open_parts : Text → Text → Text → Result Text
    open_parts iv_b tag_b data_b =
        elim (crypto.decipher key (crypto.unbase64 iv_b) (crypto.unbase64 tag_b)
          (crypto.unbase64 data_b)) [ none ↦ err tampered | some b ↦ ok (crypto.text_of b) ]

    -- `decrypt` of the parts: a part that is missing or empty is refused, a fourth is not looked at.
    unfoldable pub decrypt_parts : List Text → Result Text
    unfolding open_parts
    decrypt_parts (iv_b ∷ tag_b ∷ data_b ∷ more) =
        if is_empty iv_b || (is_empty tag_b || is_empty data_b)
        then err malformed
        else open_parts iv_b tag_b data_b
    decrypt_parts _ = err malformed

    unfoldable pub decrypt : Text → Result Text
    decrypt payload = decrypt_parts (split_colon payload)

    -- The vault: `store` and `retrieve`
    abbrev pub store : Bytes → Text → Text
    store = encrypt

    abbrev pub retrieve : Text → Result Text
    retrieve = decrypt
