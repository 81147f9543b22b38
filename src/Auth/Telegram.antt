-- ===== src/Auth/Telegram.antt =====
-- The Telegram side of apps/api/src/auth/auth.service.ts: the check of the login widget's fields, and
-- the names of a Telegram user. `normalize('NFKD')` is a parameter, and `toLowerCase` is that of ASCII.
use ad_link.Common.{
  ℕ, ◌+◌, ◌/◌, Bool, true, false, ◌&&◌, ◌||◌, not, Option, none, some, List, [], ◌∷◌, ◌++◌, Text,
  ◌==◌, text_eq, eqb, ltb, leb, if◌then◌else◌, get_or, filter, take, map, sort, lookup,
}
use mathlib.Core.List.{reverse}
use ad_link.Core.Identity.{map_lower}
use ad_link.Auth.{Reason, filled}

-- The fields that the widget sends, as an object.
abbrev pub Fields : Type 0
Fields = List (Text × Text)

abbrev pub hash_key : Text
hash_key = 104 ∷ 97 ∷ 115 ∷ 104 ∷ []

abbrev pub id_key : Text
id_key = 105 ∷ 100 ∷ []

abbrev pub auth_date_key : Text
auth_date_key = 97 ∷ 117 ∷ 116 ∷ 104 ∷ 95 ∷ 100 ∷ 97 ∷ 116 ∷ 101 ∷ []

abbrev pub first_name_key : Text
first_name_key = 102 ∷ 105 ∷ 114 ∷ 115 ∷ 116 ∷ 95 ∷ 110 ∷ 97 ∷ 109 ∷ 101 ∷ []

abbrev pub last_name_key : Text
last_name_key = 108 ∷ 97 ∷ 115 ∷ 116 ∷ 95 ∷ 110 ∷ 97 ∷ 109 ∷ 101 ∷ []

abbrev pub username_key : Text
username_key = 117 ∷ 115 ∷ 101 ∷ 114 ∷ 110 ∷ 97 ∷ 109 ∷ 101 ∷ []

abbrev pub photo_url_key : Text
photo_url_key = 112 ∷ 104 ∷ 111 ∷ 116 ∷ 111 ∷ 95 ∷ 117 ∷ 114 ∷ 108 ∷ []

-- The order of `sort()` on texts.
abbrev pub text_leb : Text → Text → Bool
text_leb [] t = true
text_leb (a ∷ s) [] = false
text_leb (a ∷ s) (b ∷ t) = ltb a b || eqb a b && text_leb s t

abbrev pub by_key : Text × Text → Text × Text → Bool
by_key (k, v) (j, w) = text_leb k j

-- `${k}=${fields[k]}`
abbrev pub line_of : Text × Text → Text
line_of (k, v) = k ++ 61 ∷ v

abbrev pub join_with : ℕ → List Text → Text
join_with c [] = []
join_with c (s ∷ []) = s
join_with c (s ∷ t ∷ rest) = s ++ c ∷ join_with c (t ∷ rest)

-- `const { hash, ...fields } = data`
abbrev pub without_hash : Fields → Fields
without_hash = filter (λ f. not (f.0 == hash_key))

-- `checkString`
unfoldable pub check_string : Fields → Text
check_string fields = join_with 10 (map line_of (sort by_key fields))

-- The library calls of the check: SHA-256, HMAC in hexadecimal, and `Number`, which gives no number
-- (none) where the text is none, fractions and numbers below 0 being left out; and the
-- `normalize('NFKD')` of the handle.
pub record Digests : Type 0 where
  pub sha256 : Text → Text
  pub hmac : Text → Text → Text
  pub number : Text → Option ℕ
  pub nfkd : Text → Text

-- `Math.floor(now / 1000) - Number(authDate) > 86_400`, which is false where there is no number
abbrev pub is_stale : ℕ → Option ℕ → Bool
is_stale now none = false
is_stale now (some t) = ltb (t + 86400) (now / 1000)

-- The fields that a payload must have.
abbrev pub is_complete : Fields → Bool
is_complete data' =
    filled (lookup hash_key data')
    && (filled (lookup id_key (without_hash data'))
        && filled (lookup auth_date_key (without_hash data')))

abbrev pub text_of : Option Text → Text
text_of o = get_or o []

module _ (digests : Digests) where
  -- `expected`
  unfoldable pub signature_of : Text → Fields → Text
  unfolding check_string
  signature_of bot_token fields = digests.hmac (digests.sha256 bot_token) (check_string fields)

  -- The tests of `loginWithTelegram`; none where they are passed.
  unfoldable pub check_widget : Option Text → Fields → ℕ → Option Reason
  check_widget bot_token data' now =
      if not (filled bot_token)
      then some Reason.not_configured
      else if not (is_complete data')
      then some Reason.malformed_payload
      else if not
          (signature_of (text_of bot_token) (without_hash data') == text_of (lookup hash_key data'))
      then some Reason.invalid_signature
      else if is_stale now (digests.number (text_of (lookup auth_date_key (without_hash data'))))
      then some Reason.login_expired
      else none

-- "tg"
abbrev pub tg : Text
tg = 116 ∷ 103 ∷ []

-- "@telegram.adlink"
abbrev pub telegram_domain : Text
telegram_domain =
    64 ∷ 116 ∷ 101 ∷ 108 ∷ 101 ∷ 103 ∷ 114 ∷ 97 ∷ 109 ∷ 46 ∷ 97 ∷ 100 ∷ 108 ∷ 105 ∷ 110 ∷ 107 ∷ []

-- `tg${id}@telegram.adlink`
abbrev pub telegram_email : Text → Text
telegram_email id = tg ++ (id ++ telegram_domain)

-- `a || b` on texts
abbrev pub or_else : Text → Text → Text
or_else [] t = t
or_else (c ∷ s) t = c ∷ s

abbrev pub optional : Option Text → List Text
optional none = []
optional (some []) = []
optional (some (c ∷ s)) = (c ∷ s) ∷ []

-- `[first, last].filter(Boolean).join(' ') || username || `tg${id}``
abbrev pub display_name : Option Text → Option Text → Option Text → Text → Text
display_name first last username id =
    or_else (join_with 32 (optional first ++ optional last)) (or_else (text_of username) (tg ++ id))

abbrev pub is_slug : ℕ → Bool
is_slug c = leb b'a' c && leb c b'z' || leb b'0' c && leb c b'9'

-- `replace(/[^a-z0-9]+/g, '_')`; the flag says that the character before was replaced.
unfoldable pub squash : Bool → Text → Text
squash after [] = []
squash after (c ∷ s) =
    let rest = squash (not (is_slug c)) s in
    if is_slug c then c ∷ rest else if after then rest else 95 ∷ rest

-- `replace(/^_+|_+$/g, '')`, at the front
unfoldable pub drop_underscores : Text → Text
drop_underscores [] = []
drop_underscores (c ∷ s) = if eqb c 95 then drop_underscores s else c ∷ s

abbrev pub strip_underscores : Text → Text
strip_underscores s = reverse (drop_underscores (reverse (drop_underscores s)))

-- `generateUsername`
unfoldable pub generate_username : Digests → Text → Text → Text
generate_username digests name id =
    or_else (take 24 (strip_underscores (squash false (digests.nfkd (map_lower name)))))
      (tg ++ 95 ∷ id)
