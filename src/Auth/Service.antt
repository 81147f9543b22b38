-- ===== src/Auth/Service.antt =====
-- The methods of apps/api/src/auth/auth.service.ts that sign a user in through a provider, and the
-- sequences of requests to the service.
use ad_link.Common.{
  ℕ, ◌+◌, Bool, true, false, ◌&&◌, not, Option, none, some, List, [], ◌∷◌, Text, text_eq,
  if◌then◌else◌, lookup,
}
use ad_link.Core.Identity.{trim}
use ad_link.Auth.{
  Calls, Store, Answer, refused, Reason, RegisterInput, User, filled, issue, register, login,
  find_or_create_user, upsert_telegram_user,
}
use ad_link.Auth.Telegram.{
  Digests, Fields, check_widget, without_hash, id_key, first_name_key, last_name_key, username_key,
  photo_url_key, telegram_email, display_name, text_of, or_else, generate_username,
}

-- What Google says of a user.
pub record Claims : Type 0 where
  pub email : Option Text
  pub email_verified : Option Bool
  pub name : Option Text
  pub picture : Option Text

-- The answer of Google's token endpoint: refused, without a token of identity, with one whose payload is
-- missing, or with one that decodes.
pub data GoogleAnswer : Type 0 where
  failed without_token undecodable : GoogleAnswer
  claimed : Claims → GoogleAnswer

pub record TelegramProfile : Type 0 where
  pub id : Text
  pub first_name : Option Text
  pub last_name : Option Text
  pub username : Option Text
  pub photo_file_id : Option Text

-- The requests of auth.controller.ts and of the Telegram bot that sign somebody in.
pub data Request : Type 0 where
  registers : RegisterInput → Request
  logs_in : Text → Text → Request
  google : Bool → GoogleAnswer → Request
  widget : Option Text → Fields → ℕ → Request
  profile : TelegramProfile → Request

-- `claims.email_verified === false`
abbrev pub is_unverified : Option Bool → Bool
is_unverified none = false
is_unverified (some b) = not b

module _ (calls : Calls) (digests : Digests) where
  abbrev pub issue_to : ℕ → Store × User → Store × Answer
  issue_to clock (s, u) = (s, issue calls clock u)

  -- `loginWithGoogle`; the flag says that the three settings are there.
  unfoldable pub login_with_google : Bool → GoogleAnswer → Store → Store × Answer
  login_with_google false answer s = (s, refused Reason.not_configured)
  login_with_google true failed s = (s, refused Reason.exchange_failed)
  login_with_google true without_token s = (s, refused Reason.no_id_token)
  login_with_google true undecodable s = (s, refused Reason.malformed_id_token)
  login_with_google true (claimed c) s =
      if filled c.email && not (is_unverified c.email_verified)
      then issue_to s.clock (find_or_create_user calls (text_of c.email) c.name c.picture s)
      else (s, refused Reason.email_not_verified)

  -- `loginWithTelegram` past its tests
  abbrev pub admit_widget : Fields → Store → Store × Answer
  admit_widget fields s =
      let id = text_of (lookup id_key fields) in
      let name =
        display_name (lookup first_name_key fields) (lookup last_name_key fields)
          (lookup username_key fields) id in
      issue_to s.clock
        (find_or_create_user calls (telegram_email id) (some name) (lookup photo_url_key fields) s)

  -- `loginWithTelegram`
  unfoldable pub login_with_telegram : Option Text → Fields → ℕ → Store → Store × Answer
  login_with_telegram bot_token data' now s = elim (check_widget digests bot_token data' now) [
    | some reason ↦ (s, refused reason)
    | none ↦ admit_widget (without_hash data') s
  ]

  abbrev pub trimmed : Option Text → Text
  trimmed none = []
  trimmed (some s) = trim s

  -- `loginTelegramProfile`
  unfoldable pub login_telegram_profile : TelegramProfile → Store → Store × Answer
  login_telegram_profile p s =
      let name = display_name p.first_name p.last_name p.username p.id in
      let username = or_else (trimmed p.username) (generate_username digests name p.id) in
      issue_to s.clock
        (upsert_telegram_user calls (telegram_email p.id) name username p.photo_file_id s)

  unfoldable pub serve : Request → Store → Store × Answer
  serve (registers input) s = register calls input s
  serve (logs_in email password) s = login calls email password s
  serve (google configured answer) s = login_with_google configured answer s
  serve (widget bot_token data' now) s = login_with_telegram bot_token data' now s
  serve (profile p) s = login_telegram_profile p s

  -- The store some seconds later.
  abbrev pub later : ℕ → Store → Store
  later seconds s = record s { clock = s.clock + seconds }

  -- Requests, each some seconds after the one before.
  unfoldable pub run : List (ℕ × Request) → Store → Store
  run [] s = s
  run ((seconds, r) ∷ rs) s = run rs (serve r (later seconds s)).0
