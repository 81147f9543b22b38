-- ===== src/Auth/Desktop.antt =====
-- How a phone signs a desktop in: `handle` of apps/api/src/auth/qr/telegram-bot.service.ts, which
-- answers the start command of the bot, and the routes of apps/api/src/auth/auth.controller.ts to which
-- Google and Telegram send the browser back. Redis, the calls of the authentication, what Telegram
-- answers on profile photos and what Google answers on a code are parameters; so is the text under
-- which a session is stored, the JSON of what a provider issues, and the milliseconds that an approval
-- takes between its two reads of a session.
pub mod Delivers
pub mod Google
mod Tests
use ad_link.Common.{
  ℕ, ◌+◌, Bool, true, false, ◌&&◌, Option, none, some, String, List, [], ◌∷◌, ◌++◌, Text, ◌==◌,
  text_eq, if◌then◌else◌, map,
}
use ad_link.Access.{after_prefix}
use ad_link.Secrets.{split_colon}
use ad_link.Core.Identity.{is_space, trim_start}
use ad_link.QrLogin.{IssuedAuth, Redis, approve}
use ad_link.QrLogin
use ad_link.Auth.{Calls, Store, Issued, Answer, issued, refused, filled}
use ad_link.Auth.Telegram.{Digests, Fields, text_of}
use ad_link.Auth.Service.{
  GoogleAnswer, TelegramProfile, login_with_google, login_with_telegram, login_telegram_profile,
}

pub record TgUser : Type 0 where
  pub id : Text
  pub first_name : Option Text
  pub last_name : Option Text
  pub username : Option Text

pub record TgMessage : Type 0 where
  pub from : Option TgUser
  pub text : Option Text

pub record TgUpdate : Type 0 where
  pub update_id : ℕ
  pub message : Option TgMessage

-- "/start"
abbrev pub start_command : Text
start_command = 47 ∷ 115 ∷ 116 ∷ 97 ∷ 114 ∷ 116 ∷ []

-- `\S*`
unfoldable pub word : Text → Text
word [] = []
word (c ∷ s) = let rest = word s in if is_space c then [] else c ∷ rest

abbrev pub truthy : Text → Option Text
truthy [] = none
truthy (c ∷ s) = some (c ∷ s)

-- `(?:\s+(\S+))?`, the group
unfoldable pub argument : Text → Option Text
argument [] = none
argument (c ∷ s) = if is_space c then truthy (word (trim_start s)) else none

-- The expression of the start command: no match, or the match with its group.
abbrev pub start_payload : Text → Option (Option Text)
start_payload text = elim (after_prefix start_command text) [
  | none ↦ none
  | some rest ↦ some (argument rest)
]

-- `sizes[sizes.length - 1]`
unfoldable pub largest : List Text → Option Text
largest [] = none
largest (size ∷ []) = some size
largest (size ∷ next ∷ sizes) = largest (next ∷ sizes)

-- `profilePhotoFileId` with its `catch`; `none` says that the call throws or that it gives no photos.
abbrev pub profile_photo_file_id : Option (List (List Text)) → Option Text
profile_photo_file_id none = none
profile_photo_file_id (some []) = none
profile_photo_file_id (some (sizes ∷ photos)) = largest sizes

-- What the bot replies.
pub data Reply : Type 0 where
  nothing scan_first signed_in code_expired : Reply

-- `result.ok`
abbrev pub reply_of : QrLogin.Answer → Reply
reply_of QrLogin.granted = signed_in
reply_of QrLogin.already = signed_in
reply_of _ = code_expired

-- Where the callbacks send the browser: to the page of the session that is confirmed, into the
-- application with a token, or back to the login.
pub data Landing : Type 0 where
  confirmed : Text → Landing
  entered : Text → Landing
  failed : Landing

-- "qr:"
abbrev pub qr_prefix : Text
qr_prefix = 113 ∷ 114 ∷ 58 ∷ []

-- `qr:${qrId}:${randomUUID()}`, the state and the cookie of `qrGoogleStart`
abbrev pub qr_state : Text → Text → Text
qr_state qr_id csrf = qr_prefix ++ (qr_id ++ 58 ∷ csrf)

-- `state.split(':')[1] ?? ''`
abbrev pub second : List Text → Text
second [] = []
second (part ∷ []) = []
second (part ∷ next ∷ parts) = next

abbrev pub is_confirmation : Text → Bool
is_confirmation state = elim (after_prefix qr_prefix state) [ none ↦ false | some rest ↦ true ]

module _ (redis : Redis) (calls : Calls) (digests : Digests) (key_of : Text → String)
    (stored : Issued → IssuedAuth) (gap : ℕ) where
  -- The state of the API: the sessions in Redis and the tables of the authentication.
  abbrev pub World : Type 0
  World = redis.State × Store

  abbrev pub profile_of : Option Text → TgUser → TelegramProfile
  profile_of photo user = record {
    id = user.id;
    first_name = user.first_name;
    last_name = user.last_name;
    username = user.username;
    photo_file_id = photo;
  }

  -- `handle` past the start command: the sign-in of the sender, and the approval of the session.
  unfoldable pub confirm : Text → TelegramProfile → World → World × Reply
  confirm payload profile (r, s) =
      let (s', answer) = login_telegram_profile calls digests profile s in
      elim answer [
        | refused reason ↦ ((r, s'), nothing)
        | issued i ↦
            let (r', result) = approve redis (key_of payload) (stored i) gap r in
            ((r', s'), reply_of result)
      ]

  -- `handle`, on the message of an update
  unfoldable pub handle :
      (Text → Option (List (List Text))) → Option TgMessage → World → World × Reply
  handle photos none w = (w, nothing)
  handle photos (some m) w =
      if filled m.text
      then (elim m.from [
        | none ↦ (w, nothing)
        | some user ↦ elim (start_payload (text_of m.text)) [
          | none ↦ (w, nothing)
          | some none ↦ (w, scan_first)
          | some (some payload) ↦
              confirm payload (profile_of (profile_photo_file_id (photos user.id)) user) w
        ]
      ])
      else (w, nothing)

  -- A round of `loop`: each update is acknowledged before it is handled.
  unfoldable pub handle_updates :
      (Text → Option (List (List Text))) → List TgUpdate → ℕ → World → ℕ × World
  handle_updates photos [] offset w = (offset, w)
  handle_updates photos (u ∷ updates) offset w =
      handle_updates photos updates (u.update_id + 1) (handle photos u.message w).0

  -- `googleCallback` past the sign-in: a state that names a session has it approved, and the phone is
  -- not signed in.
  unfoldable pub land : Text → Issued → World → World × Landing
  land state i (r, s) =
      if is_confirmation state
      then (let qr_id = second (split_colon state) in
          (((approve redis (key_of qr_id) (stored i) gap r).0, s), confirmed qr_id))
      else ((r, s), entered i.token)

  -- `googleCallback`, with the code and the state of the request and the state of the cookie
  unfoldable pub google_callback :
      Bool
      → (Text → GoogleAnswer)
      → Option Text
      → Option Text
      → Option Text
      → World
      → World × Landing
  google_callback configured google code state cookie_state (r, s) =
      if filled code
        && (filled state && (filled cookie_state && text_of state == text_of cookie_state))
      then (let (s', answer) =
            login_with_google calls digests configured (google (text_of code)) s in
          elim answer [
            | refused reason ↦ ((r, s'), failed)
            | issued i ↦ land (text_of state) i (r, s')
          ])
      else ((r, s), failed)

  -- `telegramCallback`
  unfoldable pub telegram_callback : Option Text → Fields → ℕ → World → World × Landing
  telegram_callback bot_token query now (r, s) =
      let (s', answer) = login_with_telegram calls digests bot_token query now s in
      elim answer [ refused reason ↦ ((r, s'), failed) | issued i ↦ ((r, s'), entered i.token) ]
