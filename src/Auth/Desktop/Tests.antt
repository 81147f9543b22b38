-- ===== src/Auth/Desktop/Tests.antt =====
-- The sign-in of a desktop through the bot and through Google, of apps/api/src/auth, at concrete inputs.
use ad_link.Common.{
  true, Option, none, some, String, List, [], ◌∷◌, Text, ◌≡◌, ◌⊎◌, refl, arith, ◌==◌, text_eq,
  if◌then◌else◌,
}
use ad_link.Core.Identity.{is_space, trim_start}
use ad_link.QrLogin.{IssuedAuth, start}
use ad_link.QrLogin.Slots.{slots, nothing}
use ad_link.Auth.{Issued, filled}
use ad_link.Auth.Telegram.{telegram_email, text_of}
use ad_link.Auth.Service.{Claims, GoogleAnswer, claimed}
use ad_link.Auth.Tests.{calls, digests, empty}
use ad_link.Auth.Desktop.{
  TgUser, TgMessage, start_payload, argument, word, signed_in, confirmed, failed, qr_state, handle,
  google_callback,
}
use ad_link.Auth.Desktop.Delivers.{IsDelivered, handle-delivers}
use ad_link.Auth.Desktop.Google.{IsVouched, google_callback-delivers, google_callback-IsGuarded}

-- The session "q", and any other.
abbrev key_of : Text → String
key_of t = if t == 113 ∷ [] then "q" else "other"

abbrev stored : Issued → IssuedAuth
stored i = record { token = if i.token == 1 ∷ 5 ∷ [] then "one" else "two"; user = "{}" }

abbrev user : TgUser
user = record { id = 55 ∷ []; first_name = some (65 ∷ []); last_name = none; username = none }

-- "/start  q x" names the session "q", and "/startq" none.
abbrev text : Text
text = 47 ∷ 115 ∷ 116 ∷ 97 ∷ 114 ∷ 116 ∷ 32 ∷ 32 ∷ 113 ∷ 32 ∷ 120 ∷ []

start_payload_run :
    (start_payload text ≡ some (some (113 ∷ [])))
    × (start_payload (47 ∷ 115 ∷ 116 ∷ 97 ∷ 114 ∷ 116 ∷ 113 ∷ []) ≡ some none)
    × (start_payload (47 ∷ 115 ∷ []) ≡ none)
unfolding argument word is_space trim_start
start_payload_run = (refl, refl, refl)

abbrev photos : Text → Option (List (List Text))
photos id = none

handle-delivers_example :
    let message : TgMessage = record { from = some user; text = some text } in
    let r₁ = slots.wait 60000 (start slots "q" "x" nothing).0 in
    let ((r₂, s₂), reply) =
      handle slots calls digests key_of stored 3 photos (some message) (r₁, empty) in
    (reply ≡ signed_in)
    × IsDelivered slots calls digests key_of stored 3 "q" "x" 90000 5 (telegram_email (55 ∷ [])) r₂
handle-delivers_example =
    handle-delivers slots calls digests key_of stored 3 photos user text (113 ∷ []) "x" 60000 90000
      nothing empty start_payload_run.0 (omega arith)

abbrev claims : Claims
claims = record { email = some (97 ∷ []); email_verified = some true; name = none; picture = none }

abbrev google : Text → GoogleAnswer
google code = claimed claims

google_callback-delivers_run :
    let state = some (qr_state (113 ∷ []) (99 ∷ [])) in
    let r₁ = slots.wait 60000 (start slots "q" "x" nothing).0 in
    let ((r₂, s₂), landing) =
      google_callback slots calls digests key_of stored 3 true google
        (some (1 ∷ []))
        state
        state
        (r₁, empty) in
    (landing ≡ confirmed (113 ∷ []))
    × IsDelivered slots calls digests key_of stored 3 "q" "x" 90000 5 (97 ∷ []) r₂
google_callback-delivers_run =
    google_callback-delivers slots calls digests key_of stored 3 google (1 ∷ []) (99 ∷ [])
      (113 ∷ []) claims "x" 60000 90000 nothing empty refl (refl, tt)
      (record { answered = refl; verified = refl }) (omega arith)

google_callback-IsGuarded_example :
    (google_callback slots calls digests key_of stored 3 true google
        (some (1 ∷ []))
        (some (2 ∷ []))
        (some (3 ∷ []))
        (nothing, empty)
      ≡ ((nothing, empty), failed))
    ⊎ ((filled (some (1 ∷ [])) ≡ true)
        × (filled (some (2 ∷ [])) ≡ true)
        × (text_of (some (2 ∷ [])) ≡ text_of (some (3 ∷ [])))
        × ((c : Claims) × IsVouched google (1 ∷ []) c))
google_callback-IsGuarded_example =
    google_callback-IsGuarded slots calls digests key_of stored 3 true google (some (1 ∷ []))
      (some (2 ∷ [])) (some (3 ∷ [])) (nothing, empty)
