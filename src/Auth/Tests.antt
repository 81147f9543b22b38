-- ===== src/Auth/Tests.antt =====
-- Runs of the model of apps/api/src/auth/auth.service.ts, and its theorems at concrete inputs.
use ad_link.Common.{
  ℕ, ◌*◌, none, some, List, [], ◌∷◌, ◌++◌, ◌≡◌, refl, ◌==◌, text_eq, string_eq, eqb, if◌then◌else◌,
  IsDistinct, lookup, sort, insert_sorted, beq_refl, length,
}
use ad_link.Core.Enums
use ad_link.Core.Identity.{map_lower, lower}
use ad_link.Auth.{
  Calls, Store, Issued, issued, refused, Reason, RegisterInput, register, login,
  find_or_create_user, upsert_telegram_user,
}
use ad_link.Auth.Telegram.{
  Digests, Fields, hash_key, id_key, auth_date_key, telegram_email, signature_of, check_string,
  check_widget, generate_username, squash, drop_underscores,
}
use ad_link.Auth.Service.{
  TelegramProfile, Request, registers, logs_in, profile, login_with_telegram,
  login_telegram_profile, serve, later, run,
}
use ad_link.Auth.Emails.{emails, run-EmailsDistinct}
use ad_link.Auth.SignIn.{claims_of, provider_email, register-login}
use ad_link.Auth.Widget.{IsSigned, login_with_telegram-IsSigned}

-- Ids by their number, a hash that keeps the password, and a token that is the user's id and
-- the second of its signing.
abbrev pub calls : Calls
calls = record {
  id_of = λ n. if eqb n 0 then "t0" else if eqb n 1 then "u1" else "later";
  hash = λ n password. password;
  compare = λ password hashed. password == hashed;
  random_uuid = λ n. n ∷ [];
  sign = λ clock payload. if payload.sub == "u1" then 1 ∷ clock ∷ [] else 2 ∷ clock ∷ [];
}

abbrev pub digests : Digests
digests = record {
  sha256 = λ s. s;
  hmac = λ key s. key ++ s;
  number = λ s. some 100;
  nfkd = λ s. s;
}

abbrev pub empty : Store
empty = record { tenants = []; users = []; drawn = 0; clock = 5 }

-- Somebody registers the address that stands for the Telegram user 7.
abbrev input : RegisterInput
input = record {
  tenant_name = 65 ∷ [];
  email = telegram_email (55 ∷ []);
  password = 1 ∷ 2 ∷ [];
  name = none;
}

abbrev tg_profile : TelegramProfile
tg_profile = record {
  id = 55 ∷ [];
  first_name = some (65 ∷ 108 ∷ 105 ∷ []);
  last_name = none;
  username = none;
  photo_file_id = none;
}

-- "Ali B!" and 7 give "ali_b".
username_run :
    generate_username digests (65 ∷ 108 ∷ 105 ∷ 32 ∷ 66 ∷ 33 ∷ []) (55 ∷ [])
    ≡ 97 ∷ 108 ∷ 105 ∷ 95 ∷ 98 ∷ []
unfolding generate_username squash drop_underscores map_lower lower
username_run = refl

abbrev registered : Issued
registered = record {
  token = 1 ∷ 5 ∷ [];
  user = record {
    id = "u1";
    email = telegram_email (55 ∷ []);
    name = none;
    username = none;
    avatar_url = none;
    role = Enums.Role.owner;
    tenant_id = "t0";
    client_id = none;
  };
}

register_run : (register calls input empty).1 ≡ issued registered
unfolding register
register_run = refl

abbrev requests : List (ℕ × Request)
requests = (60, profile tg_profile) ∷ (9, logs_in (1 ∷ []) (2 ∷ [])) ∷ []

-- The Telegram user comes into the registered account.
users_run : length (run calls digests ((0, registers input) ∷ requests) empty).users ≡ 1
unfolding run serve register login login_telegram_profile upsert_telegram_user generate_username
    squash drop_underscores map_lower lower
users_run = refl

run-EmailsDistinct_example :
    IsDistinct (emails (run calls digests ((0, registers input) ∷ requests) empty).users)
run-EmailsDistinct_example =
    run-EmailsDistinct calls digests ((0, registers input) ∷ requests) empty tt

register-login_example :
    let s' = later calls digests 7 (run calls digests requests (register calls input empty).0) in
    (registered.token ≡ calls.sign 5 (claims_of registered.user))
    × ((j : Issued) × (login calls input.email input.password s' ≡ (s', issued j))
        × (j.token ≡ calls.sign s'.clock (claims_of registered.user)))
    × ((r : Request) (j : Issued)
        → provider_email r ≡ some input.email
        → (serve calls digests r s').1 ≡ issued j
        → j.token ≡ calls.sign s'.clock (claims_of registered.user))
register-login_example =
    register-login calls digests (λ n p. beq_refl p) input empty registered register_run requests 7

-- The fields that a bot with the token "k" signs for the user 7.
abbrev fields : Fields
fields = (auth_date_key, 49 ∷ []) ∷ (id_key, 55 ∷ []) ∷ []

abbrev payload : Fields
payload = (hash_key, signature_of digests (107 ∷ []) fields) ∷ fields

abbrev signed_in : Issued
signed_in = record {
  token = 1 ∷ 5 ∷ [];
  user = record {
    id = "u1";
    email = telegram_email (55 ∷ []);
    name = some (116 ∷ 103 ∷ 55 ∷ []);
    username = none;
    avatar_url = none;
    role = Enums.Role.owner;
    tenant_id = "t0";
    client_id = none;
  };
}

widget_run :
    (login_with_telegram calls digests (some (107 ∷ [])) payload 100000 empty).1 ≡ issued signed_in
unfolding login_with_telegram check_widget lookup signature_of check_string sort insert_sorted
    find_or_create_user
widget_run = refl

stale_run :
    (login_with_telegram calls digests (some (107 ∷ [])) payload (86501 * 1000) empty).1
    ≡ refused Reason.login_expired
unfolding login_with_telegram check_widget lookup signature_of check_string sort insert_sorted
stale_run = refl

login_with_telegram-IsSigned_example : IsSigned calls digests (some (107 ∷ [])) payload 100000
login_with_telegram-IsSigned_example =
    login_with_telegram-IsSigned calls digests (some (107 ∷ [])) payload 100000 empty signed_in
      widget_run
