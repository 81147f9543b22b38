-- ===== src/Auth.antt =====
-- apps/api/src/auth/auth.service.ts: users sign in by a password, with Google or with Telegram. The
-- password hash, the signer of tokens, the drawn ids and texts, and what Google answers are parameters;
-- `none` or a constructor of its own says that a call throws. A text that the service walks is the list
-- of its codes.
mod Rows
pub mod Telegram
pub mod Service
pub mod Accounts
pub mod Emails
pub mod SignIn
pub mod Widget
pub mod Desktop
mod Tests
unfoldable pub use Rows.*
use ad_link.Common.{
  ℕ, ◌+◌, Bool, true, false, ◌&&◌, ◌||◌, not, Option, none, some, String, List, [], ◌∷◌, ◌++◌, Text,
  ◌==◌, string_eq, text_eq, if◌then◌else◌, get_or, find?, update_where,
}
use ad_link.Core.Enums.{Role}
use ad_link.Access.{AuthUser}

-- The library calls: ids, the hash of a password under the salt that is drawn, its comparison, random
-- texts, and the signature of a payload: `sign` of `JwtService` adds the second of the signing and that
-- of the expiry to it, so that the text depends on the clock.
pub record Calls : Type 0 where
  pub id_of : ℕ → String
  pub hash : ℕ → Text → Text
  pub compare : Text → Text → Bool
  pub random_uuid : ℕ → Text
  pub sign : ℕ → AuthUser → Text

module _ (calls : Calls) where
  -- `issue`
  abbrev pub issue : ℕ → User → Answer
  issue clock u = issued (record { token = calls.sign clock (payload_of u); user = sanitize u })

  -- A new tenant, and the user that owns it: `tenant.create` and `user.create`. The rest of the row is
  -- set by the caller.
  abbrev pub new_owner : ℕ → Text → Text → Option Text → User
  new_owner drawn email password name = record {
    id = calls.id_of (drawn + 1);
    tenant_id = calls.id_of drawn;
    email = email;
    password_hash = calls.hash drawn password;
    name = name;
    username = none;
    avatar_url = none;
    tg_photo_file_id = none;
    role = Role.owner;
    client_id = none;
  }

  abbrev pub with_owner : Text → User → Store → Store
  with_owner tenant_name u s = record s {
    tenants = s.tenants ++ record { id = calls.id_of s.drawn; name = tenant_name } ∷ [];
    users = s.users ++ u ∷ [];
    drawn = s.drawn + 2;
  }

  unfoldable pub register : RegisterInput → Store → Store × Answer
  register input s = elim (find? (has_email input.email) s.users) [
    | some u ↦ (s, refused already_registered)
    | none ↦
        let u = new_owner s.drawn input.email input.password input.name in
        (with_owner input.tenant_name u s, issue s.clock u)
  ]

  unfoldable pub login : Text → Text → Store → Store × Answer
  login email password s = elim (find? (has_email email) s.users) [
    | none ↦ (s, refused invalid_credentials)
    | some u ↦
        if calls.compare password u.password_hash
        then (s, issue s.clock u)
        else (s, refused invalid_credentials)
  ]

  abbrev pub with_avatar : Text → User → User
  with_avatar url u = record u { avatar_url = some (external url) }

  -- The picture is kept fresh on each social login.
  unfoldable pub refresh_avatar : Option Text → User → Store → Store × User
  refresh_avatar none u s = (s, u)
  refresh_avatar (some url) u s =
      if filled (some url) && not (same_avatar u.avatar_url url)
      then (
        record s { users = update_where (is_user u.id) (with_avatar url) s.users },
        with_avatar url u,
      )
      else (s, u)

  abbrev pub external_of : Option Text → Option Avatar
  external_of none = none
  external_of (some url) = some (external url)

  abbrev pub workspace_of : Text → Option Text → Text
  workspace_of email none = email
  workspace_of email (some name) = if filled (some name) then name ++ workspace else email

  -- `findOrCreateUser`
  unfoldable pub find_or_create_user : Text → Option Text → Option Text → Store → Store × User
  find_or_create_user email name avatar_url s = elim (find? (has_email email) s.users) [
    | some u ↦ refresh_avatar avatar_url u s
    | none ↦
        let u = record (new_owner s.drawn email (calls.random_uuid s.drawn) name) {
          avatar_url = external_of avatar_url;
        } in
        (with_owner (workspace_of email name) u s, u)
  ]

  abbrev pub photo_of : Option Text → User → Option Avatar
  photo_of photo u = if filled photo then some (proxy u.id) else u.avatar_url

  abbrev pub or_text : Option Text → Option Text → Option Text
  or_text none old = old
  or_text (some v) old = some v

  -- The update of every Telegram login.
  abbrev pub with_profile : Text → Option Avatar → Option Text → User → User
  with_profile username avatar_url photo u = record u {
    username = some username;
    avatar_url = avatar_url;
    tg_photo_file_id = photo;
  }

  abbrev pub refresh_profile : Text → Option Text → User → Store → Store × User
  refresh_profile username photo u s =
      let change = with_profile username (photo_of photo u) (or_text photo u.tg_photo_file_id) in
      (record s { users = update_where (is_user u.id) change s.users }, change u)

  -- The `create` of `upsertTelegramUser`
  abbrev pub new_telegram_user : ℕ → Text → Text → Text → User
  new_telegram_user drawn email name username =
      record (new_owner drawn email (calls.random_uuid drawn) (some name)) {
        username = some username;
      }

  -- `upsertTelegramUser`
  unfoldable pub upsert_telegram_user : Text → Text → Text → Option Text → Store → Store × User
  upsert_telegram_user email name username photo s = elim (find? (has_email email) s.users) [
    | some u ↦ refresh_profile username photo u s
    | none ↦
        let u = new_telegram_user s.drawn email name username in
        refresh_profile username photo u (with_owner (name ++ workspace) u s)
  ]

-- `telegramPhotoFileId`
unfoldable pub telegram_photo_file_id : String → Store → Option Text
telegram_photo_file_id id s = elim (find? (is_user id) s.users) [
  | none ↦ none
  | some u ↦ u.tg_photo_file_id
]

-- `me`: none where it throws
unfoldable pub me : String → Store → Option SafeUser
me id s = elim (find? (is_user id) s.users) [ none ↦ none | some u ↦ some (sanitize u) ]
