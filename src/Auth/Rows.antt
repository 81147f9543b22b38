-- ===== src/Auth/Rows.antt =====
-- The rows of apps/api/src/auth/auth.service.ts, and what its methods answer.
use ad_link.Common.{
  ℕ, Bool, true, false, Option, none, some, String, List, [], ◌∷◌, Text, ◌==◌, string_eq, text_eq,
}
use ad_link.Core.Enums.{Role}
use ad_link.Access.{AuthUser}

pub record Tenant : Type 0 where
  pub id : String
  pub name : Text

-- The picture of a user: a link of the provider's, or that of the own proxy for a user.
pub data Avatar : Type 0 where
  external : Text → Avatar
  proxy : String → Avatar

pub record User : Type 0 where
  pub id : String
  pub tenant_id : String
  pub email : Text
  pub password_hash : Text
  pub name : Option Text
  pub username : Option Text
  pub avatar_url : Option Avatar
  pub tg_photo_file_id : Option Text
  pub role : Role
  pub client_id : Option String

-- What the frontend sees of a user.
pub record SafeUser : Type 0 where
  pub id : String
  pub email : Text
  pub name : Option Text
  pub username : Option Text
  pub avatar_url : Option Avatar
  pub role : Role
  pub tenant_id : String
  pub client_id : Option String

-- The tables, the number of texts and ids that were drawn, and the second that it is.
pub record Store : Type 0 where
  pub tenants : List Tenant
  pub users : List User
  pub drawn : ℕ
  pub clock : ℕ

pub record Issued : Type 0 where
  pub token : Text
  pub user : SafeUser

-- The reasons that the exceptions give.
pub data Reason : Type 0 where
  already_registered invalid_credentials not_configured exchange_failed no_id_token
        malformed_id_token email_not_verified malformed_payload invalid_signature login_expired :
      Reason

pub data Answer : Type 0 where
  issued : Issued → Answer
  refused : Reason → Answer

pub record RegisterInput : Type 0 where
  pub tenant_name : Text
  pub email : Text
  pub password : Text
  pub name : Option Text

abbrev pub sanitize : User → SafeUser
sanitize u = record {
  id = u.id;
  email = u.email;
  name = u.name;
  username = u.username;
  avatar_url = u.avatar_url;
  role = u.role;
  tenant_id = u.tenant_id;
  client_id = u.client_id;
}

abbrev pub payload_of : User → AuthUser
payload_of u = record {
  sub = u.id;
  tenant_id = u.tenant_id;
  role = u.role;
  client_id = u.client_id;
}

abbrev pub has_email : Text → User → Bool
has_email email u = u.email == email

abbrev pub is_user : String → User → Bool
is_user id u = u.id == id

-- The truth value of an optional text.
abbrev pub filled : Option Text → Bool
filled none = false
filled (some []) = false
filled (some (c ∷ s)) = true

-- "'s workspace"
abbrev pub workspace : Text
workspace = 39 ∷ 115 ∷ 32 ∷ 119 ∷ 111 ∷ 114 ∷ 107 ∷ 115 ∷ 112 ∷ 97 ∷ 99 ∷ 101 ∷ []

-- `avatarUrl !== existing.avatarUrl`, negated
abbrev pub same_avatar : Option Avatar → Text → Bool
same_avatar none url = false
same_avatar (some (external u)) url = u == url
same_avatar (some (proxy id)) url = false
