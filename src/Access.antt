-- ===== src/Access.antt =====
-- Who may call a route, and which rows its queries see: the middleware and the guard of
-- apps/api/src/common/auth, the guard of apps/api/src/common/rbac, the request's context of
-- apps/api/src/common/tenant, and the tenant scope of apps/api/src/prisma/prisma.client.ts. The
-- verification of a token is a parameter; `none` says that it throws.
pub mod Scope
pub mod Guards
pub mod Confinement
mod Tests
use ad_link.Common.{
  ℕ, Bool, true, false, ◌&&◌, ◌||◌, Option, none, some, String, List, [], ◌∷◌, Text, ◌==◌,
  string_eq, eqb, if◌then◌else◌, any,
}
use ad_link.Core.Enums.{Role}

-- The payload of a token.
pub record AuthUser : Type 0 where
  pub sub : String
  pub tenant_id : String
  pub role : Role
  pub client_id : Option String

-- The identity that a request runs with.
pub record TenantStore : Type 0 where
  pub tenant_id : String
  pub user_id : String
  pub role : Role
  pub client_id : Option String

-- What the middleware makes of a request: `req.user`, and the store that the rest runs in.
pub record Context : Type 0 where
  pub user : Option AuthUser
  pub store : Option TenantStore

-- "Bearer " and what follows
abbrev pub bearer : Text
bearer = 66 ∷ 101 ∷ 97 ∷ 114 ∷ 101 ∷ 114 ∷ 32 ∷ []

-- `header.startsWith(prefix)` and then `header.slice(prefix.length)`
abbrev pub after_prefix : Text → Text → Option Text
after_prefix [] header = some header
after_prefix (p ∷ ps) [] = none
after_prefix (p ∷ ps) (c ∷ header) = if eqb p c then after_prefix ps header else none

abbrev pub anonymous : Context
anonymous = record { user = none; store = none }

abbrev pub context_of : AuthUser → Context
context_of payload = record {
  user = some payload;
  store = some (record {
    tenant_id = payload.tenant_id;
    user_id = payload.sub;
    role = payload.role;
    client_id = payload.client_id;
  });
}

-- `AuthContextMiddleware.use`
unfoldable pub authenticate : (Text → Option AuthUser) → Option Text → Context
authenticate verify none = anonymous
authenticate verify (some header) = elim (after_prefix bearer header) [
  | none ↦ anonymous
  | some token ↦ elim (verify token) [ none ↦ anonymous | some payload ↦ context_of payload ]
]

-- `requireTenantId`: it throws (none) without a tenant in the context.
abbrev pub require_tenant_id : Option TenantStore → Option String
require_tenant_id none = none
require_tenant_id (some s) = if s.tenant_id == "" then none else some s.tenant_id

-- What the decorators say on a handler and on its class.
pub record Route : Type 0 where
  pub public_handler : Option Bool
  pub public_class : Option Bool
  pub roles_handler : Option (List Role)
  pub roles_class : Option (List Role)

-- `reflector.getAllAndOverride`
abbrev pub all_and_override {ℓ} : {A : Type ℓ} → Option A → Option A → Option A
all_and_override none on_class = on_class
all_and_override (some a) on_class = some a

pub data Verdict : Type 0 where
  allowed unauthorized forbidden : Verdict

abbrev pub is_public : Route → Bool
is_public r = elim (all_and_override r.public_handler r.public_class) [ none ↦ false | some b ↦ b ]

-- `JwtAuthGuard.canActivate`
unfoldable pub jwt_guard : Route → Option AuthUser → Verdict
jwt_guard r none = if is_public r then allowed else unauthorized
jwt_guard r (some user) = allowed

abbrev pub same_role : Role → Role → Bool
same_role Role.owner Role.owner = true
same_role Role.admin Role.admin = true
same_role Role.buyer Role.buyer = true
same_role Role.client Role.client = true
same_role _ _ = false

-- The roles that a route asks for; [] where it asks for none.
abbrev pub roles_of : Route → List Role
roles_of r = elim (all_and_override r.roles_handler r.roles_class) [
  | none ↦ []
  | some roles ↦ roles
]

abbrev pub includes : List Role → Role → Bool
includes roles role = any (λ r. same_role r role) roles

abbrev pub has_role : List Role → Option AuthUser → Bool
has_role roles none = false
has_role roles (some user) = includes roles user.role

-- `RolesGuard.canActivate`
unfoldable pub roles_guard : Route → Option AuthUser → Verdict
roles_guard r user = elim (roles_of r) [
  | [] ↦ allowed
  | role ∷ roles ↦ if has_role (role ∷ roles) user then allowed else forbidden
]

-- The guards of apps/api/src/app.module.ts, in their order.
unfoldable pub admit : Route → Option AuthUser → Verdict
admit r user = elim (jwt_guard r user) [ allowed ↦ roles_guard r user | other ↦ other ]
