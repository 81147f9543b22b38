-- ===== src/Access/Tests.antt =====
-- Runs of the guards and of the tenant scope of apps/api/src, and their theorem on one request.
use ad_link.Common.{
  true, Option, none, some, [], ◌∷◌, ◌++◌, Text, ◌≡◌, ◌≢◌, refl, ◌==◌, text_eq, if◌then◌else◌,
  insert, string_eq,
}
use ad_link.Core.Enums.{Role}
use ad_link.Access.{
  AuthUser, Route, allowed, unauthorized, forbidden, bearer, authenticate, jwt_guard, roles_guard,
  admit,
}
use ad_link.Access.Guards.{IsSignedIn, MayCall}
use ad_link.Access.Scope.{Model, is_tenant_scoped, Operation, Data, Args, scope_args, scope}
use ad_link.Access.Confinement.{IsConfined, admit-IsConfined}

abbrev buyer : AuthUser
buyer = record { sub = "u"; tenant_id = "t"; role = Role.buyer; client_id = none }

abbrev verify : Text → Option AuthUser
verify token = if token == 7 ∷ 8 ∷ [] then some buyer else none

abbrev header : Option Text
header = some (bearer ++ 7 ∷ 8 ∷ [])

-- A route that asks for no role, and one for owners and admins.
abbrev open_route : Route
open_route = record {
  public_handler = none;
  public_class = none;
  roles_handler = none;
  roles_class = none;
}

abbrev owner_route : Route
owner_route = record open_route { roles_handler = some (Role.owner ∷ Role.admin ∷ []) }

signed_run : admit open_route (authenticate verify header).user ≡ allowed
unfolding admit authenticate jwt_guard roles_guard
signed_run = refl

forbidden_run : admit owner_route (authenticate verify header).user ≡ forbidden
unfolding admit authenticate jwt_guard roles_guard
forbidden_run = refl

unauthorized_run : admit open_route (authenticate verify none).user ≡ unauthorized
unfolding admit authenticate jwt_guard
unauthorized_run = refl

abbrev args : Args
args = record { where' = ("tenantId", "rival") ∷ ("id", "7") ∷ []; data' = Data.one [] }

-- A condition on the tenant is replaced.
scope_run :
    (scope (authenticate verify header).store Model.lead Operation.find_many args).where'
    ≡ ("tenantId", "t") ∷ ("id", "7") ∷ []
unfolding authenticate scope scope_args insert
scope_run = refl

admit-IsConfined_example :
    (u : AuthUser) × IsSignedIn verify header u
    × MayCall open_route (some u)
    × (u.tenant_id ≢ ""
        → (model : Model) (op : Operation) (a : Args) → is_tenant_scoped model ≡ true
        → IsConfined u.tenant_id op a (scope (authenticate verify header).store model op a))
admit-IsConfined_example = admit-IsConfined verify header open_route refl signed_run
