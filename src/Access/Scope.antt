-- ===== src/Access/Scope.antt =====
-- The tenant scope of apps/api/src/prisma/prisma.client.ts. The arguments of a query are objects, here
-- associations of texts: a value of another type stands as its JSON text. A row is an object too.
use ad_link.Common.{
  Bool, true, false, Option, none, some, String, List, ◌==◌, string_eq, if◌then◌else◌, map, insert,
}
use ad_link.Access.{TenantStore}

pub data Model : Type 0 where
  tenant user client ad_account crm_connection stage_mapping campaign ad_set ad creative
        ad_insight_daily contact contact_identifier lead deal touch_point conversion_event
        match_audit sync_run fx_rate :
      Model

-- `TENANT_SCOPED.has(model)`
abbrev pub is_tenant_scoped : Model → Bool
is_tenant_scoped tenant = false
is_tenant_scoped fx_rate = false
is_tenant_scoped _ = true

pub data Operation : Type 0 where
  find_first find_first_or_throw find_many count aggregate group_by update_many delete_many create
        create_many create_many_and_return update_many_and_return find_unique find_unique_or_throw
        update delete upsert :
      Operation

-- `WHERE_OPS.has(operation)`
abbrev pub is_where_op : Operation → Bool
is_where_op find_first = true
is_where_op find_first_or_throw = true
is_where_op find_many = true
is_where_op count = true
is_where_op aggregate = true
is_where_op group_by = true
is_where_op update_many = true
is_where_op delete_many = true
is_where_op _ = false

-- `create` and `createMany`
abbrev pub is_create : Operation → Bool
is_create create = true
is_create create_many = true
is_create _ = false

abbrev pub Object : Type 0
Object = List (String × String)

-- `data` of `createMany` is one object or an array of them.
pub data Data : Type 0 where
  one : Object → Data
  several : List Object → Data

pub record Args : Type 0 where
  pub where' : Object
  pub data' : Data

-- `{ ...object, tenantId }`
abbrev pub with_tenant : String → Object → Object
with_tenant tenant_id = insert "tenantId" tenant_id

-- `{ ...data, tenantId }`, on each object of an array
abbrev pub data_with_tenant : String → Data → Data
data_with_tenant tenant_id (one d) = one (with_tenant tenant_id d)
data_with_tenant tenant_id (several ds) = several (map (with_tenant tenant_id) ds)

-- The arguments past the extension, within a tenant.
unfoldable pub scope_args : String → Operation → Args → Args
scope_args tenant_id op a =
    if is_where_op op
    then record a { where' = with_tenant tenant_id a.where' }
    else if is_create op
    then record a { data' = data_with_tenant tenant_id a.data' }
    else a

-- `$allOperations`: with no tenant in the context, or on a model that carries none, the query runs with
-- its arguments as they are.
unfoldable pub scope : Option TenantStore → Model → Operation → Args → Args
scope none model op a = a
scope (some ctx) model op a =
    if ctx.tenant_id == ""
    then a
    else if is_tenant_scoped model
    then scope_args ctx.tenant_id op a
    else a
