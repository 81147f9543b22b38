-- ===== src/Access/Confinement.antt =====
-- Which queries the tenant scope of apps/api/src/prisma/prisma.client.ts confines to the tenant in the
-- token of a request, and which it passes on.
use ad_link.Common.{
  true, false, Option, some, String, List, [], ◌∷◌, Text, ◌≡◌, ◌≢◌, ◌⊎◌, inl, inr, refl, arith,
  ◌==◌, string_eq, eq_iff, Bool-cases, All, map, lookup, insert, lookup-insert_self, subst,
}
use ad_link.Access.{AuthUser, TenantStore, Route, allowed, is_public, admit, authenticate}
use ad_link.Access.Guards.{IsSignedIn, MayCall, admit-MayCall, authenticate-IsSignedIn}
use ad_link.Access.Scope.{
  Model, is_tenant_scoped, Operation, is_where_op, is_create, create, create_many, Object, Data,
  one, several, Args, with_tenant, data_with_tenant, scope_args, scope,
}

-- The row meets the condition: it has each of its entries.
abbrev pub Meets : Object → Object → Type 0
Meets condition row = All (λ e. lookup e.0 row ≡ some e.1) condition

-- The row is the tenant's.
abbrev pub IsOf : String → Object → Type 0
IsOf tenant_id row = lookup "tenantId" row ≡ some tenant_id

abbrev pub objects : Data → List Object
objects (one d) = d ∷ []
objects (several ds) = ds

is_create-where_op : (op : Operation) → is_where_op op ≡ true → is_create op ≡ false
is_create-where_op create w = absurd (cc w)
is_create-where_op create_many w = absurd (cc w)
is_create-where_op _ w = refl

module _ (k v : String) (row : Object) where
  All-right : (m : Object) → Meets m row → All (λ e. (e.0 ≡ k) ⊎ (lookup e.0 row ≡ some e.1)) m
  All-right [] h = tt
  All-right ((j, w) ∷ m) (p, h) = (inr p, All-right m h)

  Meets-insert :
      (m : Object)
      → Meets (insert k v m) row
      → (lookup k row ≡ some v) × All (λ e. (e.0 ≡ k) ⊎ (lookup e.0 row ≡ some e.1)) m
  unfolding insert
  Meets-insert [] (h, rest) = (h, tt)
  Meets-insert ((j, w) ∷ m) h = elim (Bool-cases (j == k)) [
    | inl e ↦
        let same : j ≡ k = (eq_iff j k).0 e in
        let (here, rest) = rw e at h in (rw (← same) here, (inl same, All-right m rest))
    | inr e ↦
        let (here, rest) = rw e at h in
        let (found, more) = Meets-insert m rest in (found, (inr here, more))
  ]

  insert-Meets : (m : Object) → lookup k row ≡ some v → Meets m row → Meets (insert k v m) row
  unfolding insert
  insert-Meets [] e h = (e, tt)
  insert-Meets ((j, w) ∷ m) e (p, h) = elim (Bool-cases (j == k)) [
    | inl s ↦ rw (s, (eq_iff j k).0 s) (e, h)
    | inr s ↦ rw s (p, insert-Meets m e h)
  ]

-- What the extension makes of the arguments `a` within a tenant, where it gives `b`: a query of `WHERE_OPS`
-- reaches the tenant's rows only, asks for no less than before on the other columns, and still reaches
-- every row of the tenant that it asked for; what `create` and `createMany` create is the tenant's; and
-- every other query runs with its arguments as they are.
pub record IsConfined (tenant_id : String) (op : Operation) (a b : Args) : Type 0 where
  pub own : is_where_op op ≡ true → (row : Object) → Meets b.where' row → IsOf tenant_id row
  pub narrow :
      is_where_op op ≡ true
      → (row : Object) → Meets b.where' row
      → All (λ e. (e.0 ≡ "tenantId") ⊎ (lookup e.0 row ≡ some e.1)) a.where'
  pub complete : (row : Object) → IsOf tenant_id row → Meets a.where' row → Meets b.where' row
  pub stamped : is_create op ≡ true → All (IsOf tenant_id) (objects b.data')
  pub other : is_where_op op ≡ false → is_create op ≡ false → b ≡ a

module _ (t : String) where
  All-stamped : (ds : List Object) → All (IsOf t) (map (with_tenant t) ds)
  All-stamped [] = tt
  All-stamped (d ∷ ds) = (lookup-insert_self "tenantId" t d, All-stamped ds)

  data_with_tenant-IsOf : (d : Data) → All (IsOf t) (objects (data_with_tenant t d))
  data_with_tenant-IsOf (one d) = (lookup-insert_self "tenantId" t d, tt)
  data_with_tenant-IsOf (several ds) = All-stamped ds

  scope_args-IsConfined : (op : Operation) (a : Args) → IsConfined t op a (scope_args t op a)
  unfolding scope_args
  scope_args-IsConfined op a = elim (Bool-cases (is_where_op op)) [
    | inl w ↦
        rw (w, scope_args)
          (record {
            own = λ _ row h. (Meets-insert "tenantId" t row a.where' h).0;
            narrow = λ _ row h. (Meets-insert "tenantId" t row a.where' h).1;
            complete = λ row o h. insert-Meets "tenantId" t row a.where' o h;
            stamped = λ c. absurd (cc (is_create-where_op op w, c));
            other = λ v c. absurd (cc (v, w));
          })
    | inr w ↦ elim (Bool-cases (is_create op)) [
      | inl c ↦
          rw (w, c, scope_args)
            (record {
              own = λ v row h. absurd (cc (v, w));
              narrow = λ v row h. absurd (cc (v, w));
              complete = λ row o h. h;
              stamped = λ _. data_with_tenant-IsOf a.data';
              other = λ v k. absurd (cc (k, c));
            })
      | inr c ↦
          rw (w, c, scope_args)
            (record {
              own = λ v row h. absurd (cc (v, w));
              narrow = λ v row h. absurd (cc (v, w));
              complete = λ row o h. h;
              stamped = λ v. absurd (cc (v, c));
              other = λ v k. refl;
            })
    ]
  ]

-- Within a tenant the queries on a model that carries one are confined to it, as far as the extension goes.
pub scope-IsConfined :
    (ctx : TenantStore) (model : Model) (op : Operation) (a : Args)
    → ctx.tenant_id ≢ ""
    → is_tenant_scoped model ≡ true
    → IsConfined ctx.tenant_id op a (scope (some ctx) model op a)
unfolding scope
scope-IsConfined ctx model op a filled scoped =
    let named : (ctx.tenant_id == "") ≡ false = ground (arith, eq_iff ctx.tenant_id "") in
    rw (named, scoped, scope) (scope_args-IsConfined ctx.tenant_id op a)

-- Where the guards let a request through to a route that is not public, its header carries a token that
-- verifies and its user may call the route. Where that token names a tenant, the queries that the request
-- makes through the scoped client on a model that carries a tenant are treated so: those with an
-- operation of `WHERE_OPS` reach that tenant's rows only, and no fewer of them than they asked for; what
-- `create` and `createMany` create is that tenant's; every other operation runs with its arguments
-- unchanged, so that the caller has to name the tenant.
pub admit-IsConfined :
    (verify : Text → Option AuthUser) (header : Option Text) (r : Route)
    → is_public r ≡ false
    → admit r (authenticate verify header).user ≡ allowed
    → (u : AuthUser) × IsSignedIn verify header u
      × MayCall r (some u)
      × (u.tenant_id ≢ ""
          → (model : Model) (op : Operation) (a : Args) → is_tenant_scoped model ≡ true
          → IsConfined u.tenant_id op a (scope (authenticate verify header).store model op a))
admit-IsConfined verify header r closed passed =
    let may = admit-MayCall r (authenticate verify header).user passed in
    elim may.known [
      | inl e ↦ absurd (cc (e, closed))
      | inr (u, e) ↦
          let (context, signed) = authenticate-IsSignedIn verify header u e in
          (
            u,
            signed,
            subst (MayCall r) e may,
            λ filled model op a scoped. rw context (
                scope-IsConfined
                  (record {
                    tenant_id = u.tenant_id;
                    user_id = u.sub;
                    role = u.role;
                    client_id = u.client_id;
                  })
                  model op a filled scoped),
          )
    ]
