-- ===== src/Access/Guards.antt =====
-- Whom the guards of apps/api/src/common let through.
use ad_link.Common.{
  true, Option, none, some, List, [], ◌∷◌, Text, ◌≡◌, ◌⊎◌, inl, inr, refl, ap, subst, Bool-cases,
  Option-cases,
}
use ad_link.Core.Enums.{Role}
use ad_link.Access.{
  AuthUser, Route, Verdict, allowed, unauthorized, forbidden, is_public, jwt_guard, roles_of,
  includes, roles_guard, admit, bearer, after_prefix, authenticate, context_of,
}

-- The user may call the route: somebody is signed in, or the route is public, and one of the roles that
-- the route asks for, if it asks for any, is the user's.
pub record MayCall (r : Route) (user : Option AuthUser) : Type 0 where
  pub known : (is_public r ≡ true) ⊎ ((u : AuthUser) × (user ≡ some u))
  pub entitled :
      (roles_of r ≡ []) ⊎ ((u : AuthUser) × (user ≡ some u) × (includes (roles_of r) u.role ≡ true))

roles_guard-allowed :
    (r : Route) (user : Option AuthUser) (roles : List Role)
    → roles_of r ≡ roles
    → roles_guard r user ≡ allowed
    → (roles ≡ []) ⊎ ((u : AuthUser) × (user ≡ some u) × (includes roles u.role ≡ true))
unfolding roles_guard
roles_guard-allowed r user [] e h = inl refl
roles_guard-allowed r none (role ∷ roles) e h = absurd (cc (rw (e, roles_guard) at h))
roles_guard-allowed r (some u) (role ∷ roles) e h =
    elim (Bool-cases (includes (role ∷ roles) u.role)) [
      | inl k ↦ inr (u, refl, k)
      | inr k ↦ absurd (cc (rw (e, k, roles_guard) at h))
    ]

Verdict-cases : (v : Verdict) → (v ≡ allowed) ⊎ ((v ≡ unauthorized) ⊎ (v ≡ forbidden))
Verdict-cases allowed = inl refl
Verdict-cases unauthorized = inr (inl refl)
Verdict-cases forbidden = inr (inr refl)

jwt_guard-allowed :
    (r : Route) (user : Option AuthUser)
    → jwt_guard r user ≡ allowed
    → (is_public r ≡ true) ⊎ ((u : AuthUser) × (user ≡ some u))
unfolding jwt_guard
jwt_guard-allowed r (some u) h = inr (u, refl)
jwt_guard-allowed r none h = elim (Bool-cases (is_public r)) [
  | inl k ↦ inl k
  | inr k ↦ absurd (cc (rw (k, jwt_guard) at h))
]

admit-parts :
    (r : Route) (user : Option AuthUser)
    → admit r user ≡ allowed
    → (jwt_guard r user ≡ allowed) × (roles_guard r user ≡ allowed)
unfolding admit
admit-parts r user h = elim (Verdict-cases (jwt_guard r user)) [
  | inl e ↦ (e, rw (e, admit) at h)
  | inr (inl e) ↦ absurd (cc (rw (e, admit) at h))
  | inr (inr e) ↦ absurd (cc (rw (e, admit) at h))
]

-- A request passes the guards only if its user may call the route.
pub admit-MayCall : (r : Route) (user : Option AuthUser) → admit r user ≡ allowed → MayCall r user
admit-MayCall r user h =
    let (j, k) = admit-parts r user h in
    record {
      known = jwt_guard-allowed r user j;
      entitled = roles_guard-allowed r user (roles_of r) refl k;
    }

roles_guard-some :
    (r : Route) (u : AuthUser) (roles : List Role)
    → roles_of r ≡ roles
    → (roles ≡ []) ⊎ (includes roles u.role ≡ true)
    → roles_guard r (some u) ≡ allowed
unfolding roles_guard
roles_guard-some r u [] e h = rw (e, roles_guard)
roles_guard-some r u (role ∷ roles) e (inl k) = absurd (cc k)
roles_guard-some r u (role ∷ roles) e (inr k) = rw (e, k, roles_guard)

-- And every request of a user with a fitting role passes.
pub admit-user :
    (r : Route) (u : AuthUser)
    → (roles_of r ≡ []) ⊎ (includes (roles_of r) u.role ≡ true)
    → admit r (some u) ≡ allowed
unfolding admit jwt_guard
admit-user r u h = roles_guard-some r u (roles_of r) refl h

-- The middleware signs somebody in only by a token that verifies, behind "Bearer ".
pub record IsSignedIn (verify : Text → Option AuthUser) (header : Option Text) (u : AuthUser)
    : Type 0 where
  pub whole : Text
  pub token : Text
  pub given : header ≡ some whole
  pub bears : after_prefix bearer whole ≡ some token
  pub verified : verify token ≡ some u

authenticate-cases :
    (verify : Text → Option AuthUser) (header : Option Text)
    → ((authenticate verify header).user ≡ none)
      ⊎ ((u : AuthUser) × (authenticate verify header ≡ context_of u) × IsSignedIn verify header u)
unfolding authenticate
authenticate-cases verify none = inl refl
authenticate-cases verify (some header) = elim (Option-cases (after_prefix bearer header)) [
  | inl e ↦ inl (rw (e, authenticate))
  | inr (token, e) ↦ elim (Option-cases (verify token)) [
    | inl f ↦ inl (rw (e, f, authenticate))
    | inr (u, f) ↦ inr (
      u,
      rw (e, f, authenticate) refl,
      record { whole = header; token = token; given = refl; bears = e; verified = f },
    )
  ]
]

pub authenticate-IsSignedIn :
    (verify : Text → Option AuthUser) (header : Option Text) (u : AuthUser)
    → (authenticate verify header).user ≡ some u
    → (authenticate verify header ≡ context_of u) × IsSignedIn verify header u
authenticate-IsSignedIn verify header u h = elim (authenticate-cases verify header) [
  | inl e ↦ absurd (cc (e, h))
  | inr (v, e, signed) ↦
      let same : v ≡ u = cc (ap (λ c. c.user) e, h) in
      subst (λ w. (authenticate verify header ≡ context_of w) × IsSignedIn verify header w) same
        (e, signed)
]
