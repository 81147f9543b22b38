-- ===== src/Core/Identity/Email.antt =====
-- What `normalizeEmail` of packages/core/src/identity.ts answers: the matcher against the regular
-- expression that it stands for.
use ad_link.Common.{
  ℕ, true, false, some, [], ◌∷◌, ◌++◌, Text, ◌≡◌, ◌≢◌, ◌↔◌, inl, inr, refl, arith, All, All-append,
  eqb, Bool-cases, ap,
}
use mathlib.Core.List.{reverse, reverse-cons, reverse-reverse}
use ad_link.Core.Identity.{
  is_space, is_plain, lower, trim_start, trim, map_lower, domain_matches, email_matches,
  normalize_email,
}

abbrev pub IsPlain : Text → Type 0
IsPlain s = All (λ c. is_plain c ≡ true) s

-- ^[^@\s]+@[^@\s]+\.[^@\s]+$
pub record IsEmail (e : Text) : Type 0 where
  pub local : Text
  pub host : Text
  pub top : Text
  pub split : e ≡ local ++ b'@' ∷ (host ++ b'.' ∷ top)
  pub local_plain : IsPlain local
  pub host_plain : IsPlain host
  pub top_plain : IsPlain top
  pub local_some : local ≢ []
  pub host_some : host ≢ []
  pub top_some : top ≢ []

-- The domain's part of the expression, where `host` may be empty once a character has been read.
record IsDotted (d : Text) : Type 0 where
  host : Text
  top : Text
  split : d ≡ host ++ b'.' ∷ top
  host_plain : IsPlain host
  top_plain : IsPlain top
  top_some : top ≢ []

last_iff : (t : Text) → (domain_matches true true true t ≡ true) ↔ IsPlain t
unfolding domain_matches
last_iff [] = (λ _. tt, λ _. refl)
last_iff (c ∷ t) = ground (arith, last_iff t)

dot_iff : (t : Text) → (domain_matches true true false t ≡ true) ↔ (IsPlain t × (t ≢ []))
unfolding domain_matches
dot_iff [] = ground arith
dot_iff (c ∷ t) = ground (arith, last_iff t)

dot_plain : is_plain b'.' ≡ true
unfolding is_space
dot_plain = refl

seen_sound : (t : Text) → domain_matches true false false t ≡ true → IsDotted t
unfolding domain_matches
seen_sound [] h = cc
seen_sound (c ∷ t) h = elim (Bool-cases (eqb c b'.')) [
  | inl e ↦
      let (plain, full) = (dot_iff t).0 (ground arith) in
      record {
        host = [];
        top = t;
        split = ground arith;
        host_plain = tt;
        top_plain = plain;
        top_some = full;
      }
  | inr e ↦
      let d = seen_sound t (ground arith) in
      record {
        host = c ∷ d.host;
        top = d.top;
        split = ap (◌∷◌ c) d.split;
        host_plain = (ground arith, d.host_plain);
        top_plain = d.top_plain;
        top_some = d.top_some;
      }
]

append-ne : (host top : Text) → host ++ b'.' ∷ top ≢ []
append-ne [] top = λ e. cc
append-ne (c ∷ host) top = λ e. cc

seen_complete :
    (host top : Text)
    → IsPlain host
    → IsPlain top
    → top ≢ []
    → domain_matches true false false (host ++ b'.' ∷ top) ≡ true
unfolding domain_matches
seen_complete [] top h k full = rw dot_plain ((dot_iff top).1 (k, full))
seen_complete (c ∷ host) top (p, h) k full =
    let ih = seen_complete host top h k full in
    let rest : IsPlain (host ++ b'.' ∷ top) =
      All-append (λ c. is_plain c ≡ true) host (b'.' ∷ top) h (dot_plain, k) in
    let later = (dot_iff (host ++ b'.' ∷ top)).1 (rest, append-ne host top) in
    ground (arith, ih, later)

-- What stands behind `@`.
record IsDomain (d : Text) : Type 0 where
  dotted : IsDotted d
  host_some : dotted.host ≢ []

IsDomain-sound : (d : Text) → domain_matches false false false d ≡ true → IsDomain d
unfolding domain_matches
IsDomain-sound [] h = cc
IsDomain-sound (c ∷ t) h =
    let d = seen_sound t (ground arith) in
    record {
      dotted = record {
        host = c ∷ d.host;
        top = d.top;
        split = ap (◌∷◌ c) d.split;
        host_plain = (ground arith, d.host_plain);
        top_plain = d.top_plain;
        top_some = d.top_some;
      };
      host_some = λ e. cc;
    }

domain_complete :
    (host top : Text)
    → IsPlain host
    → host ≢ []
    → IsPlain top
    → top ≢ []
    → domain_matches false false false (host ++ b'.' ∷ top) ≡ true
unfolding domain_matches
domain_complete [] top h n k full = absurd (n refl)
domain_complete (c ∷ host) top (p, h) n k full = rw p (seen_complete host top h k full)

-- A local part that may be empty once a character has been read.
record IsAddressed (s : Text) : Type 0 where
  local : Text
  rest : Text
  split : s ≡ local ++ b'@' ∷ rest
  local_plain : IsPlain local
  domain : domain_matches false false false rest ≡ true

local_sound : (s : Text) → email_matches true s ≡ true → IsAddressed s
unfolding email_matches
local_sound [] h = cc
local_sound (c ∷ s) h = elim (Bool-cases (eqb c b'@')) [
  | inl e ↦ record {
    local = [];
    rest = s;
    split = ground arith;
    local_plain = tt;
    domain = rw e at h;
  }
  | inr e ↦
      let a = local_sound s (ground arith) in
      record {
        local = c ∷ a.local;
        rest = a.rest;
        split = ap (◌∷◌ c) a.split;
        local_plain = (ground arith, a.local_plain);
        domain = a.domain;
      }
]

local_complete :
    (local rest : Text)
    → IsPlain local
    → domain_matches false false false rest ≡ true
    → email_matches true (local ++ b'@' ∷ rest) ≡ true
unfolding email_matches
local_complete [] rest h d = d
local_complete (c ∷ local) rest (p, h) d = ground (arith, local_complete local rest h d)

email_matches_sound : (s : Text) → email_matches false s ≡ true → IsEmail s
unfolding email_matches
email_matches_sound [] h = cc
email_matches_sound (c ∷ s) h =
    let other : eqb c b'@' ≡ false = ground arith in
    let a = local_sound s (ground arith) in
    let d = IsDomain-sound a.rest a.domain in
    record {
      local = c ∷ a.local;
      host = d.dotted.host;
      top = d.dotted.top;
      split = rw (← d.dotted.split) (ap (◌∷◌ c) a.split);
      local_plain = (ground arith, a.local_plain);
      host_plain = d.dotted.host_plain;
      top_plain = d.dotted.top_plain;
      local_some = λ e. cc;
      host_some = d.host_some;
      top_some = d.dotted.top_some;
    }

email_matches_complete :
    (local host top : Text)
    → IsPlain local
    → local ≢ []
    → IsPlain host
    → host ≢ []
    → IsPlain top
    → top ≢ []
    → email_matches false (local ++ b'@' ∷ (host ++ b'.' ∷ top)) ≡ true
unfolding email_matches
email_matches_complete [] host top l ne h hn t tn = absurd (ne refl)
email_matches_complete (c ∷ local) host top (p, l) ne h hn t tn =
    ground (arith, local_complete local (host ++ b'.' ∷ top) l (domain_complete host top h hn t tn))

-- The matcher decides the regular expression ^[^@\s]+@[^@\s]+\.[^@\s]+$.
pub email_matches_iff : (s : Text) → (email_matches false s ≡ true) ↔ IsEmail s
email_matches_iff s = (
  email_matches_sound s,
  λ e. rw e.split (
      email_matches_complete e.local e.host e.top e.local_plain e.local_some e.host_plain
        e.host_some e.top_plain e.top_some),
)

lower_idem : (c : ℕ) → lower (lower c) ≡ lower c
unfolding lower
lower_idem c = ground arith

map_lower_idem : (s : Text) → map_lower (map_lower s) ≡ map_lower s
unfolding map_lower
map_lower_idem [] = refl
map_lower_idem (c ∷ s) = cc (lower_idem c, map_lower_idem s)

abbrev NoSpace : Text → Type 0
NoSpace s = All (λ c. is_space c ≡ false) s

NoSpace-of_IsPlain : (s : Text) → IsPlain s → NoSpace s
NoSpace-of_IsPlain [] h = tt
NoSpace-of_IsPlain (c ∷ s) (p, h) = (ground arith, NoSpace-of_IsPlain s h)

trim_start_of_NoSpace : (s : Text) → NoSpace s → trim_start s ≡ s
unfolding trim_start
trim_start_of_NoSpace [] h = refl
trim_start_of_NoSpace (c ∷ s) (p, h) = rw p

NoSpace-reverse : (s : Text) → NoSpace s → NoSpace (reverse s)
NoSpace-reverse [] h = tt
NoSpace-reverse (c ∷ s) (p, h) =
    rw reverse-cons
      (All-append (λ c. is_space c ≡ false) (reverse s) (c ∷ []) (NoSpace-reverse s h) (p, tt))

trim_of_NoSpace : (s : Text) → NoSpace s → trim s ≡ s
trim_of_NoSpace s h = rw (
  trim_start_of_NoSpace s h,
  trim_start_of_NoSpace (reverse s) (NoSpace-reverse s h),
  reverse-reverse,
)

at_not_space : is_space b'@' ≡ false
unfolding is_space
at_not_space = refl

dot_not_space : is_space b'.' ≡ false
unfolding is_space
dot_not_space = refl

NoSpace-of_IsEmail : (s : Text) → IsEmail s → NoSpace s
NoSpace-of_IsEmail s e = rw e.split (
    All-append (λ c. is_space c ≡ false) e.local (b'@' ∷ (e.host ++ b'.' ∷ e.top))
      (NoSpace-of_IsPlain e.local e.local_plain)
      (
        at_not_space,
        All-append (λ c. is_space c ≡ false) e.host (b'.' ∷ e.top)
            (NoSpace-of_IsPlain e.host e.host_plain)
            (dot_not_space, NoSpace-of_IsPlain e.top e.top_plain),
      ))

-- An accepted address has the form of the regular expression, is in lower case and has no white
-- space at its ends; and it is its own normal form, so that the same address is found again.
pub normalize_email_idem :
    (raw e : Text)
    → normalize_email raw ≡ some e
    → IsEmail e × (map_lower e ≡ e) × (normalize_email e ≡ some e)
unfolding normalize_email
normalize_email_idem raw e h =
    let same : e ≡ map_lower (trim raw) = ground arith in
    let good : email_matches false e ≡ true = ground arith in
    let form = (email_matches_iff e).0 good in
    let low : map_lower e ≡ e = rw same (map_lower_idem (trim raw)) in
    (form, low, rw (trim_of_NoSpace e (NoSpace-of_IsEmail e form), low, good))
