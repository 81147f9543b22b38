-- ===== src/QrLogin/Sessions.antt =====
-- How the requests of apps/api/src/auth/qr/qr-login.service.ts change one session.
use ad_link.Common.{
  ℕ, ◌+◌, ◌*◌, Bool, true, false, none, some, String, List, [], ◌∷◌, ◌≡◌, ◌≢◌, ◌==◌, string_eq, ◌⊎◌,
  inl, inr, refl, arith, eq_iff, Option-cases, Bool-cases, ◌∙◌, ap, subst,
}
use ad_link.QrLogin.{
  ttl_seconds, IssuedAuth, Status, pending, approved, Session, Redis, expired, unauthorized,
  waiting, delivered, start, status, info, remaining, approve, Event, begin, poll, look, grant,
  pass, step,
}

-- The event opens a session under this id.
abbrev pub is_opening : String → Event → Bool
is_opening qr_id (begin q secret) = q == qr_id
is_opening qr_id (poll q secret) = false
is_opening qr_id (look q gap) = false
is_opening qr_id (grant q auth gap) = false
is_opening qr_id (pass ms) = false

-- The event asks for the approval of the session under this id.
abbrev pub is_grant : String → Event → Bool
is_grant qr_id (begin q secret) = false
is_grant qr_id (poll q secret) = false
is_grant qr_id (look q gap) = false
is_grant qr_id (grant q auth gap) = q == qr_id
is_grant qr_id (pass ms) = false

-- The milliseconds that pass between requests.
abbrev pub ms_of : Event → ℕ
ms_of (begin q secret) = 0
ms_of (poll q secret) = 0
ms_of (look q gap) = 0
ms_of (grant q auth gap) = 0
ms_of (pass ms) = ms

abbrev pub total_ms : List Event → ℕ
total_ms [] = 0
total_ms (e ∷ es) = ms_of e + total_ms es

abbrev pub ttl_ms : ℕ
ttl_ms = ttl_seconds * 1000

-- The time that an approval may still add to a session.
abbrev pub addition : ℕ → Status → ℕ
addition extra pending = extra
addition extra approved = 0

pub Status-cases : (t : Status) → (t ≡ pending) ⊎ (t ≡ approved)
Status-cases pending = inl refl
Status-cases approved = inr refl

module _ (redis : Redis) where
  pub status-absent :
      (q x : String) (s : redis.State) → redis.get q s ≡ none → status redis q x s ≡ (s, expired)
  unfolding status
  status-absent q x s e = rw (e, status)

  pub status-wrong :
      (q x : String) (v : Session) (s : redis.State)
      → redis.get q s ≡ some v
      → (v.secret == x) ≡ false
      → status redis q x s ≡ (s, unauthorized)
  unfolding status
  status-wrong q x v s e w = rw (e, w, status)

  pub status-pending :
      (q x : String) (v : Session) (s : redis.State)
      → redis.get q s ≡ some v
      → (v.secret == x) ≡ true
      → v.status ≡ pending
      → status redis q x s ≡ (s, waiting)
  unfolding status
  status-pending q x v s e w p = rw (e, w, p, status)

  pub status-approved :
      (q x : String) (v : Session) (s : redis.State)
      → redis.get q s ≡ some v
      → (v.secret == x) ≡ true
      → v.status ≡ approved
      → status redis q x s ≡ (redis.del q s, delivered v.auth)
  unfolding status
  status-approved q x v s e w p = rw (e, w, p, status)

  -- A poll leaves the state as it is, or drops the session.
  pub status-state :
      (q x : String) (s : redis.State)
      → ((status redis q x s).0 ≡ s) ⊎ ((status redis q x s).0 ≡ redis.del q s)
  status-state q x s = elim (Option-cases (redis.get q s)) [
    | inl e ↦ inl (ap (λ p. p.0) (status-absent q x s e))
    | inr (v, e) ↦ elim (Bool-cases (v.secret == x)) [
      | inr w ↦ inl (ap (λ p. p.0) (status-wrong q x v s e w))
      | inl w ↦ elim (Status-cases v.status) [
        | inl p ↦ inl (ap (λ p. p.0) (status-pending q x v s e w p))
        | inr p ↦ inr (ap (λ p. p.0) (status-approved q x v s e w p))
      ]
    ]
  ]

  pub info-state :
      (q : String) (gap : ℕ) (s : redis.State)
      → ((info redis q gap s).0 ≡ s) ⊎ ((info redis q gap s).0 ≡ redis.wait gap s)
  unfolding info
  info-state q gap s = elim (Option-cases (redis.get q s)) [
    | inl e ↦ inl (rw (e, info))
    | inr (v, e) ↦ inr (rw (e, info))
  ]

  -- An approval leaves the state as it is, or stores the pending session again, for the time that `TTL`
  -- answered or for the whole of the five minutes.
  pub approve-state :
      (q : String) (a : IssuedAuth) (gap : ℕ) (s : redis.State)
      → ((approve redis q a gap s).0 ≡ s)
        ⊎ ((v : Session) × (redis.get q s ≡ some v)
            × (v.status ≡ pending)
            × ((approve redis q a gap s).0
                ≡ redis.set_ex q
                    (record v { status = approved; auth = some a })
                    (remaining redis (redis.ttl q (redis.wait gap s)))
                    (redis.wait gap s)))
  unfolding approve
  approve-state q a gap s = elim (Option-cases (redis.get q s)) [
    | inl e ↦ inl (rw (e, approve))
    | inr (v, e) ↦ elim (Status-cases v.status) [
      | inr p ↦ inl (rw (e, p, approve))
      | inl p ↦ inr (v, e, p, rw (e, p, approve))
    ]
  ]

  wait-absent :
      (q : String) (ms : ℕ) (s : redis.State)
      → redis.get q s ≡ none
      → redis.get q (redis.wait ms s) ≡ none
  wait-absent q ms s a = elim (Option-cases (redis.get q (redis.wait ms s))) [
    | inl e ↦ e
    | inr (v, e) ↦ absurd (cc (a, redis.get-wait_some q v ms s e))
  ]

  pub differs : (k q : String) → (k == q) ≡ false → q ≢ k
  differs k q e = λ f. ground (arith, eq_iff k q, f)

  -- Only its opening makes a session.
  pub step-absent :
      (q : String) (e : Event) (s : redis.State)
      → is_opening q e ≡ false
      → redis.get q s ≡ none
      → redis.get q (step redis e s).0 ≡ none
  unfolding step start
  step-absent q (begin k y) s o a = redis.get-set_ex_other k q _ _ s (differs k q o) ∙ a
  step-absent q (look k gap) s o a = elim (info-state k gap s) [
    | inl e ↦ rw e a
    | inr e ↦ rw e (wait-absent q gap s a)
  ]
  step-absent q (pass ms) s o a = wait-absent q ms s a
  step-absent q (poll k y) s o a = elim (status-state k y s) [
    | inl e ↦ rw e a
    | inr e ↦ rw e (elim (Bool-cases (k == q)) [
      | inl d ↦
          subst (λ j. redis.get j (redis.del k s) ≡ none) ((eq_iff k q).0 d) (redis.get-del k s)
      | inr d ↦ redis.get-del_other k q s (differs k q d) ∙ a
    ])
  ]
  step-absent q (grant k auth gap) s o a = elim (approve-state k auth gap s) [
    | inl e ↦ rw e a
    | inr (v, found, p, e) ↦ rw e (elim (Bool-cases (k == q)) [
      | inl d ↦ absurd (cc ((eq_iff k q).0 d, found, a))
      | inr d ↦ redis.get-set_ex_other k q _ _ _ (differs k q d) ∙ wait-absent q gap s a
    ])
  ]
