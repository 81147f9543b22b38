-- ===== src/QrLogin/InTime.antt =====
-- That a desktop is signed in by apps/api/src/auth/qr/qr-login.service.ts where its session is approved
-- in time.
use ad_link.Common.{
  ℕ, ◌+◌, ◌-◌, ◌<◌, ◌≤◌, none, some, String, [], ◌∷◌, ◌≡◌, refl, arith, ◌∙◌, ap, beq_refl,
  string_eq,
}
use ad_link.QrLogin.{
  ttl_seconds, IssuedAuth, pending, approved, Session, Redis, delivered, granted, start, status,
  approve, begin, grant, pass, step, run,
}
use ad_link.QrLogin.Sessions.{ttl_ms, status-approved}
use ad_link.QrLogin.Bounds.{again, again_positive, again_enough}

module _ (redis : Redis) where
  -- An approval of a pending session stores it for no less than the time that it had left when `TTL` was
  -- asked, to less than a second.
  approve-get :
      (q : String) (a : IssuedAuth) (gap : ℕ) (v : Session) (s : redis.State)
      → redis.get q s ≡ some v
      → v.status ≡ pending
      → redis.left q s ≤ ttl_ms
      → let s' = (approve redis q a gap s).0 in
        (redis.get q s' ≡ some (record v { status = approved; auth = some a }))
        × (redis.left q s ≤ redis.left q s' + 999 + gap)
  unfolding approve
  approve-get q a gap v s e p most =
      rw
        (
          e,
          p,
          approve,
          redis.left-set_ex q (record v { status = approved; auth = some a }) (again redis q gap s)
              (redis.wait gap s),
        )
        (redis.get-set_ex q _ _ _ (again_positive redis q gap s), again_enough redis q gap s most)

  -- A session that was opened less than five minutes ago waits for its approval.
  pub get-start :
      (q x : String) (m : ℕ) (s : redis.State)
      → m < ttl_ms
      → let s' = redis.wait m (start redis q x s).0 in
        (redis.get q s' ≡ some (record { status = pending; secret = x; auth = none }))
        × (redis.left q s' ≡ ttl_ms - m)
  unfolding start
  get-start q x m s h =
      let fresh : Session = record { status = pending; secret = x; auth = none } in
      let s₁ : redis.State = redis.set_ex q fresh ttl_seconds s in
      let now = redis.get-set_ex q fresh ttl_seconds s (omega arith) in
      let time = redis.left-set_ex q fresh ttl_seconds s in
      (
        redis.get-wait_early q m s₁ (rw time (omega (arith, h))) ∙ now,
        rw (redis.left-wait q m s₁, time) refl,
      )

  pub approve-granted :
      (q : String) (a : IssuedAuth) (gap : ℕ) (v : Session) (s : redis.State)
      → redis.get q s ≡ some v
      → v.status ≡ pending
      → (approve redis q a gap s).1 ≡ granted
  unfolding approve
  approve-granted q a gap v s e p = rw (e, p, approve) refl

  -- A session that is approved in time signs the desktop in: where the approval comes `m` milliseconds
  -- after the opening and takes `gap` of them, the first poll with the session's secret, `n` after it,
  -- gets what the provider issued, if that is a second less than five minutes in all.
  pub status-delivers :
      (q x : String) (a : IssuedAuth) (m gap n : ℕ) (s : redis.State)
      → m + gap + n + 1000 ≤ ttl_ms
      → (status redis q x (run redis (begin q x ∷ pass m ∷ grant q a gap ∷ pass n ∷ []) s)).1
        ≡ delivered (some a)
  unfolding run step
  status-delivers q x a m gap n s h =
      let (later, time) = get-start q x m s (omega arith) in
      let s₁ : redis.State = redis.wait m (start redis q x s).0 in
      let (stored, kept) = approve-get q a gap _ s₁ later refl (rw time (omega arith)) in
      let s₂ : redis.State = (approve redis q a gap s₁).0 in
      let last = redis.get-wait_early q n s₂ (omega (arith, h, time, kept)) ∙ stored in
      ap (λ p. p.1) (status-approved redis q x _ _ last (beq_refl x) refl)
