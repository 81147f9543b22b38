-- ===== src/QrLogin/Delivery.antt =====
-- What apps/api/src/auth/qr/qr-login.service.ts promises: a token goes to one poll at most, to the
-- desktop that opened the session, and no later than the session can live.
use ad_link.Common.{
  ℕ, ◌+◌, ◌<◌, ◌≤◌, Bool, true, false, ◌&&◌, none, some, String, List, [], ◌∷◌, ◌≡◌, ◌≢◌, ◌==◌,
  string_eq, if◌then◌else◌, ◌⊎◌, inl, inr, refl, arith, eq_iff, Option-cases, Bool-cases, sym, ◌∙◌,
  ap, subst, any,
}
use ad_link.QrLogin.{
  ttl_seconds, pending, Session, Redis, Answer, opened, expired, unauthorized, waiting, delivered,
  shown, granted, already, refused, elapsed, start, status, Event, begin, poll, look, grant, pass,
  step, run,
}
use ad_link.QrLogin.Sessions.{
  is_opening, is_grant, total_ms, ttl_ms, step-absent, status-absent, status-wrong, status-pending,
  status-approved, Status-cases,
}
use ad_link.QrLogin.Bounds.{HasSession, run-HasSession}

abbrev pub is_delivered : Answer → Bool
is_delivered (delivered auth) = true
is_delivered (opened q x n) = false
is_delivered expired = false
is_delivered unauthorized = false
is_delivered waiting = false
is_delivered (shown t n) = false
is_delivered granted = false
is_delivered already = false
is_delivered refused = false
is_delivered elapsed = false

-- The event asks for the session's token.
abbrev pub is_poll : String → Event → Bool
is_poll q (poll k y) = k == q
is_poll q (begin k y) = false
is_poll q (look k gap) = false
is_poll q (grant k a gap) = false
is_poll q (pass n) = false

module _ (redis : Redis) where
  -- The number of answers that carry the session's token.
  unfoldable pub deliveries : String → List Event → redis.State → ℕ
  deliveries q [] s = 0
  deliveries q (e ∷ es) s =
      let (s', answer) = step redis e s in
      let rest = deliveries q es s' in if is_poll q e && is_delivered answer then 1 + rest else rest

  -- A poll delivers only if the session is there, and then it is gone.
  delivered-drops :
      (q : String) (e : Event) (s : redis.State)
      → (is_poll q e && is_delivered (step redis e s).1) ≡ true
      → (redis.get q s ≢ none) × (redis.get q (step redis e s).0 ≡ none)
  unfolding step
  delivered-drops q (begin k y) s d = absurd (ground arith)
  delivered-drops q (look k gap) s d = absurd (ground arith)
  delivered-drops q (grant k a gap) s d = absurd (ground arith)
  delivered-drops q (pass n) s d = absurd (ground arith)
  delivered-drops q (poll k y) s d =
      let same : k ≡ q = (eq_iff k q).0 (ground arith) in
      let answered : is_delivered (status redis k y s).1 ≡ true = ground arith in
      subst (λ j. (redis.get j s ≢ none) × (redis.get j (status redis k y s).0 ≡ none)) same
        (elim (Option-cases (redis.get k s)) [
          | inl e ↦ absurd (cc (ap (λ p. is_delivered p.1) (status-absent redis k y s e), answered))
          | inr (v, e) ↦ elim (Bool-cases (v.secret == y)) [
            | inr w ↦
                absurd (cc (ap (λ p. is_delivered p.1) (status-wrong redis k y v s e w), answered))
            | inl w ↦ elim (Status-cases v.status) [
              | inl p ↦
                  absurd
                    (cc (ap (λ p. is_delivered p.1) (status-pending redis k y v s e w p), answered))
              | inr p ↦
                  (λ f. cc (e, f), rw (status-approved redis k y v s e w p) (redis.get-del k s))
            ]
          ]
        ])

  deliveries-absent :
      (q : String) (es : List Event) (s : redis.State)
      → any (is_opening q) es ≡ false
      → redis.get q s ≡ none
      → deliveries q es s ≡ 0
  unfolding deliveries
  deliveries-absent q [] s o a = refl
  deliveries-absent q (e ∷ es) s o a =
      let rest =
        deliveries-absent q es (step redis e s).0 (ground arith)
          (step-absent redis q e s (ground arith) a) in
      elim (Bool-cases (is_poll q e && is_delivered (step redis e s).1)) [
        | inl d ↦ absurd ((delivered-drops q e s d).0 a)
        | inr d ↦ rw d rest
      ]

  -- One-time delivery: over any requests and any passing of time in which the session is not opened
  -- anew, at most one answer carries its token.
  pub deliveries-once :
      (q : String) (es : List Event) (s : redis.State)
      → any (is_opening q) es ≡ false
      → deliveries q es s ≤ 1
  unfolding deliveries
  deliveries-once q [] s o = omega arith
  deliveries-once q (e ∷ es) s o =
      elim (Bool-cases (is_poll q e && is_delivered (step redis e s).1)) [
        | inl d ↦
            rw (d, deliveries-absent q es _ (ground arith) (delivered-drops q e s d).1)
              (omega arith)
        | inr d ↦ rw d (deliveries-once q es _ (ground arith))
      ]

  start-HasSession :
      (extra : ℕ) (q x : String) (s : redis.State)
      → HasSession redis extra (ttl_ms + extra) q x 0 (start redis q x s).0
  unfolding start
  start-HasSession extra q x s v f =
      let fresh : Session = record { status = pending; secret = x; auth = none } in
      let now : some fresh ≡ some v =
        sym (redis.get-set_ex q fresh ttl_seconds s (omega arith)) ∙ f in
      let same : fresh ≡ v = cc in
      (
        sym (ap (λ u. u.secret) same),
        rw (← same, redis.left-set_ex q fresh ttl_seconds s) (omega arith),
      )

  -- The token goes to the desktop only: after `start`, whatever happens and however often the
  -- session is approved, a poll with another secret gets no token and changes nothing.
  pub status-needs_secret :
      (q x y : String) (es : List Event) (s : redis.State)
      → any (is_opening q) es ≡ false
      → y ≢ x
      → (status redis q y (run redis es (start redis q x s).0)
          ≡ (run redis es (start redis q x s).0, unauthorized))
        ⊎ (status redis q y (run redis es (start redis q x s).0)
            ≡ (run redis es (start redis q x s).0, expired))
  status-needs_secret q x y es s o other =
      let s' : redis.State = run redis es (start redis q x s).0 in
      elim (Option-cases (redis.get q s')) [
        | inl e ↦ inr (status-absent redis q y s' e)
        | inr (v, e) ↦
            let (secret, time) =
              run-HasSession redis ttl_ms (ttl_ms + ttl_ms) q x 0 es _ o (inr (omega arith))
                (start-HasSession ttl_ms q x s) v e in
            inl (elim (Bool-cases (v.secret == y)) [
              | inr w ↦ status-wrong redis q y v s' e w
              | inl w ↦ absurd (other (sym ((eq_iff v.secret y).0 w) ∙ secret))
            ])
      ]

  -- The longest that a session can live after `start`: its five minutes, and as much again where its
  -- approval is asked for.
  abbrev pub lifetime_ms : String → List Event → ℕ
  lifetime_ms q es = ttl_ms + (if any (is_grant q) es then ttl_ms else 0)

  run-HasSession-start :
      (q x : String) (es : List Event) (s : redis.State)
      → any (is_opening q) es ≡ false
      → HasSession redis
          (if any (is_grant q) es then ttl_ms else 0)
          (lifetime_ms q es)
          q
          x
          (total_ms es + 0)
          (run redis es (start redis q x s).0)
  run-HasSession-start q x es s o = elim (Bool-cases (any (is_grant q) es)) [
    | inl e ↦ rw e (
        run-HasSession redis ttl_ms (ttl_ms + ttl_ms) q x 0 es _ o (inr (omega arith))
          (start-HasSession ttl_ms q x s))
    | inr e ↦
        rw e (run-HasSession redis 0 (ttl_ms + 0) q x 0 es _ o (inl e) (start-HasSession 0 q x s))
  ]

  -- A session ends: once more than five minutes have passed after `start`, a poll with any secret says
  -- that it has expired, whatever was asked in between, provided that its approval was not asked for;
  -- and where it was, once more than ten have. The time inside of a request, between its two commands,
  -- is not counted.
  pub status-expires :
      (q x y : String) (es : List Event) (s : redis.State)
      → any (is_opening q) es ≡ false
      → lifetime_ms q es < total_ms es
      → status redis q y (run redis es (start redis q x s).0)
        ≡ (run redis es (start redis q x s).0, expired)
  status-expires q x y es s o late =
      let s' : redis.State = run redis es (start redis q x s).0 in
      elim (Option-cases (redis.get q s')) [
        | inl e ↦ status-absent redis q y s' e
        | inr (v, e) ↦
            let (secret, time) = run-HasSession-start q x es s o v e in
            absurd (omega (arith, time, late))
      ]
