-- ===== src/QrLogin/Bounds.antt =====
-- How long a session of apps/api/src/auth/qr/qr-login.service.ts can live, and that its secret stays.
use ad_link.Common.{
  ℕ, ◌+◌, ◌*◌, ◌<◌, ◌≤◌, Bool, false, some, String, List, [], ◌∷◌, ◌≡◌, ◌≢◌, ◌==◌, string_eq, ltb,
  ◌⊎◌, inl, inr, refl, arith, eq_iff, Bool-cases, sym, ◌∙◌, ap, subst, any,
}
use ad_link.QrLogin.{
  ttl_seconds, IssuedAuth, approved, Session, Redis, start, remaining, approve, Event, begin, poll,
  look, grant, pass, step, run,
}
use ad_link.QrLogin.Sessions.{
  is_opening, is_grant, ms_of, total_ms, ttl_ms, addition, status-state, info-state, approve-state,
  differs,
}

-- Where `extra` is less than the five minutes that an approval may add, nobody asks for one.
abbrev pub MayAdd : ℕ → Bool → Type 0
MayAdd extra asked = (asked ≡ false) ⊎ (ttl_ms ≤ extra)

module _ (redis : Redis) where
  abbrev pub again : String → ℕ → redis.State → ℕ
  again q gap s = remaining redis (redis.ttl q (redis.wait gap s))

  pub again_positive : (q : String) (gap : ℕ) (s : redis.State) → 0 < again q gap s
  again_positive q gap s = ground arith

  -- What an approval stores the session for is a whole five minutes, or what was left of it, to less
  -- than a second.
  pub again_bound :
      (q : String) (gap : ℕ) (s : redis.State)
      → (again q gap s ≡ ttl_seconds) ⊎ (again q gap s * 1000 ≤ redis.left q s + 999)
  again_bound q gap s =
      let t = redis.ttl q (redis.wait gap s) in
      let low = redis.ttl_low q (redis.wait gap s) in
      let time = redis.left-wait q gap s in
      elim (Bool-cases (ltb 0 t)) [
        | inr e ↦ inl (rw e refl)
        | inl e ↦ inr (rw e (omega (arith, low, time)))
      ]

  pub again_enough :
      (q : String) (gap : ℕ) (s : redis.State)
      → redis.left q s ≤ ttl_ms
      → redis.left q s ≤ again q gap s * 1000 + 999 + gap
  again_enough q gap s most =
      let t = redis.ttl q (redis.wait gap s) in
      let high = redis.ttl_high q (redis.wait gap s) in
      let time = redis.left-wait q gap s in
      elim (Bool-cases (ltb 0 t)) [
        | inr e ↦ rw e (omega (arith, most))
        | inl e ↦ rw e (omega (arith, high, time))
      ]

  module _ (extra limit : ℕ) (q x : String) where
    -- What holds of the session under one id when `spent` milliseconds have passed: its secret, and a
    -- bound on the time that it has left, with what an approval may add.
    abbrev pub HasSession : ℕ → redis.State → Type 0
    HasSession spent s =
        (v : Session)
        → redis.get q s ≡ some v
        → (v.secret ≡ x) × (redis.left q s + addition extra v.status + spent ≤ limit)

    -- A command on another key keeps what holds of the session.
    set_ex-HasSession :
        (k : String) (spent n : ℕ) (v : Session) (s : redis.State)
        → q ≢ k
        → HasSession spent s
        → HasSession spent (redis.set_ex k v n s)
    set_ex-HasSession k spent n v s other h =
        rw (redis.get-set_ex_other k q v n s other, redis.left-set_ex_other k q v n s other) h

    del-HasSession :
        (k : String) (spent : ℕ) (s : redis.State)
        → HasSession spent s
        → HasSession spent (redis.del k s)
    del-HasSession k spent s h = elim (Bool-cases (k == q)) [
      | inl e ↦ λ v f. absurd (cc ((eq_iff k q).0 e, redis.get-del k s, f))
      | inr e ↦
          let other = differs redis k q e in
          rw (redis.get-del_other k q s other, redis.left-del_other k q s other) h
    ]

    pass-HasSession :
        (ms spent : ℕ) (s : redis.State)
        → HasSession spent s
        → HasSession (ms + spent) (redis.wait ms s)
    pass-HasSession ms spent s h = λ v f.
        let (secret, time) = h v (redis.get-wait_some q v ms s f) in
        elim (Bool-cases (ltb (redis.left q s) ms)) [
          | inl late ↦ absurd (cc (f, redis.get-wait_late q ms s (ground (arith, late))))
          | inr early ↦ (secret, rw (redis.left-wait q ms s) (ground (arith, early, time)))
        ]

    -- Time that is not counted keeps it too.
    wait-HasSession :
        (ms spent : ℕ) (s : redis.State) → HasSession spent s → HasSession spent (redis.wait ms s)
    wait-HasSession ms spent s h = λ v f.
        let (secret, time) = pass-HasSession ms spent s h v f in (secret, omega (arith, time))

    approve-HasSession :
        (k : String) (spent gap : ℕ) (a : IssuedAuth) (s : redis.State)
        → MayAdd extra (k == q)
        → HasSession spent s
        → HasSession spent (approve redis k a gap s).0
    approve-HasSession k spent gap a s may h = elim (approve-state redis k a gap s) [
      | inl e ↦ rw e h
      | inr (v, found, p, e) ↦ rw e (elim (Bool-cases (k == q)) [
        | inr d ↦
            set_ex-HasSession k spent _ _ _ (differs redis k q d) (wait-HasSession gap spent s h)
        | inl d ↦
            let same : k ≡ q = (eq_iff k q).0 d in
            let found' : redis.get q s ≡ some v = subst (λ j. redis.get j s ≡ some v) same found in
            let (secret, time) = h v found' in
            let stored : Session = record v { status = approved; auth = some a } in
            subst (λ j. HasSession spent (redis.set_ex j stored (again j gap s) (redis.wait gap s)))
              (sym same)
              (λ w f.
                let now = redis.get-set_ex q stored _ (redis.wait gap s) (again_positive q gap s) in
                let eq : some stored ≡ some w = sym now ∙ f in
                let eq' : stored ≡ w = cc in
                let time' : redis.left q s + extra + spent ≤ limit = rw p at time in
                (
                  sym (ap (λ u. u.secret) eq') ∙ secret,
                  rw (← eq', redis.left-set_ex q stored (again q gap s) (redis.wait gap s))
                      (elim may [
                        | inl calm ↦ absurd (cc (calm, d))
                        | inr enough ↦ elim (again_bound q gap s) [
                          | inl whole ↦ rw whole (omega (arith, time', enough))
                          | inr less ↦ omega (arith, time', enough, less)
                        ]
                      ]),
                ))
      ])
    ]

    at_once : (spent : ℕ) (s : redis.State) → HasSession spent s → HasSession (0 + spent) s
    at_once spent s h = λ v f. let (secret, time) = h v f in (secret, omega (arith, time))

    -- Every event but the opening of the session keeps its secret, and counts its time.
    pub step-HasSession :
        (spent : ℕ) (e : Event) (s : redis.State)
        → is_opening q e ≡ false
        → MayAdd extra (is_grant q e)
        → HasSession spent s
        → HasSession (ms_of e + spent) (step redis e s).0
    unfolding step start
    step-HasSession spent (begin k y) s o m h =
        at_once spent _ (set_ex-HasSession k spent _ _ s (differs redis k q o) h)
    step-HasSession spent (poll k y) s o m h = elim (status-state redis k y s) [
      | inl e ↦ rw e (at_once spent s h)
      | inr e ↦ rw e (at_once spent _ (del-HasSession k spent s h))
    ]
    step-HasSession spent (look k gap) s o m h = elim (info-state redis k gap s) [
      | inl e ↦ rw e (at_once spent s h)
      | inr e ↦ rw e (at_once spent _ (wait-HasSession gap spent s h))
    ]
    step-HasSession spent (grant k a gap) s o m h =
        at_once spent _ (approve-HasSession k spent gap a s m h)
    step-HasSession spent (pass ms) s o m h = pass-HasSession ms spent s h

    pub run-HasSession :
        (spent : ℕ) (es : List Event) (s : redis.State)
        → any (is_opening q) es ≡ false
        → MayAdd extra (any (is_grant q) es)
        → HasSession spent s
        → HasSession (total_ms es + spent) (run redis es s)
    unfolding run
    run-HasSession spent [] s o m h = at_once spent s h
    run-HasSession spent (e ∷ es) s o m h =
        let first : MayAdd extra (is_grant q e) = elim m [
          | inl calm ↦ inl (ground (arith, calm))
          | inr enough ↦ inr enough
        ] in
        let others : MayAdd extra (any (is_grant q) es) = elim m [
          | inl calm ↦ inl (ground (arith, calm))
          | inr enough ↦ inr enough
        ] in
        let rest =
          run-HasSession (ms_of e + spent) es (step redis e s).0 (ground arith) others
            (step-HasSession spent e s (ground arith) first h) in
        λ v f. let (secret, time) = rest v f in (secret, omega (arith, time))
