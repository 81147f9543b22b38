-- ===== src/QrLogin.antt =====
-- apps/api/src/auth/qr/qr-login.service.ts: the sign-in of a desktop by a code that a phone scans.
-- Redis is a parameter, with the laws of its documentation that the service relies on. Every key of
-- the service is the session's id behind one constant prefix, so that the parameter is keyed by the
-- id; a session is stored as its JSON text, here as the session. Time passes in milliseconds, also
-- between the two commands of one request, where `gap` is the time from `GET` to `TTL`.
use ad_link.Common.{
  ℕ, ◌-◌, ◌+◌, ◌*◌, ◌<◌, ◌≤◌, Bool, true, false, Option, none, some, String, List, [], ◌∷◌, ◌≡◌,
  ◌≢◌, ◌==◌, string_eq, ltb, if◌then◌else◌,
}
pub mod Sessions
pub mod Bounds
pub mod Delivery
pub mod InTime
pub mod Slots
mod Tests

abbrev pub ttl_seconds : ℕ
ttl_seconds = 300

-- What a provider issues; the user is kept as its JSON text.
pub record IssuedAuth : Type 0 where
  pub token : String
  pub user : String

pub data Status : Type 0 where
  pending approved : Status

pub record Session : Type 0 where
  pub status : Status
  pub secret : String
  pub auth : Option IssuedAuth

-- The commands of Redis that the service uses, on keys that expire. `left` is the time that a key has
-- left in milliseconds, and `ttl` the answer to `TTL`: that time in seconds, rounded in some way, and 0
-- where Redis gives a negative number, as it does where the key has expired. `wait` is the passing of
-- time; what a key holds at the very end of its time is left open.
pub record Redis : Type 1 where
  pub State : Type 0
  pub get : String → State → Option Session
  pub set_ex : String → Session → ℕ → State → State
  pub del : String → State → State
  pub ttl : String → State → ℕ
  pub left : String → State → ℕ
  pub wait : ℕ → State → State
  pub get-set_ex :
      (k : String) (v : Session) (n : ℕ) (s : State) → 0 < n → get k (set_ex k v n s) ≡ some v
  pub get-set_ex_other :
      (k j : String) (v : Session) (n : ℕ) (s : State) → j ≢ k → get j (set_ex k v n s) ≡ get j s
  pub left-set_ex :
      (k : String) (v : Session) (n : ℕ) (s : State) → left k (set_ex k v n s) ≡ n * 1000
  pub left-set_ex_other :
      (k j : String) (v : Session) (n : ℕ) (s : State) → j ≢ k → left j (set_ex k v n s) ≡ left j s
  pub get-del : (k : String) (s : State) → get k (del k s) ≡ none
  pub get-del_other : (k j : String) (s : State) → j ≢ k → get j (del k s) ≡ get j s
  pub left-del_other : (k j : String) (s : State) → j ≢ k → left j (del k s) ≡ left j s
  pub get-wait_early :
      (k : String) (ms : ℕ) (s : State) → ms < left k s → get k (wait ms s) ≡ get k s
  pub get-wait_late : (k : String) (ms : ℕ) (s : State) → left k s < ms → get k (wait ms s) ≡ none
  pub get-wait_some :
      (k : String) (v : Session) (ms : ℕ) (s : State)
      → get k (wait ms s) ≡ some v
      → get k s ≡ some v
  pub left-wait : (k : String) (ms : ℕ) (s : State) → left k (wait ms s) ≡ left k s - ms
  pub ttl_low : (k : String) (s : State) → ttl k s * 1000 ≤ left k s + 999
  pub ttl_high : (k : String) (s : State) → left k s ≤ ttl k s * 1000 + 999

-- What the methods answer; `granted`, `already` and `refused` are those of `approve`.
pub data Answer : Type 0 where
  opened : String → String → ℕ → Answer
  expired unauthorized waiting : Answer
  delivered : Option IssuedAuth → Answer
  shown : Option Status → ℕ → Answer
  granted already refused : Answer
  elapsed : Answer

pub data Event : Type 0 where
  begin : String → String → Event
  poll : String → String → Event
  look : String → ℕ → Event
  grant : String → IssuedAuth → ℕ → Event
  pass : ℕ → Event

module _ (redis : Redis) where
  -- `start`, with the two texts that `randomBytes` draws.
  unfoldable pub start : String → String → redis.State → redis.State × Answer
  start qr_id secret s = (
    redis.set_ex qr_id (record { status = pending; secret = secret; auth = none }) ttl_seconds s,
    opened qr_id secret ttl_seconds,
  )

  unfoldable pub status : String → String → redis.State → redis.State × Answer
  status qr_id secret s = elim (redis.get qr_id s) [
    | none ↦ (s, expired)
    | some session ↦
        if session.secret == secret
        then (elim session.status [
          | approved ↦ (redis.del qr_id s, delivered session.auth)
          | pending ↦ (s, waiting)
        ])
        else (s, unauthorized)
  ]

  unfoldable pub info : String → ℕ → redis.State → redis.State × Answer
  info qr_id gap s = elim (redis.get qr_id s) [
    | none ↦ (s, shown none 0)
    | some session ↦
        let s₁ = redis.wait gap s in (s₁, shown (some session.status) (redis.ttl qr_id s₁))
  ]

  -- The time a session is stored for again.
  abbrev pub remaining : ℕ → ℕ
  remaining ttl = if ltb 0 ttl then ttl else ttl_seconds

  unfoldable pub approve : String → IssuedAuth → ℕ → redis.State → redis.State × Answer
  approve qr_id auth gap s = elim (redis.get qr_id s) [
    | none ↦ (s, refused)
    | some session ↦ elim session.status [
      | approved ↦ (s, already)
      | pending ↦
          let s₁ = redis.wait gap s in
          (
            redis.set_ex qr_id (record session { status = approved; auth = some auth })
                (remaining (redis.ttl qr_id s₁)) s₁,
            granted,
          )
    ]
  ]

  -- What can happen: a request to the service, or the passing of time.
  unfoldable pub step : Event → redis.State → redis.State × Answer
  step (begin qr_id secret) s = start qr_id secret s
  step (poll qr_id secret) s = status qr_id secret s
  step (look qr_id gap) s = info qr_id gap s
  step (grant qr_id auth gap) s = approve qr_id auth gap s
  step (pass ms) s = (redis.wait ms s, elapsed)

  unfoldable pub run : List Event → redis.State → redis.State
  run [] s = s
  run (e ∷ es) s = run es (step e s).0
