-- ===== src/QrLogin/Slots.antt =====
-- Redis as a list of sessions with the milliseconds that they have left: the laws on which
-- apps/api/src/auth/qr/qr-login.service.ts relies can hold. `TTL` rounds to the nearest second.
use ad_link.Common.{
  ℕ, ◌-◌, ◌+◌, ◌*◌, ◌/◌, ◌<◌, ◌≤◌, Option, none, some, String, ◌≡◌, ◌≢◌, inl, inr, refl, ◌==◌,
  string_eq, ltb, if◌then◌else◌, eq_iff, arith, Bool-cases, ap, ◌∙◌, beq_refl,
}
use ad_link.QrLogin.{Session, Redis}

-- What is stored under a key, with the milliseconds it has left.
abbrev pub Slots : Type 0
Slots = String → Option (Session × ℕ)

abbrev pub alive : Option (Session × ℕ) → Option Session
alive none = none
alive (some (v, n)) = if ltb 0 n then some v else none

abbrev pub left_of : Option (Session × ℕ) → ℕ
left_of none = 0
left_of (some (v, n)) = n

abbrev pub aged : ℕ → Option (Session × ℕ) → Option (Session × ℕ)
aged t none = none
aged t (some (v, n)) = some (v, n - t)

abbrev pub rounded : ℕ → ℕ
rounded ms = (ms + 500) / 1000

pub rounded_low : (ms : ℕ) → rounded ms * 1000 ≤ ms + 999
rounded_low ms = omega arith

pub rounded_high : (ms : ℕ) → ms ≤ rounded ms * 1000 + 999
rounded_high ms = omega arith

pub alive-aged_early :
    (t : ℕ) (o : Option (Session × ℕ)) → t < left_of o → alive (aged t o) ≡ alive o
alive-aged_early t none h = refl
alive-aged_early t (some (v, n)) h = ground arith

pub alive-aged_late : (t : ℕ) (o : Option (Session × ℕ)) → left_of o < t → alive (aged t o) ≡ none
alive-aged_late t none h = refl
alive-aged_late t (some (v, n)) h = ground arith

pub alive-aged-some :
    (t : ℕ) (o : Option (Session × ℕ)) (v : Session) → alive (aged t o) ≡ some v → alive o ≡ some v
alive-aged-some t none v h = h
alive-aged-some t (some (w, n)) v h = ground arith

pub left_of-aged : (t : ℕ) (o : Option (Session × ℕ)) → left_of (aged t o) ≡ left_of o - t
left_of-aged t none = omega arith
left_of-aged t (some (v, n)) = refl

pub alive-some : (v : Session) (n : ℕ) → 0 < n → alive (some (v, n)) ≡ some v
alive-some v n h = ground arith

abbrev pub put : String → Option (Session × ℕ) → Slots → Slots
put k o s j = if j == k then o else s j

pub put_self : (k : String) (o : Option (Session × ℕ)) (s : Slots) → put k o s k ≡ o
put_self k o s = rw (beq_refl k)

pub put-other : (k j : String) (o : Option (Session × ℕ)) (s : Slots) → j ≢ k → put k o s j ≡ s j
put-other k j o s other = elim (Bool-cases (j == k)) [
  | inl e ↦ absurd (other ((eq_iff j k).0 e))
  | inr e ↦ rw e
]

abbrev pub slots : Redis
slots = record {
  State = Slots;
  get = λ k s. alive (s k);
  set_ex = λ k v n s. put k (some (v, n * 1000)) s;
  del = λ k s. put k none s;
  ttl = λ k s. rounded (left_of (s k));
  left = λ k s. left_of (s k);
  wait = λ t s k. aged t (s k);
  get-set_ex = λ k v n s h.
      ap alive (put_self k (some (v, n * 1000)) s) ∙ alive-some v (n * 1000) (omega (arith, h));
  get-set_ex_other = λ k j v n s h. ap alive (put-other k j (some (v, n * 1000)) s h);
  left-set_ex = λ k v n s. ap left_of (put_self k (some (v, n * 1000)) s);
  left-set_ex_other = λ k j v n s h. ap left_of (put-other k j (some (v, n * 1000)) s h);
  get-del = λ k s. ap alive (put_self k none s);
  get-del_other = λ k j s h. ap alive (put-other k j none s h);
  left-del_other = λ k j s h. ap left_of (put-other k j none s h);
  get-wait_early = λ k ms s h. alive-aged_early ms (s k) h;
  get-wait_late = λ k ms s h. alive-aged_late ms (s k) h;
  get-wait_some = λ k v ms s h. alive-aged-some ms (s k) v h;
  left-wait = λ k ms s. left_of-aged ms (s k);
  ttl_low = λ k s. rounded_low (left_of (s k));
  ttl_high = λ k s. rounded_high (left_of (s k));
}

abbrev pub nothing : Slots
nothing k = none
