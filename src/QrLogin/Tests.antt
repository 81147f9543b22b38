-- ===== src/QrLogin/Tests.antt =====
-- Runs of the model of apps/api/src/auth/qr/qr-login.service.ts on a list of slots, and its theorems
-- there.
use ad_link.Common.{
  ◌≤◌, false, some, String, List, [], ◌∷◌, ◌≡◌, ◌≢◌, ◌⊎◌, refl, ◌==◌, string_eq, eq_iff, arith,
}
use ad_link.QrLogin.{
  IssuedAuth, expired, unauthorized, delivered, Event, begin, poll, grant, pass, start, status,
  step, run, approve,
}
use ad_link.QrLogin.Slots.{slots, nothing}
use ad_link.QrLogin.InTime.{status-delivers}
use ad_link.QrLogin.Delivery.{deliveries, deliveries-once, status-needs_secret, status-expires}

abbrev auth : IssuedAuth
auth = record { token = "jwt"; user = "{}" }

-- A poll too early, one by a stranger, one after the approval, and one more.
abbrev events : List Event
events = poll "q" "x" ∷ grant "q" auth 3 ∷ poll "q" "y" ∷ poll "q" "x" ∷ poll "q" "x" ∷ []

deliveries_run : deliveries slots "q" events (start slots "q" "x" nothing).0 ≡ 1
unfolding deliveries step start status approve
deliveries_run = refl

deliveries-once_example : deliveries slots "q" events (start slots "q" "x" nothing).0 ≤ 1
deliveries-once_example = deliveries-once slots "q" events (start slots "q" "x" nothing).0 refl

status-needs_secret_example :
    (status slots "q" "y" (run slots (grant "q" auth 3 ∷ []) (start slots "q" "x" nothing).0)
      ≡ (run slots (grant "q" auth 3 ∷ []) (start slots "q" "x" nothing).0, unauthorized))
    ⊎ (status slots "q" "y" (run slots (grant "q" auth 3 ∷ []) (start slots "q" "x" nothing).0)
        ≡ (run slots (grant "q" auth 3 ∷ []) (start slots "q" "x" nothing).0, expired))
status-needs_secret_example =
    status-needs_secret slots "q" "x" "y" (grant "q" auth 3 ∷ []) nothing refl
      (distinct "y" "x" refl)
  where
    distinct : (a b : String) → (a == b) ≡ false → a ≢ b
    distinct a b h = λ e. ground (arith, h, (eq_iff a b).1 e)

-- A session that is approved in its last half second is there for five minutes more, since `TTL` answers 0.
late_run :
    (status slots "q" "x" (
      run slots
        (pass 299600 ∷ grant "q" auth 3 ∷ pass 299000 ∷ [])
        (start slots "q" "x" nothing).0)).1
    ≡ delivered (some auth)
unfolding run step start status approve
late_run = refl

status-expires_example :
    status slots "q" "x" (
      run slots (pass 299000 ∷ grant "q" auth 3 ∷ pass 302000 ∷ []) (start slots "q" "x" nothing).0)
    ≡ (
      run slots (pass 299000 ∷ grant "q" auth 3 ∷ pass 302000 ∷ []) (start slots "q" "x" nothing).0,
      expired,
    )
status-expires_example =
    status-expires slots "q" "x" "x" (pass 299000 ∷ grant "q" auth 3 ∷ pass 302000 ∷ []) nothing
      refl (omega arith)

status-delivers_run :
    (status slots "q" "x"
      (run slots (begin "q" "x" ∷ pass 10000 ∷ grant "q" auth 3 ∷ pass 2000 ∷ []) nothing)).1
    ≡ delivered (some auth)
status-delivers_run = status-delivers slots "q" "x" auth 10000 3 2000 nothing (omega arith)
