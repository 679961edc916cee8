-- ===== src/LockSecure/Calls.antt =====
-- Sequences of calls of the lock-secure monitor (lock_secure_notification.go, lock_secure_evidence.go,
-- mqtt_monitor_lifecycle.go).
use my_t_companion.LockSecure.FanOut.{finish_fan_out, Sent}
use my_t_companion.LockSecure.Finish.{Launch, finish_pending}
use my_t_companion.LockSecure.Evidence.{Field}
use my_t_companion.LockSecure.{LockSecureMonitor, Bytes, Time}
use my_t_companion.LockSecure.Observe.{observe_message, reset_evidence, reconcile_fleet}
use my_t_companion.Base.{List, Option, ℕ, some, ◌∷◌, none, Bool, []}

-- What may happen next, in any order: a message, a connection that is made or lost, a new list of the
-- fleet, a settle timer that fires, or a fan-out that ends.
pub data Call : Type 0 where
  message : ℕ → Field → Bytes → Time → Bool → Call
  reset : Bool → Call
  reconcile : (ℕ → Bool) → Call
  timer_fired : (ℕ → Bool) → ℕ → ℕ → Time → Call
  fanned_out : Launch → Sent → Call

unfoldable pub call : Call → LockSecureMonitor → LockSecureMonitor × Option Launch
unfolding observe_message reset_evidence reconcile_fleet finish_pending finish_fan_out
call (message car field raw at retained) m = (observe_message car field raw at retained m, none)
call (reset connected) m = (record (reset_evidence m) { connected = connected }, none)
call (reconcile in_fleet) m = (reconcile_fleet in_fleet m, none)
call (timer_fired targets car id now) m = finish_pending targets car id now m
call (fanned_out l sent) m = (finish_fan_out l sent m, none)

abbrev pub cons_some {ℓ} : {A : Type ℓ} → Option A → List A → List A
cons_some none xs = xs
cons_some (some x) xs = x ∷ xs

-- The alerts that are started, in order
unfoldable pub launches : List Call → LockSecureMonitor → List Launch
unfolding call
launches [] m = []
launches (c ∷ cs) m = let next = call c m in cons_some next.1 (launches cs next.0)
