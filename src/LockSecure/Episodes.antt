-- ===== src/LockSecure/Episodes.antt =====
-- An alert uses up the lock that it rests on (lock_secure_evidence.go, lock_secure_notification.go).
use my_t_companion.LockSecure.Unlocked.{is_live_lock, observe_message-lock_at}
use my_t_companion.LockSecure.Ready.{finish_pending-IsJustified}
use my_t_companion.Base.Eq.{nat_key}
use my_t_companion.LockSecure.FanOut.{finish_fan_out}
use my_t_companion.LockSecure.Finish.{finish_pending, launch, Launch}
use my_t_companion.Base.Maps.{lookup-insert, lookup, lookup-insert_self, has_key, lookup-keep_keys}
use my_t_companion.LockSecure.Calls.{
  Call, message, launches, call, reset, reconcile, timer_fired, fanned_out,
}
use my_t_companion.Base.Clock.{Time}
use my_t_companion.LockSecure.{LockSecureMonitor, evidence_of}
use my_t_companion.Base.{
  ℕ, Bool, ◌≢◌, ◌≡◌, arith, ◌==◌, false, refl, inr, inl, subst, Bool-cases, sym, ◌||◌, List, All,
  not, some, ◌∷◌, Option-cases, [], ◌∙◌,
}
use my_t_companion.LockSecure.Observe.{reconcile_fleet, reset_evidence}

-- A timer may use up its own car's lock only.
finish_pending-lock_at :
    (car j timer : ℕ) (targets : ℕ → Bool) (now : Time) (m : LockSecureMonitor)
    → (evidence_of car m).lock_at ≡ 0
    → (evidence_of car (finish_pending targets j timer now m).0).lock_at ≡ 0
unfolding finish_pending launch
finish_pending-lock_at car j timer targets now m none_yet =
    let used = record (evidence_of j m) { lock_at = 0 } in
    elim (Bool-cases (j == car)) [
      | inl here ↦ ground (arith, lookup-insert j car used m.evidence, here, none_yet)
      | inr elsewhere ↦ ground (arith, lookup-insert j car used m.evidence, elsewhere, none_yet)
    ]

reconcile_fleet-lock_at :
    (car : ℕ) (in_fleet : ℕ → Bool) (m : LockSecureMonitor)
    → (evidence_of car m).lock_at ≡ 0
    → (evidence_of car (reconcile_fleet in_fleet m)).lock_at ≡ 0
unfolding reconcile_fleet
reconcile_fleet-lock_at car in_fleet m none_yet =
    let stays = λ (id : ℕ). in_fleet id || not (has_key id m.cars) in
    rw (lookup-keep_keys stays car m.evidence)
      (elim (Bool-cases (stays car)) [ inl kept ↦ rw kept none_yet | inr gone ↦ rw gone refl ])

pub call-lock_at :
    (car : ℕ) (c : Call) (m : LockSecureMonitor)
    → is_live_lock car c ≡ false
    → (evidence_of car m).lock_at ≡ 0
    → (evidence_of car (call c m).0).lock_at ≡ 0
unfolding call reset_evidence finish_fan_out lookup
call-lock_at car (message j field raw at retained) m other none_yet =
    observe_message-lock_at car j field raw at retained m other none_yet
call-lock_at car (reset connected) m other none_yet = refl
call-lock_at car (reconcile in_fleet) m other none_yet =
    reconcile_fleet-lock_at car in_fleet m none_yet
call-lock_at car (timer_fired targets j id now) m other none_yet =
    finish_pending-lock_at car j id targets now m none_yet
call-lock_at car (fanned_out l sent) m other none_yet = ground (arith, none_yet)

pub call-launch :
    (car : ℕ) (c : Call) (m : LockSecureMonitor) (l : Launch)
    → (evidence_of car m).lock_at ≡ 0
    → (call c m).1 ≡ some l
    → l.car ≢ car
unfolding call
call-launch car (message j field raw at retained) m l none_yet h same = cc
call-launch car (reset connected) m l none_yet h same = cc
call-launch car (reconcile in_fleet) m l none_yet h same = cc
call-launch car (timer_fired targets j id now) m l none_yet h same =
    let why = finish_pending-IsJustified targets j id now m l h in
    why.7 (subst (λ i. (evidence_of i m).lock_at ≡ 0) (sym same ∙ why.0) none_yet)
call-launch car (fanned_out l2 sent) m l none_yet h same = cc

-- A car with no lock on record starts no alert before a live lock of it is seen.
pub launches_quiet :
    (car : ℕ) (calls : List Call) (m : LockSecureMonitor)
    → (evidence_of car m).lock_at ≡ 0
    → All (λ c. is_live_lock car c ≡ false) calls
    → All (λ l. l.car ≢ car) (launches calls m)
unfolding launches
launches_quiet car [] m none_yet others = tt
launches_quiet car (c ∷ cs) m none_yet others =
    let next = call c m in
    let rest = launches_quiet car cs next.0 (call-lock_at car c m others.0 none_yet) others.1 in
    elim (Option-cases next.1) [
      | inl nothing ↦ rw nothing rest
      | inr (l, started) ↦ rw started (call-launch car c m l none_yet started, rest)
    ]

pub finish_pending-uses :
    (targets : ℕ → Bool) (car timer : ℕ) (now : Time) (m : LockSecureMonitor) (l : Launch)
    → (finish_pending targets car timer now m).1 ≡ some l
    → (evidence_of car (finish_pending targets car timer now m).0).lock_at ≡ 0
unfolding finish_pending launch
finish_pending-uses targets car timer now m l h =
    ground
      (arith, h, lookup-insert_self car (record (evidence_of car m) { lock_at = 0 }) m.evidence)

-- One lock starts one alert: after an alert of a car, whatever is called, none of the car is started
-- before a live message that says that it is locked.
pub finish_pending_once :
    (targets : ℕ → Bool) (car timer : ℕ) (now : Time) (m : LockSecureMonitor) (l : Launch)
    (calls : List Call)
    → (finish_pending targets car timer now m).1 ≡ some l
    → All (λ c. is_live_lock car c ≡ false) calls
    → All (λ other. other.car ≢ car) (launches calls (finish_pending targets car timer now m).0)
finish_pending_once targets car timer now m l calls h others =
    launches_quiet car calls (finish_pending targets car timer now m).0
      (finish_pending-uses targets car timer now m l h) others
