-- ===== src/LockSecure/Finish.antt =====
-- The settle timer (lock_secure_notification.go, `finishPending`).
use my_t_companion.Base.Eq.{nat_key, pair_key}
use my_t_companion.Base.Maps.{delete, insert, has_key, lookup}
use my_t_companion.LockSecure.{
  OriginId, LockSecureMonitor, LockSecureCarState, car_of, evidence_of, lock_secure_cooldown,
}
use my_t_companion.Base.{
  ℕ, Option, Bool, ◌/◌, false, some, ltb, ◌==◌, ◌+◌, none, if◌then◌else◌, not, ◌||◌, true,
}
use my_t_companion.Base.Clock.{Time, Stamp, minutes, stamp_seconds}
use my_t_companion.LockSecure.Evidence.{ready}

abbrev pub origin_id : ℕ → Time → OriginId
origin_id car at = (car, at / minutes 1)

-- What `fanOutLockSecure` is started with.
pub record Launch : Type 0 where
  pub origin : OriginId
  pub car : ℕ
  pub state : LockSecureCarState
  pub observed_at : Time
  pub stable_since : Time

-- The last alert was less than three minutes ago. (`Sub` may be negative.)
abbrev pub is_cooling : Time → Stamp → Bool
is_cooling now none = false
is_cooling now (some at) = ltb now (at + lock_secure_cooldown)

abbrev pub is_timer : ℕ → Option ℕ → Bool
is_timer timer none = false
is_timer timer (some t) = t == timer

-- The episode is consumed, then sent unless one was just sent.
unfoldable pub launch : ℕ → Time → LockSecureMonitor → LockSecureMonitor × Option Launch
launch car now m =
    let c = car_of car m in
    let e = evidence_of car m in
    let origin = origin_id car now in
    let consumed = record m { evidence = insert car (record e { lock_at = 0 }) m.evidence } in
    if is_cooling now c.last_pushed_at || has_key origin m.delivered || has_key origin m.in_flight
    then (consumed, none)
    else (
      record consumed {
        in_flight = insert origin true m.in_flight;
        cars = insert car (record c { last_pushed_at = stamp_seconds now }) m.cars;
      },
      some (record {
        origin = origin;
        car = car;
        state = record c { last_pushed_at = stamp_seconds now };
        observed_at = now;
        stable_since = e.stable_since;
      }),
    )

-- `targets` is `hasLockSecureTargets`.
unfoldable pub finish_pending :
    (ℕ → Bool) → ℕ → ℕ → Time → LockSecureMonitor → LockSecureMonitor × Option Launch
unfolding ready launch
finish_pending targets car timer now m =
    let taken = record m { pending = delete car m.pending } in
    if not (is_timer timer (lookup car m.pending))
    then (m, none)
    else if not m.connected
        || not (ready (car_of car m) now (evidence_of car m))
        || not (targets car)
    then (taken, none)
    else launch car now taken
