-- ===== src/LockSecure/Ready.antt =====
-- When an alert is started (lock_secure_notification.go, lock_secure_evidence.go).
use my_t_companion.Base.Maps.{has_key, delete}
use my_t_companion.Base.Eq.{pair_key, nat_key}
use my_t_companion.LockSecure.{
  LockSecureMonitor, lookup, lock_secure_is_secure, car_of, evidence_of,
  lock_secure_episode_lifetime, lock_secure_heartbeat_lifetime, lock_secure_settle,
}
use my_t_companion.Base.Clock.{Time}
use my_t_companion.LockSecure.Evidence.{ready, is_recent}
use my_t_companion.Base.{
  ℕ, Bool, ◌≡◌, some, true, false, ◌≢◌, none, ◌≤◌, ◌+◌, Bool-cases, ◌||◌, inr, arith, inl, not,
  is_some-none, Option, leb→le,
}
use my_t_companion.LockSecure.Finish.{
  finish_pending, launch, Launch, is_cooling, origin_id, is_timer,
}

-- What an alert rests on
abbrev pub IsJustified : (ℕ → Bool) → ℕ → ℕ → Time → LockSecureMonitor → Launch → Type 0
IsJustified targets car timer now m l =
    (l.car ≡ car)
    × (l.observed_at ≡ now)
    × (lookup car m.pending ≡ some timer)
    × (m.connected ≡ true)
    × (targets car ≡ true)
    × (lock_secure_is_secure (car_of car m) ≡ true)
    × ((evidence_of car m).presence_live ≡ true)
    × ((evidence_of car m).lock_at ≢ 0)
    × (now ≤ (evidence_of car m).lock_at + lock_secure_episode_lifetime)
    × (now ≤ (evidence_of car m).last_healthy_at + lock_secure_heartbeat_lifetime)
    × ((evidence_of car m).stable_since + lock_secure_settle ≤ now)
    × (is_cooling now (car_of car m).last_pushed_at ≡ false)
    × (lookup l.origin m.delivered ≡ none)
    × (lookup l.origin m.in_flight ≡ none)

is_timer-lookup : (timer : ℕ) (o : Option ℕ) → is_timer timer o ≡ true → o ≡ some timer
is_timer-lookup timer none h = absurd (cc)
is_timer-lookup timer (some t) h = ground (arith, h)

-- What starts an alert, besides the evidence
pub launch-IsJustified :
    (car : ℕ) (now : Time) (m : LockSecureMonitor) (l : Launch)
    → (launch car now m).1 ≡ some l
    → (is_cooling now (car_of car m).last_pushed_at ≡ false)
      × (l.car ≡ car)
      × (l.observed_at ≡ now)
      × (lookup l.origin m.delivered ≡ none)
      × (lookup l.origin m.in_flight ≡ none)
unfolding launch
launch-IsJustified car now m l h =
    let origin = origin_id car now in
    elim (Bool-cases (
      is_cooling now (car_of car m).last_pushed_at
      || has_key origin m.delivered
      || has_key origin m.in_flight)) [
        | inl refused ↦ absurd (ground (arith, refused, h))
        | inr free ↦
            let mine : l.origin ≡ origin = ground (arith, free, h) in
            (
              ground (arith, free),
              ground (arith, free, h),
              ground (arith, free, h),
              rw mine (is_some-none (lookup origin m.delivered) (ground (arith, free))),
              rw mine (is_some-none (lookup origin m.in_flight) (ground (arith, free))),
            )
      ]

is_recent-le :
    (limit : ℕ) (at now : Time) → is_recent limit at now ≡ true → (at ≢ 0) × (now ≤ at + limit)
is_recent-le limit at now h =
    (λ zero_time. ground (arith, h, zero_time), leb→le now (at + limit) (ground (arith, h)))

-- What the checks of a timer that starts an alert found.
pub finish_pending-IsJustified :
    (targets : ℕ → Bool) (car timer : ℕ) (now : Time) (m : LockSecureMonitor) (l : Launch)
    → (finish_pending targets car timer now m).1 ≡ some l
    → IsJustified targets car timer now m l
unfolding finish_pending ready
finish_pending-IsJustified targets car timer now m l h =
    let e = evidence_of car m in
    let ripe = ready (car_of car m) now e in
    elim (Bool-cases (is_timer timer (lookup car m.pending))) [
      | inr stale ↦ absurd (ground (arith, stale, h))
      | inl current ↦ elim (Bool-cases (not m.connected || not ripe || not (targets car))) [
        | inl unfit ↦ absurd (ground (arith, current, unfit, h))
        | inr fit ↦
            let launched =
              launch-IsJustified car now (record m { pending = delete car m.pending }) l
                (ground (arith, current, fit, h)) in
            let lock =
              is_recent-le lock_secure_episode_lifetime e.lock_at now (ground (arith, fit)) in
            let heartbeat =
              is_recent-le lock_secure_heartbeat_lifetime e.last_healthy_at now
                (ground (arith, fit)) in
            (
              launched.1,
              launched.2,
              is_timer-lookup timer (lookup car m.pending) current,
              ground (arith, fit),
              ground (arith, fit),
              ground (arith, fit),
              ground (arith, fit),
              lock.0,
              lock.1,
              heartbeat.1,
              leb→le (e.stable_since + lock_secure_settle) now (ground (arith, fit)),
              launched.0,
              launched.3,
              launched.4,
            )
      ]
    ]
