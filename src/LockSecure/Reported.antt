-- ===== src/LockSecure/Reported.antt =====
-- What was last said of a car's lock (lock_secure_notification.go, lock_secure_evidence.go).
-- What a message of the field makes of it
use my_t_companion.LockSecure.Cooldown.{schedule-cars}
use my_t_companion.LockSecure.Unlocked.Observed.{observe_message_observed}
use my_t_companion.Base.Maps.{lookup-map, lookup-keep_keys, lookup, insert, lookup-insert}
use my_t_companion.Base.Clock.{stamp_seconds}
use my_t_companion.LockSecure.{
  LockSecureMonitor, Time, is_value, car_of, LockSecureCarState, evidence_of, or_car,
}
use my_t_companion.Base.Eq.{Bytes, nat_key}
use my_t_companion.LockSecure.FanOut.{finish_fan_out}
use my_t_companion.Base.{
  ℕ, Bool, ◌≡◌, Option, none, if◌then◌else◌, true, false, ◌==◌, Bool-cases, inl, inr, ap, refl,
  arith, some, ==_iff, subst, ◌∙◌, sym,
}
use my_t_companion.LockSecure.Calls.{call, Call, message, reset, reconcile, timer_fired, fanned_out}
use my_t_companion.LockSecure.Finish.{finish_pending, launch}
use my_t_companion.LockSecure.Evidence.{
  Field, display_name_field, doors_open_field, frunk_open_field, healthy_field,
  is_user_present_field, locked_field, observe_evidence, observe_live, shift_state_field,
  state_field, trunk_open_field, unlisted_field,
}
use my_t_companion.LockSecure.Observe.{
  read_field, reconcile_fleet, observe_message, reset_evidence, parse_mqtt_bool, summarize,
  read_shift, is_unlisted, expire_lock, forget_car,
}

unfoldable pub read_locked : Field → Bytes → Option Bool → Option Bool
unfolding parse_mqtt_bool
read_locked locked_field raw known = parse_mqtt_bool raw
read_locked _ raw known = known

-- A car's own messages of its lock set it, retained ones too; it is forgotten where the connection changes
-- or the car leaves the fleet.
unfoldable pub next_reported : ℕ → Call → Option Bool → Option Bool
unfolding read_locked
next_reported car (message j field raw at retained) known =
    if j == car then read_locked field raw known else known
next_reported car (reset connected) known = none
next_reported car (reconcile in_fleet) known = if in_fleet car then known else none
next_reported car _ known = known

abbrev pub reported : ℕ → LockSecureMonitor → Option Bool
reported car m = (car_of car m).locked

read_field-read_locked :
    (field : Field) (raw : Bytes) (c : LockSecureCarState)
    → (summarize (read_field field raw c)).locked ≡ read_locked field raw c.locked
unfolding read_field summarize read_shift read_locked
read_field-read_locked healthy_field raw c = refl
read_field-read_locked display_name_field raw c = refl
read_field-read_locked locked_field raw c = refl
read_field-read_locked is_user_present_field raw c = refl
read_field-read_locked state_field raw c = refl
read_field-read_locked shift_state_field raw c = refl
read_field-read_locked doors_open_field raw c = refl
read_field-read_locked trunk_open_field raw c = refl
read_field-read_locked frunk_open_field raw c = refl
read_field-read_locked unlisted_field raw c = refl

unlisted-read_locked :
    (field : Field) (raw : Bytes) (known : Option Bool)
    → is_unlisted field ≡ true
    → read_locked field raw known ≡ known
unfolding read_locked
unlisted-read_locked unlisted_field raw known h = refl
unlisted-read_locked healthy_field raw known h = refl
unlisted-read_locked display_name_field raw known h = refl
unlisted-read_locked locked_field raw known h = absurd (cc)
unlisted-read_locked is_user_present_field raw known h = refl
unlisted-read_locked state_field raw known h = refl
unlisted-read_locked shift_state_field raw known h = refl
unlisted-read_locked doors_open_field raw known h = refl
unlisted-read_locked trunk_open_field raw known h = refl
unlisted-read_locked frunk_open_field raw known h = refl

observe_message-reported :
    (car j : ℕ) (field : Field) (raw : Bytes) (at : Time) (retained : Bool) (m : LockSecureMonitor)
    → reported car (observe_message j field raw at retained m)
      ≡ (if j == car then read_locked field raw (reported car m) else reported car m)
unfolding observe_message
observe_message-reported car j field raw at retained m =
    let previous = car_of j m in
    let current = summarize (read_field field raw previous) in
    let seen =
      expire_lock at (observe_evidence previous current field retained at (evidence_of j m)) in
    elim (Bool-cases (is_unlisted field)) [
      | inl unlisted ↦
          rw (reported, unlisted, unlisted-read_locked field raw (car_of car m).locked unlisted)
            (elim (Bool-cases (j == car)) [ inl here ↦ rw here refl | inr apart ↦ rw apart refl ])
      | inr listed ↦
          rw
            (
              reported,
              listed,
              schedule-cars j field seen (record m {
                cars = insert j current m.cars;
                evidence = insert j seen m.evidence;
              }),
              lookup-insert j car current m.cars,
            )
            (elim (Bool-cases (j == car)) [
              | inr elsewhere ↦ rw elsewhere refl
              | inl here ↦ rw here (
                  read_field-read_locked field raw previous
                  ∙ ap (λ i. read_locked field raw (reported i m)) ((==_iff j car).0 here))
            ])
    ]

reset_evidence-reported : (car : ℕ) (m : LockSecureMonitor) → reported car (reset_evidence m) ≡ none
unfolding reset_evidence
reset_evidence-reported car m =
    rw (reported, lookup-map (λ id c. forget_car c) car m.cars)
      (elim (lookup car m.cars)
        as (λ o. (or_car (elim o [ none ↦ none | some v ↦ some (forget_car v) ])).locked ≡ none) [
          | none ↦ refl
          | some c ↦ refl
        ])

reconcile_fleet-reported :
    (car : ℕ) (in_fleet : ℕ → Bool) (m : LockSecureMonitor)
    → reported car (reconcile_fleet in_fleet m) ≡ (if in_fleet car then reported car m else none)
unfolding reconcile_fleet
reconcile_fleet-reported car in_fleet m =
    rw (reported, lookup-keep_keys in_fleet car m.cars)
      (elim (Bool-cases (in_fleet car)) [ inl kept ↦ rw kept refl | inr gone ↦ rw gone refl ])

finish_pending-reported :
    (car j timer : ℕ) (targets : ℕ → Bool) (now : Time) (m : LockSecureMonitor)
    → reported car (finish_pending targets j timer now m).0 ≡ reported car m
unfolding finish_pending launch
finish_pending-reported car j timer targets now m =
    let pushed = record (car_of j m) { last_pushed_at = stamp_seconds now } in
    elim (Bool-cases (j == car)) [
      | inl here ↦
          let same : (car_of j m).locked ≡ reported car m =
            ap (λ i. reported i m) ((==_iff j car).0 here) in
          ground (arith, lookup-insert j car pushed m.cars, here, same)
      | inr elsewhere ↦ ground (arith, lookup-insert j car pushed m.cars, elsewhere)
    ]

pub call-next_reported :
    (car : ℕ) (c : Call) (m : LockSecureMonitor)
    → reported car (call c m).0 ≡ next_reported car c (reported car m)
unfolding call next_reported finish_fan_out
call-next_reported car (message j field raw at retained) m =
    observe_message-reported car j field raw at retained m
call-next_reported car (reset connected) m = reset_evidence-reported car m
call-next_reported car (reconcile in_fleet) m = reconcile_fleet-reported car in_fleet m
call-next_reported car (timer_fired targets j id now) m =
    finish_pending-reported car j id targets now m
call-next_reported car (fanned_out l sent) m = ground (arith)

-- A lock that was not said to be open before does not count.
pub observe_message-was_unlocked :
    (car j : ℕ) (raw : Bytes) (at : Time) (m : LockSecureMonitor)
    → is_value false (reported car m) ≡ false
    → (evidence_of car m).lock_at ≡ 0
    → (evidence_of car (observe_message j locked_field raw at false m)).lock_at ≡ 0
unfolding observe_evidence observe_live
observe_message-was_unlocked car j raw at m shut none_yet =
    observe_message_observed car j locked_field raw at false m (λ unlisted. none_yet)
      (λ apart. none_yet)
      (λ here.
        let same = (==_iff j car).0 here in
        let still = subst (λ i. (evidence_of i m).lock_at ≡ 0) (sym same) none_yet in
        let was = subst (λ i. is_value false (reported i m) ≡ false) (sym same) shut in
        ground (arith, still, was))
