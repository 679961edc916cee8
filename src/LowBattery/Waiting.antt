-- ===== src/LowBattery/Waiting.antt =====
-- After a connection is lost or made a car waits for a baseline (low_battery_notification.go,
-- mqtt_monitor_lifecycle.go).
-- The call is an evaluation of the car.
use my_t_companion.Base.Eq.{nat_key, bytes_key}
use my_t_companion.LowBattery.Held.{car-insert}
use my_t_companion.Base.Maps.{insert, lookup-map, lookup-keep_keys}
use my_t_companion.Base.Text.{parse_int, is_blank}
use my_t_companion.Base.Int.{ℤ, leb_ℤ, pos, pos_part}
use my_t_companion.LowBattery.Evaluate.{evaluate_found, evaluate, evaluate_car}
use my_t_companion.LowBattery.Actions.{
  record_on, apply_parsed, record_action, LowBatteryActionRequest, apply_action,
  process_due_reminders, action_state, remind_car, parse_action,
}
use my_t_companion.LowBattery.Baseline.{Waits, Waits-quiet, reset-Waits}
use my_t_companion.LowBattery.{
  LowBatteryCarState, LowBatteryMonitor, car_or_empty, Time, Bytes, or_empty, Action, lookup,
}
use my_t_companion.Base.{
  ℕ, ◌≡◌, Bool, Option, List, ◌==◌, All, false, ◌∷◌, Bool-cases, none, arith, true, [], some, subst,
  sym, inl, ◌&&◌, ==_iff, inr, refl, ap, ◌∙◌,
}
use my_t_companion.LowBattery.Trace.{
  step, Call, evaluated, observed, reconciled, acted, reminded, reset,
}
use my_t_companion.LowBattery.Observe.{
  read_level, Reading, read_field, settle, store_reading, observe_message, Field, bad_level,
  reset_observation_baseline, read, reconcile_fleet, battery_level_field, ignored,
  display_name_field, state_field, ignores_empty, shift_state_field, charging_state_field,
  unlisted_field, forget_observation,
}

unfoldable pub is_evaluation : ℕ → Call → Bool
is_evaluation car (evaluated other episode at) = other == car
is_evaluation car _ = false

-- The monitor after some calls
unfoldable pub run : List Call → LowBatteryMonitor → LowBatteryMonitor
unfolding step
run [] m = m
run (k ∷ ks) m = run ks (step k m)

mapped-initialized :
    (f : LowBatteryCarState → LowBatteryCarState)
    → ((c : LowBatteryCarState) → c.initialized ≡ false → (f c).initialized ≡ false)
    → (o : Option LowBatteryCarState) → (or_empty o).initialized ≡ false
    → (or_empty (elim o [ none ↦ none | some v ↦ some (f v) ])).initialized ≡ false
mapped-initialized f keeps none h = h
mapped-initialized f keeps (some c) h = keeps c h

-- What a message makes of a car that waits still waits.
IsWaitingReading : Reading → Type 0
IsWaitingReading ignored = Unit
IsWaitingReading (bad_level c) = c.initialized ≡ false
IsWaitingReading (read c) = c.initialized ≡ false

read_level-IsWaitingReading :
    (c : LowBatteryCarState) (level : Option ℤ)
    → c.initialized ≡ false
    → IsWaitingReading (read_level c level)
unfolding read_level IsWaitingReading
read_level-IsWaitingReading c none h = refl
read_level-IsWaitingReading c (some v) h =
    elim (Bool-cases (leb_ℤ (pos 0) v && leb_ℤ v (pos 100))) [
      | inl good ↦ rw good h
      | inr bad ↦ rw bad refl
    ]

read_field-IsWaitingReading :
    (c : LowBatteryCarState) (field : Field) (raw : Bytes)
    → c.initialized ≡ false
    → IsWaitingReading (read_field c field raw)
unfolding read_field IsWaitingReading
read_field-IsWaitingReading c battery_level_field raw h =
    read_level-IsWaitingReading c (parse_int raw) h
read_field-IsWaitingReading c display_name_field raw h = h
read_field-IsWaitingReading c state_field raw h = h
read_field-IsWaitingReading c shift_state_field raw h = h
read_field-IsWaitingReading c charging_state_field raw h = h
read_field-IsWaitingReading c unlisted_field raw h = tt

settle-initialized :
    (retained : Bool) (at : Time) (c : LowBatteryCarState)
    → c.initialized ≡ false
    → (settle retained at c).initialized ≡ false
unfolding settle
settle-initialized retained at c h = ground (arith, h)

module _ (car : ℕ) where
  Waiting : LowBatteryMonitor → Type 0
  Waiting m = (car_or_empty car m).initialized ≡ false

  insert-Waiting :
      (other : ℕ) (c : LowBatteryCarState) (m : LowBatteryMonitor)
      → ((other == car) ≡ true → c.initialized ≡ false)
      → Waiting m
      → Waiting (record m { cars = insert other c m.cars })
  unfolding Waiting
  insert-Waiting other c m own h = elim (Bool-cases (other == car)) [
    | inl here ↦ rw (car-insert car other c m, here) (own here)
    | inr apart ↦ rw (car-insert car other c m, apart) h
  ]

  own-Waiting :
      (other : ℕ) (m : LowBatteryMonitor)
      → Waiting m
      → (other == car) ≡ true
      → (car_or_empty other m).initialized ≡ false
  unfolding Waiting
  own-Waiting other m h here =
      subst (λ i. (car_or_empty i m).initialized ≡ false) (sym ((==_iff other car).0 here)) h

  reading-Waiting :
      (other : ℕ) (retained : Bool) (at : Time) (r : Reading) (m : LowBatteryMonitor)
      → ((other == car) ≡ true → IsWaitingReading r)
      → Waiting m
      → Waiting (store_reading other retained at r m)
  unfolding store_reading IsWaitingReading Waiting
  reading-Waiting other retained at ignored m own h = h
  reading-Waiting other retained at (bad_level c) m own h = insert-Waiting other c m own h
  reading-Waiting other retained at (read c) m own h =
      insert-Waiting other (settle retained at c) m
        (λ here. settle-initialized retained at c (own here)) h

  observe-Waiting :
      (other : ℕ) (field : Field) (raw : Bytes) (at : Time) (retained : Bool)
      (m : LowBatteryMonitor)
      → Waiting m
      → Waiting (observe_message other field raw at retained m)
  unfolding observe_message Waiting
  observe-Waiting other field raw at retained m h =
      elim (Bool-cases (is_blank raw && ignores_empty field)) [
        | inl empty ↦ rw empty h
        | inr full ↦ rw full (
            reading-Waiting other retained at (read_field (car_or_empty other m) field raw) m
              (λ here.
                read_field-IsWaitingReading (car_or_empty other m) field raw
                  (own-Waiting other m h here))
              h)
      ]

  found-Waiting :
      (other : ℕ) (episode : Bytes) (at : Time) (m : LowBatteryMonitor)
      (o : Option LowBatteryCarState)
      → (other == car) ≡ false
      → Waiting m
      → Waiting (evaluate_found other episode at m o).0
  unfolding evaluate_found Waiting
  found-Waiting other episode at m none apart h = h
  found-Waiting other episode at m (some c) apart h =
      insert-Waiting other (evaluate_car episode at c).0 m
        (λ here. absurd (ground (arith, here, apart))) h

  record_on-Waiting :
      (body : LowBatteryActionRequest) (a : Action) (at : Time) (m : LowBatteryMonitor)
      (o : Option LowBatteryCarState)
      → lookup (pos_part body.car_id) m.cars ≡ o
      → Waiting m
      → Waiting (record_on body a at m o)
  unfolding record_on
  record_on-Waiting body a at m none found h = h
  record_on-Waiting body a at m (some c) found h =
      let written = insert body.installation_id (action_state a at) c.actions in
      let kept =
        insert-Waiting (pos_part body.car_id) (record c { actions = written }) m
          (λ here.
            ap (λ o. (or_empty o).initialized) (sym found)
            ∙ own-Waiting (pos_part body.car_id) m h here)
          h in
      ground (arith, h, kept)

  apply_parsed-Waiting :
      (wants : Bytes → ℕ → Bool) (body : LowBatteryActionRequest) (at : Time)
      (m : LowBatteryMonitor) (a : Option Action)
      → Waiting m
      → Waiting (apply_parsed wants body at m a).0
  unfolding apply_parsed record_action
  apply_parsed-Waiting wants body at m none h = h
  apply_parsed-Waiting wants body at m (some a) h =
      ground (arith, h, record_on-Waiting body a at m (lookup (pos_part body.car_id) m.cars) refl h)

  step-Waiting :
      (k : Call) (m : LowBatteryMonitor)
      → is_evaluation car k ≡ false
      → Waiting m
      → Waiting (step k m)
  unfolding step is_evaluation evaluate reset_observation_baseline reconcile_fleet apply_action
      process_due_reminders remind_car Waiting
  step-Waiting (observed other field raw at retained) m apart h =
      observe-Waiting other field raw at retained m h
  step-Waiting (evaluated other episode at) m apart h =
      found-Waiting other episode at m (lookup other m.cars) apart h
  step-Waiting reset m apart h =
      ap (λ o. (or_empty o).initialized) (lookup-map (λ k. forget_observation) car m.cars)
      ∙ mapped-initialized forget_observation (λ c same. refl) (lookup car m.cars) h
  step-Waiting (reconciled in_fleet) m apart h =
      ap (λ o. (or_empty o).initialized) (lookup-keep_keys in_fleet car m.cars)
      ∙ elim (Bool-cases (in_fleet car)) [ inl kept ↦ rw kept h | inr gone ↦ rw gone refl ]
  step-Waiting (acted wants body at) m apart h =
      ground (arith, h, apply_parsed-Waiting wants body at m (parse_action body.action) h)
  step-Waiting (reminded in_fleet at) m apart h =
      ap (λ o. (or_empty o).initialized) (lookup-map (remind_car in_fleet at) car m.cars)
      ∙ mapped-initialized (remind_car in_fleet at car) (λ c same. ground (arith, same))
          (lookup car m.cars) h

  run-Waiting :
      (ks : List Call) (m : LowBatteryMonitor)
      → All (λ k. is_evaluation car k ≡ false) ks
      → Waiting m
      → Waiting (run ks m)
  unfolding run
  run-Waiting [] m others h = h
  run-Waiting (k ∷ ks) m others h = run-Waiting ks (step k m) others.1 (step-Waiting k m others.0 h)

-- After a connection is lost or made, the first evaluation of a car sends nothing, whatever messages of it,
-- evaluations of other cars, actions, reminders and changes of the fleet come before it.
pub reset_observation_baseline_quiet :
    (car : ℕ) (ks : List Call) (episode : Bytes) (at : Time) (m : LowBatteryMonitor)
    → All (λ k. is_evaluation car k ≡ false) ks
    → (evaluate car episode at (run ks (reset_observation_baseline m))).1 ≡ none
unfolding Waiting Waits
reset_observation_baseline_quiet car ks episode at m others =
    Waits-quiet car episode at (run ks (reset_observation_baseline m))
      (run-Waiting car ks (reset_observation_baseline m) others (reset-Waits car m))
