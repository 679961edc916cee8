-- ===== src/LowBattery/Held/Calls.antt =====
-- The calls of the low-battery monitor that are not evaluations (low_battery_notification.go).
use my_t_companion.LowBattery.Held.{
  is_held, actions-held, read_field-held, mapped-held, reading_held, car-insert, settle-held,
  forget-held, remind_car-held,
}
use my_t_companion.Base.Int.{pos_part}
use my_t_companion.Base.Eq.{nat_key, bytes_key}
use my_t_companion.Base.Maps.{insert, lookup-map, lookup-keep_keys, lookup}
use my_t_companion.LowBattery.{
  LowBatteryMonitor, Bytes, Time, car_or_empty, LowBatteryCarState, Action, or_empty,
}
use my_t_companion.Base.{
  ℕ, Bool, Option, if◌then◌else◌, none, ◌≡◌, some, true, implies, ap, arith, ==_iff, ◌∙◌,
  implies_refl, refl,
}
use my_t_companion.LowBattery.Evaluate.Latch.{held}
use my_t_companion.LowBattery.Evaluate.{PushType}
use my_t_companion.LowBattery.Observe.{
  observe_message, reset_observation_baseline, reconcile_fleet, Field, Reading, read_field, settle,
  bad_level, read, ignored, store_reading, forget_observation,
}
use my_t_companion.LowBattery.Actions.{
  apply_action, LowBatteryActionRequest, process_due_reminders, record_action, remind_car,
  record_on, action_state, apply_parsed, parse_action,
}

module _ (t : PushType) (car : ℕ) where
  pub is_held-insert :
      (other : ℕ) (c : LowBatteryCarState) (m : LowBatteryMonitor)
      → implies (held t (car_or_empty other m)) (held t c) ≡ true
      → is_held t car m ≡ true
      → is_held t car (record m { cars = insert other c m.cars }) ≡ true
  is_held-insert other c m h g =
      rw (car-insert car other c m)
        (ground (arith, h, g, ap (λ (x : ℕ). held t (car_or_empty x m)), ==_iff other car))

  pub store_reading-held :
      (other : ℕ) (retained : Bool) (at : Time) (r : Reading) (m : LowBatteryMonitor)
      → reading_held t r (held t (car_or_empty other m)) ≡ held t (car_or_empty other m)
      → is_held t car m ≡ true
      → is_held t car (store_reading other retained at r m) ≡ true
  unfolding store_reading reading_held
  store_reading-held other retained at ignored m h g = g
  store_reading-held other retained at (bad_level c) m h g =
      is_held-insert other c m (rw (h) (implies_refl (held t (car_or_empty other m)))) g
  store_reading-held other retained at (read c) m h g =
      is_held-insert other (settle retained at c) m
        (rw (settle-held t retained at c, h) (implies_refl (held t (car_or_empty other m)))) g

  pub observe-held :
      (other : ℕ) (field : Field) (raw : Bytes) (at : Time) (retained : Bool)
      (m : LowBatteryMonitor)
      → is_held t car m ≡ true
      → is_held t car (observe_message other field raw at retained m) ≡ true
  unfolding observe_message
  observe-held other field raw at retained m g =
      let stored =
        store_reading-held other retained at (read_field (car_or_empty other m) field raw) m
          (read_field-held t _ field raw) g in
      ground (arith, g, stored)

  pub record_on-held :
      (body : LowBatteryActionRequest) (a : Action) (at : Time) (m : LowBatteryMonitor)
      (o : Option LowBatteryCarState)
      → lookup (pos_part body.car_id) m.cars ≡ o
      → is_held t car m ≡ true
      → is_held t car (record_on body a at m o) ≡ true
  unfolding record_on
  record_on-held body a at m none h g = g
  record_on-held body a at m (some c) h g =
      let written = insert body.installation_id (action_state a at) c.actions in
      let kept =
        is_held-insert (pos_part body.car_id) (record c { actions = written }) m
          (rw (ap or_empty h, actions-held t c written) (implies_refl (held t c))) g in
      ground (arith, g, kept)

  pub record_action-held :
      (body : LowBatteryActionRequest) (a : Action) (at : Time) (m : LowBatteryMonitor)
      → is_held t car m ≡ true
      → is_held t car (record_action body a at m) ≡ true
  unfolding record_action
  record_action-held body a at m g =
      record_on-held body a at m (lookup (pos_part body.car_id) m.cars) refl g

  pub apply_parsed-held :
      (wants : Bytes → ℕ → Bool) (body : LowBatteryActionRequest) (at : Time)
      (m : LowBatteryMonitor) (a : Option Action)
      → is_held t car m ≡ true
      → is_held t car (apply_parsed wants body at m a).0 ≡ true
  unfolding apply_parsed
  apply_parsed-held wants body at m none g = g
  apply_parsed-held wants body at m (some a) g = ground (arith, g, record_action-held body a at m g)

  pub apply_action-held :
      (wants : Bytes → ℕ → Bool) (body : LowBatteryActionRequest) (at : Time)
      (m : LowBatteryMonitor)
      → is_held t car m ≡ true
      → is_held t car (apply_action wants body at m).0 ≡ true
  unfolding apply_action
  apply_action-held wants body at m g =
      ground (arith, g, apply_parsed-held wants body at m (parse_action body.action) g)

  pub reset-held :
      (m : LowBatteryMonitor)
      → is_held t car m ≡ true
      → is_held t car (reset_observation_baseline m) ≡ true
  unfolding reset_observation_baseline
  reset-held m g =
      ap (λ o. held t (or_empty o)) (lookup-map (λ k. forget_observation) car m.cars)
      ∙ mapped-held t forget_observation (forget-held t) (lookup car m.cars)
      ∙ g

  pub reconcile-held :
      (in_fleet : ℕ → Bool) (m : LowBatteryMonitor)
      → in_fleet car ≡ true
      → is_held t car m ≡ true
      → is_held t car (reconcile_fleet in_fleet m) ≡ true
  unfolding reconcile_fleet
  reconcile-held in_fleet m h g =
      ap (λ o. held t (or_empty o))
        (lookup-keep_keys in_fleet car m.cars ∙ ap (λ b. if b then lookup car m.cars else none) h)
      ∙ g

  pub remind-held :
      (in_fleet : ℕ → Bool) (at : Time) (m : LowBatteryMonitor)
      → is_held t car m ≡ true
      → is_held t car (process_due_reminders in_fleet at m).0 ≡ true
  unfolding process_due_reminders
  remind-held in_fleet at m g =
      ap (λ o. held t (or_empty o)) (lookup-map (remind_car in_fleet at) car m.cars)
      ∙ mapped-held t (remind_car in_fleet at car) (remind_car-held t in_fleet at car)
          (lookup car m.cars)
      ∙ g
