-- ===== src/Parking/Silence.antt =====
-- After a connection changes, the first value of each field only sets its baseline
-- (parking_event_monitor.go, `resetMQTTBaseline`).
use my_t_companion.Parking.Receipts.{receipt_if_door, record_door_receipt}
use my_t_companion.Parking.Changes.{receipt_if_door-events}
use my_t_companion.Base.Float.{float_of, Float64}
use my_t_companion.Base.Int.{pos, ℤ}
use my_t_companion.Base.Text.{text_is, is_blank}
use my_t_companion.Parking.Calls.{
  Call, message, reset, reconcile, call, run, call-IsWellFormed, reset_mqtt_baseline-IsReduced,
}
use my_t_companion.Parking.Baselines.{
  IsReduced-has_baseline, IsWellFormed, store_value-has_baseline,
}
use my_t_companion.Parking.Transitions.{
  bound_current_cars-events, with_slot-bound_current_cars-IsReduced, store_level-events,
  store_range-events,
}
use my_t_companion.Parking.Events.{
  parking_event_value_known, is_named_door_field, parking_event_type,
}
use my_t_companion.Parking.Bound.{bound_current_cars}
use my_t_companion.Parking.Reduced.{IsReduced, reconcile_fleet-IsReduced}
use my_t_companion.Base.Eq.{nat_key, bytes_eq, bytes_key}
use my_t_companion.Base.{
  ◌≡◌, false, ◌||◌, Bool-cases, not, inl, true, refl, arith, inr, ◌∙◌, ap, List, ◌==◌, Option, ◌&&◌,
  [], All, ◌∷◌, if_false,
}
use my_t_companion.Base.Maps.{IsMap, lookup, or_zero}
use my_t_companion.Parking.{Parsers, ℕ, Bytes, Time, Bool, ParkingEventMonitor, car_values}
use my_t_companion.Parking.Observe.{
  observe_message, observe_value, has_baseline, with_slot, store_value, reset_mqtt_baseline,
  observed_value, parse_bounded_int, parse_bounded_float, record_change, value_of, store_range,
  store_level, reconcile_fleet, add_event, prune_events, make_event,
}

IsReduced-no_baseline :
    (m after : ParkingEventMonitor) (car : ℕ) (field : Bytes)
    → IsReduced m after
    → has_baseline car field m ≡ false
    → has_baseline car field after ≡ false
IsReduced-no_baseline m after car field h none_yet =
    elim (Bool-cases (has_baseline car field after)) [
      | inl had ↦
          absurd (ground (arith, none_yet, (IsReduced-has_baseline m after car field h had).0))
      | inr missing ↦ missing
    ]

or_true : (a b : Bool) → (a || not b || true) ≡ true
or_true a b = ground arith

observe_value_no_baseline :
    (parsers : Parsers) (car : ℕ) (field value : Bytes) (at : Time) (retained : Bool)
    (m : ParkingEventMonitor)
    → has_baseline car field m ≡ false
    → (observe_value parsers car field value at retained m).events ≡ m.events
unfolding observe_value store_value
observe_value_no_baseline parsers car field value at retained m none_yet =
    let valid = parking_event_value_known parsers field value in
    let stored = store_value car field value valid m in
    rw (none_yet, or_true retained valid)
      (receipt_if_door-events car field value at false true stored)

-- A message of a field without a baseline adds no event.
pub observe_message_no_baseline :
    (parsers : Parsers) (car : ℕ) (field raw : Bytes) (at : Time) (retained : Bool)
    (m : ParkingEventMonitor)
    → IsMap m.cars
    → IsMap m.baselines
    → has_baseline car field m ≡ false
    → (observe_message parsers car field raw at retained m).events ≡ m.events
unfolding observe_message with_slot
observe_message_no_baseline parsers car field raw at retained m cars baselines none_yet =
    let slotted = with_slot car (bound_current_cars car at m) in
    let value = observed_value field raw in
    let same_events = bound_current_cars-events car at m in
    let reduced = with_slot-bound_current_cars-IsReduced car at m cars baselines in
    let first = IsReduced-no_baseline m slotted car field reduced none_yet in
    elim (Bool-cases (text_is field "battery_level")) [
      | inl level ↦
          rw level (
            store_level-events car (parse_bounded_int value (pos 0) (pos 100)) slotted
            ∙ same_events)
      | inr other ↦ elim (Bool-cases (text_is field "rated_battery_range_km")) [
        | inl range ↦
            rw (other, range)
              (store_range-events car
                  (parse_bounded_float parsers value (float_of 0) (float_of 1000)) slotted
                ∙ same_events)
        | inr text ↦
            rw (other, text)
              (observe_value_no_baseline parsers car field value at retained slotted first
                ∙ same_events)
      ]
    ]

receipt_if_door-baselines :
    (car : ℕ) (field value : Bytes) (at : Time) (stored baseline : Bool) (m : ParkingEventMonitor)
    → (receipt_if_door car field value at stored baseline m).baselines ≡ m.baselines
unfolding receipt_if_door record_door_receipt
receipt_if_door-baselines car field value at stored baseline m =
    elim (Bool-cases (is_named_door_field field)) [
      | inl door ↦ rw door refl
      | inr other ↦ rw other refl
    ]

record_change-baselines :
    (car : ℕ) (field previous value : Bytes) (at : Time) (m : ParkingEventMonitor)
    → (record_change car field previous value at m).baselines ≡ m.baselines
unfolding record_change add_event prune_events
record_change-baselines car field previous value at m =
    let type = parking_event_type field previous value in
    let event = make_event car type field value at (car_values car m) in
    elim (Bool-cases (is_blank type)) [
      | inl blank ↦ rw blank (receipt_if_door-baselines car field value at false false m)
      | inr named ↦
          rw named (receipt_if_door-baselines car field value at true false (add_event event at m))
    ]

observe_value-baselines :
    (parsers : Parsers) (car : ℕ) (field value : Bytes) (at : Time) (retained : Bool)
    (m : ParkingEventMonitor)
    → (observe_value parsers car field value at retained m).baselines
      ≡ (store_value car field value (parking_event_value_known parsers field value) m).baselines
unfolding observe_value
observe_value-baselines parsers car field value at retained m =
    let previous = value_of field (car_values car m).values in
    let valid = parking_event_value_known parsers field value in
    let stored = store_value car field value valid m in
    elim (Bool-cases (retained || not valid || not (has_baseline car field m))) [
      | inl first ↦ rw first (receipt_if_door-baselines car field value at false true stored)
      | inr live ↦ elim (Bool-cases (bytes_eq previous value)) [
        | inl same ↦
            rw (live, same) (receipt_if_door-baselines car field value at false false stored)
        | inr changed ↦
            rw (live, changed) (record_change-baselines car field previous value at stored)
      ]
    ]

store_level-baselines :
    (car : ℕ) (level : Option ℤ) (m : ParkingEventMonitor)
    → (store_level car level m).baselines ≡ m.baselines
unfolding store_level
store_level-baselines car level m = ground arith

store_range-baselines :
    (car : ℕ) (range : Option Float64) (m : ParkingEventMonitor)
    → (store_range car range m).baselines ≡ m.baselines
unfolding store_range
store_range-baselines car range m = ground arith

has_baseline-baselines :
    (car : ℕ) (field : Bytes) (m after : ParkingEventMonitor)
    → after.baselines ≡ m.baselines
    → has_baseline car field m ≡ false
    → has_baseline car field after ≡ false
has_baseline-baselines car field m after same none_yet =
    ap (λ bs. or_zero false (lookup field (or_zero [] (lookup car bs)))) same ∙ none_yet

-- A message of another field or another car sets no baseline here.
observe_message_other_baseline :
    (parsers : Parsers) (j : ℕ) (f raw : Bytes) (at : Time) (retained : Bool)
    (m : ParkingEventMonitor) (car : ℕ) (field : Bytes)
    → IsMap m.cars
    → IsMap m.baselines
    → (j == car && bytes_eq f field) ≡ false
    → has_baseline car field m ≡ false
    → has_baseline car field (observe_message parsers j f raw at retained m) ≡ false
unfolding observe_message
observe_message_other_baseline parsers j f raw at retained m car field cars baselines other
      none_yet =
    let slotted = with_slot j (bound_current_cars j at m) in
    let value = observed_value f raw in
    let first =
      IsReduced-no_baseline m slotted car field
        (with_slot-bound_current_cars-IsReduced j at m cars baselines) none_yet in
    elim (Bool-cases (text_is f "battery_level")) [
      | inl level ↦ rw level (
          has_baseline-baselines car field slotted
            (store_level j (parse_bounded_int value (pos 0) (pos 100)) slotted)
            (store_level-baselines j (parse_bounded_int value (pos 0) (pos 100)) slotted) first)
      | inr unlike ↦ elim (Bool-cases (text_is f "rated_battery_range_km")) [
        | inl range ↦
            let length_of = parse_bounded_float parsers value (float_of 0) (float_of 1000) in
            rw (unlike, range)
              (has_baseline-baselines car field slotted (store_range j length_of slotted)
                (store_range-baselines j length_of slotted) first)
        | inr text ↦
            let valid = parking_event_value_known parsers f value in
            rw (unlike, text)
              (has_baseline-baselines car field (store_value j f value valid slotted)
                (observe_value parsers j f value at retained slotted)
                (observe_value-baselines parsers j f value at retained slotted)
                (store_value-has_baseline j f value valid slotted car field
                  ∙ if_false (j == car && bytes_eq f field) _ _ other
                  ∙ first))
      ]
    ]

-- The call is a message of the field of the car.
unfoldable pub is_message_of : ℕ → Bytes → Call → Bool
is_message_of car field (message j f raw at retained) = j == car && bytes_eq f field
is_message_of car field _ = false

call_other_baseline :
    (parsers : Parsers) (c : Call) (m : ParkingEventMonitor) (car : ℕ) (field : Bytes)
    → IsMap m.cars
    → IsMap m.baselines
    → is_message_of car field c ≡ false
    → has_baseline car field m ≡ false
    → has_baseline car field (call parsers c m) ≡ false
unfolding call is_message_of
call_other_baseline parsers (message j f raw at retained) m car field cars baselines other
      none_yet =
    observe_message_other_baseline parsers j f raw at retained m car field cars baselines other
      none_yet
call_other_baseline parsers reset m car field cars baselines other none_yet =
    IsReduced-no_baseline m (reset_mqtt_baseline m) car field (reset_mqtt_baseline-IsReduced m cars)
      none_yet
call_other_baseline parsers (reconcile in_fleet) m car field cars baselines other none_yet =
    IsReduced-no_baseline m (reconcile_fleet in_fleet m) car field
      (reconcile_fleet-IsReduced in_fleet m cars baselines) none_yet

-- Until a field of a car has a baseline and is heard of again, its next message adds no event.
run_quiet :
    (parsers : Parsers) (car : ℕ) (field raw : Bytes) (at : Time) (retained : Bool)
    (calls : List Call) (m : ParkingEventMonitor)
    → IsWellFormed parsers m
    → has_baseline car field m ≡ false
    → All (λ c. is_message_of car field c ≡ false) calls
    → (observe_message parsers car field raw at retained (run parsers calls m)).events
      ≡ (run parsers calls m).events
unfolding run
run_quiet parsers car field raw at retained [] m good none_yet others =
    observe_message_no_baseline parsers car field raw at retained m good.0 good.1 none_yet
run_quiet parsers car field raw at retained (c ∷ cs) m good none_yet others =
    run_quiet parsers car field raw at retained cs (call parsers c m)
      (call-IsWellFormed parsers c m good)
      (call_other_baseline parsers c m car field good.0 good.1 others.0 none_yet) others.1

-- After a connection changes, the first message of each field of a car adds no event, whatever messages of
-- other fields and of other cars, changes of the connection and new lists of the fleet come before it.
pub reset_mqtt_baseline_quiet :
    (parsers : Parsers) (car : ℕ) (field raw : Bytes) (at : Time) (retained : Bool)
    (calls : List Call) (m : ParkingEventMonitor)
    → IsWellFormed parsers m
    → All (λ c. is_message_of car field c ≡ false) calls
    → (observe_message parsers car field raw at retained
        (run parsers calls (reset_mqtt_baseline m))).events
      ≡ (run parsers calls (reset_mqtt_baseline m)).events
unfolding reset_mqtt_baseline lookup call
reset_mqtt_baseline_quiet parsers car field raw at retained calls m good others =
    run_quiet parsers car field raw at retained calls (reset_mqtt_baseline m)
      (call-IsWellFormed parsers reset m good) refl others
