-- ===== src/Parking/Calls.antt =====
-- Sequences of calls of the parking event monitor (parking_event_monitor.go, mqtt_monitor_lifecycle.go).
use my_t_companion.Parking.Bounds.{HasRecords, observe_message-HasRecords, IsReceipt}
use my_t_companion.Parking.Keeps.{observe_message_keeps}
use my_t_companion.Base.Maps.{lookup, IsMap, insert}
use my_t_companion.Base.Eq.{nat_key}
use my_t_companion.Parking.Transitions.{with_slot-bound_current_cars-IsReduced}
use my_t_companion.Parking.Bound.{bound_current_cars}
use my_t_companion.Parking.Reduced.{reconcile_fleet-IsReduced, IsReduced, insert-IsReduced}
use my_t_companion.Parking.Events.{is_named_door_field}
use my_t_companion.Parking.Baselines.{
  IsWellFormed, IsReduced-IsWellFormed, store_value-IsWellFormed,
}
use my_t_companion.Parking.Receipts.{receipt_if_door, record_door_receipt}
use my_t_companion.Base.{ℕ, List, ◌∷◌, Bool, [], Bool-cases, inl, inr, refl, All-keep}
use my_t_companion.Parking.Observe.{
  reset_mqtt_baseline, observe_message, add_event, reconcile_fleet, prune_events, with_slot,
}
use my_t_companion.Parking.{Parsers, ParkingEventMonitor, Bytes, Time}

-- A message, a connection that changes, or a new list of the fleet
pub data Call : Type 0 where
  message : ℕ → Bytes → Bytes → Time → Bool → Call
  reset : Call
  reconcile : (ℕ → Bool) → Call

unfoldable pub call : Parsers → Call → ParkingEventMonitor → ParkingEventMonitor
unfolding observe_message reset_mqtt_baseline reconcile_fleet
call parsers (message car field raw at retained) m =
    observe_message parsers car field raw at retained m
call parsers reset m = reset_mqtt_baseline m
call parsers (reconcile in_fleet) m = reconcile_fleet in_fleet m

unfoldable pub run : Parsers → List Call → ParkingEventMonitor → ParkingEventMonitor
unfolding call
run parsers [] m = m
run parsers (c ∷ cs) m = run parsers cs (call parsers c m)

receipt_if_door-IsWellFormed :
    (parsers : Parsers) (car : ℕ) (field value : Bytes) (at : Time) (stored baseline : Bool)
    (m : ParkingEventMonitor)
    → IsWellFormed parsers m
    → IsWellFormed parsers (receipt_if_door car field value at stored baseline m)
unfolding receipt_if_door record_door_receipt
receipt_if_door-IsWellFormed parsers car field value at stored baseline m good =
    elim (Bool-cases (is_named_door_field field)) [
      | inl door ↦ rw door good
      | inr other ↦ rw other good
    ]

observe_message-IsWellFormed :
    (parsers : Parsers) (car : ℕ) (field raw : Bytes) (at : Time) (retained : Bool)
    (m : ParkingEventMonitor)
    → IsWellFormed parsers m
    → IsWellFormed parsers (observe_message parsers car field raw at retained m)
unfolding add_event prune_events
observe_message-IsWellFormed parsers car field raw at retained m good =
    let slotted = with_slot car (bound_current_cars car at m) in
    observe_message_keeps (IsWellFormed parsers) parsers car at
      (λ c mid same h.
        IsReduced-IsWellFormed parsers mid (record mid { cars = insert car c mid.cars })
          (insert-IsReduced car c mid same h.0 h.1) h)
      (λ field value mid h. store_value-IsWellFormed parsers car field value mid h)
      (λ field value stored baseline mid h.
        receipt_if_door-IsWellFormed parsers car field value at stored baseline mid h)
      (λ event mid h. h) field raw retained m
      (IsReduced-IsWellFormed parsers m slotted
        (with_slot-bound_current_cars-IsReduced car at m good.0 good.1) good)

pub reset_mqtt_baseline-IsReduced :
    (m : ParkingEventMonitor) → IsMap m.cars → IsReduced m (reset_mqtt_baseline m)
unfolding reset_mqtt_baseline lookup
reset_mqtt_baseline-IsReduced m cars = (cars, tt, λ car. inr refl)

pub call-IsWellFormed :
    (parsers : Parsers) (c : Call) (m : ParkingEventMonitor)
    → IsWellFormed parsers m
    → IsWellFormed parsers (call parsers c m)
unfolding call
call-IsWellFormed parsers (message car field raw at retained) m good =
    observe_message-IsWellFormed parsers car field raw at retained m good
call-IsWellFormed parsers reset m good =
    IsReduced-IsWellFormed parsers m (reset_mqtt_baseline m)
      (reset_mqtt_baseline-IsReduced m good.0) good
call-IsWellFormed parsers (reconcile in_fleet) m good =
    IsReduced-IsWellFormed parsers m (reconcile_fleet in_fleet m)
      (reconcile_fleet-IsReduced in_fleet m good.0 good.1) good

-- Whatever is called, the caches hold one entry for each key, and the last value of a field that has a
-- baseline is one that is known.
pub run-IsWellFormed :
    (parsers : Parsers) (calls : List Call) (m : ParkingEventMonitor)
    → IsWellFormed parsers m
    → IsWellFormed parsers (run parsers calls m)
unfolding run
run-IsWellFormed parsers [] m good = good
run-IsWellFormed parsers (c ∷ cs) m good =
    run-IsWellFormed parsers cs (call parsers c m) (call-IsWellFormed parsers c m good)

-- Whatever is called, the events stay within their limit, and a door's receipt counts no more stored
-- events than messages and calls itself a mere baseline only while it has stored none.
pub run-HasRecords :
    (parsers : Parsers) (calls : List Call) (m : ParkingEventMonitor)
    → HasRecords m
    → HasRecords (run parsers calls m)
unfolding run call reset_mqtt_baseline reconcile_fleet
run-HasRecords parsers [] m h = h
run-HasRecords parsers (message car field raw at retained ∷ cs) m h =
    run-HasRecords parsers cs (observe_message parsers car field raw at retained m)
      (observe_message-HasRecords parsers car field raw at retained m h)
run-HasRecords parsers (reset ∷ cs) m h = run-HasRecords parsers cs (reset_mqtt_baseline m) h
run-HasRecords parsers (reconcile in_fleet ∷ cs) m h =
    run-HasRecords parsers cs (reconcile_fleet in_fleet m)
      (h.0, All-keep IsReceipt _ m.door_receipts h.1)
