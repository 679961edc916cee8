-- ===== src/Parking/Bounds.antt =====
-- How large the state of the monitor gets, and its receipts (parking_event_monitor.go).
use my_t_companion.Parking.Keeps.{observe_message_keeps, bound_current_cars_keeps}
use my_t_companion.Parking.Events.{is_named_door_field}
use my_t_companion.Parking.Receipts.{receipt_if_door, record_door_receipt, receive, empty_receipt}
use my_t_companion.Base.Eq.{nat_key, Bytes, pair_key, bytes_key}
use my_t_companion.Parking.Room.{bound_loop_ends}
use my_t_companion.Base.Maps.{
  insert, has_key, lookup-insert_self, lookup, length-insert_old, length-insert_new, All-insert,
  All-lookup, or_zero,
}
use my_t_companion.Parking.Bound.{bound_current_cars, has_room, evict}
use my_t_companion.Parking.Observe.{
  with_slot, add_event, store_value, event_limit, prune_events, newest, observe_message,
  is_retained_event,
}
use my_t_companion.Parking.{
  ParkingEventMonitor, Time, ParkingEventCarState, maximum_parking_current_cars, car_values,
  ParkingDoorReceipt, Parsers, ParkingObservedEvent,
}
use my_t_companion.Base.{
  ℕ, length, ◌≤◌, List, ◌≡◌, arith, true, Option-cases, refl, inl, inr, All, leb→le, Bool,
  Bool-cases, ltb→lt, false, keep, ◌++◌, ◌∷◌, [], length-drop, ◌-◌, ◌==◌, ==_iff, All-keep,
}

-- At most 256 cars, and this one among them
abbrev Fits : ℕ → ParkingEventMonitor → Type 0
Fits car m = (length m.cars ≤ maximum_parking_current_cars) × (has_key car m.cars ≡ true)

length-insert_held :
    (car : ℕ) (c : ParkingEventCarState) (cars : List (ℕ × ParkingEventCarState))
    → has_key car cars ≡ true
    → length (insert car c cars) ≡ length cars
length-insert_held car c cars held = elim (Option-cases (lookup car cars)) [
  | inl missing ↦ absurd (ground (arith, held, missing))
  | inr (w, found) ↦ length-insert_old car c w cars found
]

insert-Fits :
    (car : ℕ) (c : ParkingEventCarState) (cars : List (ℕ × ParkingEventCarState))
    → length cars ≤ maximum_parking_current_cars
    → has_key car cars ≡ true
    → (length (insert car c cars) ≤ maximum_parking_current_cars)
      × (has_key car (insert car c cars) ≡ true)
insert-Fits car c cars small held = (
  omega (arith, small, length-insert_held car c cars held),
  rw (lookup-insert_self car c cars) refl,
)

has_room-Fits :
    (car : ℕ) (c : ParkingEventCarState) (m : ParkingEventMonitor)
    → has_room car m ≡ true
    → Fits car (record m { cars = insert car c m.cars })
unfolding has_room
has_room-Fits car c m room = (
  elim (Option-cases (lookup car m.cars)) [
    | inl missing ↦ omega (
      arith,
      length-insert_new car c m.cars missing,
      ltb→lt (length m.cars) maximum_parking_current_cars (ground (arith, room, missing)),
    )
    | inr (w, found) ↦ omega (
      arith,
      length-insert_old car c w m.cars found,
      leb→le (length m.cars) maximum_parking_current_cars (ground (arith, room)),
    )
  ],
  rw (lookup-insert_self car c m.cars) refl,
)

receipt_if_door-Fits :
    (car : ℕ) (field value : Bytes) (at : Time) (stored baseline : Bool) (m : ParkingEventMonitor)
    → Fits car m
    → Fits car (receipt_if_door car field value at stored baseline m)
unfolding receipt_if_door record_door_receipt
receipt_if_door-Fits car field value at stored baseline m h =
    elim (Bool-cases (is_named_door_field field)) [ inl door ↦ rw door h | inr other ↦ rw other h ]

with_slot-Fits :
    (car : ℕ) (at : Time) (m : ParkingEventMonitor)
    → Fits car (with_slot car (bound_current_cars car at m))
unfolding with_slot bound_current_cars
with_slot-Fits car at m =
    let ended = bound_loop_ends (length m.cars) car m (omega arith) in
    rw ended.1.0 (has_room-Fits car (car_values car ended.0) ended.0 ended.1.1)

-- After any message at most 256 cars are remembered, and the car that it is about is one of them.
pub observe_message-Fits :
    (parsers : Parsers) (car : ℕ) (field raw : Bytes) (at : Time) (retained : Bool)
    (m : ParkingEventMonitor)
    → (length (observe_message parsers car field raw at retained m).cars
        ≤ maximum_parking_current_cars)
      × (has_key car (observe_message parsers car field raw at retained m).cars ≡ true)
unfolding store_value receipt_if_door record_door_receipt add_event prune_events
observe_message-Fits parsers car field raw at retained m =
    observe_message_keeps (Fits car) parsers car at
      (λ c mid same h. insert-Fits car c mid.cars h.0 h.1)
      (λ f value mid h. insert-Fits car _ mid.cars h.0 h.1)
      (λ f value stored baseline mid h. receipt_if_door-Fits car f value at stored baseline mid h)
      (λ event mid h. h) field raw retained m (with_slot-Fits car at m)

-- What is kept besides the caches
abbrev pub IsReceipt : (ℕ × Bytes) × ParkingDoorReceipt → Type 0
IsReceipt e =
    (e.1.stored_event_count ≤ e.1.received_count)
    × (e.1.baseline_only ≡ true → e.1.stored_event_count ≡ 0)

abbrev pub HasRecords : ParkingEventMonitor → Type 0
HasRecords m = (length m.events ≤ event_limit m) × All IsReceipt m.door_receipts

receive-IsReceipt :
    (key : ℕ × Bytes) (car : ℕ) (field value : Bytes) (at : Time) (stored baseline : Bool)
    (old : ParkingDoorReceipt)
    → IsReceipt (key, old)
    → IsReceipt (key, receive car field value at stored baseline old)
unfolding receive
receive-IsReceipt key car field value at true baseline old h =
    (omega (arith, h.0), λ only. absurd (cc))
receive-IsReceipt key car field value at false baseline old h =
    elim (Bool-cases (old.stored_event_count == 0)) [
      | inl none_yet ↦
          rw none_yet (omega (arith, h.0), λ only. (==_iff old.stored_event_count 0).0 none_yet)
      | inr stored_some ↦ rw stored_some (omega (arith, h.0), h.1)
    ]

or_zero-IsReceipt :
    (key : ℕ × Bytes) (receipts : List ((ℕ × Bytes) × ParkingDoorReceipt))
    → All IsReceipt receipts
    → IsReceipt (key, or_zero empty_receipt (lookup key receipts))
or_zero-IsReceipt key receipts h = elim (Option-cases (lookup key receipts)) [
  | inl missing ↦ rw missing (omega arith, λ only. refl)
  | inr (old, found) ↦ rw found (All-lookup IsReceipt key old receipts h found)
]

record_door_receipt-HasRecords :
    (car : ℕ) (field value : Bytes) (at : Time) (stored baseline : Bool) (m : ParkingEventMonitor)
    → HasRecords m
    → HasRecords (record_door_receipt car field value at stored baseline m)
unfolding record_door_receipt
record_door_receipt-HasRecords car field value at stored baseline m h = (
  h.0,
  All-insert IsReceipt (car, field) _ m.door_receipts h.1
      (receive-IsReceipt (car, field) car field value at stored baseline
        (or_zero empty_receipt (lookup (car, field) m.door_receipts))
        (or_zero-IsReceipt (car, field) m.door_receipts h.1)),
)

receipt_if_door-HasRecords :
    (car : ℕ) (field value : Bytes) (at : Time) (stored baseline : Bool) (m : ParkingEventMonitor)
    → HasRecords m
    → HasRecords (receipt_if_door car field value at stored baseline m)
unfolding receipt_if_door
receipt_if_door-HasRecords car field value at stored baseline m h =
    elim (Bool-cases (is_named_door_field field)) [
      | inl door ↦ rw door (record_door_receipt-HasRecords car field value at stored baseline m h)
      | inr other ↦ rw other h
    ]

add_event-HasRecords :
    (event : ParkingObservedEvent) (at : Time) (m : ParkingEventMonitor)
    → HasRecords m
    → HasRecords (add_event event at m)
unfolding add_event prune_events newest
add_event-HasRecords event at m h =
    let kept = keep (is_retained_event m.retention_days at) (m.events ++ event ∷ []) in
    (omega (arith, length-drop (length kept - event_limit m) kept), h.1)

pub observe_message-HasRecords :
    (parsers : Parsers) (car : ℕ) (field raw : Bytes) (at : Time) (retained : Bool)
    (m : ParkingEventMonitor)
    → HasRecords m
    → HasRecords (observe_message parsers car field raw at retained m)
unfolding store_value with_slot evict
observe_message-HasRecords parsers car field raw at retained m h =
    observe_message_keeps HasRecords parsers car at (λ c mid same g. g) (λ f value mid g. g)
      (λ f value stored baseline mid g.
        receipt_if_door-HasRecords car f value at stored baseline mid g)
      (λ event mid g. add_event-HasRecords event at mid g) field raw retained m
      (bound_current_cars_keeps HasRecords
        (λ id mid g. (g.0, All-keep IsReceipt _ mid.door_receipts g.1)) (λ receipts mid g. g) car at
        m h)
