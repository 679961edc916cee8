-- ===== src/Parking/Keeps.antt =====
-- What holds of the monitor after a message, from what each part of it keeps (parking_event_monitor.go).
use my_t_companion.Base.Int.{eqb_ℤ, pos}
use my_t_companion.Base.Float.{float_eq, float_of}
use my_t_companion.Base.Text.{text_is, is_blank}
use my_t_companion.Parking.Events.{parking_event_type, parking_event_value_known}
use my_t_companion.Base.Eq.{nat_key, bytes_eq}
use my_t_companion.Parking.Receipts.{receipt_if_door}
use my_t_companion.Base.Maps.{insert}
use my_t_companion.Parking.Bound.{bound_current_cars, has_room, evict, bound_loop, oldest_car}
use my_t_companion.Parking.Observe.{
  with_slot, add_event, store_level, record_change, observe_message, observe_value, store_range,
  store_value, observed_value, make_event, value_of, option_eq, parse_bounded_int, has_baseline,
  parse_bounded_float,
}
use my_t_companion.Parking.{
  ParkingEventMonitor, Time, ParkingEventCarState, Bytes, ParkingObservedEvent, ℤ, Float64,
  car_values, Parsers,
}
use my_t_companion.Base.{
  ℕ, length, List, ◌≡◌, arith, Bool, true, Option-cases, refl, inl, Option, inr, Bool-cases, false,
  ◌||◌, not, some, subst, suc, zero,
}

-- Bounding the cars keeps what forgetting one keeps.
module _ {ℓ} (P : ParkingEventMonitor → Type ℓ)
    (forget : (id : ℕ) (m : ParkingEventMonitor) → P m → P (evict id m)) where
  bound_loop_keeps :
      (fuel car : ℕ) (m after : ParkingEventMonitor)
      → P m
      → bound_loop fuel car m ≡ some after
      → P after
  unfolding bound_loop
  bound_loop_keeps zero car m after p h = elim (Bool-cases (has_room car m)) [
    | inl room ↦ subst P {x = m} {y = after} (ground (arith, room, h)) p
    | inr full ↦ absurd (ground (arith, full, h))
  ]
  bound_loop_keeps (suc fuel) car m after p h = elim (Bool-cases (has_room car m)) [
    | inl room ↦ subst P {x = m} {y = after} (ground (arith, room, h)) p
    | inr full ↦
        let oldest = (oldest_car m.last_receipt m.cars (0, 0)).0 in
        bound_loop_keeps fuel car (evict oldest m) after (forget oldest m p)
          (ground (arith, full, h))
  ]

  pub bound_current_cars_keeps :
      (touch : (receipts : List (ℕ × Time)) (m : ParkingEventMonitor)
        → P m
        → P (record m { last_receipt = receipts }))
      (car : ℕ) (at : Time) (m : ParkingEventMonitor)
      → P m
      → P (bound_current_cars car at m)
  unfolding bound_current_cars
  bound_current_cars_keeps touch car at m p =
      elim (Option-cases (bound_loop (length m.cars) car m)) [
        | inl stuck ↦ rw stuck (touch (insert car at m.last_receipt) m p)
        | inr (after, ended) ↦ rw ended (
            touch (insert car at after.last_receipt) after
              (bound_loop_keeps (length m.cars) car m after p ended))
      ]

-- A message keeps what each of its parts keeps, once the car has a slot.
module _ {ℓ} (P : ParkingEventMonitor → Type ℓ) (parsers : Parsers) (car : ℕ) (at : Time)
    (write : (c : ParkingEventCarState) (m : ParkingEventMonitor)
      → c.values ≡ (car_values car m).values
      → P m
      → P (record m { cars = insert car c m.cars }))
    (store : (field value : Bytes) (m : ParkingEventMonitor)
      → P m
      → P (store_value car field value (parking_event_value_known parsers field value) m))
    (receipt : (field value : Bytes) (stored baseline : Bool) (m : ParkingEventMonitor)
      → P m
      → P (receipt_if_door car field value at stored baseline m))
    (add : (event : ParkingObservedEvent) (m : ParkingEventMonitor)
      → P m
      → P (add_event event at m)) where
  record_change_keeps :
      (field previous value : Bytes) (m : ParkingEventMonitor)
      → P m
      → P (record_change car field previous value at m)
  unfolding record_change
  record_change_keeps field previous value m p =
      let type = parking_event_type field previous value in
      let event = make_event car type field value at (car_values car m) in
      elim (Bool-cases (is_blank type)) [
        | inl blank ↦ rw blank (receipt field value false false m p)
        | inr named ↦
            rw named (receipt field value true false (add_event event at m) (add event m p))
      ]

  observe_value_keeps :
      (field value : Bytes) (retained : Bool) (m : ParkingEventMonitor)
      → P m
      → P (observe_value parsers car field value at retained m)
  unfolding observe_value
  observe_value_keeps field value retained m p =
      let previous = value_of field (car_values car m).values in
      let valid = parking_event_value_known parsers field value in
      let stored = store_value car field value valid m in
      let q = store field value m p in
      elim (Bool-cases (retained || not valid || not (has_baseline car field m))) [
        | inl first ↦ rw first (receipt field value false true stored q)
        | inr live ↦ elim (Bool-cases (bytes_eq previous value)) [
          | inl same ↦ rw (live, same) (receipt field value false false stored q)
          | inr changed ↦ rw (live, changed) (record_change_keeps field previous value stored q)
        ]
      ]

  store_level_keeps :
      (level : Option ℤ) (m : ParkingEventMonitor) → P m → P (store_level car level m)
  unfolding store_level
  store_level_keeps level m p =
      elim (Bool-cases (option_eq eqb_ℤ (car_values car m).battery_level level)) [
        | inl same ↦ rw same p
        | inr other ↦
            rw other (write (record (car_values car m) { battery_level = level }) m refl p)
      ]

  store_range_keeps :
      (range : Option Float64) (m : ParkingEventMonitor) → P m → P (store_range car range m)
  unfolding store_range
  store_range_keeps range m p =
      elim (Bool-cases (option_eq float_eq (car_values car m).rated_range_km range)) [
        | inl same ↦ rw same p
        | inr other ↦
            rw other (write (record (car_values car m) { rated_range_km = range }) m refl p)
      ]

  pub observe_message_keeps :
      (field raw : Bytes) (retained : Bool) (m : ParkingEventMonitor)
      → P (with_slot car (bound_current_cars car at m))
      → P (observe_message parsers car field raw at retained m)
  unfolding observe_message
  observe_message_keeps field raw retained m p =
      let slotted = with_slot car (bound_current_cars car at m) in
      let value = observed_value field raw in
      elim (Bool-cases (text_is field "battery_level")) [
        | inl level ↦
            rw level (store_level_keeps (parse_bounded_int value (pos 0) (pos 100)) slotted p)
        | inr other ↦ elim (Bool-cases (text_is field "rated_battery_range_km")) [
          | inl range ↦
              rw (other, range)
                (store_range_keeps (parse_bounded_float parsers value (float_of 0) (float_of 1000))
                  slotted p)
          | inr text ↦ rw (other, text) (observe_value_keeps field value retained slotted p)
        ]
      ]
