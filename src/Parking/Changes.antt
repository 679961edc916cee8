-- ===== src/Parking/Changes.antt =====
-- The event that a live value makes (parking_event_monitor.go, `observeMessage`).
use my_t_companion.Base.Eq.{bytes_eq, bytes_eq_iff, nat_key}
use my_t_companion.Parking.Events.{parking_event_type, parking_event_value_known}
use my_t_companion.Base.Text.{is_blank}
use my_t_companion.Base.{
  All, ◌≡◌, All-drop, arith, false, All-keep, ◌++◌, true, some, ◌∷◌, ◌≢◌, [], All-append,
  Bool-cases, ◌||◌, inl, not, inr, refl, List,
}
use my_t_companion.Parking.Observe.{
  observe_value, record_change, add_event, prune_events, store_value, newest, value_of,
  is_retained_event, make_event, observed_value, has_baseline,
}
use my_t_companion.Parking.Receipts.{receipt_if_door, record_door_receipt}
use my_t_companion.Parking.{
  Parsers, ParkingObservedEvent, ℕ, Bytes, Time, Bool, ParkingEventMonitor, ParkingEventCarState,
  car_values,
}

-- The event is a change of the car's field, from the known value that it has in `values`, to what the
-- message says.
abbrev pub IsTransition :
    Parsers → ℕ → Bytes → Bytes → Time → List (Bytes × Bytes) → ParkingObservedEvent → Type 0
IsTransition parsers car field raw at values event =
    let previous = value_of field values in
    let type = parking_event_type field previous (observed_value field raw) in
    (event.type ≡ type)
    × (is_blank type ≡ false)
    × (event.car_id ≡ car)
    × (event.field ≡ field)
    × (event.value ≡ observed_value field raw)
    × (event.observed_at ≡ some at)
    × (parking_event_value_known parsers field previous ≡ true)
    × (parking_event_value_known parsers field (observed_value field raw) ≡ true)
    × (previous ≢ observed_value field raw)

pub make_event-IsTransition :
    (parsers : Parsers) (car : ℕ) (field raw : Bytes) (at : Time) (values : List (Bytes × Bytes))
    (state : ParkingEventCarState)
    → is_blank (parking_event_type field (value_of field values) (observed_value field raw)) ≡ false
    → parking_event_value_known parsers field (value_of field values) ≡ true
    → parking_event_value_known parsers field (observed_value field raw) ≡ true
    → value_of field values ≢ observed_value field raw
    → IsTransition parsers car field raw at values (
        make_event car
          (parking_event_type field (value_of field values) (observed_value field raw))
          field
          (observed_value field raw)
          at
          state)
unfolding make_event
make_event-IsTransition parsers car field raw at values state named before valid changed =
    (refl, named, refl, refl, refl, refl, before, valid, changed)

pub receipt_if_door-events :
    (car : ℕ) (field value : Bytes) (at : Time) (stored baseline : Bool) (m : ParkingEventMonitor)
    → (receipt_if_door car field value at stored baseline m).events ≡ m.events
unfolding receipt_if_door record_door_receipt
receipt_if_door-events car field value at stored baseline m = ground arith

bytes_neq : (a b : Bytes) → bytes_eq a b ≡ false → a ≢ b
bytes_neq a b differ same = ground (arith, differ, (bytes_eq_iff a b).1 same)

module _ {ℓ} (P : ParkingObservedEvent → Type ℓ) where
  -- Pruning and adding keep what holds of every event.
  add_event-All :
      (event : ParkingObservedEvent) (at : Time) (m : ParkingEventMonitor)
      → All P m.events
      → P event
      → All P (add_event event at m).events
  unfolding add_event prune_events newest
  add_event-All event at m old new = All-drop P _ _ (
      All-keep P (is_retained_event m.retention_days at) (m.events ++ event ∷ [])
        (All-append P m.events (event ∷ []) old (new, tt)))

  record_change-All :
      (car : ℕ) (field previous value : Bytes) (at : Time) (m : ParkingEventMonitor)
      → All P m.events
      → (is_blank (parking_event_type field previous value) ≡ false
          → P (
              make_event car
                (parking_event_type field previous value)
                field
                value
                at
                (car_values car m)))
      → All P (record_change car field previous value at m).events
  unfolding record_change
  record_change-All car field previous value at m old new =
      let type = parking_event_type field previous value in
      let event = make_event car type field value at (car_values car m) in
      elim (Bool-cases (is_blank type)) [
        | inl blank ↦ rw (blank, receipt_if_door-events car field value at false false m) old
        | inr named ↦
            rw (named, receipt_if_door-events car field value at true false (add_event event at m))
              (add_event-All event at m old (new named))
      ]

  pub observe_value-All :
      (parsers : Parsers) (car : ℕ) (field value : Bytes) (at : Time) (retained : Bool)
      (m : ParkingEventMonitor)
      → All P m.events
      → ((state : ParkingEventCarState)
          → retained ≡ false
          → parking_event_value_known parsers field value ≡ true
          → has_baseline car field m ≡ true
          → value_of field (car_values car m).values ≢ value
          → is_blank (parking_event_type field (value_of field (car_values car m).values) value)
            ≡ false
          → P (
              make_event car
                (parking_event_type field (value_of field (car_values car m).values) value)
                field
                value
                at
                state))
      → All P (observe_value parsers car field value at retained m).events
  unfolding observe_value store_value
  observe_value-All parsers car field value at retained m old new =
      let previous = value_of field (car_values car m).values in
      let valid = parking_event_value_known parsers field value in
      let stored = store_value car field value valid m in
      elim (Bool-cases (retained || not valid || not (has_baseline car field m))) [
        | inl first ↦ rw (first, receipt_if_door-events car field value at false true stored) old
        | inr live ↦ elim (Bool-cases (bytes_eq previous value)) [
          | inl same ↦
              rw (live, same, receipt_if_door-events car field value at false false stored) old
          | inr changed ↦
              rw (live, changed)
                (record_change-All car field previous value at stored old (
                  new (car_values car stored) (ground (arith, live)) (ground (arith, live))
                    (ground (arith, live)) (bytes_neq previous value changed)))
        ]
      ]
