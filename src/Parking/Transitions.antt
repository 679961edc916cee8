-- ===== src/Parking/Transitions.antt =====
-- Which events a message makes (parking_event_monitor.go, `observeMessage`).
use my_t_companion.Parking.Changes.{IsTransition, observe_value-All, make_event-IsTransition}
use my_t_companion.Parking.Keeps.{bound_current_cars_keeps}
use my_t_companion.Base.Float.{float_of}
use my_t_companion.Base.Int.{pos}
use my_t_companion.Parking.Reduced.{
  IsReduced, bound_current_cars-IsReduced, IsReduced-trans, with_slot-IsReduced,
}
use my_t_companion.Base.Maps.{IsMap}
use my_t_companion.Parking.Baselines.{IsWellFormed, IsReduced-IsWellFormed, IsReduced-has_baseline}
use my_t_companion.Parking.Bound.{bound_current_cars, evict}
use my_t_companion.Base.Eq.{nat_key}
use my_t_companion.Parking.Events.{parking_event_type}
use my_t_companion.Base.Text.{text_is}
use my_t_companion.Base.{
  All, ◌≡◌, arith, false, Bool-cases, inl, inr, refl, Mem, ◌⊎◌, Option, All-imp, All-Mem, subst,
}
use my_t_companion.Parking.Observe.{
  value_of, make_event, observed_value, with_slot, observe_message, store_range, store_level,
  parse_bounded_int, parse_bounded_float,
}
use my_t_companion.Parking.{
  Parsers, ParkingObservedEvent, ℕ, Bytes, Time, Bool, ParkingEventMonitor, car_values, Float64, ℤ,
}

pub bound_current_cars-events :
    (car : ℕ) (at : Time) (m : ParkingEventMonitor)
    → (bound_current_cars car at m).events ≡ m.events
unfolding evict
bound_current_cars-events car at m =
    bound_current_cars_keeps (λ after. after.events ≡ m.events) (λ id mid h. h)
      (λ receipts mid h. h) car at m refl

pub store_level-events :
    (car : ℕ) (level : Option ℤ) (m : ParkingEventMonitor)
    → (store_level car level m).events ≡ m.events
unfolding store_level
store_level-events car level m = ground arith

pub store_range-events :
    (car : ℕ) (range : Option Float64) (m : ParkingEventMonitor)
    → (store_range car range m).events ≡ m.events
unfolding store_range
store_range-events car range m = ground arith

-- Before its value is looked at, a message only forgets.
pub with_slot-bound_current_cars-IsReduced :
    (car : ℕ) (at : Time) (m : ParkingEventMonitor)
    → IsMap m.cars
    → IsMap m.baselines
    → IsReduced m (with_slot car (bound_current_cars car at m))
with_slot-bound_current_cars-IsReduced car at m cars baselines =
    let bounded = bound_current_cars car at m in
    let first = bound_current_cars-IsReduced car at m cars baselines in
    IsReduced-trans m bounded (with_slot car bounded) first
      (with_slot-IsReduced car bounded first.0 first.1)

-- What a message leaves of the events and adds to them.
module _ {ℓ} (P : ParkingObservedEvent → Type ℓ) where
  observe_message-All :
      (parsers : Parsers) (car : ℕ) (field raw : Bytes) (at : Time) (retained : Bool)
      (m : ParkingEventMonitor)
      → IsWellFormed parsers m
      → All P m.events
      → ((event : ParkingObservedEvent)
          → retained ≡ false
          → IsTransition parsers car field raw at (car_values car m).values event
          → P event)
      → All P (observe_message parsers car field raw at retained m).events
  unfolding observe_message with_slot
  observe_message-All parsers car field raw at retained m good old new =
      let slotted = with_slot car (bound_current_cars car at m) in
      let value = observed_value field raw in
      let reduced = with_slot-bound_current_cars-IsReduced car at m good.0 good.1 in
      let well = IsReduced-IsWellFormed parsers m slotted reduced good in
      let same_events = bound_current_cars-events car at m in
      elim (Bool-cases (text_is field "battery_level")) [
        | inl level ↦
            rw
              (
                level,
                store_level-events car (parse_bounded_int value (pos 0) (pos 100)) slotted,
                same_events,
              )
              old
        | inr other ↦ elim (Bool-cases (text_is field "rated_battery_range_km")) [
          | inl range ↦
              rw
                (
                  other,
                  range,
                  store_range-events car
                      (parse_bounded_float parsers value (float_of 0) (float_of 1000)) slotted,
                  same_events,
                )
                old
          | inr field_value ↦
              rw (other, field_value)
                (observe_value-All P parsers car field value at retained slotted
                  (rw same_events old)
                  (λ state live valid had changed named.
                    let values = (IsReduced-has_baseline m slotted car field reduced had).1 in
                    let type =
                      parking_event_type field (value_of field (car_values car slotted).values)
                        value in
                    let event = make_event car type field value at state in
                    new event live (
                      subst (λ vs. IsTransition parsers car field raw at vs event) values
                        (make_event-IsTransition parsers car field raw at
                          (car_values car slotted).values state named (well.2 car field had) valid
                          changed))))
        ]
      ]

-- After a message, each event was there before, or the message is live and the event is a change from
-- a value that was known to the one that the message says, at its time.
pub observe_message-IsTransition :
    (parsers : Parsers) (car : ℕ) (field raw : Bytes) (at : Time) (retained : Bool)
    (m : ParkingEventMonitor)
    → IsWellFormed parsers m
    → All
        (λ event.
          Mem event m.events
          ⊎ ((retained ≡ false)
              × IsTransition parsers car field raw at (car_values car m).values event))
        (observe_message parsers car field raw at retained m).events
observe_message-IsTransition parsers car field raw at retained m good =
    let Here = λ (e : ParkingObservedEvent).
      Mem e m.events
      ⊎ ((retained ≡ false) × IsTransition parsers car field raw at (car_values car m).values e) in
    observe_message-All Here parsers car field raw at retained m good
      (All-imp (λ e. Mem e m.events) Here m.events (λ e h. inl h) (All-Mem m.events))
      (λ e live change. inr (live, change))
