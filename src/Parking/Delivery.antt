-- ===== src/Parking/Delivery.antt =====
-- A change that is seen live is recorded, and the first message of a connection is not
-- (parking_event_monitor.go).

use my_t_companion.Parking.Changes.{IsTransition, receipt_if_door-events, make_event-IsTransition}
use my_t_companion.Parking.Events.{parking_event_type, parking_event_value_known}
use my_t_companion.Base.Eq.{nat_key, bytes_eq, bytes_eq_iff}
use my_t_companion.Parking.Baselines.{IsWellFormed}
use my_t_companion.Base.Text.{is_blank, text_is}
use my_t_companion.Base.Maps.{insert, lookup-insert_self, lookup, or_zero}
use my_t_companion.Parking.Bound.{bound_current_cars, bound_loop, has_room}
use my_t_companion.Parking.{
  ParkingObservedEvent, Time, ParkingEventMonitor, Bytes, Parsers, car_values, ParkingEventCarState,
}
use my_t_companion.Parking.Observe.{
  add_event, prune_events, newest, is_retained_event, event_limit, observe_message, record_change,
  observe_value, has_baseline, make_event, observed_value, value_of, with_slot, store_value,
}
use my_t_companion.Base.{
  Bool, List, ℕ, ◌≡◌, last?, ◌<◌, length, ◌++◌, true, drop, keep, ◌∷◌, suc, [], Bool-cases, arith,
  some, refl, inl, zero, inr, length-append, ◌-◌, ◌∙◌, false, ◌≢◌, ap, subst, sym,
}

-- The last of a list whose front is cut off
last?-drop : {A : Type 0} (n : ℕ) (xs : List A) → n < length xs → last? (drop n xs) ≡ last? xs
last?-drop zero xs h = refl
last?-drop (suc n) [] h = absurd (omega (arith, h))
last?-drop (suc n) (x ∷ []) h = absurd (omega (arith, h))
last?-drop (suc n) (x ∷ y ∷ xs) h = last?-drop n (y ∷ xs) (omega (arith, h))

last?-append : {A : Type 0} (xs : List A) (x : A) → last? (xs ++ x ∷ []) ≡ some x
last?-append [] x = refl
last?-append (y ∷ []) x = refl
last?-append (y ∷ z ∷ xs) x = last?-append (z ∷ xs) x

keep-append_last :
    {A : Type 0} (p : A → Bool) (xs : List A) (x : A)
    → p x ≡ true
    → keep p (xs ++ x ∷ []) ≡ keep p xs ++ x ∷ []
keep-append_last p [] x h = rw h refl
keep-append_last p (y ∷ xs) x h = elim (Bool-cases (p y)) [
  | inl stays ↦ rw (stays, keep-append_last p xs x h) refl
  | inr goes ↦ rw (goes, keep-append_last p xs x h) refl
]

is_retained_event_now :
    (days : ℕ) (at : Time) (event : ParkingObservedEvent)
    → event.observed_at ≡ some at
    → is_retained_event days at event ≡ true
unfolding is_retained_event
is_retained_event_now days at event now = rw now (ground arith)

event_limit_pos : (m : ParkingEventMonitor) → 0 < event_limit m
event_limit_pos m = ground arith

newest_last :
    (limit : ℕ) (xs : List ParkingObservedEvent) (event : ParkingObservedEvent)
    → 0 < limit
    → last? (newest limit (xs ++ event ∷ [])) ≡ some event
unfolding newest
newest_last limit xs event some_room =
    let all = xs ++ event ∷ [] in
    let short = length-append xs (event ∷ []) in
    last?-drop (length all - limit) all (omega (arith, some_room, short)) ∙ last?-append xs event

add_event_last :
    (event : ParkingObservedEvent) (at : Time) (m : ParkingEventMonitor)
    → event.observed_at ≡ some at
    → last? (add_event event at m).events ≡ some event
unfolding add_event prune_events
add_event_last event at m now =
    let retained = is_retained_event m.retention_days at in
    rw
      (keep-append_last retained m.events event
        (is_retained_event_now m.retention_days at event now))
      (newest_last (event_limit m) (keep retained m.events) event (event_limit_pos m))

record_change_last :
    (car : ℕ) (field previous value : Bytes) (at : Time) (m : ParkingEventMonitor)
    → is_blank (parking_event_type field previous value) ≡ false
    → last? (record_change car field previous value at m).events
      ≡ some (
          make_event car
            (parking_event_type field previous value)
            field
            value
            at
            (car_values car m))
unfolding record_change
record_change_last car field previous value at m named =
    let event =
      make_event car (parking_event_type field previous value) field value at (car_values car m) in
    rw (named, receipt_if_door-events car field value at true false (add_event event at m))
      (add_event_last event at m refl)

bound_loop-has_room :
    (fuel car : ℕ) (m : ParkingEventMonitor)
    → has_room car m ≡ true
    → bound_loop fuel car m ≡ some m
unfolding bound_loop
bound_loop-has_room zero car m room = rw room refl
bound_loop-has_room (suc fuel) car m room = rw room refl

-- With room for the car, bounding touches only the time of its last message.
has_room-bound_current_cars :
    (car : ℕ) (at : Time) (m : ParkingEventMonitor)
    → has_room car m ≡ true
    → bound_current_cars car at m ≡ record m { last_receipt = insert car at m.last_receipt }
unfolding bound_current_cars
has_room-bound_current_cars car at m room = rw (bound_loop-has_room (length m.cars) car m room) refl

-- A new slot holds what the car had.
with_slot-car_values :
    (car : ℕ) (m : ParkingEventMonitor) → car_values car (with_slot car m) ≡ car_values car m
unfolding with_slot
with_slot-car_values car m = rw (lookup-insert_self car (car_values car m) m.cars) refl

with_slot-has_baseline :
    (car : ℕ) (field : Bytes) (m : ParkingEventMonitor)
    → has_baseline car field (with_slot car m) ≡ has_baseline car field m
unfolding with_slot
with_slot-has_baseline car field m =
    rw (lookup-insert_self car (or_zero [] (lookup car m.baselines)) m.baselines) refl

-- A live value that differs from its baseline
observe_value_last :
    (parsers : Parsers) (car : ℕ) (field value previous : Bytes) (at : Time)
    (m : ParkingEventMonitor)
    → has_baseline car field m ≡ true
    → parking_event_value_known parsers field value ≡ true
    → value_of field (car_values car m).values ≡ previous
    → previous ≢ value
    → is_blank (parking_event_type field previous value) ≡ false
    → last? (observe_value parsers car field value at false m).events
      ≡ some (
          make_event car
            (parking_event_type field previous value)
            field
            value
            at
            (car_values car (store_value car field value true m)))
unfolding observe_value
observe_value_last parsers car field value previous at m had valid before changed named =
    elim (Bool-cases (bytes_eq previous value)) [
      | inl same ↦ absurd (changed ((bytes_eq_iff previous value).0 same))
      | inr differ ↦
          rw (had, valid, before, differ)
            (record_change_last car field previous value at (store_value car field value true m)
              named)
    ]

-- While there is room for the car, a live message that says another known value than the one of the
-- baseline, of a field whose change to that value has a name, is recorded: the newest event is that change.
pub observe_message_last :
    (parsers : Parsers) (car : ℕ) (field raw : Bytes) (at : Time) (m : ParkingEventMonitor)
    → IsWellFormed parsers m
    → has_room car m ≡ true
    → text_is field "battery_level" ≡ false
    → text_is field "rated_battery_range_km" ≡ false
    → has_baseline car field m ≡ true
    → parking_event_value_known parsers field (observed_value field raw) ≡ true
    → value_of field (car_values car m).values ≢ observed_value field raw
    → is_blank (
        parking_event_type field
          (value_of field (car_values car m).values)
          (observed_value field raw))
      ≡ false
    → (event : ParkingObservedEvent) × ((last?
            (observe_message parsers car field raw at false m).events
          ≡ some event)
        × IsTransition parsers car field raw at (car_values car m).values event)
unfolding observe_message
observe_message_last parsers car field raw at m good room level range had valid changed named =
    let value = observed_value field raw in
    let touched = record m { last_receipt = insert car at m.last_receipt } in
    let slotted = with_slot car touched in
    let stored = store_value car field value true slotted in
    let type = parking_event_type field (value_of field (car_values car m).values) value in
    let event = make_event car type field value at (car_values car stored) in
    let baseline = with_slot-has_baseline car field touched ∙ had in
    let before =
      ap (λ (c : ParkingEventCarState). value_of field c.values)
        (with_slot-car_values car touched) in
    let recorded =
      observe_value_last parsers car field value (value_of field (car_values car m).values) at
        slotted baseline valid before changed named in
    (
      event,
      (
        rw (level, range)
            (subst
              (λ b.
                last? (observe_value parsers car field value at false (with_slot car b)).events
                ≡ some event)
              (sym (has_room-bound_current_cars car at m room)) recorded),
        make_event-IsTransition parsers car field raw at (car_values car m).values
            (car_values car stored) named (good.2 car field had) valid changed,
      ),
    )
