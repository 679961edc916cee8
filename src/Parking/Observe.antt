-- ===== src/Parking/Observe.antt =====
-- Messages, and what else changes or reads the events (parking_event_monitor.go).
use my_t_companion.Base.Float.{float_eq, is_nan, float_of, is_inf, float_lt}
use my_t_companion.Base.Int.{eqb_ℤ, pos, ltb_ℤ}
use my_t_companion.Base.Text.{
  parse_int, text_is, trim_space, is_blank, normalized_mqtt_value, lower_text,
}
use my_t_companion.Base.Maps.{insert, lookup, has_key, or_zero}
use my_t_companion.Base.Clock.{Time, Stamp, stamp_nano, hours}
use my_t_companion.Parking.{
  ParkingObservedEvent, ParkingEventMonitor, Parsers, ℤ, Float64, ParkingEventCarState, car_values,
  default_parking_event_maximum, ParkingDoorReceipt,
}
use my_t_companion.Base.{
  Bool, ℕ, ◌||◌, if◌then◌else◌, ◌++◌, List, keep, [], Option, none, false, ◌==◌, ◌∷◌, not, true,
  drop, ◌&&◌, some, length, leb, ◌-◌, ◌+◌, ◌*◌,
}
use my_t_companion.Base.Eq.{Bytes, codes, nat_key, bytes_key, bytes_eq}
use my_t_companion.Parking.Events.{parking_event_type, parking_event_value_known}
use my_t_companion.Parking.Receipts.{receipt_if_door}
use my_t_companion.Parking.Bound.{bound_current_cars}

abbrev pub observed_value : Bytes → Bytes → Bytes
observed_value field raw =
    if text_is field "scheduled_charging_start_time"
    then normalized_mqtt_value raw
    else lower_text (normalized_mqtt_value raw)

-- `parseBoundedInt` of charging_notification.go
unfoldable pub parse_bounded_int : Bytes → ℤ → ℤ → Option ℤ
parse_bounded_int value low high = elim (parse_int (trim_space value)) [
  | none ↦ none
  | some n ↦ if ltb_ℤ n low || ltb_ℤ high n then none else some n
]

-- `parseBoundedFloat` of charging_notification.go
unfoldable pub parse_bounded_float : Parsers → Bytes → Float64 → Float64 → Option Float64
parse_bounded_float parsers value low high = elim (parsers.parse_float (trim_space value)) [
  | none ↦ none
  | some x ↦ if is_nan x || is_inf x || float_lt x low || float_lt high x then none else some x
]

abbrev pub option_eq {ℓ} : {A : Type ℓ} → (A → A → Bool) → Option A → Option A → Bool
option_eq eq none none = true
option_eq eq (some a) (some b) = eq a b
option_eq eq _ _ = false

-- The baseline flag of a field
abbrev pub has_baseline : ℕ → Bytes → ParkingEventMonitor → Bool
has_baseline car field m = or_zero false (lookup field (or_zero [] (lookup car m.baselines)))

-- A car that is heard of has a slot in the caches.
unfoldable pub with_slot : ℕ → ParkingEventMonitor → ParkingEventMonitor
with_slot car m = record m {
  cars = insert car (car_values car m) m.cars;
  baselines = insert car (or_zero [] (lookup car m.baselines)) m.baselines;
}

unfoldable pub store_level : ℕ → Option ℤ → ParkingEventMonitor → ParkingEventMonitor
store_level car level m =
    if option_eq eqb_ℤ (car_values car m).battery_level level
    then m
    else record m { cars = insert car (record (car_values car m) { battery_level = level }) m.cars }

unfoldable pub store_range : ℕ → Option Float64 → ParkingEventMonitor → ParkingEventMonitor
store_range car range m =
    if option_eq float_eq (car_values car m).rated_range_km range then m else record m {
      cars = insert car (record (car_values car m) { rated_range_km = range }) m.cars;
    }

abbrev pub value_of : Bytes → List (Bytes × Bytes) → Bytes
value_of field values = or_zero [] (lookup field values)

-- The value and whether it is a baseline for the next.
unfoldable pub store_value : ℕ → Bytes → Bytes → Bool → ParkingEventMonitor → ParkingEventMonitor
store_value car field value known m = record m {
  baselines = insert car (insert field known (or_zero [] (lookup car m.baselines))) m.baselines;
  cars =
      insert car
        (record (car_values car m) { values = insert field value (car_values car m).values })
        m.cars;
}

-- Kept by `pruneLocked`; no retention is kept for ever.
unfoldable pub is_retained_event : ℕ → Time → ParkingObservedEvent → Bool
is_retained_event days now event = elim event.observed_at [
  | none ↦ false
  | some at ↦ days == 0 || leb now (at + hours (24 * days))
]

unfoldable pub newest : ℕ → List ParkingObservedEvent → List ParkingObservedEvent
newest limit events = drop (length events - limit) events

abbrev pub event_limit : ParkingEventMonitor → ℕ
event_limit m = if m.maximum_events == 0 then default_parking_event_maximum else m.maximum_events

unfoldable pub prune_events : Time → ParkingEventMonitor → ParkingEventMonitor
unfolding is_retained_event newest
prune_events now m = record m {
  events = newest (event_limit m) (keep (is_retained_event m.retention_days now) m.events);
}

unfoldable pub make_event :
    ℕ → Bytes → Bytes → Bytes → Time → ParkingEventCarState → ParkingObservedEvent
make_event car type field value at state = record {
  id = record { car = car; at = at; type = type };
  car_id = car;
  type = type;
  field = field;
  value = value;
  observed_at = stamp_nano at;
  battery_level = state.battery_level;
  rated_range_km = state.rated_range_km;
  charging_state = value_of (codes "charging_state") state.values;
  charge_cable = value_of (codes "conn_charge_cable") state.values;
}

unfoldable pub add_event : ParkingObservedEvent → Time → ParkingEventMonitor → ParkingEventMonitor
unfolding prune_events
add_event event at m = prune_events at (record m { events = m.events ++ event ∷ [] })

-- A live value that differs from the one before.
unfoldable pub record_change :
    ℕ → Bytes → Bytes → Bytes → Time → ParkingEventMonitor → ParkingEventMonitor
unfolding parking_event_type receipt_if_door make_event add_event
record_change car field previous value at m =
    let type = parking_event_type field previous value in
    if is_blank type
    then receipt_if_door car field value at false false m
    else receipt_if_door car field value at true false
        (add_event (make_event car type field value at (car_values car m)) at m)

unfoldable pub observe_value :
    Parsers → ℕ → Bytes → Bytes → Time → Bool → ParkingEventMonitor → ParkingEventMonitor
unfolding store_value parking_event_value_known receipt_if_door record_change
observe_value parsers car field value at retained m =
    let previous = value_of field (car_values car m).values in
    let known = parking_event_value_known parsers field value in
    let stored = store_value car field value known m in
    if retained || not known || not (has_baseline car field m)
    then receipt_if_door car field value at false true stored
    else if bytes_eq previous value
    then receipt_if_door car field value at false false stored
    else record_change car field previous value at stored

unfoldable pub observe_message :
    Parsers → ℕ → Bytes → Bytes → Time → Bool → ParkingEventMonitor → ParkingEventMonitor
unfolding bound_current_cars with_slot store_level store_range observe_value parse_bounded_int
    parse_bounded_float
observe_message parsers car field raw at retained m =
    let value = observed_value field raw in
    let ready = with_slot car (bound_current_cars car at m) in
    if text_is field "battery_level"
    then store_level car (parse_bounded_int value (pos 0) (pos 100)) ready
    else if text_is field "rated_battery_range_km"
    then store_range car (parse_bounded_float parsers value (float_of 0) (float_of 1000)) ready
    else observe_value parsers car field value at retained ready

-- A connection that is lost or made forgets every baseline.
unfoldable pub reset_mqtt_baseline : ParkingEventMonitor → ParkingEventMonitor
reset_mqtt_baseline m = record m { baselines = [] }

-- Cars that left the fleet lose their caches and receipts; their events stay.
unfoldable pub reconcile_fleet : (ℕ → Bool) → ParkingEventMonitor → ParkingEventMonitor
reconcile_fleet in_fleet m =
    let stays = λ (id : ℕ). in_fleet id || not (has_key id m.cars) in
    record m {
      cars = keep (λ (e : ℕ × ParkingEventCarState). in_fleet e.0) m.cars;
      baselines = keep (λ (e : ℕ × List (Bytes × Bool)). stays e.0) m.baselines;
      last_receipt = keep (λ (e : ℕ × Time). stays e.0) m.last_receipt;
      door_receipts =
          keep (λ (e : (ℕ × Bytes) × ParkingDoorReceipt). in_fleet e.1.car_id) m.door_receipts;
    }

abbrev is_between : Time → Time → Stamp → Bool
is_between first final none = false
is_between first final (some at) = leb first at && leb at final

-- `events`: those of a car between two times, both included.
unfoldable pub events_between : ℕ → Time → Time → ParkingEventMonitor → List ParkingObservedEvent
events_between car first final m =
    keep (λ (e : ParkingObservedEvent). e.car_id == car && is_between first final e.observed_at)
      m.events
