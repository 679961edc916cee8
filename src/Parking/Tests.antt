-- ===== src/Parking/Tests.antt =====
-- Runs of the parking event monitor at concrete values.
use my_t_companion.Parking.Changes.{IsTransition}
use my_t_companion.Parking.Delivery.{observe_message_last}
use my_t_companion.Parking.Room.{bound_loop_ends}
use my_t_companion.Parking.Transitions.{observe_message-IsTransition}
use my_t_companion.Parking.Silence.{reset_mqtt_baseline_quiet, is_message_of}
use my_t_companion.Parking.Bounds.{HasRecords, observe_message-Fits}
use my_t_companion.Parking.Baselines.{IsWellFormed}
use my_t_companion.Base.{
  All, map, length, false, [], last?, ◌≡◌, Mem, ◌≤◌, ◌∷◌, arith, ◌⊎◌, some, refl, true,
}
use my_t_companion.Base.Text.{
  to_lower, to_upper, is_space, trim_left, trim_space, hex_value, hex_decode, decode_runes,
  collapse_spaces, parse_int, normalized_mqtt_value, collapsed_display_name,
}
use my_t_companion.Base.Maps.{lookup, insert, delete, has_key}
use my_t_companion.Base.Int.{pos_part, neg_part, sub_ℕ, ◌+ℤ◌, ◌-ℤ◌}
use my_t_companion.Base.Float.{
  float_one, float_of, float_neg, max_float64, float_lt, float_eq, float_le, is_nan, is_inf,
}
use my_t_companion.Base.Eq.{bytes_eq, pair_beq, codes, Bytes, nat_key}
use my_t_companion.Parking.Receipts.{
  receive, record_door_receipt, receipt_if_door, door_diagnostics,
}
use my_t_companion.Parking.Observe.{
  parse_bounded_int, parse_bounded_float, with_slot, store_level, store_range, store_value,
  is_retained_event, newest, prune_events, make_event, add_event, record_change, observe_value,
  observe_message, reset_mqtt_baseline, reconcile_fleet, events_between,
}
use my_t_companion.Parking.Events.{
  bool_event, parking_charging_event_type, sun_roof_event, bool_field_event, parking_event_type,
  parking_event_value_known, is_named_door_field,
}
use my_t_companion.Parking.Calls.{call, run, run-IsWellFormed, Call, run-HasRecords, message}
use my_t_companion.Parking.Bound.{oldest_car, evict, has_room, bound_loop, bound_current_cars}
use my_t_companion.Parking.{
  Parsers, List, ParkingObservedEvent, none, ParkingEventMonitor, maximum_parking_current_cars,
  car_values,
}

abbrev parsers : Parsers
parsers = record { parse_float = λ t. none; is_time = λ t. false }

abbrev fresh : ParkingEventMonitor
fresh = record {
  retention_days = 30;
  maximum_events = 2;
  cars = [];
  events = [];
  door_receipts = [];
  baselines = [];
  last_receipt = [];
}

abbrev lock_field : Bytes
lock_field = codes "locked"

abbrev door_field : Bytes
door_field = codes "driver_front_door_open"

-- A retained value, then live ones
abbrev calls : List Call
calls =
    message 7 lock_field (codes "false") 100 true
    ∷ message 7 door_field (codes "false") 200 false
    ∷ message 7 door_field (codes "true") 300 false
    ∷ message 8 (codes "battery_level") (codes "50") 400 false
    ∷ []

abbrev parked : ParkingEventMonitor
parked = run parsers calls fresh

fresh-IsWellFormed : IsWellFormed parsers fresh
unfolding lookup
fresh-IsWellFormed = (tt, tt, λ car field had. absurd (cc))

parked-IsWellFormed : IsWellFormed parsers parked
parked-IsWellFormed = run-IsWellFormed parsers calls fresh fresh-IsWellFormed

opened_once :
    map (λ (e : ParkingObservedEvent). e.type) parked.events ≡ codes "driver_front_door_opened" ∷ []
unfolding oldest_car evict has_room bound_loop bound_current_cars call run bool_event
    parking_charging_event_type sun_roof_event bool_field_event parking_event_type
    parking_event_value_known is_named_door_field parse_bounded_int parse_bounded_float with_slot
    store_level store_range store_value is_retained_event newest prune_events make_event add_event
    record_change observe_value observe_message reset_mqtt_baseline reconcile_fleet events_between
    receive record_door_receipt receipt_if_door door_diagnostics bytes_eq pair_beq float_one
    float_of float_neg max_float64 float_lt float_eq float_le is_nan is_inf pos_part neg_part sub_ℕ
    ◌+ℤ◌ ◌-ℤ◌ lookup insert delete to_lower to_upper is_space trim_left trim_space hex_value
    hex_decode decode_runes collapse_spaces parse_int normalized_mqtt_value collapsed_display_name
opened_once = refl

bound_loop_ends_example :
    (after : ParkingEventMonitor) × ((bound_loop 2 7 parked ≡ some after)
      × (has_room 7 after ≡ true))
unfolding oldest_car evict has_room bound_loop bound_current_cars call run bool_event
    parking_charging_event_type sun_roof_event bool_field_event parking_event_type
    parking_event_value_known is_named_door_field parse_bounded_int parse_bounded_float with_slot
    store_level store_range store_value is_retained_event newest prune_events make_event add_event
    record_change observe_value observe_message reset_mqtt_baseline reconcile_fleet events_between
    receive record_door_receipt receipt_if_door door_diagnostics bytes_eq pair_beq float_one
    float_of float_neg max_float64 float_lt float_eq float_le is_nan is_inf pos_part neg_part sub_ℕ
    ◌+ℤ◌ ◌-ℤ◌ lookup insert delete to_lower to_upper is_space trim_left trim_space hex_value
    hex_decode decode_runes collapse_spaces parse_int normalized_mqtt_value collapsed_display_name
bound_loop_ends_example = bound_loop_ends 2 7 parked (omega arith)

observe_message-Fits_example :
    (length (observe_message parsers 7 lock_field (codes "true") 500 false parked).cars
      ≤ maximum_parking_current_cars)
    × (has_key 7 (observe_message parsers 7 lock_field (codes "true") 500 false parked).cars ≡ true)
observe_message-Fits_example =
    observe_message-Fits parsers 7 lock_field (codes "true") 500 false parked

run-IsWellFormed_example : IsWellFormed parsers (run parsers calls fresh)
run-IsWellFormed_example = run-IsWellFormed parsers calls fresh fresh-IsWellFormed

run-HasRecords_example : HasRecords (run parsers calls fresh)
run-HasRecords_example = run-HasRecords parsers calls fresh (omega arith, tt)

observe_message-IsTransition_example :
    All
      (λ event.
        Mem event parked.events
        ⊎ ((false ≡ false)
            × IsTransition parsers 7 lock_field
                (codes "true")
                500
                (car_values 7 parked).values
                event))
      (observe_message parsers 7 lock_field (codes "true") 500 false parked).events
observe_message-IsTransition_example =
    observe_message-IsTransition parsers 7 lock_field (codes "true") 500 false parked
      parked-IsWellFormed

observe_message_last_example :
    (event : ParkingObservedEvent) × ((last?
          (observe_message parsers 7 door_field (codes "false") 500 false parked).events
        ≡ some event)
      × IsTransition parsers 7 door_field (codes "false") 500 (car_values 7 parked).values event)
unfolding oldest_car evict has_room bound_loop bound_current_cars call run bool_event
    parking_charging_event_type sun_roof_event bool_field_event parking_event_type
    parking_event_value_known is_named_door_field parse_bounded_int parse_bounded_float with_slot
    store_level store_range store_value is_retained_event newest prune_events make_event add_event
    record_change observe_value observe_message reset_mqtt_baseline reconcile_fleet events_between
    receive record_door_receipt receipt_if_door door_diagnostics bytes_eq pair_beq float_one
    float_of float_neg max_float64 float_lt float_eq float_le is_nan is_inf pos_part neg_part sub_ℕ
    ◌+ℤ◌ ◌-ℤ◌ lookup insert delete to_lower to_upper is_space trim_left trim_space hex_value
    hex_decode decode_runes collapse_spaces parse_int normalized_mqtt_value collapsed_display_name
observe_message_last_example =
    observe_message_last parsers 7 door_field (codes "false") 500 parked parked-IsWellFormed refl
      refl refl refl refl (λ same. cc) refl

abbrev elsewhere : List Call
elsewhere = message 8 door_field (codes "true") 450 false ∷ []

elsewhere_others : All (λ c. is_message_of 7 door_field c ≡ false) elsewhere
unfolding is_message_of
elsewhere_others = (refl, tt)

reset_mqtt_baseline_quiet_example :
    (observe_message parsers 7 door_field
      (codes "false")
      500
      false
      (run parsers elsewhere (reset_mqtt_baseline parked))).events
    ≡ (run parsers elsewhere (reset_mqtt_baseline parked)).events
reset_mqtt_baseline_quiet_example =
    reset_mqtt_baseline_quiet parsers 7 door_field (codes "false") 500 false elsewhere parked
      parked-IsWellFormed elsewhere_others
