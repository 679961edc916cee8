-- ===== src/LowBattery/Tests.antt =====
-- Runs of the low-battery monitor at concrete values.
use my_t_companion.LowBattery.Waiting.{run, is_evaluation, reset_observation_baseline_quiet}
use mathlib.Core.List.{flat_map}
use my_t_companion.Base.{◌∷◌, true, All, ◌≡◌, ◌≢◌, ◌++◌, some, [], none, false, refl}
use my_t_companion.Base.Text.{
  to_lower, to_upper, is_space, trim_left, trim_space, hex_value, hex_decode, decode_runes,
  collapse_spaces, parse_int, normalized_mqtt_value, collapsed_display_name,
}
use my_t_companion.Base.Maps.{lookup, insert, delete}
use my_t_companion.Base.Int.{pos_part, neg_part, sub_ℕ, ◌+ℤ◌, ◌-ℤ◌}
use my_t_companion.Base.Float.{
  float_one, float_of, float_neg, max_float64, float_lt, float_eq, float_le, is_nan, is_inf,
}
use my_t_companion.Base.Eq.{bytes_eq, Bytes, codes}
use my_t_companion.LowBattery.Observe.{
  read_level, read_field, settle, store_reading, observe_message, reset_observation_baseline,
  reconcile_fleet, battery_level_field, state_field, charging_state_field,
}
use my_t_companion.LowBattery.Actions.{
  parse_action, action_state, record_on, record_action, apply_parsed, apply_action, is_due,
  complete_due, due_installations, remind_car, car_reminders, process_due_reminders,
}
use my_t_companion.LowBattery.{
  low_battery_is_charging, is_resting, low_battery_eligible, LowBatteryMonitor, hours,
  LowBatteryCarState, List, empty_car, snooze_4h,
}
use my_t_companion.LowBattery.Evaluate.{
  evaluate, evaluate_car, rearm, close_snoozes, baseline, cancel_on_charge, alert, reevaluate,
  evaluate_found, vehicle_low_battery, vehicle_low_battery_severe,
}
use my_t_companion.LowBattery.Trace.{
  alert-once, StaysBelow, alerts, Call, step, evaluated, observed, alerted, alert_for,
}
use my_t_companion.LowBattery.Evaluate.Latch.{evaluate_car-IsAlert, IsAlert, repeat_level}
use my_t_companion.LowBattery.Reminders.{reminders-once}

abbrev episode : Bytes
episode = codes "1-100-abcdef"

abbrev resting_car : LowBatteryCarState
resting_car = record empty_car {
  state = codes "online";
  charging_state = codes "disconnected";
  battery_level = some 19;
  initialized = true;
}

abbrev resting_monitor : LowBatteryMonitor
resting_monitor = record { cars = (1, resting_car) ∷ []; timers = [] }

abbrev evaluation : Call
evaluation = evaluated 1 episode (hours 1)

sent : alerted 1 evaluation resting_monitor ≡ some vehicle_low_battery
unfolding low_battery_is_charging is_resting low_battery_eligible parse_action action_state
    record_on record_action apply_parsed apply_action is_due complete_due due_installations
    remind_car car_reminders process_due_reminders rearm close_snoozes baseline cancel_on_charge
    alert reevaluate evaluate_car evaluate_found evaluate read_level read_field settle store_reading
    observe_message reset_observation_baseline reconcile_fleet step alert_for alerted alerts
    StaysBelow bytes_eq float_one float_of float_neg max_float64 float_lt float_eq float_le is_nan
    is_inf pos_part neg_part sub_ℕ ◌+ℤ◌ ◌-ℤ◌ lookup insert delete to_lower to_upper is_space
    trim_left trim_space hex_value hex_decode decode_runes collapse_spaces parse_int
    normalized_mqtt_value collapsed_display_name
sent = refl

abbrev later : List Call
later =
    observed 1 battery_level_field (codes "8") (hours 2) false ∷ evaluated 1 episode (hours 3) ∷ []

stays : StaysBelow (repeat_level vehicle_low_battery) 1 later (step evaluation resting_monitor)
unfolding low_battery_is_charging is_resting low_battery_eligible parse_action action_state
    record_on record_action apply_parsed apply_action is_due complete_due due_installations
    remind_car car_reminders process_due_reminders rearm close_snoozes baseline cancel_on_charge
    alert reevaluate evaluate_car evaluate_found evaluate read_level read_field settle store_reading
    observe_message reset_observation_baseline reconcile_fleet step alert_for alerted alerts
    StaysBelow bytes_eq float_one float_of float_neg max_float64 float_lt float_eq float_le is_nan
    is_inf pos_part neg_part sub_ℕ ◌+ℤ◌ ◌-ℤ◌ lookup insert delete to_lower to_upper is_space
    trim_left trim_space hex_value hex_decode decode_runes collapse_spaces parse_int
    normalized_mqtt_value collapsed_display_name
stays = (refl, tt)

alert-once_example :
    All (λ a. a ≢ vehicle_low_battery) (alerts 1 later (step evaluation resting_monitor))
alert-once_example = alert-once vehicle_low_battery 1 evaluation later resting_monitor sent stays

-- The severe alert follows once.
escalates :
    alerts 1 (evaluation ∷ later ++ later) resting_monitor
    ≡ vehicle_low_battery ∷ vehicle_low_battery_severe ∷ []
unfolding low_battery_is_charging is_resting low_battery_eligible parse_action action_state
    record_on record_action apply_parsed apply_action is_due complete_due due_installations
    remind_car car_reminders process_due_reminders rearm close_snoozes baseline cancel_on_charge
    alert reevaluate evaluate_car evaluate_found evaluate read_level read_field settle store_reading
    observe_message reset_observation_baseline reconcile_fleet step alert_for alerted alerts
    StaysBelow bytes_eq float_one float_of float_neg max_float64 float_lt float_eq float_le is_nan
    is_inf pos_part neg_part sub_ℕ ◌+ℤ◌ ◌-ℤ◌ lookup insert delete to_lower to_upper is_space
    trim_left trim_space hex_value hex_decode decode_runes collapse_spaces parse_int
    normalized_mqtt_value collapsed_display_name
escalates = refl

car_sent : (evaluate_car episode (hours 1) resting_car).1 ≡ some vehicle_low_battery
unfolding low_battery_is_charging is_resting low_battery_eligible parse_action action_state
    record_on record_action apply_parsed apply_action is_due complete_due due_installations
    remind_car car_reminders process_due_reminders rearm close_snoozes baseline cancel_on_charge
    alert reevaluate evaluate_car evaluate_found evaluate read_level read_field settle store_reading
    observe_message reset_observation_baseline reconcile_fleet step alert_for alerted alerts
    StaysBelow bytes_eq float_one float_of float_neg max_float64 float_lt float_eq float_le is_nan
    is_inf pos_part neg_part sub_ℕ ◌+ℤ◌ ◌-ℤ◌ lookup insert delete to_lower to_upper is_space
    trim_left trim_space hex_value hex_decode decode_runes collapse_spaces parse_int
    normalized_mqtt_value collapsed_display_name
car_sent = refl

evaluate_car-IsAlert_example :
    IsAlert vehicle_low_battery resting_car (evaluate_car episode (hours 1) resting_car).0
evaluate_car-IsAlert_example =
    evaluate_car-IsAlert episode (hours 1) resting_car vehicle_low_battery car_sent

abbrev back_online : List Call
back_online =
    observed 1 state_field (codes "online") (hours 1) false
    ∷ observed 1 charging_state_field (codes "disconnected") (hours 1) false
    ∷ observed 1 battery_level_field (codes "8") (hours 1) false
    ∷ evaluated 2 episode (hours 2)
    ∷ []

back_online_others : All (λ k. is_evaluation 1 k ≡ false) back_online
unfolding is_evaluation
back_online_others = (refl, (refl, (refl, (refl, tt))))

reset_observation_baseline_quiet_example :
    (evaluate 1 episode (hours 2) (run back_online (reset_observation_baseline resting_monitor))).1
    ≡ none
reset_observation_baseline_quiet_example =
    reset_observation_baseline_quiet 1 back_online episode (hours 2) resting_monitor
      back_online_others

abbrev snoozed : LowBatteryMonitor
snoozed = record {
  cars =
      (
        1,
        record resting_car {
          latched = true;
          episode_id = episode;
          actions =
              (
                codes "phone",
                record { action = snooze_4h; snooze_until = some (hours 4); updated_at = none },
              )
              ∷ [];
        },
      )
      ∷ [];
  timers = [];
}

reminded_now : (process_due_reminders (λ car. true) (hours 5) snoozed).1 ≡ (1, codes "phone") ∷ []
unfolding low_battery_is_charging is_resting low_battery_eligible parse_action action_state
    record_on record_action apply_parsed apply_action is_due complete_due due_installations
    remind_car car_reminders process_due_reminders rearm close_snoozes baseline cancel_on_charge
    alert reevaluate evaluate_car evaluate_found evaluate read_level read_field settle store_reading
    observe_message reset_observation_baseline reconcile_fleet step alert_for alerted alerts
    StaysBelow bytes_eq float_one float_of float_neg max_float64 float_lt float_eq float_le is_nan
    is_inf pos_part neg_part sub_ℕ ◌+ℤ◌ ◌-ℤ◌ lookup insert delete to_lower to_upper is_space
    trim_left trim_space hex_value hex_decode decode_runes collapse_spaces parse_int
    normalized_mqtt_value collapsed_display_name flat_map
reminded_now = refl

reminders-once_example :
    (process_due_reminders
      (λ car. true)
      (hours 5)
      (process_due_reminders (λ car. true) (hours 5) snoozed).0).1
    ≡ []
reminders-once_example = reminders-once (λ car. true) (hours 5) snoozed
