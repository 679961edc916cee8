-- ===== src/LowBattery/Observe.antt =====
-- Messages from MQTT and connection changes (low_battery_notification.go, mqtt_monitor_lifecycle.go).
use my_t_companion.Base.Text.{
  collapsed_display_name, lower_text, is_blank, normalized_mqtt_value, upper_text, parse_int,
}
use my_t_companion.Base.Maps.{insert, has_key}
use my_t_companion.Base.Clock.{Time, stamp_seconds}
use my_t_companion.Base.Eq.{Bytes, nat_key}
use my_t_companion.Base.Int.{ℤ, pos_part, leb_ℤ, neg_part, pos}
use my_t_companion.LowBattery.{
  LowBatteryCarState, LowBatteryMonitor, low_battery_settle_delay, car_or_empty,
}
use my_t_companion.Base.{
  ℕ, Bool, true, map, keep, if◌then◌else◌, false, ◌||◌, ◌+◌, Option, [], not, none, some, ◌&&◌,
}

-- The field of a topic; `unlisted` is any other.
pub data Field : Type 0 where
  display_name_field state_field shift_state_field charging_state_field : Field
  battery_level_field unlisted_field : Field

-- An empty payload of these fields is no observation.
abbrev pub ignores_empty : Field → Bool
ignores_empty state_field = true
ignores_empty charging_state_field = true
ignores_empty battery_level_field = true
ignores_empty _ = false

-- What a message does to the car: nothing, a bad level, or a value to settle.
pub data Reading : Type 0 where
  ignored : Reading
  bad_level : LowBatteryCarState → Reading
  read : LowBatteryCarState → Reading

abbrev in_percent : ℤ → Bool
in_percent v = leb_ℤ (pos 0) v && leb_ℤ v (pos 100)

unfoldable pub read_level : LowBatteryCarState → Option ℤ → Reading
unfolding pos_part neg_part
read_level c none = bad_level (record c { battery_level = none; initialized = false })
read_level c (some v) =
    if in_percent v
    then read (record c { battery_level = some (pos_part v) })
    else bad_level (record c { battery_level = none; initialized = false })

unfoldable pub read_field : LowBatteryCarState → Field → Bytes → Reading
unfolding read_level
read_field c display_name_field raw = read (record c { display_name = collapsed_display_name raw })
read_field c state_field raw = read (record c { state = lower_text (normalized_mqtt_value raw) })
read_field c shift_state_field raw =
    read (record c { shift_state = upper_text (normalized_mqtt_value raw) })
read_field c charging_state_field raw =
    read (record c { charging_state = lower_text (normalized_mqtt_value raw) })
read_field c battery_level_field raw = read_level c (parse_int raw)
read_field c unlisted_field raw = ignored

-- A retained message, or a missing state, makes the car wait for a new baseline.
unfoldable pub settle : Bool → Time → LowBatteryCarState → LowBatteryCarState
settle retained at c =
    let stamped =
      if retained
      then record c { initialized = false }
      else record c { last_observed_at = stamp_seconds at } in
    if is_blank c.state || is_blank c.charging_state
    then record stamped { initialized = false }
    else stamped

unfoldable pub store_reading : ℕ → Bool → Time → Reading → LowBatteryMonitor → LowBatteryMonitor
unfolding settle
store_reading car retained at ignored m = m
store_reading car retained at (bad_level c) m = record m { cars = insert car c m.cars }
store_reading car retained at (read c) m = record m {
  cars = insert car (settle retained at c) m.cars;
  timers = insert car (at + low_battery_settle_delay) m.timers;
}

unfoldable pub observe_message :
    ℕ → Field → Bytes → Time → Bool → LowBatteryMonitor → LowBatteryMonitor
unfolding store_reading read_field
observe_message car field raw at retained m =
    if is_blank raw && ignores_empty field
    then m
    else store_reading car retained at (read_field (car_or_empty car m) field raw) m

-- What a lost or new connection forgets of a car.
abbrev pub forget_observation : LowBatteryCarState → LowBatteryCarState
forget_observation c = record c {
  initialized = false;
  state = [];
  shift_state = [];
  charging_state = [];
  battery_level = none;
}

unfoldable pub reset_observation_baseline : LowBatteryMonitor → LowBatteryMonitor
reset_observation_baseline m = record {
  cars = map (λ (e : ℕ × LowBatteryCarState). (e.0, forget_observation e.1)) m.cars;
  timers = [];
}

-- Cars that left the fleet lose their state and their timer.
unfoldable pub reconcile_fleet : (ℕ → Bool) → LowBatteryMonitor → LowBatteryMonitor
reconcile_fleet in_fleet m = record {
  cars = keep (λ (e : ℕ × LowBatteryCarState). in_fleet e.0) m.cars;
  timers = keep (λ (e : ℕ × Time). in_fleet e.0 || not (has_key e.0 m.cars)) m.timers;
}
