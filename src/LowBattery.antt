-- ===== src/LowBattery.antt =====
-- The low-battery monitor (low_battery_notification.go): its state and the tests on one car.
-- The mutex makes each operation one step. The stored file is not modelled.
pub mod Observe
pub mod Evaluate
pub mod Actions
pub mod Held
pub mod Trace
pub mod Waiting
pub mod Reminders
pub mod Baseline
pub mod Tests
use my_t_companion.Base.Eq.{Bytes, nat_key}
use my_t_companion.Base.Maps.{lookup}
use my_t_companion.Base.Text.{lower_text, upper_text, trim_space, is_blank, text_is}
use my_t_companion.Base.Clock.{hours, seconds, Stamp, Time}
use my_t_companion.Base.{
  ℕ, Bool, is_some, List, Option, [], ◌&&◌, not, none, false, some, ltb, ◌||◌,
}

abbrev pub low_battery_enter_percent : ℕ
low_battery_enter_percent = 20

abbrev pub low_battery_severe_percent : ℕ
low_battery_severe_percent = 10

abbrev pub low_battery_rearm_percent : ℕ
low_battery_rearm_percent = 25

abbrev pub low_battery_settle_delay : ℕ
low_battery_settle_delay = seconds 5

abbrev pub low_battery_snooze_delay : ℕ
low_battery_snooze_delay = hours 4

-- `other` is any action that a stored file may hold beside these.
pub data Action : Type 0 where
  ack snooze_4h cancelled superseded completed other_action : Action

pub record LowBatteryActionState : Type 0 where
  pub action : Action
  pub snooze_until : Stamp
  pub updated_at : Stamp

pub record LowBatteryCarState : Type 0 where
  pub display_name : Bytes
  pub state : Bytes
  pub shift_state : Bytes
  pub charging_state : Bytes
  pub battery_level : Option ℕ
  pub initialized : Bool
  pub last_eligible : Bool
  pub latched : Bool
  pub severe_latched : Bool
  pub episode_id : Bytes
  pub actions : List (Bytes × LowBatteryActionState)
  pub last_observed_at : Stamp

abbrev pub empty_car : LowBatteryCarState
empty_car = record {
  display_name = [];
  state = [];
  shift_state = [];
  charging_state = [];
  battery_level = none;
  initialized = false;
  last_eligible = false;
  latched = false;
  severe_latched = false;
  episode_id = [];
  actions = [];
  last_observed_at = none;
}

-- `timers` holds when each settle timer fires.
pub record LowBatteryMonitor : Type 0 where
  pub cars : List (ℕ × LowBatteryCarState)
  pub timers : List (ℕ × Time)

abbrev pub or_empty : Option LowBatteryCarState → LowBatteryCarState
or_empty none = empty_car
or_empty (some c) = c

-- `m.store.Cars[carID]`, the zero value for an unknown car
abbrev pub car_or_empty : ℕ → LowBatteryMonitor → LowBatteryCarState
car_or_empty car m = or_empty (lookup car m.cars)

unfoldable pub low_battery_is_charging : LowBatteryCarState → Bool
low_battery_is_charging c =
    let charging = lower_text (trim_space c.charging_state) in
    text_is charging "charging" || text_is charging "starting"

-- The tests of `lowBatteryEligible` after the one on the level.
unfoldable pub is_resting : LowBatteryCarState → Bool
is_resting c =
    let shift = upper_text (trim_space c.shift_state) in
    let vehicle = lower_text (trim_space c.state) in
    not (text_is shift "D" || text_is shift "R" || text_is shift "N")
    && not (text_is vehicle "driving" || text_is vehicle "updating" || text_is vehicle "charging")
    && not (low_battery_is_charging c)

abbrev pub below : ℕ → Option ℕ → Bool
below limit none = false
below limit (some level) = ltb level limit

unfoldable pub low_battery_eligible : LowBatteryCarState → Bool
low_battery_eligible c = below low_battery_enter_percent c.battery_level && is_resting c

-- Level, vehicle state and charging state are all known.
abbrev pub is_complete : LowBatteryCarState → Bool
is_complete c = is_some c.battery_level && not (is_blank c.state) && not (is_blank c.charging_state)
