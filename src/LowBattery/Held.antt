-- ===== src/LowBattery/Held.antt =====
-- What of a car's alerts is latched in the low-battery monitor (low_battery_notification.go), and that no
-- message, action or connection change alters it.
pub mod Calls
use my_t_companion.Base.Int.{ℤ}
use my_t_companion.Base.Text.{parse_int}
use my_t_companion.Base.Eq.{nat_key, bytes_key}
use my_t_companion.Base.Maps.{insert, lookup-insert, lookup}
use my_t_companion.LowBattery.{
  LowBatteryMonitor, Bytes, Time, car_or_empty, LowBatteryCarState, or_empty, LowBatteryActionState,
}
use my_t_companion.Base.{
  ℕ, Bool, List, Option, if◌then◌else◌, none, ◌==◌, ◌≡◌, some, true, ap, arith, ◌∙◌, refl, false,
}
use my_t_companion.LowBattery.Evaluate.Latch.{held}
use my_t_companion.LowBattery.Evaluate.{PushType, vehicle_low_battery, vehicle_low_battery_severe}
use my_t_companion.LowBattery.Observe.{
  Field, Reading, read_field, settle, bad_level, read, ignored, read_level, battery_level_field,
  forget_observation, display_name_field, state_field, shift_state_field, charging_state_field,
  unlisted_field,
}
use my_t_companion.LowBattery.Actions.{remind_car, complete_due}

abbrev pub is_held : PushType → ℕ → LowBatteryMonitor → Bool
is_held t car m = held t (car_or_empty car m)

pub choose :
    (b : Bool) (c : LowBatteryCarState) (o : Option LowBatteryCarState)
    → or_empty (if b then some c else o) ≡ (if b then c else or_empty o)
choose true c o = refl
choose false c o = refl

-- A change of each car that keeps what is latched.
pub mapped-held :
    (t : PushType) (f : LowBatteryCarState → LowBatteryCarState)
    → ((c : LowBatteryCarState) → held t (f c) ≡ held t c)
    → (o : Option LowBatteryCarState)
    → held t (or_empty (elim o [ none ↦ none | some v ↦ some (f v) ])) ≡ held t (or_empty o)
mapped-held t f h none = refl
mapped-held t f h (some c) = h c

pub forget-held : (t : PushType) (c : LowBatteryCarState) → held t (forget_observation c) ≡ held t c
forget-held vehicle_low_battery c = refl
forget-held vehicle_low_battery_severe c = refl

pub actions-held :
    (t : PushType) (c : LowBatteryCarState) (actions : List (Bytes × LowBatteryActionState))
    → held t (record c { actions = actions }) ≡ held t c
actions-held vehicle_low_battery c actions = refl
actions-held vehicle_low_battery_severe c actions = refl

pub remind_car-held :
    (t : PushType) (in_fleet : ℕ → Bool) (at : Time) (car : ℕ) (c : LowBatteryCarState)
    → held t (remind_car in_fleet at car c) ≡ held t c
unfolding remind_car
remind_car-held t in_fleet at car c = ground (arith, actions-held t c (complete_due at c.actions))

pub car-insert :
    (car other : ℕ) (c : LowBatteryCarState) (m : LowBatteryMonitor)
    → car_or_empty car (record m { cars = insert other c m.cars })
      ≡ (if other == car then c else car_or_empty car m)
car-insert car other c m =
    ap or_empty (lookup-insert other car c m.cars) ∙ choose (other == car) c (lookup car m.cars)

pub settle-held :
    (t : PushType) (retained : Bool) (at : Time) (c : LowBatteryCarState)
    → held t (settle retained at c) ≡ held t c
unfolding settle
settle-held vehicle_low_battery retained at c = ground arith
settle-held vehicle_low_battery_severe retained at c = ground arith

-- No message changes what is latched.
unfoldable pub reading_held : PushType → Reading → Bool → Bool
reading_held t ignored b = b
reading_held t (bad_level c) b = held t c
reading_held t (read c) b = held t c

pub read_level-held :
    (t : PushType) (c : LowBatteryCarState) (level : Option ℤ)
    → reading_held t (read_level c level) (held t c) ≡ held t c
unfolding reading_held read_level
read_level-held vehicle_low_battery c none = refl
read_level-held vehicle_low_battery_severe c none = refl
read_level-held vehicle_low_battery c (some v) = ground arith
read_level-held vehicle_low_battery_severe c (some v) = ground arith

pub read_field-held :
    (t : PushType) (c : LowBatteryCarState) (field : Field) (raw : Bytes)
    → reading_held t (read_field c field raw) (held t c) ≡ held t c
unfolding reading_held read_field
read_field-held t c battery_level_field raw = read_level-held t c (parse_int raw)
read_field-held vehicle_low_battery c display_name_field raw = refl
read_field-held vehicle_low_battery c state_field raw = refl
read_field-held vehicle_low_battery c shift_state_field raw = refl
read_field-held vehicle_low_battery c charging_state_field raw = refl
read_field-held vehicle_low_battery c unlisted_field raw = refl
read_field-held vehicle_low_battery_severe c display_name_field raw = refl
read_field-held vehicle_low_battery_severe c state_field raw = refl
read_field-held vehicle_low_battery_severe c shift_state_field raw = refl
read_field-held vehicle_low_battery_severe c charging_state_field raw = refl
read_field-held vehicle_low_battery_severe c unlisted_field raw = refl
