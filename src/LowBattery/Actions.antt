-- ===== src/LowBattery/Actions.antt =====
-- What a person chose for an alert, and the reminders that follow (low_battery_notification.go).
use mathlib.Core.List.{flat_map}
use my_t_companion.Base.Maps.{insert}
use my_t_companion.LowBattery.Evaluate.{is_snooze}
use my_t_companion.Base.Text.{is_blank, trim_space, text_is}
use my_t_companion.Base.Clock.{Time, stamp_seconds}
use my_t_companion.Base.Int.{pos_part, ℤ, neg_part, leb_ℤ, pos}
use my_t_companion.Base.Eq.{Bytes, bytes_eq, nat_key, bytes_key}
use my_t_companion.LowBattery.{
  LowBatteryCarState, LowBatteryActionState, LowBatteryMonitor, Action, lower_text, lookup,
  low_battery_snooze_delay, ack, snooze_4h, completed, low_battery_eligible, is_complete,
}
use my_t_companion.Base.{
  ℕ, Bool, Option, List, if◌then◌else◌, map, ◌+◌, some, none, not, [], ◌&&◌, ◌||◌, ◌∷◌, false, leb,
}

pub data ActionError : Type 0 where
  not_paired invalid_action : ActionError

pub record LowBatteryActionRequest : Type 0 where
  pub installation_id : Bytes
  pub car_id : ℤ
  pub episode_id : Bytes
  pub action : Bytes

-- The action that the text names, `ack` or `snooze_4h`.
unfoldable pub parse_action : Bytes → Option Action
parse_action text =
    let a = lower_text (trim_space text) in
    if text_is a "ack" then some ack else if text_is a "snooze_4h" then some snooze_4h else none

unfoldable pub action_state : Action → Time → LowBatteryActionState
action_state snooze_4h now = record {
  action = snooze_4h;
  snooze_until = stamp_seconds (now + low_battery_snooze_delay);
  updated_at = stamp_seconds now;
}
action_state a now = record { action = a; snooze_until = none; updated_at = stamp_seconds now }

-- Written only on the open episode that the request names.
unfoldable pub record_on :
    LowBatteryActionRequest
    → Action
    → Time
    → LowBatteryMonitor
    → Option LowBatteryCarState
    → LowBatteryMonitor
unfolding action_state pos_part neg_part
record_on body a now m none = m
record_on body a now m (some c) =
    if not (bytes_eq c.episode_id body.episode_id) || not c.latched then m else record m {
      cars =
          insert (pos_part body.car_id)
            (record c { actions = insert body.installation_id (action_state a now) c.actions })
            m.cars;
    }

unfoldable pub record_action :
    LowBatteryActionRequest → Action → Time → LowBatteryMonitor → LowBatteryMonitor
unfolding record_on
record_action body a now m = record_on body a now m (lookup (pos_part body.car_id) m.cars)

unfoldable pub apply_parsed :
    (Bytes → ℕ → Bool)
    → LowBatteryActionRequest
    → Time
    → LowBatteryMonitor
    → Option Action
    → LowBatteryMonitor × Option ActionError
unfolding record_action
apply_parsed wants body now m none = (m, some invalid_action)
apply_parsed wants body now m (some a) =
    if not (wants body.installation_id (pos_part body.car_id))
    then (m, some not_paired)
    else (record_action body a now m, none)

-- `wants` is whether an active subscriber with that installation wants the car's alerts; `none` is success.
unfoldable pub apply_action :
    (Bytes → ℕ → Bool)
    → LowBatteryActionRequest
    → Time
    → LowBatteryMonitor
    → LowBatteryMonitor × Option ActionError
unfolding apply_parsed parse_action
apply_action wants body now m =
    if is_blank (trim_space body.installation_id)
    then (m, some not_paired)
    else if leb_ℤ body.car_id (pos 0) || is_blank (trim_space body.episode_id)
    then (m, some invalid_action)
    else apply_parsed wants body now m (parse_action body.action)

-- A snooze that is due.
unfoldable pub is_due : Time → LowBatteryActionState → Bool
is_due now a = is_snooze a && elim a.snooze_until [ none ↦ false | some until ↦ leb until now ]

unfoldable pub complete_due :
    Time → List (Bytes × LowBatteryActionState) → List (Bytes × LowBatteryActionState)
complete_due now [] = []
complete_due now ((id, a) ∷ rest) =
    (
      id,
      if is_due now a
          then record { action = completed; snooze_until = none; updated_at = stamp_seconds now }
          else a,
    )
    ∷ complete_due now rest

unfoldable pub due_installations : Time → List (Bytes × LowBatteryActionState) → List Bytes
due_installations now [] = []
due_installations now ((id, a) ∷ rest) =
    let others = due_installations now rest in if is_due now a then id ∷ others else others

-- The car is known again after the last connection, and still takes part.
abbrev pub may_remind : (ℕ → Bool) → ℕ → LowBatteryCarState → Bool
may_remind in_fleet car c = c.initialized && is_complete c && in_fleet car

unfoldable pub remind_car : (ℕ → Bool) → Time → ℕ → LowBatteryCarState → LowBatteryCarState
remind_car in_fleet now car c =
    if may_remind in_fleet car c then record c { actions = complete_due now c.actions } else c

-- The reminders to send for one car.
unfoldable pub car_reminders : (ℕ → Bool) → Time → ℕ × LowBatteryCarState → List (ℕ × Bytes)
car_reminders in_fleet now (car, c) =
    if may_remind in_fleet car c && c.latched && low_battery_eligible c
    then map (λ id. (car, id)) (due_installations now c.actions)
    else []

unfoldable pub process_due_reminders :
    (ℕ → Bool) → Time → LowBatteryMonitor → LowBatteryMonitor × List (ℕ × Bytes)
process_due_reminders in_fleet now m = (
  record m {
    cars = map (λ (e : ℕ × LowBatteryCarState). (e.0, remind_car in_fleet now e.0 e.1)) m.cars;
  },
  flat_map (car_reminders in_fleet now) m.cars,
)
