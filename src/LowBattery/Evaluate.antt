-- ===== src/LowBattery/Evaluate.antt =====
-- The settle timer's evaluation of a car (low_battery_notification.go, `evaluate`). The new episode's
-- identifier, which is random, is an argument.
pub mod Latch
use my_t_companion.Base.Maps.{delete, lookup, insert}
use my_t_companion.Base.Clock.{Time, stamp_seconds}
use my_t_companion.Base.Eq.{Bytes, nat_key}
use my_t_companion.LowBattery.{
  LowBatteryCarState, LowBatteryActionState, low_battery_eligible, LowBatteryMonitor, below, Action,
  low_battery_is_charging, low_battery_rearm_percent, low_battery_severe_percent, cancelled,
  is_blank, is_complete, snooze_4h, superseded,
}
use my_t_companion.Base.{
  ℕ, Bool, Option, if◌then◌else◌, not, true, List, false, [], none, some, ◌&&◌, ◌∷◌,
}

pub data PushType : Type 0 where
  vehicle_low_battery vehicle_low_battery_severe : PushType

-- The car climbed to the rearm level.
unfoldable pub rearm : LowBatteryCarState → LowBatteryCarState
rearm c =
    if below low_battery_rearm_percent c.battery_level
    then c
    else record c { latched = false; severe_latched = false; episode_id = []; actions = [] }

abbrev pub is_snooze : LowBatteryActionState → Bool
is_snooze a = elim a.action [ snooze_4h ↦ true | _ ↦ false ]

-- Every open snooze ends as `outcome`.
unfoldable pub close_snoozes :
    Action → Time → List (Bytes × LowBatteryActionState) → List (Bytes × LowBatteryActionState)
close_snoozes outcome at [] = []
close_snoozes outcome at ((id, a) ∷ rest) =
    (
      id,
      if is_snooze a
          then record { action = outcome; snooze_until = none; updated_at = stamp_seconds at }
          else a,
    )
    ∷ close_snoozes outcome at rest

-- The first evaluation of complete values: a baseline, never a notification.
unfoldable pub baseline : Bytes → LowBatteryCarState → LowBatteryCarState
unfolding rearm
baseline episode c =
    let eligible = low_battery_eligible c in
    let r = rearm (record c { initialized = true; last_eligible = eligible }) in
    let latched = record r {
      latched = true;
      severe_latched = below low_battery_severe_percent c.battery_level;
    } in
    if not eligible
    then r
    else if is_blank r.episode_id
    then record latched { episode_id = episode; actions = [] }
    else latched

unfoldable pub cancel_on_charge : Time → LowBatteryCarState → LowBatteryCarState
cancel_on_charge at c =
    if low_battery_is_charging c
    then record c { actions = close_snoozes cancelled at c.actions }
    else c

-- A new episode, an escalation of the open one, or neither.
unfoldable pub alert :
    Bytes → Time → Bool → LowBatteryCarState → LowBatteryCarState × Option PushType
alert episode at eligible c =
    let severe = below low_battery_severe_percent c.battery_level in
    if eligible && not c.latched
    then (
      record c { latched = true; severe_latched = severe; episode_id = episode; actions = [] },
      some (if severe then vehicle_low_battery_severe else vehicle_low_battery),
    )
    else if eligible && severe && not c.severe_latched
    then (
      record c { severe_latched = true; actions = close_snoozes superseded at c.actions },
      some vehicle_low_battery_severe,
    )
    else (c, none)

unfoldable pub reevaluate : Bytes → Time → LowBatteryCarState → LowBatteryCarState × Option PushType
unfolding alert rearm cancel_on_charge
reevaluate episode at c =
    let eligible = low_battery_eligible c in
    let (after, event) = alert episode at eligible (cancel_on_charge at (rearm c)) in
    (record after { last_eligible = eligible }, event)

unfoldable pub evaluate_car :
    Bytes → Time → LowBatteryCarState → LowBatteryCarState × Option PushType
evaluate_car episode at c =
    if not (is_complete c)
    then (c, none)
    else if not c.initialized
    then (baseline episode c, none)
    else reevaluate episode at c

abbrev pub announce : LowBatteryCarState → Option PushType → Option (LowBatteryCarState × PushType)
announce c none = none
announce c (some t) = some (c, t)

unfoldable pub evaluate_found :
    ℕ
    → Bytes
    → Time
    → LowBatteryMonitor
    → Option LowBatteryCarState
    → LowBatteryMonitor × Option (LowBatteryCarState × PushType)
unfolding evaluate_car
evaluate_found car episode at m none = (record m { timers = delete car m.timers }, none)
evaluate_found car episode at m (some c) =
    let (after, event) = evaluate_car episode at c in
    (record { cars = insert car after m.cars; timers = delete car m.timers }, announce after event)

-- The new state, and what is fanned out for the car.
unfoldable pub evaluate :
    ℕ
    → Bytes
    → Time
    → LowBatteryMonitor
    → LowBatteryMonitor × Option (LowBatteryCarState × PushType)
unfolding evaluate_found
evaluate car episode at m = evaluate_found car episode at m (lookup car m.cars)
