-- ===== src/LowBattery/Baseline.antt =====
-- What no alert follows from (low_battery_notification.go, mqtt_monitor_lifecycle.go).
use my_t_companion.Base.Maps.{lookup-map}
use my_t_companion.LowBattery.{
  LowBatteryMonitor, LowBatteryCarState, car_or_empty, or_empty, lookup,
}
use my_t_companion.Base.{ℕ, ◌≡◌, Option, none, false, arith, some, refl, ap, ◌∙◌}
use my_t_companion.Base.Eq.{Bytes, nat_key}
use my_t_companion.Base.Clock.{Time}
use my_t_companion.LowBattery.Evaluate.{evaluate_car, evaluate, evaluate_found}
use my_t_companion.LowBattery.Observe.{reset_observation_baseline, forget_observation}

unknown-quiet :
    (episode : Bytes) (at : Time) (c : LowBatteryCarState)
    → c.initialized ≡ false
    → (evaluate_car episode at c).1 ≡ none
unfolding evaluate_car
unknown-quiet episode at c h = ground arith

-- A car that waits for its first complete values.
unfoldable pub Waits : ℕ → LowBatteryMonitor → Type 0
Waits car m = (car_or_empty car m).initialized ≡ false

found-quiet :
    (car : ℕ) (episode : Bytes) (at : Time) (m : LowBatteryMonitor) (o : Option LowBatteryCarState)
    → (or_empty o).initialized ≡ false
    → (evaluate_found car episode at m o).1 ≡ none
unfolding evaluate_found
found-quiet car episode at m none h = refl
found-quiet car episode at m (some c) h = rw (unknown-quiet episode at c h) refl

pub Waits-quiet :
    (car : ℕ) (episode : Bytes) (at : Time) (m : LowBatteryMonitor)
    → Waits car m
    → (evaluate car episode at m).1 ≡ none
unfolding evaluate Waits
Waits-quiet car episode at m h = found-quiet car episode at m (lookup car m.cars) h

pub reset-Waits : (car : ℕ) (m : LowBatteryMonitor) → Waits car (reset_observation_baseline m)
unfolding Waits reset_observation_baseline
reset-Waits car m =
    ap (λ o. (or_empty o).initialized) (lookup-map (λ k. forget_observation) car m.cars)
    ∙ forgets (lookup car m.cars)
  where
    forgets :
        (o : Option LowBatteryCarState)
        → (or_empty (elim o [ none ↦ none | some c ↦ some (forget_observation c) ])).initialized
          ≡ false
    forgets none = refl
    forgets (some c) = refl
