-- ===== src/LowBattery/Reminders.antt =====
-- The reminders of snoozed alerts (low_battery_notification.go, `processDueReminders`).
use mathlib.Core.List.{flat_map, map}
use my_t_companion.Base.Eq.{Bytes}
use my_t_companion.LowBattery.{
  LowBatteryMonitor, LowBatteryCarState, completed, LowBatteryActionState,
}
use my_t_companion.Base.{
  ℕ, List, Bool, none, ◌≡◌, [], false, Bool-cases, ◌∷◌, refl, inl, inr, arith, ap,
}
use my_t_companion.Base.Clock.{Time, Stamp, stamp_seconds}
use my_t_companion.LowBattery.Actions.{
  process_due_reminders, complete_due, due_installations, is_due, remind_car, car_reminders,
  may_remind,
}

completed-done :
    (now : Time) (at : Stamp)
    → is_due now (record { action = completed; snooze_until = none; updated_at = at }) ≡ false
unfolding is_due
completed-done now at = refl

due_installations-complete_due :
    (now : Time) (actions : List (Bytes × LowBatteryActionState))
    → due_installations now (complete_due now actions) ≡ []
unfolding due_installations complete_due
due_installations-complete_due now [] = refl
due_installations-complete_due now ((id, a) ∷ rest) = elim (Bool-cases (is_due now a)) [
  | inl h ↦ rw (h, completed-done now (stamp_seconds now)) (due_installations-complete_due now rest)
  | inr h ↦ rw (h, h) (due_installations-complete_due now rest)
]

car_reminders-remind :
    (in_fleet : ℕ → Bool) (now : Time) (car : ℕ) (c : LowBatteryCarState)
    → car_reminders in_fleet now (car, remind_car in_fleet now car c) ≡ []
unfolding car_reminders remind_car
car_reminders-remind in_fleet now car c = elim (Bool-cases (may_remind in_fleet car c)) [
  | inl h ↦ ground (
    arith,
    h,
    ap (map {B = ℕ × Bytes} (λ id. (car, id))) (due_installations-complete_due now c.actions),
  )
  | inr h ↦ ground (arith, h)
]

-- Reminders are sent once: a second pass at the same time sends none, whatever the fleet.
pub reminders-once :
    (in_fleet : ℕ → Bool) (now : Time) (m : LowBatteryMonitor)
    → (process_due_reminders in_fleet now (process_due_reminders in_fleet now m).0).1 ≡ []
unfolding process_due_reminders flat_map
reminders-once in_fleet now m = go m.cars
  where
    go :
        (cars : List (ℕ × LowBatteryCarState))
        → flat_map
            (car_reminders in_fleet now)
            (map (λ (e : ℕ × LowBatteryCarState). (e.0, remind_car in_fleet now e.0 e.1)) cars)
          ≡ []
    go [] = refl
    go ((car, c) ∷ cars) = rw (car_reminders-remind in_fleet now car c) (go cars)
