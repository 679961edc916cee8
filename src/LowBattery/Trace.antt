-- ===== src/LowBattery/Trace.antt =====
-- Runs of the low-battery monitor (low_battery_notification.go): messages, timers, connection changes,
-- fleet changes, actions and reminders, in any order.
use my_t_companion.LowBattery.Held.Calls.{
  observe-held, reset-held, reconcile-held, apply_action-held, remind-held,
}
use my_t_companion.LowBattery.Held.{is_held, car-insert}
use my_t_companion.Base.Eq.{nat_key, bytes_key}
use my_t_companion.Base.Maps.{lookup}
use my_t_companion.LowBattery.{
  LowBatteryMonitor, Bytes, Time, car_or_empty, LowBatteryCarState, or_empty,
}
use my_t_companion.Base.{
  ℕ, Bool, List, Option, ◌∷◌, if◌then◌else◌, none, ◌==◌, ◌≡◌, some, true, [], implies, ap, arith,
  ==_iff, ◌∙◌, ◌≢◌, refl, Bool-cases, inl, inr, All, sym,
}
use my_t_companion.LowBattery.Evaluate.Latch.{
  held, stays_below, repeat_level, evaluate_car-held, evaluate_car-IsAlert,
}
use my_t_companion.LowBattery.Evaluate.{evaluate, PushType, evaluate_found, evaluate_car, announce}
use my_t_companion.LowBattery.Observe.{
  observe_message, reset_observation_baseline, reconcile_fleet, Field,
}
use my_t_companion.LowBattery.Actions.{apply_action, LowBatteryActionRequest, process_due_reminders}

pub data Call : Type 0 where
  observed : ℕ → Field → Bytes → Time → Bool → Call
  evaluated : ℕ → Bytes → Time → Call
  reset : Call
  reconciled : (ℕ → Bool) → Call
  acted : (Bytes → ℕ → Bool) → LowBatteryActionRequest → Time → Call
  reminded : (ℕ → Bool) → Time → Call

-- The monitor after a call.
unfoldable pub step : Call → LowBatteryMonitor → LowBatteryMonitor
step (observed car field raw at retained) m = observe_message car field raw at retained m
step (evaluated car episode at) m = (evaluate car episode at m).0
step reset m = reset_observation_baseline m
step (reconciled in_fleet) m = reconcile_fleet in_fleet m
step (acted wants body at) m = (apply_action wants body at m).0
step (reminded in_fleet at) m = (process_due_reminders in_fleet at m).0

unfoldable pub alert_for : ℕ → ℕ → Option (LowBatteryCarState × PushType) → Option PushType
alert_for car other none = none
alert_for car other (some (c, t)) = if other == car then some t else none

-- The alert that a call sends for a car.
unfoldable pub alerted : ℕ → Call → LowBatteryMonitor → Option PushType
unfolding alert_for
alerted car (evaluated other episode at) m = alert_for car other (evaluate other episode at m).1
alerted car _ m = none

-- The alerts of a run for a car, in order.
unfoldable pub alerts : ℕ → List Call → LowBatteryMonitor → List PushType
unfolding step alerted
alerts car [] m = []
alerts car (k ∷ ks) m =
    let rest = alerts car ks (step k m) in
    elim (alerted car k m) [ none ↦ rest | some t ↦ t ∷ rest ]

-- Through a run the car stays in the fleet, and no evaluation sees its level at the limit or above.
unfoldable pub StaysBelow : ℕ → ℕ → List Call → LowBatteryMonitor → Type 0
unfolding step
StaysBelow limit car [] m = Unit
StaysBelow limit car (evaluated other episode at ∷ ks) m =
    (implies (other == car) (stays_below limit (car_or_empty car m).battery_level) ≡ true)
    × StaysBelow limit car ks (step (evaluated other episode at) m)
StaysBelow limit car (reconciled in_fleet ∷ ks) m =
    (in_fleet car ≡ true) × StaysBelow limit car ks (step (reconciled in_fleet) m)
StaysBelow limit car (k ∷ ks) m = StaysBelow limit car ks (step k m)

alert_for-announce :
    (car other : ℕ) (c : LowBatteryCarState) (event : Option PushType)
    → alert_for car other (announce c event) ≡ (if other == car then event else none)
unfolding alert_for
alert_for-announce car other c none = ground arith
alert_for-announce car other c (some t) = refl

no-alert : {t : PushType} → none ≢ some t
no-alert = ground arith

All-prepend :
    {t : PushType} (rest : List PushType) (o : Option PushType)
    → o ≢ some t
    → All (λ a. a ≢ t) rest
    → All (λ a. a ≢ t) (elim o [ none ↦ rest | some a ↦ a ∷ rest ])
All-prepend rest none h r = r
All-prepend rest (some a) h r = (λ e. h (ap some e), r)

module _ (t : PushType) (car : ℕ) where
  own-level :
      (other : ℕ) {b : Bool} → (other == car) ≡ true → implies (other == car) b ≡ true → b ≡ true
  own-level other e h = ground arith

  evaluate_found-held :
      (other : ℕ) (episode : Bytes) (at : Time) (m : LowBatteryMonitor)
      (o : Option LowBatteryCarState)
      → lookup other m.cars ≡ o
      → implies (other == car) (stays_below (repeat_level t) (car_or_empty car m).battery_level)
        ≡ true
      → is_held t car m ≡ true
      → (is_held t car (evaluate_found other episode at m o).0 ≡ true)
        × (alert_for car other (evaluate_found other episode at m o).1 ≢ some t)
  unfolding evaluate_found alert_for
  evaluate_found-held other episode at m none o h g = (g, ground arith)
  evaluate_found-held other episode at m (some c) o h g =
      let (after, event) = evaluate_car episode at c in
      elim (Bool-cases (other == car)) [
        | inl e ↦
            let found : c ≡ car_or_empty car m =
              sym (ap or_empty o) ∙ ap (λ x. car_or_empty x m) ((==_iff other car).0 e) in
            let r = evaluate_car-held episode at c t (ap (held t) found ∙ g) (
              ap (λ (x : LowBatteryCarState). stays_below (repeat_level t) x.battery_level) found
              ∙ own-level other e h) in
            (
              ap (held t) (
                    car-insert car other after m
                    ∙ ap (λ b. if b then after else car_or_empty car m) e)
                  ∙ r.0,
              λ a. r.1 (
                  sym (
                    alert_for-announce car other after event
                    ∙ ap (λ b. if b then event else none) e)
                  ∙ a),
            )
        | inr e ↦ (
          ap (held t)
                (car-insert car other after m ∙ ap (λ b. if b then after else car_or_empty car m) e)
              ∙ g,
          λ a. no-alert (
              sym (alert_for-announce car other after event ∙ ap (λ b. if b then event else none) e)
              ∙ a),
        )
      ]

  evaluate-held :
      (other : ℕ) (episode : Bytes) (at : Time) (m : LowBatteryMonitor)
      → implies (other == car) (stays_below (repeat_level t) (car_or_empty car m).battery_level)
        ≡ true
      → is_held t car m ≡ true
      → (is_held t car (evaluate other episode at m).0 ≡ true)
        × (alerted car (evaluated other episode at) m ≢ some t)
  unfolding evaluate alerted
  evaluate-held other episode at m h g =
      evaluate_found-held other episode at m (lookup other m.cars) refl h g

  -- What each call keeps.
  Keeps : Call → LowBatteryMonitor → Type 0
  Keeps k m = (is_held t car (step k m) ≡ true) × (alerted car k m ≢ some t)

  step-Keeps :
      (k : Call) (ks : List Call) (m : LowBatteryMonitor)
      → StaysBelow (repeat_level t) car (k ∷ ks) m
      → is_held t car m ≡ true
      → (Keeps k m) × StaysBelow (repeat_level t) car ks (step k m)
  unfolding StaysBelow step alerted Keeps
  step-Keeps (observed other field raw at retained) ks m s g =
      ((observe-held t car other field raw at retained m g, no-alert), s)
  step-Keeps (evaluated other episode at) ks m s g = (evaluate-held other episode at m s.0 g, s.1)
  step-Keeps reset ks m s g = ((reset-held t car m g, no-alert), s)
  step-Keeps (reconciled in_fleet) ks m s g =
      ((reconcile-held t car in_fleet m s.0 g, no-alert), s.1)
  step-Keeps (acted wants body at) ks m s g =
      ((apply_action-held t car wants body at m g, no-alert), s)
  step-Keeps (reminded in_fleet at) ks m s g = ((remind-held t car in_fleet at m g, no-alert), s)

  -- After an alert of a type has been sent, no run alerts the car that way again while the car stays in
  -- the fleet and no evaluation of it sees a level of `repeat_level t` or above.
  pub alerts-once :
      (ks : List Call) (m : LowBatteryMonitor)
      → StaysBelow (repeat_level t) car ks m
      → is_held t car m ≡ true
      → All (λ a. a ≢ t) (alerts car ks m)
  unfolding alerts Keeps
  alerts-once [] m s g = tt
  alerts-once (k ∷ ks) m s g =
      let (kept, rest) = step-Keeps k ks m s g in
      All-prepend _ (alerted car k m) kept.1 (alerts-once ks (step k m) rest kept.0)

if-some :
    {t : PushType} (b : Bool) (o : Option PushType) → (if b then o else none) ≡ some t → b ≡ true
if-some b o h = ground arith

alert-held :
    (t : PushType) (car other : ℕ) (episode : Bytes) (at : Time) (m : LowBatteryMonitor)
    (o : Option LowBatteryCarState)
    → alert_for car other (evaluate_found other episode at m o).1 ≡ some t
    → is_held t car (evaluate_found other episode at m o).0 ≡ true
unfolding evaluate_found alert_for
alert-held t car other episode at m none h = ground arith
alert-held t car other episode at m (some c) h =
    let (after, event) = evaluate_car episode at c in
    let sent = sym (alert_for-announce car other after event) ∙ h in
    let own : (other == car) ≡ true = if-some (other == car) event sent in
    let alert =
      evaluate_car-IsAlert episode at c t (sym (ap (λ b. if b then event else none) own) ∙ sent) in
    ap (held t)
      (car-insert car other after m ∙ ap (λ b. if b then after else car_or_empty car m) own)
    ∙ alert.latches

alerted-held :
    (t : PushType) (car : ℕ) (k : Call) (m : LowBatteryMonitor)
    → alerted car k m ≡ some t
    → is_held t car (step k m) ≡ true
unfolding alerted step evaluate
alerted-held t car (evaluated other episode at) m h =
    alert-held t car other episode at m (lookup other m.cars) h
alerted-held t car (observed _ _ _ _ _) m h = absurd (no-alert h)
alerted-held t car reset m h = absurd (no-alert h)
alerted-held t car (reconciled _) m h = absurd (no-alert h)
alerted-held t car (acted _ _ _) m h = absurd (no-alert h)
alerted-held t car (reminded _ _) m h = absurd (no-alert h)

-- When a call sends an alert of a type for a car, no later call of a run sends that alert again while the
-- car stays in the fleet and each evaluation of the car sees no level, or one below the alert's limit:
-- 25 % for the plain alert, 10 % for the severe one.
pub alert-once :
    (t : PushType) (car : ℕ) (k : Call) (ks : List Call) (m : LowBatteryMonitor)
    → alerted car k m ≡ some t
    → StaysBelow (repeat_level t) car ks (step k m)
    → All (λ a. a ≢ t) (alerts car ks (step k m))
alert-once t car k ks m h s = alerts-once t car ks (step k m) s (alerted-held t car k m h)
