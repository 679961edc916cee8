-- ===== src/LowBattery/Evaluate/Latch.antt =====
-- How one evaluation of a car latches the alerts (low_battery_notification.go, `evaluate`).
use my_t_companion.LowBattery.{is_resting}
use my_t_companion.Base.{
  if◌then◌else◌, ◌≤◌, ◌&&◌, ◌≡◌, true, false, some, arith, none, refl, ◌≢◌, ltb, sym, ap, ◌∙◌, not,
  is_some,
}
use my_t_companion.LowBattery.Evaluate.{
  evaluate_car, PushType, vehicle_low_battery, vehicle_low_battery_severe, rearm, baseline,
  reevaluate, alert, cancel_on_charge, LowBatteryCarState, ℕ, low_battery_eligible, Bytes, below,
  Option, low_battery_rearm_percent, Time, Bool, is_complete, ◌&&◌, low_battery_severe_percent,
}

-- The level at which an alert of this type may come again.
abbrev pub repeat_level : PushType → ℕ
repeat_level vehicle_low_battery = low_battery_rearm_percent
repeat_level vehicle_low_battery_severe = low_battery_severe_percent

-- An alert of this type has been sent, or is taken as sent.
abbrev pub held : PushType → LowBatteryCarState → Bool
held vehicle_low_battery c = c.latched
held vehicle_low_battery_severe c = c.latched && c.severe_latched

-- What holds when the car `c` is alerted and becomes `after`.
pub record IsAlert (t : PushType) (c after : LowBatteryCarState) : Type 0 where
  pub complete : is_complete c ≡ true
  pub known : c.initialized ≡ true
  pub eligible : low_battery_eligible c ≡ true
  pub fresh : held t c ≡ false
  pub latches : held t after ≡ true
  pub severity :
      below (repeat_level vehicle_low_battery_severe) c.battery_level
      ≡ (elim t [ vehicle_low_battery ↦ false | vehicle_low_battery_severe ↦ true ])

pub below-weaken : (m n : ℕ) (l : Option ℕ) → m ≤ n → below m l ≡ true → below n l ≡ true
below-weaken m n none h b = cc
below-weaken m n (some l) h b = ground arith

-- An eligible car is below the entry level, so it is below the rearm level.
eligible-below :
    (c : LowBatteryCarState)
    → low_battery_eligible c ≡ true
    → below low_battery_rearm_percent c.battery_level ≡ true
unfolding low_battery_eligible
eligible-below c h = below-weaken 20 25 c.battery_level (omega arith) (ground arith)

rearm-low :
    (c : LowBatteryCarState) → below low_battery_rearm_percent c.battery_level ≡ true → rearm c ≡ c
unfolding rearm
rearm-low c h = rw (h) refl

alert-IsAlert :
    (episode : Bytes) (at : Time) (c : LowBatteryCarState) (t : PushType)
    → is_complete c ≡ true
    → c.initialized ≡ true
    → (alert episode at (low_battery_eligible c) c).1 ≡ some t
    → IsAlert t c (alert episode at (low_battery_eligible c) c).0
unfolding alert
alert-IsAlert episode at c vehicle_low_battery k i h = record {
  complete = k;
  known = i;
  eligible = ground arith;
  fresh = ground arith;
  latches = ground arith;
  severity = ground arith;
}
alert-IsAlert episode at c vehicle_low_battery_severe k i h = record {
  complete = k;
  known = i;
  eligible = ground arith;
  fresh = ground arith;
  latches = ground arith;
  severity = ground arith;
}

charge-eligible :
    (at : Time) (c : LowBatteryCarState) → low_battery_eligible c ≡ true → cancel_on_charge at c ≡ c
unfolding low_battery_eligible is_resting cancel_on_charge
charge-eligible at c h = ground arith

reevaluate-eligible :
    (episode : Bytes) (at : Time) (c : LowBatteryCarState)
    → low_battery_eligible c ≡ true
    → reevaluate episode at c ≡ (
        let (after, event) = alert episode at (low_battery_eligible c) c in
        (record after { last_eligible = low_battery_eligible c }, event))
unfolding reevaluate
reevaluate-eligible episode at c h =
    rw (rearm-low c (eligible-below c h), charge-eligible at c h) refl

reevaluate-resting :
    (episode : Bytes) (at : Time) (c : LowBatteryCarState)
    → low_battery_eligible c ≡ false
    → (reevaluate episode at c).1 ≡ none
unfolding reevaluate alert
reevaluate-resting episode at c h = rw (h) refl

relabel :
    (t : PushType) (c : LowBatteryCarState) (b : Bool)
    → held t (record c { last_eligible = b }) ≡ held t c
relabel vehicle_low_battery c b = refl
relabel vehicle_low_battery_severe c b = refl

alert-facts :
    (episode : Bytes) (at : Time) (c : LowBatteryCarState) (t : PushType)
    → (evaluate_car episode at c).1 ≡ some t
    → (is_complete c ≡ true) × (c.initialized ≡ true) × (low_battery_eligible c ≡ true)
unfolding evaluate_car
alert-facts episode at c t h = ground (arith, reevaluate-resting episode at c)

evaluate_car-eligible :
    (episode : Bytes) (at : Time) (c : LowBatteryCarState)
    → is_complete c ≡ true
    → c.initialized ≡ true
    → low_battery_eligible c ≡ true
    → evaluate_car episode at c ≡ (
        let (after, event) = alert episode at (low_battery_eligible c) c in
        (record after { last_eligible = low_battery_eligible c }, event))
unfolding evaluate_car
evaluate_car-eligible episode at c k i e =
    ap
      (λ b.
        if not b
        then (c, none)
        else if not c.initialized
        then (baseline episode c, none)
        else reevaluate episode at c)
      k
    ∙ ap (λ b. if not b then (baseline episode c, none) else reevaluate episode at c) i
    ∙ (reevaluate-eligible episode at c e)

-- When an evaluation alerts a car, the car had complete values and a baseline, was eligible and was not
-- latched for this type of alert; it is latched afterwards, and the alert is severe exactly below 10 %.
pub evaluate_car-IsAlert :
    (episode : Bytes) (at : Time) (c : LowBatteryCarState) (t : PushType)
    → (evaluate_car episode at c).1 ≡ some t
    → IsAlert t c (evaluate_car episode at c).0
evaluate_car-IsAlert episode at c t h =
    let (k, i, e) = alert-facts episode at c t h in
    let run = evaluate_car-eligible episode at c k i e in
    let a = alert-IsAlert episode at c t k i (sym (ap (λ r. r.1) run) ∙ h) in
    record {
      complete = k;
      known = i;
      eligible = e;
      fresh = a.fresh;
      latches = ap (λ r. held t r.0) run ∙ relabel t _ _ ∙ a.latches;
      severity = a.severity;
    }

-- A level that is unknown or below the limit.
abbrev pub stays_below : ℕ → Option ℕ → Bool
stays_below limit none = true
stays_below limit (some level) = ltb level limit

low-repeat :
    (t : PushType) (c : LowBatteryCarState)
    → below (repeat_level t) c.battery_level ≡ true
    → below low_battery_rearm_percent c.battery_level ≡ true
low-repeat vehicle_low_battery c h = h
low-repeat vehicle_low_battery_severe c h = below-weaken 10 25 c.battery_level (omega arith) h

baseline-held :
    (episode : Bytes) (c : LowBatteryCarState) (t : PushType)
    → held t c ≡ true
    → below (repeat_level t) c.battery_level ≡ true
    → held t (baseline episode c) ≡ true
unfolding baseline
baseline-held episode c vehicle_low_battery h b =
    rw (rearm-low (record c { initialized = true; last_eligible = low_battery_eligible c }) b)
      (ground arith)
baseline-held episode c vehicle_low_battery_severe h b =
    rw
      (rearm-low (record c { initialized = true; last_eligible = low_battery_eligible c })
        (low-repeat vehicle_low_battery_severe c b))
      (ground arith)

-- The second alert of a type is not sent.
alert-held :
    (episode : Bytes) (at : Time) (eligible : Bool) (c : LowBatteryCarState) (t : PushType)
    → held t c ≡ true
    → (held t (alert episode at eligible c).0 ≡ true) × ((alert episode at eligible c).1 ≢ some t)
unfolding alert
alert-held episode at eligible c vehicle_low_battery h = (ground arith, ground arith)
alert-held episode at eligible c vehicle_low_battery_severe h = (ground arith, ground arith)

charge-held :
    (at : Time) (c : LowBatteryCarState) (t : PushType) → held t (cancel_on_charge at c) ≡ held t c
unfolding cancel_on_charge
charge-held at c vehicle_low_battery = ground arith
charge-held at c vehicle_low_battery_severe = ground arith

reevaluate-held :
    (episode : Bytes) (at : Time) (c : LowBatteryCarState) (t : PushType)
    → held t c ≡ true
    → below (repeat_level t) c.battery_level ≡ true
    → (held t (reevaluate episode at c).0 ≡ true) × ((reevaluate episode at c).1 ≢ some t)
unfolding reevaluate
reevaluate-held episode at c t h b =
    let r =
      alert-held episode at (low_battery_eligible c) (cancel_on_charge at c) t
        (charge-held at c t ∙ h) in
    rw (rearm-low c (low-repeat t c b)) (relabel t _ _ ∙ r.0, r.1)

known-below :
    (limit : ℕ) (level : Option ℕ)
    → stays_below limit level ≡ true
    → is_some level ≡ true
    → below limit level ≡ true
known-below limit none h k = cc
known-below limit (some l) h k = h

complete-below :
    (limit : ℕ) (c : LowBatteryCarState)
    → stays_below limit c.battery_level ≡ true
    → is_complete c ≡ true
    → below limit c.battery_level ≡ true
complete-below limit c h k = known-below limit c.battery_level h (ground arith)

-- An alert that is held stays held, and is not sent again, while the level stays below its limit.
pub evaluate_car-held :
    (episode : Bytes) (at : Time) (c : LowBatteryCarState) (t : PushType)
    → held t c ≡ true
    → stays_below (repeat_level t) c.battery_level ≡ true
    → (held t (evaluate_car episode at c).0 ≡ true) × ((evaluate_car episode at c).1 ≢ some t)
unfolding evaluate_car
evaluate_car-held episode at c t h b = (
  ground (
    arith,
    baseline-held episode c t h,
    reevaluate-held episode at c t h,
    complete-below (repeat_level t) c b,
  ),
  ground (
    arith,
    baseline-held episode c t h,
    reevaluate-held episode at c t h,
    complete-below (repeat_level t) c b,
  ),
)
