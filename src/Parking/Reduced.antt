-- ===== src/Parking/Reduced.antt =====
-- Operations that only forget: they leave what a car last said, and may drop its baselines
-- (parking_event_monitor.go).
use my_t_companion.Parking.Keeps.{bound_current_cars_keeps}
use my_t_companion.Base.Int.{eqb_ℤ}
use my_t_companion.Base.Float.{float_eq}
use my_t_companion.Base.Eq.{nat_key}
use my_t_companion.Base.Maps.{
  IsMap, insert-IsMap, delete-IsMap, lookup, keep-IsMap, insert, delete-IsMap-lookup, lookup-insert,
  has_key, lookup-keep_keys, or_zero,
}
use my_t_companion.Base.{
  ℕ, List, Bool, Option, inr, ◌≡◌, inl, ◌⊎◌, ◌∙◌, [], refl, Bool-cases, ◌==◌, ◌||◌, not, subst, ap,
  ==_iff, Option-cases,
}
use my_t_companion.Parking.Bound.{evict, bound_current_cars}
use my_t_companion.Parking.Observe.{store_level, with_slot, reconcile_fleet, store_range, option_eq}
use my_t_companion.Parking.{
  ParkingEventMonitor, car_values, ℤ, Bytes, ParkingEventCarState, empty_values, Float64, Time,
}

abbrev pub baselines_of : ℕ → ParkingEventMonitor → List (Bytes × Bool)
baselines_of car m = or_zero [] (lookup car m.baselines)

-- `after` has the values and baselines that `m` has of the car, or no baseline.
abbrev pub IsForgetful : ParkingEventMonitor → ParkingEventMonitor → ℕ → Type 0
IsForgetful m after car =
    (((car_values car after).values ≡ (car_values car m).values)
      × (baselines_of car after ≡ baselines_of car m))
    ⊎ (baselines_of car after ≡ [])

abbrev pub IsReduced : ParkingEventMonitor → ParkingEventMonitor → Type 0
IsReduced m after = IsMap after.cars × IsMap after.baselines × ((car : ℕ) → IsForgetful m after car)

pub IsReduced-refl : (m : ParkingEventMonitor) → IsMap m.cars → IsMap m.baselines → IsReduced m m
IsReduced-refl m cars baselines = (cars, baselines, λ car. inl (refl, refl))

pub IsReduced-trans :
    (m mid after : ParkingEventMonitor) → IsReduced m mid → IsReduced mid after → IsReduced m after
IsReduced-trans m mid after h g = (
  g.0,
  g.1,
  λ car. elim (g.2 car) [
    | inr nothing ↦ inr nothing
    | inl same ↦ elim (h.2 car) [
      | inr nothing ↦ inr (same.1 ∙ nothing)
      | inl before ↦ inl (same.0 ∙ before.0, same.1 ∙ before.1)
    ]
  ],
)

pub evict-IsReduced :
    (car : ℕ) (m : ParkingEventMonitor)
    → IsMap m.cars
    → IsMap m.baselines
    → IsReduced m (evict car m)
unfolding evict
evict-IsReduced car m cars baselines = (
  delete-IsMap car m.cars cars,
  delete-IsMap car m.baselines baselines,
  λ j. elim (Bool-cases (car == j)) [
    | inl same ↦ inr (rw (delete-IsMap-lookup car j m.baselines baselines, same) refl)
    | inr other ↦ inl (
      rw (delete-IsMap-lookup car j m.cars cars, other) refl,
      rw (delete-IsMap-lookup car j m.baselines baselines, other) refl,
    )
  ],
)

-- A car's slot may be written with the values that it has.
values-insert :
    (car : ℕ) (c : ParkingEventCarState) (m : ParkingEventMonitor)
    → c.values ≡ (car_values car m).values
    → (j : ℕ)
    → (or_zero empty_values (lookup j (insert car c m.cars))).values ≡ (car_values j m).values
values-insert car c m h j = elim (Bool-cases (car == j)) [
  | inl same ↦
      rw (lookup-insert car j c m.cars, same)
        (subst (λ i. c.values ≡ (car_values i m).values) ((==_iff car j).0 same) h)
  | inr other ↦ rw (lookup-insert car j c m.cars, other) refl
]

baselines-insert :
    (car : ℕ) (m : ParkingEventMonitor) (j : ℕ)
    → or_zero [] (lookup j (insert car (baselines_of car m) m.baselines)) ≡ baselines_of j m
baselines-insert car m j = elim (Bool-cases (car == j)) [
  | inl same ↦
      rw (lookup-insert car j (baselines_of car m) m.baselines, same)
        (ap (λ i. baselines_of i m) ((==_iff car j).0 same))
  | inr other ↦ rw (lookup-insert car j (baselines_of car m) m.baselines, other) refl
]

pub with_slot-IsReduced :
    (car : ℕ) (m : ParkingEventMonitor)
    → IsMap m.cars
    → IsMap m.baselines
    → IsReduced m (with_slot car m)
unfolding with_slot
with_slot-IsReduced car m cars baselines = (
  insert-IsMap car (car_values car m) m.cars cars,
  insert-IsMap car (baselines_of car m) m.baselines baselines,
  λ j. inl (values-insert car (car_values car m) m refl j, baselines-insert car m j),
)

pub insert-IsReduced :
    (car : ℕ) (c : ParkingEventCarState) (m : ParkingEventMonitor)
    → c.values ≡ (car_values car m).values
    → IsMap m.cars
    → IsMap m.baselines
    → IsReduced m (record m { cars = insert car c m.cars })
insert-IsReduced car c m same cars baselines =
    (insert-IsMap car c m.cars cars, baselines, λ j. inl (values-insert car c m same j, refl))

pub store_level-IsReduced :
    (car : ℕ) (level : Option ℤ) (m : ParkingEventMonitor)
    → IsMap m.cars
    → IsMap m.baselines
    → IsReduced m (store_level car level m)
unfolding store_level
store_level-IsReduced car level m cars baselines =
    elim (Bool-cases (option_eq eqb_ℤ (car_values car m).battery_level level)) [
      | inl same ↦ rw same (IsReduced-refl m cars baselines)
      | inr other ↦ rw other (
          insert-IsReduced car (record (car_values car m) { battery_level = level }) m refl cars
            baselines)
    ]

pub store_range-IsReduced :
    (car : ℕ) (range : Option Float64) (m : ParkingEventMonitor)
    → IsMap m.cars
    → IsMap m.baselines
    → IsReduced m (store_range car range m)
unfolding store_range
store_range-IsReduced car range m cars baselines =
    elim (Bool-cases (option_eq float_eq (car_values car m).rated_range_km range)) [
      | inl same ↦ rw same (IsReduced-refl m cars baselines)
      | inr other ↦ rw other (
          insert-IsReduced car (record (car_values car m) { rated_range_km = range }) m refl cars
            baselines)
    ]

pub reconcile_fleet-IsReduced :
    (in_fleet : ℕ → Bool) (m : ParkingEventMonitor)
    → IsMap m.cars
    → IsMap m.baselines
    → IsReduced m (reconcile_fleet in_fleet m)
unfolding reconcile_fleet
reconcile_fleet-IsReduced in_fleet m cars baselines = (
  keep-IsMap (λ (e : ℕ × ParkingEventCarState). in_fleet e.0) m.cars cars,
  keep-IsMap (λ (e : ℕ × List (Bytes × Bool)). in_fleet e.0 || not (has_key e.0 m.cars)) m.baselines
      baselines,
  λ j.
      let in_cars = lookup-keep_keys in_fleet j m.cars in
      let in_baselines =
        lookup-keep_keys (λ i. in_fleet i || not (has_key i m.cars)) j m.baselines in
      elim (Bool-cases (in_fleet j)) [
        | inl stays ↦ inl (rw (in_cars, stays) refl, rw (in_baselines, stays) refl)
        | inr goes ↦ elim (Option-cases (lookup j m.cars)) [
          | inl missing ↦
              inl (rw (in_cars, goes, missing) refl, rw (in_baselines, goes, missing) refl)
          | inr (c, found) ↦ inr (rw (in_baselines, goes, found) refl)
        ]
      ],
)

-- Bounding the cars only forgets.
pub bound_current_cars-IsReduced :
    (car : ℕ) (at : Time) (m : ParkingEventMonitor)
    → IsMap m.cars
    → IsMap m.baselines
    → IsReduced m (bound_current_cars car at m)
bound_current_cars-IsReduced car at m cars baselines =
    bound_current_cars_keeps (IsReduced m)
      (λ id mid h. IsReduced-trans m mid (evict id mid) h (evict-IsReduced id mid h.0 h.1))
      (λ receipts mid h. h) car at m (IsReduced-refl m cars baselines)
