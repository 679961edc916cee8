-- ===== src/Parking/Baselines.antt =====
-- A baseline is a value that is known (parking_event_monitor.go).
use my_t_companion.Base.{
  ◌≡◌, true, inl, inr, arith, Bool, if◌then◌else◌, ap, ◌==◌, ◌&&◌, false, Bool-cases, ==_iff, refl,
  subst,
}
use my_t_companion.Parking.Events.{parking_event_value_known}
use my_t_companion.Base.Eq.{nat_key, bytes_key, bytes_eq, bytes_eq_iff}
use my_t_companion.Parking.Reduced.{IsReduced, baselines_of}
use my_t_companion.Parking.{Parsers, ParkingEventMonitor, ℕ, Bytes, car_values}
use my_t_companion.Base.Maps.{lookup, IsMap, insert-IsMap, insert, lookup-insert, or_zero}
use my_t_companion.Parking.Observe.{store_value, has_baseline, value_of}

abbrev pub IsKnownBaseline : Parsers → ParkingEventMonitor → Type 0
IsKnownBaseline parsers m =
    (car : ℕ) (field : Bytes)
    → has_baseline car field m ≡ true
    → parking_event_value_known parsers field (value_of field (car_values car m).values) ≡ true

-- The caches hold one entry for each key, and a field with a baseline has a value that is known.
abbrev pub IsWellFormed : Parsers → ParkingEventMonitor → Type 0
IsWellFormed parsers m = IsMap m.cars × IsMap m.baselines × IsKnownBaseline parsers m

-- Where a baseline is left, the value is left.
pub IsReduced-has_baseline :
    (m after : ParkingEventMonitor) (car : ℕ) (field : Bytes)
    → IsReduced m after
    → has_baseline car field after ≡ true
    → (has_baseline car field m ≡ true)
      × ((car_values car after).values ≡ (car_values car m).values)
unfolding lookup
IsReduced-has_baseline m after car field h known = elim (h.2 car) [
  | inl same ↦ (rw⁻¹ same.1 known, same.0)
  | inr nothing ↦ absurd (ground (arith, known, ap (λ bs. or_zero false (lookup field bs)) nothing))
]

pub IsReduced-IsWellFormed :
    (parsers : Parsers) (m after : ParkingEventMonitor)
    → IsReduced m after
    → IsWellFormed parsers m
    → IsWellFormed parsers after
IsReduced-IsWellFormed parsers m after h (cars, baselines, known) = (
  h.0,
  h.1,
  λ car field had.
      let before = IsReduced-has_baseline m after car field h had in
      rw before.1 (known car field before.0),
)

-- What is stored for a field is read back, and nothing else changes.
pub store_value-has_baseline :
    (car : ℕ) (field value : Bytes) (known : Bool) (m : ParkingEventMonitor) (j : ℕ) (f : Bytes)
    → has_baseline j f (store_value car field value known m)
      ≡ (if car == j && bytes_eq field f then known else has_baseline j f m)
unfolding store_value
store_value-has_baseline car field value known m j f = elim (Bool-cases (car == j)) [
  | inl same ↦
      rw
        (
          lookup-insert car j (insert field known (baselines_of car m)) m.baselines,
          same,
          lookup-insert field f known (baselines_of car m),
          (==_iff car j).0 same,
        )
        (ground arith)
  | inr other ↦
      rw (lookup-insert car j (insert field known (baselines_of car m)) m.baselines, other) refl
]

pub store_value-value_of :
    (car : ℕ) (field value : Bytes) (known : Bool) (m : ParkingEventMonitor) (j : ℕ) (f : Bytes)
    → value_of f (car_values j (store_value car field value known m)).values
      ≡ (if car == j && bytes_eq field f then value else value_of f (car_values j m).values)
unfolding store_value
store_value-value_of car field value known m j f =
    let stored = record (car_values car m) {
      values = insert field value (car_values car m).values;
    } in
    elim (Bool-cases (car == j)) [
      | inl same ↦
          rw
            (
              lookup-insert car j stored m.cars,
              same,
              lookup-insert field f value (car_values car m).values,
              (==_iff car j).0 same,
            )
            (ground arith)
      | inr other ↦ rw (lookup-insert car j stored m.cars, other) refl
    ]

pub store_value-IsWellFormed :
    (parsers : Parsers) (car : ℕ) (field value : Bytes) (m : ParkingEventMonitor)
    → IsWellFormed parsers m
    → IsWellFormed parsers
        (store_value car field value (parking_event_value_known parsers field value) m)
unfolding store_value
store_value-IsWellFormed parsers car field value m (cars, baselines, known) = (
  insert-IsMap car _ m.cars cars,
  insert-IsMap car _ m.baselines baselines,
  λ j f had.
      let valid = parking_event_value_known parsers field value in
      let base = store_value-has_baseline car field value valid m j f in
      let text = store_value-value_of car field value valid m j f in
      elim (Bool-cases (car == j && bytes_eq field f)) [
        | inl same ↦
            let one = (bytes_eq_iff field f).0 (ground (arith, same)) in
            rw (text, same)
              (subst (λ g. parking_event_value_known parsers g value ≡ true) one
                (ground (arith, had, base, same)))
        | inr other ↦ rw (text, other) (known j f (ground (arith, had, base, other)))
      ],
)
