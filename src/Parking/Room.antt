-- ===== src/Parking/Room.antt =====
-- What bounding the remembered cars does (parking_event_monitor.go, `boundCurrentCarsLocked`).
use my_t_companion.Base.Eq.{nat_key}
use my_t_companion.Parking.{ParkingEventCarState, ParkingEventMonitor}
use my_t_companion.Base.Clock.{Time}
use my_t_companion.Base.Maps.{lookup, has_key, length-delete, or_zero}
use my_t_companion.Base.{
  List, ℕ, ◌≡◌, ◌<◌, length, ◌⊎◌, ◌≤◌, true, some, suc, inl, zero, [], ◌∷◌, refl, Bool-cases, arith,
  ◌==◌, inr, ◌||◌, ltb, ◌&&◌,
}
use my_t_companion.Parking.Bound.{bound_loop, oldest_car, evict, has_room}

-- The car that is found is the one so far or one of the list.
oldest_car-cases :
    (receipts : List (ℕ × Time)) (cars : List (ℕ × ParkingEventCarState)) (o : ℕ × Time)
    → ((oldest_car receipts cars o).0 ≡ o.0) ⊎ (has_key (oldest_car receipts cars o).0 cars ≡ true)
unfolding oldest_car lookup
oldest_car-cases receipts [] o = inl refl
oldest_car-cases receipts ((id, state) ∷ cars) o =
    let at = or_zero 0 (lookup id receipts) in
    elim (Bool-cases (o.0 == 0 || ltb at o.1 || (at == o.1 && ltb id o.0))) [
      | inl older ↦ elim (oldest_car-cases receipts cars (id, at)) [
        | inl same ↦ ground (arith, older, same)
        | inr later ↦ ground (arith, older, later)
      ]
      | inr newer ↦ elim (oldest_car-cases receipts cars o) [
        | inl same ↦ ground (arith, newer, same)
        | inr later ↦ ground (arith, newer, later)
      ]
    ]

-- A list that is not empty has the car that is found.
oldest_car-has_key :
    (receipts : List (ℕ × Time)) (cars : List (ℕ × ParkingEventCarState))
    → 0 < length cars
    → has_key (oldest_car receipts cars (0, 0)).0 cars ≡ true
unfolding oldest_car lookup
oldest_car-has_key receipts [] h = absurd (omega (arith, h))
oldest_car-has_key receipts ((id, state) ∷ cars) h =
    elim (oldest_car-cases receipts cars (id, or_zero 0 (lookup id receipts))) [
      | inl same ↦ ground (arith, same)
      | inr later ↦ ground (arith, later)
    ]

-- With fuel for every car the loop ends, and then there is room.
pub bound_loop_ends :
    (fuel car : ℕ) (m : ParkingEventMonitor)
    → length m.cars ≤ fuel
    → (after : ParkingEventMonitor) × ((bound_loop fuel car m ≡ some after)
        × (has_room car after ≡ true))
unfolding bound_loop evict has_room
bound_loop_ends zero car m enough = elim (Bool-cases (has_room car m)) [
  | inl room ↦ (m, (rw room refl, room))
  | inr full ↦ absurd (ground (arith, full, enough))
]
bound_loop_ends (suc fuel) car m enough = elim (Bool-cases (has_room car m)) [
  | inl room ↦ (m, (rw room refl, room))
  | inr full ↦
      let oldest = (oldest_car m.last_receipt m.cars (0, 0)).0 in
      let some_car = oldest_car-has_key m.last_receipt m.cars (ground (arith, full)) in
      let shorter = length-delete oldest m.cars some_car in
      let after = bound_loop_ends fuel car (evict oldest m) (omega (arith, shorter, enough)) in
      (after.0, (rw full after.1.0, after.1.1))
]
