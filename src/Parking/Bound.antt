-- ===== src/Parking/Bound.antt =====
-- The bound on the cars that are remembered (parking_event_monitor.go, `boundCurrentCarsLocked`).
use my_t_companion.Parking.Events.{one_of, named_door_fields}
use my_t_companion.Base.Eq.{nat_key}
use my_t_companion.Base.Maps.{delete, lookup, insert, has_key, or_zero}
use my_t_companion.Base.Clock.{Time}
use my_t_companion.Parking.{
  ParkingEventMonitor, ParkingEventCarState, Bytes, maximum_parking_current_cars,
  ParkingDoorReceipt,
}
use my_t_companion.Base.{
  List, ℕ, Bool, Option, [], length, leb, ◌∷◌, keep, some, ◌&&◌, if◌then◌else◌, zero, ltb, ◌==◌,
  not, none, ◌||◌, suc,
}

-- The least recently heard car of those that come after `oldest`; the identifier 0 is none yet.
unfoldable pub oldest_car : List (ℕ × Time) → List (ℕ × ParkingEventCarState) → ℕ × Time → ℕ × Time
oldest_car receipts [] oldest = oldest
oldest_car receipts ((id, state) ∷ cars) oldest =
    let at = or_zero 0 (lookup id receipts) in
    oldest_car receipts cars (
      if oldest.0 == 0 || ltb at oldest.1 || (at == oldest.1 && ltb id oldest.0)
      then (id, at)
      else oldest)

-- What is forgotten of a car.
unfoldable pub evict : ℕ → ParkingEventMonitor → ParkingEventMonitor
evict car m = record m {
  cars = delete car m.cars;
  baselines = delete car m.baselines;
  last_receipt = delete car m.last_receipt;
  door_receipts =
      keep
        (λ (e : (ℕ × Bytes) × ParkingDoorReceipt).
          not (e.0.0 == car && one_of e.0.1 named_door_fields))
        m.door_receipts;
}

-- There is room for a message of the car.
unfoldable pub has_room : ℕ → ParkingEventMonitor → Bool
has_room car m =
    leb (length m.cars) maximum_parking_current_cars
    && (ltb (length m.cars) maximum_parking_current_cars || has_key car m.cars)

-- The loop, on fuel: `none` is a loop that has not ended.
unfoldable pub bound_loop : ℕ → ℕ → ParkingEventMonitor → Option ParkingEventMonitor
unfolding has_room evict oldest_car
bound_loop zero car m = if has_room car m then some m else none
bound_loop (suc fuel) car m =
    let rest = bound_loop fuel car (evict (oldest_car m.last_receipt m.cars (0, 0)).0 m) in
    if has_room car m then some m else rest

unfoldable pub bound_current_cars : ℕ → Time → ParkingEventMonitor → ParkingEventMonitor
unfolding bound_loop
bound_current_cars car at m =
    let bounded = or_zero m (bound_loop (length m.cars) car m) in
    record bounded { last_receipt = insert car at bounded.last_receipt }
