-- ===== src/Parking.antt =====
-- The parking event monitor (parking_event_monitor.go): its state. The mutex makes each operation one step,
-- and saving the file is taken to succeed.
pub mod Events
pub mod Receipts
pub mod Bound
pub mod Observe
pub mod Room
pub mod Calls
pub mod Bounds
pub mod Keeps
pub mod Delivery
pub mod Silence
pub mod Reduced
pub mod Tests
pub mod Changes
pub mod Transitions
pub mod Baselines
use my_t_companion.Base.Float.{Float64}
use my_t_companion.Base.Int.{ℤ}
use my_t_companion.Base.Maps.{lookup, or_zero}
use my_t_companion.Base.Clock.{Stamp, Time}
use my_t_companion.Base.Eq.{Bytes, nat_key}
use my_t_companion.Base.{[], ℕ, Option, List, Bool, none}

abbrev pub maximum_parking_current_cars : ℕ
maximum_parking_current_cars = 256

abbrev pub default_parking_event_maximum : ℕ
default_parking_event_maximum = 50000

-- What `strconv.ParseFloat` and `time.Parse` make of a text, outside the repository.
pub record Parsers : Type 0 where
  pub parse_float : Bytes → Option Float64
  pub is_time : Bytes → Bool

-- The parts that the identifier of an event joins.
pub record EventId : Type 0 where
  pub car : ℕ
  pub at : Time
  pub type : Bytes

pub record ParkingObservedEvent : Type 0 where
  pub id : EventId
  pub car_id : ℕ
  pub type : Bytes
  pub field : Bytes
  pub value : Bytes
  pub observed_at : Stamp
  pub battery_level : Option ℤ
  pub rated_range_km : Option Float64
  pub charging_state : Bytes
  pub charge_cable : Bytes

pub record ParkingEventCarState : Type 0 where
  pub values : List (Bytes × Bytes)
  pub battery_level : Option ℤ
  pub rated_range_km : Option Float64

abbrev pub empty_values : ParkingEventCarState
empty_values = record { values = []; battery_level = none; rated_range_km = none }

pub record ParkingDoorReceipt : Type 0 where
  pub car_id : ℕ
  pub field : Bytes
  pub received_count : ℕ
  pub stored_event_count : ℕ
  pub last_received_at : Stamp
  pub last_stored_at : Stamp
  pub last_value : Bytes
  pub baseline_only : Bool

-- `door_receipts` has the two parts of `doorReceiptKey` as its key. A map that is nil is an empty one.
pub record ParkingEventMonitor : Type 0 where
  pub retention_days : ℕ
  pub maximum_events : ℕ
  pub cars : List (ℕ × ParkingEventCarState)
  pub events : List ParkingObservedEvent
  pub door_receipts : List ((ℕ × Bytes) × ParkingDoorReceipt)
  pub baselines : List (ℕ × List (Bytes × Bool))
  pub last_receipt : List (ℕ × Time)

abbrev pub car_values : ℕ → ParkingEventMonitor → ParkingEventCarState
car_values car m = or_zero empty_values (lookup car m.cars)
