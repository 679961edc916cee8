-- ===== src/Navigation.antt =====
-- The legs of a navigation (navigation_leg.go): the route that a car follows and the next one that waits to
-- be confirmed. `strings.EqualFold` is the equality of the lower-case texts.
pub mod Classify
pub mod Pending
pub mod Decisions
pub mod Tests
pub mod Applied
pub mod Confirmed
use my_t_companion.Base.Clock.{seconds, Stamp}
use my_t_companion.Base.Text.{lower_text, trim_space}
use my_t_companion.Base.Float.{Float64, float_eq, float_le, float_of, float_neg}
use my_t_companion.Base.Eq.{Bytes, bytes_eq}
use my_t_companion.Base.Int.{ℤ, pos}
use my_t_companion.Base.{ℕ, Option, Bool, if◌then◌else◌, not, ◌||◌, some, false, ◌&&◌}

-- What Go's floating-point arithmetic and `math` make of their arguments, and the distance of two places.
pub record Arithmetic : Type 0 where
  pub add : Float64 → Float64 → Float64
  pub sub : Float64 → Float64 → Float64
  pub mul : Float64 → Float64 → Float64
  pub greatest : Float64 → Float64 → Float64
  pub abs : Float64 → Float64
  pub hundredths : ℕ → Float64
  pub destination_coordinate_distance_meters : Float64 → Float64 → Float64 → Float64 → Float64

abbrev pub navigation_arrival_minutes : ℤ
navigation_arrival_minutes = pos 2

abbrev pub navigation_pending_confirm_delay : ℕ
navigation_pending_confirm_delay = seconds 2

abbrev pub navigation_pending_confirm_window : ℕ
navigation_pending_confirm_window = seconds 30

pub data NavigationLegDecision : Type 0 where
  navigation_leg_keep navigation_leg_alias navigation_leg_stage navigation_leg_new :
      NavigationLegDecision

pub data LegPhase : Type 0 where
  no_phase active_phase pending_next confirmed_arrived ended_phase : LegPhase

pub record NavigationRouteCandidate : Type 0 where
  pub destination : Bytes
  pub remaining_km : Option Float64
  pub remaining_minutes : Option ℤ
  pub arrival_battery : Option ℤ
  pub latitude : Option Float64
  pub longitude : Option Float64
  pub invalid : Bool

-- The fields of the state that the legs use
pub record CarNavigationState : Type 0 where
  pub vehicle_state : Bytes
  pub active : Bool
  pub leg_phase : LegPhase
  pub destination : Bytes
  pub remaining_distance_km : Option Float64
  pub remaining_minutes : Option ℤ
  pub arrival_battery_level : Option ℤ
  pub destination_latitude : Option Float64
  pub destination_longitude : Option Float64
  pub pending_destination : Bytes
  pub pending_remaining_km : Option Float64
  pub pending_remaining_minutes : Option ℤ
  pub pending_arrival_battery : Option ℤ
  pub pending_latitude : Option Float64
  pub pending_longitude : Option Float64
  pub pending_observed_at : Stamp

abbrev pub normal_name : Bytes → Bytes
normal_name name = lower_text (trim_space name)

abbrev pub navigation_destination_equal : Bytes → Bytes → Bool
navigation_destination_equal a b = bytes_eq (normal_name a) (normal_name b)

unfoldable pub valid_route_coordinate : Option Float64 → Option Float64 → Bool
valid_route_coordinate (some lat) (some lon) =
    not (float_eq lat (float_of 0) && float_eq lon (float_of 0))
    && float_le (float_neg 90) lat
    && float_le lat (float_of 90)
    && float_le (float_neg 180) lon
    && float_le lon (float_of 180)
valid_route_coordinate _ _ = false

-- `known` is false for `unknown_place`.
pub data Relation : Type 0 where
  unknown_place close_place far_place : Relation

unfoldable pub place_distance :
    Arithmetic → Option Float64 → Option Float64 → Option Float64 → Option Float64 → Relation
place_distance math (some lat1) (some lon1) (some lat2) (some lon2) =
    if float_le (math.destination_coordinate_distance_meters lat1 lon1 lat2 lon2) (float_of 150)
    then close_place
    else far_place
place_distance math _ _ _ _ = unknown_place

unfoldable pub navigation_destination_coordinates_relation :
    Arithmetic → Option Float64 → Option Float64 → Option Float64 → Option Float64 → Relation
unfolding valid_route_coordinate place_distance
navigation_destination_coordinates_relation math lat1 lon1 lat2 lon2 =
    if not (valid_route_coordinate lat1 lon1) || not (valid_route_coordinate lat2 lon2)
    then unknown_place
    else place_distance math lat1 lon1 lat2 lon2
