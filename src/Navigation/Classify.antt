-- ===== src/Navigation/Classify.antt =====
-- What a route that is published means for the leg that the car is on (navigation_leg.go).
use my_t_companion.Base.Text.{is_blank, trim_space}
use my_t_companion.Base.{Bool, false, not, some, is_some, if◌then◌else◌, ◌||◌, ◌&&◌, none, Option}
use my_t_companion.Navigation.{
  Arithmetic, Option, NavigationRouteCandidate, Relation, CarNavigationState,
  navigation_destination_coordinates_relation, NavigationLegDecision, navigation_leg_keep,
  navigation_leg_alias, navigation_leg_new, navigation_leg_stage, close_place,
  navigation_arrival_minutes, far_place, unknown_place, navigation_destination_equal,
}
use my_t_companion.Base.Int.{ℤ, leb_ℤ}
use my_t_companion.Base.Float.{Float64, float_of, float_le, float_lt}

unfoldable pub at_most : Float64 → Option Float64 → Bool
at_most limit none = false
at_most limit (some x) = float_le x limit

unfoldable pub minutes_at_most : ℤ → Option ℤ → Bool
minutes_at_most limit none = false
minutes_at_most limit (some n) = leb_ℤ n limit

-- 0.35 km and two minutes; where both are known they must agree.
unfoldable pub navigation_remaining_looks_arrived : Arithmetic → Option Float64 → Option ℤ → Bool
unfolding at_most minutes_at_most
navigation_remaining_looks_arrived math (some km) (some n) =
    at_most (math.hundredths 35) (some km) && minutes_at_most navigation_arrival_minutes (some n)
navigation_remaining_looks_arrived math km n =
    at_most (math.hundredths 35) km || minutes_at_most navigation_arrival_minutes n

unfoldable pub navigation_route_candidate_needs_confirmation :
    Arithmetic → NavigationRouteCandidate → Bool
unfolding navigation_remaining_looks_arrived
navigation_route_candidate_needs_confirmation math c =
    not (is_some c.remaining_km) && not (is_some c.remaining_minutes)
    || navigation_remaining_looks_arrived math c.remaining_km c.remaining_minutes

-- The remaining distances differ by more than 0.15 km and 8 %, or by more than 3 km.
unfoldable pub remaining_jumps : Arithmetic → Float64 → Float64 → Bool
remaining_jumps math previous current =
    let prev = math.greatest (float_of 0) previous in
    let curr = math.greatest (float_of 0) current in
    let share = math.mul (math.greatest prev curr) (math.hundredths 8) in
    let wide = math.greatest (math.hundredths 15) share in
    let tolerance = if float_lt (float_of 3) wide then float_of 3 else wide in
    float_lt tolerance (math.abs (math.sub prev curr))

unfoldable pub navigation_remaining_delta_starts_new_leg :
    Arithmetic → Option Float64 → Option Float64 → Bool
unfolding remaining_jumps
navigation_remaining_delta_starts_new_leg math (some previous) (some current) =
    remaining_jumps math previous current
navigation_remaining_delta_starts_new_leg math _ _ = false

unfoldable pub navigation_remaining_looks_like_new_same_name_stop :
    Arithmetic → Option Float64 → Option Float64 → Bool
unfolding remaining_jumps
navigation_remaining_looks_like_new_same_name_stop math (some previous) (some current) =
    not (float_le current (math.add previous (math.hundredths 15)))
    && remaining_jumps math previous current
navigation_remaining_looks_like_new_same_name_stop math _ _ = false

-- A place that is far away is another leg, at once or after it is confirmed.
abbrev pub far_leg : Arithmetic → NavigationRouteCandidate → NavigationLegDecision
far_leg math c =
    if navigation_route_candidate_needs_confirmation math c
    then navigation_leg_stage
    else navigation_leg_new

unfoldable pub same_name_leg :
    Arithmetic → Relation → CarNavigationState → NavigationRouteCandidate → NavigationLegDecision
same_name_leg math close_place s c = navigation_leg_keep
same_name_leg math far_place s c = far_leg math c
same_name_leg math unknown_place s c =
    if navigation_remaining_looks_like_new_same_name_stop math s.remaining_distance_km
      c.remaining_km
    then navigation_leg_new
    else navigation_leg_keep

unfoldable pub other_name_leg :
    Arithmetic → Relation → CarNavigationState → NavigationRouteCandidate → NavigationLegDecision
other_name_leg math close_place s c = navigation_leg_alias
other_name_leg math far_place s c = far_leg math c
other_name_leg math unknown_place s c =
    if not (is_some s.remaining_distance_km) || not (is_some c.remaining_km)
    then navigation_leg_stage
    else if navigation_remaining_delta_starts_new_leg math s.remaining_distance_km c.remaining_km
    then navigation_leg_new
    else navigation_leg_alias

abbrev pub relation_of : Arithmetic → CarNavigationState → NavigationRouteCandidate → Relation
relation_of math s c =
    navigation_destination_coordinates_relation math s.destination_latitude s.destination_longitude
      c.latitude c.longitude

unfoldable pub classify_navigation_leg_change :
    Arithmetic → CarNavigationState → NavigationRouteCandidate → NavigationLegDecision
unfolding same_name_leg other_name_leg
classify_navigation_leg_change math s c =
    if c.invalid || is_blank (trim_space c.destination) || is_blank (trim_space s.destination)
    then navigation_leg_keep
    else if navigation_destination_equal s.destination c.destination
    then same_name_leg math (relation_of math s c) s c
    else other_name_leg math (relation_of math s c) s c
