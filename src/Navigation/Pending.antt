-- ===== src/Navigation/Pending.antt =====
-- The route that waits to be confirmed, and the one that is followed (navigation_leg.go).
use my_t_companion.Base.Text.{text_is, is_blank, trim_space}
use my_t_companion.Base.Clock.{Stamp, Time, stamp_nano}
use my_t_companion.Navigation.{
  NavigationRouteCandidate, Arithmetic, Relation, CarNavigationState, valid_route_coordinate,
  far_place, navigation_pending_confirm_window, navigation_pending_confirm_delay, active_phase,
  pending_next, navigation_destination_equal, navigation_destination_coordinates_relation,
}
use my_t_companion.Base.{
  ℕ, Option, [], some, Bool, ◌&&◌, none, false, true, if◌then◌else◌, not, leb, ◌+◌,
}

unfoldable pub clear_pending_candidate : CarNavigationState → CarNavigationState
clear_pending_candidate s = record s {
  pending_destination = [];
  pending_remaining_km = none;
  pending_remaining_minutes = none;
  pending_arrival_battery = none;
  pending_latitude = none;
  pending_longitude = none;
  pending_observed_at = none;
}

unfoldable pub clear_committed_route : CarNavigationState → CarNavigationState
unfolding clear_pending_candidate
clear_committed_route s = clear_pending_candidate (record s {
  destination = [];
  remaining_distance_km = none;
  remaining_minutes = none;
  arrival_battery_level = none;
  destination_latitude = none;
  destination_longitude = none;
})

abbrev pub is_far : Relation → Bool
is_far far_place = true
is_far _ = false

unfoldable pub pending_route_candidate_matches :
    Arithmetic → CarNavigationState → NavigationRouteCandidate → Bool
pending_route_candidate_matches math s c =
    not (is_blank (trim_space s.pending_destination))
    && navigation_destination_equal s.pending_destination c.destination
    && not (
        is_far (
          navigation_destination_coordinates_relation math s.pending_latitude s.pending_longitude
            c.latitude c.longitude))

-- The age is known, and between the two bounds.
unfoldable pub pending_age_is_within : ℕ → ℕ → Stamp → Time → Bool
pending_age_is_within low high none now = false
pending_age_is_within low high (some first) now =
    leb first now && leb (first + low) now && leb now (first + high)

unfoldable pub stage_pending_candidate :
    Arithmetic → NavigationRouteCandidate → Time → CarNavigationState → CarNavigationState
unfolding pending_route_candidate_matches pending_age_is_within
stage_pending_candidate math c at s =
    let goes_on =
      pending_route_candidate_matches math s c
      && pending_age_is_within 0 navigation_pending_confirm_window s.pending_observed_at at in
    record s {
      pending_destination = c.destination;
      pending_remaining_km = c.remaining_km;
      pending_remaining_minutes = c.remaining_minutes;
      pending_arrival_battery = c.arrival_battery;
      pending_latitude = c.latitude;
      pending_longitude = c.longitude;
      pending_observed_at = if goes_on then s.pending_observed_at else stamp_nano at;
      leg_phase = if s.active then pending_next else s.leg_phase;
    }

unfoldable pub pending_route_candidate_confirmed :
    Arithmetic → CarNavigationState → NavigationRouteCandidate → Time → Bool
unfolding pending_route_candidate_matches pending_age_is_within
pending_route_candidate_confirmed math s c now =
    text_is s.vehicle_state "driving"
    && pending_route_candidate_matches math s c
    && pending_age_is_within navigation_pending_confirm_delay navigation_pending_confirm_window
        s.pending_observed_at now

abbrev pub or_else {ℓ} : {A : Type ℓ} → Option A → Option A → Option A
or_else (some a) b = some a
or_else none b = b

unfoldable pub apply_route_candidate :
    NavigationRouteCandidate → CarNavigationState → CarNavigationState
unfolding clear_pending_candidate
apply_route_candidate c s =
    let known = valid_route_coordinate c.latitude c.longitude in
    let applied = clear_pending_candidate (record s {
      destination = if is_blank c.destination then s.destination else c.destination;
      remaining_distance_km = or_else c.remaining_km s.remaining_distance_km;
      remaining_minutes = or_else c.remaining_minutes s.remaining_minutes;
      arrival_battery_level = or_else c.arrival_battery s.arrival_battery_level;
      destination_latitude = if known then c.latitude else s.destination_latitude;
      destination_longitude = if known then c.longitude else s.destination_longitude;
    }) in
    if c.invalid
    then s
    else record applied { leg_phase = if s.active then active_phase else s.leg_phase }
