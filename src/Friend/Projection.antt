-- ===== src/Friend/Projection.antt =====
-- internal/friendtogether/projection.go: the snapshot that a grant allows of one source reading.
use my_t_companion.Base.{
  ◌-◌, Bool, true, false, not, ◌&&◌, ◌||◌, Option, none, some, List, [], ◌∷◌, if◌then◌else◌,
  is_some, length, drop, ltb,
}
use my_t_companion.Base.Int.{ℤ, pos, ltb_ℤ, leb_ℤ, eqb_ℤ}
use my_t_companion.Base.Eq.{Bytes}
use my_t_companion.Base.Float.{
  Float64, float_of, float_neg, max_float64, float_lt, float_le, float_eq, is_nan, is_inf,
}
use my_t_companion.Friend.Identity.{valid_time}
use my_t_companion.Friend.Types.{
  Result, ok, err, ◌>>=◌, ◌>>◌, invalid, order, State, unknown, other, Motion, Navigation,
  NavigationObservation, Battery, TrajectoryPoint, DestinationAlias, GrantMetadata, Grant,
  SourceSnapshot, Snapshot, max_trajectory_points, max_source_trajectory_points, refuse_if,
}

unfoldable pub eligible_time : ℤ → ℤ → ℤ → Result Bool
eligible_time observed consent now =
    if not (valid_time observed) || ltb_ℤ now observed
    then err invalid
    else ok (leb_ℤ consent observed)

unfoldable pub bounded : Option Float64 → Float64 → Float64 → Bool → Bool
bounded none lo hi include = true
bounded (some v) lo hi include =
    not (is_nan v) && not (is_inf v) && float_le lo v && (float_lt v hi || include && float_eq v hi)

unfoldable pub nonnegative : Option Float64 → Bool
unfolding bounded
nonnegative value = bounded value (float_of 0) max_float64 true

unfoldable pub valid_coordinates : Option Float64 → Option Float64 → Bool
unfolding bounded
valid_coordinates none none = true
valid_coordinates none (some lon) = false
valid_coordinates (some lat) none = false
valid_coordinates (some lat) (some lon) =
    bounded (some lat) (float_neg 90) (float_of 90) true
    && bounded (some lon) (float_neg 180) (float_of 180) true

unfoldable pub valid_state : State → Bool
valid_state (other s) = false
valid_state _ = true

abbrev pub is_unknown : State → Bool
is_unknown unknown = true
is_unknown _ = false

abbrev pub no_motion : Motion
no_motion = record {
  latitude = none;
  longitude = none;
  speed_kph = none;
  heading_degrees = none;
  observed_at_ms = none;
}

unfoldable pub valid_motion : State → Motion → Bool
valid_motion s motion =
    valid_coordinates motion.latitude motion.longitude
    && bounded motion.speed_kph (float_of 0) (float_of 324) true
    && bounded motion.heading_degrees (float_of 0) (float_of 360) false
    && valid_state s

-- `motion.ObservedAtMS` is matched first.
unfoldable pub motion_at : GrantMetadata → ℤ → State → Motion → Option ℤ → Result (State × Motion)
unfolding valid_motion
motion_at m now s motion none =
    if is_some motion.latitude
      || is_some motion.longitude
      || is_some motion.speed_kph
      || is_some motion.heading_degrees
      || not (is_unknown s)
    then err invalid
    else ok (unknown, no_motion)
motion_at m now s motion (some at) = do
  eligible ← eligible_time at m.consent_started_at_ms now
  if not eligible
      then ok (unknown, no_motion)
      else if not (valid_motion s motion)
      then err invalid
      else ok (s, motion)

unfoldable pub project_motion : GrantMetadata → ℤ → State → Option Motion → Result (State × Motion)
unfolding motion_at
project_motion m now s none = ok (unknown, no_motion)
project_motion m now s (some motion) = motion_at m now s motion motion.observed_at_ms

-- The owner's label, if it was given for this navigation revision.
unfoldable pub alias_for : Option DestinationAlias → ℤ → Option Bytes
alias_for none revision = none
alias_for (some a) revision = if eqb_ℤ a.navigation_revision revision then some a.value else none

unfoldable pub valid_navigation : NavigationObservation → Bool
valid_navigation n =
    not (ltb_ℤ n.revision (pos 1))
    && valid_coordinates n.latitude n.longitude
    && nonnegative n.remaining_distance_km
    && nonnegative n.remaining_minutes

unfoldable pub navigation_out : Grant → NavigationObservation → Navigation
unfolding alias_for
navigation_out g n = record {
  revision = n.revision;
  destination = alias_for g.alias n.revision;
  latitude = n.latitude;
  longitude = n.longitude;
  remaining_distance_km = n.remaining_distance_km;
  remaining_minutes = n.remaining_minutes;
  observed_at_ms = n.observed_at_ms;
}

unfoldable pub navigation_at : Grant → ℤ → NavigationObservation → Result (Option Navigation)
unfolding valid_navigation navigation_out
navigation_at g now n = do
  eligible ← eligible_time n.observed_at_ms g.metadata.consent_started_at_ms now
  if not eligible
      then ok none
      else if not (valid_navigation n)
      then err invalid
      else ok (some (navigation_out g n))

-- The permission is tested before any value is read.
unfoldable pub project_navigation :
    Grant → ℤ → Option NavigationObservation → Result (Option Navigation)
unfolding navigation_at
project_navigation g now none = ok none
project_navigation g now (some n) =
    if g.metadata.permissions.navigation then navigation_at g now n else ok none

unfoldable pub battery_at : GrantMetadata → ℤ → Battery → Result (Option Battery)
battery_at m now b = do
  eligible ← eligible_time b.observed_at_ms m.consent_started_at_ms now
  if not eligible
      then ok none
      else if not
          (bounded b.percentage (float_of 0) (float_of 100) true && nonnegative b.rated_range_km)
      then err invalid
      else ok (some b)

unfoldable pub project_battery : GrantMetadata → ℤ → Option Battery → Result (Option Battery)
unfolding battery_at
project_battery m now none = ok none
project_battery m now (some b) = if m.permissions.battery then battery_at m now b else ok none

abbrev pub after : Option ℤ → ℤ → Bool
after none t = true
after (some p) t = ltb_ℤ p t

-- One round of the loop over the source points: `none` skips a point from before the consent.
unfoldable pub check_point :
    GrantMetadata → ℤ → Option ℤ → TrajectoryPoint → Result (Option TrajectoryPoint)
check_point m now previous p = do
  eligible ← eligible_time p.observed_at_ms m.consent_started_at_ms now
  if not eligible
      then ok none
      else if not (valid_coordinates (some p.latitude) (some p.longitude))
      then err invalid
      else if not (after previous p.observed_at_ms)
      then err order
      else ok (some p)

abbrev pub previous_after : Option TrajectoryPoint → Option ℤ → Option ℤ
previous_after none previous = previous
previous_after (some p) previous = some p.observed_at_ms

abbrev pub append_point : Option TrajectoryPoint → List TrajectoryPoint → List TrajectoryPoint
append_point none points = points
append_point (some p) points = p ∷ points

unfoldable pub collect_points :
    GrantMetadata → ℤ → Option ℤ → List TrajectoryPoint → Result (List TrajectoryPoint)
collect_points m now previous [] = ok []
collect_points m now previous (p ∷ ps) = do
  kept ← check_point m now previous p
  rest ← collect_points m now (previous_after kept previous) ps
  ok (append_point kept rest)

-- The newest points, `max_trajectory_points` at most.
unfoldable pub newest_points : List TrajectoryPoint → List TrajectoryPoint
newest_points points =
    if ltb max_trajectory_points (length points)
    then drop (length points - max_trajectory_points) points
    else points

unfoldable pub visible_trajectory :
    GrantMetadata → ℤ → List TrajectoryPoint → Result (Option (List TrajectoryPoint))
visible_trajectory m now points = do
  refuse_if (ltb max_source_trajectory_points (length points)) invalid
  kept ← collect_points m now none points
  ok (some (newest_points kept))

unfoldable pub project_trajectory :
    GrantMetadata → ℤ → List TrajectoryPoint → Result (Option (List TrajectoryPoint))
project_trajectory m now points =
    if not m.permissions.trajectory then ok none else visible_trajectory m now points

-- The snapshot with `Sequence` still 0.
unfoldable pub project_snapshot : Grant → SourceSnapshot → ℤ → Result Snapshot
project_snapshot g source now = do
  shown ← project_motion g.metadata now source.state source.motion
  navigation ← project_navigation g now source.navigation
  battery ← project_battery g.metadata now source.battery
  trajectory ← project_trajectory g.metadata now source.trajectory
  ok (record {
    binding = g.metadata.binding;
    revision = g.metadata.revision;
    sequence = pos 0;
    server_time_ms = now;
    consent_started_at_ms = g.metadata.consent_started_at_ms;
    expires_at_ms = g.metadata.expires_at_ms;
    state = shown.0;
    motion = shown.1;
    navigation = navigation;
    battery = battery;
    trajectory = trajectory;
  })
