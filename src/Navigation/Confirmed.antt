-- ===== src/Navigation/Confirmed.antt =====
-- A route that keeps being published is confirmed (navigation_leg.go).
use my_t_companion.Base.Eq.{bytes_eq_refl}
use my_t_companion.Base.{
  List, ◌∷◌, ◌≤◌, All, ◌≡◌, [], ◌+◌, false, true, some, refl, leb, arith, ◌&&◌,
}
use my_t_companion.Base.Text.{is_blank, trim_space, text_is}
use my_t_companion.Base.Clock.{Time}
use my_t_companion.Navigation.{
  NavigationRouteCandidate, Arithmetic, CarNavigationState, navigation_pending_confirm_window,
  navigation_destination_coordinates_relation, normal_name, navigation_pending_confirm_delay,
}
use my_t_companion.Navigation.Pending.{
  pending_route_candidate_confirmed, pending_route_candidate_matches, stage_pending_candidate,
  pending_age_is_within, is_far,
}

-- The candidate waits since `first`.
abbrev pub IsStaged : NavigationRouteCandidate → Time → CarNavigationState → Type 0
IsStaged c first s =
    (s.pending_destination ≡ c.destination)
    × (s.pending_latitude ≡ c.latitude)
    × (s.pending_longitude ≡ c.longitude)
    × (s.pending_observed_at ≡ some first)

-- The candidate names a place that is not far from itself.
abbrev pub IsPlace : Arithmetic → NavigationRouteCandidate → Type 0
IsPlace math c =
    (is_blank (trim_space c.destination) ≡ false)
    × (is_far (
          navigation_destination_coordinates_relation math c.latitude c.longitude c.latitude
            c.longitude)
        ≡ false)

unfoldable pub stage_all :
    Arithmetic → NavigationRouteCandidate → List Time → CarNavigationState → CarNavigationState
unfolding stage_pending_candidate
stage_all math c [] s = s
stage_all math c (at ∷ ats) s = stage_all math c ats (stage_pending_candidate math c at s)

matches-IsStaged :
    (math : Arithmetic) (c : NavigationRouteCandidate) (first : Time) (s : CarNavigationState)
    → IsPlace math c
    → IsStaged c first s
    → pending_route_candidate_matches math s c ≡ true
unfolding pending_route_candidate_matches
matches-IsStaged math c first s (named, near) (name, lat, lon, since) =
    rw (name, lat, lon, named, near, bytes_eq_refl (normal_name c.destination)) refl

stage_pending_candidate-IsStaged :
    (math : Arithmetic) (c : NavigationRouteCandidate) (first at : Time) (s : CarNavigationState)
    → IsPlace math c
    → IsStaged c first s
    → (first ≤ at) × (at ≤ first + navigation_pending_confirm_window)
    → IsStaged c first (stage_pending_candidate math c at s)
unfolding stage_pending_candidate pending_age_is_within
stage_pending_candidate-IsStaged math c first at s place staged (after, soon) = (
  refl,
  refl,
  refl,
  rw (matches-IsStaged math c first s place staged, staged.3) (ground (arith, after, soon)),
)

stage_all-IsStaged :
    (math : Arithmetic) (c : NavigationRouteCandidate) (first : Time) (ats : List Time)
    (s : CarNavigationState)
    → IsPlace math c
    → IsStaged c first s
    → All (λ at. (first ≤ at) × (at ≤ first + navigation_pending_confirm_window)) ats
    → IsStaged c first (stage_all math c ats s)
unfolding stage_all
stage_all-IsStaged math c first [] s place staged inside = staged
stage_all-IsStaged math c first (at ∷ ats) s place staged inside =
    stage_all-IsStaged math c first ats (stage_pending_candidate math c at s) place
      (stage_pending_candidate-IsStaged math c first at s place staged inside.0) inside.1

stage_all-vehicle_state :
    (math : Arithmetic) (c : NavigationRouteCandidate) (ats : List Time) (s : CarNavigationState)
    → (stage_all math c ats s).vehicle_state ≡ s.vehicle_state
unfolding stage_all stage_pending_candidate
stage_all-vehicle_state math c [] s = refl
stage_all-vehicle_state math c (at ∷ ats) s =
    stage_all-vehicle_state math c ats (stage_pending_candidate math c at s)

-- A new route that goes on being published within 30 seconds of its first message, while the car drives, is
-- confirmed from two to 30 seconds after that message, and at no other time: its later messages do not put
-- the confirmation off.
pub stage_all-pending_route_candidate_confirmed :
    (math : Arithmetic) (c : NavigationRouteCandidate) (first now : Time) (ats : List Time)
    (s : CarNavigationState)
    → IsPlace math c
    → pending_route_candidate_matches math s c ≡ false
    → text_is s.vehicle_state "driving" ≡ true
    → All (λ at. (first ≤ at) × (at ≤ first + navigation_pending_confirm_window)) ats
    → pending_route_candidate_confirmed math (stage_all math c (first ∷ ats) s) c now ≡ (
        leb (first + navigation_pending_confirm_delay) now
        && leb now (first + navigation_pending_confirm_window))
unfolding pending_route_candidate_confirmed pending_age_is_within stage_all stage_pending_candidate
stage_all-pending_route_candidate_confirmed math c first now ats s place fresh drives inside =
    let begun = stage_pending_candidate math c first s in
    let staged_first : IsStaged c first begun = (refl, refl, refl, rw fresh refl) in
    let staged = stage_all-IsStaged math c first ats begun place staged_first inside in
    let after = stage_all math c ats begun in
    rw
      (
        stage_all-vehicle_state math c ats begun,
        drives,
        matches-IsStaged math c first after place staged,
        staged.3,
      )
      (ground arith)
