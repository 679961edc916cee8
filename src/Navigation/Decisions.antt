-- ===== src/Navigation/Decisions.antt =====
-- When a route that is published starts another leg (navigation_leg.go, `classifyNavigationLegChange`).
use my_t_companion.Base.Text.{is_blank, trim_space}
use my_t_companion.Base.{◌≡◌, false, inl, true, Bool-cases, inr, ◌⊎◌, some, ◌||◌, arith, none, refl}
use my_t_companion.Navigation.{
  Arithmetic, NavigationRouteCandidate, CarNavigationState, Relation, Option, far_place, Float64,
  navigation_leg_new, unknown_place, close_place, navigation_destination_equal,
}
use my_t_companion.Navigation.Classify.{
  navigation_remaining_looks_like_new_same_name_stop, same_name_leg, other_name_leg,
  classify_navigation_leg_change, navigation_remaining_delta_starts_new_leg, far_leg, relation_of,
  navigation_route_candidate_needs_confirmation,
}

-- The two places are known and far apart, and the route is not at its end; or a place is unknown and the
-- remaining distances are known and differ.
abbrev pub IsNewLeg : Arithmetic → CarNavigationState → NavigationRouteCandidate → Type 0
IsNewLeg math s c =
    (c.invalid ≡ false)
    × (is_blank (trim_space c.destination) ≡ false)
    × (is_blank (trim_space s.destination) ≡ false)
    × (((relation_of math s c ≡ far_place)
          × (navigation_route_candidate_needs_confirmation math c ≡ false))
        ⊎ ((relation_of math s c ≡ unknown_place)
            × (navigation_remaining_delta_starts_new_leg math s.remaining_distance_km c.remaining_km
                ≡ true)))

-- The same, of a relation
abbrev IsJump : Arithmetic → Relation → CarNavigationState → NavigationRouteCandidate → Type 0
IsJump math r s c =
    ((r ≡ far_place) × (navigation_route_candidate_needs_confirmation math c ≡ false))
    ⊎ ((r ≡ unknown_place)
        × (navigation_remaining_delta_starts_new_leg math s.remaining_distance_km c.remaining_km
            ≡ true))

far_leg-IsNew :
    (math : Arithmetic) (c : NavigationRouteCandidate)
    → far_leg math c ≡ navigation_leg_new
    → navigation_route_candidate_needs_confirmation math c ≡ false
far_leg-IsNew math c h = elim (Bool-cases (navigation_route_candidate_needs_confirmation math c)) [
  | inl waits ↦ absurd (ground (arith, waits, h))
  | inr sure ↦ sure
]

same_name_stop-delta :
    (math : Arithmetic) (previous current : Option Float64)
    → navigation_remaining_looks_like_new_same_name_stop math previous current ≡ true
    → navigation_remaining_delta_starts_new_leg math previous current ≡ true
unfolding navigation_remaining_looks_like_new_same_name_stop
    navigation_remaining_delta_starts_new_leg
same_name_stop-delta math none current h = absurd (cc)
same_name_stop-delta math (some previous) none h = absurd (cc)
same_name_stop-delta math (some previous) (some current) h = ground (arith, h)

same_name_leg-IsJump :
    (math : Arithmetic) (r : Relation) (s : CarNavigationState) (c : NavigationRouteCandidate)
    → same_name_leg math r s c ≡ navigation_leg_new
    → IsJump math r s c
unfolding same_name_leg
same_name_leg-IsJump math close_place s c h = absurd (cc)
same_name_leg-IsJump math far_place s c h = inl (refl, far_leg-IsNew math c h)
same_name_leg-IsJump math unknown_place s c h =
    inr (refl, same_name_stop-delta math s.remaining_distance_km c.remaining_km (ground (arith, h)))

other_name_leg-IsJump :
    (math : Arithmetic) (r : Relation) (s : CarNavigationState) (c : NavigationRouteCandidate)
    → other_name_leg math r s c ≡ navigation_leg_new
    → IsJump math r s c
unfolding other_name_leg
other_name_leg-IsJump math close_place s c h = absurd (cc)
other_name_leg-IsJump math far_place s c h = inl (refl, far_leg-IsNew math c h)
other_name_leg-IsJump math unknown_place s c h = inr (refl, ground (arith, h))

-- A published route starts another leg at once only if it and the leg have destinations that are known to
-- be far apart and the route is not nearly at its end, or a destination's place is unknown and the
-- remaining distance jumps.
pub classify_navigation_leg_change-IsNewLeg :
    (math : Arithmetic) (s : CarNavigationState) (c : NavigationRouteCandidate)
    → classify_navigation_leg_change math s c ≡ navigation_leg_new
    → IsNewLeg math s c
unfolding classify_navigation_leg_change
classify_navigation_leg_change-IsNewLeg math s c h =
    let r = relation_of math s c in
    elim (Bool-cases
      (c.invalid || is_blank (trim_space c.destination) || is_blank (trim_space s.destination))) [
        | inl nothing ↦ absurd (ground (arith, nothing, h))
        | inr routes ↦
            let jump : IsJump math r s c =
              elim (Bool-cases (navigation_destination_equal s.destination c.destination)) [
                | inl same ↦ same_name_leg-IsJump math r s c (ground (arith, routes, same, h))
                | inr other ↦ other_name_leg-IsJump math r s c (ground (arith, routes, other, h))
              ] in
            (ground (arith, routes), ground (arith, routes), ground (arith, routes), jump)
      ]
