-- ===== src/Navigation/Applied.antt =====
-- A route that is taken over is not another leg (navigation_leg.go, `applyRouteCandidate`).
use my_t_companion.Base.Eq.{bytes_eq_refl}
use my_t_companion.Base.Text.{is_blank, trim_space}
use my_t_companion.Navigation.Confirmed.{IsPlace}
use my_t_companion.Base.{
  none, some, ◌≡◌, some, false, refl, Bool-cases, true, inl, arith, inr, if_false, ◌||◌, ◌∙◌,
  if_true,
}
use my_t_companion.Navigation.{
  Arithmetic, navigation_destination_coordinates_relation, Option, NavigationRouteCandidate,
  Relation, CarNavigationState, Float64, float_le, navigation_leg_keep, close_place, far_place,
  valid_route_coordinate, unknown_place, normal_name, navigation_destination_equal,
}
use my_t_companion.Navigation.Classify.{
  classify_navigation_leg_change, same_name_leg, navigation_remaining_looks_like_new_same_name_stop,
  relation_of,
}
use my_t_companion.Navigation.Pending.{
  apply_route_candidate, clear_pending_candidate, is_far, or_else,
}

apply_route_candidate-relation_of :
    (math : Arithmetic) (s : CarNavigationState) (c : NavigationRouteCandidate)
    → c.invalid ≡ false
    → is_far (
        navigation_destination_coordinates_relation math c.latitude c.longitude c.latitude
          c.longitude)
      ≡ false
    → is_far (relation_of math (apply_route_candidate c s) c) ≡ false
unfolding apply_route_candidate navigation_destination_coordinates_relation clear_pending_candidate
apply_route_candidate-relation_of math s c valid near =
    elim (Bool-cases (valid_route_coordinate c.latitude c.longitude)) [
      | inl known ↦ ground (arith, valid, known, near)
      | inr unknown ↦ ground (arith, valid, unknown)
    ]

-- A distance is no jump from itself.
same_stop :
    (math : Arithmetic) (old new : Option Float64)
    → ((x : Float64) → new ≡ some x → float_le x (math.add x (math.hundredths 15)) ≡ true)
    → navigation_remaining_looks_like_new_same_name_stop math (or_else new old) new ≡ false
unfolding navigation_remaining_looks_like_new_same_name_stop
same_stop math none none grows = refl
same_stop math (some y) none grows = refl
same_stop math old (some x) grows = ground (arith, grows x refl)

same_name_leg-keep :
    (math : Arithmetic) (r : Relation) (s : CarNavigationState) (c : NavigationRouteCandidate)
    → is_far r ≡ false
    → navigation_remaining_looks_like_new_same_name_stop math s.remaining_distance_km c.remaining_km
      ≡ false
    → same_name_leg math r s c ≡ navigation_leg_keep
unfolding same_name_leg
same_name_leg-keep math close_place s c near same = refl
same_name_leg-keep math far_place s c near same = absurd (cc)
same_name_leg-keep math unknown_place s c near same = rw same refl

apply_route_candidate-destination :
    (c : NavigationRouteCandidate) (s : CarNavigationState)
    → c.invalid ≡ false
    → is_blank c.destination ≡ false
    → (apply_route_candidate c s).destination ≡ c.destination
unfolding apply_route_candidate clear_pending_candidate
apply_route_candidate-destination c s valid named = rw (valid, named) refl

apply_route_candidate-remaining :
    (c : NavigationRouteCandidate) (s : CarNavigationState)
    → c.invalid ≡ false
    → (apply_route_candidate c s).remaining_distance_km
      ≡ or_else c.remaining_km s.remaining_distance_km
unfolding apply_route_candidate clear_pending_candidate
apply_route_candidate-remaining c s valid = rw valid refl

classify_navigation_leg_change-same :
    (math : Arithmetic) (s : CarNavigationState) (c : NavigationRouteCandidate)
    → c.invalid ≡ false
    → is_blank (trim_space c.destination) ≡ false
    → s.destination ≡ c.destination
    → same_name_leg math (relation_of math s c) s c ≡ navigation_leg_keep
    → classify_navigation_leg_change math s c ≡ navigation_leg_keep
unfolding classify_navigation_leg_change
classify_navigation_leg_change-same math s c valid named name keeps =
    let there : is_blank (trim_space s.destination) ≡ false = rw name named in
    let equal : navigation_destination_equal s.destination c.destination ≡ true =
      rw name (bytes_eq_refl (normal_name c.destination)) in
    if_false
      (c.invalid || is_blank (trim_space c.destination) || is_blank (trim_space s.destination)) _ _
      (ground (arith, valid, named, there))
    ∙ (if_true (navigation_destination_equal s.destination c.destination) _ _ equal ∙ keeps)

-- After a route is taken over, the same route is no change of the leg, if its place is not far from itself
-- and adding 0.15 km to its distance does not make it less.
pub apply_route_candidate-classify :
    (math : Arithmetic) (s : CarNavigationState) (c : NavigationRouteCandidate)
    → c.invalid ≡ false
    → IsPlace math c
    → is_blank c.destination ≡ false
    → ((x : Float64)
        → c.remaining_km ≡ some x
        → float_le x (math.add x (math.hundredths 15)) ≡ true)
    → classify_navigation_leg_change math (apply_route_candidate c s) c ≡ navigation_leg_keep
unfolding classify_navigation_leg_change
apply_route_candidate-classify math s c valid place named grows =
    let after = apply_route_candidate c s in
    let near = apply_route_candidate-relation_of math s c valid place.1 in
    let name : after.destination ≡ c.destination =
      apply_route_candidate-destination c s valid named in
    let km : after.remaining_distance_km ≡ or_else c.remaining_km s.remaining_distance_km =
      apply_route_candidate-remaining c s valid in
    let same = same_stop math s.remaining_distance_km c.remaining_km grows in
    let keeps = same_name_leg-keep math (relation_of math after c) after c near (rw km same) in
    classify_navigation_leg_change-same math after c valid place.0 name keeps
