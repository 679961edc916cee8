-- ===== src/Navigation/Tests.antt =====
-- Legs of a navigation at concrete values.
use my_t_companion.Navigation.Applied.{apply_route_candidate-classify}
use my_t_companion.Navigation.Decisions.{IsNewLeg, classify_navigation_leg_change-IsNewLeg}
use my_t_companion.Navigation.Confirmed.{
  stage_all, IsPlace, stage_all-pending_route_candidate_confirmed,
}
use my_t_companion.Base.Text.{
  to_lower, to_upper, is_space, trim_left, trim_space, hex_value, hex_decode, decode_runes,
  collapse_spaces, parse_int, normalized_mqtt_value, collapsed_display_name,
}
use my_t_companion.Base.Maps.{lookup, insert, delete, or_zero}
use my_t_companion.Base.Int.{pos_part, neg_part, sub_ℕ, ◌+ℤ◌, ◌-ℤ◌, pos}
use my_t_companion.Base.Float.{
  float_one, float_of, float_neg, max_float64, float_lt, float_eq, float_le, is_nan, is_inf, finite,
  Float64, nan,
}
use my_t_companion.Base.Eq.{bytes_eq, pair_beq, codes}
use my_t_companion.Navigation.Pending.{
  clear_pending_candidate, clear_committed_route, pending_route_candidate_matches,
  pending_age_is_within, stage_pending_candidate, pending_route_candidate_confirmed,
  apply_route_candidate,
}
use my_t_companion.Navigation.Classify.{
  at_most, minutes_at_most, navigation_remaining_looks_arrived,
  navigation_route_candidate_needs_confirmation, remaining_jumps,
  navigation_remaining_delta_starts_new_leg, navigation_remaining_looks_like_new_same_name_stop,
  same_name_leg, other_name_leg, classify_navigation_leg_change,
}
use my_t_companion.Navigation.{
  Arithmetic, valid_route_coordinate, place_distance, navigation_destination_coordinates_relation,
  CarNavigationState, navigation_leg_new, seconds, navigation_leg_keep, NavigationRouteCandidate,
  no_phase, navigation_pending_confirm_delay, navigation_pending_confirm_window,
}
use my_t_companion.Base.{
  none, some, true, false, [], ◌∷◌, ◌≡◌, ℕ, if◌then◌else◌, leb, ◌*◌, refl, ◌+◌, ◌/◌, ◌&&◌, arith,
  subst, ap,
}

abbrev plus : Float64 → Float64 → Float64
plus (finite a) (finite b) = finite (a +ℤ b)
plus _ _ = nan

abbrev minus : Float64 → Float64 → Float64
minus (finite a) (finite b) = finite (a -ℤ b)
minus _ _ = nan

abbrev larger : Float64 → Float64 → Float64
larger a b = if float_lt a b then b else a

abbrev math : Arithmetic
math = record {
  add = plus;
  sub = minus;
  mul = λ a b. float_of 0;
  greatest = larger;
  abs = λ a. larger a (minus (float_of 0) a);
  hundredths = λ n. finite (pos (n * float_one / 100));
  destination_coordinate_distance_meters =
      λ a b c d. if float_eq a c && float_eq b d then float_of 0 else float_of 5000;
}

abbrev place_at : ℕ → NavigationRouteCandidate
place_at latitude = record {
  destination = codes "Home";
  remaining_km = some (float_of 12);
  remaining_minutes = some (pos 20);
  arrival_battery = none;
  latitude = some (float_of latitude);
  longitude = some (float_of 8);
  invalid = false;
}

abbrev parked : CarNavigationState
parked = record {
  vehicle_state = codes "driving";
  active = true;
  leg_phase = no_phase;
  destination = [];
  remaining_distance_km = none;
  remaining_minutes = none;
  arrival_battery_level = none;
  destination_latitude = none;
  destination_longitude = none;
  pending_destination = [];
  pending_remaining_km = none;
  pending_remaining_minutes = none;
  pending_arrival_battery = none;
  pending_latitude = none;
  pending_longitude = none;
  pending_observed_at = none;
}

abbrev driving : CarNavigationState
driving = apply_route_candidate (place_at 47) parked

home-IsPlace : IsPlace math (place_at 47)
unfolding valid_route_coordinate place_distance navigation_destination_coordinates_relation at_most
    minutes_at_most navigation_remaining_looks_arrived navigation_route_candidate_needs_confirmation
    remaining_jumps navigation_remaining_delta_starts_new_leg
    navigation_remaining_looks_like_new_same_name_stop same_name_leg other_name_leg
    classify_navigation_leg_change clear_pending_candidate clear_committed_route
    pending_route_candidate_matches pending_age_is_within stage_pending_candidate
    pending_route_candidate_confirmed apply_route_candidate bytes_eq pair_beq float_one float_of
    float_neg max_float64 float_lt float_eq float_le is_nan is_inf pos_part neg_part sub_ℕ ◌+ℤ◌ ◌-ℤ◌
    lookup insert delete to_lower to_upper is_space trim_left trim_space hex_value hex_decode
    decode_runes collapse_spaces parse_int normalized_mqtt_value collapsed_display_name
home-IsPlace = (refl, refl)

far_is_new : classify_navigation_leg_change math driving (place_at 46) ≡ navigation_leg_new
unfolding valid_route_coordinate place_distance navigation_destination_coordinates_relation at_most
    minutes_at_most navigation_remaining_looks_arrived navigation_route_candidate_needs_confirmation
    remaining_jumps navigation_remaining_delta_starts_new_leg
    navigation_remaining_looks_like_new_same_name_stop same_name_leg other_name_leg
    classify_navigation_leg_change clear_pending_candidate clear_committed_route
    pending_route_candidate_matches pending_age_is_within stage_pending_candidate
    pending_route_candidate_confirmed apply_route_candidate bytes_eq pair_beq float_one float_of
    float_neg max_float64 float_lt float_eq float_le is_nan is_inf pos_part neg_part sub_ℕ ◌+ℤ◌ ◌-ℤ◌
    lookup insert delete to_lower to_upper is_space trim_left trim_space hex_value hex_decode
    decode_runes collapse_spaces parse_int normalized_mqtt_value collapsed_display_name
far_is_new = refl

classify_navigation_leg_change-IsNewLeg_example : IsNewLeg math driving (place_at 46)
classify_navigation_leg_change-IsNewLeg_example =
    classify_navigation_leg_change-IsNewLeg math driving (place_at 46) far_is_new

stage_all-pending_route_candidate_confirmed_example :
    pending_route_candidate_confirmed math
      (stage_all math (place_at 47) (seconds 10 ∷ seconds 11 ∷ seconds 30 ∷ []) parked)
      (place_at 47)
      (seconds 31)
    ≡ (leb (seconds 10 + navigation_pending_confirm_delay) (seconds 31)
        && leb (seconds 31) (seconds 10 + navigation_pending_confirm_window))
unfolding valid_route_coordinate place_distance navigation_destination_coordinates_relation at_most
    minutes_at_most navigation_remaining_looks_arrived navigation_route_candidate_needs_confirmation
    remaining_jumps navigation_remaining_delta_starts_new_leg
    navigation_remaining_looks_like_new_same_name_stop same_name_leg other_name_leg
    classify_navigation_leg_change clear_pending_candidate clear_committed_route
    pending_route_candidate_matches pending_age_is_within stage_pending_candidate
    pending_route_candidate_confirmed apply_route_candidate bytes_eq pair_beq float_one float_of
    float_neg max_float64 float_lt float_eq float_le is_nan is_inf pos_part neg_part sub_ℕ ◌+ℤ◌ ◌-ℤ◌
    lookup insert delete to_lower to_upper is_space trim_left trim_space hex_value hex_decode
    decode_runes collapse_spaces parse_int normalized_mqtt_value collapsed_display_name
stage_all-pending_route_candidate_confirmed_example =
    stage_all-pending_route_candidate_confirmed math (place_at 47) (seconds 10) (seconds 31)
      (seconds 11 ∷ seconds 30 ∷ []) parked home-IsPlace refl refl
      ((omega arith, omega arith), ((omega arith, omega arith), tt))

apply_route_candidate-classify_example :
    classify_navigation_leg_change math (apply_route_candidate (place_at 47) parked) (place_at 47)
    ≡ navigation_leg_keep
unfolding valid_route_coordinate place_distance navigation_destination_coordinates_relation at_most
    minutes_at_most navigation_remaining_looks_arrived navigation_route_candidate_needs_confirmation
    remaining_jumps navigation_remaining_delta_starts_new_leg
    navigation_remaining_looks_like_new_same_name_stop same_name_leg other_name_leg
    classify_navigation_leg_change clear_pending_candidate clear_committed_route
    pending_route_candidate_matches pending_age_is_within stage_pending_candidate
    pending_route_candidate_confirmed apply_route_candidate bytes_eq pair_beq float_one float_of
    float_neg max_float64 float_lt float_eq float_le is_nan is_inf pos_part neg_part sub_ℕ ◌+ℤ◌ ◌-ℤ◌
    lookup insert delete to_lower to_upper is_space trim_left trim_space hex_value hex_decode
    decode_runes collapse_spaces parse_int normalized_mqtt_value collapsed_display_name
apply_route_candidate-classify_example =
    apply_route_candidate-classify math parked (place_at 47) refl home-IsPlace refl
      λ x h. subst (λ y. float_le y (plus y (math.hundredths 15)) ≡ true) (ap (or_zero nan) h) refl
