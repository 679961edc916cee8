-- ===== src/Friend/Tests.antt =====
-- Runs of the friend store at concrete values.
use my_t_companion.Friend.Refusal.{IsRefusal, refused-IsKept}
use my_t_companion.Friend.Evolution.{Evolves}
use my_t_companion.Base.Maps.{lookup, insert, delete}
use my_t_companion.Friend.Projection.{
  eligible_time, bounded, nonnegative, valid_coordinates, valid_state, valid_motion, motion_at,
  project_motion, alias_for, valid_navigation, navigation_out, navigation_at, project_navigation,
  battery_at, project_battery, check_point, collect_points, newest_points, visible_trajectory,
  project_trajectory, project_snapshot, no_motion,
}
use my_t_companion.Friend.Grant.{
  active, same_destination, check_destination, check_motion, check_battery, check_navigation,
  check_trajectory, check_order, revision_after, withdrawn_after, destination_after, advance,
}
use my_t_companion.Base.Text.{
  to_lower, to_upper, is_space, trim_left, trim_space, hex_value, hex_decode, decode_runes,
  collapse_spaces, parse_int, normalized_mqtt_value, collapsed_display_name,
}
use my_t_companion.Base.Float.{
  float_of, float_one, float_neg, max_float64, float_lt, float_eq, float_le, is_nan, is_inf,
}
use my_t_companion.Friend.Normal.{normalize_id_idem, normalize_id_case}
use my_t_companion.Base.Int.{pos, pos_part, neg_part, sub_ℕ, ◌+ℤ◌, ◌-ℤ◌, ℤ, ◌<ℤ◌}
use my_t_companion.Friend.Invariant.{Inv}
use my_t_companion.Friend.Identity.{
  normalize_id, valid_time, equal_pointer, regressed, has_uuid_shape, hex_text, decoded_id,
  normalize_binding, normalize_source, binding_eq, source_eq, valid_owner, owner_matches_request,
  valid_alias,
}
use my_t_companion.Base.Eq.{Bytes, codes, bytes_eq, bytes_key}
use my_t_companion.Base.{true, some, length, ◌∷◌, ◌≡◌, false, refl, none, [], List, All, ◌≢◌, arith}
use my_t_companion.Friend.Types.{
  Binding, SourceKey, GrantSpec, Store, Snapshot, SourceSnapshot, OwnerPrincipal,
  RecipientPrincipal, parked, Result, ok, err, Grant, unknown, GrantMetadata, Error,
}
use my_t_companion.Friend.Operations.{
  create, project, revoke, return_if, on_ok, is_terminal_before, prune_terminal_before, valid_spec,
  alias_allowed, new_grant, find_grant, owner_grant, owned_grant, revoke_grant, is_restriction,
  restrict_grant, restrict_active, when_active, restrict, deliver, project_active, same_recipient,
}
use my_t_companion.Friend.Operations.Entitled.{project-IsEntitled, IsEntitled}
use my_t_companion.Friend.Trace.{run, Request, creates, projects, run_new-Inv, new_store, step}
use my_t_companion.Friend.Disclosure.Snapshots.{project-IsDisclosed, IsDisclosed}
use my_t_companion.Friend.Lifetime.{revoke_final, run-Evolves}

abbrev lower_id : Bytes
lower_id = codes "aaaaaaaa-1111-4111-8111-111111111111"

abbrev upper_id : Bytes
upper_id = codes "AAAAAAAA-1111-4111-8111-111111111111"

abbrev other_id : Bytes
other_id = codes "22222222-2222-4222-8222-222222222222"

abbrev test_binding : Binding
test_binding = record {
  grant_id = lower_id;
  issuer_id = lower_id;
  session_id = lower_id;
  member_id = lower_id;
  recipient_id = other_id;
}

abbrev test_source : SourceKey
test_source = record { source_id = lower_id; car_id = pos 1 }

abbrev test_owner : OwnerPrincipal
test_owner = record { issuer_id = lower_id; source = test_source }

abbrev test_spec : GrantSpec
test_spec = record {
  binding = test_binding;
  source = test_source;
  permissions = record { location = true; navigation = false; battery = true; trajectory = false };
  expires_at_ms = pos 60000;
  destination_alias = none;
}

abbrev test_store : Store
test_store = run new_store ((pos 1000, creates test_owner test_spec) ∷ [])

abbrev test_reading : SourceSnapshot
test_reading = record {
  source = test_source;
  state = parked;
  motion = some (record {
    latitude = some (float_of 48);
    longitude = some (float_of 9);
    speed_kph = some (float_of 0);
    heading_degrees = none;
    observed_at_ms = some (pos 1500);
  });
  navigation = none;
  battery = none;
  trajectory = [];
}

abbrev test_recipient : RecipientPrincipal
test_recipient = record { recipient_id = other_id }

abbrev or_snapshot : Result Snapshot → Snapshot → Snapshot
or_snapshot (ok s) d = s
or_snapshot (err e) d = d

normal : normalize_id upper_id ≡ (lower_id, true)
unfolding active same_destination check_destination check_motion check_battery check_navigation
    check_trajectory check_order revision_after withdrawn_after destination_after advance valid_time
    equal_pointer regressed has_uuid_shape hex_text decoded_id normalize_id normalize_binding
    normalize_source binding_eq source_eq valid_owner owner_matches_request valid_alias return_if
    on_ok is_terminal_before prune_terminal_before valid_spec alias_allowed new_grant create
    find_grant owner_grant owned_grant revoke_grant revoke is_restriction restrict_grant
    restrict_active when_active restrict deliver project_active same_recipient project eligible_time
    bounded nonnegative valid_coordinates valid_state valid_motion motion_at project_motion
    alias_for valid_navigation navigation_out navigation_at project_navigation battery_at
    project_battery check_point collect_points newest_points visible_trajectory project_trajectory
    project_snapshot step run bytes_eq float_one float_of float_neg max_float64 float_lt float_eq
    float_le is_nan is_inf pos_part neg_part sub_ℕ ◌+ℤ◌ ◌-ℤ◌ lookup insert delete to_lower to_upper
    is_space trim_left trim_space hex_value hex_decode decode_runes collapse_spaces parse_int
    normalized_mqtt_value collapsed_display_name
normal = refl

normalize_id_case_example : normalize_id upper_id ≡ normalize_id lower_id
normalize_id_case_example = normalize_id_case upper_id lower_id (unfold to_lower in refl)

normalize_id_idem_example : normalize_id lower_id ≡ (lower_id, true)
normalize_id_idem_example = normalize_id_idem upper_id lower_id normal

run_new-Inv_example : Inv test_store
run_new-Inv_example = run_new-Inv ((pos 1000, creates test_owner test_spec) ∷ [])

created : length test_store.grants ≡ 1
unfolding active same_destination check_destination check_motion check_battery check_navigation
    check_trajectory check_order revision_after withdrawn_after destination_after advance valid_time
    equal_pointer regressed has_uuid_shape hex_text decoded_id normalize_id normalize_binding
    normalize_source binding_eq source_eq valid_owner owner_matches_request valid_alias return_if
    on_ok is_terminal_before prune_terminal_before valid_spec alias_allowed new_grant create
    find_grant owner_grant owned_grant revoke_grant revoke is_restriction restrict_grant
    restrict_active when_active restrict deliver project_active same_recipient project eligible_time
    bounded nonnegative valid_coordinates valid_state valid_motion motion_at project_motion
    alias_for valid_navigation navigation_out navigation_at project_navigation battery_at
    project_battery check_point collect_points newest_points visible_trajectory project_trajectory
    project_snapshot step run bytes_eq float_one float_of float_neg max_float64 float_lt float_eq
    float_le is_nan is_inf pos_part neg_part sub_ℕ ◌+ℤ◌ ◌-ℤ◌ lookup insert delete to_lower to_upper
    is_space trim_left trim_space hex_value hex_decode decode_runes collapse_spaces parse_int
    normalized_mqtt_value collapsed_display_name
created = refl

abbrev test_grant : Grant
test_grant = elim (lookup lower_id test_store.grants) [
  | none ↦ new_grant (pos 1000) test_binding test_source test_spec
  | some g ↦ g
]

abbrev blank : Grant → Snapshot
blank g = record {
  binding = g.metadata.binding;
  revision = g.metadata.revision;
  sequence = pos 0;
  server_time_ms = pos 0;
  consent_started_at_ms = pos 0;
  expires_at_ms = pos 0;
  state = unknown;
  motion = no_motion;
  navigation = none;
  battery = none;
  trajectory = none;
}

abbrev shown : Snapshot
shown =
    or_snapshot (project (pos 2000) test_recipient test_binding (pos 1) test_reading test_store).1
      (blank test_grant)

projected :
    (project (pos 2000) test_recipient test_binding (pos 1) test_reading test_store).1 ≡ ok shown
unfolding active same_destination check_destination check_motion check_battery check_navigation
    check_trajectory check_order revision_after withdrawn_after destination_after advance valid_time
    equal_pointer regressed has_uuid_shape hex_text decoded_id normalize_id normalize_binding
    normalize_source binding_eq source_eq valid_owner owner_matches_request valid_alias return_if
    on_ok is_terminal_before prune_terminal_before valid_spec alias_allowed new_grant create
    find_grant owner_grant owned_grant revoke_grant revoke is_restriction restrict_grant
    restrict_active when_active restrict deliver project_active same_recipient project eligible_time
    bounded nonnegative valid_coordinates valid_state valid_motion motion_at project_motion
    alias_for valid_navigation navigation_out navigation_at project_navigation battery_at
    project_battery check_point collect_points newest_points visible_trajectory project_trajectory
    project_snapshot step run bytes_eq float_one float_of float_neg max_float64 float_lt float_eq
    float_le is_nan is_inf pos_part neg_part sub_ℕ ◌+ℤ◌ ◌-ℤ◌ lookup insert delete to_lower to_upper
    is_space trim_left trim_space hex_value hex_decode decode_runes collapse_spaces parse_int
    normalized_mqtt_value collapsed_display_name
projected = refl

project-IsDisclosed_example :
    (g : Grant) × (lookup (normalize_binding test_binding).0.grant_id test_store.grants ≡ some g)
    × IsDisclosed g.metadata (pos 2000) shown
project-IsDisclosed_example =
    project-IsDisclosed (pos 2000) test_recipient test_binding (pos 1) test_reading test_store shown
      projected

project-IsEntitled_example :
    (g : Grant) × IsEntitled
      (pos 2000)
      test_recipient
      test_binding
      (pos 1)
      test_reading
      test_store
      shown
      g
project-IsEntitled_example =
    project-IsEntitled (pos 2000) test_recipient test_binding (pos 1) test_reading test_store shown
      projected

abbrev or_metadata : Result GrantMetadata → GrantMetadata → GrantMetadata
or_metadata (ok s) d = s
or_metadata (err e) d = d

abbrev revoked_metadata : GrantMetadata
revoked_metadata =
    or_metadata (revoke test_owner test_binding test_source (pos 1) test_store).1
      test_grant.metadata

revoked_ok : (revoke test_owner test_binding test_source (pos 1) test_store).1 ≡ ok revoked_metadata
unfolding active same_destination check_destination check_motion check_battery check_navigation
    check_trajectory check_order revision_after withdrawn_after destination_after advance valid_time
    equal_pointer regressed has_uuid_shape hex_text decoded_id normalize_id normalize_binding
    normalize_source binding_eq source_eq valid_owner owner_matches_request valid_alias return_if
    on_ok is_terminal_before prune_terminal_before valid_spec alias_allowed new_grant create
    find_grant owner_grant owned_grant revoke_grant revoke is_restriction restrict_grant
    restrict_active when_active restrict deliver project_active same_recipient project eligible_time
    bounded nonnegative valid_coordinates valid_state valid_motion motion_at project_motion
    alias_for valid_navigation navigation_out navigation_at project_navigation battery_at
    project_battery check_point collect_points newest_points visible_trajectory project_trajectory
    project_snapshot step run bytes_eq float_one float_of float_neg max_float64 float_lt float_eq
    float_le is_nan is_inf pos_part neg_part sub_ℕ ◌+ℤ◌ ◌-ℤ◌ lookup insert delete to_lower to_upper
    is_space trim_left trim_space hex_value hex_decode decode_runes collapse_spaces parse_int
    normalized_mqtt_value collapsed_display_name
revoked_ok = refl

abbrev later_calls : List (ℤ × Request)
later_calls = (pos 2000, projects test_recipient test_binding (pos 1) test_reading) ∷ []

calls_young : All (λ c. c.0 <ℤ revoked_metadata.expires_at_ms) later_calls
unfolding active same_destination check_destination check_motion check_battery check_navigation
    check_trajectory check_order revision_after withdrawn_after destination_after advance valid_time
    equal_pointer regressed has_uuid_shape hex_text decoded_id normalize_id normalize_binding
    normalize_source binding_eq source_eq valid_owner owner_matches_request valid_alias return_if
    on_ok is_terminal_before prune_terminal_before valid_spec alias_allowed new_grant create
    find_grant owner_grant owned_grant revoke_grant revoke is_restriction restrict_grant
    restrict_active when_active restrict deliver project_active same_recipient project eligible_time
    bounded nonnegative valid_coordinates valid_state valid_motion motion_at project_motion
    alias_for valid_navigation navigation_out navigation_at project_navigation battery_at
    project_battery check_point collect_points newest_points visible_trajectory project_trajectory
    project_snapshot step run bytes_eq float_one float_of float_neg max_float64 float_lt float_eq
    float_le is_nan is_inf pos_part neg_part sub_ℕ ◌+ℤ◌ ◌-ℤ◌ lookup insert delete to_lower to_upper
    is_space trim_left trim_space hex_value hex_decode decode_runes collapse_spaces parse_int
    normalized_mqtt_value collapsed_display_name
calls_young = (omega arith, tt)

names_grant : (normalize_binding test_binding).0.grant_id ≡ revoked_metadata.binding.grant_id
unfolding active same_destination check_destination check_motion check_battery check_navigation
    check_trajectory check_order revision_after withdrawn_after destination_after advance valid_time
    equal_pointer regressed has_uuid_shape hex_text decoded_id normalize_id normalize_binding
    normalize_source binding_eq source_eq valid_owner owner_matches_request valid_alias return_if
    on_ok is_terminal_before prune_terminal_before valid_spec alias_allowed new_grant create
    find_grant owner_grant owned_grant revoke_grant revoke is_restriction restrict_grant
    restrict_active when_active restrict deliver project_active same_recipient project eligible_time
    bounded nonnegative valid_coordinates valid_state valid_motion motion_at project_motion
    alias_for valid_navigation navigation_out navigation_at project_navigation battery_at
    project_battery check_point collect_points newest_points visible_trajectory project_trajectory
    project_snapshot step run bytes_eq float_one float_of float_neg max_float64 float_lt float_eq
    float_le is_nan is_inf pos_part neg_part sub_ℕ ◌+ℤ◌ ◌-ℤ◌ lookup insert delete to_lower to_upper
    is_space trim_left trim_space hex_value hex_decode decode_runes collapse_spaces parse_int
    normalized_mqtt_value collapsed_display_name
names_grant = refl

revoke_final_example :
    (project
      (pos 3000)
      test_recipient
      test_binding
      (pos 2)
      test_reading
      (run (revoke test_owner test_binding test_source (pos 1) test_store).0 later_calls)).1
    ≢ ok shown
revoke_final_example =
    revoke_final test_owner test_binding test_source (pos 1) test_store revoked_metadata later_calls
      (pos 3000) test_recipient test_binding (pos 2) test_reading shown run_new-Inv_example
      revoked_ok calls_young names_grant

stored : lookup lower_id test_store.grants ≡ some test_grant
unfolding active same_destination check_destination check_motion check_battery check_navigation
    check_trajectory check_order revision_after withdrawn_after destination_after advance valid_time
    equal_pointer regressed has_uuid_shape hex_text decoded_id normalize_id normalize_binding
    normalize_source binding_eq source_eq valid_owner owner_matches_request valid_alias return_if
    on_ok is_terminal_before prune_terminal_before valid_spec alias_allowed new_grant create
    find_grant owner_grant owned_grant revoke_grant revoke is_restriction restrict_grant
    restrict_active when_active restrict deliver project_active same_recipient project eligible_time
    bounded nonnegative valid_coordinates valid_state valid_motion motion_at project_motion
    alias_for valid_navigation navigation_out navigation_at project_navigation battery_at
    project_battery check_point collect_points newest_points visible_trajectory project_trajectory
    project_snapshot step run bytes_eq float_one float_of float_neg max_float64 float_lt float_eq
    float_le is_nan is_inf pos_part neg_part sub_ℕ ◌+ℤ◌ ◌-ℤ◌ lookup insert delete to_lower to_upper
    is_space trim_left trim_space hex_value hex_decode decode_runes collapse_spaces parse_int
    normalized_mqtt_value collapsed_display_name
stored = refl

run-Evolves_example :
    (h : Grant) × (lookup lower_id (run test_store later_calls).grants ≡ some h)
    × Evolves test_grant h
run-Evolves_example =
    run-Evolves test_store lower_id test_grant later_calls run_new-Inv_example stored refl

refused-IsKept_example :
    IsRefusal
      (pos 70000)
      test_store
      (project (pos 70000) test_recipient test_binding (pos 9) test_reading test_store)
    × IsRefusal (pos 70000) test_store (
        restrict
          (pos 70000)
          test_owner
          test_binding
          test_source
          (pos 9)
          test_spec.permissions
          (pos 50000)
          test_store)
    × ((e : Error)
        → (create (pos 70000) test_owner test_spec test_store).1 ≡ err e
        → (create (pos 70000) test_owner test_spec test_store).0 ≡ test_store)
    × ((e : Error)
        → (revoke test_owner test_binding test_source (pos 9) test_store).1 ≡ err e
        → (revoke test_owner test_binding test_source (pos 9) test_store).0 ≡ test_store)
refused-IsKept_example =
    refused-IsKept (pos 70000) test_owner test_recipient test_spec test_binding test_source (pos 9)
      test_spec.permissions (pos 50000) test_reading test_store
