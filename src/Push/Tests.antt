-- ===== src/Push/Tests.antt =====
-- Runs of the push registry at concrete values.
use my_t_companion.Push.Sessions.{
  Surroundings, live_activity_authorization_key, is_wanted, is_known_session, may_receive,
  delivery_subscriber, remember_live_activity_session,
}
use my_t_companion.Push.Post.{post_json, post_parsed, post_resolved, Attempt, replied}
use my_t_companion.Push.Sizes.{empty_registry}
use my_t_companion.Push.Sizes.{Inv}
use my_t_companion.Push.Delivery.{
  queued_result, queue_delivery, settle_delivery, deliver_json_result,
}
use my_t_companion.Push.Outbox.Delays.{retry_delay-bounds}
use my_t_companion.Push.Preferences.Sorted.{normalize-same}
use my_t_companion.Base.{
  All, arith, Option, ◌≡◌, length, ◌+◌, ◌∷◌, false, none, some, refl, true, ℕ, ◌≤◌, inr, Bool, min,
  ◌++◌,
}
use my_t_companion.Base.Text.{
  to_lower, to_upper, is_space, trim_left, trim_space, hex_value, hex_decode, decode_runes,
  collapse_spaces, parse_int, normalized_mqtt_value, collapsed_display_name, is_blank,
}
use my_t_companion.Base.Maps.{lookup, insert, delete}
use my_t_companion.Base.Int.{pos_part, neg_part, sub_ℕ, ◌+ℤ◌, ◌-ℤ◌, pos}
use my_t_companion.Base.Float.{
  float_one, float_of, float_neg, max_float64, float_lt, float_eq, float_le, is_nan, is_inf,
}
use my_t_companion.Base.Eq.{bytes_eq, Bytes, codes}
use my_t_companion.Push.Preferences.{
  preferences_from, preferences_for_car, push_event_feature, subscriber_wants_push_feature,
  names_car, are_valid, insert_by_car, sort_by_car, normalize_vehicle_push_preferences,
  wants_software_update, wants_lock_secure, wants_charging_live_activity,
  wants_navigation_live_activity, wants_navigation_trip_alerts, wants_low_battery,
  any_charging_live_activity, any_navigation_live_activity, push_subscriber_wants_event,
}
use my_t_companion.Push.{
  has_prefix, remove_outbox_for, remove_outbox_except, [], hours, List, PushSubscriber, QueuedPush,
  PushSubscriberStore, queued, minutes, VehiclePushPreferences, seconds,
  max_vehicle_push_preference_items, max_push_retry_delay,
}
use my_t_companion.Push.Trace.{run, run-Inv, Call, paired, enqueued, step}
use my_t_companion.Push.Retry.{
  retry_due, is_live, relay_retry_after, retryable_relay_status, classify_relay_response,
  settle_item, retry_item, retry_items,
}
use my_t_companion.Push.Retry.Unexpired.{retry_due-live, is_handled}
use my_t_companion.Push.Purge.{pause-IsPurged, unsubscribe-IsPurged, IsPurged}
use my_t_companion.Push.Pairing.{
  PushPairRequest, is_trusted_software_push_relay_url, check_request, requested_preferences,
  apply_request, free_seat, make_room, join, write_subscriber, upsert_checked, upsert,
  new_subscriber, valid_push_subscriber,
}
use my_t_companion.Push.Outbox.{
  PushPayloadMetadata, push_event_ttl, find_item, change_item, enqueue, retry_delay, reschedule,
  reschedule_outbox_item, remove_outbox_item,
}
use my_t_companion.Push.Subscribers.{
  pause, unsubscribe, find, is_subscriber, set_paused, change_first, push_subscriber_activity_time,
  oldest_paused_from, oldest_paused_subscriber_index, remove_found, remove_subscriber_at,
  is_retained, prune_below, prune_expired_paused, pause_invalid_subscriber,
}

abbrev phone : Bytes
phone = codes "111111111111111111111111111111111111111111111111"

abbrev request : PushPairRequest
request = record {
  installation_id = phone;
  source_id = [];
  relay_url = codes "https://push.my-tesla.app/v1/events";
  relay_secret = codes "2222222222222222222222222222222222222222222222222222222222222222";
  status = [];
  mode = [];
  software_update = some true;
  lock_secure = none;
  charging_live_activity = some true;
  navigation_live_activity = none;
  navigation_trip_alerts = none;
  low_battery = some true;
  vehicle_preferences = none;
}

abbrev message : PushPayloadMetadata
message = record {
  installation_id = [];
  source_id = [];
  event_id = codes "event";
  type = codes "charging_updated";
  session_id = [];
  car_id = pos 1;
}

abbrev calls : List Call
calls = paired request (hours 1) ∷ enqueued phone message (codes "{}") 0 queued (hours 1) ∷ []

abbrev registry : PushSubscriberStore
registry = run calls empty_registry

abbrev around : Surroundings
around = record {
  digest = λ source car feature session. source ++ session;
  mqtt_car_eligible = λ car. true;
  monitor_knows_live_activity_session = λ sub metadata feature. false;
  charging_payload_current = λ sub metadata. true;
  scoped_live_activity_session_id = λ session source feature. session;
}

abbrev busy : QueuedPush → Attempt
busy item = record {
  parsed = some (record {
    installation_id = [];
    source_id = [];
    event_id = item.id;
    type = item.event_type;
    session_id = item.session_id;
    car_id = item.car_id;
  });
  acquired = true;
  first = around;
  again = around;
  at = hours 1;
  reply = replied 503 0 false;
}

sizes : (length registry.subscribers ≡ 1) × (length registry.outbox ≡ 1)
unfolding has_prefix remove_outbox_for remove_outbox_except push_event_ttl find_item change_item
    enqueue retry_delay reschedule reschedule_outbox_item remove_outbox_item
    is_trusted_software_push_relay_url check_request requested_preferences apply_request free_seat
    make_room join write_subscriber upsert_checked upsert preferences_from preferences_for_car
    push_event_feature subscriber_wants_push_feature names_car are_valid insert_by_car sort_by_car
    normalize_vehicle_push_preferences relay_retry_after retryable_relay_status
    classify_relay_response settle_item retry_item retry_items retry_due post_json post_parsed
    post_resolved is_handled find change_first push_subscriber_activity_time oldest_paused_from
    oldest_paused_subscriber_index remove_found remove_subscriber_at is_retained prune_below
    prune_expired_paused pause unsubscribe pause_invalid_subscriber step run bytes_eq float_one
    float_of float_neg max_float64 float_lt float_eq float_le is_nan is_inf pos_part neg_part sub_ℕ
    ◌+ℤ◌ ◌-ℤ◌ lookup insert delete to_lower to_upper is_space trim_left trim_space hex_value
    hex_decode decode_runes collapse_spaces parse_int normalized_mqtt_value collapsed_display_name
sizes = (refl, refl)

-- The message waits after five minutes, and is dropped after eleven.
passes :
    (length (retry_due busy (hours 1 + minutes 5) registry).outbox ≡ 1)
    × (length (retry_due busy (hours 1 + minutes 11) registry).outbox ≡ 0)
unfolding has_prefix remove_outbox_for remove_outbox_except push_event_ttl find_item change_item
    enqueue retry_delay reschedule reschedule_outbox_item remove_outbox_item
    is_trusted_software_push_relay_url check_request requested_preferences apply_request free_seat
    make_room join write_subscriber upsert_checked upsert preferences_from preferences_for_car
    push_event_feature subscriber_wants_push_feature names_car are_valid insert_by_car sort_by_car
    normalize_vehicle_push_preferences relay_retry_after retryable_relay_status
    classify_relay_response settle_item retry_item retry_items retry_due post_json post_parsed
    post_resolved is_handled find change_first push_subscriber_activity_time oldest_paused_from
    oldest_paused_subscriber_index remove_found remove_subscriber_at is_retained prune_below
    prune_expired_paused pause unsubscribe pause_invalid_subscriber step run bytes_eq float_one
    float_of float_neg max_float64 float_lt float_eq float_le is_nan is_inf pos_part neg_part sub_ℕ
    ◌+ℤ◌ ◌-ℤ◌ lookup insert delete to_lower to_upper is_space trim_left trim_space hex_value
    hex_decode decode_runes collapse_spaces parse_int normalized_mqtt_value collapsed_display_name
    live_activity_authorization_key is_wanted is_known_session may_receive delivery_subscriber
    remember_live_activity_session wants_software_update wants_lock_secure
    wants_charging_live_activity wants_navigation_live_activity wants_navigation_trip_alerts
    wants_low_battery any_charging_live_activity any_navigation_live_activity
    push_subscriber_wants_event valid_push_subscriber
passes = (refl, refl)

empty-Inv_here : Inv empty_registry
empty-Inv_here = record { seats = omega arith; room = omega arith }

run-Inv_example : Inv registry
run-Inv_example = run-Inv calls empty_registry empty-Inv_here

retry_due-live_example :
    All
      (λ x. is_live (hours 1 + minutes 5) x ≡ true)
      (retry_due busy (hours 1 + minutes 5) registry).outbox
retry_due-live_example = retry_due-live (hours 1 + minutes 5) busy registry

abbrev or_subscriber : Option PushSubscriber → PushSubscriber
or_subscriber none = new_subscriber phone
or_subscriber (some s) = s

abbrev known : PushSubscriber
known = or_subscriber (find (is_subscriber phone) registry.subscribers)

is_known : find (is_subscriber phone) registry.subscribers ≡ some known
unfolding has_prefix remove_outbox_for remove_outbox_except push_event_ttl find_item change_item
    enqueue retry_delay reschedule reschedule_outbox_item remove_outbox_item
    is_trusted_software_push_relay_url check_request requested_preferences apply_request free_seat
    make_room join write_subscriber upsert_checked upsert preferences_from preferences_for_car
    push_event_feature subscriber_wants_push_feature names_car are_valid insert_by_car sort_by_car
    normalize_vehicle_push_preferences relay_retry_after retryable_relay_status
    classify_relay_response settle_item retry_item retry_items retry_due post_json post_parsed
    post_resolved is_handled find change_first push_subscriber_activity_time oldest_paused_from
    oldest_paused_subscriber_index remove_found remove_subscriber_at is_retained prune_below
    prune_expired_paused pause unsubscribe pause_invalid_subscriber step run bytes_eq float_one
    float_of float_neg max_float64 float_lt float_eq float_le is_nan is_inf pos_part neg_part sub_ℕ
    ◌+ℤ◌ ◌-ℤ◌ lookup insert delete to_lower to_upper is_space trim_left trim_space hex_value
    hex_decode decode_runes collapse_spaces parse_int normalized_mqtt_value collapsed_display_name
is_known = refl

phone_named : is_blank (trim_space phone) ≡ false
unfolding has_prefix remove_outbox_for remove_outbox_except push_event_ttl find_item change_item
    enqueue retry_delay reschedule reschedule_outbox_item remove_outbox_item
    is_trusted_software_push_relay_url check_request requested_preferences apply_request free_seat
    make_room join write_subscriber upsert_checked upsert preferences_from preferences_for_car
    push_event_feature subscriber_wants_push_feature names_car are_valid insert_by_car sort_by_car
    normalize_vehicle_push_preferences relay_retry_after retryable_relay_status
    classify_relay_response settle_item retry_item retry_items retry_due post_json post_parsed
    post_resolved is_handled find change_first push_subscriber_activity_time oldest_paused_from
    oldest_paused_subscriber_index remove_found remove_subscriber_at is_retained prune_below
    prune_expired_paused pause unsubscribe pause_invalid_subscriber step run bytes_eq float_one
    float_of float_neg max_float64 float_lt float_eq float_le is_nan is_inf pos_part neg_part sub_ℕ
    ◌+ℤ◌ ◌-ℤ◌ lookup insert delete to_lower to_upper is_space trim_left trim_space hex_value
    hex_decode decode_runes collapse_spaces parse_int normalized_mqtt_value collapsed_display_name
phone_named = refl

pause-IsPurged_example :
    ((pause phone (hours 2) registry).1 ≡ none)
    × IsPurged phone (pause phone (hours 2) registry).0
    × (find (is_subscriber phone) (pause phone (hours 2) registry).0.subscribers
        ≡ some (set_paused (hours 2) known))
pause-IsPurged_example = pause-IsPurged phone (hours 2) registry known phone_named is_known

unsubscribe-IsPurged_example :
    ((unsubscribe phone registry).1 ≡ none)
    × IsPurged phone (unsubscribe phone registry).0
    × (find (is_subscriber phone) (unsubscribe phone registry).0.subscribers ≡ none)
unsubscribe-IsPurged_example = unsubscribe-IsPurged phone registry phone_named

retry_delay-bounds_example :
    (seconds 4 ≤ retry_delay 3 0)
    × (min 0 max_push_retry_delay ≤ retry_delay 3 0)
    × (retry_delay 3 0 ≤ max_push_retry_delay)
retry_delay-bounds_example = retry_delay-bounds 3 0 (omega arith)

abbrev preferences : ℕ → Bool → VehiclePushPreferences
preferences car wanted = record {
  car_id = pos car;
  software_update = wanted;
  lock_secure = false;
  charging_live_activity = false;
  navigation_live_activity = false;
  navigation_trip_alerts = false;
  low_battery = wanted;
}

abbrev given : List VehiclePushPreferences
given = preferences 2 true ∷ preferences 1 false ∷ []

abbrev ordered : List VehiclePushPreferences
ordered = preferences 1 false ∷ preferences 2 true ∷ []

sorts_preferences : normalize_vehicle_push_preferences given ≡ inr ordered
unfolding has_prefix remove_outbox_for remove_outbox_except queued_result queue_delivery
    settle_delivery deliver_json_result push_event_ttl find_item change_item enqueue retry_delay
    reschedule reschedule_outbox_item remove_outbox_item is_trusted_software_push_relay_url
    valid_push_subscriber check_request requested_preferences apply_request free_seat make_room join
    write_subscriber upsert_checked upsert preferences_from preferences_for_car
    wants_software_update wants_lock_secure wants_charging_live_activity
    wants_navigation_live_activity wants_navigation_trip_alerts wants_low_battery
    any_charging_live_activity any_navigation_live_activity push_event_feature
    subscriber_wants_push_feature push_subscriber_wants_event names_car are_valid insert_by_car
    sort_by_car normalize_vehicle_push_preferences relay_retry_after retryable_relay_status
    classify_relay_response settle_item retry_item retry_items retry_due post_json post_parsed
    post_resolved is_handled find change_first push_subscriber_activity_time oldest_paused_from
    oldest_paused_subscriber_index remove_found remove_subscriber_at is_retained prune_below
    prune_expired_paused pause unsubscribe pause_invalid_subscriber step run bytes_eq float_one
    float_of float_neg max_float64 float_lt float_eq float_le is_nan is_inf pos_part neg_part sub_ℕ
    ◌+ℤ◌ ◌-ℤ◌ lookup insert delete to_lower to_upper is_space trim_left trim_space hex_value
    hex_decode decode_runes collapse_spaces parse_int normalized_mqtt_value collapsed_display_name
sorts_preferences = refl

normalize-same_example :
    (length ordered ≡ length given)
    × (length ordered ≤ max_vehicle_push_preference_items)
    × (preferences_from known (pos 2) ordered ≡ preferences_from known (pos 2) given)
normalize-same_example = normalize-same known (pos 2) given ordered sorts_preferences
