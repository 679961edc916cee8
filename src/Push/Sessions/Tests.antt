-- ===== src/Push/Sessions/Tests.antt =====
-- Deliveries to a phone at concrete values.
use my_t_companion.Push.Post.{post_json, Attempt, post_parsed, replied, post_resolved}
use my_t_companion.Push.Sessions.Cleanup.{remember_live_activity_session-delivery_subscriber}
use my_t_companion.Base.{[], ◌++◌, ◌≡◌, true, ◌∷◌, none, some, false, refl, arith}
use my_t_companion.Push.Sessions.Authorized.{IsAuthorized, delivery_subscriber-IsAuthorized}
use Prim.Native.String.{String}
use my_t_companion.Storage.{
  timestamp_is_older_than, is_kept, place, newest_first, delete_all, prune_timestamp_map,
}
use my_t_companion.Base.Text.{
  to_lower, to_upper, is_space, trim_left, trim_space, hex_value, hex_decode, decode_runes,
  collapse_spaces, parse_int, normalized_mqtt_value, collapsed_display_name,
}
use my_t_companion.Base.Maps.{lookup, insert, delete}
use my_t_companion.Base.Int.{pos_part, neg_part, sub_ℕ, ◌+ℤ◌, ◌-ℤ◌, pos}
use my_t_companion.Base.Float.{
  float_one, float_of, float_neg, max_float64, float_lt, float_eq, float_le, is_nan, is_inf,
}
use my_t_companion.Base.Eq.{bytes_eq, pair_beq, codes}
use my_t_companion.Push.Subscribers.{
  find, change_first, push_subscriber_activity_time, oldest_paused_from,
  oldest_paused_subscriber_index, remove_found, remove_subscriber_at, is_retained, prune_below,
  prune_expired_paused, pause, unsubscribe, pause_invalid_subscriber,
}
use my_t_companion.Push.Sizes.Joins.{Seated}
use my_t_companion.Push.Retry.Unexpired.{is_handled}
use my_t_companion.Push.Retry.{
  relay_retry_after, retryable_relay_status, classify_relay_response, settle_item, retry_item,
  retry_items, retry_due,
}
use my_t_companion.Push.Preferences.{
  preferences_from, preferences_for_car, wants_software_update, wants_lock_secure,
  wants_charging_live_activity, wants_navigation_live_activity, wants_navigation_trip_alerts,
  wants_low_battery, any_charging_live_activity, any_navigation_live_activity, push_event_feature,
  subscriber_wants_push_feature, push_subscriber_wants_event, names_car, are_valid, insert_by_car,
  sort_by_car, normalize_vehicle_push_preferences, charging_live_activity_feature,
}
use my_t_companion.Push.Pairing.{
  is_trusted_software_push_relay_url, valid_push_subscriber, check_request, requested_preferences,
  apply_request, free_seat, make_room, join, write_subscriber, upsert_checked, upsert,
}
use my_t_companion.Push.Outbox.{
  push_event_ttl, find_item, change_item, enqueue, retry_delay, reschedule, reschedule_outbox_item,
  remove_outbox_item, PushPayloadMetadata,
}
use my_t_companion.Push.Delivery.Kept.{is_retryable, IsKeptOrFailed, deliver_json_result-IsKept}
use my_t_companion.Push.Delivery.{
  queued_result, queue_delivery, settle_delivery, deliver_json_result,
}
use my_t_companion.Push.{
  has_prefix, remove_outbox_for, remove_outbox_except, hours, PushSubscriber, PushSubscriberStore,
  push_status_active,
}
use my_t_companion.Push.Sessions.{
  Surroundings, live_activity_authorization_key, is_wanted, is_known_session, may_receive,
  delivery_subscriber, remember_live_activity_session, authorize_all,
  remember_known_live_activity_cleanup, matching,
}

abbrev around : Surroundings
around = record {
  digest = λ source car feature session. source ++ session;
  mqtt_car_eligible = λ car. true;
  monitor_knows_live_activity_session = λ sub metadata feature. false;
  charging_payload_current = λ sub metadata. true;
  scoped_live_activity_session_id = λ session source feature. session;
}

-- A phone that no longer wants to hear of charging
abbrev phone : PushSubscriber
phone = record {
  installation_id = codes "111111111111111111111111111111111111111111111111";
  source_id = codes "Home";
  relay_url = codes "https://push.my-tesla.app/v1/events";
  relay_secret = codes "2222222222222222222222222222222222222222222222222222222222222222";
  status = push_status_active;
  software_update = true;
  lock_secure = false;
  charging_live_activity = false;
  navigation_live_activity = false;
  navigation_trip_alerts = false;
  low_battery = true;
  vehicle_preferences = [];
  updated_at = none;
  last_seen_at = none;
}

abbrev registry : PushSubscriberStore
registry = record { subscribers = phone ∷ []; outbox = []; live_activity_sessions = [] }

abbrev about : String → PushPayloadMetadata
about event = record {
  installation_id = [];
  source_id = codes " home";
  event_id = codes "event";
  type = codes event;
  session_id = codes "charge-7";
  car_id = pos 7;
}

not_started :
    delivery_subscriber around phone.installation_id (about "charging_started") (hours 2) registry
    ≡ none
unfolding has_prefix remove_outbox_for remove_outbox_except queued_result queue_delivery
    settle_delivery deliver_json_result is_retryable push_event_ttl find_item change_item enqueue
    retry_delay reschedule reschedule_outbox_item remove_outbox_item
    is_trusted_software_push_relay_url valid_push_subscriber check_request requested_preferences
    apply_request free_seat make_room join write_subscriber upsert_checked upsert preferences_from
    preferences_for_car wants_software_update wants_lock_secure wants_charging_live_activity
    wants_navigation_live_activity wants_navigation_trip_alerts wants_low_battery
    any_charging_live_activity any_navigation_live_activity push_event_feature
    subscriber_wants_push_feature push_subscriber_wants_event names_car are_valid insert_by_car
    sort_by_car normalize_vehicle_push_preferences relay_retry_after retryable_relay_status
    classify_relay_response settle_item retry_item retry_items retry_due is_handled
    live_activity_authorization_key is_wanted is_known_session may_receive delivery_subscriber
    remember_live_activity_session authorize_all remember_known_live_activity_cleanup matching
    Seated find change_first push_subscriber_activity_time oldest_paused_from
    oldest_paused_subscriber_index remove_found remove_subscriber_at is_retained prune_below
    prune_expired_paused pause unsubscribe pause_invalid_subscriber bytes_eq pair_beq float_one
    float_of float_neg max_float64 float_lt float_eq float_le is_nan is_inf pos_part neg_part sub_ℕ
    ◌+ℤ◌ ◌-ℤ◌ lookup insert delete to_lower to_upper is_space trim_left trim_space hex_value
    hex_decode decode_runes collapse_spaces parse_int normalized_mqtt_value collapsed_display_name
    timestamp_is_older_than is_kept place newest_first delete_all prune_timestamp_map
not_started = refl

wanted_update :
    delivery_subscriber around phone.installation_id (about "update_available") (hours 2) registry
    ≡ some phone
unfolding has_prefix remove_outbox_for remove_outbox_except queued_result queue_delivery
    settle_delivery deliver_json_result is_retryable push_event_ttl find_item change_item enqueue
    retry_delay reschedule reschedule_outbox_item remove_outbox_item
    is_trusted_software_push_relay_url valid_push_subscriber check_request requested_preferences
    apply_request free_seat make_room join write_subscriber upsert_checked upsert preferences_from
    preferences_for_car wants_software_update wants_lock_secure wants_charging_live_activity
    wants_navigation_live_activity wants_navigation_trip_alerts wants_low_battery
    any_charging_live_activity any_navigation_live_activity push_event_feature
    subscriber_wants_push_feature push_subscriber_wants_event names_car are_valid insert_by_car
    sort_by_car normalize_vehicle_push_preferences relay_retry_after retryable_relay_status
    classify_relay_response settle_item retry_item retry_items retry_due is_handled
    live_activity_authorization_key is_wanted is_known_session may_receive delivery_subscriber
    remember_live_activity_session authorize_all remember_known_live_activity_cleanup matching
    Seated find change_first push_subscriber_activity_time oldest_paused_from
    oldest_paused_subscriber_index remove_found remove_subscriber_at is_retained prune_below
    prune_expired_paused pause unsubscribe pause_invalid_subscriber bytes_eq pair_beq float_one
    float_of float_neg max_float64 float_lt float_eq float_le is_nan is_inf pos_part neg_part sub_ℕ
    ◌+ℤ◌ ◌-ℤ◌ lookup insert delete to_lower to_upper is_space trim_left trim_space hex_value
    hex_decode decode_runes collapse_spaces parse_int normalized_mqtt_value collapsed_display_name
    timestamp_is_older_than is_kept place newest_first delete_all prune_timestamp_map
wanted_update = refl

delivery_subscriber-IsAuthorized_example :
    IsAuthorized around phone.installation_id (about "update_available") (hours 2) registry phone
delivery_subscriber-IsAuthorized_example =
    delivery_subscriber-IsAuthorized around phone.installation_id (about "update_available")
      (hours 2) registry phone wanted_update

remember_live_activity_session-delivery_subscriber_example :
    delivery_subscriber around phone.installation_id
      (about "charging_ended")
      (hours 40)
      (remember_live_activity_session around phone (about "charging_started") (hours 2) registry)
    ≡ some phone
unfolding has_prefix remove_outbox_for remove_outbox_except queued_result queue_delivery
    settle_delivery deliver_json_result is_retryable push_event_ttl find_item change_item enqueue
    retry_delay reschedule reschedule_outbox_item remove_outbox_item
    is_trusted_software_push_relay_url valid_push_subscriber check_request requested_preferences
    apply_request free_seat make_room join write_subscriber upsert_checked upsert preferences_from
    preferences_for_car wants_software_update wants_lock_secure wants_charging_live_activity
    wants_navigation_live_activity wants_navigation_trip_alerts wants_low_battery
    any_charging_live_activity any_navigation_live_activity push_event_feature
    subscriber_wants_push_feature push_subscriber_wants_event names_car are_valid insert_by_car
    sort_by_car normalize_vehicle_push_preferences relay_retry_after retryable_relay_status
    classify_relay_response settle_item retry_item retry_items retry_due is_handled
    live_activity_authorization_key is_wanted is_known_session may_receive delivery_subscriber
    remember_live_activity_session authorize_all remember_known_live_activity_cleanup matching
    Seated find change_first push_subscriber_activity_time oldest_paused_from
    oldest_paused_subscriber_index remove_found remove_subscriber_at is_retained prune_below
    prune_expired_paused pause unsubscribe pause_invalid_subscriber bytes_eq pair_beq float_one
    float_of float_neg max_float64 float_lt float_eq float_le is_nan is_inf pos_part neg_part sub_ℕ
    ◌+ℤ◌ ◌-ℤ◌ lookup insert delete to_lower to_upper is_space trim_left trim_space hex_value
    hex_decode decode_runes collapse_spaces parse_int normalized_mqtt_value collapsed_display_name
    timestamp_is_older_than is_kept place newest_first delete_all prune_timestamp_map
remember_live_activity_session-delivery_subscriber_example =
    remember_live_activity_session-delivery_subscriber around phone (about "charging_started")
      (about "charging_ended") charging_live_activity_feature (hours 2) (hours 40) registry tt
      (omega arith) refl refl refl refl refl refl refl refl refl refl (omega arith)

abbrev busy_relay : Attempt
busy_relay = record {
  parsed = some (about "update_available");
  acquired = true;
  first = around;
  again = around;
  at = hours 2;
  reply = replied 503 0 false;
}

deliver_json_result-IsKept_example :
    IsKeptOrFailed phone
      (about "update_available")
      (codes "{}")
      registry
      (deliver_json_result phone (codes "{}") busy_relay (hours 2) registry)
unfolding post_json post_parsed post_resolved has_prefix remove_outbox_for remove_outbox_except
    queued_result queue_delivery settle_delivery deliver_json_result is_retryable push_event_ttl
    find_item change_item enqueue retry_delay reschedule reschedule_outbox_item remove_outbox_item
    is_trusted_software_push_relay_url valid_push_subscriber check_request requested_preferences
    apply_request free_seat make_room join write_subscriber upsert_checked upsert preferences_from
    preferences_for_car wants_software_update wants_lock_secure wants_charging_live_activity
    wants_navigation_live_activity wants_navigation_trip_alerts wants_low_battery
    any_charging_live_activity any_navigation_live_activity push_event_feature
    subscriber_wants_push_feature push_subscriber_wants_event names_car are_valid insert_by_car
    sort_by_car normalize_vehicle_push_preferences relay_retry_after retryable_relay_status
    classify_relay_response settle_item retry_item retry_items retry_due is_handled
    live_activity_authorization_key is_wanted is_known_session may_receive delivery_subscriber
    remember_live_activity_session authorize_all remember_known_live_activity_cleanup matching
    Seated find change_first push_subscriber_activity_time oldest_paused_from
    oldest_paused_subscriber_index remove_found remove_subscriber_at is_retained prune_below
    prune_expired_paused pause unsubscribe pause_invalid_subscriber bytes_eq pair_beq float_one
    float_of float_neg max_float64 float_lt float_eq float_le is_nan is_inf pos_part neg_part sub_ℕ
    ◌+ℤ◌ ◌-ℤ◌ lookup insert delete to_lower to_upper is_space trim_left trim_space hex_value
    hex_decode decode_runes collapse_spaces parse_int normalized_mqtt_value collapsed_display_name
    timestamp_is_older_than is_kept place newest_first delete_all prune_timestamp_map
deliver_json_result-IsKept_example =
    deliver_json_result-IsKept phone (codes "{}") (about "update_available") busy_relay (hours 2)
      registry refl refl refl refl
