-- ===== src/LockSecure/Tests.antt =====
-- Runs of the lock-secure monitor at concrete values.
use my_t_companion.LockSecure.Reported.{reported}
use my_t_companion.Push.{PushSubscriber, PushSubscriberStore, push_status_active}
use my_t_companion.Push.Preferences.{
  preferences_from, preferences_for_car, wants_software_update, wants_lock_secure,
  wants_charging_live_activity, wants_navigation_live_activity, wants_navigation_trip_alerts,
  wants_low_battery, any_charging_live_activity, any_navigation_live_activity, push_event_feature,
  subscriber_wants_push_feature, push_subscriber_wants_event, names_car, are_valid, insert_by_car,
  sort_by_car, normalize_vehicle_push_preferences,
}
use my_t_companion.Push.Sessions.{
  live_activity_authorization_key, is_wanted, is_known_session, may_receive, delivery_subscriber,
  remember_live_activity_session, remember_known_live_activity_cleanup, matching,
}
use my_t_companion.LockSecure.Recipients.{
  lock_secure_subscribers, has_lock_secure_targets, fan_out_lock_secure, IsRecipient,
  fan_out_lock_secure-IsRecipient, Moment, turn_of,
}
use my_t_companion.LockSecure.Unlocked.{is_live_lock}
use my_t_companion.LockSecure.Automaton.{EpisodeRun, outputs, episode_of, outputs-EpisodeRun}
use Prim.Native.String.{String}
use my_t_companion.LockSecure.Prefix.{IsPrefix, fan_out-IsPrefix}
use my_t_companion.Base.{
  All, ◌∷◌, ◌≡◌, Bool, ◌≢◌, false, arith, true, refl, keep, none, some, ◌<◌, ◌==◌, length,
}
use my_t_companion.Base.Text.{
  to_lower, to_upper, is_space, trim_left, trim_space, hex_value, hex_decode, decode_runes,
  collapse_spaces, parse_int, normalized_mqtt_value, collapsed_display_name,
}
use my_t_companion.Base.Maps.{lookup, insert, delete}
use my_t_companion.Base.Int.{pos_part, neg_part, sub_ℕ, ◌+ℤ◌, ◌-ℤ◌}
use my_t_companion.Base.Float.{
  float_one, float_of, float_neg, max_float64, float_lt, float_eq, float_le, is_nan, is_inf,
}
use my_t_companion.Base.Eq.{bytes_eq, pair_beq, codes, Bytes}
use my_t_companion.LockSecure.Stale.{run, IsStale, finish_pending-run}
use my_t_companion.LockSecure.Observe.{
  parse_mqtt_bool, read_shift, read_field, summarize, expire_lock, schedule, observe_message,
  reset_evidence, reconcile_fleet,
}
use my_t_companion.LockSecure.Finish.{launch, finish_pending, Launch, origin_id}
use my_t_companion.LockSecure.FanOut.{still_valid, send_turns, fan_out, finish_fan_out, Turn}
use my_t_companion.LockSecure.Evidence.{
  observe_retained, observe_opening, observe_live, observe_evidence, ready, presence_is_current,
  Field, healthy_field, state_field, shift_state_field, doors_open_field, trunk_open_field,
  frunk_open_field, locked_field, is_user_present_field,
}
use my_t_companion.LockSecure.Episodes.{finish_pending_once}
use my_t_companion.LockSecure.Cooldown.{keeps_car, IsSpaced, pushed_at, launches-IsSpaced}
use my_t_companion.LockSecure.Calls.{call, launches, Call, reset, timer_fired, message}
use my_t_companion.LockSecure.{
  LockSecureMonitor, lock_secure_is_parked, lock_secure_is_secure, seconds, List, [], ℕ, car_of,
}

abbrev fresh : LockSecureMonitor
fresh = record {
  cars = [];
  delivered = [];
  evidence = [];
  pending = [];
  next_timer = 0;
  in_flight = [];
  connected = false;
}

abbrev said : Field → String → ℕ → Call
said field text second = message 7 field (codes text) (seconds second) false

-- The driver leaves and locks the car.
abbrev leaving : List Call
leaving =
    reset true
    ∷ said healthy_field "true" 1000
    ∷ said state_field "online" 1000
    ∷ said shift_state_field "P" 1000
    ∷ said doors_open_field "false" 1001
    ∷ said trunk_open_field "false" 1001
    ∷ said frunk_open_field "false" 1001
    ∷ said locked_field "false" 1002
    ∷ said is_user_present_field "false" 1003
    ∷ said locked_field "true" 1004
    ∷ []

abbrev locked_car : LockSecureMonitor
locked_car = run leaving fresh

abbrev anyone : ℕ → Bool
anyone car = true

abbrev fired : Call
fired = timer_fired anyone 7 0 (seconds 1008)

abbrev lock_alert : Launch
lock_alert = record {
  origin = origin_id 7 (seconds 1008);
  car = 7;
  state = record (car_of 7 locked_car) { last_pushed_at = some (seconds 1008) };
  observed_at = seconds 1008;
  stable_since = seconds 1004;
}

one_alert : launches (fired ∷ fired ∷ []) locked_car ≡ lock_alert ∷ []
unfolding lock_secure_is_parked lock_secure_is_secure call launches keeps_car is_live_lock
    observe_retained observe_opening observe_live observe_evidence ready presence_is_current
    still_valid send_turns fan_out finish_fan_out launch finish_pending parse_mqtt_bool read_shift
    read_field summarize expire_lock schedule observe_message reset_evidence reconcile_fleet run
    bytes_eq pair_beq float_one float_of float_neg max_float64 float_lt float_eq float_le is_nan
    is_inf pos_part neg_part sub_ℕ ◌+ℤ◌ ◌-ℤ◌ lookup insert delete to_lower to_upper is_space
    trim_left trim_space hex_value hex_decode decode_runes collapse_spaces parse_int
    normalized_mqtt_value collapsed_display_name
one_alert = refl

alert_started : (finish_pending anyone 7 0 (seconds 1008) locked_car).1 ≡ some lock_alert
unfolding lock_secure_is_parked lock_secure_is_secure call launches keeps_car is_live_lock
    observe_retained observe_opening observe_live observe_evidence ready presence_is_current
    still_valid send_turns fan_out finish_fan_out launch finish_pending parse_mqtt_bool read_shift
    read_field summarize expire_lock schedule observe_message reset_evidence reconcile_fleet run
    bytes_eq pair_beq float_one float_of float_neg max_float64 float_lt float_eq float_le is_nan
    is_inf pos_part neg_part sub_ℕ ◌+ℤ◌ ◌-ℤ◌ lookup insert delete to_lower to_upper is_space
    trim_left trim_space hex_value hex_decode decode_runes collapse_spaces parse_int
    normalized_mqtt_value collapsed_display_name
alert_started = refl

heartbeats : All (λ c. is_live_lock 7 c ≡ false) (said healthy_field "true" 1010 ∷ fired ∷ [])
unfolding is_live_lock
heartbeats = (refl, (refl, tt))

finish_pending_once_example :
    All
      (λ other. other.car ≢ 7)
      (launches
        (said healthy_field "true" 1010 ∷ fired ∷ [])
        (finish_pending anyone 7 0 (seconds 1008) locked_car).0)
finish_pending_once_example =
    finish_pending_once anyone 7 0 (seconds 1008) locked_car lock_alert
      (said healthy_field "true" 1010 ∷ fired ∷ []) alert_started heartbeats

stays_in_fleet : All (λ c. keeps_car 7 c ≡ true) (fired ∷ reset true ∷ [])
unfolding keeps_car
stays_in_fleet = (refl, (refl, tt))

launches-IsSpaced_example :
    IsSpaced
      (pushed_at 7 locked_car)
      (keep (λ (l : Launch). l.car == 7) (launches (fired ∷ reset true ∷ []) locked_car))
launches-IsSpaced_example = launches-IsSpaced 7 (fired ∷ reset true ∷ []) locked_car stays_in_fleet

after_alert-IsStale : IsStale 7 0 (call fired locked_car).0
unfolding lock_secure_is_parked lock_secure_is_secure call launches keeps_car is_live_lock
    observe_retained observe_opening observe_live observe_evidence ready presence_is_current
    still_valid send_turns fan_out finish_fan_out launch finish_pending parse_mqtt_bool read_shift
    read_field summarize expire_lock schedule observe_message reset_evidence reconcile_fleet run
    bytes_eq pair_beq float_one float_of float_neg max_float64 float_lt float_eq float_le is_nan
    is_inf pos_part neg_part sub_ℕ ◌+ℤ◌ ◌-ℤ◌ lookup insert delete to_lower to_upper is_space
    trim_left trim_space hex_value hex_decode decode_runes collapse_spaces parse_int
    normalized_mqtt_value collapsed_display_name
after_alert-IsStale = (omega arith, (tt, λ same. cc))

finish_pending-run_example :
    finish_pending anyone 7 0 (seconds 1020) (run leaving (call fired locked_car).0)
    ≡ (run leaving (call fired locked_car).0, none)
finish_pending-run_example =
    finish_pending-run 7 0 leaving anyone (seconds 1020) (call fired locked_car).0
      after_alert-IsStale

abbrev turn : Turn
turn = record {
  installation = codes "phone";
  view = locked_car;
  has_targets = true;
  now = seconds 1008;
  succeeds = true;
}

fan_out-IsPrefix_example :
    ((n : ℕ) × IsPrefix lock_alert (turn ∷ []) (fan_out lock_alert (turn ∷ [])) n)
    × ((fan_out lock_alert (turn ∷ [])).complete ≡ true → 0 < length (turn ∷ []))
fan_out-IsPrefix_example = fan_out-IsPrefix lock_alert (turn ∷ [])

outputs-EpisodeRun_example :
    EpisodeRun 7
      (reported 7 locked_car)
      (fired ∷ fired ∷ [])
      (outputs (fired ∷ fired ∷ []) locked_car)
      (episode_of 7 locked_car)
      (episode_of 7 (run (fired ∷ fired ∷ []) locked_car))
outputs-EpisodeRun_example = outputs-EpisodeRun 7 (fired ∷ fired ∷ []) locked_car

abbrev subscriber : Bytes → Bool → PushSubscriber
subscriber installation wants = record {
  installation_id = installation;
  source_id = [];
  relay_url = [];
  relay_secret = [];
  status = push_status_active;
  software_update = true;
  lock_secure = wants;
  charging_live_activity = false;
  navigation_live_activity = false;
  navigation_trip_alerts = false;
  low_battery = true;
  vehicle_preferences = [];
  updated_at = none;
  last_seen_at = none;
}

abbrev phones : PushSubscriberStore
phones = record {
  subscribers = subscriber (codes "one") true ∷ subscriber (codes "two") false ∷ [];
  outbox = [];
  live_activity_sessions = [];
}

abbrev at_once : PushSubscriber → Moment
at_once sub = record { view = locked_car; phones = phones; now = seconds 1008; succeeds = true }

only_one : (fan_out_lock_secure lock_alert at_once phones).installations ≡ codes "one" ∷ []
unfolding lock_secure_is_parked lock_secure_is_secure outputs call launches keeps_car
    observe_retained observe_opening observe_live observe_evidence ready presence_is_current
    still_valid send_turns fan_out finish_fan_out launch finish_pending parse_mqtt_bool read_shift
    read_field summarize expire_lock schedule observe_message reset_evidence reconcile_fleet
    lock_secure_subscribers turn_of has_lock_secure_targets fan_out_lock_secure run is_live_lock
    bytes_eq pair_beq float_one float_of float_neg max_float64 float_lt float_eq float_le is_nan
    is_inf pos_part neg_part sub_ℕ ◌+ℤ◌ ◌-ℤ◌ lookup insert delete to_lower to_upper is_space
    trim_left trim_space hex_value hex_decode decode_runes collapse_spaces parse_int
    normalized_mqtt_value collapsed_display_name live_activity_authorization_key is_wanted
    is_known_session may_receive delivery_subscriber remember_live_activity_session
    remember_known_live_activity_cleanup matching preferences_from preferences_for_car
    wants_software_update wants_lock_secure wants_charging_live_activity
    wants_navigation_live_activity wants_navigation_trip_alerts wants_low_battery
    any_charging_live_activity any_navigation_live_activity push_event_feature
    subscriber_wants_push_feature push_subscriber_wants_event names_car are_valid insert_by_car
    sort_by_car normalize_vehicle_push_preferences
only_one = refl

fan_out_lock_secure-IsRecipient_example :
    All
      (IsRecipient lock_alert at_once phones)
      (fan_out_lock_secure lock_alert at_once phones).installations
fan_out_lock_secure-IsRecipient_example = fan_out_lock_secure-IsRecipient lock_alert at_once phones

abbrev succeeding : PushSubscriber → Bool
succeeding sub = true
