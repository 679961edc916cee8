-- ===== src/Push/Preferences.antt =====
-- Which events a phone wants for a car (push_subscribers.go).
pub mod Sorted
use my_t_companion.Base.Text.{text_is, is_blank, trim_space}
use my_t_companion.Push.{VehiclePushPreferences, PushSubscriber, max_vehicle_push_preference_items}
use my_t_companion.Base.{
  List, Bool, ◌⊎◌, ◌∷◌, true, any, false, [], if◌then◌else◌, ltb, not, ◌||◌, ◌&&◌, length, inl, inr,
}
use my_t_companion.Base.Eq.{Bytes}
use my_t_companion.Base.Int.{ℤ, leb_ℤ, eqb_ℤ, pos}

-- `preferencesForCar`
unfoldable pub preferences_from :
    PushSubscriber → ℤ → List VehiclePushPreferences → VehiclePushPreferences
preferences_from s car [] = record {
  car_id = car;
  software_update = s.software_update;
  lock_secure = s.lock_secure;
  charging_live_activity = s.charging_live_activity;
  navigation_live_activity = s.navigation_live_activity;
  navigation_trip_alerts = s.navigation_trip_alerts;
  low_battery = s.low_battery;
}
preferences_from s car (p ∷ ps) = if eqb_ℤ p.car_id car then p else preferences_from s car ps

unfoldable pub preferences_for_car : PushSubscriber → ℤ → VehiclePushPreferences
unfolding preferences_from
preferences_for_car s car = preferences_from s car s.vehicle_preferences

unfoldable pub wants_software_update : PushSubscriber → ℤ → Bool
unfolding preferences_for_car
wants_software_update s car = (preferences_for_car s car).software_update

unfoldable pub wants_lock_secure : PushSubscriber → ℤ → Bool
unfolding preferences_for_car
wants_lock_secure s car = (preferences_for_car s car).lock_secure

unfoldable pub wants_charging_live_activity : PushSubscriber → ℤ → Bool
unfolding preferences_for_car
wants_charging_live_activity s car = (preferences_for_car s car).charging_live_activity

unfoldable pub wants_navigation_live_activity : PushSubscriber → ℤ → Bool
unfolding preferences_for_car
wants_navigation_live_activity s car = (preferences_for_car s car).navigation_live_activity

unfoldable pub wants_navigation_trip_alerts : PushSubscriber → ℤ → Bool
unfolding preferences_for_car
wants_navigation_trip_alerts s car = (preferences_for_car s car).navigation_trip_alerts

unfoldable pub wants_low_battery : PushSubscriber → ℤ → Bool
unfolding preferences_for_car
wants_low_battery s car = (preferences_for_car s car).low_battery

unfoldable pub any_charging_live_activity : PushSubscriber → Bool
any_charging_live_activity s =
    s.charging_live_activity || any (λ p. p.charging_live_activity) s.vehicle_preferences

unfoldable pub any_navigation_live_activity : PushSubscriber → Bool
any_navigation_live_activity s =
    s.navigation_live_activity || any (λ p. p.navigation_live_activity) s.vehicle_preferences

pub data Feature : Type 0 where
  software_update_feature lock_secure_feature low_battery_feature : Feature
  charging_live_activity_feature navigation_live_activity_feature : Feature
  navigation_trip_alerts_feature no_feature : Feature

-- The feature of an event, and whether the event ends an activity.
unfoldable pub push_event_feature : Bytes → Feature × Bool
push_event_feature event =
    if text_is event "update_available" || text_is event "update_installed"
    then (software_update_feature, false)
    else if text_is event "vehicle_lock_secure"
    then (lock_secure_feature, false)
    else if text_is event "vehicle_low_battery"
        || text_is event "vehicle_low_battery_severe"
        || text_is event "vehicle_low_battery_reminder"
    then (low_battery_feature, false)
    else if text_is event "charging_started" || text_is event "charging_updated"
    then (charging_live_activity_feature, false)
    else if text_is event "charging_ended"
    then (charging_live_activity_feature, true)
    else if text_is event "navigation_started" || text_is event "navigation_updated"
    then (navigation_live_activity_feature, false)
    else if text_is event "navigation_ended"
    then (navigation_live_activity_feature, true)
    else if text_is event "destination_trip_started" || text_is event "destination_trip_arrived"
    then (navigation_trip_alerts_feature, false)
    else (no_feature, false)

unfoldable pub subscriber_wants_push_feature : PushSubscriber → ℤ → Feature → Bool
unfolding wants_software_update wants_lock_secure wants_low_battery wants_charging_live_activity
    wants_navigation_live_activity wants_navigation_trip_alerts
subscriber_wants_push_feature s car software_update_feature = wants_software_update s car
subscriber_wants_push_feature s car lock_secure_feature = wants_lock_secure s car
subscriber_wants_push_feature s car low_battery_feature = wants_low_battery s car
subscriber_wants_push_feature s car charging_live_activity_feature =
    wants_charging_live_activity s car
subscriber_wants_push_feature s car navigation_live_activity_feature =
    wants_navigation_live_activity s car
subscriber_wants_push_feature s car navigation_trip_alerts_feature =
    wants_navigation_trip_alerts s car
subscriber_wants_push_feature s car no_feature = false

-- A session that ends is always of interest; the registry checks it again before it is sent.
unfoldable pub push_subscriber_wants_event : PushSubscriber → ℤ → Feature → Bool → Bytes → Bool
unfolding wants_charging_live_activity wants_navigation_live_activity
push_subscriber_wants_event s car feature terminal session =
    (terminal && not (is_blank (trim_space session))) || elim feature [
      | charging_live_activity_feature ↦ wants_charging_live_activity s car
      | navigation_live_activity_feature ↦ wants_navigation_live_activity s car
      | _ ↦ false
    ]

-- `normalizeVehiclePushPreferences`: the checks in the order of the list, then the sort.
pub data PreferencesError : Type 0 where
  too_many_vehicle_preferences invalid_vehicle_preferences : PreferencesError

unfoldable pub names_car : ℤ → List VehiclePushPreferences → Bool
names_car car ps = any (λ p. eqb_ℤ p.car_id car) ps

-- `seen` holds the entries before.
unfoldable pub are_valid : List VehiclePushPreferences → List VehiclePushPreferences → Bool
unfolding names_car
are_valid seen [] = true
are_valid seen (p ∷ ps) =
    not (leb_ℤ p.car_id (pos 0)) && not (names_car p.car_id seen) && are_valid (p ∷ seen) ps

unfoldable pub insert_by_car :
    VehiclePushPreferences → List VehiclePushPreferences → List VehiclePushPreferences
insert_by_car p [] = p ∷ []
insert_by_car p (q ∷ qs) =
    let rest = insert_by_car p qs in if leb_ℤ p.car_id q.car_id then p ∷ q ∷ qs else q ∷ rest

unfoldable pub sort_by_car : List VehiclePushPreferences → List VehiclePushPreferences
unfolding insert_by_car
sort_by_car [] = []
sort_by_car (p ∷ ps) = insert_by_car p (sort_by_car ps)

unfoldable pub normalize_vehicle_push_preferences :
    List VehiclePushPreferences → PreferencesError ⊎ List VehiclePushPreferences
unfolding are_valid sort_by_car
normalize_vehicle_push_preferences values =
    if ltb max_vehicle_push_preference_items (length values)
    then inl too_many_vehicle_preferences
    else if are_valid [] values
    then inr (sort_by_car values)
    else inl invalid_vehicle_preferences
