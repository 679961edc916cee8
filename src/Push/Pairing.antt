-- ===== src/Push/Pairing.antt =====
-- Pairing a phone with the server (push_subscribers.go, `upsert`).
use my_t_companion.Base.Text.{text_is, trim_space, lower_text, hex_decode}
use my_t_companion.Base.Clock.{Time, stamp_seconds}
use my_t_companion.Base.{
  Option, Bool, ℕ, not, List, false, ◌⊎◌, some, if◌then◌else◌, inl, none, ltb, is_some, length, [],
  ◌∷◌, ◌==◌, ◌&&◌, inr, ◌||◌, ◌++◌, leb, true,
}
use my_t_companion.Base.Eq.{Bytes}
use my_t_companion.Push.{
  PushSubscriberStore, remove_outbox_except, PushSubscriberStatus, PushSubscriber,
  VehiclePushPreferences, push_status_paused, other_status, max_push_subscribers,
  push_status_active,
}
use my_t_companion.Push.Subscribers.{
  find, change_first, is_subscriber, oldest_paused_subscriber_index, remove_subscriber_at,
  prune_expired_paused,
}
use my_t_companion.Push.Preferences.{normalize_vehicle_push_preferences, PreferencesError}

pub record PushPairRequest : Type 0 where
  pub installation_id : Bytes
  pub source_id : Bytes
  pub relay_url : Bytes
  pub relay_secret : Bytes
  pub status : Bytes
  pub mode : Bytes
  pub software_update : Option Bool
  pub lock_secure : Option Bool
  pub charging_live_activity : Option Bool
  pub navigation_live_activity : Option Bool
  pub navigation_trip_alerts : Option Bool
  pub low_battery : Option Bool
  pub vehicle_preferences : Option (List VehiclePushPreferences)

pub data PairError : Type 0 where
  missing_pairing_values invalid_installation_id invalid_relay_secret : PairError
  untrusted_relay_url invalid_source_id subscriber_limit : PairError
  bad_preferences : PreferencesError → PairError

-- `isTrustedSoftwarePushRelayURL` of notification.go
unfoldable pub is_trusted_software_push_relay_url : Bytes → Bool
is_trusted_software_push_relay_url raw =
    text_is (trim_space raw) "https://push.my-tesla.app/v1/events"

abbrev has_bytes : ℕ → Option Bytes → Bool
has_bytes n none = false
has_bytes n (some bytes) = length bytes == n

-- A subscriber that a message may go to.
unfoldable pub valid_push_subscriber : PushSubscriber → Bool
unfolding is_trusted_software_push_relay_url
valid_push_subscriber s =
    length s.installation_id == 48
    && leb (length (trim_space s.source_id)) 80
    && is_trusted_software_push_relay_url s.relay_url
    && is_some (hex_decode s.installation_id)
    && has_bytes 32 (hex_decode s.relay_secret)
    && elim s.status [ other_status ↦ false | _ ↦ true ]

-- The checks on a request before the lock is taken; `none` is no error.
unfoldable pub check_request : PushPairRequest → Option PairError
unfolding is_trusted_software_push_relay_url
check_request req =
    if not (length req.installation_id == 48)
    then some missing_pairing_values
    else if not (is_some (hex_decode req.installation_id))
    then some invalid_installation_id
    else if not (has_bytes 32 (hex_decode req.relay_secret))
    then some invalid_relay_secret
    else if not (is_trusted_software_push_relay_url req.relay_url)
    then some untrusted_relay_url
    else if ltb 80 (length (trim_space req.source_id))
    then some invalid_source_id
    else none

-- The normalized preferences of a request that has some.
unfoldable pub requested_preferences :
    Option (List VehiclePushPreferences) → PairError ⊎ Option (List VehiclePushPreferences)
unfolding normalize_vehicle_push_preferences
requested_preferences none = inr none
requested_preferences (some values) = elim (normalize_vehicle_push_preferences values) [
  | inl e ↦ inl (bad_preferences e)
  | inr ps ↦ inr (some ps)
]

abbrev pub is_replace : PushPairRequest → Bool
is_replace req = text_is (lower_text (trim_space req.mode)) "replace"

abbrev request_status : PushPairRequest → PushSubscriberStatus
request_status req =
    if text_is (lower_text (trim_space req.status)) "paused"
    then push_status_paused
    else push_status_active

abbrev or_else : Option Bool → Bool → Bool
or_else none old = old
or_else (some new) old = new

abbrev pub new_subscriber : Bytes → PushSubscriber
new_subscriber installation = record {
  installation_id = installation;
  source_id = [];
  relay_url = [];
  relay_secret = [];
  status = other_status;
  software_update = false;
  lock_secure = false;
  charging_live_activity = false;
  navigation_live_activity = false;
  navigation_trip_alerts = false;
  low_battery = false;
  vehicle_preferences = [];
  updated_at = none;
  last_seen_at = none;
}

-- An old request with the pairing fields only turns the first events on.
abbrev legacy_default : Bool → PushPairRequest → Bool
legacy_default known req = not (is_some req.software_update) && not known

unfoldable pub apply_request :
    PushPairRequest
    → Option (List VehiclePushPreferences)
    → Bool
    → Time
    → PushSubscriber
    → PushSubscriber
apply_request req preferences known now sub = record sub {
  relay_url = req.relay_url;
  relay_secret = req.relay_secret;
  source_id = trim_space req.source_id;
  status = request_status req;
  updated_at = stamp_seconds now;
  last_seen_at = stamp_seconds now;
  software_update = legacy_default known req || or_else req.software_update sub.software_update;
  lock_secure = or_else req.lock_secure sub.lock_secure;
  charging_live_activity =
      or_else req.charging_live_activity (legacy_default known req || sub.charging_live_activity);
  navigation_live_activity =
      or_else req.navigation_live_activity
        (legacy_default known req || sub.navigation_live_activity);
  navigation_trip_alerts = or_else req.navigation_trip_alerts sub.navigation_trip_alerts;
  low_battery = or_else req.low_battery sub.low_battery;
  vehicle_preferences = elim preferences [ none ↦ sub.vehicle_preferences | some ps ↦ ps ];
}

unfoldable pub free_seat : PushSubscriberStore → Option ℕ → PairError ⊎ PushSubscriberStore
unfolding remove_subscriber_at
free_seat s none = inl subscriber_limit
free_seat s (some index) = inr (remove_subscriber_at index s)

-- A seat for a phone that joins: the oldest paused one goes when all seats are taken.
unfoldable pub make_room : PushSubscriberStore → PairError ⊎ PushSubscriberStore
unfolding oldest_paused_subscriber_index free_seat
make_room s =
    if ltb (length s.subscribers) max_push_subscribers
    then inr s
    else free_seat s (oldest_paused_subscriber_index s.subscribers)

-- The phone is added to the store in which it has a seat.
unfoldable pub join :
    PushSubscriber
    → PushSubscriberStore
    → PairError ⊎ PushSubscriberStore
    → PushSubscriberStore × Option PairError
join sub s (inl e) = (s, some e)
join sub s (inr r) = (record r { subscribers = r.subscribers ++ sub ∷ [] }, none)

-- What a replacing phone starts from.
abbrev pub known_or : PushSubscriber → Option PushSubscriber → PushSubscriber
known_or fresh none = fresh
known_or fresh (some old) = old

-- The three ways to write the subscriber, by the mode and whether it is known.
unfoldable pub write_subscriber :
    PushPairRequest
    → Option (List VehiclePushPreferences)
    → Time
    → PushSubscriberStore
    → PushSubscriberStore × Option PairError
unfolding apply_request make_room find change_first remove_outbox_except join
write_subscriber req preferences now s =
    let found = find (is_subscriber req.installation_id) s.subscribers in
    let fresh = new_subscriber req.installation_id in
    let sub = apply_request req preferences (is_some found) now (known_or fresh found) in
    if is_replace req
    then (remove_outbox_except req.installation_id (record s { subscribers = sub ∷ [] }), none)
    else if is_some found
    then (
      record s {
        subscribers = change_first (is_subscriber req.installation_id) (λ old. sub) s.subscribers;
      },
      none,
    )
    else join sub s (make_room s)

unfoldable pub upsert_checked :
    PushPairRequest
    → Time
    → PushSubscriberStore
    → PairError ⊎ Option (List VehiclePushPreferences)
    → PushSubscriberStore × Option PairError
unfolding write_subscriber prune_expired_paused
upsert_checked req now s (inl e) = (s, some e)
upsert_checked req now s (inr preferences) =
    write_subscriber req preferences now (prune_expired_paused now s)

-- `none` is success. Expired paused phones are dropped before the request is served, even if it then finds no seat.
unfoldable pub upsert :
    PushPairRequest → Time → PushSubscriberStore → PushSubscriberStore × Option PairError
unfolding check_request requested_preferences upsert_checked
upsert req now s = elim (check_request req) [
  | some e ↦ (s, some e)
  | none ↦ upsert_checked req now s (requested_preferences req.vehicle_preferences)
]
