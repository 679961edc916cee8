-- ===== src/Push.antt =====
-- The registry of phones that get push messages, and its outbox of messages to send again
-- (push_subscribers.go). The mutex makes each operation one step. Saving the file is taken to succeed.
pub mod Sessions
pub mod Preferences
pub mod Subscribers
pub mod Pairing
pub mod Outbox
pub mod Post
pub mod Retry
pub mod Delivery
pub mod Sizes
pub mod Trace
pub mod Purge
pub mod Tests
use my_t_companion.Base.Clock.{minutes, Stamp, seconds, hours}
use my_t_companion.Base.Eq.{Bytes, bytes_eq}
use my_t_companion.Base.Int.{ℤ}
use my_t_companion.Base.{List, ℕ, Bool, keep, ◌*◌, ◌++◌, true, not, ◌∷◌, false, [], ◌==◌, ◌&&◌}

abbrev pub max_push_subscribers : ℕ
max_push_subscribers = 8

abbrev pub max_push_outbox_items : ℕ
max_push_outbox_items = 256

abbrev pub max_vehicle_push_preference_items : ℕ
max_vehicle_push_preference_items = 32

abbrev pub paused_push_subscriber_retention : ℕ
paused_push_subscriber_retention = hours (365 * 24)

abbrev pub default_push_retry_delay : ℕ
default_push_retry_delay = seconds 2

abbrev pub max_push_retry_delay : ℕ
max_push_retry_delay = minutes 15

-- `other_status` is any other text of a stored file.
pub data PushSubscriberStatus : Type 0 where
  push_status_active push_status_paused other_status : PushSubscriberStatus

pub record VehiclePushPreferences : Type 0 where
  pub car_id : ℤ
  pub software_update : Bool
  pub lock_secure : Bool
  pub charging_live_activity : Bool
  pub navigation_live_activity : Bool
  pub navigation_trip_alerts : Bool
  pub low_battery : Bool

-- `car_ids` is always empty and left out.
pub record PushSubscriber : Type 0 where
  pub installation_id : Bytes
  pub source_id : Bytes
  pub relay_url : Bytes
  pub relay_secret : Bytes
  pub status : PushSubscriberStatus
  pub software_update : Bool
  pub lock_secure : Bool
  pub charging_live_activity : Bool
  pub navigation_live_activity : Bool
  pub navigation_trip_alerts : Bool
  pub low_battery : Bool
  pub vehicle_preferences : List VehiclePushPreferences
  pub updated_at : Stamp
  pub last_seen_at : Stamp

pub data PushDeliveryOutcome : Type 0 where
  apns_accepted queued awaiting_token expired failed : PushDeliveryOutcome

pub record QueuedPush : Type 0 where
  pub id : Bytes
  pub installation_id : Bytes
  pub payload : Bytes
  pub event_type : Bytes
  pub session_id : Bytes
  pub car_id : ℤ
  pub outcome : PushDeliveryOutcome
  pub attempts : ℕ
  pub created_at : Stamp
  pub next_attempt_at : Stamp
  pub expires_at : Stamp

-- `vehicle_namespace` takes no part in the operations.
pub record PushSubscriberStore : Type 0 where
  pub subscribers : List PushSubscriber
  pub outbox : List QueuedPush
  pub live_activity_sessions : List (Bytes × Stamp)

-- `strings.HasPrefix`
unfoldable pub has_prefix : Bytes → Bytes → Bool
has_prefix s [] = true
has_prefix [] (p ∷ ps) = false
has_prefix (c ∷ cs) (p ∷ ps) = c == p && has_prefix cs ps

-- The session records of an installation, whose key is `installation_id + ":" + …`.
abbrev pub is_session_of : Bytes → Bytes × Stamp → Bool
is_session_of installation e = has_prefix e.0 (installation ++ b':' ∷ [])

abbrev pub is_item_of : Bytes → QueuedPush → Bool
is_item_of installation item = bytes_eq item.installation_id installation

-- `removeOutboxForLocked`
unfoldable pub remove_outbox_for : Bytes → PushSubscriberStore → PushSubscriberStore
remove_outbox_for installation s = record s {
  outbox = keep (λ item. not (is_item_of installation item)) s.outbox;
  live_activity_sessions = keep (λ e. not (is_session_of installation e)) s.live_activity_sessions;
}

-- `removeOutboxExceptLocked`
unfoldable pub remove_outbox_except : Bytes → PushSubscriberStore → PushSubscriberStore
remove_outbox_except installation s = record s {
  outbox = keep (is_item_of installation) s.outbox;
  live_activity_sessions = keep (is_session_of installation) s.live_activity_sessions;
}
