-- ===== src/Push/Outbox.antt =====
-- The outbox (push_subscribers.go): putting a message in, moving its next attempt, taking it out.
pub mod Delays
use my_t_companion.Base.Text.{text_is}
use my_t_companion.Push.{
  PushDeliveryOutcome, PushSubscriberStore, QueuedPush, default_push_retry_delay,
  max_push_outbox_items, max_push_retry_delay,
}
use my_t_companion.Base.Int.{ℤ}
use my_t_companion.Base.{
  ℕ, ◌++◌, min, List, if◌then◌else◌, Option, ◌+◌, max, keep, ◌∷◌, Bool, ◌||◌, none, not, ◌^◌, [],
  some, ltb, ◌*◌, is_some, leb, length,
}
use my_t_companion.Base.Eq.{Bytes, bytes_eq}
use my_t_companion.Base.Clock.{Time, Stamp, stamp_seconds, minutes, seconds, hours}

pub record PushPayloadMetadata : Type 0 where
  pub installation_id : Bytes
  pub source_id : Bytes
  pub event_id : Bytes
  pub type : Bytes
  pub session_id : Bytes
  pub car_id : ℤ

unfoldable pub push_event_ttl : Bytes → ℕ
push_event_ttl event =
    if text_is event "charging_updated" || text_is event "navigation_updated"
    then minutes 10
    else if text_is event "charging_started" || text_is event "navigation_started"
    then minutes 30
    else if text_is event "destination_trip_started"
        || text_is event "destination_trip_arrived"
        || text_is event "vehicle_lock_secure"
        || text_is event "vehicle_low_battery"
        || text_is event "vehicle_low_battery_reminder"
        || text_is event "vehicle_low_battery_severe"
    then hours 1
    else if text_is event "charging_ended" || text_is event "navigation_ended"
    then hours 2
    else hours 24

abbrev pub has_id : Bytes → QueuedPush → Bool
has_id id item = bytes_eq item.id id

unfoldable pub find_item : Bytes → List QueuedPush → Option QueuedPush
find_item id [] = none
find_item id (item ∷ items) = if has_id id item then some item else find_item id items

-- A change of the first item with an identifier.
unfoldable pub change_item : Bytes → (QueuedPush → QueuedPush) → List QueuedPush → List QueuedPush
change_item id f [] = []
change_item id f (item ∷ items) =
    if has_id id item then f item ∷ items else item ∷ change_item id f items

abbrev pub item_id : Bytes → PushPayloadMetadata → Bytes
item_id installation metadata = installation ++ (b':' ∷ metadata.event_id)

-- The next attempt is only moved later.
abbrev pub postpone : Time → Stamp → Stamp
postpone next none = stamp_seconds next
postpone next (some current) = if ltb current next then stamp_seconds next else some current

abbrev pub replace_payload :
    PushPayloadMetadata → Bytes → Time → PushDeliveryOutcome → QueuedPush → QueuedPush
replace_payload metadata payload next outcome item = record item {
  payload = payload;
  event_type = metadata.type;
  session_id = metadata.session_id;
  car_id = metadata.car_id;
  outcome = outcome;
  next_attempt_at = postpone next item.next_attempt_at;
}

abbrev pub new_item :
    Bytes → PushPayloadMetadata → Bytes → Time → ℕ → PushDeliveryOutcome → QueuedPush
new_item installation metadata payload now delay outcome = record {
  id = item_id installation metadata;
  installation_id = installation;
  payload = payload;
  event_type = metadata.type;
  session_id = metadata.session_id;
  car_id = metadata.car_id;
  outcome = outcome;
  attempts = 0;
  created_at = stamp_seconds now;
  next_attempt_at = stamp_seconds (now + delay);
  expires_at = stamp_seconds (now + push_event_ttl metadata.type);
}

pub data OutboxError : Type 0 where
  push_outbox_full : OutboxError

-- `none` is success.
unfoldable pub enqueue :
    Bytes
    → PushPayloadMetadata
    → Bytes
    → ℕ
    → PushDeliveryOutcome
    → Time
    → PushSubscriberStore
    → PushSubscriberStore × Option OutboxError
unfolding find_item change_item
enqueue installation metadata payload retry_after outcome now s =
    let delay = max default_push_retry_delay retry_after in
    let id = item_id installation metadata in
    if is_some (find_item id s.outbox)
    then (
      record s {
        outbox = change_item id (replace_payload metadata payload (now + delay) outcome) s.outbox;
      },
      none,
    )
    else if leb max_push_outbox_items (length s.outbox)
    then (s, some push_outbox_full)
    else (
      record s {
        outbox = s.outbox ++ new_item installation metadata payload now delay outcome ∷ [];
      },
      none,
    )

-- The wait before the next attempt, after `attempt` attempts.
unfoldable pub retry_delay : ℕ → ℕ → ℕ
retry_delay attempt retry_after =
    min (max (2 ^ min attempt 8 * seconds 2) retry_after) max_push_retry_delay

unfoldable pub reschedule : Time → ℕ → QueuedPush → QueuedPush
unfolding retry_delay
reschedule now retry_after item = record item {
  attempts = item.attempts + 1;
  next_attempt_at = stamp_seconds (now + retry_delay (item.attempts + 1) retry_after);
}

-- `rescheduleOutboxItem`
unfoldable pub reschedule_outbox_item : Bytes → Time → ℕ → PushSubscriberStore → PushSubscriberStore
unfolding change_item reschedule
reschedule_outbox_item id now retry_after s = record s {
  outbox = change_item id (reschedule now retry_after) s.outbox;
}

-- `removeOutboxItem`
unfoldable pub remove_outbox_item : Bytes → PushSubscriberStore → PushSubscriberStore
remove_outbox_item id s = record s { outbox = keep (λ item. not (has_id id item)) s.outbox }
