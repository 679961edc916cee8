-- ===== src/Push/Delivery.antt =====
-- The first attempt to deliver a message (push_subscribers.go, `deliverJSONResult`). What the request
-- finds is a parameter. No other call runs between the request and what its answer changes.
pub mod Kept
use my_t_companion.Push.Post.{
  Attempt, PostResult, answered, no_longer_eligible, post_json, transport_error,
}
use my_t_companion.Base.Text.{is_blank, trim_space}
use my_t_companion.Base.Int.{pos}
use my_t_companion.Base.Clock.{Time}
use my_t_companion.Base.Eq.{Bytes}
use my_t_companion.Base.{
  Option, ℕ, false, Bool, [], true, some, none, if◌then◌else◌, length, not, ◌==◌, ◌||◌, ltb,
}
use my_t_companion.Push.{
  PushDeliveryOutcome, PushSubscriber, failed, PushSubscriberStore, expired, queued, apns_accepted,
}
use my_t_companion.Push.Retry.{is_success, classify_relay_response, retryable_relay_status}
use my_t_companion.Push.Outbox.{enqueue, PushPayloadMetadata, OutboxError}
use my_t_companion.Push.Subscribers.{pause_invalid_subscriber}
use my_t_companion.Push.Pairing.{valid_push_subscriber}

-- The status is 0 where there is none; `error` is whether the source returns an error beside it.
pub record PushDeliveryResult : Type 0 where
  pub outcome : PushDeliveryOutcome
  pub status : ℕ
  pub error : Bool

abbrev delivery_failed : ℕ → PushDeliveryResult
delivery_failed status = record { outcome = failed; status = status; error = true }

abbrev pub payload_is_invalid : Bytes → Option PushPayloadMetadata → Bool
payload_is_invalid payload none = true
payload_is_invalid payload (some metadata) =
    length payload == 0
    || ltb 16384 (length payload)
    || is_blank (trim_space metadata.event_id)
    || is_blank (trim_space metadata.type)

unfoldable pub queued_result : PushDeliveryOutcome → ℕ → Option OutboxError → PushDeliveryResult
queued_result outcome status none = record { outcome = outcome; status = status; error = false }
queued_result outcome status (some e) = delivery_failed status

unfoldable pub queue_delivery :
    PushSubscriber
    → PushPayloadMetadata
    → Bytes
    → ℕ
    → PushDeliveryOutcome
    → ℕ
    → Time
    → PushSubscriberStore
    → PushSubscriberStore × PushDeliveryResult
unfolding enqueue queued_result
queue_delivery sub metadata payload retry_after outcome status now s =
    let (after, refused) = enqueue sub.installation_id metadata payload retry_after outcome now s in
    (after, queued_result outcome status refused)

unfoldable pub settle_delivery :
    PushSubscriber
    → PushPayloadMetadata
    → Bytes
    → PostResult
    → Time
    → PushSubscriberStore
    → PushSubscriberStore × PushDeliveryResult
unfolding queue_delivery classify_relay_response retryable_relay_status pause_invalid_subscriber
settle_delivery sub metadata payload no_longer_eligible now s =
    (s, record { outcome = expired; status = 0; error = false })
settle_delivery sub metadata payload transport_error now s =
    queue_delivery sub metadata payload 0 queued 0 now s
settle_delivery sub metadata payload (answered status retry_after token_pending) now s =
    if is_success status
    then (s, record { outcome = apns_accepted; status = status; error = false })
    else if retryable_relay_status status
    then queue_delivery sub metadata payload retry_after
        (classify_relay_response status token_pending) status now s
    else if status == 404 || status == 410
    then (pause_invalid_subscriber sub.installation_id now s, delivery_failed status)
    else (s, delivery_failed status)

abbrev pub or_no_metadata : Option PushPayloadMetadata → PushPayloadMetadata
or_no_metadata none = record {
  installation_id = [];
  source_id = [];
  event_id = [];
  type = [];
  session_id = [];
  car_id = pos 0;
}
or_no_metadata (some metadata) = metadata

unfoldable pub deliver_json_result :
    PushSubscriber
    → Bytes
    → Attempt
    → Time
    → PushSubscriberStore
    → PushSubscriberStore × PushDeliveryResult
unfolding settle_delivery valid_push_subscriber post_json
deliver_json_result sub payload a now s =
    if not (valid_push_subscriber sub)
    then (s, delivery_failed 0)
    else if payload_is_invalid payload a.parsed
    then (s, delivery_failed 0)
    else (let (after, answer) = post_json a sub.installation_id s in
        settle_delivery sub (or_no_metadata a.parsed) payload answer now after)
