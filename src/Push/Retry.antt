-- ===== src/Push/Retry.antt =====
-- Sending the messages of the outbox again (push_subscribers.go, `retryDue`). What each request finds
-- is a parameter. No other call runs between the turns of a pass.
pub mod Unexpired
use my_t_companion.Push.Post.{
  PostResult, Attempt, post_json, answered, no_longer_eligible, transport_error,
}
use my_t_companion.Base.Int.{negsuc, pos}
use my_t_companion.Base.Text.{parse_int, trim_space}
use my_t_companion.Push.{
  QueuedPush, PushSubscriberStore, PushSubscriber, PushDeliveryOutcome, apns_accepted, expired,
  queued, awaiting_token, failed, max_push_retry_delay,
}
use my_t_companion.Base.{
  ℕ, List, Bool, ◌==◌, leb, Option, none, keep, ◌∷◌, ◌&&◌, ◌||◌, false, some, if◌then◌else◌, not,
  ltb, [], is_some, ◌^◌,
}
use my_t_companion.Base.Eq.{Bytes}
use my_t_companion.Base.Clock.{Time, seconds}
use my_t_companion.Push.Subscribers.{find, is_subscriber, is_active, pause_invalid_subscriber}
use my_t_companion.Push.Outbox.{reschedule_outbox_item, remove_outbox_item}

-- `relayRetryAfter`; a number that does not fit an `int` is an error of `strconv.Atoi`
unfoldable pub relay_retry_after : Bytes → ℕ
relay_retry_after raw = elim (parse_int (trim_space raw)) [
  | none ↦ 0
  | some (negsuc n) ↦ 0
  | some (pos n) ↦
      if leb (2 ^ 63) n then 0 else if leb 900 n then max_push_retry_delay else seconds n
]

unfoldable pub retryable_relay_status : ℕ → Bool
retryable_relay_status status = status == 0 || status == 409 || status == 429 || leb 500 status

abbrev pub is_success : ℕ → Bool
is_success status = leb 200 status && ltb status 300

unfoldable pub classify_relay_response : ℕ → Bool → PushDeliveryOutcome
unfolding retryable_relay_status
classify_relay_response status token_pending =
    if is_success status
    then apns_accepted
    else if status == 409 && token_pending
    then awaiting_token
    else if retryable_relay_status status
    then queued
    else failed

-- The change of the store that an item's answer makes, and the outcome that the resolvers hear of.
unfoldable pub settle_item :
    QueuedPush
    → PostResult
    → Time
    → PushSubscriberStore
    → PushSubscriberStore × Option PushDeliveryOutcome
unfolding retryable_relay_status classify_relay_response remove_outbox_item pause_invalid_subscriber
    reschedule_outbox_item
settle_item item no_longer_eligible now s = (remove_outbox_item item.id s, some expired)
settle_item item transport_error now s = (reschedule_outbox_item item.id now 0 s, some queued)
settle_item item (answered status retry_after token_pending) now s =
    if is_success status
    then (remove_outbox_item item.id s, some apns_accepted)
    else if status == 404 || status == 410
    then (pause_invalid_subscriber item.installation_id now s, some failed)
    else if not (retryable_relay_status status)
    then (remove_outbox_item item.id s, some failed)
    else (
      reschedule_outbox_item item.id now retry_after s,
      some (classify_relay_response status token_pending),
    )

abbrev pub is_live : Time → QueuedPush → Bool
is_live now item = elim item.expires_at [ none ↦ false | some t ↦ ltb now t ]

abbrev pub is_waiting : Time → QueuedPush → Bool
is_waiting now item = elim item.next_attempt_at [ none ↦ false | some t ↦ ltb now t ]

-- One turn of the loop. `active` holds the phones that were active when the pass began.
unfoldable pub retry_item :
    (QueuedPush → Attempt)
    → List PushSubscriber
    → Time
    → QueuedPush
    → PushSubscriberStore
    → PushSubscriberStore × Option PushDeliveryOutcome
unfolding settle_item remove_outbox_item find post_json
retry_item post active now item s =
    if not (is_live now item)
    then (remove_outbox_item item.id s, some expired)
    else if is_waiting now item
    then (s, none)
    else if not (is_some (find (is_subscriber item.installation_id) active))
    then (remove_outbox_item item.id s, none)
    else (let (after, result) = post_json (post item) item.installation_id s in
        settle_item item result now after)

unfoldable pub retry_items :
    (QueuedPush → Attempt)
    → List PushSubscriber
    → Time
    → List QueuedPush
    → PushSubscriberStore
    → PushSubscriberStore
unfolding retry_item
retry_items post active now [] s = s
retry_items post active now (item ∷ items) s =
    retry_items post active now items (retry_item post active now item s).0

-- The pass works on copies of the outbox and of the subscribers.
unfoldable pub retry_due : (QueuedPush → Attempt) → Time → PushSubscriberStore → PushSubscriberStore
unfolding retry_items
retry_due post now s = retry_items post (keep is_active s.subscribers) now s.outbox s
