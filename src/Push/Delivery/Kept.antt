-- ===== src/Push/Delivery/Kept.antt =====
-- A message that could not be delivered for now is not lost (push_subscribers.go).
use my_t_companion.Push.Post.{
  Attempt, PostResult, SameButSessions, answered, no_longer_eligible, post_json-SameButSessions,
  transport_error,
}
use my_t_companion.Push.Delivery.{
  deliver_json_result, queue_delivery, PushDeliveryResult, queued_result, settle_delivery,
  valid_push_subscriber, is_success, payload_is_invalid, classify_relay_response, post_json,
  or_no_metadata,
}
use my_t_companion.Push.Retry.{retryable_relay_status}
use my_t_companion.Base.Clock.{Time}
use my_t_companion.Push.{
  QueuedPush, PushDeliveryOutcome, PushSubscriberStore, max_push_outbox_items,
  default_push_retry_delay, PushSubscriber, failed, queued,
}
use my_t_companion.Base.{
  List, ℕ, ◌≡◌, none, some, ◌⊎◌, ◌++◌, ◌∷◌, [], Bool-cases, ◌≤◌, inl, inr, length, max,
  Option-cases, leb, arith, ap, true, ◌+◌, refl, leb→le, false, Bool, subst, ◌∙◌, sym, if_false,
  if_true,
}
use my_t_companion.Base.Eq.{Bytes, bytes_eq_refl, bytes_eq}
use my_t_companion.Push.Outbox.{
  find_item, enqueue, change_item, PushPayloadMetadata, item_id, push_outbox_full, has_id,
  replace_payload, new_item,
}

find_item-change_item :
    (id : Bytes) (f : QueuedPush → QueuedPush) (items : List QueuedPush) (item : QueuedPush)
    → ((x : QueuedPush) → (f x).id ≡ x.id)
    → find_item id items ≡ some item
    → find_item id (change_item id f items) ≡ some (f item)
unfolding find_item change_item
find_item-change_item id f [] item same h = absurd (cc)
find_item-change_item id f (x ∷ xs) item same h = elim (Bool-cases (has_id id x)) [
  | inl mine ↦
      let x_is : x ≡ item = ground (arith, h, mine) in
      rw (mine, ap (λ i. bytes_eq i id) (same x) ∙ mine) (ap (λ y. some (f y)) x_is)
  | inr other ↦
      rw (other, other) (find_item-change_item id f xs item same (ground (arith, other, h)))
]

find_item-append :
    (id : Bytes) (items : List QueuedPush) (item : QueuedPush)
    → find_item id items ≡ none
    → item.id ≡ id
    → find_item id (items ++ item ∷ []) ≡ some item
unfolding find_item
find_item-append id [] item missing mine = rw (mine, bytes_eq_refl id) refl
find_item-append id (x ∷ xs) item missing mine = elim (Bool-cases (has_id id x)) [
  | inl found ↦ absurd (ground (arith, found, missing))
  | inr other ↦ rw other (find_item-append id xs item (ground (arith, other, missing)) mine)
]

-- Under the identifier of a phone and an event the outbox holds the payload, for the phone, to be tried
-- again as what `outcome` says.
abbrev pub IsKept :
    Bytes → PushPayloadMetadata → Bytes → PushDeliveryOutcome → PushSubscriberStore → Type 0
IsKept installation metadata payload outcome s =
    (item : QueuedPush) × ((find_item (item_id installation metadata) s.outbox ≡ some item)
      × (item.payload ≡ payload)
      × (item.event_type ≡ metadata.type)
      × (item.outcome ≡ outcome))

-- Queueing a message puts it where it is found again; only a full outbox without it refuses, and then
-- nothing changes.
pub enqueue-IsKept :
    (installation : Bytes) (metadata : PushPayloadMetadata) (payload : Bytes) (retry_after : ℕ)
    (outcome : PushDeliveryOutcome) (now : Time) (s : PushSubscriberStore)
    → (((enqueue installation metadata payload retry_after outcome now s).1 ≡ none)
        × IsKept installation metadata payload outcome
            (enqueue installation metadata payload retry_after outcome now s).0)
      ⊎ ((enqueue installation metadata payload retry_after outcome now s
            ≡ (s, some push_outbox_full))
          × (find_item (item_id installation metadata) s.outbox ≡ none)
          × (max_push_outbox_items ≤ length s.outbox))
unfolding enqueue
enqueue-IsKept installation metadata payload retry_after outcome now s =
    let id = item_id installation metadata in
    let delay = max default_push_retry_delay retry_after in
    elim (Option-cases (find_item id s.outbox)) [
      | inr (item, found) ↦
          let changed = replace_payload metadata payload (now + delay) outcome in
          rw found (
            inl (
              refl,
              (
                changed item,
                (
                  find_item-change_item id changed s.outbox item (λ x. refl) found,
                  refl,
                  refl,
                  refl,
                ),
              ),
            ))
      | inl missing ↦ elim (Bool-cases (leb max_push_outbox_items (length s.outbox))) [
        | inl full ↦
            rw (missing, full)
              (inr (refl, refl, leb→le max_push_outbox_items (length s.outbox) full))
        | inr room ↦
            let new = new_item installation metadata payload now delay outcome in
            rw (missing, room)
              (inl (refl, (new, (find_item-append id s.outbox new missing refl, refl, refl, refl))))
      ]
    ]

-- The relay may take the message later.
unfoldable pub is_retryable : PostResult → Bool
unfolding retryable_relay_status
is_retryable no_longer_eligible = false
is_retryable transport_error = true
is_retryable (answered status retry_after token_pending) = retryable_relay_status status

-- Queueing after an attempt, and what it reports
abbrev pub IsKeptOrFailed :
    PushSubscriber
    → PushPayloadMetadata
    → Bytes
    → PushSubscriberStore
    → PushSubscriberStore × PushDeliveryResult
    → Type 0
IsKeptOrFailed sub metadata payload s after =
    ((after.1.error ≡ false) × IsKept sub.installation_id metadata payload after.1.outcome after.0)
    ⊎ ((after.1.error ≡ true)
        × (after.1.outcome ≡ failed)
        × SameButSessions s after.0
        × (max_push_outbox_items ≤ length s.outbox))

queue_delivery-IsKept :
    (sub : PushSubscriber) (metadata : PushPayloadMetadata) (payload : Bytes) (retry_after : ℕ)
    (outcome : PushDeliveryOutcome) (status : ℕ) (now : Time) (s : PushSubscriberStore)
    → IsKeptOrFailed sub metadata payload s
        (queue_delivery sub metadata payload retry_after outcome status now s)
unfolding queue_delivery queued_result
queue_delivery-IsKept sub metadata payload retry_after outcome status now s =
    elim (enqueue-IsKept sub.installation_id metadata payload retry_after outcome now s) [
      | inl (accepted, kept) ↦ rw accepted (inl (refl, kept))
      | inr (refused, missing, full) ↦ rw refused (inr (refl, refl, (refl, refl), full))
    ]

retryable-is_success :
    (status : ℕ) → retryable_relay_status status ≡ true → is_success status ≡ false
unfolding retryable_relay_status
retryable-is_success status again = ground arith

settle_delivery-answered :
    (sub : PushSubscriber) (metadata : PushPayloadMetadata) (payload : Bytes)
    (status retry_after : ℕ) (token_pending : Bool) (now : Time) (s : PushSubscriberStore)
    → retryable_relay_status status ≡ true
    → settle_delivery sub metadata payload (answered status retry_after token_pending) now s
      ≡ queue_delivery sub metadata payload retry_after
          (classify_relay_response status token_pending)
          status
          now
          s
unfolding settle_delivery
settle_delivery-answered sub metadata payload status retry_after token_pending now s again =
    if_false (is_success status) _ _ (retryable-is_success status again)
    ∙ if_true (retryable_relay_status status) _ _ again

settle_delivery-IsKept :
    (sub : PushSubscriber) (payload : Bytes) (metadata : PushPayloadMetadata) (answer : PostResult)
    (now : Time) (s : PushSubscriberStore)
    → is_retryable answer ≡ true
    → IsKeptOrFailed sub metadata payload s (settle_delivery sub metadata payload answer now s)
unfolding settle_delivery is_retryable
settle_delivery-IsKept sub payload metadata no_longer_eligible now s again = absurd (cc)
settle_delivery-IsKept sub payload metadata transport_error now s again =
    queue_delivery-IsKept sub metadata payload 0 queued 0 now s
settle_delivery-IsKept sub payload metadata (answered status retry_after token_pending) now s
      again =
    subst (IsKeptOrFailed sub metadata payload s)
      (sym (
        settle_delivery-answered sub metadata payload status retry_after token_pending now s again))
      (queue_delivery-IsKept sub metadata payload retry_after
        (classify_relay_response status token_pending) status now s)

-- What holds against the store that the request left holds against the one before it.
IsKeptOrFailed-before :
    (sub : PushSubscriber) (metadata : PushPayloadMetadata) (payload : Bytes)
    (s told : PushSubscriberStore) (after : PushSubscriberStore × PushDeliveryResult)
    → SameButSessions s told
    → IsKeptOrFailed sub metadata payload told after
    → IsKeptOrFailed sub metadata payload s after
IsKeptOrFailed-before sub metadata payload s told after same (inl kept) = inl kept
IsKeptOrFailed-before sub metadata payload s told after same (inr (bad, lost, same_too, full)) =
    inr (
      bad,
      lost,
      (same_too.0 ∙ same.0, same_too.1 ∙ same.1),
      subst (λ xs. max_push_outbox_items ≤ length xs) same.0 full,
    )

-- A valid message to a valid phone whose request the relay may take later is in the outbox afterwards, with
-- its payload and the outcome that is reported; or the outbox was full, it and the phones are as before (a
-- session that the request recorded stays), and the delivery reports an error.
pub deliver_json_result-IsKept :
    (sub : PushSubscriber) (payload : Bytes) (metadata : PushPayloadMetadata) (a : Attempt)
    (now : Time) (s : PushSubscriberStore)
    → a.parsed ≡ some metadata
    → valid_push_subscriber sub ≡ true
    → payload_is_invalid payload (some metadata) ≡ false
    → is_retryable (post_json a sub.installation_id s).1 ≡ true
    → IsKeptOrFailed sub metadata payload s (deliver_json_result sub payload a now s)
unfolding deliver_json_result
deliver_json_result-IsKept sub payload metadata a now s parsed good valid again =
    let (told, answer) = post_json a sub.installation_id s in
    let invalid : payload_is_invalid payload a.parsed ≡ false =
      ap (payload_is_invalid payload) parsed ∙ valid in
    let kept =
      IsKeptOrFailed-before sub metadata payload s told
        (settle_delivery sub metadata payload answer now told)
        (post_json-SameButSessions a sub.installation_id s)
        (settle_delivery-IsKept sub payload metadata answer now told again) in
    rw (good, invalid)
      (subst
        (λ o.
          IsKeptOrFailed sub metadata payload s
            (settle_delivery sub (or_no_metadata o) payload answer now told))
        (sym parsed) kept)
