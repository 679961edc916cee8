-- ===== src/Push/Trace.antt =====
-- Runs of the push registry (push_subscribers.go), and the sizes that hold in them.
use my_t_companion.Push.Post.{
  Attempt, PostResult, answered, no_longer_eligible, post_json, post_json-SameButSessions,
  transport_error,
}
use my_t_companion.Push.Outbox.{PushPayloadMetadata, enqueue}
use my_t_companion.Push.Sizes.{
  remove_item-Inv, pause-Inv, branch-Inv, unsubscribe-Inv, reschedule-Inv, reject-Inv, enqueue-Inv,
}
use my_t_companion.Push.Sizes.Joins.{upsert-Inv}
use my_t_companion.Push.Sizes.{Inv}
use my_t_companion.Base.Clock.{Time}
use my_t_companion.Base.{List, ◌∷◌, ℕ, not, [], ◌==◌, is_some, ◌||◌, subst, length, ◌≤◌, sym}
use my_t_companion.Push.{
  PushSubscriberStore, QueuedPush, Bytes, PushSubscriber, PushDeliveryOutcome, max_push_subscribers,
  max_push_outbox_items,
}
use my_t_companion.Push.Retry.{
  retry_due, retry_items, settle_item, retry_item, is_success, is_live, is_waiting,
  retryable_relay_status,
}
use my_t_companion.Push.Pairing.{PushPairRequest, upsert}
use my_t_companion.Push.Subscribers.{
  find, pause, unsubscribe, pause_invalid_subscriber, is_subscriber,
}

pub data Call : Type 0 where
  paired : PushPairRequest → Time → Call
  paused : Bytes → Time → Call
  unsubscribed : Bytes → Call
  rejected : Bytes → Time → Call
  enqueued : Bytes → PushPayloadMetadata → Bytes → ℕ → PushDeliveryOutcome → Time → Call
  retried : (QueuedPush → Attempt) → Time → Call

-- The registry after a call; `rejected` is a delivery that the relay answers with 404 or 410.
unfoldable pub step : Call → PushSubscriberStore → PushSubscriberStore
step (paired req now) s = (upsert req now s).0
step (paused installation now) s = (pause installation now s).0
step (unsubscribed installation) s = (unsubscribe installation s).0
step (rejected installation now) s = pause_invalid_subscriber installation now s
step (enqueued installation metadata payload retry_after outcome now) s =
    (enqueue installation metadata payload retry_after outcome now s).0
step (retried post now) s = retry_due post now s

unfoldable pub run : List Call → PushSubscriberStore → PushSubscriberStore
unfolding step
run [] s = s
run (k ∷ ks) s = run ks (step k s)

settle-Inv :
    (item : QueuedPush) (r : PostResult) (now : Time) (s : PushSubscriberStore)
    → Inv s
    → Inv (settle_item item r now s).0
unfolding settle_item
settle-Inv item no_longer_eligible now s i = remove_item-Inv item.id s i
settle-Inv item transport_error now s i = reschedule-Inv item.id now 0 s i
settle-Inv item (answered status wait pending) now s i =
    branch-Inv (is_success status) _ _ (remove_item-Inv item.id s i) (
      branch-Inv (status == 404 || status == 410) _ _ (reject-Inv item.installation_id now s i) (
        branch-Inv (not (retryable_relay_status status)) _ _ (remove_item-Inv item.id s i)
          (reschedule-Inv item.id now wait s i)))

post_json-Inv :
    (a : Attempt) (installation : Bytes) (s : PushSubscriberStore)
    → Inv s
    → Inv (post_json a installation s).0
post_json-Inv a installation s i =
    let same = post_json-SameButSessions a installation s in
    record {
      seats = subst (λ xs. length xs ≤ max_push_subscribers) (sym same.1) i.seats;
      room = subst (λ xs. length xs ≤ max_push_outbox_items) (sym same.0) i.room;
    }

item_turn-Inv :
    (post : QueuedPush → Attempt) (active : List PushSubscriber) (now : Time) (item : QueuedPush)
    (s : PushSubscriberStore)
    → Inv s
    → Inv (retry_item post active now item s).0
unfolding retry_item
item_turn-Inv post active now item s i =
    branch-Inv (not (is_live now item)) _ _ (remove_item-Inv item.id s i) (
      branch-Inv (is_waiting now item) _ _ i (
        branch-Inv (not (is_some (find (is_subscriber item.installation_id) active))) _ _
          (remove_item-Inv item.id s i)
          (settle-Inv item (post_json (post item) item.installation_id s).1 now
            (post_json (post item) item.installation_id s).0
            (post_json-Inv (post item) item.installation_id s i))))

items-Inv :
    (post : QueuedPush → Attempt) (active : List PushSubscriber) (now : Time)
    (items : List QueuedPush) (s : PushSubscriberStore)
    → Inv s
    → Inv (retry_items post active now items s)
unfolding retry_items
items-Inv post active now [] s i = i
items-Inv post active now (item ∷ items) s i =
    items-Inv post active now items _ (item_turn-Inv post active now item s i)

step-Inv : (k : Call) (s : PushSubscriberStore) → Inv s → Inv (step k s)
unfolding step retry_due
step-Inv (paired req now) s i = upsert-Inv req now s i
step-Inv (paused installation now) s i = pause-Inv installation now s i
step-Inv (unsubscribed installation) s i = unsubscribe-Inv installation s i
step-Inv (rejected installation now) s i = reject-Inv installation now s i
step-Inv (enqueued installation metadata payload wait outcome now) s i =
    enqueue-Inv installation metadata payload wait outcome now s i
step-Inv (retried post now) s i = items-Inv post _ now s.outbox s i

-- From any registry within its bounds, no sequence of pairings, pauses, removals, rejected deliveries,
-- enqueued messages and retry passes, whatever the relay answers, leaves more than 8 phones or more than
-- 256 messages in the outbox.
pub run-Inv : (ks : List Call) (s : PushSubscriberStore) → Inv s → Inv (run ks s)
unfolding run
run-Inv [] s i = i
run-Inv (k ∷ ks) s i = run-Inv ks (step k s) (step-Inv k s i)
