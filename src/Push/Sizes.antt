-- ===== src/Push/Sizes.antt =====
-- The sizes of the push registry (push_subscribers.go) under its operations on phones and on messages.
pub mod Joins
use my_t_companion.Base.Text.{is_blank, trim_space}
use my_t_companion.Base.Clock.{Time}
use my_t_companion.Base.Eq.{Bytes}
use my_t_companion.Base.{
  Bool, ℕ, List, arith, Option, subst, get_elem?, ◌<◌, [], if◌then◌else◌, length, length-keep, ◌≡◌,
  is_some, ◌≤◌, not, suc, true, some, length-append, ◌∷◌, none, ◌+◌, keep, ap, false, zero, refl,
  sym, ltb, max,
}
use my_t_companion.Push.Outbox.{
  change_item, enqueue, remove_outbox_item, reschedule_outbox_item, PushPayloadMetadata, new_item,
  item_id, replace_payload,
}
use my_t_companion.Push.{
  remove_outbox_for, PushSubscriberStore, QueuedPush, PushSubscriber, PushDeliveryOutcome,
  max_push_subscribers, max_push_outbox_items, default_push_retry_delay,
}
use my_t_companion.Push.Subscribers.{
  find, change_first, drop_at, oldest_paused_from, remove_subscriber_at, remove_found, prune_below,
  pause_invalid_subscriber, unsubscribe, pause, is_subscriber, retained_at,
  push_subscriber_activity_time,
}

abbrev pub empty_registry : PushSubscriberStore
empty_registry = record { subscribers = []; outbox = []; live_activity_sessions = [] }

-- At most 8 phones and 256 messages.
pub record Inv (s : PushSubscriberStore) : Type 0 where
  pub seats : length s.subscribers ≤ max_push_subscribers
  pub room : length s.outbox ≤ max_push_outbox_items

pub length-change_first :
    (p : PushSubscriber → Bool) (f : PushSubscriber → PushSubscriber) (ss : List PushSubscriber)
    → length (change_first p f ss) ≡ length ss
unfolding change_first
length-change_first p f [] = refl
length-change_first p f (s ∷ ss) = ground (arith, length-change_first p f ss)

pub length-change_item :
    (id : Bytes) (f : QueuedPush → QueuedPush) (items : List QueuedPush)
    → length (change_item id f items) ≡ length items
unfolding change_item
length-change_item id f [] = refl
length-change_item id f (s ∷ ss) = ground (arith, length-change_item id f ss)

pub length-drop_at :
    (index : ℕ) (ss : List PushSubscriber)
    → index < length ss
    → suc (length (drop_at index ss)) ≡ length ss
length-drop_at index [] h = ground arith
length-drop_at zero (s ∷ ss) h = refl
length-drop_at (suc index) (s ∷ ss) h = ap suc (length-drop_at index ss (ground arith))

pub get_elem-some :
    (index : ℕ) (ss : List PushSubscriber)
    → (index < length ss)
    → is_some (get_elem? ss index) ≡ true
get_elem-some index [] h = ground arith
get_elem-some zero (s ∷ ss) h = refl
get_elem-some (suc index) (s ∷ ss) h = get_elem-some index ss (ground arith)

pub some-lt :
    (index : ℕ) (ss : List PushSubscriber) (x : PushSubscriber)
    → get_elem? ss index ≡ some x
    → index < length ss
some-lt index [] x h = ground arith
some-lt zero (s ∷ ss) x h = omega arith
some-lt (suc index) (s ∷ ss) x h = let r = some-lt index ss x h in omega arith

pub keep-room :
    (p : QueuedPush → Bool) (items : List QueuedPush)
    → length items ≤ max_push_outbox_items
    → length (keep p items) ≤ max_push_outbox_items
keep-room p items h = let shrinks = length-keep p items in omega arith

pub remove_for-Inv :
    (installation : Bytes) (s : PushSubscriberStore)
    → Inv s
    → Inv (remove_outbox_for installation s)
unfolding remove_outbox_for
remove_for-Inv installation s i = record { seats = i.seats; room = keep-room _ s.outbox i.room }

pub resized-Inv :
    (subs : List PushSubscriber) (s : PushSubscriberStore)
    → length subs ≤ max_push_subscribers
    → Inv s
    → Inv (record s { subscribers = subs })
resized-Inv subs s h i = record { seats = h; room = i.room }

pub chosen :
    (b : Bool) (index : ℕ) (activity : Time) (oldest : Option (ℕ × Time))
    → ((o : ℕ × Time) → oldest ≡ some o → o.0 < index)
    → (o : ℕ × Time) → (if b then some (index, activity) else oldest) ≡ some o
    → o.0 < index + 1
chosen true index activity oldest h o e = ground arith
chosen false index activity oldest h o e = let found = h o e in omega arith

-- One of two stores.
pub if-Inv : (b : Bool) (s r : PushSubscriberStore) → Inv s → Inv r → Inv (if b then s else r)
if-Inv true s r i j = i
if-Inv false s r i j = j

-- The index that is found, if any, is one of the list.
pub oldest-range :
    (index : ℕ) (oldest : Option (ℕ × Time)) (ss : List PushSubscriber) (r : ℕ × Time)
    → ((o : ℕ × Time) → oldest ≡ some o → o.0 < index)
    → oldest_paused_from index oldest ss ≡ some r
    → r.0 < index + length ss
unfolding oldest_paused_from
oldest-range index oldest [] r h e = let found = h r e in omega arith
oldest-range index oldest (s ∷ ss) r h e =
    let rest =
      oldest-range (index + 1) _ ss r (chosen _ index (push_subscriber_activity_time s) oldest h)
        e in
    omega arith

pub found-Inv :
    (index : ℕ) (s : PushSubscriberStore) (o : Option PushSubscriber)
    → get_elem? s.subscribers index ≡ o
    → Inv s
    → Inv (remove_found index s o)
unfolding remove_found
found-Inv index s none h i = i
found-Inv index s (some sub) h i =
    let shrinks = length-drop_at index s.subscribers (some-lt index s.subscribers sub h) in
    let seats = i.seats in
    remove_for-Inv sub.installation_id _
      (resized-Inv (drop_at index s.subscribers) s (omega arith) i)

pub remove_at-Inv :
    (index : ℕ) (s : PushSubscriberStore) → Inv s → Inv (remove_subscriber_at index s)
unfolding remove_subscriber_at
remove_at-Inv index s i = found-Inv index s (get_elem? s.subscribers index) refl i

pub prune-Inv :
    (now : Time) (index : ℕ) (s : PushSubscriberStore) → Inv s → Inv (prune_below now index s)
unfolding prune_below
prune-Inv now zero s i = i
prune-Inv now (suc index) s i =
    prune-Inv now index _
      (if-Inv (retained_at now (get_elem? s.subscribers index)) s _ i (remove_at-Inv index s i))

pub item-Inv :
    (id : Bytes) (f : QueuedPush → QueuedPush) (s : PushSubscriberStore)
    → Inv s
    → Inv (record s { outbox = change_item id f s.outbox })
item-Inv id f s i = record {
  seats = i.seats;
  room = subst (λ n. n ≤ max_push_outbox_items) (sym (length-change_item id f s.outbox)) i.room;
}

pub remove_item-Inv : (id : Bytes) (s : PushSubscriberStore) → Inv s → Inv (remove_outbox_item id s)
unfolding remove_outbox_item
remove_item-Inv id s i = record { seats = i.seats; room = keep-room _ s.outbox i.room }

pub reschedule-Inv :
    (id : Bytes) (now : Time) (wait : ℕ) (s : PushSubscriberStore)
    → Inv s
    → Inv (reschedule_outbox_item id now wait s)
unfolding reschedule_outbox_item
reschedule-Inv id now wait s i = item-Inv id _ s i

pub reject-Inv :
    (installation : Bytes) (now : Time) (s : PushSubscriberStore)
    → Inv s
    → Inv (pause_invalid_subscriber installation now s)
unfolding pause_invalid_subscriber
reject-Inv installation now s i = remove_for-Inv installation _ (
    resized-Inv _ s
      (subst (λ n. n ≤ max_push_subscribers) (sym (length-change_first _ _ s.subscribers)) i.seats)
      i)

pub enqueue-Inv :
    (installation : Bytes) (metadata : PushPayloadMetadata) (payload : Bytes) (wait : ℕ)
    (outcome : PushDeliveryOutcome) (now : Time) (s : PushSubscriberStore)
    → Inv s
    → Inv (enqueue installation metadata payload wait outcome now s).0
unfolding enqueue
enqueue-Inv installation metadata payload wait outcome now s i =
    let put = length-append s.outbox (
      new_item installation metadata payload now (max default_push_retry_delay wait) outcome
      ∷ []) in
    let same =
      length-change_item (item_id installation metadata)
        (replace_payload metadata payload (now + max default_push_retry_delay wait) outcome)
        s.outbox in
    record { seats = ground (arith, i.seats); room = ground (arith, i.room, put, same) }

-- One of two results.
pub branch-Inv {ℓ} :
    {E : Type ℓ} (b : Bool) (x y : PushSubscriberStore × E)
    → Inv x.0
    → Inv y.0
    → Inv (if b then x else y).0
branch-Inv true x y i j = i
branch-Inv false x y i j = j

pub paused_first-Inv :
    (installation : Bytes) (f : PushSubscriber → PushSubscriber) (s : PushSubscriberStore)
    → Inv s
    → Inv (record s { subscribers = change_first (is_subscriber installation) f s.subscribers })
paused_first-Inv installation f s i =
    resized-Inv _ s
      (subst (λ n. n ≤ max_push_subscribers) (sym (length-change_first _ _ s.subscribers)) i.seats)
      i

pub pause-Inv :
    (installation : Bytes) (now : Time) (s : PushSubscriberStore)
    → Inv s
    → Inv (pause installation now s).0
unfolding pause
pause-Inv installation now s i = branch-Inv (is_blank (trim_space installation)) _ _ i (
    branch-Inv (not (is_some (find (is_subscriber installation) s.subscribers))) _ _ i
      (remove_for-Inv installation _ (paused_first-Inv installation _ s i)))

pub empty-Inv : Inv empty_registry
empty-Inv = record { seats = omega arith; room = omega arith }

pub unsubscribe-Inv :
    (installation : Bytes) (s : PushSubscriberStore) → Inv s → Inv (unsubscribe installation s).0
unfolding unsubscribe
unsubscribe-Inv installation s i =
    let left = length-keep (λ x. not (is_subscriber installation x)) s.subscribers in
    let seats = i.seats in
    branch-Inv (is_blank (trim_space installation)) _ _
      (branch-Inv (ltb 1 (length s.subscribers)) _ _ i empty-Inv)
      (remove_for-Inv installation _ (resized-Inv _ s (omega arith) i))
