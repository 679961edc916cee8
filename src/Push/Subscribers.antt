-- ===== src/Push/Subscribers.antt =====
-- Finding, pausing and removing phones (push_subscribers.go).
use my_t_companion.Base.Text.{is_blank, trim_space}
use my_t_companion.Push.{
  remove_outbox_for, PushSubscriber, push_status_paused, PushSubscriberStore, push_status_active,
  paused_push_subscriber_retention,
}
use my_t_companion.Base.Eq.{Bytes, bytes_eq}
use my_t_companion.Base.{
  ℕ, List, take, Option, Bool, length, ◌++◌, none, true, ◌∷◌, not, get_elem?, suc, some,
  if◌then◌else◌, ◌||◌, max, ltb, false, [], zero, drop, ◌==◌, ◌+◌, keep, ◌&&◌, is_some, leb,
}
use my_t_companion.Base.Clock.{Time, Stamp, stamp_seconds}

abbrev pub is_subscriber : Bytes → PushSubscriber → Bool
is_subscriber installation s = bytes_eq s.installation_id installation

abbrev pub is_paused : PushSubscriber → Bool
is_paused s = elim s.status [ push_status_paused ↦ true | _ ↦ false ]

abbrev pub is_active : PushSubscriber → Bool
is_active s = elim s.status [ push_status_active ↦ true | _ ↦ false ]

-- The first entry that a test holds of: what `indexLocked` finds.
unfoldable pub find : (PushSubscriber → Bool) → List PushSubscriber → Option PushSubscriber
find p [] = none
find p (s ∷ ss) = if p s then some s else find p ss

-- A change of the first entry that a test holds of.
unfoldable pub change_first :
    (PushSubscriber → Bool)
    → (PushSubscriber → PushSubscriber)
    → List PushSubscriber
    → List PushSubscriber
change_first p f [] = []
change_first p f (s ∷ ss) = if p s then f s ∷ ss else s ∷ change_first p f ss

abbrev later : Time → Stamp → Time
later latest none = latest
later latest (some t) = max latest t

-- `pushSubscriberActivityTime`; 0 is Go's zero time.
unfoldable pub push_subscriber_activity_time : PushSubscriber → Time
push_subscriber_activity_time s = later (later 0 s.last_seen_at) s.updated_at

abbrev is_older : Time → Option (ℕ × Time) → Bool
is_older activity none = true
is_older activity (some (index, oldest)) = ltb activity oldest

-- `oldestPausedSubscriberIndexLocked`: the index of the first paused entry with the least activity time.
unfoldable pub oldest_paused_from : ℕ → Option (ℕ × Time) → List PushSubscriber → Option (ℕ × Time)
oldest_paused_from index oldest [] = oldest
oldest_paused_from index oldest (s ∷ ss) =
    let activity = push_subscriber_activity_time s in
    let better = is_older activity oldest in
    oldest_paused_from (index + 1)
      (if is_paused s && better then some (index, activity) else oldest) ss

unfoldable pub oldest_paused_subscriber_index : List PushSubscriber → Option ℕ
unfolding oldest_paused_from
oldest_paused_subscriber_index ss = elim (oldest_paused_from 0 none ss) [
  | none ↦ none
  | some o ↦ some o.0
]

abbrev pub drop_at : ℕ → List PushSubscriber → List PushSubscriber
drop_at index ss = take index ss ++ drop (suc index) ss

unfoldable pub remove_found : ℕ → PushSubscriberStore → Option PushSubscriber → PushSubscriberStore
unfolding remove_outbox_for
remove_found index s none = s
remove_found index s (some sub) =
    remove_outbox_for sub.installation_id (record s { subscribers = drop_at index s.subscribers })

-- `removeSubscriberAtLocked`
unfoldable pub remove_subscriber_at : ℕ → PushSubscriberStore → PushSubscriberStore
unfolding remove_found
remove_subscriber_at index s = remove_found index s (get_elem? s.subscribers index)

-- Kept by `pruneExpiredPausedLocked`.
unfoldable pub is_retained : Time → PushSubscriber → Bool
unfolding push_subscriber_activity_time
is_retained now s =
    let activity = push_subscriber_activity_time s in
    not (is_paused s)
    || (not (activity == 0) && leb now (activity + paused_push_subscriber_retention))

abbrev pub retained_at : Time → Option PushSubscriber → Bool
retained_at now none = true
retained_at now (some sub) = is_retained now sub

-- `index` counts down from the end, as in the source.
unfoldable pub prune_below : Time → ℕ → PushSubscriberStore → PushSubscriberStore
unfolding is_retained remove_subscriber_at
prune_below now zero s = s
prune_below now (suc index) s =
    prune_below now index
      (if retained_at now (get_elem? s.subscribers index) then s else remove_subscriber_at index s)

unfoldable pub prune_expired_paused : Time → PushSubscriberStore → PushSubscriberStore
unfolding prune_below
prune_expired_paused now s = prune_below now (length s.subscribers) s

pub data RegistryError : Type 0 where
  missing_installation need_installation_id : RegistryError

abbrev pub set_paused : Time → PushSubscriber → PushSubscriber
set_paused now s = record s { status = push_status_paused; updated_at = stamp_seconds now }

-- `none` is success.
unfoldable pub pause :
    Bytes → Time → PushSubscriberStore → PushSubscriberStore × Option RegistryError
unfolding remove_outbox_for change_first find
pause installation now s =
    if is_blank (trim_space installation)
    then (s, some missing_installation)
    else if not (is_some (find (is_subscriber installation) s.subscribers))
    then (s, none)
    else (
      remove_outbox_for installation (record s {
        subscribers = change_first (is_subscriber installation) (set_paused now) s.subscribers;
      }),
      none,
    )

unfoldable pub unsubscribe :
    Bytes → PushSubscriberStore → PushSubscriberStore × Option RegistryError
unfolding remove_outbox_for
unsubscribe installation s =
    if is_blank (trim_space installation)
    then (if ltb 1 (length s.subscribers)
        then (s, some need_installation_id)
        else (record { subscribers = []; outbox = []; live_activity_sessions = [] }, none))
    else (
      remove_outbox_for installation
          (record s { subscribers = keep (λ x. not (is_subscriber installation x)) s.subscribers }),
      none,
    )

-- `pauseInvalidSubscriber`, after the relay no longer knows the phone.
unfoldable pub pause_invalid_subscriber : Bytes → Time → PushSubscriberStore → PushSubscriberStore
unfolding remove_outbox_for change_first
pause_invalid_subscriber installation now s = remove_outbox_for installation (record s {
  subscribers = change_first (is_subscriber installation) (set_paused now) s.subscribers;
})
