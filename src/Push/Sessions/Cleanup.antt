-- ===== src/Push/Sessions/Cleanup.antt =====
-- A phone that was told of a session hears of its end (push_subscribers.go, `rememberLiveActivitySession`).
use my_t_companion.Storage.{timestamp_is_older_than}
use my_t_companion.Base.Maps.{
  IsMap, insert, lookup, length-insert_new, lookup-keep, length-insert_old, insert-IsMap,
  lookup-insert_self,
}
use my_t_companion.Storage.{is_kept, prune_timestamp_map}
use my_t_companion.Push.Sessions.{
  is_known_session, Time, Stamp, max_live_activity_sessions, bound_sessions, stamp_seconds,
  charging_transient_maximum_age, Surroundings, remember_live_activity_session, delivery_subscriber,
  PushSubscriber, PushPayloadMetadata, Feature, live_activity_authorization_key,
  PushSubscriberStore, push_event_feature, find, is_subscriber, is_live_activity, is_blank,
  is_addressed, is_its_source, trim_space, may_receive,
}
use my_t_companion.Base.{
  ℕ, ◌<◌, ◌/◌, List, length, ◌*◌, ◌≤◌, ◌+◌, ◌≡◌, arith, Option-cases, keep, leb, inl, true, some,
  inr, length-keep, refl, ◌∙◌, false, subst, sym,
}
use my_t_companion.Base.Eq.{Bytes, bytes_key}

floor_lt : (t : ℕ) → t < t / 1000000000 * 1000000000 + 1000000000
floor_lt t = omega arith

prune_timestamp_map-few :
    (now : Time) (age maximum : ℕ) (m : List (Bytes × Stamp))
    → length m ≤ maximum
    → prune_timestamp_map now age maximum m ≡ keep (is_kept now age) m
unfolding prune_timestamp_map
prune_timestamp_map-few now age maximum m few =
    let fits : leb (length (keep (is_kept now age) m)) maximum ≡ true =
      ground (arith, few, length-keep (is_kept now age) m) in
    rw fits refl

insert-few :
    (key : Bytes) (v : Stamp) (m : List (Bytes × Stamp))
    → length m < max_live_activity_sessions
    → length (insert key v m) ≤ max_live_activity_sessions
insert-few key v m few = elim (Option-cases (lookup key m)) [
  | inl missing ↦ omega (arith, few, length-insert_new key v m missing)
  | inr (w, found) ↦ omega (arith, few, length-insert_old key v w m found)
]

-- A record that is made is there.
bound_sessions-lookup :
    (key : Bytes) (at : Time) (m : List (Bytes × Stamp))
    → IsMap m
    → length m < max_live_activity_sessions
    → lookup key (bound_sessions at (insert key (stamp_seconds at) m)) ≡ some (stamp_seconds at)
unfolding is_kept
bound_sessions-lookup key at m unique few =
    let v = stamp_seconds at in
    let whole = insert key v m in
    let recent : is_kept at charging_transient_maximum_age (key, v) ≡ true =
      ground (arith, floor_lt at) in
    rw
      (prune_timestamp_map-few at charging_transient_maximum_age max_live_activity_sessions whole
        (insert-few key v m few))
      (lookup-keep (is_kept at charging_transient_maximum_age) key v whole
          (insert-IsMap key v m unique) (lookup-insert_self key v m)
        ∙ ground (arith, recent))

is_known_session-recent :
    (around : Surroundings) (sub : PushSubscriber) (metadata : PushPayloadMetadata)
    (activity : Feature) (at now : Time) (sessions : List (Bytes × Stamp))
    → lookup (live_activity_authorization_key around sub metadata activity) sessions
      ≡ some (stamp_seconds at)
    → now + 1000000000 ≤ at + charging_transient_maximum_age
    → is_known_session around sub metadata activity now sessions ≡ true
unfolding is_known_session timestamp_is_older_than
is_known_session-recent around sub metadata activity at now sessions found soon =
    rw found (ground (arith, floor_lt at, soon))

remember_live_activity_session-lookup :
    (around : Surroundings) (sub : PushSubscriber) (started : PushPayloadMetadata)
    (activity : Feature) (at : Time) (s : PushSubscriberStore)
    → IsMap s.live_activity_sessions
    → length s.live_activity_sessions < max_live_activity_sessions
    → push_event_feature started.type ≡ (activity, false)
    → is_live_activity activity ≡ true
    → is_blank started.session_id ≡ false
    → lookup
        (live_activity_authorization_key around sub started activity)
        (remember_live_activity_session around sub started at s).live_activity_sessions
      ≡ some (stamp_seconds at)
unfolding remember_live_activity_session
remember_live_activity_session-lookup around sub started activity at s unique few starts live
      named =
    rw (starts, named, live)
      (bound_sessions-lookup (live_activity_authorization_key around sub started activity) at
        s.live_activity_sessions unique few)

remember_live_activity_session-subscribers :
    (around : Surroundings) (sub : PushSubscriber) (started : PushPayloadMetadata) (at : Time)
    (s : PushSubscriberStore)
    → (remember_live_activity_session around sub started at s).subscribers ≡ s.subscribers
unfolding remember_live_activity_session
remember_live_activity_session-subscribers around sub started at s = ground arith

live_activity_authorization_key-same :
    (around : Surroundings) (sub : PushSubscriber) (a b : PushPayloadMetadata) (activity : Feature)
    → a.session_id ≡ b.session_id
    → a.car_id ≡ b.car_id
    → live_activity_authorization_key around sub a activity
      ≡ live_activity_authorization_key around sub b activity
unfolding live_activity_authorization_key
live_activity_authorization_key-same around sub a b activity session car = rw (session, car) refl

may_receive-known :
    (around : Surroundings) (sub : PushSubscriber) (metadata : PushPayloadMetadata)
    (activity : Feature) (now : Time) (sessions : List (Bytes × Stamp))
    → is_blank (trim_space metadata.session_id) ≡ false
    → is_known_session around sub metadata activity now sessions ≡ true
    → may_receive around sub metadata (activity, true) now sessions ≡ true
unfolding may_receive
may_receive-known around sub metadata activity now sessions session known =
    ground (arith, session, known)

-- A phone that was told of a session, while there was room for the record, hears of the session's end for
-- two days less a second, whether it wants such messages or not.
pub remember_live_activity_session-delivery_subscriber :
    (around : Surroundings) (sub : PushSubscriber) (started finished : PushPayloadMetadata)
    (activity : Feature) (at now : Time) (s : PushSubscriberStore)
    → IsMap s.live_activity_sessions
    → length s.live_activity_sessions < max_live_activity_sessions
    → find (is_subscriber sub.installation_id) s.subscribers ≡ some sub
    → push_event_feature started.type ≡ (activity, false)
    → push_event_feature finished.type ≡ (activity, true)
    → is_live_activity activity ≡ true
    → is_addressed sub.installation_id finished activity ≡ true
    → is_its_source sub finished ≡ true
    → finished.session_id ≡ started.session_id
    → finished.car_id ≡ started.car_id
    → is_blank started.session_id ≡ false
    → is_blank (trim_space finished.session_id) ≡ false
    → now + 1000000000 ≤ at + charging_transient_maximum_age
    → delivery_subscriber around sub.installation_id finished now
        (remember_live_activity_session around sub started at s)
      ≡ some sub
unfolding delivery_subscriber
remember_live_activity_session-delivery_subscriber around sub started finished activity at now s
      unique few found starts ends live addressed its same_session same_car named session soon =
    let after = remember_live_activity_session around sub started at s in
    let key = live_activity_authorization_key around sub finished activity in
    let record_found : lookup key after.live_activity_sessions ≡ some (stamp_seconds at) =
      subst (λ k. lookup k after.live_activity_sessions ≡ some (stamp_seconds at))
        (sym (
          live_activity_authorization_key-same around sub finished started activity same_session
            same_car))
        (remember_live_activity_session-lookup around sub started activity at s unique few starts
          live named) in
    let known =
      is_known_session-recent around sub finished activity at now after.live_activity_sessions
        record_found soon in
    let allowed : may_receive around sub finished (activity, true) now after.live_activity_sessions
        ≡ true =
      may_receive-known around sub finished activity now after.live_activity_sessions session
        known in
    rw
      (
        ends,
        addressed,
        remember_live_activity_session-subscribers around sub started at s,
        found,
        its,
        ends,
        allowed,
      )
      refl
