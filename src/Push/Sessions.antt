-- ===== src/Push/Sessions.antt =====
-- Which phone may still be sent a message, and the sessions whose end a phone may hear of
-- (push_subscribers.go).
pub mod Authorized
pub mod Tests
pub mod Cleanup
use my_t_companion.Base.Maps.{insert, lookup, or_zero}
use my_t_companion.Push.Subscribers.{is_active, find, is_subscriber}
use my_t_companion.Storage.{prune_timestamp_map, timestamp_is_older_than}
use my_t_companion.Push.Pairing.{valid_push_subscriber}
use my_t_companion.Push.Outbox.{PushPayloadMetadata}
use my_t_companion.Base.Text.{lower_text, trim_space, is_blank}
use my_t_companion.Base.{
  ℕ, Bool, List, keep, Option, not, ◌++◌, [], if◌then◌else◌, true, ◌&&◌, ◌||◌, false, none, ◌∷◌,
  some,
}
use my_t_companion.Push.Preferences.{
  Feature, push_event_feature, subscriber_wants_push_feature, charging_live_activity_feature,
  no_feature, navigation_live_activity_feature,
}
use my_t_companion.Push.{PushSubscriber, PushSubscriberStore}
use my_t_companion.Base.Int.{ℤ, ltb_ℤ, pos}
use my_t_companion.Base.Clock.{Time, hours, Stamp, stamp_seconds}
use my_t_companion.Base.Eq.{Bytes, bytes_key, bytes_eq}

-- What is read elsewhere: the digest of the parts of a session's key, whether a car belongs to the fleet,
-- whether the monitors know the session of a message, and whether a charging message is still current
-- (true without a charging monitor).
pub record Surroundings : Type 0 where
  pub digest : Bytes → ℤ → Feature → Bytes → Bytes
  pub mqtt_car_eligible : ℤ → Bool
  pub monitor_knows_live_activity_session : PushSubscriber → PushPayloadMetadata → Feature → Bool
  pub charging_payload_current : PushSubscriber → PushPayloadMetadata → Bool
  pub scoped_live_activity_session_id : Bytes → Bytes → Feature → Bytes

abbrev pub charging_transient_maximum_age : ℕ
charging_transient_maximum_age = hours 48

abbrev pub max_live_activity_sessions : ℕ
max_live_activity_sessions = 1024

abbrev pub normal_source : Bytes → Bytes
normal_source source = lower_text (trim_space source)

unfoldable pub live_activity_authorization_key :
    Surroundings → PushSubscriber → PushPayloadMetadata → Feature → Bytes
live_activity_authorization_key around sub metadata feature =
    sub.installation_id
    ++ b':'
      ∷ around.digest (normal_source sub.source_id) metadata.car_id feature metadata.session_id

abbrev pub is_live_activity : Feature → Bool
is_live_activity charging_live_activity_feature = true
is_live_activity navigation_live_activity_feature = true
is_live_activity _ = false

abbrev is_no_feature : Feature → Bool
is_no_feature no_feature = true
is_no_feature _ = false

abbrev pub is_charging : Feature → Bool
is_charging charging_live_activity_feature = true
is_charging _ = false

-- `metadata` is addressed to the phone, and is about a car and a known kind of event.
abbrev pub is_addressed : Bytes → PushPayloadMetadata → Feature → Bool
is_addressed installation metadata feature =
    not (is_no_feature feature)
    && ltb_ℤ (pos 0) metadata.car_id
    && (is_blank metadata.installation_id || bytes_eq metadata.installation_id installation)

-- The phone is valid and active and of the source of the message.
abbrev pub is_its_source : PushSubscriber → PushPayloadMetadata → Bool
is_its_source sub metadata =
    valid_push_subscriber sub
    && is_active sub
    && bytes_eq (normal_source metadata.source_id) (normal_source sub.source_id)

unfoldable pub is_wanted : Surroundings → PushSubscriber → PushPayloadMetadata → Feature → Bool
is_wanted around sub metadata feature =
    subscriber_wants_push_feature sub metadata.car_id feature
    && around.mqtt_car_eligible metadata.car_id

-- The session was authorized in the last two days, or a monitor knows it.
unfoldable pub is_known_session :
    Surroundings
    → PushSubscriber
    → PushPayloadMetadata
    → Feature
    → Time
    → List (Bytes × Stamp)
    → Bool
is_known_session around sub metadata feature now sessions =
    let at =
      or_zero none
        (lookup (live_activity_authorization_key around sub metadata feature) sessions) in
    not (timestamp_is_older_than at now charging_transient_maximum_age)
    || around.monitor_knows_live_activity_session sub metadata feature

unfoldable pub may_receive :
    Surroundings
    → PushSubscriber
    → PushPayloadMetadata
    → Feature × Bool
    → Time
    → List (Bytes × Stamp)
    → Bool
unfolding is_wanted is_known_session
may_receive around sub metadata (feature, true) now sessions =
    not (is_blank (trim_space metadata.session_id))
    && (is_wanted around sub metadata feature
        || is_known_session around sub metadata feature now sessions)
may_receive around sub metadata (feature, false) now sessions =
    is_wanted around sub metadata feature
    && (not (is_charging feature) || around.charging_payload_current sub metadata)

-- `deliverySubscriber`; `none` where its Boolean is false
unfoldable pub delivery_subscriber :
    Surroundings → Bytes → PushPayloadMetadata → Time → PushSubscriberStore → Option PushSubscriber
unfolding may_receive
delivery_subscriber around installation metadata now s =
    let kind = push_event_feature metadata.type in
    if not (is_addressed installation metadata kind.0)
    then none
    else elim (find (is_subscriber installation) s.subscribers) [
      | none ↦ none
      | some sub ↦
          if is_its_source sub metadata
            && may_receive around sub metadata kind now s.live_activity_sessions
          then some sub
          else none
    ]

abbrev pub authorize :
    Surroundings
    → PushSubscriber
    → PushPayloadMetadata
    → Feature
    → Time
    → List (Bytes × Stamp)
    → List (Bytes × Stamp)
authorize around sub metadata feature now sessions =
    insert (live_activity_authorization_key around sub metadata feature) (stamp_seconds now)
      sessions

abbrev pub bound_sessions : Time → List (Bytes × Stamp) → List (Bytes × Stamp)
bound_sessions now sessions =
    prune_timestamp_map now charging_transient_maximum_age max_live_activity_sessions sessions

unfoldable pub remember_live_activity_session :
    Surroundings
    → PushSubscriber
    → PushPayloadMetadata
    → Time
    → PushSubscriberStore
    → PushSubscriberStore
remember_live_activity_session around sub metadata now s =
    let kind = push_event_feature metadata.type in
    if kind.1 || is_blank metadata.session_id || not (is_live_activity kind.0)
    then s
    else record s {
      live_activity_sessions =
          bound_sessions now (authorize around sub metadata kind.0 now s.live_activity_sessions);
    }

abbrev cleanup_metadata : Bytes → ℤ → PushPayloadMetadata
cleanup_metadata session car = record {
  installation_id = [];
  source_id = [];
  event_id = [];
  type = [];
  session_id = session;
  car_id = car;
}

-- Every active phone may hear of the end of the session.
unfoldable pub authorize_all :
    Surroundings
    → ℤ
    → Feature
    → Bytes
    → Time
    → List PushSubscriber
    → List (Bytes × Stamp)
    → List (Bytes × Stamp)
authorize_all around car activity session now [] sessions = sessions
authorize_all around car activity session now (sub ∷ subs) sessions =
    let its_session = around.scoped_live_activity_session_id session sub.source_id activity in
    authorize_all around car activity session now subs (
      if is_active sub && valid_push_subscriber sub
      then authorize around sub (cleanup_metadata its_session car) activity now sessions
      else sessions)

unfoldable pub remember_known_live_activity_cleanup :
    Surroundings → ℤ → Feature → Bytes → Time → PushSubscriberStore → PushSubscriberStore
unfolding authorize_all
remember_known_live_activity_cleanup around car feature session now s =
    if not (ltb_ℤ (pos 0) car) || is_blank (trim_space session) || not (is_live_activity feature)
    then s
    else record s {
      live_activity_sessions =
          bound_sessions now
            (authorize_all around car feature session now s.subscribers s.live_activity_sessions);
    }

-- `matching`; every phone wants every car.
unfoldable pub matching : (PushSubscriber → Bool) → PushSubscriberStore → List PushSubscriber
matching wanted s = keep (λ sub. is_active sub && wanted sub) s.subscribers
