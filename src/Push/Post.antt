-- ===== src/Push/Post.antt =====
-- One request to the relay (push_subscribers.go, `postJSON`). The relay's answer and what `json.Unmarshal`
-- makes of the payload are parameters.
-- What `postJSON` returns. `token_pending` is whether the body's error is `live_activity_token_pending`.
use my_t_companion.Base.Text.{is_blank}
use my_t_companion.Push.Preferences.{push_event_feature}
use my_t_companion.Base.Clock.{Time}
use my_t_companion.Push.Outbox.{PushPayloadMetadata}
use my_t_companion.Base.{
  ℕ, Option, Bool, Option-cases, ◌≡◌, none, if◌then◌else◌, inl, some, Bool-cases, inr, is_some,
  ◌||◌, refl, ◌&&◌, not,
}
use my_t_companion.Push.{PushSubscriberStore, PushSubscriber}
use my_t_companion.Base.Eq.{Bytes}
use my_t_companion.Push.Sessions.{
  delivery_subscriber, remember_live_activity_session, Surroundings, is_charging, is_live_activity,
}

pub data PostResult : Type 0 where
  no_longer_eligible transport_error : PostResult
  answered : (status retry_after : ℕ) → (token_pending : Bool) → PostResult

-- What becomes of the request
pub data RelayReply : Type 0 where
  no_reply : RelayReply
  replied : (status retry_after : ℕ) → (token_pending : Bool) → RelayReply

-- What a request finds: the payload's parts (`none` where it does not parse); whether the charging monitor
-- lets a charging delivery begin in time (true without one); what is read elsewhere when the phone is
-- resolved, and when it is checked again after the session is recorded; the clock; and the relay.
pub record Attempt : Type 0 where
  pub parsed : Option PushPayloadMetadata
  pub acquired : Bool
  pub first : Surroundings
  pub again : Surroundings
  pub at : Time
  pub reply : RelayReply

abbrev post_result : RelayReply → PostResult
post_result no_reply = transport_error
post_result (replied status retry_after token_pending) = answered status retry_after token_pending

-- The phone that was resolved hears of a new session before the request; it is checked again after that.
unfoldable pub post_resolved :
    Attempt
    → Bytes
    → PushPayloadMetadata
    → PushSubscriber
    → PushSubscriberStore
    → PushSubscriberStore × PostResult
unfolding remember_live_activity_session delivery_subscriber
post_resolved a installation metadata sub s =
    let told = remember_live_activity_session a.first sub metadata a.at s in
    if is_some (delivery_subscriber a.again installation metadata a.at told)
    then (told, post_result a.reply)
    else (told, no_longer_eligible)

unfoldable pub post_parsed :
    Attempt → Bytes → PushPayloadMetadata → PushSubscriberStore → PushSubscriberStore × PostResult
unfolding post_resolved delivery_subscriber
post_parsed a installation metadata s =
    if is_charging (push_event_feature metadata.type).0 && not a.acquired
    then (s, transport_error)
    else elim (delivery_subscriber a.first installation metadata a.at s) [
      | none ↦ (s, no_longer_eligible)
      | some sub ↦ post_resolved a installation metadata sub s
    ]

unfoldable pub post_json : Attempt → Bytes → PushSubscriberStore → PushSubscriberStore × PostResult
unfolding post_parsed
post_json a installation s = elim a.parsed [
  | none ↦ (s, no_longer_eligible)
  | some metadata ↦ post_parsed a installation metadata s
]

-- At most the session records differ.
abbrev pub SameButSessions : PushSubscriberStore → PushSubscriberStore → Type 0
SameButSessions s after = (after.outbox ≡ s.outbox) × (after.subscribers ≡ s.subscribers)

remember-SameButSessions :
    (around : Surroundings) (sub : PushSubscriber) (metadata : PushPayloadMetadata) (now : Time)
    (s : PushSubscriberStore)
    → SameButSessions s (remember_live_activity_session around sub metadata now s)
unfolding remember_live_activity_session
remember-SameButSessions around sub metadata now s =
    let kind = push_event_feature metadata.type in
    elim (Bool-cases (kind.1 || is_blank metadata.session_id || not (is_live_activity kind.0))) [
      | inl nothing ↦ rw nothing (refl, refl)
      | inr new ↦ rw new (refl, refl)
    ]

post_resolved-SameButSessions :
    (a : Attempt) (installation : Bytes) (metadata : PushPayloadMetadata) (sub : PushSubscriber)
    (s : PushSubscriberStore)
    → SameButSessions s (post_resolved a installation metadata sub s).0
unfolding post_resolved
post_resolved-SameButSessions a installation metadata sub s =
    let told = remember_live_activity_session a.first sub metadata a.at s in
    let same = remember-SameButSessions a.first sub metadata a.at s in
    elim (Bool-cases (is_some (delivery_subscriber a.again installation metadata a.at told))) [
      | inl still ↦ rw still same
      | inr gone ↦ rw gone same
    ]

post_parsed-SameButSessions :
    (a : Attempt) (installation : Bytes) (metadata : PushPayloadMetadata) (s : PushSubscriberStore)
    → SameButSessions s (post_parsed a installation metadata s).0
unfolding post_parsed
post_parsed-SameButSessions a installation metadata s =
    elim (Bool-cases (is_charging (push_event_feature metadata.type).0 && not a.acquired)) [
      | inl busy ↦ rw busy (refl, refl)
      | inr free ↦ elim (Option-cases (delivery_subscriber a.first installation metadata a.at s)) [
        | inl missing ↦ rw (free, missing) (refl, refl)
        | inr (sub, found) ↦
            rw (free, found) (post_resolved-SameButSessions a installation metadata sub s)
      ]
    ]

pub post_json-SameButSessions :
    (a : Attempt) (installation : Bytes) (s : PushSubscriberStore)
    → SameButSessions s (post_json a installation s).0
unfolding post_json
post_json-SameButSessions a installation s = elim (Option-cases a.parsed) [
  | inl unreadable ↦ rw unreadable (refl, refl)
  | inr (metadata, parsed) ↦ rw parsed (post_parsed-SameButSessions a installation metadata s)
]
