-- ===== src/Push/Sessions/Authorized.antt =====
-- Who may be sent a message (push_subscribers.go, `deliverySubscriber`).
use my_t_companion.Base.Int.{◌<ℤ◌}
use my_t_companion.Base.Eq.{bytes_eq_iff, bytes_key}
use my_t_companion.Base.{
  ◌≡◌, some, Bool-cases, true, ◌⊎◌, inr, arith, false, inl, Option-cases, refl, ◌&&◌, subst, Option,
  [], Mem, ◌≤◌, none, ◌∷◌, ◌+◌, ap,
}
use my_t_companion.Push.Sessions.{
  Surroundings, may_receive, delivery_subscriber, Bytes, PushSubscriber, PushPayloadMetadata,
  Feature, Time, Bool, PushSubscriberStore, List, push_event_feature, Stamp, is_wanted,
  is_addressed, is_its_source, valid_push_subscriber, is_blank, normal_source, is_known_session,
  subscriber_wants_push_feature, lookup, live_activity_authorization_key, or_zero, pos,
  charging_transient_maximum_age, hours,
}
use mathlib.Core.List.{mem-cons_self, mem-cons_of_mem}
use my_t_companion.Storage.{timestamp_is_older_than}
use my_t_companion.Push.Subscribers.{find, is_subscriber, is_active}

-- The phone was told of the session in the last two days.
abbrev pub IsTold :
    Surroundings
    → PushSubscriber
    → PushPayloadMetadata
    → Feature
    → Time
    → List (Bytes × Stamp)
    → Type 0
IsTold around sub metadata feature now sessions =
    (at : Time) × ((lookup (live_activity_authorization_key around sub metadata feature) sessions
        ≡ some (some at))
      × (now ≤ at + hours 48))

-- Whether a message may go to a phone that wants it, does not end a session, or ends one it knows
abbrev pub IsOfInterest :
    Surroundings
    → PushSubscriber
    → PushPayloadMetadata
    → Feature × Bool
    → Time
    → List (Bytes × Stamp)
    → Type 0
IsOfInterest around sub metadata kind now sessions =
    ((subscriber_wants_push_feature sub metadata.car_id kind.0 ≡ true)
      × (around.mqtt_car_eligible metadata.car_id ≡ true))
    ⊎ ((kind.1 ≡ true)
        × (IsTold around sub metadata kind.0 now sessions
            ⊎ (around.monitor_knows_live_activity_session sub metadata kind.0 ≡ true)))

abbrev pub IsAuthorized :
    Surroundings
    → Bytes
    → PushPayloadMetadata
    → Time
    → PushSubscriberStore
    → PushSubscriber
    → Type 0
IsAuthorized around installation metadata now s sub =
    let kind = push_event_feature metadata.type in
    (Mem sub s.subscribers)
    × (sub.installation_id ≡ installation)
    × ((metadata.installation_id ≡ []) ⊎ (metadata.installation_id ≡ installation))
    × (pos 0 <ℤ metadata.car_id)
    × (valid_push_subscriber sub ≡ true)
    × (is_active sub ≡ true)
    × (normal_source metadata.source_id ≡ normal_source sub.source_id)
    × IsOfInterest around sub metadata kind now s.live_activity_sessions

timestamp_is_older_than-le :
    (at : Stamp) (now : Time)
    → timestamp_is_older_than at now charging_transient_maximum_age ≡ false
    → (t : Time) × ((at ≡ some t) × (now ≤ t + hours 48))
unfolding timestamp_is_older_than
timestamp_is_older_than-le none now h = absurd (cc)
timestamp_is_older_than-le (some t) now h = (t, (refl, ground (arith, h)))

told-lookup :
    (o : Option Stamp) (now : Time)
    → timestamp_is_older_than (or_zero none o) now charging_transient_maximum_age ≡ false
    → (t : Time) × ((o ≡ some (some t)) × (now ≤ t + hours 48))
told-lookup none now h =
    let (t, (never, recent)) = timestamp_is_older_than-le none now h in absurd (cc)
told-lookup (some at) now h =
    let (t, (same, recent)) = timestamp_is_older_than-le at now h in (t, (ap some same, recent))

is_known_session-cases :
    (around : Surroundings) (sub : PushSubscriber) (metadata : PushPayloadMetadata)
    (feature : Feature) (now : Time) (sessions : List (Bytes × Stamp))
    → is_known_session around sub metadata feature now sessions ≡ true
    → IsTold around sub metadata feature now sessions
      ⊎ (around.monitor_knows_live_activity_session sub metadata feature ≡ true)
unfolding is_known_session
is_known_session-cases around sub metadata feature now sessions h =
    let o = lookup (live_activity_authorization_key around sub metadata feature) sessions in
    elim (Bool-cases
      (timestamp_is_older_than (or_zero none o) now charging_transient_maximum_age)) [
        | inl old ↦ inr (ground (arith, h, old))
        | inr recent ↦ inl (told-lookup o now recent)
      ]

may_receive-cases :
    (around : Surroundings) (sub : PushSubscriber) (metadata : PushPayloadMetadata)
    (kind : Feature × Bool) (now : Time) (sessions : List (Bytes × Stamp))
    → may_receive around sub metadata kind now sessions ≡ true
    → IsOfInterest around sub metadata kind now sessions
unfolding may_receive is_wanted
may_receive-cases around sub metadata (kind, false) now sessions h =
    inl (ground (arith, h), ground (arith, h))
may_receive-cases around sub metadata (kind, true) now sessions h =
    elim (Bool-cases (is_wanted around sub metadata kind)) [
      | inl wanted ↦ inl (ground (arith, wanted), ground (arith, wanted))
      | inr unwanted ↦ inr (
        refl,
        is_known_session-cases around sub metadata kind now sessions (ground (arith, h, unwanted)),
      )
    ]

find-Mem :
    (installation : Bytes) (subs : List PushSubscriber) (sub : PushSubscriber)
    → find (is_subscriber installation) subs ≡ some sub
    → Mem sub subs × (sub.installation_id ≡ installation)
unfolding find
find-Mem installation [] sub h = absurd (cc)
find-Mem installation (x ∷ xs) sub h = elim (Bool-cases (is_subscriber installation x)) [
  | inl mine ↦
      let same : x ≡ sub = ground (arith, h, mine) in
      (
        subst (λ y. Mem y (x ∷ xs)) same mem-cons_self,
        subst (λ (y : PushSubscriber). y.installation_id ≡ installation) same
            ((bytes_eq_iff x.installation_id installation).0 (ground (arith, mine))),
      )
  | inr other ↦
      let (known, named) = find-Mem installation xs sub (ground (arith, h, other)) in
      (mem-cons_of_mem x known, named)
]

is_addressed-cases :
    (installation : Bytes) (metadata : PushPayloadMetadata) (feature : Feature)
    → is_addressed installation metadata feature ≡ true
    → ((metadata.installation_id ≡ []) ⊎ (metadata.installation_id ≡ installation))
      × (pos 0 <ℤ metadata.car_id)
is_addressed-cases installation metadata kind h = (
  elim (Bool-cases (is_blank metadata.installation_id)) [
    | inl blank ↦ inl (is_blank-[] metadata.installation_id blank)
    | inr named ↦
        inr ((bytes_eq_iff metadata.installation_id installation).0 (ground (arith, h, named)))
  ],
  ground (arith, h),
)
  where
    is_blank-[] : (t : Bytes) → is_blank t ≡ true → t ≡ []
    is_blank-[] t e = (bytes_eq_iff t []).0 e

-- A phone that is sent a message is registered under the identifier that the message is for, valid and
-- active, and pairs with the source of the message, which is about a car. The phone wants the message and
-- the car belongs to the fleet; or the message ends a session, and the phone was told of that session in the
-- last two days or a monitor knows it.
pub delivery_subscriber-IsAuthorized :
    (around : Surroundings) (installation : Bytes) (metadata : PushPayloadMetadata) (now : Time)
    (s : PushSubscriberStore) (sub : PushSubscriber)
    → delivery_subscriber around installation metadata now s ≡ some sub
    → IsAuthorized around installation metadata now s sub
unfolding delivery_subscriber
delivery_subscriber-IsAuthorized around installation metadata now s sub h =
    let kind = push_event_feature metadata.type in
    elim (Bool-cases (is_addressed installation metadata kind.0)) [
      | inr elsewhere ↦ absurd (ground (arith, elsewhere, h))
      | inl addressed ↦ elim (Option-cases (find (is_subscriber installation) s.subscribers)) [
        | inl missing ↦ absurd (ground (arith, addressed, missing, h))
        | inr (known, found) ↦
            elim (Bool-cases (
              is_its_source known metadata
              && may_receive around known metadata kind now s.live_activity_sessions)) [
                | inr refused ↦ absurd (ground (arith, addressed, found, refused, h))
                | inl allowed ↦
                    let same : known ≡ sub = ground (arith, addressed, found, allowed, h) in
                    let (member, named) = find-Mem installation s.subscribers known found in
                    let (meant, about_car) =
                      is_addressed-cases installation metadata kind.0 addressed in
                    subst (IsAuthorized around installation metadata now s) same (
                      member,
                      named,
                      meant,
                      about_car,
                      ground (arith, allowed),
                      ground (arith, allowed),
                      (bytes_eq_iff (normal_source metadata.source_id)
                            (normal_source known.source_id)).0
                          (ground (arith, allowed)),
                      may_receive-cases around known metadata kind now s.live_activity_sessions
                          (ground (arith, allowed)),
                    )
              ]
      ]
    ]
