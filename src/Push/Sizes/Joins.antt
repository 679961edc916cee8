-- ===== src/Push/Sizes/Joins.antt =====
-- The size of the push registry (push_subscribers.go) when a phone pairs.
use my_t_companion.Push.Sizes.{
  branch-Inv, prune-Inv, remove_at-Inv, get_elem-some, oldest-range, length-drop_at, keep-room,
  resized-Inv, is_subscriber, paused_first-Inv,
}
use my_t_companion.Push.Sizes.{Inv}
use my_t_companion.Base.Clock.{Time}
use my_t_companion.Base.{
  ◌⊎◌, inl, Option, ◌≡◌, Bool-cases, get_elem?, inr, some, ◌<◌, length, length-append, ltb, none,
  ◌∷◌, arith, [], ltb→lt, is_some, refl,
}
use my_t_companion.Push.{
  remove_outbox_for, ℕ, List, PushSubscriberStore, PushSubscriber, remove_outbox_except,
  VehiclePushPreferences, max_push_subscribers,
}
use my_t_companion.Push.Pairing.{
  PairError, join, make_room, write_subscriber, upsert_checked, upsert, free_seat, PushPairRequest,
  requested_preferences, is_replace, check_request,
}
use my_t_companion.Push.Subscribers.{
  find, oldest_paused_from, remove_subscriber_at, remove_found, oldest_paused_subscriber_index,
  prune_expired_paused,
}

-- A free seat in the store that a phone joins.
unfoldable pub Seated : PairError ⊎ PushSubscriberStore → Type 0
Seated (inl e) = Unit
Seated (inr r) = Inv r × (length r.subscribers < max_push_subscribers)

pub join-Inv :
    (sub : PushSubscriber) (s : PushSubscriberStore) (r : PairError ⊎ PushSubscriberStore)
    → Inv s
    → Seated r
    → Inv (join sub s r).0
unfolding join Seated
join-Inv sub s (inl e) i r = i
join-Inv sub s (inr x) i r =
    let put = length-append x.subscribers (sub ∷ []) in
    let free = r.1 in resized-Inv _ x (omega arith) r.0

pub found-Seated :
    (index : ℕ) (s : PushSubscriberStore) (o : Option PushSubscriber)
    → get_elem? s.subscribers index ≡ o
    → index < length s.subscribers
    → Inv s
    → length (remove_found index s o).subscribers < max_push_subscribers
unfolding remove_found remove_outbox_for
found-Seated index s none h l i = let r = get_elem-some index s.subscribers l in ground (arith)
found-Seated index s (some sub) h l i =
    let shrinks = length-drop_at index s.subscribers l in let seats = i.seats in omega arith

pub free_seat-Seated :
    (s : PushSubscriberStore) (o : Option ℕ)
    → Inv s
    → ((index : ℕ) → o ≡ some index → index < length s.subscribers)
    → Seated (free_seat s o)
unfolding free_seat Seated remove_subscriber_at
free_seat-Seated s none i h = tt
free_seat-Seated s (some index) i h = (
  remove_at-Inv index s i,
  found-Seated index s (get_elem? s.subscribers index) refl (h index refl) i,
)

pub oldest-lt :
    (ss : List PushSubscriber) (index : ℕ)
    → oldest_paused_subscriber_index ss ≡ some index
    → index < length ss
unfolding oldest_paused_subscriber_index
oldest-lt ss index h = go (oldest_paused_from 0 none ss) refl h
  where
    go :
        (r : Option (ℕ × Time))
        → oldest_paused_from 0 none ss ≡ r
        → (elim r [ none ↦ none | some o ↦ some o.0 ]) ≡ some index
        → index < length ss
    go none e q = ground arith
    go (some o) e q =
        let range = oldest-range 0 none ss o (λ p f. ground arith) e in
        let same : o.0 ≡ index = ground arith in omega arith

pub make_room-Seated : (s : PushSubscriberStore) → Inv s → Seated (make_room s)
unfolding make_room Seated
make_room-Seated s i = elim (Bool-cases (ltb (length s.subscribers) max_push_subscribers)) [
  | inl h ↦ rw (h) (i, ltb→lt _ _ h)
  | inr h ↦ rw (h) (
      free_seat-Seated s (oldest_paused_subscriber_index s.subscribers) i (oldest-lt s.subscribers))
]

pub write-Inv :
    (req : PushPairRequest) (preferences : Option (List VehiclePushPreferences)) (now : Time)
    (s : PushSubscriberStore)
    → Inv s
    → Inv (write_subscriber req preferences now s).0
unfolding write_subscriber remove_outbox_except
write-Inv req preferences now s i =
    branch-Inv (is_replace req) _ _
      (record { seats = omega arith; room = keep-room _ s.outbox i.room })
      (branch-Inv (is_some (find (is_subscriber req.installation_id) s.subscribers)) _ _
        (paused_first-Inv req.installation_id _ s i)
        (join-Inv _ s (make_room s) i (make_room-Seated s i)))

pub checked-Inv :
    (req : PushPairRequest) (now : Time) (s : PushSubscriberStore)
    (r : PairError ⊎ Option (List VehiclePushPreferences))
    → Inv s
    → Inv (upsert_checked req now s r).0
unfolding upsert_checked prune_expired_paused
checked-Inv req now s (inl e) i = i
checked-Inv req now s (inr preferences) i =
    write-Inv req preferences now _ (prune-Inv now (length s.subscribers) s i)

pub upsert-Inv :
    (req : PushPairRequest) (now : Time) (s : PushSubscriberStore)
    → Inv s
    → Inv (upsert req now s).0
unfolding upsert
upsert-Inv req now s i = go (check_request req)
  where
    go :
        (e : Option PairError)
        → Inv
            (elim e as (λ _. PushSubscriberStore × Option PairError) [
              | some e ↦ (s, some e)
              | none ↦ upsert_checked req now s (requested_preferences req.vehicle_preferences)
            ]).0
    go none = checked-Inv req now s (requested_preferences req.vehicle_preferences) i
    go (some e) = i
