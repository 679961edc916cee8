-- ===== src/Push/Retry/Unexpired.antt =====
-- What a retry pass leaves in the outbox (push_subscribers.go, `retryDue`).
use my_t_companion.Push.Post.{
  Attempt, PostResult, answered, no_longer_eligible, post_json, post_json-SameButSessions,
  transport_error,
}
use my_t_companion.Push.Subscribers.{pause_invalid_subscriber}
use my_t_companion.Push.{remove_outbox_for, PushSubscriber}
use my_t_companion.Base.Eq.{bytes_eq_refl}
use my_t_companion.Base.{
  if◌then◌else◌, All, ◌∷◌, [], ◌≡◌, ◌||◌, true, false, any, keep, Bool-cases, arith, ◌&&◌, inl, not,
  inr, refl, All-keep, ◌==◌, is_some, sym, subst,
}
use my_t_companion.Push.Retry.{
  is_live, Time, List, Bytes, QueuedPush, ◌∷◌, ℕ, PushSubscriberStore, Bool, retry_items,
  pause_invalid_subscriber, retry_due, retry_item, settle_item, is_success, is_waiting, find,
  retryable_relay_status, is_subscriber,
}
use my_t_companion.Push.Outbox.{
  change_item, reschedule, reschedule_outbox_item, remove_outbox_item, has_id,
}

-- The item is live, or an expired one with its identifier is still to come.
unfoldable pub is_handled : Time → List QueuedPush → QueuedPush → Bool
is_handled now items x = is_live now x || any (λ i. has_id i.id x && not (is_live now i)) items

module _ (now : Time) where
  Handled : List QueuedPush → PushSubscriberStore → Type 0
  Handled items s = All (λ x. is_handled now items x ≡ true) s.outbox

  All-map :
      {P Q : QueuedPush → Type 0}
      → ((x : QueuedPush) → P x → Q x)
      → (xs : List QueuedPush) → All P xs
      → All Q xs
  All-map f [] a = tt
  All-map f (x ∷ xs) (p, a) = (f x p, All-map f xs a)

  handled-cons :
      (i : QueuedPush) (items : List QueuedPush) (x : QueuedPush)
      → is_handled now items x ≡ true
      → is_handled now (i ∷ items) x ≡ true
  unfolding is_handled
  handled-cons i items x h = ground arith

  handled-own : (i : QueuedPush) (items : List QueuedPush) → is_handled now (i ∷ items) i ≡ true
  unfolding is_handled
  handled-own i items = let same = bytes_eq_refl i.id in ground arith

  handled-All : (items : List QueuedPush) → All (λ x. is_handled now items x ≡ true) items
  handled-All [] = tt
  handled-All (i ∷ items) =
      (handled-own i items, All-map (handled-cons i items) items (handled-All items))

  weaken :
      (i : QueuedPush) (items : List QueuedPush) (x : QueuedPush)
      → has_id i.id x ≡ false
      → is_handled now (i ∷ items) x ≡ true
      → is_handled now items x ≡ true
  unfolding is_handled
  weaken i items x e h = ground arith

  -- Taking out the items with the identifier of the first.
  removed-Handled :
      (i : QueuedPush) (items : List QueuedPush) (s : PushSubscriberStore)
      → Handled (i ∷ items) s
      → Handled items (remove_outbox_item i.id s)
  unfolding remove_outbox_item Handled
  removed-Handled i items s h = go s.outbox h
    where
      go :
          (xs : List QueuedPush)
          → All (λ x. is_handled now (i ∷ items) x ≡ true) xs
          → All (λ x. is_handled now items x ≡ true) (keep (λ x. not (has_id i.id x)) xs)
      go [] a = tt
      go (x ∷ xs) (p, a) = elim (Bool-cases (has_id i.id x)) [
        | inl e ↦ rw (e) (go xs a)
        | inr e ↦ rw (e) (weaken i items x e p, go xs a)
      ]

  live-weaken :
      (i : QueuedPush) (items : List QueuedPush)
      → is_live now i ≡ true
      → (x : QueuedPush) → is_handled now (i ∷ items) x ≡ true
      → is_handled now items x ≡ true
  unfolding is_handled
  live-weaken i items l x h = ground arith

  rescheduled-Handled :
      (id : Bytes) (wait : ℕ) (items : List QueuedPush) (s : PushSubscriberStore)
      → Handled items s
      → Handled items (reschedule_outbox_item id now wait s)
  unfolding reschedule_outbox_item Handled reschedule is_handled change_item
  rescheduled-Handled id wait items s h = go s.outbox h
    where
      go :
          (xs : List QueuedPush)
          → All (λ x. is_handled now items x ≡ true) xs
          → All (λ x. is_handled now items x ≡ true) (change_item id (reschedule now wait) xs)
      go [] a = tt
      go (x ∷ xs) (p, a) = elim (Bool-cases (has_id id x)) [
        | inl e ↦ rw (e) (p, a)
        | inr e ↦ rw (e) (p, go xs a)
      ]

  branch-Handled {ℓ} :
      {E : Type ℓ} (items : List QueuedPush) (b : Bool) (x y : PushSubscriberStore × E)
      → Handled items x.0
      → (b ≡ false → Handled items y.0)
      → Handled items (if b then x else y).0
  branch-Handled items true x y h g = h
  branch-Handled items false x y h g = g refl

  rejected-Handled :
      (installation : Bytes) (items : List QueuedPush) (s : PushSubscriberStore)
      → Handled items s
      → Handled items (pause_invalid_subscriber installation now s)
  unfolding pause_invalid_subscriber Handled remove_outbox_for
  rejected-Handled installation items s h = All-keep _ _ s.outbox h

  settled-Handled :
      (i : QueuedPush) (items : List QueuedPush) (r : PostResult) (s : PushSubscriberStore)
      → Handled (i ∷ items) s
      → Handled items s
      → Handled items (settle_item i r now s).0
  unfolding settle_item
  settled-Handled i items no_longer_eligible s h g = removed-Handled i items s h
  settled-Handled i items transport_error s h g = rescheduled-Handled i.id 0 items s g
  settled-Handled i items (answered status wait pending) s h g =
      branch-Handled items (is_success status) _ _ (removed-Handled i items s h) (λ _.
        branch-Handled items (status == 404 || status == 410) _ _
          (rejected-Handled i.installation_id items s g)
          (λ _.
            branch-Handled items (not (retryable_relay_status status)) _ _
              (removed-Handled i items s h) (λ _. rescheduled-Handled i.id wait items s g)))

  live-Handled :
      (i : QueuedPush) (items : List QueuedPush) (s : PushSubscriberStore)
      → is_live now i ≡ true
      → Handled (i ∷ items) s
      → Handled items s
  unfolding Handled
  live-Handled i items s l h = All-map (live-weaken i items l) s.outbox h

  turn-Handled :
      (post : QueuedPush → Attempt) (active : List PushSubscriber) (i : QueuedPush)
      (items : List QueuedPush) (s : PushSubscriberStore)
      → Handled (i ∷ items) s
      → Handled items (retry_item post active now i s).0
  unfolding retry_item Handled
  turn-Handled post active i items s h =
      branch-Handled items (not (is_live now i)) _ _ (removed-Handled i items s h) (λ e.
        let g = live-Handled i items s (ground arith) h in
        branch-Handled items (is_waiting now i) _ _ g (λ _.
          branch-Handled items (not (is_some (find (is_subscriber i.installation_id) active))) _ _
            (removed-Handled i items s h)
            (λ _.
              let same = sym (post_json-SameButSessions (post i) i.installation_id s).0 in
              settled-Handled i items (post_json (post i) i.installation_id s).1
                (post_json (post i) i.installation_id s).0
                (subst (λ xs. All (λ x. is_handled now (i ∷ items) x ≡ true) xs) same h)
                (subst (λ xs. All (λ x. is_handled now items x ≡ true) xs) same g))))

  turns-Handled :
      (post : QueuedPush → Attempt) (active : List PushSubscriber) (items : List QueuedPush)
      (s : PushSubscriberStore)
      → Handled items s
      → Handled [] (retry_items post active now items s)
  unfolding retry_items
  turns-Handled post active [] s h = h
  turns-Handled post active (i ∷ items) s h =
      turns-Handled post active items _ (turn-Handled post active i items s h)

  -- Whatever the relay answers, every message that a retry pass leaves in the outbox has an expiry that
  -- can be read and lies after the time of the pass.
  pub retry_due-live :
      (post : QueuedPush → Attempt) (s : PushSubscriberStore)
      → All (λ x. is_live now x ≡ true) (retry_due post now s).outbox
  unfolding retry_due is_handled Handled
  retry_due-live post s =
      All-map (λ x h. ground arith) _ (turns-Handled post _ s.outbox s (handled-All s.outbox))
