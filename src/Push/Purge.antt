-- ===== src/Push/Purge.antt =====
-- What a phone that is paused or removed leaves behind (push_subscribers.go).
use my_t_companion.Base.Text.{is_blank, trim_space}
use my_t_companion.Base.Clock.{Time}
use my_t_companion.Push.Subscribers.{
  unsubscribe, pause, find, change_first, is_subscriber, set_paused,
}
use my_t_companion.Base.{
  Bool, List, All, ◌≡◌, false, keep, not, ◌∷◌, Bool-cases, inl, inr, [], some, none, arith, ap,
  refl,
}
use my_t_companion.Base.Eq.{Bytes}
use my_t_companion.Push.{
  remove_outbox_for, PushSubscriberStore, is_item_of, is_session_of, PushSubscriber,
}

-- No message and no session record of the installation is left.
pub record IsPurged (installation : Bytes) (s : PushSubscriberStore) : Type 0 where
  pub messages : All (λ item. is_item_of installation item ≡ false) s.outbox
  pub sessions : All (λ e. is_session_of installation e ≡ false) s.live_activity_sessions

All-keep-not {ℓ} :
    {A : Type ℓ} (p : A → Bool) (xs : List A) → All (λ x. p x ≡ false) (keep (λ x. not (p x)) xs)
All-keep-not p [] = tt
All-keep-not p (x ∷ xs) = elim (Bool-cases (p x)) [
  | inl h ↦ rw (h) (All-keep-not p xs)
  | inr h ↦ rw (h) (h, All-keep-not p xs)
]

remove_for-IsPurged :
    (installation : Bytes) (s : PushSubscriberStore)
    → IsPurged installation (remove_outbox_for installation s)
unfolding remove_outbox_for
remove_for-IsPurged installation s = record {
  messages = All-keep-not (is_item_of installation) s.outbox;
  sessions = All-keep-not (is_session_of installation) s.live_activity_sessions;
}

find-change_first :
    (p : PushSubscriber → Bool) (f : PushSubscriber → PushSubscriber) (ss : List PushSubscriber)
    (old : PushSubscriber)
    → ((s : PushSubscriber) → p (f s) ≡ p s)
    → find p ss ≡ some old
    → find p (change_first p f ss) ≡ some (f old)
unfolding find change_first
find-change_first p f [] old h e = ground arith
find-change_first p f (s ∷ ss) old h e =
    ground (arith, h s, e, find-change_first p f ss old h, ap f)

find-keep-not :
    (p : PushSubscriber → Bool) (ss : List PushSubscriber)
    → find p (keep (λ s. not (p s)) ss) ≡ none
unfolding find
find-keep-not p [] = refl
find-keep-not p (s ∷ ss) = ground (arith, find-keep-not p ss)

-- Pausing a known phone succeeds, marks it as paused, and takes its messages and session records away.
pub pause-IsPurged :
    (installation : Bytes) (now : Time) (s : PushSubscriberStore) (old : PushSubscriber)
    → is_blank (trim_space installation) ≡ false
    → find (is_subscriber installation) s.subscribers ≡ some old
    → ((pause installation now s).1 ≡ none)
      × IsPurged installation (pause installation now s).0
      × (find (is_subscriber installation) (pause installation now s).0.subscribers
          ≡ some (set_paused now old))
unfolding pause remove_outbox_for
pause-IsPurged installation now s old b k =
    rw (b, k)
      (
        refl,
        remove_for-IsPurged installation _,
        find-change_first (is_subscriber installation) (set_paused now) s.subscribers old
            (λ x. refl) k,
      )

-- Removing a phone by its installation succeeds, and leaves neither the phone nor a message or session record of it.
pub unsubscribe-IsPurged :
    (installation : Bytes) (s : PushSubscriberStore)
    → is_blank (trim_space installation) ≡ false
    → ((unsubscribe installation s).1 ≡ none)
      × IsPurged installation (unsubscribe installation s).0
      × (find (is_subscriber installation) (unsubscribe installation s).0.subscribers ≡ none)
unfolding unsubscribe remove_outbox_for
unsubscribe-IsPurged installation s b = rw (b) (
  refl,
  remove_for-IsPurged installation _,
  find-keep-not (is_subscriber installation) s.subscribers,
)
