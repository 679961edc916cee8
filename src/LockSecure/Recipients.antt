-- ===== src/LockSecure/Recipients.antt =====
-- Whom the registry of phones gives an alert to (lock_secure_notification.go, with `matching` of
-- push_subscribers.go). There is a registry; the single pairing before it is left out.
use my_t_companion.LockSecure.Prefix.{fan_out-IsPrefix}
use my_t_companion.Push.Subscribers.{is_active}
use my_t_companion.Base.Int.{pos}
use my_t_companion.Push.Preferences.{wants_lock_secure}
use my_t_companion.LockSecure.Finish.{Launch}
use my_t_companion.LockSecure.FanOut.{Turn, Sent, fan_out, still_valid}
use my_t_companion.Push.Sessions.{matching}
use my_t_companion.LockSecure.{LockSecureMonitor, Time, Bytes}
use my_t_companion.Push.{PushSubscriber, PushSubscriberStore}
use my_t_companion.Base.{
  ℕ, Bool, List, ltb, length, All, Mem, keep, ◌≡◌, map, true, ◌&&◌, take, suc, ◌∷◌, arith, zero, [],
  refl, All-keep_test, All-Mem, false,
}

unfoldable pub lock_secure_subscribers : PushSubscriberStore → ℕ → List PushSubscriber
lock_secure_subscribers registry car = matching (λ sub. wants_lock_secure sub (pos car)) registry

unfoldable pub has_lock_secure_targets : PushSubscriberStore → ℕ → Bool
unfolding lock_secure_subscribers
has_lock_secure_targets registry car = ltb 0 (length (lock_secure_subscribers registry car))

-- What a phone's turn finds: the monitor, the registry of then and the clock, and whether the delivery
-- succeeds
pub record Moment : Type 0 where
  pub view : LockSecureMonitor
  pub phones : PushSubscriberStore
  pub now : Time
  pub succeeds : Bool

unfoldable pub turn_of : ℕ → (PushSubscriber → Moment) → PushSubscriber → Turn
unfolding has_lock_secure_targets
turn_of car moment sub = record {
  installation = sub.installation_id;
  view = (moment sub).view;
  has_targets = has_lock_secure_targets (moment sub).phones car;
  now = (moment sub).now;
  succeeds = (moment sub).succeeds;
}

-- `fanOutLockSecure`: the phones are those of the registry when it begins.
unfoldable pub fan_out_lock_secure : Launch → (PushSubscriber → Moment) → PushSubscriberStore → Sent
unfolding lock_secure_subscribers
fan_out_lock_secure l moment registry =
    fan_out l (map (turn_of l.car moment) (lock_secure_subscribers registry l.car))

-- A registered, active phone that wants the alerts of the car, whose turn found the alert still valid
abbrev pub IsRecipient : Launch → (PushSubscriber → Moment) → PushSubscriberStore → Bytes → Type 0
IsRecipient l moment registry installation =
    (sub : PushSubscriber) × ((sub.installation_id ≡ installation)
      × Mem sub registry.subscribers
      × (is_active sub ≡ true)
      × (wants_lock_secure sub (pos l.car) ≡ true)
      × (has_lock_secure_targets (moment sub).phones l.car ≡ true)
      × (still_valid l true (moment sub).now (moment sub).view ≡ true))

still_valid-has_targets :
    (l : Launch) (has_targets : Bool) (now : Time) (m : LockSecureMonitor)
    → still_valid l has_targets now m ≡ true
    → (has_targets ≡ true) × (still_valid l true now m ≡ true)
unfolding still_valid
still_valid-has_targets l true now m h = (refl, h)
still_valid-has_targets l false now m h = absurd (ground (arith, h))

-- The phones of a list, each of which may be a recipient
turns-IsRecipient :
    (l : Launch) (moment : PushSubscriber → Moment) (registry : PushSubscriberStore)
    (subs : List PushSubscriber) (n : ℕ)
    → All
        (λ (sub : PushSubscriber).
          Mem sub registry.subscribers
          × (is_active sub && wants_lock_secure sub (pos l.car) ≡ true))
        subs
    → All
        (λ (t : Turn). still_valid l t.has_targets t.now t.view ≡ true)
        (take n (map (turn_of l.car moment) subs))
    → All
        (IsRecipient l moment registry)
        (map (λ (t : Turn). t.installation) (take n (map (turn_of l.car moment) subs)))
unfolding turn_of
turns-IsRecipient l moment registry subs zero known valid = tt
turns-IsRecipient l moment registry [] (suc n) known valid = tt
turns-IsRecipient l moment registry (sub ∷ subs) (suc n) known valid = (
  (
    sub,
    (
      refl,
      known.0.0,
      ground (arith, known.0.1),
      ground (arith, known.0.1),
      (still_valid-has_targets l (has_lock_secure_targets (moment sub).phones l.car)
          (moment sub).now (moment sub).view valid.0).0,
      (still_valid-has_targets l (has_lock_secure_targets (moment sub).phones l.car)
          (moment sub).now (moment sub).view valid.0).1,
    ),
  ),
  turns-IsRecipient l moment registry subs n known.1 valid.1,
)

keep-Mem :
    {A : Type 0} (p : A → Bool) (xs : List A) → All (λ x. Mem x xs × (p x ≡ true)) (keep p xs)
keep-Mem p xs = All-keep_test (λ x. Mem x xs) p xs (All-Mem xs)

-- An alert is sent only to registered, active phones that want the alerts of the car, each at a time when
-- the alert still holds and the registry of then has a phone that wants it.
pub fan_out_lock_secure-IsRecipient :
    (l : Launch) (moment : PushSubscriber → Moment) (registry : PushSubscriberStore)
    → All (IsRecipient l moment registry) (fan_out_lock_secure l moment registry).installations
unfolding fan_out_lock_secure lock_secure_subscribers matching turn_of
fan_out_lock_secure-IsRecipient l moment registry =
    let subs =
      keep (λ sub. is_active sub && wants_lock_secure sub (pos l.car)) registry.subscribers in
    let sent = (fan_out-IsPrefix l (map (turn_of l.car moment) subs)).0 in
    rw (sent.1.0) (
      turns-IsRecipient l moment registry subs sent.0
        (keep-Mem (λ sub. is_active sub && wants_lock_secure sub (pos l.car)) registry.subscribers)
        sent.1.1)
