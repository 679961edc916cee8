-- ===== src/LockSecure/Reach.antt =====
-- An alert that is started, and nothing changes (lock_secure_notification.go).
use my_t_companion.Push.{PushSubscriber, PushSubscriberStore}
use my_t_companion.LockSecure.Recipients.{Moment}
use my_t_companion.Base.Eq.{nat_key}
use my_t_companion.LockSecure.{Bool, Time, LockSecureMonitor}

-- The turns of an alert where nothing changes after it is started
abbrev pub unchanged :
    LockSecureMonitor
    → PushSubscriberStore
    → Time
    → (PushSubscriber → Bool)
    → PushSubscriber
    → Moment
unchanged m registry now succeeds sub = record {
  view = m;
  phones = registry;
  now = now;
  succeeds = succeeds sub;
}
