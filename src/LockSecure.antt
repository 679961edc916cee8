-- ===== src/LockSecure.antt =====
-- The lock-secure monitor (lock_secure_evidence.go, lock_secure_notification.go): its state and the tests on
-- one car. The mutex makes each operation one step, and saving the files is taken to succeed.
pub mod Evidence
pub mod Observe
pub mod Finish
pub mod FanOut
pub mod Recipients
pub mod Automaton
pub mod Tests
pub mod Prefix
pub mod Stale
pub mod Cooldown
pub mod Unlocked
pub mod Episodes
pub mod Calls
pub mod Ready
pub mod Reported
pub mod Reach
use my_t_companion.Base.Text.{text_is, is_blank}
use my_t_companion.Base.Maps.{lookup}
use my_t_companion.Base.Clock.{Stamp, Time, seconds, minutes}
use my_t_companion.Base.Eq.{Bytes, nat_key}
use my_t_companion.Base.{
  List, Option, [], Bool, false, ℕ, if◌then◌else◌, some, none, true, ◌&&◌, not, ◌||◌,
}

abbrev pub lock_secure_settle : ℕ
lock_secure_settle = seconds 3

abbrev pub lock_secure_episode_lifetime : ℕ
lock_secure_episode_lifetime = seconds 30

abbrev pub lock_secure_heartbeat_lifetime : ℕ
lock_secure_heartbeat_lifetime = seconds 90

abbrev pub lock_secure_cooldown : ℕ
lock_secure_cooldown = minutes 3

pub record LockSecureCarState : Type 0 where
  pub display_name : Bytes
  pub healthy : Option Bool
  pub locked : Option Bool
  pub user_present : Option Bool
  pub state : Bytes
  pub shift_state : Bytes
  pub last_known_shift_state : Bytes
  pub doors_open : Option Bool
  pub trunk_open : Option Bool
  pub frunk_open : Option Bool
  pub last_secure : Bool
  pub initialized : Bool
  pub last_pushed_at : Stamp

abbrev pub empty_car : LockSecureCarState
empty_car = record {
  display_name = [];
  healthy = none;
  locked = none;
  user_present = none;
  state = [];
  shift_state = [];
  last_known_shift_state = [];
  doors_open = none;
  trunk_open = none;
  frunk_open = none;
  last_secure = false;
  initialized = false;
  last_pushed_at = none;
}

-- A time of 0 is Go's zero time.
pub record LockSecureEvidence : Type 0 where
  pub presence_live : Bool
  pub presence_received_at : Time
  pub last_healthy_at : Time
  pub lock_at : Time
  pub stable_since : Time

abbrev pub empty_evidence : LockSecureEvidence
empty_evidence = record {
  presence_live = false;
  presence_received_at = 0;
  last_healthy_at = 0;
  lock_at = 0;
  stable_since = 0;
}

-- `lockSecureOriginID`: the car and the minute.
abbrev pub OriginId : Type 0
OriginId = ℕ × ℕ

-- A timer is the number that it was given when it was made.
pub record LockSecureMonitor : Type 0 where
  pub cars : List (ℕ × LockSecureCarState)
  pub delivered : List (OriginId × Stamp)
  pub evidence : List (ℕ × LockSecureEvidence)
  pub pending : List (ℕ × ℕ)
  pub next_timer : ℕ
  pub in_flight : List (OriginId × Bool)
  pub connected : Bool

abbrev pub or_car : Option LockSecureCarState → LockSecureCarState
or_car none = empty_car
or_car (some c) = c

abbrev pub car_of : ℕ → LockSecureMonitor → LockSecureCarState
car_of car m = or_car (lookup car m.cars)

abbrev pub or_evidence : Option LockSecureEvidence → LockSecureEvidence
or_evidence none = empty_evidence
or_evidence (some e) = e

abbrev pub evidence_of : ℕ → LockSecureMonitor → LockSecureEvidence
evidence_of car m = or_evidence (lookup car m.evidence)

-- A pointer to a Boolean that is set to the value
abbrev pub is_value : Bool → Option Bool → Bool
is_value b none = false
is_value true (some v) = v
is_value false (some v) = not v

unfoldable pub lock_secure_is_parked : LockSecureCarState → Bool
lock_secure_is_parked c =
    if text_is c.shift_state "P"
    then true
    else if is_blank c.shift_state
    then text_is c.last_known_shift_state "P"
    else false

unfoldable pub lock_secure_is_secure : LockSecureCarState → Bool
unfolding lock_secure_is_parked
lock_secure_is_secure c =
    is_value true c.locked
    && is_value false c.user_present
    && (text_is c.state "online" || text_is c.state "charging")
    && lock_secure_is_parked c
    && is_value false c.doors_open
    && is_value false c.trunk_open
    && is_value false c.frunk_open
