-- ===== src/LockSecure/Evidence.antt =====
-- The evidence of one car since the last connection (lock_secure_evidence.go).
use my_t_companion.Base.Text.{text_is}
use my_t_companion.Base.Clock.{Time, elapsed_within}
use my_t_companion.Base.Eq.{Bytes}
use my_t_companion.LockSecure.{
  lock_secure_is_secure, LockSecureCarState, LockSecureEvidence, LockSecureMonitor,
  lock_secure_episode_lifetime, car_of, lock_secure_heartbeat_lifetime, evidence_of,
  lock_secure_settle, is_value,
}
use my_t_companion.Base.{
  Option, ℕ, Bool, false, is_some, ◌&&◌, not, ◌||◌, ◌==◌, leb, ◌+◌, if◌then◌else◌, true,
}

-- The field of a topic; `unlisted_field` is any other.
pub data Field : Type 0 where
  healthy_field display_name_field locked_field is_user_present_field state_field
        shift_state_field :
      Field
  doors_open_field trunk_open_field frunk_open_field unlisted_field : Field

abbrev clear_lock : LockSecureEvidence → LockSecureEvidence
clear_lock e = record e { lock_at = 0 }

abbrev clear_presence_and_lock : LockSecureEvidence → LockSecureEvidence
clear_presence_and_lock e = record e { presence_live = false; lock_at = 0 }

unfoldable pub observe_retained : Field → LockSecureEvidence → LockSecureEvidence
observe_retained is_user_present_field e = clear_presence_and_lock e
observe_retained _ e = clear_lock e

abbrev is_awake : Bytes → Bool
is_awake state = text_is state "online" || text_is state "charging" || text_is state "driving"

unfoldable pub observe_opening : Option Bool → LockSecureEvidence → LockSecureEvidence
observe_opening value e = if is_value false value then e else clear_presence_and_lock e

-- A live value of a field other than `healthy` and `display_name`.
unfoldable pub observe_live :
    LockSecureCarState → LockSecureCarState → Field → Time → LockSecureEvidence → LockSecureEvidence
unfolding observe_opening
observe_live previous current is_user_present_field now e =
    let seen = record e {
      presence_live = is_some current.user_present;
      presence_received_at = now;
    } in
    if is_value false current.user_present then seen else clear_lock seen
observe_live previous current locked_field now e =
    if not (is_value true current.locked)
    then clear_lock e
    else if is_value false previous.locked
    then record e { lock_at = now }
    else e
observe_live previous current state_field now e =
    if not (is_awake current.state)
    then clear_presence_and_lock e
    else if text_is current.state "driving"
    then clear_lock e
    else e
observe_live previous current shift_state_field now e =
    if text_is current.shift_state "P" then e else clear_lock e
observe_live previous current doors_open_field now e = observe_opening current.doors_open e
observe_live previous current trunk_open_field now e = observe_opening current.trunk_open e
observe_live previous current frunk_open_field now e = observe_opening current.frunk_open e
observe_live previous current healthy_field now e = e
observe_live previous current display_name_field now e = e
observe_live previous current unlisted_field now e = e

unfoldable pub observe_evidence :
    LockSecureCarState
    → LockSecureCarState
    → Field
    → Bool
    → Time
    → LockSecureEvidence
    → LockSecureEvidence
unfolding observe_retained observe_live
observe_evidence previous current field true now e = observe_retained field e
observe_evidence previous current healthy_field false now e =
    if is_value true current.healthy
    then record e { last_healthy_at = now }
    else record (clear_presence_and_lock e) { last_healthy_at = 0 }
observe_evidence previous current display_name_field false now e = e
observe_evidence previous current field false now e =
    observe_live previous current field now (record e { stable_since = now })

abbrev pub is_recent : ℕ → Time → Time → Bool
is_recent limit at now = not (at == 0) && elapsed_within limit at now

unfoldable pub ready : LockSecureCarState → Time → LockSecureEvidence → Bool
unfolding lock_secure_is_secure
ready c now e =
    e.presence_live
    && is_recent lock_secure_episode_lifetime e.lock_at now
    && is_recent lock_secure_heartbeat_lifetime e.last_healthy_at now
    && leb (e.stable_since + lock_secure_settle) now
    && lock_secure_is_secure c

-- `context_current` of `presenceSnapshot`
unfoldable pub presence_is_current : ℕ → Time → LockSecureMonitor → Bool
presence_is_current car now m =
    let c = car_of car m in
    let e = evidence_of car m in
    m.connected
    && e.presence_live
    && is_some c.user_present
    && is_awake c.state
    && is_recent lock_secure_heartbeat_lifetime e.last_healthy_at now
