-- ===== src/LockSecure/Observe.antt =====
-- Messages and connection changes (lock_secure_notification.go, lock_secure_evidence.go,
-- mqtt_monitor_lifecycle.go).
use my_t_companion.Base.Maps.{has_key, insert, delete}
use my_t_companion.Base.Text.{
  collapsed_display_name, lower_text, is_blank, normalized_mqtt_value, trim_space, text_is,
  upper_text,
}
use my_t_companion.Base.{
  Bool, ℕ, is_some, map, Option, ◌||◌, true, if◌then◌else◌, ◌&&◌, [], ltb, not, false, ◌+◌, ◌==◌,
  keep, some, none,
}
use my_t_companion.Base.Clock.{Time}
use my_t_companion.Base.Eq.{Bytes, nat_key}
use my_t_companion.LockSecure.{
  lock_secure_is_secure, LockSecureMonitor, LockSecureCarState, empty_car, LockSecureEvidence,
  car_of, evidence_of, lock_secure_episode_lifetime,
}
use my_t_companion.LockSecure.Evidence.{
  Field, observe_evidence, healthy_field, unlisted_field, display_name_field, locked_field,
  is_user_present_field, state_field, shift_state_field, doors_open_field, trunk_open_field,
  frunk_open_field,
}

unfoldable pub parse_mqtt_bool : Bytes → Option Bool
parse_mqtt_bool value =
    let v = lower_text (trim_space value) in
    if text_is v "true" || text_is v "1"
    then some true
    else if text_is v "false" || text_is v "0"
    then some false
    else none

unfoldable pub read_shift : Bytes → LockSecureCarState → LockSecureCarState
read_shift shift c =
    let known = if is_blank shift then c.last_known_shift_state else shift in
    record c { shift_state = shift; last_known_shift_state = known }

unfoldable pub read_field : Field → Bytes → LockSecureCarState → LockSecureCarState
unfolding parse_mqtt_bool read_shift
read_field healthy_field raw c = record c { healthy = parse_mqtt_bool raw }
read_field display_name_field raw c = record c { display_name = collapsed_display_name raw }
read_field locked_field raw c = record c { locked = parse_mqtt_bool raw }
read_field is_user_present_field raw c = record c { user_present = parse_mqtt_bool raw }
read_field state_field raw c = record c { state = lower_text (normalized_mqtt_value raw) }
read_field shift_state_field raw c = read_shift (upper_text (normalized_mqtt_value raw)) c
read_field doors_open_field raw c = record c { doors_open = parse_mqtt_bool raw }
read_field trunk_open_field raw c = record c { trunk_open = parse_mqtt_bool raw }
read_field frunk_open_field raw c = record c { frunk_open = parse_mqtt_bool raw }
read_field unlisted_field raw c = c

unfoldable pub summarize : LockSecureCarState → LockSecureCarState
unfolding lock_secure_is_secure
summarize c = record c {
  initialized = is_some c.locked && is_some c.user_present;
  last_secure = lock_secure_is_secure c;
}

-- A lock that is too old no longer opens an episode.
unfoldable pub expire_lock : Time → LockSecureEvidence → LockSecureEvidence
expire_lock now e =
    if ltb (e.lock_at + lock_secure_episode_lifetime) now then record e { lock_at = 0 } else e

abbrev pub keeps_timer : Field → Bool
keeps_timer healthy_field = true
keeps_timer display_name_field = true
keeps_timer _ = false

-- The settle timer after a message: stopped, kept, or started.
unfoldable pub schedule : ℕ → Field → LockSecureEvidence → LockSecureMonitor → LockSecureMonitor
schedule car field e m =
    let pending =
      if not (keeps_timer field) || e.lock_at == 0 then delete car m.pending else m.pending in
    if not (e.lock_at == 0) && not (has_key car pending)
    then record m { pending = insert car m.next_timer pending; next_timer = m.next_timer + 1 }
    else record m { pending = pending }

abbrev pub is_unlisted : Field → Bool
is_unlisted unlisted_field = true
is_unlisted _ = false

unfoldable pub observe_message :
    ℕ → Field → Bytes → Time → Bool → LockSecureMonitor → LockSecureMonitor
unfolding read_field summarize observe_evidence expire_lock schedule
observe_message car field raw at retained m =
    if is_unlisted field
    then m
    else (let previous = car_of car m in
        let current = summarize (read_field field raw previous) in
        let seen =
          expire_lock at
            (observe_evidence previous current field retained at (evidence_of car m)) in
        schedule car field seen
          (record m { cars = insert car current m.cars; evidence = insert car seen m.evidence }))

-- A new connection starts with no evidence and no timers.
abbrev pub forget_car : LockSecureCarState → LockSecureCarState
forget_car c = record empty_car { display_name = c.display_name; last_pushed_at = c.last_pushed_at }

unfoldable pub reset_evidence : LockSecureMonitor → LockSecureMonitor
reset_evidence m = record m {
  cars = map (λ (e : ℕ × LockSecureCarState). (e.0, forget_car e.1)) m.cars;
  evidence = [];
  pending = [];
}

unfoldable pub reconcile_fleet : (ℕ → Bool) → LockSecureMonitor → LockSecureMonitor
reconcile_fleet in_fleet m =
    let stays = λ (id : ℕ). in_fleet id || not (has_key id m.cars) in
    record m {
      cars = keep (λ (e : ℕ × LockSecureCarState). in_fleet e.0) m.cars;
      evidence = keep (λ (e : ℕ × LockSecureEvidence). stays e.0) m.evidence;
      pending = keep (λ (e : ℕ × ℕ). stays e.0) m.pending;
    }
