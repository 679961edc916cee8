-- ===== src/LockSecure/Unlocked/Observed.antt =====
-- What a message leaves of the evidence of a lock (lock_secure_evidence.go, `observe`).
use my_t_companion.Base.Eq.{nat_key}
use my_t_companion.Base.Maps.{insert, lookup-insert}
use my_t_companion.Base.Clock.{Time}
use my_t_companion.LockSecure.{
  LockSecureCarState, LockSecureEvidence, LockSecureMonitor, Bytes, evidence_of, car_of, is_value,
}
use my_t_companion.Base.{
  ℕ, Bool, ◌≢◌, ◌≡◌, arith, ◌==◌, false, ◌⊎◌, true, refl, inr, inl, Bool-cases,
}
use my_t_companion.LockSecure.Observe.{
  expire_lock, schedule, observe_message, summarize, read_field, is_unlisted, parse_mqtt_bool,
}
use my_t_companion.LockSecure.Evidence.{
  healthy_field, display_name_field, locked_field, is_user_present_field, state_field,
  shift_state_field, doors_open_field, trunk_open_field, frunk_open_field, unlisted_field,
  observe_live, observe_evidence, observe_retained, Field, observe_opening, locked_field,
}

observe_live-lock_at :
    (previous current : LockSecureCarState) (field : Field) (now : Time) (e : LockSecureEvidence)
    → field ≢ locked_field
    → e.lock_at ≡ 0
    → (observe_live previous current field now e).lock_at ≡ 0
unfolding observe_live observe_opening
observe_live-lock_at previous current healthy_field now e other none_yet = none_yet
observe_live-lock_at previous current display_name_field now e other none_yet = none_yet
observe_live-lock_at previous current locked_field now e other none_yet = absurd (other refl)
observe_live-lock_at previous current is_user_present_field now e other none_yet =
    ground (arith, none_yet)
observe_live-lock_at previous current state_field now e other none_yet = ground (arith, none_yet)
observe_live-lock_at previous current shift_state_field now e other none_yet =
    ground (arith, none_yet)
observe_live-lock_at previous current doors_open_field now e other none_yet =
    ground (arith, none_yet)
observe_live-lock_at previous current trunk_open_field now e other none_yet =
    ground (arith, none_yet)
observe_live-lock_at previous current frunk_open_field now e other none_yet =
    ground (arith, none_yet)
observe_live-lock_at previous current unlisted_field now e other none_yet = none_yet

pub observe_retained-lock_at :
    (field : Field) (e : LockSecureEvidence) → (observe_retained field e).lock_at ≡ 0
unfolding observe_retained
observe_retained-lock_at healthy_field e = refl
observe_retained-lock_at display_name_field e = refl
observe_retained-lock_at locked_field e = refl
observe_retained-lock_at is_user_present_field e = refl
observe_retained-lock_at state_field e = refl
observe_retained-lock_at shift_state_field e = refl
observe_retained-lock_at doors_open_field e = refl
observe_retained-lock_at trunk_open_field e = refl
observe_retained-lock_at frunk_open_field e = refl
observe_retained-lock_at unlisted_field e = refl

pub observe_evidence-lock_at :
    (previous current : LockSecureCarState) (field : Field) (retained : Bool) (now : Time)
    (e : LockSecureEvidence)
    → ((field ≢ locked_field) ⊎ (retained ≡ true))
    → e.lock_at ≡ 0
    → (observe_evidence previous current field retained now e).lock_at ≡ 0
unfolding observe_evidence
observe_evidence-lock_at previous current field true now e other none_yet =
    observe_retained-lock_at field e
observe_evidence-lock_at previous current field false now e (inr live) none_yet = absurd (cc)
observe_evidence-lock_at previous current healthy_field false now e (inl other) none_yet =
    ground (arith, none_yet)
observe_evidence-lock_at previous current display_name_field false now e (inl other) none_yet =
    none_yet
observe_evidence-lock_at previous current locked_field false now e (inl other) none_yet =
    observe_live-lock_at previous current locked_field now (record e { stable_since = now }) other
      none_yet
observe_evidence-lock_at previous current is_user_present_field false now e (inl other) none_yet =
    observe_live-lock_at previous current is_user_present_field now
      (record e { stable_since = now }) other none_yet
observe_evidence-lock_at previous current state_field false now e (inl other) none_yet =
    observe_live-lock_at previous current state_field now (record e { stable_since = now }) other
      none_yet
observe_evidence-lock_at previous current shift_state_field false now e (inl other) none_yet =
    observe_live-lock_at previous current shift_state_field now (record e { stable_since = now })
      other none_yet
observe_evidence-lock_at previous current doors_open_field false now e (inl other) none_yet =
    observe_live-lock_at previous current doors_open_field now (record e { stable_since = now })
      other none_yet
observe_evidence-lock_at previous current trunk_open_field false now e (inl other) none_yet =
    observe_live-lock_at previous current trunk_open_field now (record e { stable_since = now })
      other none_yet
observe_evidence-lock_at previous current frunk_open_field false now e (inl other) none_yet =
    observe_live-lock_at previous current frunk_open_field now (record e { stable_since = now })
      other none_yet
observe_evidence-lock_at previous current unlisted_field false now e (inl other) none_yet =
    observe_live-lock_at previous current unlisted_field now (record e { stable_since = now }) other
      none_yet

expire_lock-lock_at :
    (now : Time) (e : LockSecureEvidence) → e.lock_at ≡ 0 → (expire_lock now e).lock_at ≡ 0
unfolding expire_lock
expire_lock-lock_at now e none_yet = ground (arith, none_yet)

schedule-evidence :
    (car : ℕ) (field : Field) (e : LockSecureEvidence) (m : LockSecureMonitor)
    → (schedule car field e m).evidence ≡ m.evidence
unfolding schedule
schedule-evidence car field e m = ground arith

pub observe_evidence-unlocked :
    (previous current : LockSecureCarState) (retained : Bool) (now : Time) (e : LockSecureEvidence)
    → is_value true current.locked ≡ false
    → (observe_evidence previous current locked_field retained now e).lock_at ≡ 0
unfolding observe_evidence observe_live observe_retained
observe_evidence-unlocked previous current true now e h = refl
observe_evidence-unlocked previous current false now e h = rw h refl

pub summarize-locked :
    (raw : Bytes) (c : LockSecureCarState)
    → (summarize (read_field locked_field raw c)).locked ≡ parse_mqtt_bool raw
unfolding summarize read_field
summarize-locked raw c = refl

-- Other cars' evidence is left alone, and what the message leaves of this car's is what is observed of it.
pub observe_message_observed :
    (car j : ℕ) (field : Field) (raw : Bytes) (at : Time) (retained : Bool) (m : LockSecureMonitor)
    → (is_unlisted field ≡ true → (evidence_of car m).lock_at ≡ 0)
    → ((j == car) ≡ false → (evidence_of car m).lock_at ≡ 0)
    → ((j == car) ≡ true
        → (observe_evidence
            (car_of j m)
            (summarize (read_field field raw (car_of j m)))
            field
            retained
            at
            (evidence_of j m)).lock_at
          ≡ 0)
    → (evidence_of car (observe_message j field raw at retained m)).lock_at ≡ 0
unfolding observe_message
observe_message_observed car j field raw at retained m unread apart mine =
    let previous = car_of j m in
    let current = summarize (read_field field raw previous) in
    let observed = observe_evidence previous current field retained at (evidence_of j m) in
    let seen = expire_lock at observed in
    elim (Bool-cases (is_unlisted field)) [
      | inl unlisted ↦ rw unlisted (unread unlisted)
      | inr listed ↦
          rw
            (
              listed,
              schedule-evidence j field seen (record m {
                cars = insert j current m.cars;
                evidence = insert j seen m.evidence;
              }),
              lookup-insert j car seen m.evidence,
            )
            (elim (Bool-cases (j == car)) [
              | inr elsewhere ↦ rw elsewhere (apart elsewhere)
              | inl here ↦ rw here (expire_lock-lock_at at observed (mine here))
            ])
    ]
