-- ===== src/LockSecure/Unlocked.antt =====
-- Messages that set no lock (lock_secure_evidence.go, `observe`).
pub mod Observed
use my_t_companion.LockSecure.Unlocked.Observed.{
  observe_evidence-lock_at, observe_retained-lock_at, observe_evidence-unlocked, summarize-locked,
  observe_message_observed,
}
use my_t_companion.Base.Eq.{nat_key}
use my_t_companion.LockSecure.Calls.{Call, message}
use my_t_companion.Base.Clock.{Time}
use my_t_companion.LockSecure.{
  LockSecureCarState, LockSecureEvidence, LockSecureMonitor, Bytes, evidence_of, car_of, is_value,
}
use my_t_companion.Base.{
  ℕ, Bool, ◌≢◌, ◌≡◌, arith, ◌==◌, false, ◌⊎◌, true, refl, inr, inl, subst, ==_iff, sym, ap, not,
  ◌∙◌, ◌&&◌,
}
use my_t_companion.LockSecure.Observe.{
  observe_message, summarize, read_field, is_unlisted, parse_mqtt_bool,
}
use my_t_companion.LockSecure.Evidence.{
  healthy_field, display_name_field, locked_field, is_user_present_field, state_field,
  shift_state_field, doors_open_field, trunk_open_field, frunk_open_field, unlisted_field,
  observe_evidence, Field, locked_field,
}

-- The call is a live message that says that the car is locked.
unfoldable pub is_live_lock : ℕ → Call → Bool
unfolding parse_mqtt_bool
is_live_lock car (message j locked_field raw at false) =
    j == car && is_value true (parse_mqtt_bool raw)
is_live_lock car _ = false

-- A message that says that the car is not locked, or a retained one, unsets the lock.
unfoldable pub is_unlock : Field → Bytes → Bool → Bool
unfolding parse_mqtt_bool
is_unlock locked_field raw false = not (is_value true (parse_mqtt_bool raw))
is_unlock field raw false = false
is_unlock field raw true = not (is_unlisted field)

observe_evidence_retained :
    (previous current : LockSecureCarState) (field : Field) (now : Time) (e : LockSecureEvidence)
    → (observe_evidence previous current field true now e).lock_at ≡ 0
unfolding observe_evidence
observe_evidence_retained previous current field now e = observe_retained-lock_at field e

is_unlock-listed :
    (field : Field) (raw : Bytes) (retained : Bool)
    → is_unlock field raw retained ≡ true
    → is_unlisted field ≢ true
unfolding is_unlock
is_unlock-listed locked_field raw false h unlisted = cc
is_unlock-listed healthy_field raw false h unlisted = cc
is_unlock-listed display_name_field raw false h unlisted = cc
is_unlock-listed is_user_present_field raw false h unlisted = cc
is_unlock-listed state_field raw false h unlisted = cc
is_unlock-listed shift_state_field raw false h unlisted = cc
is_unlock-listed doors_open_field raw false h unlisted = cc
is_unlock-listed trunk_open_field raw false h unlisted = cc
is_unlock-listed frunk_open_field raw false h unlisted = cc
is_unlock-listed unlisted_field raw false h unlisted = cc
is_unlock-listed field raw true h unlisted = ground (arith, h, unlisted)

observe_evidence-is_unlock :
    (field : Field) (raw : Bytes) (retained : Bool) (previous : LockSecureCarState) (now : Time)
    (e : LockSecureEvidence)
    → is_unlock field raw retained ≡ true
    → (observe_evidence previous
        (summarize (read_field field raw previous))
        field
        retained
        now
        e).lock_at
      ≡ 0
unfolding is_unlock
observe_evidence-is_unlock locked_field raw false previous now e h =
    observe_evidence-unlocked previous (summarize (read_field locked_field raw previous)) false now
      e (ap (is_value true) (summarize-locked raw previous) ∙ ground (arith, h))
observe_evidence-is_unlock healthy_field raw false previous now e h = absurd (cc)
observe_evidence-is_unlock display_name_field raw false previous now e h = absurd (cc)
observe_evidence-is_unlock is_user_present_field raw false previous now e h = absurd (cc)
observe_evidence-is_unlock state_field raw false previous now e h = absurd (cc)
observe_evidence-is_unlock shift_state_field raw false previous now e h = absurd (cc)
observe_evidence-is_unlock doors_open_field raw false previous now e h = absurd (cc)
observe_evidence-is_unlock trunk_open_field raw false previous now e h = absurd (cc)
observe_evidence-is_unlock frunk_open_field raw false previous now e h = absurd (cc)
observe_evidence-is_unlock unlisted_field raw false previous now e h = absurd (cc)
observe_evidence-is_unlock field raw true previous now e h =
    observe_evidence_retained previous (summarize (read_field field raw previous)) field now e

pub observe_message-is_unlock :
    (car : ℕ) (field : Field) (raw : Bytes) (at : Time) (retained : Bool) (m : LockSecureMonitor)
    → is_unlock field raw retained ≡ true
    → (evidence_of car (observe_message car field raw at retained m)).lock_at ≡ 0
observe_message-is_unlock car field raw at retained m h =
    observe_message_observed car car field raw at retained m
      (λ unlisted. absurd (is_unlock-listed field raw retained h unlisted))
      (λ other. absurd (ground (arith, other, (==_iff car car).1 refl)))
      (λ same.
        observe_evidence-is_unlock field raw retained (car_of car m) at (evidence_of car m) h)

is_live_lock-cases :
    (car j : ℕ) (field : Field) (raw : Bytes) (at : Time) (retained : Bool)
    → (j == car) ≡ true
    → is_live_lock car (message j field raw at retained) ≡ false
    → (field ≢ locked_field) ⊎ (is_unlock field raw retained ≡ true)
unfolding is_live_lock is_unlock
is_live_lock-cases car j locked_field raw at true here other = inr refl
is_live_lock-cases car j locked_field raw at false here other = inr (ground (arith, here, other))
is_live_lock-cases car j healthy_field raw at retained here other = inl (λ same. cc)
is_live_lock-cases car j display_name_field raw at retained here other = inl (λ same. cc)
is_live_lock-cases car j is_user_present_field raw at retained here other = inl (λ same. cc)
is_live_lock-cases car j state_field raw at retained here other = inl (λ same. cc)
is_live_lock-cases car j shift_state_field raw at retained here other = inl (λ same. cc)
is_live_lock-cases car j doors_open_field raw at retained here other = inl (λ same. cc)
is_live_lock-cases car j trunk_open_field raw at retained here other = inl (λ same. cc)
is_live_lock-cases car j frunk_open_field raw at retained here other = inl (λ same. cc)
is_live_lock-cases car j unlisted_field raw at retained here other = inl (λ same. cc)

-- Other cars' evidence is left alone, and this one's lock stays unset unless the message is a live lock.
pub observe_message-lock_at :
    (car j : ℕ) (field : Field) (raw : Bytes) (at : Time) (retained : Bool) (m : LockSecureMonitor)
    → is_live_lock car (message j field raw at retained) ≡ false
    → (evidence_of car m).lock_at ≡ 0
    → (evidence_of car (observe_message j field raw at retained m)).lock_at ≡ 0
observe_message-lock_at car j field raw at retained m other none_yet =
    observe_message_observed car j field raw at retained m (λ unlisted. none_yet)
      (λ apart. none_yet)
      (λ here. elim (is_live_lock-cases car j field raw at retained here other) [
        | inr unlock ↦
            observe_evidence-is_unlock field raw retained (car_of j m) at (evidence_of j m) unlock
        | inl elsewhere ↦
            observe_evidence-lock_at (car_of j m) (summarize (read_field field raw (car_of j m)))
              field retained at (evidence_of j m) (inl elsewhere)
              (subst (λ i. (evidence_of i m).lock_at ≡ 0) (sym ((==_iff j car).0 here)) none_yet)
      ])
