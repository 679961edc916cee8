-- ===== src/LockSecure/Stale.antt =====
-- A settle timer that was stopped or has fired never acts again (lock_secure_notification.go).
use my_t_companion.LockSecure.Finish.{
  finish_pending, Launch, is_timer, launch, origin_id, is_cooling,
}
use my_t_companion.LockSecure.FanOut.{finish_fan_out, Sent}
use my_t_companion.LockSecure.Calls.{call, Call, message, reset, reconcile, timer_fired, fanned_out}
use my_t_companion.Base.Eq.{nat_key, Bytes, pair_key}
use my_t_companion.Base.Maps.{
  IsMap, lookup, delete, insert, delete-IsMap, delete-IsMap-lookup, keep-IsMap, insert-IsMap,
  has_key, lookup-keep_keys, lookup-insert,
}
use my_t_companion.LockSecure.Evidence.{Field, ready, observe_evidence}
use my_t_companion.LockSecure.{LockSecureMonitor, LockSecureEvidence, Time, car_of, evidence_of}
use my_t_companion.LockSecure.Observe.{
  schedule, keeps_timer, observe_message, reset_evidence, reconcile_fleet, summarize, read_field,
  expire_lock, is_unlisted,
}
use my_t_companion.Base.{
  ℕ, ◌<◌, not, ◌≢◌, some, ◌||◌, ◌==◌, if◌then◌else◌, Bool-cases, Bool, none, List, Option, keep,
  ◌&&◌, inl, ◌≡◌, ◌∷◌, inr, [], ◌+◌, false, arith, ap, refl, ==_iff,
}

-- The timer is not the car's pending one.
abbrev pub IsStopped : ℕ → ℕ → List (ℕ × ℕ) → Type 0
IsStopped car id pending = IsMap pending × (lookup car pending ≢ some id)

-- Such a timer was made before.
abbrev pub IsStale : ℕ → ℕ → LockSecureMonitor → Type 0
IsStale car id m = (id < m.next_timer) × IsStopped car id m.pending

none-some : (id : ℕ) → none ≢ some id
none-some id same = cc

delete-IsStopped :
    (car id j : ℕ) (pending : List (ℕ × ℕ))
    → IsStopped car id pending
    → IsStopped car id (delete j pending)
delete-IsStopped car id j pending (u, stopped) = (
  delete-IsMap j pending u,
  rw (delete-IsMap-lookup j car pending u) (elim (Bool-cases (j == car)) [
    | inl here ↦ rw here (none-some id)
    | inr elsewhere ↦ rw elsewhere stopped
  ]),
)

insert-IsStopped :
    (car id j new : ℕ) (pending : List (ℕ × ℕ))
    → id < new
    → IsStopped car id pending
    → IsStopped car id (insert j new pending)
insert-IsStopped car id j new pending newer (u, stopped) = (
  insert-IsMap j new pending u,
  rw (lookup-insert j car new pending) (elim (Bool-cases (j == car)) [
    | inl here ↦ rw here (λ same. ground (arith, newer, same))
    | inr elsewhere ↦ rw elsewhere stopped
  ]),
)

keep-IsStopped :
    (car id : ℕ) (stays : ℕ → Bool) (pending : List (ℕ × ℕ))
    → IsStopped car id pending
    → IsStopped car id (keep (λ (e : ℕ × ℕ). stays e.0) pending)
keep-IsStopped car id stays pending (u, stopped) = (
  keep-IsMap (λ (e : ℕ × ℕ). stays e.0) pending u,
  rw (lookup-keep_keys stays car pending) (elim (Bool-cases (stays car)) [
    | inl kept ↦ rw kept stopped
    | inr gone ↦ rw gone (none-some id)
  ]),
)

settle-IsStale :
    (car id j : ℕ) (wanted : Bool) (pending : List (ℕ × ℕ)) (m : LockSecureMonitor)
    → id < m.next_timer
    → IsStopped car id pending
    → IsStale car id (
        if wanted && not (has_key j pending)
        then record m { pending = insert j m.next_timer pending; next_timer = m.next_timer + 1 }
        else record m { pending = pending })
settle-IsStale car id j wanted pending m old stopped =
    elim (Bool-cases (wanted && not (has_key j pending))) [
      | inl new ↦
          rw new (omega (arith, old), insert-IsStopped car id j m.next_timer pending old stopped)
      | inr same ↦ rw same (old, stopped)
    ]

schedule-IsStale :
    (car id j : ℕ) (field : Field) (e : LockSecureEvidence) (m : LockSecureMonitor)
    → IsStale car id m
    → IsStale car id (schedule j field e m)
unfolding schedule
schedule-IsStale car id j field e m (old, stopped) =
    elim (Bool-cases (not (keeps_timer field) || e.lock_at == 0)) [
      | inl dropped ↦ rw dropped (
          settle-IsStale car id j (not (e.lock_at == 0)) (delete j m.pending) m old
            (delete-IsStopped car id j m.pending stopped))
      | inr kept ↦ rw kept (settle-IsStale car id j (not (e.lock_at == 0)) m.pending m old stopped)
    ]

observe_message-IsStale :
    (car id j : ℕ) (field : Field) (raw : Bytes) (at : Time) (retained : Bool)
    (m : LockSecureMonitor)
    → IsStale car id m
    → IsStale car id (observe_message j field raw at retained m)
unfolding observe_message
observe_message-IsStale car id j field raw at retained m stale =
    let previous = car_of j m in
    let current = summarize (read_field field raw previous) in
    let seen =
      expire_lock at (observe_evidence previous current field retained at (evidence_of j m)) in
    elim (Bool-cases (is_unlisted field)) [
      | inl unlisted ↦ rw unlisted stale
      | inr listed ↦ rw listed (
          schedule-IsStale car id j field seen
            (record m { cars = insert j current m.cars; evidence = insert j seen m.evidence })
            stale)
    ]

finish_pending-IsStale :
    (car id j other : ℕ) (targets : ℕ → Bool) (now : Time) (m : LockSecureMonitor)
    → IsStale car id m
    → IsStale car id (finish_pending targets j other now m).0
unfolding finish_pending launch
finish_pending-IsStale car id j other targets now m (old, stopped) =
    let taken = delete-IsStopped car id j m.pending stopped in
    let unfit =
      not m.connected || not (ready (car_of j m) now (evidence_of j m)) || not (targets j) in
    let origin = origin_id j now in
    let refused =
      is_cooling now (car_of j m).last_pushed_at
      || has_key origin m.delivered
      || has_key origin m.in_flight in
    elim (Bool-cases (is_timer other (lookup j m.pending))) [
      | inr stale ↦ rw stale (old, stopped)
      | inl current ↦ elim (Bool-cases unfit) [
        | inl unready ↦ rw (current, unready) (old, taken)
        | inr fit ↦ elim (Bool-cases refused) [
          | inl cooling ↦ rw (current, fit, cooling) (old, taken)
          | inr free ↦ rw (current, fit, free) (old, taken)
        ]
      ]
    ]

finish_fan_out-IsStale :
    (car id : ℕ) (l : Launch) (sent : Sent) (m : LockSecureMonitor)
    → IsStale car id m
    → IsStale car id (finish_fan_out l sent m)
unfolding finish_fan_out
finish_fan_out-IsStale car id l sent m stale = elim (Bool-cases sent.complete) [
  | inl all_sent ↦ rw all_sent stale
  | inr cut ↦ rw cut stale
]

not_timer : (id : ℕ) (o : Option ℕ) → o ≢ some id → is_timer id o ≡ false
not_timer id none other = refl
not_timer id (some t) other = elim (Bool-cases (t == id)) [
  | inl same ↦ absurd (other (ap some ((==_iff t id).0 same)))
  | inr differ ↦ differ
]

call-IsStale :
    (car id : ℕ) (c : Call) (m : LockSecureMonitor) → IsStale car id m → IsStale car id (call c m).0
unfolding call reset_evidence reconcile_fleet lookup
call-IsStale car id (message j field raw at retained) m stale =
    observe_message-IsStale car id j field raw at retained m stale
call-IsStale car id (reset connected) m (old, stopped) = (old, (tt, none-some id))
call-IsStale car id (reconcile in_fleet) m (old, stopped) =
    (old, keep-IsStopped car id (λ j. in_fleet j || not (has_key j m.cars)) m.pending stopped)
call-IsStale car id (timer_fired targets j other now) m stale =
    finish_pending-IsStale car id j other targets now m stale
call-IsStale car id (fanned_out l sent) m stale = finish_fan_out-IsStale car id l sent m stale

-- The monitor after the calls
unfoldable pub run : List Call → LockSecureMonitor → LockSecureMonitor
unfolding call
run [] m = m
run (c ∷ cs) m = run cs (call c m).0

run-IsStale :
    (car id : ℕ) (calls : List Call) (m : LockSecureMonitor)
    → IsStale car id m
    → IsStale car id (run calls m)
unfolding run
run-IsStale car id [] m stale = stale
run-IsStale car id (c ∷ cs) m stale =
    run-IsStale car id cs (call c m).0 (call-IsStale car id c m stale)

-- A settle timer that was made and is not pending any more, as it fired or a message, a new connection or
-- the fleet stopped it, changes nothing and starts no alert if it fires after all, whatever is called
-- before.
pub finish_pending-run :
    (car id : ℕ) (calls : List Call) (targets : ℕ → Bool) (now : Time) (m : LockSecureMonitor)
    → IsStale car id m
    → finish_pending targets car id now (run calls m) ≡ (run calls m, none)
unfolding finish_pending
finish_pending-run car id calls targets now m stale =
    let after = run calls m in
    rw (not_timer id (lookup car after.pending) (run-IsStale car id calls m stale).1.1) refl
