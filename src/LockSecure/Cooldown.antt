-- ===== src/LockSecure/Cooldown.antt =====
-- Alerts of a car keep their distance (lock_secure_notification.go).
use my_t_companion.LockSecure.FanOut.{finish_fan_out, Sent}
use my_t_companion.Base.Maps.{
  lookup-map, lookup-keep_keys, lookup, has_key, insert, lookup-insert, delete,
}
use my_t_companion.Base.Eq.{Bytes, nat_key, pair_key}
use my_t_companion.LockSecure.{
  LockSecureEvidence, LockSecureMonitor, car_of, LockSecureCarState, evidence_of, or_car,
}
use my_t_companion.Base.{
  ℕ, List, Bool, ◌≡◌, true, Option, some, arith, ◌∷◌, refl, ◌≢◌, Bool-cases, ◌⊎◌, ◌||◌, false, [],
  none, inl, inr, ◌==◌, ==_iff, ◌∙◌, ap, subst, not, All, keep, Option-cases, neq-==, ◌+◌, ◌≤◌,
}
use my_t_companion.LockSecure.Finish.{
  launch, Launch, origin_id, is_cooling, finish_pending, is_timer,
}
use my_t_companion.LockSecure.Observe.{
  schedule, reset_evidence, observe_message, reconcile_fleet, read_field, summarize, read_shift,
  expire_lock, forget_car, is_unlisted,
}
use my_t_companion.Base.Clock.{Stamp, Time, stamp_seconds, minutes}
use my_t_companion.LockSecure.Evidence.{
  Field, healthy_field, display_name_field, locked_field, is_user_present_field, state_field,
  shift_state_field, doors_open_field, trunk_open_field, frunk_open_field, unlisted_field,
  observe_evidence, ready,
}
use my_t_companion.LockSecure.Calls.{
  reconcile, Call, launches, call, message, reset, timer_fired, fanned_out,
}

abbrev pub pushed_at : ℕ → LockSecureMonitor → Stamp
pushed_at car m = (car_of car m).last_pushed_at

-- The call does not take the car out of the fleet.
unfoldable pub keeps_car : ℕ → Call → Bool
keeps_car car (reconcile in_fleet) = in_fleet car
keeps_car car _ = true

-- At least three minutes since the stamp, if there is one
pub IsCooled : Stamp → Time → Type 0
IsCooled none now = Unit
IsCooled (some at) now = at + minutes 3 ≤ now

is_cooling-IsCooled :
    (previous : Stamp) (now : Time) → is_cooling now previous ≡ false → IsCooled previous now
unfolding IsCooled
is_cooling-IsCooled none now h = tt
is_cooling-IsCooled (some at) now h = ground (arith, h)

-- Each alert comes three minutes after the second of the one before, at the earliest.
abbrev pub IsSpaced : Stamp → List Launch → Type 0
IsSpaced previous [] = Unit
IsSpaced previous (l ∷ ls) =
    IsCooled previous l.observed_at × IsSpaced (stamp_seconds l.observed_at) ls

read_field-last_pushed_at :
    (field : Field) (raw : Bytes) (c : LockSecureCarState)
    → (summarize (read_field field raw c)).last_pushed_at ≡ c.last_pushed_at
unfolding read_field summarize read_shift
read_field-last_pushed_at healthy_field raw c = refl
read_field-last_pushed_at display_name_field raw c = refl
read_field-last_pushed_at locked_field raw c = refl
read_field-last_pushed_at is_user_present_field raw c = refl
read_field-last_pushed_at state_field raw c = refl
read_field-last_pushed_at shift_state_field raw c = refl
read_field-last_pushed_at doors_open_field raw c = refl
read_field-last_pushed_at trunk_open_field raw c = refl
read_field-last_pushed_at frunk_open_field raw c = refl
read_field-last_pushed_at unlisted_field raw c = refl

pub schedule-cars :
    (car : ℕ) (field : Field) (e : LockSecureEvidence) (m : LockSecureMonitor)
    → (schedule car field e m).cars ≡ m.cars
unfolding schedule
schedule-cars car field e m = ground arith

observe_message-pushed_at :
    (car j : ℕ) (field : Field) (raw : Bytes) (at : Time) (retained : Bool) (m : LockSecureMonitor)
    → pushed_at car (observe_message j field raw at retained m) ≡ pushed_at car m
unfolding observe_message
observe_message-pushed_at car j field raw at retained m =
    let previous = car_of j m in
    let current = summarize (read_field field raw previous) in
    let seen =
      expire_lock at (observe_evidence previous current field retained at (evidence_of j m)) in
    elim (Bool-cases (is_unlisted field)) [
      | inl unlisted ↦ rw (pushed_at, unlisted) refl
      | inr listed ↦
          rw
            (
              pushed_at,
              listed,
              schedule-cars j field seen (record m {
                cars = insert j current m.cars;
                evidence = insert j seen m.evidence;
              }),
              lookup-insert j car current m.cars,
            )
            (elim (Bool-cases (j == car)) [
              | inr elsewhere ↦ rw elsewhere refl
              | inl here ↦ rw here (
                  read_field-last_pushed_at field raw previous
                  ∙ ap (λ i. pushed_at i m) ((==_iff j car).0 here))
            ])
    ]

reset_evidence-pushed_at :
    (car : ℕ) (m : LockSecureMonitor) → pushed_at car (reset_evidence m) ≡ pushed_at car m
unfolding reset_evidence
reset_evidence-pushed_at car m =
    rw (pushed_at, lookup-map (λ id c. forget_car c) car m.cars)
      (elim (lookup car m.cars)
        as (λ o.
          (or_car (elim o [ none ↦ none | some v ↦ some (forget_car v) ])).last_pushed_at
          ≡ (or_car o).last_pushed_at) [ none ↦ refl | some c ↦ refl ])

reconcile_fleet-pushed_at :
    (car : ℕ) (in_fleet : ℕ → Bool) (m : LockSecureMonitor)
    → in_fleet car ≡ true
    → pushed_at car (reconcile_fleet in_fleet m) ≡ pushed_at car m
unfolding reconcile_fleet
reconcile_fleet-pushed_at car in_fleet m stays =
    rw (pushed_at, lookup-keep_keys in_fleet car m.cars, stays) refl

-- What a timer does to the time of the last alert of a car
abbrev IsPushed : ℕ → LockSecureMonitor → LockSecureMonitor × Option Launch → Type 0
IsPushed car m next =
    ((pushed_at car next.0 ≡ pushed_at car m) × ((l : Launch) → next.1 ≡ some l → l.car ≢ car))
    ⊎ ((l : Launch) × ((next.1 ≡ some l)
          × (l.car ≡ car)
          × (pushed_at car next.0 ≡ stamp_seconds l.observed_at)
          × (is_cooling l.observed_at (pushed_at car m) ≡ false)))

launch-IsPushed : (car j : ℕ) (now : Time) (m : LockSecureMonitor) → IsPushed car m (launch j now m)
unfolding launch
launch-IsPushed car j now m =
    let origin = origin_id j now in
    let pushed = record (car_of j m) { last_pushed_at = stamp_seconds now } in
    elim (Bool-cases (
      is_cooling now (car_of j m).last_pushed_at
      || has_key origin m.delivered
      || has_key origin m.in_flight)) [
        | inl refused ↦ rw refused (inl (refl, λ l h same. cc))
        | inr free ↦ rw free (elim (Bool-cases (j == car)) [
          | inr elsewhere ↦ inl (
            rw (pushed_at, lookup-insert j car pushed m.cars, elsewhere) refl,
            λ l h same. ground (arith, h, same, elsewhere),
          )
          | inl here ↦ inr (
            _,
            (
              refl,
              (==_iff j car).0 here,
              rw (pushed_at, lookup-insert j car pushed m.cars, here) refl,
              subst (λ i. is_cooling now (pushed_at i m) ≡ false) ((==_iff j car).0 here)
                  (ground (arith, free)),
            ),
          )
        ])
      ]

finish_pending-IsPushed :
    (car j id : ℕ) (targets : ℕ → Bool) (now : Time) (m : LockSecureMonitor)
    → IsPushed car m (finish_pending targets j id now m)
unfolding finish_pending
finish_pending-IsPushed car j id targets now m =
    let unfit =
      not m.connected || not (ready (car_of j m) now (evidence_of j m)) || not (targets j) in
    elim (Bool-cases (is_timer id (lookup j m.pending))) [
      | inr stale ↦ rw stale (inl (refl, λ l h same. cc))
      | inl current ↦ elim (Bool-cases unfit) [
        | inl unready ↦ rw (current, unready) (inl (refl, λ l h same. cc))
        | inr fit ↦
            rw (current, fit)
              (launch-IsPushed car j now (record m { pending = delete j m.pending }))
      ]
    ]

finish_fan_out-pushed_at :
    (car : ℕ) (l : Launch) (sent : Sent) (m : LockSecureMonitor)
    → pushed_at car (finish_fan_out l sent m) ≡ pushed_at car m
unfolding finish_fan_out
finish_fan_out-pushed_at car l sent m = elim (Bool-cases sent.complete) [
  | inl all_sent ↦ rw (pushed_at, all_sent) refl
  | inr cut ↦ rw (pushed_at, cut) refl
]

call-IsPushed :
    (car : ℕ) (c : Call) (m : LockSecureMonitor)
    → keeps_car car c ≡ true
    → IsPushed car m (call c m)
unfolding call keeps_car finish_fan_out
call-IsPushed car (message j field raw at retained) m stays =
    inl (observe_message-pushed_at car j field raw at retained m, λ l h same. cc)
call-IsPushed car (reset connected) m stays = inl (reset_evidence-pushed_at car m, λ l h same. cc)
call-IsPushed car (reconcile in_fleet) m stays =
    inl (reconcile_fleet-pushed_at car in_fleet m stays, λ l h same. cc)
call-IsPushed car (timer_fired targets j id now) m stays =
    finish_pending-IsPushed car j id targets now m
call-IsPushed car (fanned_out l sent) m stays =
    inl (finish_fan_out-pushed_at car l sent m, λ l h same. cc)

-- While a car stays in the fleet each alert of it starts at least three minutes after the whole second in
-- which the one before started, across connections too; the first, after the time that the monitor keeps.
pub launches-IsSpaced :
    (car : ℕ) (calls : List Call) (m : LockSecureMonitor)
    → All (λ c. keeps_car car c ≡ true) calls
    → IsSpaced (pushed_at car m) (keep (λ (l : Launch). l.car == car) (launches calls m))
unfolding launches
launches-IsSpaced car [] m stays = tt
launches-IsSpaced car (c ∷ cs) m stays =
    let next = call c m in
    let rest = launches-IsSpaced car cs next.0 stays.1 in
    elim (call-IsPushed car c m stays.0) [
      | inr (l, (started, mine, pushed, warm)) ↦
          rw (started, (==_iff l.car car).1 mine)
            (
              is_cooling-IsCooled (pushed_at car m) l.observed_at warm,
              subst (λ p. IsSpaced p (keep (λ (x : Launch). x.car == car) (launches cs next.0)))
                  pushed rest,
            )
      | inl (same, others) ↦
          let kept =
            subst (λ p. IsSpaced p (keep (λ (x : Launch). x.car == car) (launches cs next.0))) same
              rest in
          elim (Option-cases next.1) [
            | inl nothing ↦ rw nothing kept
            | inr (l, started) ↦ rw (started, neq-== l.car car (others l started)) kept
          ]
    ]
