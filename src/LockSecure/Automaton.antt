-- ===== src/LockSecure/Automaton.antt =====
-- The monitor as an automaton with two states for each car (lock_secure_notification.go,
-- lock_secure_evidence.go).
use my_t_companion.LockSecure.Observe.{reset_evidence, observe_message}
use my_t_companion.LockSecure.Reported.{
  next_reported, reported, call-next_reported, observe_message-was_unlocked,
}
use my_t_companion.LockSecure.Unlocked.{is_live_lock, is_unlock, observe_message-is_unlock}
use my_t_companion.LockSecure.Ready.{finish_pending-IsJustified}
use my_t_companion.LockSecure.Episodes.{finish_pending-uses, call-lock_at, call-launch}
use my_t_companion.LockSecure.Finish.{Launch, finish_pending}
use my_t_companion.LockSecure.{LockSecureMonitor, evidence_of, is_value}
use my_t_companion.LockSecure.Stale.{run}
use my_t_companion.Base.Maps.{lookup}
use my_t_companion.LockSecure.Evidence.{
  healthy_field, display_name_field, locked_field, is_user_present_field, state_field,
  shift_state_field, doors_open_field, trunk_open_field, frunk_open_field, unlisted_field,
}
use my_t_companion.Base.{
  Bool, ℕ, Option, true, List, false, ◌∷◌, ◌==◌, ◌≡◌, some, [], none, subst, sym, ◌∙◌, refl,
  Bool-cases, inl, inr, ==_iff, arith, Option-cases, neq-==, ◌&&◌,
}
use my_t_companion.LockSecure.Calls.{call, Call, message, reset, reconcile, timer_fired, fanned_out}

-- Whether a lock of the car waits for its alert
pub data Episode : Type 0 where
  closed armed : Episode

abbrev pub is_of : ℕ → Option Launch → Bool
is_of car none = false
is_of car (some l) = l.car == car

-- After the call no lock waits: the car is said not to be locked, a retained message of it is read, or the
-- connection changes.
unfoldable pub is_ending : ℕ → Call → Bool
unfolding is_unlock
is_ending car (message j field raw at retained) = j == car && is_unlock field raw retained
is_ending car (reset connected) = true
is_ending car _ = false

-- What a call may do to the episode of a car, of which `known` was last said of its lock: a live message
-- that the car is locked, after it was said to be unlocked, may arm it; an alert of the car closes it, and
-- so does an ending call; any other call leaves it or closes it with no alert of the car.
pub data EpisodeStep (car : ℕ) (known : Option Bool)
    : Call → Option Launch → Episode → Episode → Type 0 where
  arms :
      (c : Call) (before : Episode)
      → is_live_lock car c ≡ true
      → known ≡ some false
      → EpisodeStep car known c none before armed
  leaves :
      (c : Call) (out : Option Launch) (before : Episode)
      → is_of car out ≡ false
      → (is_ending car c ≡ true → before ≡ closed)
      → EpisodeStep car known c out before before
  closes :
      (c : Call) (out : Option Launch)
      → is_of car out ≡ false
      → EpisodeStep car known c out armed closed
  alerts : (c : Call) (l : Launch) → l.car ≡ car → EpisodeStep car known c (some l) armed closed

-- A run of the automaton beside the calls and the alerts that each starts
pub data EpisodeRun (car : ℕ)
    : Option Bool → List Call → List (Option Launch) → Episode → Episode → Type 0 where
  ended : (known : Option Bool) (e : Episode) → EpisodeRun car known [] [] e e
  then :
      (known : Option Bool) (c : Call) (cs : List Call) (out : Option Launch)
      (outs : List (Option Launch)) (before mid after : Episode)
      → EpisodeStep car known c out before mid
      → EpisodeRun car (next_reported car c known) cs outs mid after
      → EpisodeRun car known (c ∷ cs) (out ∷ outs) before after

abbrev pub episode : Bool → Episode
episode true = closed
episode false = armed

abbrev pub episode_of : ℕ → LockSecureMonitor → Episode
episode_of car m = episode ((evidence_of car m).lock_at == 0)

-- What each call starts
unfoldable pub outputs : List Call → LockSecureMonitor → List (Option Launch)
unfolding call
outputs [] m = []
outputs (c ∷ cs) m = (call c m).1 ∷ outputs cs (call c m).0

call-uses :
    (car : ℕ) (c : Call) (m : LockSecureMonitor) (l : Launch)
    → (call c m).1 ≡ some l
    → l.car ≡ car
    → (evidence_of car (call c m).0).lock_at ≡ 0
unfolding call
call-uses car (message j field raw at retained) m l h mine = absurd (cc)
call-uses car (reset connected) m l h mine = absurd (cc)
call-uses car (reconcile in_fleet) m l h mine = absurd (cc)
call-uses car (timer_fired targets j id now) m l h mine =
    let why = finish_pending-IsJustified targets j id now m l h in
    subst (λ i. (evidence_of i (finish_pending targets j id now m).0).lock_at ≡ 0)
      (sym why.0 ∙ mine) (finish_pending-uses targets j id now m l h)
call-uses car (fanned_out l2 sent) m l h mine = absurd (cc)

call-is_live_lock :
    (car : ℕ) (c : Call) (m : LockSecureMonitor) → is_live_lock car c ≡ true → (call c m).1 ≡ none
unfolding call is_live_lock
call-is_live_lock car (message j field raw at retained) m live = refl
call-is_live_lock car (reset connected) m live = refl
call-is_live_lock car (reconcile in_fleet) m live = refl
call-is_live_lock car (timer_fired targets j id now) m live = absurd (cc)
call-is_live_lock car (fanned_out l sent) m live = refl

call-is_ending :
    (car : ℕ) (c : Call) (m : LockSecureMonitor)
    → is_ending car c ≡ true
    → (evidence_of car (call c m).0).lock_at ≡ 0
unfolding call is_ending reset_evidence lookup
call-is_ending car (message j field raw at retained) m h =
    let same : j ≡ car = (==_iff j car).0 (ground (arith, h)) in
    subst (λ i. (evidence_of i (observe_message j field raw at retained m)).lock_at ≡ 0) same
      (observe_message-is_unlock j field raw at retained m (ground (arith, h)))
call-is_ending car (reset connected) m h = refl
call-is_ending car (reconcile in_fleet) m h = absurd (cc)
call-is_ending car (timer_fired targets j id now) m h = absurd (cc)
call-is_ending car (fanned_out l sent) m h = absurd (cc)

call-was_unlocked :
    (car : ℕ) (c : Call) (m : LockSecureMonitor)
    → is_live_lock car c ≡ true
    → is_value false (reported car m) ≡ false
    → (evidence_of car m).lock_at ≡ 0
    → (evidence_of car (call c m).0).lock_at ≡ 0
unfolding call is_live_lock
call-was_unlocked car (message j locked_field raw at false) m live shut none_yet =
    observe_message-was_unlocked car j raw at m shut none_yet
call-was_unlocked car (message j locked_field raw at true) m live shut none_yet = absurd (cc)
call-was_unlocked car (message j healthy_field raw at retained) m live shut none_yet = absurd (cc)
call-was_unlocked car (message j display_name_field raw at retained) m live shut none_yet =
    absurd (cc)
call-was_unlocked car (message j is_user_present_field raw at retained) m live shut none_yet =
    absurd (cc)
call-was_unlocked car (message j state_field raw at retained) m live shut none_yet = absurd (cc)
call-was_unlocked car (message j shift_state_field raw at retained) m live shut none_yet =
    absurd (cc)
call-was_unlocked car (message j doors_open_field raw at retained) m live shut none_yet =
    absurd (cc)
call-was_unlocked car (message j trunk_open_field raw at retained) m live shut none_yet =
    absurd (cc)
call-was_unlocked car (message j frunk_open_field raw at retained) m live shut none_yet =
    absurd (cc)
call-was_unlocked car (message j unlisted_field raw at retained) m live shut none_yet = absurd (cc)
call-was_unlocked car (reset connected) m live shut none_yet = absurd (cc)
call-was_unlocked car (reconcile in_fleet) m live shut none_yet = absurd (cc)
call-was_unlocked car (timer_fired targets j id now) m live shut none_yet = absurd (cc)
call-was_unlocked car (fanned_out l sent) m live shut none_yet = absurd (cc)

is_value-false : (o : Option Bool) → is_value false o ≡ true → o ≡ some false
is_value-false none h = absurd (cc)
is_value-false (some true) h = absurd (cc)
is_value-false (some false) h = refl

-- A call that starts no alert of the car
quiet-EpisodeStep :
    (car : ℕ) (c : Call) (out : Option Launch) (known : Option Bool) (before after : Bool)
    → is_of car out ≡ false
    → (is_live_lock car c ≡ true → out ≡ none)
    → (is_live_lock car c ≡ false → before ≡ true → after ≡ true)
    → (is_live_lock car c ≡ true → is_value false known ≡ false → before ≡ true → after ≡ true)
    → (is_ending car c ≡ true → after ≡ true)
    → EpisodeStep car known c out (episode before) (episode after)
quiet-EpisodeStep car c out known true true quiet live shut was ends =
    leaves c out closed quiet (λ h. refl)
quiet-EpisodeStep car c out known false false quiet live shut was ends =
    leaves c out armed quiet (λ h. absurd (ground (arith, ends h)))
quiet-EpisodeStep car c out known false true quiet live shut was ends = closes c out quiet
quiet-EpisodeStep car c out known true false quiet live shut was ends =
    elim (Bool-cases (is_live_lock car c)) [
      | inr other ↦ absurd (ground (arith, shut other refl))
      | inl lock ↦ elim (Bool-cases (is_value false known)) [
        | inl unlocked ↦ rw (live lock) (arms c closed lock (is_value-false known unlocked))
        | inr unknown ↦ absurd (ground (arith, was lock unknown refl))
      ]
    ]

-- Each call of the monitor is a step of the automaton of each car.
call-EpisodeStep :
    (car : ℕ) (c : Call) (m : LockSecureMonitor)
    → EpisodeStep car
        (reported car m)
        c
        (call c m).1
        (episode_of car m)
        (episode_of car (call c m).0)
call-EpisodeStep car c m =
    let before = (evidence_of car m).lock_at in
    let after = (evidence_of car (call c m).0).lock_at in
    elim (Bool-cases (is_of car (call c m).1)) [
      | inr quiet ↦
          quiet-EpisodeStep car c (call c m).1 (reported car m) (before == 0) (after == 0) quiet
            (λ lock. call-is_live_lock car c m lock)
            (λ other shut.
              (==_iff after 0).1 (call-lock_at car c m other ((==_iff before 0).0 shut)))
            (λ lock unknown shut.
              (==_iff after 0).1
                (call-was_unlocked car c m lock unknown ((==_iff before 0).0 shut)))
            (λ ending. (==_iff after 0).1 (call-is_ending car c m ending))
      | inl mine ↦ elim (Option-cases (call c m).1) [
        | inl nothing ↦ absurd (ground (arith, mine, nothing))
        | inr (l, started) ↦
            let its_car : l.car ≡ car = (==_iff l.car car).0 (ground (arith, mine, started)) in
            let used = (==_iff after 0).1 (call-uses car c m l started its_car) in
            let was_armed : (before == 0) ≡ false =
              neq-== before 0 (λ none_yet. call-launch car c m l none_yet started its_car) in
            rw (started, was_armed, used) (alerts c l its_car)
      ]
    ]

-- The monitor refines the automaton: any calls, in any order, are a run of it for each car, with the alerts
-- that the monitor starts. In the automaton an alert of the car takes an armed episode and closes it; only a
-- live message that the car is locked arms one, and only where the last that was said of its lock, since the
-- connection began, is that it was unlocked; and none stays armed after a message that the car is not
-- locked, a retained message that is read, or a change of the connection.
pub outputs-EpisodeRun :
    (car : ℕ) (calls : List Call) (m : LockSecureMonitor)
    → EpisodeRun car
        (reported car m)
        calls
        (outputs calls m)
        (episode_of car m)
        (episode_of car (run calls m))
unfolding outputs run
outputs-EpisodeRun car [] m = ended (reported car m) (episode_of car m)
outputs-EpisodeRun car (c ∷ cs) m =
    let next = call c m in
    then (reported car m) c cs next.1 (outputs cs next.0) (episode_of car m) (episode_of car next.0)
      (episode_of car (run cs next.0)) (call-EpisodeStep car c m)
      (subst
        (λ known.
          EpisodeRun car known cs (outputs cs next.0) (episode_of car next.0)
            (episode_of car (run cs next.0)))
        (call-next_reported car c m) (outputs-EpisodeRun car cs next.0))
