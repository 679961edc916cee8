-- ===== src/Friend/Disclosure.antt =====
-- What a projection may show (internal/friendtogether/projection.go): only the permitted categories,
-- only observations made since the consent, and a trajectory in order and of bounded length.
pub mod Snapshots
use my_t_companion.Friend.Grant.{battery_time, navigation_time}
use my_t_companion.Base.Int.{ℤ, ◌≤ℤ◌}
use my_t_companion.Friend.Projection.{
  eligible_time, project_navigation, check_point, project_battery, navigation_at, project_motion,
  collect_points, motion_at, battery_at, navigation_out, after, valid_coordinates, previous_after,
  no_motion, append_point,
}
use my_t_companion.Base.{
  ◌≡◌, refl, arith, Option, List, some, implies, true, All, ◌∷◌, [], is_some, none, subst, ◌⊎◌,
}
use my_t_companion.Friend.Types.{
  Grant, GrantMetadata, ok, TrajectoryPoint, Battery, NavigationObservation, State, Motion,
  Navigation, unknown, ok-injective, >>=-ok,
}

-- A time between the consent and the clock, where there is one.
abbrev pub IsWithin : ℤ → ℤ → Option ℤ → Type 0
IsWithin lo hi none = Unit
IsWithin lo hi (some t) = (lo ≤ℤ t) × (t ≤ℤ hi)

-- Times that rise strictly along the list, from above the one before.
abbrev pub IsIncreasing : Option ℤ → List TrajectoryPoint → Type 0
IsIncreasing previous [] = Unit
IsIncreasing previous (p ∷ ps) =
    (after previous p.observed_at_ms ≡ true) × IsIncreasing (some p.observed_at_ms) ps

abbrev pub IsVisible : ℤ → ℤ → TrajectoryPoint → Type 0
IsVisible lo hi p =
    IsWithin lo hi (some p.observed_at_ms)
    × (valid_coordinates (some p.latitude) (some p.longitude) ≡ true)

pub record IsTrail (lo hi : ℤ) (points : List TrajectoryPoint) : Type 0 where
  pub visible : All (IsVisible lo hi) points
  pub increasing : IsIncreasing none points

eligible_time-IsWithin :
    (observed consent now : ℤ)
    → eligible_time observed consent now ≡ ok true
    → IsWithin consent now (some observed)
unfolding eligible_time
eligible_time-IsWithin observed consent now h = ground arith

motion_at-ok :
    (m : GrantMetadata) (now : ℤ) (s : State) (motion : Motion) (at : Option ℤ)
    (shown : State × Motion)
    → motion.observed_at_ms ≡ at
    → motion_at m now s motion at ≡ ok shown
    → IsWithin m.consent_started_at_ms now shown.1.observed_at_ms
      × ((shown ≡ (unknown, no_motion)) ⊎ (shown ≡ (s, motion)))
unfolding motion_at
motion_at-ok m now s motion none shown e h = ground arith
motion_at-ok m now s motion (some t) shown e h =
    ground (arith, eligible_time-IsWithin t m.consent_started_at_ms now)

pub project_motion-ok :
    (m : GrantMetadata) (now : ℤ) (s : State) (motion : Option Motion) (shown : State × Motion)
    → project_motion m now s motion ≡ ok shown
    → IsWithin m.consent_started_at_ms now shown.1.observed_at_ms
unfolding project_motion
project_motion-ok m now s none shown h = ground arith
project_motion-ok m now s (some motion) shown h =
    (motion_at-ok m now s motion motion.observed_at_ms shown refl h).0

navigation_at-ok :
    (g : Grant) (now : ℤ) (n : NavigationObservation) (shown : Option Navigation)
    → navigation_at g now n ≡ ok shown
    → IsWithin g.metadata.consent_started_at_ms now (navigation_time shown)
unfolding navigation_at navigation_out
navigation_at-ok g now n shown h =
    ground (arith, eligible_time-IsWithin n.observed_at_ms g.metadata.consent_started_at_ms now)

pub project_navigation-ok :
    (g : Grant) (now : ℤ) (n : Option NavigationObservation) (shown : Option Navigation)
    → project_navigation g now n ≡ ok shown
    → (implies (is_some shown) g.metadata.permissions.navigation ≡ true)
      × IsWithin g.metadata.consent_started_at_ms now (navigation_time shown)
unfolding project_navigation
project_navigation-ok g now none shown h = ground arith
project_navigation-ok g now (some n) shown h = ground (arith, navigation_at-ok g now n shown)

battery_at-ok :
    (m : GrantMetadata) (now : ℤ) (b : Battery) (shown : Option Battery)
    → battery_at m now b ≡ ok shown
    → IsWithin m.consent_started_at_ms now (battery_time shown)
unfolding battery_at
battery_at-ok m now b shown h =
    ground (arith, eligible_time-IsWithin b.observed_at_ms m.consent_started_at_ms now)

pub project_battery-ok :
    (m : GrantMetadata) (now : ℤ) (b : Option Battery) (shown : Option Battery)
    → project_battery m now b ≡ ok shown
    → (implies (is_some shown) m.permissions.battery ≡ true)
      × IsWithin m.consent_started_at_ms now (battery_time shown)
unfolding project_battery
project_battery-ok m now none shown h = ground arith
project_battery-ok m now (some b) shown h = ground (arith, battery_at-ok m now b shown)

check_point-ok :
    (m : GrantMetadata) (now : ℤ) (previous : Option ℤ) (p q : TrajectoryPoint)
    → check_point m now previous p ≡ ok (some q)
    → IsVisible m.consent_started_at_ms now q × (after previous q.observed_at_ms ≡ true)
unfolding check_point
check_point-ok m now previous p q h =
    ground (arith, eligible_time-IsWithin p.observed_at_ms m.consent_started_at_ms now)

add_point :
    (m : GrantMetadata) (now : ℤ) (previous : Option ℤ) (p : TrajectoryPoint)
    (o : Option TrajectoryPoint) (rest : List TrajectoryPoint)
    → check_point m now previous p ≡ ok o
    → All (IsVisible m.consent_started_at_ms now) rest
      × IsIncreasing (previous_after o previous) rest
    → All (IsVisible m.consent_started_at_ms now) (append_point o rest)
      × IsIncreasing previous (append_point o rest)
add_point m now previous p none rest h r = r
add_point m now previous p (some q) rest h r =
    let (visible, later) = check_point-ok m now previous p q h in ((visible, r.0), (later, r.1))

pub collect_points-ok :
    (m : GrantMetadata) (now : ℤ) (previous : Option ℤ) (ps kept : List TrajectoryPoint)
    → collect_points m now previous ps ≡ ok kept
    → All (IsVisible m.consent_started_at_ms now) kept × IsIncreasing previous kept
unfolding collect_points
collect_points-ok m now previous [] kept h =
    subst (λ k. All (IsVisible m.consent_started_at_ms now) k × IsIncreasing previous k)
      (ok-injective h) (tt, tt)
collect_points-ok m now previous (p ∷ ps) kept h =
    let (o, checked, tail) = >>=-ok (check_point m now previous p) _ h in
    let (rest, collected, made) =
      >>=-ok (collect_points m now (previous_after o previous) ps) _ tail in
    subst (λ k. All (IsVisible m.consent_started_at_ms now) k × IsIncreasing previous k)
      (ok-injective made)
      (add_point m now previous p o rest checked
        (collect_points-ok m now (previous_after o previous) ps rest collected))
