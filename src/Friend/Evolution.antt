-- ===== src/Friend/Evolution.antt =====
-- How one grant may change over the life of a store (internal/friendtogether/store.go): nothing that
-- the owner withdrew comes back, and the counters do not go back.
pub mod Steps
use my_t_companion.Friend.Identity.{regressed}
use my_t_companion.Friend.Projection.{project_snapshot}
use my_t_companion.Base.Int.{ℤ, ◌≤ℤ◌, ◌+ℤ◌, pos, eqb_ℤ_iff, eqb_ℤ}
use my_t_companion.Friend.Operations.{deliver}
use my_t_companion.Friend.Grant.{
  check_motion, check_order, check_navigation, check_battery, check_trajectory, revision_after,
  newer, battery_time, navigation_time, last_time,
}
use my_t_companion.Base.{
  ◌≡◌, arith, implies, ◌∙◌, true, Option, subst, sym, some, ◌≢◌, none, List, false,
}
use my_t_companion.Friend.Types.{
  Grant, Permissions, Snapshot, SourceSnapshot, ok, Navigation, max_int64, >>=-ok, refuse_if,
  exhausted, refuse_if-ok, Battery, TrajectoryPoint,
}

-- The second set of permissions is part of the first.
pub record IsNarrower (p q : Permissions) : Type 0 where
  pub location : implies q.location p.location ≡ true
  pub navigation : implies q.navigation p.navigation ≡ true
  pub battery : implies q.battery p.battery ≡ true
  pub trajectory : implies q.trajectory p.trajectory ≡ true

-- A time that is kept does not go back, and is not forgotten.
unfoldable pub IsLater : Option ℤ → Option ℤ → Type 0
IsLater none after = Unit
IsLater (some before) none = ⊥
IsLater (some before) (some after) = before ≤ℤ after

pub IsLater-refl : (t : Option ℤ) → IsLater t t
unfolding IsLater
IsLater-refl none = tt
IsLater-refl (some t) = omega arith

IsLater-trans : (a b c : Option ℤ) → IsLater a b → IsLater b c → IsLater a c
unfolding IsLater
IsLater-trans none b c h k = tt
IsLater-trans (some a) none c h k = elim h [ ]
IsLater-trans (some a) (some b) none h k = elim k [ ]
IsLater-trans (some a) (some b) (some c) h k = omega arith

pub newer-IsLater : (at last : Option ℤ) → regressed at last ≡ false → IsLater last (newer at last)
unfolding IsLater regressed
newer-IsLater none last h = IsLater-refl last
newer-IsLater (some t) none h = tt
newer-IsLater (some t) (some last) h = ground (arith, h)

pub record Evolves (g h : Grant) : Type 0 where
  pub binding : h.metadata.binding ≡ g.metadata.binding
  pub source : h.source ≡ g.source
  pub consent : h.metadata.consent_started_at_ms ≡ g.metadata.consent_started_at_ms
  pub narrower : IsNarrower g.metadata.permissions h.metadata.permissions
  pub expiry : h.metadata.expires_at_ms ≤ℤ g.metadata.expires_at_ms
  pub revision : g.metadata.revision ≤ℤ h.metadata.revision
  pub revoked : implies g.revoked h.revoked ≡ true
  pub expired : implies g.expired h.expired ≡ true
  pub server : g.last_server_ms ≤ℤ h.last_server_ms
  pub sequence : g.sequence ≤ℤ h.sequence
  pub navigation_revision : g.last_navigation_revision ≤ℤ h.last_navigation_revision
  pub motion_time : IsLater g.last_motion_ms h.last_motion_ms
  pub battery_time : IsLater g.last_battery_ms h.last_battery_ms
  pub navigation_time : IsLater g.last_navigation_ms h.last_navigation_ms
  pub trajectory_time : IsLater g.last_trajectory_ms h.last_trajectory_ms

pub IsNarrower-refl : (p : Permissions) → IsNarrower p p
IsNarrower-refl p = ground arith

pub Evolves-refl : (g : Grant) → Evolves g g
Evolves-refl g = ground (
  arith,
  IsNarrower-refl g.metadata.permissions,
  IsLater-refl g.last_motion_ms,
  IsLater-refl g.last_battery_ms,
  IsLater-refl g.last_navigation_ms,
  IsLater-refl g.last_trajectory_ms,
)

IsNarrower-trans : {p q r : Permissions} → IsNarrower p q → IsNarrower q r → IsNarrower p r
IsNarrower-trans a b = ground arith

pub Evolves-trans : {g h k : Grant} → Evolves g h → Evolves h k → Evolves g k
Evolves-trans {g} {h} {k} a b = record {
  binding = b.binding ∙ a.binding;
  source = b.source ∙ a.source;
  consent = b.consent ∙ a.consent;
  narrower = IsNarrower-trans a.narrower b.narrower;
  expiry = omega arith;
  revision = omega arith;
  revoked = ground arith;
  expired = ground arith;
  server = omega arith;
  sequence = omega arith;
  navigation_revision = omega arith;
  motion_time =
      IsLater-trans g.last_motion_ms h.last_motion_ms k.last_motion_ms a.motion_time b.motion_time;
  battery_time =
      IsLater-trans g.last_battery_ms h.last_battery_ms k.last_battery_ms a.battery_time
        b.battery_time;
  navigation_time =
      IsLater-trans g.last_navigation_ms h.last_navigation_ms k.last_navigation_ms a.navigation_time
        b.navigation_time;
  trajectory_time =
      IsLater-trans g.last_trajectory_ms h.last_trajectory_ms k.last_trajectory_ms a.trajectory_time
        b.trajectory_time;
}

-- What `checkOrder` found of a delivered snapshot.
pub record IsOrdered (g : Grant) (out : Snapshot) : Type 0 where
  pub motion : check_motion g out.motion.observed_at_ms ≡ ok tt
  pub battery : check_battery g out.battery ≡ ok tt
  pub navigation : check_navigation g out.navigation ≡ ok tt
  pub trajectory : check_trajectory g out.trajectory ≡ ok tt

check_order-IsOrdered : (g : Grant) (out : Snapshot) → check_order g out ≡ ok tt → IsOrdered g out
unfolding check_order
check_order-IsOrdered g out h = ground arith

-- The steps of a delivery that succeeded.
pub deliver-ok :
    (now : ℤ) (source : SourceSnapshot) (g : Grant) (out : Snapshot)
    → deliver now source g ≡ ok out
    → (out0 : Snapshot) × (project_snapshot g source now ≡ ok out0)
      × (check_order g out0 ≡ ok tt)
      × (out ≡ record out0 { sequence = g.sequence +ℤ pos 1 })
      × (g.sequence ≢ max_int64)
unfolding deliver
deliver-ok now source g out h =
    let (free, room, made) = >>=-ok (refuse_if (eqb_ℤ g.sequence max_int64) exhausted) _ h in
    let (out0, shown, rest) = >>=-ok (project_snapshot g source now) _ made in
    let (fine, checked, last) = >>=-ok (check_order g out0) _ rest in
    (
      out0,
      shown,
      checked,
      ground arith,
      λ e. ground (
        arith,
        refuse_if-ok (eqb_ℤ g.sequence max_int64) exhausted room,
        eqb_ℤ_iff g.sequence max_int64,
      ),
    )

pub deliver-IsOrdered :
    (now : ℤ) (source : SourceSnapshot) (g : Grant) (out : Snapshot)
    → deliver now source g ≡ ok out
    → IsOrdered g out
deliver-IsOrdered now source g out h =
    let (out0, shown, checked, same, room) = deliver-ok now source g out h in
    let o : IsOrdered g out0 = check_order-IsOrdered g out0 checked in
    subst (IsOrdered g) (sym same) (record {
      motion = o.motion;
      battery = o.battery;
      navigation = o.navigation;
      trajectory = o.trajectory;
    })

pub check_motion-IsLater :
    (g : Grant) (at : Option ℤ)
    → check_motion g at ≡ ok tt
    → IsLater g.last_motion_ms (newer at g.last_motion_ms)
unfolding check_motion
check_motion-IsLater g at h = newer-IsLater at g.last_motion_ms (ground (arith, h))

pub check_battery-IsLater :
    (g : Grant) (b : Option Battery)
    → check_battery g b ≡ ok tt
    → IsLater g.last_battery_ms (newer (battery_time b) g.last_battery_ms)
unfolding check_battery
check_battery-IsLater g none h = IsLater-refl g.last_battery_ms
check_battery-IsLater g (some b) h =
    newer-IsLater (some b.observed_at_ms) g.last_battery_ms (ground (arith, h))

pub check_navigation-IsLater :
    (g : Grant) (n : Option Navigation)
    → check_navigation g n ≡ ok tt
    → IsLater g.last_navigation_ms (newer (navigation_time n) g.last_navigation_ms)
unfolding check_navigation
check_navigation-IsLater g none h = IsLater-refl g.last_navigation_ms
check_navigation-IsLater g (some n) h =
    newer-IsLater (some n.observed_at_ms) g.last_navigation_ms (ground (arith, h))

pub check_trajectory-IsLater :
    (g : Grant) (points : Option (List TrajectoryPoint))
    → check_trajectory g points ≡ ok tt
    → IsLater g.last_trajectory_ms (newer (last_time points) g.last_trajectory_ms)
unfolding check_trajectory
check_trajectory-IsLater g points h =
    newer-IsLater (last_time points) g.last_trajectory_ms (ground (arith, h))

pub revision_after-le :
    (g : Grant) (n : Option Navigation)
    → check_navigation g n ≡ ok tt
    → g.last_navigation_revision ≤ℤ revision_after n g.last_navigation_revision
unfolding check_navigation revision_after
revision_after-le g none h = omega arith
revision_after-le g (some n) h = ground arith
