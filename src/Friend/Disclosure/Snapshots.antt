-- ===== src/Friend/Disclosure/Snapshots.antt =====
-- Whole snapshots (internal/friendtogether/projection.go, `project`): the four parts together.
use my_t_companion.Base.Eq.{bytes_key}
use my_t_companion.Friend.Authority.{owner_grant-IsNamed}
use my_t_companion.Friend.Operations.Success.{project-IsProjected}
use my_t_companion.Friend.Identity.{normalize_binding}
use my_t_companion.Base.Maps.{lookup}
use my_t_companion.Friend.Evolution.{deliver-ok}
use my_t_companion.Friend.Operations.{deliver, project}
use my_t_companion.Friend.Disclosure.{
  IsWithin, IsIncreasing, >>=-ok, project_motion, IsVisible, navigation_time, IsTrail, ok-injective,
  battery_time, collect_points, collect_points-ok, project_navigation, project_battery,
  project_navigation-ok, project_battery-ok, project_motion-ok,
}
use my_t_companion.Base.Int.{ℤ}
use my_t_companion.Friend.Projection.{
  newest_points, project_trajectory, project_snapshot, visible_trajectory,
}
use my_t_companion.Base.{
  ◌≡◌, refl, arith, ℕ, Option, List, Bool-cases, implies, All, true, false, length, none, ◌≤◌,
  is_some, inr, drop, subst, ◌∷◌, suc, length-drop, some, [], ltb, ◌-◌, zero, inl, All-drop, Bool,
  sym, if◌then◌else◌, not,
}
use my_t_companion.Friend.Types.{
  Grant, GrantMetadata, SourceSnapshot, RecipientPrincipal, Snapshot, ok, TrajectoryPoint, Binding,
  Store, max_trajectory_points, max_source_trajectory_points, refuse_if, invalid,
}

forget-IsIncreasing :
    (previous : Option ℤ) (ps : List TrajectoryPoint)
    → IsIncreasing previous ps
    → IsIncreasing none ps
forget-IsIncreasing previous [] h = tt
forget-IsIncreasing previous (p ∷ ps) h = (refl, h.1)

drop-IsIncreasing :
    (n : ℕ) (previous : Option ℤ) (ps : List TrajectoryPoint)
    → IsIncreasing previous ps
    → IsIncreasing none (drop n ps)
drop-IsIncreasing zero previous ps h = forget-IsIncreasing previous ps h
drop-IsIncreasing (suc n) previous [] h = tt
drop-IsIncreasing (suc n) previous (p ∷ ps) h = drop-IsIncreasing n (some p.observed_at_ms) ps h.1

newest_points-length :
    (ps : List TrajectoryPoint) → length (newest_points ps) ≤ max_trajectory_points
unfolding newest_points
newest_points-length ps = ground (arith, length-drop (length ps - max_trajectory_points) ps)

newest_points-IsTrail :
    (lo hi : ℤ) (ps : List TrajectoryPoint)
    → All (IsVisible lo hi) ps
    → IsIncreasing none ps
    → IsTrail lo hi (newest_points ps)
unfolding newest_points
newest_points-IsTrail lo hi ps a h = elim (Bool-cases (ltb max_trajectory_points (length ps))) [
  | inl long ↦ rw long (record {
    visible = All-drop (IsVisible lo hi) (length ps - max_trajectory_points) ps a;
    increasing = drop-IsIncreasing (length ps - max_trajectory_points) none ps h;
  })
  | inr short ↦ rw short (record { visible = a; increasing = h })
]

-- What is shown of the trajectory.
pub data IsShownTrail (m : GrantMetadata) (now : ℤ) : Option (List TrajectoryPoint) → Type 0 where
  hidden : m.permissions.trajectory ≡ false → IsShownTrail m now none
  trail :
      {ps : List TrajectoryPoint}
      → m.permissions.trajectory ≡ true
      → length ps ≤ max_trajectory_points
      → IsTrail m.consent_started_at_ms now ps
      → IsShownTrail m now (some ps)

visible_trajectory-ok :
    (m : GrantMetadata) (now : ℤ) (points : List TrajectoryPoint)
    (o : Option (List TrajectoryPoint))
    → m.permissions.trajectory ≡ true
    → visible_trajectory m now points ≡ ok o
    → IsShownTrail m now o
unfolding visible_trajectory
visible_trajectory-ok m now points o p h =
    let (room, short, h1) =
      >>=-ok (refuse_if (ltb max_source_trajectory_points (length points)) invalid) _ h in
    let (kept, collected, h2) = >>=-ok (collect_points m now none points) _ h1 in
    let (a, i) = collect_points-ok m now none points kept collected in
    subst (IsShownTrail m now) (ok-injective h2) (
      trail p (newest_points-length kept)
        (newest_points-IsTrail m.consent_started_at_ms now kept a i))

choose_trajectory :
    (m : GrantMetadata) (now : ℤ) (points : List TrajectoryPoint)
    (o : Option (List TrajectoryPoint)) (on : Bool)
    → m.permissions.trajectory ≡ on
    → (if not on then ok none else visible_trajectory m now points) ≡ ok o
    → IsShownTrail m now o
choose_trajectory m now points o false e h = subst (IsShownTrail m now) (ok-injective h) (hidden e)
choose_trajectory m now points o true e h = visible_trajectory-ok m now points o e h

project_trajectory-ok :
    (m : GrantMetadata) (now : ℤ) (points : List TrajectoryPoint)
    (o : Option (List TrajectoryPoint))
    → project_trajectory m now points ≡ ok o
    → IsShownTrail m now o
unfolding project_trajectory
project_trajectory-ok m now points o h =
    choose_trajectory m now points o m.permissions.trajectory refl h

-- A snapshot that shows no more than the grant `m` allows at the time `now`.
pub record IsDisclosed (m : GrantMetadata) (now : ℤ) (out : Snapshot) : Type 0 where
  pub motion : IsWithin m.consent_started_at_ms now out.motion.observed_at_ms
  pub navigation_allowed : implies (is_some out.navigation) m.permissions.navigation ≡ true
  pub navigation_time : IsWithin m.consent_started_at_ms now (navigation_time out.navigation)
  pub battery_allowed : implies (is_some out.battery) m.permissions.battery ≡ true
  pub battery_time : IsWithin m.consent_started_at_ms now (battery_time out.battery)
  pub trajectory : IsShownTrail m now out.trajectory

project_snapshot-IsDisclosed :
    (g : Grant) (source : SourceSnapshot) (now : ℤ) (out : Snapshot)
    → project_snapshot g source now ≡ ok out
    → IsDisclosed g.metadata now out
unfolding project_snapshot
project_snapshot-IsDisclosed g source now out h =
    let (shown, m, h1) = >>=-ok (project_motion g.metadata now source.state source.motion) _ h in
    let (navigation, n, h2) = >>=-ok (project_navigation g now source.navigation) _ h1 in
    let (battery, b, h3) = >>=-ok (project_battery g.metadata now source.battery) _ h2 in
    let (trajectory, t, h4) = >>=-ok (project_trajectory g.metadata now source.trajectory) _ h3 in
    let n_ok = project_navigation-ok g now source.navigation navigation n in
    let b_ok = project_battery-ok g.metadata now source.battery battery b in
    subst (IsDisclosed g.metadata now) (ok-injective h4) (record {
      motion = project_motion-ok g.metadata now source.state source.motion shown m;
      navigation_allowed = n_ok.0;
      navigation_time = n_ok.1;
      battery_allowed = b_ok.0;
      battery_time = b_ok.1;
      trajectory = project_trajectory-ok g.metadata now source.trajectory trajectory t;
    })

pub deliver-IsDisclosed :
    (now : ℤ) (source : SourceSnapshot) (g : Grant) (out : Snapshot)
    → deliver now source g ≡ ok out
    → IsDisclosed g.metadata now out
deliver-IsDisclosed now source g out h =
    let (out0, shown, checked, same, room) = deliver-ok now source g out h in
    let d = project_snapshot-IsDisclosed g source now out0 shown in
    subst (IsDisclosed g.metadata now) (sym same) (record {
      motion = d.motion;
      navigation_allowed = d.navigation_allowed;
      navigation_time = d.navigation_time;
      battery_allowed = d.battery_allowed;
      battery_time = d.battery_time;
      trajectory = d.trajectory;
    })

-- Whatever the source reports, a successful `Project` shows under the grant that it names: a motion with its
-- time from the consent to now, and navigation, a battery or a trail only where the grant permits them, each with times from the consent to now, and a trail
-- of at most 500 points with valid coordinates whose times strictly increase.
pub project-IsDisclosed :
    (now : ℤ) (recipient : RecipientPrincipal) (binding : Binding) (revision : ℤ)
    (source : SourceSnapshot) (s : Store) (out : Snapshot)
    → (project now recipient binding revision source s).1 ≡ ok out
    → (g : Grant) × (lookup (normalize_binding binding).0.grant_id s.grants ≡ some g)
      × IsDisclosed g.metadata now out
project-IsDisclosed now recipient binding revision source s out h =
    let (g, p) = project-IsProjected now recipient binding revision source s out h in
    (
      g,
      (owner_grant-IsNamed s binding source.source revision g p.named).stored,
      deliver-IsDisclosed now source g out p.delivered,
    )
