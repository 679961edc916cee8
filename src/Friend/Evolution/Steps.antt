-- ===== src/Friend/Evolution/Steps.antt =====
-- Each operation's effect on the grant that it reaches is one of the changes allowed
-- (internal/friendtogether/store.go).
use my_t_companion.Friend.Change.{GrantStep, lapse, show, narrow, withdraw}
use my_t_companion.Friend.Authority.{IsLive}
use my_t_companion.Friend.Evolution.{
  Evolves, Snapshot, Evolves-refl, IsNarrower, IsOrdered, IsNarrower-refl, revision_after-le,
  deliver-IsOrdered, check_motion-IsLater, IsLater-refl, check_battery-IsLater,
  check_navigation-IsLater, check_trajectory-IsLater,
}
use my_t_companion.Base.Int.{ℤ, ◌≤ℤ◌, +ℤ_parts, ◌<ℤ◌, pos, pos_parts}
use my_t_companion.Friend.Operations.{is_restriction, revoke_grant, restrict_grant, next_revision}
use my_t_companion.Friend.Grant.{active, advance}
use my_t_companion.Base.{◌≡◌, refl, arith, true, implies_refl}
use my_t_companion.Friend.Types.{Grant, Permissions, GrantMetadata}

active-Evolves : (g : Grant) (now : ℤ) → Evolves g (active g now).0
unfolding active
active-Evolves g now = ground (arith, Evolves-refl g)

next_revision-le : (r : ℤ) → r ≤ℤ next_revision r
next_revision-le r = ground (arith, +ℤ_parts r (pos 1), pos_parts 1)

revoke_grant-Evolves : (g : Grant) → Evolves g (revoke_grant g)
unfolding revoke_grant
revoke_grant-Evolves g = ground (arith, Evolves-refl g, next_revision-le g.metadata.revision)

pub is_restriction-IsNarrower :
    (now : ℤ) (m : GrantMetadata) (p : Permissions) (expires : ℤ)
    → m.permissions.location ≡ true
    → is_restriction now m p expires ≡ true
    → IsNarrower m.permissions p
      × (now <ℤ expires)
      × (expires ≤ℤ m.expires_at_ms)
      × (p.location ≡ true)
unfolding is_restriction
is_restriction-IsNarrower now m p expires l h = ground arith

restrict_grant-Evolves :
    (now : ℤ) (p : Permissions) (expires : ℤ) (g : Grant)
    → g.metadata.permissions.location ≡ true
    → IsLive now g
    → is_restriction now g.metadata p expires ≡ true
    → Evolves g (restrict_grant now p expires g)
unfolding restrict_grant
restrict_grant-Evolves now p expires g l live h = ground (
  arith,
  is_restriction-IsNarrower now g.metadata p expires l h,
  IsLater-refl g.last_motion_ms,
  IsLater-refl g.last_battery_ms,
  IsLater-refl g.last_navigation_ms,
  IsLater-refl g.last_trajectory_ms,
  +ℤ_parts g.metadata.revision (pos 1),
  pos_parts 1,
)

advance-Evolves :
    (now : ℤ) (g : Grant) (out : Snapshot)
    → IsLive now g
    → IsOrdered g out
    → Evolves g (advance now out g)
unfolding advance
advance-Evolves now g out live o = record {
  binding = refl;
  source = refl;
  consent = refl;
  narrower = IsNarrower-refl g.metadata.permissions;
  expiry = omega arith;
  revision = omega arith;
  revoked = implies_refl g.revoked;
  expired = implies_refl g.expired;
  server = live.in_order;
  sequence = omega (arith, +ℤ_parts g.sequence (pos 1), pos_parts 1);
  navigation_revision = revision_after-le g out.navigation o.navigation;
  motion_time = check_motion-IsLater g out.motion.observed_at_ms o.motion;
  battery_time = check_battery-IsLater g out.battery o.battery;
  navigation_time = check_navigation-IsLater g out.navigation o.navigation;
  trajectory_time = check_trajectory-IsLater g out.trajectory o.trajectory;
}

-- Location is the permission that every grant keeps.
pub GrantStep-Evolves :
    {now : ℤ} {g h : Grant}
    → g.metadata.permissions.location ≡ true
    → GrantStep now g h
    → Evolves g h
GrantStep-Evolves {now} {g} l (lapse e) = active-Evolves g now
GrantStep-Evolves {now} {g} l (show source out live e) =
    advance-Evolves now g out live (deliver-IsOrdered now source g out e)
GrantStep-Evolves {now} {g} l (narrow p expires live allowed room) =
    restrict_grant-Evolves now p expires g l live allowed
GrantStep-Evolves {now} {g} l withdraw = revoke_grant-Evolves g
