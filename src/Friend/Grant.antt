-- ===== src/Friend/Grant.antt =====
-- The methods of `grant` in internal/friendtogether/store.go: whether it is live, and whether a
-- snapshot is in order after those that went before.
use my_t_companion.Base.{
  Bool, true, false, not, ◌&&◌, ◌||◌, Option, none, some, List, if◌then◌else◌, last?,
}
use my_t_companion.Base.Int.{ℤ, pos, ltb_ℤ, leb_ℤ, eqb_ℤ, ◌+ℤ◌}
use my_t_companion.Base.Eq.{bytes_eq}
use my_t_companion.Base.Float.{float_eq}
use my_t_companion.Friend.Identity.{valid_time, equal_pointer, regressed}
use my_t_companion.Friend.Types.{
  Error, inactive, order, Result, ok, ◌>>◌, refuse_if, Grant, Snapshot, Navigation, Battery,
  TrajectoryPoint, DestinationIdentity,
}

-- `active` marks a grant that it finds past its expiry.
unfoldable pub active : Grant → ℤ → Grant × Option Error
active g now =
    if g.revoked || g.expired
    then (g, some inactive)
    else if not (valid_time now)
        || ltb_ℤ now g.metadata.consent_started_at_ms
        || ltb_ℤ now g.last_server_ms
    then (g, some order)
    else if leb_ℤ g.metadata.expires_at_ms now
    then (record g { expired = true }, some inactive)
    else (g, none)

unfoldable pub same_destination : Navigation → DestinationIdentity → Bool
unfolding equal_pointer
same_destination n d =
    equal_pointer bytes_eq n.destination d.alias
    && equal_pointer float_eq n.latitude d.latitude
    && equal_pointer float_eq n.longitude d.longitude

unfoldable pub check_destination : Grant → Navigation → Result (Unit {0})
check_destination g n =
    if not (eqb_ℤ n.revision g.last_navigation_revision) then ok tt else elim g.last_destination [
      | none ↦ ok tt
      | some d ↦ refuse_if (not (same_destination n d)) order
    ]

unfoldable pub check_motion : Grant → Option ℤ → Result (Unit {0})
check_motion g at = refuse_if (regressed at g.last_motion_ms) order

unfoldable pub check_battery : Grant → Option Battery → Result (Unit {0})
check_battery g none = ok tt
check_battery g (some b) = refuse_if (regressed (some b.observed_at_ms) g.last_battery_ms) order

unfoldable pub check_navigation : Grant → Option Navigation → Result (Unit {0})
unfolding check_destination
check_navigation g none = ok tt
check_navigation g (some n) = do
  refuse_if
      (regressed (some n.observed_at_ms) g.last_navigation_ms
        || ltb_ℤ n.revision g.last_navigation_revision
        || g.navigation_withdrawn && leb_ℤ n.revision g.last_navigation_revision)
      order
  check_destination g n

-- The time of the last point, if the list has one.
abbrev pub last_time : Option (List TrajectoryPoint) → Option ℤ
last_time none = none
last_time (some points) = elim (last? points) [ none ↦ none | some p ↦ some p.observed_at_ms ]

unfoldable pub check_trajectory : Grant → Option (List TrajectoryPoint) → Result (Unit {0})
check_trajectory g points = refuse_if (regressed (last_time points) g.last_trajectory_ms) order

unfoldable pub check_order : Grant → Snapshot → Result (Unit {0})
check_order g out = do
  check_motion g out.motion.observed_at_ms
  check_battery g out.battery
  check_navigation g out.navigation
  check_trajectory g out.trajectory

abbrev pub newer : Option ℤ → Option ℤ → Option ℤ
newer none old = old
newer (some t) old = some t

abbrev pub battery_time : Option Battery → Option ℤ
battery_time none = none
battery_time (some b) = some b.observed_at_ms

abbrev pub navigation_time : Option Navigation → Option ℤ
navigation_time none = none
navigation_time (some n) = some n.observed_at_ms

unfoldable pub revision_after : Option Navigation → ℤ → ℤ
revision_after none old = old
revision_after (some n) old = n.revision

-- Navigation that was shown before and is not shown now counts as withdrawn.
unfoldable pub withdrawn_after : Option Navigation → Grant → Bool
withdrawn_after none g =
    if ltb_ℤ (pos 0) g.last_navigation_revision then true else g.navigation_withdrawn
withdrawn_after (some n) g = false

unfoldable pub destination_after :
    Option Navigation → Option DestinationIdentity → Option DestinationIdentity
destination_after none old = old
destination_after (some n) old =
    some (record { alias = n.destination; latitude = n.latitude; longitude = n.longitude })

-- The part of `Project` that records a delivered snapshot.
unfoldable pub advance : ℤ → Snapshot → Grant → Grant
unfolding revision_after withdrawn_after destination_after
advance now out g = record g {
  sequence = g.sequence +ℤ pos 1;
  last_server_ms = now;
  last_motion_ms = newer out.motion.observed_at_ms g.last_motion_ms;
  last_battery_ms = newer (battery_time out.battery) g.last_battery_ms;
  last_navigation_ms = newer (navigation_time out.navigation) g.last_navigation_ms;
  last_navigation_revision = revision_after out.navigation g.last_navigation_revision;
  navigation_withdrawn = withdrawn_after out.navigation g;
  last_destination = destination_after out.navigation g.last_destination;
  last_trajectory_ms = newer (last_time out.trajectory) g.last_trajectory_ms;
}
