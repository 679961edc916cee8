-- ===== src/LockSecure/FanOut.antt =====
-- Sending one alert to the phones (lock_secure_notification.go, `fanOutLockSecure`). Each phone's turn reads
-- the monitor afresh, as other calls may run between the turns.
use my_t_companion.Base.Maps.{delete, insert}
use my_t_companion.Base.Clock.{Time, stamp_seconds}
use my_t_companion.Base.Eq.{Bytes, nat_key, pair_key}
use my_t_companion.LockSecure.{
  lock_secure_is_secure, LockSecureMonitor, evidence_of, car_of, lock_secure_heartbeat_lifetime,
}
use my_t_companion.Base.{
  List, Bool, true, ltb, length, ◌&&◌, ◌∷◌, ◌==◌, leb, ◌+◌, if◌then◌else◌, [], false,
}
use my_t_companion.LockSecure.Finish.{Launch}

-- A phone; the monitor, `hasLockSecureTargets` and the clock at its turn; and whether the delivery succeeds.
pub record Turn : Type 0 where
  pub installation : Bytes
  pub view : LockSecureMonitor
  pub has_targets : Bool
  pub now : Time
  pub succeeds : Bool

-- `time.Since` may be negative, which is recent enough here.
unfoldable pub still_valid : Launch → Bool → Time → LockSecureMonitor → Bool
unfolding lock_secure_is_secure
still_valid l has_targets now m =
    let e = evidence_of l.car m in
    m.connected
    && e.presence_live
    && e.stable_since == l.stable_since
    && lock_secure_is_secure (car_of l.car m)
    && has_targets
    && leb now (e.last_healthy_at + lock_secure_heartbeat_lifetime)

pub record Sent : Type 0 where
  pub installations : List Bytes
  pub complete : Bool

-- The phones that are sent to, in order, and whether each turn took place and succeeded.
unfoldable pub send_turns : Launch → List Turn → Sent
unfolding still_valid
send_turns l [] = record { installations = []; complete = true }
send_turns l (t ∷ ts) =
    let rest = send_turns l ts in
    if still_valid l t.has_targets t.now t.view
    then record {
      installations = t.installation ∷ rest.installations;
      complete = t.succeeds && rest.complete;
    }
    else record { installations = []; complete = false }

-- With no phone nothing is delivered.
unfoldable pub fan_out : Launch → List Turn → Sent
unfolding send_turns
fan_out l turns =
    let sent = send_turns l turns in
    record sent { complete = ltb 0 (length turns) && sent.complete }

-- The end of the fan-out; `m` is the monitor then.
unfoldable pub finish_fan_out : Launch → Sent → LockSecureMonitor → LockSecureMonitor
finish_fan_out l sent m =
    let settled = record m { in_flight = delete l.origin m.in_flight } in
    if sent.complete
    then record settled { delivered = insert l.origin (stamp_seconds l.observed_at) m.delivered }
    else settled
