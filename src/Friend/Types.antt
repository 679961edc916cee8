-- ===== src/Friend/Types.antt =====
-- The data of internal/friendtogether/types.go, and the grant of internal/friendtogether/store.go.
-- Every `int64` is a signed number; a pointer is an `Option`.
use my_t_companion.Base.{ℕ, ◌*◌, ◌-◌, ◌^◌, Bool, Option, List, ◌≡◌, refl}
use my_t_companion.Base.Int.{ℤ, pos}
use my_t_companion.Base.Eq.{Bytes}
use my_t_companion.Base.Float.{Float64}

abbrev pub max_grants : ℕ
max_grants = 64

abbrev pub max_trajectory_points : ℕ
max_trajectory_points = 500

abbrev pub max_source_trajectory_points : ℕ
max_source_trajectory_points = 5000

abbrev pub max_grant_lifetime_ms : ℤ
max_grant_lifetime_ms = pos (8 * 60 * 60 * 1000)

abbrev pub max_timestamp_ms : ℤ
max_timestamp_ms = pos 253402300799999

abbrev pub max_int64 : ℤ
max_int64 = pos (2 ^ 63 - 1)

pub data Error : Type 0 where
  invalid not_authorized inactive revision_mismatch order capacity exhausted : Error

-- A Go pair of a value and an error.
pub data Result {ℓ} (V : Type ℓ) : Type ℓ where
  err : Error → Result V
  ok : V → Result V

infixl 5 ◌>>=◌ ◌>>◌
abbrev pub ◌>>=◌ {ℓ κ} : {V : Type ℓ} {W : Type κ} (r : Result V) (next : V → Result W) → Result W
err e >>= next = err e
ok v >>= next = next v

abbrev pub ◌>>◌ {ℓ} : {W : Type ℓ} (check : Result (Unit {0})) (next : Result W) → Result W
check >> next = check >>= λ u. next

-- `if bad { return e }`
abbrev pub refuse_if : Bool → Error → Result (Unit {0})
refuse_if Bool.true e = err e
refuse_if Bool.false e = ok tt

-- The parts of a chain that succeeded.
pub >>=-ok {ℓ κ} :
    {V : Type ℓ} {W : Type κ} (r : Result V) (next : V → Result W) {w : W}
    → (r >>= next) ≡ ok w
    → (v : V) × (r ≡ ok v) × (next v ≡ ok w)
>>=-ok (err e) next h = cc
>>=-ok (ok v) next h = (v, refl, h)

pub ok-injective : {A : Type 0} {a b : A} → ok a ≡ ok b → a ≡ b
ok-injective e = cc

pub refuse_if-ok :
    (bad : Bool) (e : Error) {u : Unit {0}} → refuse_if bad e ≡ ok u → bad ≡ Bool.false
refuse_if-ok Bool.true e h = cc
refuse_if-ok Bool.false e h = refl

pub record Binding : Type 0 where
  pub grant_id : Bytes
  pub issuer_id : Bytes
  pub session_id : Bytes
  pub member_id : Bytes
  pub recipient_id : Bytes

pub record SourceKey : Type 0 where
  pub source_id : Bytes
  pub car_id : ℤ

pub record OwnerPrincipal : Type 0 where
  pub issuer_id : Bytes
  pub source : SourceKey

pub record RecipientPrincipal : Type 0 where
  pub recipient_id : Bytes

pub record Permissions : Type 0 where
  pub location : Bool
  pub navigation : Bool
  pub battery : Bool
  pub trajectory : Bool

pub record DestinationAlias : Type 0 where
  pub navigation_revision : ℤ
  pub value : Bytes

pub record GrantSpec : Type 0 where
  pub binding : Binding
  pub source : SourceKey
  pub permissions : Permissions
  pub expires_at_ms : ℤ
  pub destination_alias : Option DestinationAlias

pub record GrantMetadata : Type 0 where
  pub binding : Binding
  pub revision : ℤ
  pub consent_started_at_ms : ℤ
  pub expires_at_ms : ℤ
  pub permissions : Permissions

-- `other` is any string that is none of the six constants.
pub data State : Type 0 where
  driving parked charging asleep offline unknown : State
  other : Bytes → State

pub record Motion : Type 0 where
  pub latitude : Option Float64
  pub longitude : Option Float64
  pub speed_kph : Option Float64
  pub heading_degrees : Option Float64
  pub observed_at_ms : Option ℤ

pub record Navigation : Type 0 where
  pub revision : ℤ
  pub destination : Option Bytes
  pub latitude : Option Float64
  pub longitude : Option Float64
  pub remaining_distance_km : Option Float64
  pub remaining_minutes : Option Float64
  pub observed_at_ms : ℤ

pub record Battery : Type 0 where
  pub percentage : Option Float64
  pub rated_range_km : Option Float64
  pub observed_at_ms : ℤ

pub record TrajectoryPoint : Type 0 where
  pub latitude : Float64
  pub longitude : Float64
  pub observed_at_ms : ℤ

-- `SchemaVersion` is the constant 1 of every snapshot and is left out.
pub record Snapshot : Type 0 where
  pub binding : Binding
  pub revision : ℤ
  pub sequence : ℤ
  pub server_time_ms : ℤ
  pub consent_started_at_ms : ℤ
  pub expires_at_ms : ℤ
  pub state : State
  pub motion : Motion
  pub navigation : Option Navigation
  pub battery : Option Battery
  pub trajectory : Option (List TrajectoryPoint)

pub record NavigationObservation : Type 0 where
  pub revision : ℤ
  pub latitude : Option Float64
  pub longitude : Option Float64
  pub remaining_distance_km : Option Float64
  pub remaining_minutes : Option Float64
  pub observed_at_ms : ℤ

pub record SourceSnapshot : Type 0 where
  pub source : SourceKey
  pub state : State
  pub motion : Option Motion
  pub navigation : Option NavigationObservation
  pub battery : Option Battery
  pub trajectory : List TrajectoryPoint

pub record DestinationIdentity : Type 0 where
  pub alias : Option Bytes
  pub latitude : Option Float64
  pub longitude : Option Float64

pub record Grant : Type 0 where
  pub metadata : GrantMetadata
  pub source : SourceKey
  pub alias : Option DestinationAlias
  pub revoked : Bool
  pub expired : Bool
  pub sequence : ℤ
  pub last_server_ms : ℤ
  pub last_motion_ms : Option ℤ
  pub last_navigation_ms : Option ℤ
  pub last_battery_ms : Option ℤ
  pub last_trajectory_ms : Option ℤ
  pub last_navigation_revision : ℤ
  pub navigation_withdrawn : Bool
  pub last_destination : Option DestinationIdentity

-- The map of `Store`; the mutex makes each operation one step, and the clock is its argument.
pub record Store : Type 0 where
  pub grants : List (Bytes × Grant)
