-- ===== src/Friend/Authority.antt =====
-- Who may do what to a grant: the checks of `ownerGrant`, `validOwner` and `active` behind each
-- successful operation of internal/friendtogether/store.go.
use my_t_companion.Friend.Projection.{project_snapshot}
use my_t_companion.Base.{◌≡◌, refl, true, false, Option, none, some, arith, inr, ◌⊎◌, inl}
use my_t_companion.Base.Int.{ℤ, pos, ◌≤ℤ◌, ◌<ℤ◌, eqb_ℤ_iff, ◌+ℤ◌}
use my_t_companion.Base.Eq.{bytes_key}
use my_t_companion.Base.Maps.{lookup}
use my_t_companion.Friend.Types.{
  Result, ok, err, Error, Binding, SourceKey, OwnerPrincipal, Grant, Store, Snapshot,
  SourceSnapshot,
}
use my_t_companion.Friend.Identity.{
  normalize_binding, normalize_source, valid_owner, owner_matches_request,
}
use my_t_companion.Friend.Normal.{binding_eq→eq, source_eq→eq}
use my_t_companion.Friend.Grant.{active}
use my_t_companion.Friend.Operations.{find_grant, owner_grant, owned_grant, deliver}

-- What a grant found by `ownerGrant` has to do with the request.
pub record IsNamed (s : Store) (binding : Binding) (source : SourceKey) (revision : ℤ) (g : Grant)
    : Type 0 where
  pub stored : lookup (normalize_binding binding).0.grant_id s.grants ≡ some g
  pub binding_ok : normalize_binding binding ≡ (g.metadata.binding, true)
  pub source_ok : normalize_source source ≡ (g.source, true)
  pub revision_ok : g.metadata.revision ≡ revision
  pub revision_pos : pos 1 ≤ℤ revision

pub find_grant-ok :
    (b : Binding) (key : SourceKey) (revision : ℤ) (o : Option Grant) (g : Grant)
    → find_grant b key revision o ≡ ok g
    → (o ≡ some g)
      × (g.metadata.binding ≡ b)
      × (g.source ≡ key)
      × (g.metadata.revision ≡ revision)
      × (pos 1 ≤ℤ revision)
unfolding find_grant
find_grant-ok b key revision none g h = cc
find_grant-ok b key revision (some x) g h = ground (
  arith,
  binding_eq→eq x.metadata.binding b,
  source_eq→eq x.source key,
  eqb_ℤ_iff x.metadata.revision revision,
)

pub owner_grant-IsNamed :
    (s : Store) (binding : Binding) (source : SourceKey) (revision : ℤ) (g : Grant)
    → owner_grant s binding source revision ≡ ok g
    → IsNamed s binding source revision g
unfolding owner_grant
owner_grant-IsNamed s binding source revision g h = ground (
  arith,
  find_grant-ok (normalize_binding binding).0 (normalize_source source).0 revision
      (lookup (normalize_binding binding).0.grant_id s.grants) g,
)

-- A grant that `active` lets through is neither revoked nor expired, and the clock has not gone back.
pub record IsLive (now : ℤ) (g : Grant) : Type 0 where
  pub not_revoked : g.revoked ≡ false
  pub not_expired : g.expired ≡ false
  pub consented : g.metadata.consent_started_at_ms ≤ℤ now
  pub in_order : g.last_server_ms ≤ℤ now
  pub unexpired : now <ℤ g.metadata.expires_at_ms

pub active-IsLive : (g : Grant) (now : ℤ) → (active g now).1 ≡ none → IsLive now g
unfolding active
active-IsLive g now h = ground arith

pub owned_grant-ok :
    (owner : OwnerPrincipal) (s : Store) (binding : Binding) (source : SourceKey) (revision : ℤ)
    (g : Grant)
    → owned_grant owner s binding source revision ≡ ok g
    → (owner_grant s binding source revision ≡ ok g)
      × (owner_matches_request owner binding source ≡ true)
      × (valid_owner owner g.metadata.binding g.source ≡ true)
unfolding owned_grant
owned_grant-ok owner s binding source revision g h = ground arith

Result-cases : (r : Result Grant) → ((g : Grant) × (r ≡ ok g)) ⊎ ((e : Error) × (r ≡ err e))
Result-cases (ok g) = inl (g, refl)
Result-cases (err e) = inr (e, refl)

-- What a delivered snapshot shows of the grant `g` that it was delivered for.
pub record IsDelivered (now : ℤ) (g : Grant) (out : Snapshot) : Type 0 where
  pub same_binding : out.binding ≡ g.metadata.binding
  pub same_revision : out.revision ≡ g.metadata.revision
  pub sent_at : out.server_time_ms ≡ now
  pub numbered : out.sequence ≡ g.sequence +ℤ pos 1

pub deliver-IsDelivered :
    (now : ℤ) (source : SourceSnapshot) (g : Grant) (out : Snapshot)
    → deliver now source g ≡ ok out
    → IsDelivered now g out
unfolding deliver project_snapshot
deliver-IsDelivered now source g out h = ground arith
