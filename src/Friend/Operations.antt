-- ===== src/Friend/Operations.antt =====
-- The operations of `Store` in internal/friendtogether/store.go, each under its mutex: from the
-- clock's reading, the arguments and the store to the new store and the result.
pub mod Success
pub mod Entitled
use my_t_companion.Base.{
  Bool, true, false, not, ◌&&◌, ◌||◌, Option, none, some, if◌then◌else◌, length, leb, keep,
}
use my_t_companion.Base.Int.{ℤ, pos, ltb_ℤ, leb_ℤ, eqb_ℤ, ◌+ℤ◌, ◌-ℤ◌}
use my_t_companion.Base.Eq.{bytes_eq, bytes_key, Bytes}
use my_t_companion.Base.Maps.{lookup, insert, has_key}
use my_t_companion.Friend.Identity.{
  valid_time, normalize_id, normalize_binding, normalize_source, binding_eq, source_eq, valid_owner,
  owner_matches_request, valid_alias,
}
use my_t_companion.Friend.Grant.{active, check_order, advance}
use my_t_companion.Friend.Projection.{project_snapshot}
use my_t_companion.Friend.Types.{
  Result, ok, err, ◌>>=◌, ◌>>◌, invalid, not_authorized, revision_mismatch, capacity, exhausted,
  Binding, SourceKey, OwnerPrincipal, RecipientPrincipal, Permissions, DestinationAlias, GrantSpec,
  GrantMetadata, Grant, SourceSnapshot, Snapshot, Store, max_grants, max_grant_lifetime_ms,
  max_int64, Error, refuse_if,
}

abbrev pub Outcome : Type 0 → Type 0
Outcome A = Store × Result A

-- `if bad { return e }` before the rest.
unfoldable pub return_if : {A : Type 0} → Bool → Error → Store → Outcome A → Outcome A
return_if true e s rest = (s, err e)
return_if false e s rest = rest

-- `if err != nil { return err }` on what went before.
unfoldable pub on_ok : {A B : Type 0} → Result B → Store → (B → Outcome A) → Outcome A
on_ok (err e) s k = (s, err e)
on_ok (ok b) s k = k b

-- A grant is reached by its own identifier, so a write through the pointer is a write at that key.
abbrev pub put : Grant → Store → Store
put g s = record s { grants = insert g.metadata.binding.grant_id g s.grants }

unfoldable pub is_terminal_before : ℤ → ℤ → Grant → Bool
is_terminal_before now cutoff g =
    leb_ℤ g.metadata.expires_at_ms cutoff && leb_ℤ g.metadata.expires_at_ms now

abbrev pub survives : ℤ → ℤ → Bytes × Grant → Bool
survives now cutoff entry = not (is_terminal_before now cutoff entry.1)

unfoldable pub prune_terminal_before : ℤ → ℤ → Store → Store
prune_terminal_before now cutoff s =
    if not (valid_time cutoff) || ltb_ℤ now cutoff
    then s
    else record s { grants = keep (survives now cutoff) s.grants }

-- The tests of `Create` on the lifetime and the permissions.
unfoldable pub valid_spec : ℤ → GrantSpec → Bool
valid_spec now spec =
    valid_time now
    && spec.permissions.location
    && valid_time spec.expires_at_ms
    && ltb_ℤ now spec.expires_at_ms
    && leb_ℤ (spec.expires_at_ms -ℤ now) max_grant_lifetime_ms

unfoldable pub alias_allowed : GrantSpec → Option DestinationAlias → Bool
alias_allowed spec none = true
alias_allowed spec (some a) = spec.permissions.navigation && valid_alias a

unfoldable pub new_grant : ℤ → Binding → SourceKey → GrantSpec → Grant
new_grant now binding source spec = record {
  metadata = record {
    binding = binding;
    revision = pos 1;
    consent_started_at_ms = now;
    expires_at_ms = spec.expires_at_ms;
    permissions = spec.permissions;
  };
  source = source;
  alias = spec.destination_alias;
  revoked = false;
  expired = false;
  sequence = pos 0;
  last_server_ms = now;
  last_motion_ms = none;
  last_navigation_ms = none;
  last_battery_ms = none;
  last_trajectory_ms = none;
  last_navigation_revision = pos 0;
  navigation_withdrawn = false;
  last_destination = none;
}

unfoldable pub create : ℤ → OwnerPrincipal → GrantSpec → Store → Outcome GrantMetadata
create now owner spec s =
    let (binding, binding_ok) = normalize_binding spec.binding in
    let (source, source_ok) = normalize_source spec.source in
    let g = new_grant now binding source spec in
    return_if (not (valid_owner owner binding source)) not_authorized s (
      return_if (not binding_ok || not source_ok || not (valid_spec now spec)) invalid s (
        return_if (not (alias_allowed spec spec.destination_alias)) invalid s (
          return_if (has_key binding.grant_id s.grants) not_authorized s
            (return_if (leb max_grants (length s.grants)) capacity s (put g s, ok g.metadata)))))

unfoldable pub find_grant : Binding → SourceKey → ℤ → Option Grant → Result Grant
find_grant b key revision none = err not_authorized
find_grant b key revision (some g) =
    if not (binding_eq g.metadata.binding b) || not (source_eq g.source key)
    then err not_authorized
    else if ltb_ℤ revision (pos 1) || not (eqb_ℤ g.metadata.revision revision)
    then err revision_mismatch
    else ok g

unfoldable pub owner_grant : Store → Binding → SourceKey → ℤ → Result Grant
owner_grant s binding source revision =
    let (b, b_ok) = normalize_binding binding in
    let (key, key_ok) = normalize_source source in
    if not b_ok || not key_ok
    then err not_authorized
    else find_grant b key revision (lookup b.grant_id s.grants)

-- The owner's request and the grant that it names.
unfoldable pub owned_grant : OwnerPrincipal → Store → Binding → SourceKey → ℤ → Result Grant
owned_grant owner s binding source revision =
    if not (owner_matches_request owner binding source)
    then err not_authorized
    else owner_grant s binding source revision >>= λ g.
        if not (valid_owner owner g.metadata.binding g.source) then err not_authorized else ok g

abbrev pub next_revision : ℤ → ℤ
next_revision r = if ltb_ℤ r max_int64 then r +ℤ pos 1 else r

abbrev pub with_revision : ℤ → GrantMetadata → GrantMetadata
with_revision r m = record m { revision = r }

unfoldable pub revoke_grant : Grant → Grant
revoke_grant g = if g.revoked then g else record g {
  revoked = true;
  metadata = with_revision (next_revision g.metadata.revision) g.metadata;
}

unfoldable pub revoke : OwnerPrincipal → Binding → SourceKey → ℤ → Store → Outcome GrantMetadata
revoke owner binding source revision s =
    on_ok (owned_grant owner s binding source revision) s
      λ g. (put (revoke_grant g) s, ok (revoke_grant g).metadata)

-- Only fewer permissions, location among them, and an earlier expiry that is still ahead.
unfoldable pub is_restriction : ℤ → GrantMetadata → Permissions → ℤ → Bool
is_restriction now m p expires =
    p.location
    && (not p.navigation || m.permissions.navigation)
    && (not p.battery || m.permissions.battery)
    && (not p.trajectory || m.permissions.trajectory)
    && valid_time expires
    && ltb_ℤ now expires
    && leb_ℤ expires m.expires_at_ms

abbrev pub restricted_metadata : GrantMetadata → Permissions → ℤ → GrantMetadata
restricted_metadata m p expires = record m {
  revision = m.revision +ℤ pos 1;
  permissions = p;
  expires_at_ms = expires;
}

unfoldable pub restrict_grant : ℤ → Permissions → ℤ → Grant → Grant
restrict_grant now p expires g = record g {
  metadata = restricted_metadata g.metadata p expires;
  last_server_ms = now;
  alias = if p.navigation then g.alias else none;
}

unfoldable pub restrict_active : ℤ → Permissions → ℤ → Grant → Store → Outcome GrantMetadata
restrict_active now p expires g s =
    let g' = restrict_grant now p expires g in
    return_if (not (is_restriction now g.metadata p expires)) invalid s
      (return_if (eqb_ℤ g.metadata.revision max_int64) exhausted s (put g' s, ok g'.metadata))

-- `active` may mark the grant, so the store changes on its error path too.
unfoldable pub when_active :
    {A : Type 0} → ℤ → Grant → Store → (Grant → Store → Outcome A) → Outcome A
when_active now g s k = elim (active g now).1 [
  | some e ↦ (put (active g now).0 s, err e)
  | none ↦ k g s
]

unfoldable pub restrict :
    ℤ → OwnerPrincipal → Binding → SourceKey → ℤ → Permissions → ℤ → Store → Outcome GrantMetadata
restrict now owner binding source revision p expires s =
    on_ok (owned_grant owner s binding source revision) s
      λ g. when_active now g s (restrict_active now p expires)

-- A snapshot that is complete and in order, with its number in the sequence.
unfoldable pub deliver : ℤ → SourceSnapshot → Grant → Result Snapshot
deliver now source g = do
  refuse_if (eqb_ℤ g.sequence max_int64) exhausted
  out ← project_snapshot g source now
  check_order g out
  ok (record out { sequence = g.sequence +ℤ pos 1 })

unfoldable pub project_active : ℤ → SourceSnapshot → Grant → Store → Outcome Snapshot
project_active now source g s =
    on_ok (deliver now source g) s λ out. (put (advance now out g) s, ok out)

unfoldable pub same_recipient : RecipientPrincipal → Binding → Bool
same_recipient recipient binding =
    let (id, id_ok) = normalize_id recipient.recipient_id in
    let (requested, requested_ok) = normalize_id binding.recipient_id in
    id_ok && requested_ok && bytes_eq id requested

unfoldable pub project :
    ℤ → RecipientPrincipal → Binding → ℤ → SourceSnapshot → Store → Outcome Snapshot
project now recipient binding revision source s =
    return_if (not (same_recipient recipient binding)) not_authorized s (
      on_ok (owner_grant s binding source.source revision) s
        λ g. when_active now g s (project_active now source))
