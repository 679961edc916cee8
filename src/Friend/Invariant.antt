-- ===== src/Friend/Invariant.antt =====
-- What holds of every store that is reached by the operations of internal/friendtogether/store.go.
use my_t_companion.Friend.Evolution.{deliver-ok}
use my_t_companion.Friend.Evolution.Steps.{GrantStep-Evolves, is_restriction-IsNarrower}
use my_t_companion.Friend.Normal.{normalize_id_idem}
use my_t_companion.Friend.Authority.{IsLive}
use my_t_companion.Friend.Change.{
  Change, Stored, written, GrantStep, lapse, added, show, narrow, pruned, withdraw, unchanged,
  Write, wrote,
}
use my_t_companion.Base.Maps.{
  IsMap, lookup, All-lookup, insert-IsMap, length-insert_new, length-insert_old, All-insert,
  keep-IsMap,
}
use my_t_companion.Friend.Grant.{active, advance}
use my_t_companion.Base.Int.{
  ℤ, ◌≤ℤ◌, pos, ◌<ℤ◌, ◌+ℤ◌, pos_parts, eqb_ℤ, +ℤ_parts, -ℤ_parts, ltb_ℤ, eqb_ℤ_iff,
}
use my_t_companion.Base.Eq.{Bytes, bytes_key}
use my_t_companion.Friend.Identity.{normalize_binding, valid_time}
use my_t_companion.Friend.Operations.{
  valid_spec, revoke_grant, new_grant, prune_terminal_before, alias_allowed, restrict_grant, put,
  next_revision, deliver, is_restriction, survives,
}
use my_t_companion.Base.{
  ◌≡◌, refl, arith, Bool, true, Option, Bool-cases, length, none, not, ◌≢◌, implies, ◌<◌, some, ◌≤◌,
  is_some, ◌^◌, ◌||◌, if◌then◌else◌, inl, ◌-◌, All, inr, length-keep, All-keep,
}
use my_t_companion.Friend.Types.{
  Grant, Store, Permissions, GrantSpec, SourceSnapshot, Binding, Snapshot, SourceKey, max_int64,
  DestinationAlias, ok, max_grants, max_grant_lifetime_ms,
}

pub record GrantInv (g : Grant) : Type 0 where
  pub normal : normalize_binding g.metadata.binding ≡ (g.metadata.binding, true)
  pub location : g.metadata.permissions.location ≡ true
  pub started : g.metadata.consent_started_at_ms ≤ℤ g.last_server_ms
  pub ahead : g.last_server_ms <ℤ g.metadata.expires_at_ms
  pub short : g.metadata.expires_at_ms ≤ℤ g.metadata.consent_started_at_ms +ℤ max_grant_lifetime_ms
  pub numbered : (pos 1 ≤ℤ g.metadata.revision) × (g.metadata.revision ≤ℤ max_int64)
  pub sequenced : (pos 0 ≤ℤ g.sequence) × (g.sequence ≤ℤ max_int64)
  pub labelled : implies (is_some g.alias) g.metadata.permissions.navigation ≡ true

-- An entry of the map: the key is the grant's own identifier.
abbrev pub EntryInv : Bytes × Grant → Type 0
EntryInv e = (e.1.metadata.binding.grant_id ≡ e.0) × GrantInv e.1

pub record Inv (s : Store) : Type 0 where
  pub keyed : IsMap s.grants
  pub bounded : length s.grants ≤ max_grants
  pub entries : All EntryInv s.grants

lt_of_ne : (a b : ℤ) → a ≤ℤ b → a ≢ b → a +ℤ pos 1 ≤ℤ b
lt_of_ne a b h n = elim (Bool-cases (eqb_ℤ a b)) [
  | inl same ↦ absurd (n ((eqb_ℤ_iff a b).0 same))
  | inr other ↦ ground (arith, +ℤ_parts a (pos 1), pos_parts 1)
]

active-GrantInv : (now : ℤ) (g : Grant) → GrantInv g → GrantInv (active g now).0
unfolding active
active-GrantInv now g v = ground arith

advance-GrantInv :
    (now : ℤ) (source : SourceSnapshot) (g : Grant) (out : Snapshot)
    → IsLive now g
    → deliver now source g ≡ ok out
    → GrantInv g
    → GrantInv (advance now out g)
unfolding advance
advance-GrantInv now source g out live e v = record {
  normal = v.normal;
  location = v.location;
  started = live.consented;
  ahead = live.unexpired;
  short = v.short;
  numbered = v.numbered;
  sequenced = (
    omega (arith, v.sequenced, +ℤ_parts g.sequence (pos 1), pos_parts 1, pos_parts 0),
    lt_of_ne g.sequence max_int64 v.sequenced.1 (deliver-ok now source g out e).4,
  );
  labelled = v.labelled;
}

alias-labelled :
    (allowed : Bool) (a : Option DestinationAlias)
    → implies (is_some (if allowed then a else none)) allowed ≡ true
alias-labelled allowed a = ground arith

restrict_grant-GrantInv :
    (now : ℤ) (p : Permissions) (expires : ℤ) (g : Grant)
    → IsLive now g
    → is_restriction now g.metadata p expires ≡ true
    → g.metadata.revision ≢ max_int64
    → GrantInv g
    → GrantInv (restrict_grant now p expires g)
unfolding restrict_grant
restrict_grant-GrantInv now p expires g live h room v =
    let (narrower, ahead, earlier, located) =
      is_restriction-IsNarrower now g.metadata p expires v.location h in
    record {
      normal = v.normal;
      location = located;
      started = live.consented;
      ahead = ahead;
      short = omega (arith, v.short);
      numbered = (
        omega (arith, v.numbered, +ℤ_parts g.metadata.revision (pos 1), pos_parts 1),
        lt_of_ne g.metadata.revision max_int64 v.numbered.1 room,
      );
      sequenced = v.sequenced;
      labelled = alias-labelled p.navigation g.alias;
    }

next_revision-bounds :
    (r : ℤ)
    → (pos 1 ≤ℤ r) × (r ≤ℤ max_int64)
    → (pos 1 ≤ℤ next_revision r) × (next_revision r ≤ℤ max_int64)
next_revision-bounds r h = ground (arith, +ℤ_parts r (pos 1), pos_parts 1)

revoke_grant-GrantInv : (g : Grant) → GrantInv g → GrantInv (revoke_grant g)
unfolding revoke_grant
revoke_grant-GrantInv g v = ground (arith, next_revision-bounds g.metadata.revision v.numbered)

GrantStep-GrantInv : {now : ℤ} {g h : Grant} → GrantStep now g h → GrantInv g → GrantInv h
GrantStep-GrantInv {now} {g} (lapse e) v = active-GrantInv now g v
GrantStep-GrantInv {now} {g} (show source out live e) v = advance-GrantInv now source g out live e v
GrantStep-GrantInv {now} {g} (narrow p expires live allowed room) v =
    restrict_grant-GrantInv now p expires g live allowed room v
GrantStep-GrantInv {now} {g} withdraw v = revoke_grant-GrantInv g v

valid_spec-bounds :
    (now : ℤ) (spec : GrantSpec)
    → valid_spec now spec ≡ true
    → (spec.permissions.location ≡ true)
      × (now <ℤ spec.expires_at_ms)
      × (spec.expires_at_ms ≤ℤ now +ℤ max_grant_lifetime_ms)
unfolding valid_spec
valid_spec-bounds now spec h =
    ground (arith, -ℤ_parts spec.expires_at_ms now, +ℤ_parts now max_grant_lifetime_ms)

alias_allowed-labelled :
    (spec : GrantSpec) (a : Option DestinationAlias)
    → alias_allowed spec a ≡ true
    → implies (is_some a) spec.permissions.navigation ≡ true
unfolding alias_allowed
alias_allowed-labelled spec none h = refl
alias_allowed-labelled spec (some a) h = ground arith

-- A normal binding is one of accepted identifiers in normal form.
normalize_binding_idem :
    (b c : Binding) → normalize_binding b ≡ (c, true) → normalize_binding c ≡ (c, true)
unfolding normalize_binding
normalize_binding_idem b c h = ground (
  arith,
  normalize_id_idem b.grant_id c.grant_id,
  normalize_id_idem b.issuer_id c.issuer_id,
  normalize_id_idem b.session_id c.session_id,
  normalize_id_idem b.member_id c.member_id,
  normalize_id_idem b.recipient_id c.recipient_id,
)

new_grant-GrantInv :
    (now : ℤ) (binding : Binding) (source : SourceKey) (spec : GrantSpec)
    → normalize_binding binding ≡ (binding, true)
    → valid_spec now spec ≡ true
    → alias_allowed spec spec.destination_alias ≡ true
    → GrantInv (new_grant now binding source spec)
unfolding new_grant
new_grant-GrantInv now binding source spec b v a =
    let (located, ahead, short) = valid_spec-bounds now spec v in
    record {
      normal = b;
      location = located;
      started = omega arith;
      ahead = ahead;
      short = short;
      numbered = (omega arith, omega (arith, pos_parts 1, pos_parts (2 ^ 63 - 1)));
      sequenced = (omega arith, omega (arith, pos_parts 0, pos_parts (2 ^ 63 - 1)));
      labelled = alias_allowed-labelled spec spec.destination_alias a;
    }

-- A write over the grant's own entry, and a new entry.
put-Inv :
    (s : Store) (g h : Grant)
    → Stored s g
    → h.metadata.binding ≡ g.metadata.binding
    → GrantInv h
    → Inv s
    → Inv (put h s)
put-Inv s g h st same v i =
    let k = h.metadata.binding.grant_id in
    let old : lookup k s.grants ≡ some g = rw (same) st in
    record {
      keyed = insert-IsMap k h s.grants i.keyed;
      bounded = omega (arith, length-insert_old k h g s.grants old, i.bounded);
      entries = All-insert EntryInv k h s.grants i.entries (refl, v);
    }

add-Inv :
    (s : Store) (h : Grant)
    → lookup h.metadata.binding.grant_id s.grants ≡ none
    → length s.grants < max_grants
    → GrantInv h
    → Inv s
    → Inv (put h s)
add-Inv s h free room v i =
    let k = h.metadata.binding.grant_id in
    record {
      keyed = insert-IsMap k h s.grants i.keyed;
      bounded = omega (arith, length-insert_new k h s.grants free, room);
      entries = All-insert EntryInv k h s.grants i.entries (refl, v);
    }

prune-Inv : (now cutoff : ℤ) (s : Store) → Inv s → Inv (prune_terminal_before now cutoff s)
unfolding prune_terminal_before
prune-Inv now cutoff s i = elim (Bool-cases (not (valid_time cutoff) || ltb_ℤ now cutoff)) [
  | inl bad ↦ rw bad i
  | inr good ↦ rw good (record {
    keyed = keep-IsMap _ s.grants i.keyed;
    bounded = omega (arith, length-keep (survives now cutoff) s.grants, i.bounded);
    entries = All-keep EntryInv _ s.grants i.entries;
  })
]

pub Stored-GrantInv : (s : Store) (g : Grant) → Stored s g → Inv s → GrantInv g
Stored-GrantInv s g st i =
    (All-lookup EntryInv g.metadata.binding.grant_id g s.grants i.entries st).1

Write-Inv : {now : ℤ} {s t : Store} → Write now s t → Inv s → Inv t
Write-Inv {now} {s} unchanged i = i
Write-Inv {now} {s} (written g h st step) i =
    let v = Stored-GrantInv s g st i in
    put-Inv s g h st (GrantStep-Evolves v.location step).binding (GrantStep-GrantInv step v) i
Write-Inv {now} {s} (added binding source spec b valid labelled free room) i =
    add-Inv s (new_grant now binding source spec) (unfold new_grant in free) room
      (new_grant-GrantInv now binding source spec (normalize_binding_idem spec.binding binding b)
        valid labelled)
      i

pub Change-Inv : {now : ℤ} {s t : Store} → Change now s t → Inv s → Inv t
Change-Inv (wrote w) i = Write-Inv w i
Change-Inv {now} {s} (pruned cutoff) i = prune-Inv now cutoff s i
