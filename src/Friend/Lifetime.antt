-- ===== src/Friend/Lifetime.antt =====
-- What an owner can rely on over any later history (internal/friendtogether/store.go): restrictions
-- last, and a revoked grant shows nothing again.
use my_t_companion.Friend.Authority.{owner_grant-IsNamed}
use my_t_companion.Friend.Operations.Success.{project-IsProjected, revoke-ok}
use my_t_companion.Friend.Identity.{normalize_binding}
use my_t_companion.Friend.Evolution.Steps.{GrantStep-Evolves}
use my_t_companion.Friend.Change.{GrantStep, lapse, show, narrow, withdraw, wrote, revoke-Write}
use my_t_companion.Friend.Invariant.{Inv, EntryInv, Change-Inv}
use my_t_companion.Friend.Evolution.{Evolves, Evolves-refl, Evolves-trans}
use my_t_companion.Base.Maps.{lookup, All-lookup, lookup-insert_self}
use my_t_companion.Base.Eq.{Bytes, bytes_key}
use my_t_companion.Friend.Operations.{revoke, revoke_grant, project}
use my_t_companion.Base.Int.{ℤ, ◌<ℤ◌}
use my_t_companion.Friend.Trace.{
  run, Request, Stays, Fate, stays, kept, is_call, stepped, dropped, step-Change, step-Write,
  Change-Fate, step, Write-Stays,
}
use my_t_companion.Friend.Grant.{active}
use my_t_companion.Base.{
  ◌≡◌, refl, arith, true, List, some, all, All, ◌∷◌, ◌≢◌, subst, [], sym, ◌∙◌, ap,
}
use my_t_companion.Friend.Types.{
  Grant, OwnerPrincipal, Store, Binding, SourceKey, GrantMetadata, RecipientPrincipal, ok,
  SourceSnapshot, Snapshot,
}

Stays-Evolves :
    {now : ℤ} {k : Bytes} {g : Grant} {t : Store}
    → g.metadata.permissions.location ≡ true
    → Stays now k g t
    → (h : Grant) × (lookup k t.grants ≡ some h) × Evolves g h
Stays-Evolves {now} {k} {g} l (kept look) = (g, look, Evolves-refl g)
Stays-Evolves l (stepped h look gs) = (h, look, GrantStep-Evolves l gs)

-- In a well-formed store, through any calls but `PruneTerminalBefore`, a grant stays under its key with its
-- binding, source and consent time. Its permissions and its expiry only shrink, it stays revoked or expired
-- once it is, and its revision, its sequence, its last navigation revision and its last times (of the
-- server, the motion, the battery, the navigation and the trajectory) never go back.
pub run-Evolves :
    (s : Store) (k : Bytes) (g : Grant) (cs : List (ℤ × Request))
    → Inv s
    → lookup k s.grants ≡ some g
    → all (λ c. is_call c.1) cs ≡ true
    → (h : Grant) × (lookup k (run s cs).grants ≡ some h) × Evolves g h
unfolding run
run-Evolves s k g [] i look calls = (g, look, Evolves-refl g)
run-Evolves s k g (c ∷ cs) i look calls =
    let w = step-Write s c (ground arith) in
    let v = (All-lookup EntryInv k g s.grants i.entries look).1 in
    let (h, at, first) = Stays-Evolves v.location (Write-Stays k g w i look) in
    let (last, there, rest) =
      run-Evolves (step s c) k h cs (Change-Inv (wrote w) i) at (ground arith) in
    (last, there, Evolves-trans first rest)

-- A revoked grant and its expiry.
pub record IsTombstone (s : Store) (k : Bytes) (expires : ℤ) : Type 0 where
  pub grant : Grant
  pub stored : lookup k s.grants ≡ some grant
  pub revoked : grant.revoked ≡ true
  pub expiry : grant.metadata.expires_at_ms ≡ expires

GrantStep-revoked :
    {now : ℤ} {g h : Grant}
    → g.revoked ≡ true
    → GrantStep now g h
    → (h.revoked ≡ true) × (h.metadata.expires_at_ms ≡ g.metadata.expires_at_ms)
unfolding active revoke_grant
GrantStep-revoked r (lapse e) = ground arith
GrantStep-revoked r (show source out live e) = absurd (ground (arith, live.not_revoked))
GrantStep-revoked r (narrow p expires live allowed room) = absurd (ground (arith, live.not_revoked))
GrantStep-revoked r withdraw = ground arith

Fate-IsTombstone :
    {now : ℤ} {k : Bytes} {g : Grant} {t : Store}
    → g.revoked ≡ true
    → now <ℤ g.metadata.expires_at_ms
    → Fate now k g t
    → IsTombstone t k g.metadata.expires_at_ms
Fate-IsTombstone {now} {k} {g} r young (stays (kept look)) = record {
  grant = g;
  stored = look;
  revoked = r;
  expiry = refl;
}
Fate-IsTombstone r young (stays (stepped h look gs)) =
    let (r', e) = GrantStep-revoked r gs in
    record { grant = h; stored = look; revoked = r'; expiry = e }
Fate-IsTombstone r young (dropped old) = absurd (omega arith)

run-IsTombstone :
    (s : Store) (k : Bytes) (expires : ℤ) (cs : List (ℤ × Request))
    → Inv s
    → IsTombstone s k expires
    → All (λ c. c.0 <ℤ expires) cs
    → IsTombstone (run s cs) k expires
unfolding run
run-IsTombstone s k expires [] i t young = t
run-IsTombstone s k expires (c ∷ cs) i t young =
    let w = step-Change s c in
    let next =
      Fate-IsTombstone t.revoked (rw t.expiry young.0) (Change-Fate k t.grant w i t.stored) in
    run-IsTombstone (step s c) k expires cs (Change-Inv w i)
      (subst (IsTombstone (step s c) k) t.expiry next) young.1

revoke_grant-revoked : (g : Grant) → (revoke_grant g).revoked ≡ true
unfolding revoke_grant
revoke_grant-revoked g = ground arith

revoke-IsTombstone :
    (owner : OwnerPrincipal) (binding : Binding) (source : SourceKey) (revision : ℤ) (s : Store)
    (m : GrantMetadata)
    → (revoke owner binding source revision s).1 ≡ ok m
    → IsTombstone (revoke owner binding source revision s).0 m.binding.grant_id m.expires_at_ms
revoke-IsTombstone owner binding source revision s m h =
    let (g, found, same, shown) = revoke-ok owner binding source revision s m h in
    rw (same, ← shown)
      (record {
        grant = revoke_grant g;
        stored =
            lookup-insert_self (revoke_grant g).metadata.binding.grant_id (revoke_grant g) s.grants;
        revoked = revoke_grant-revoked g;
        expiry = refl;
      })

tombstone_refuses :
    (t : Store) (k : Bytes) (expires now : ℤ) (recipient : RecipientPrincipal) (requested : Binding)
    (asked : ℤ) (reading : SourceSnapshot) (out : Snapshot)
    → IsTombstone t k expires
    → (normalize_binding requested).0.grant_id ≡ k
    → (project now recipient requested asked reading t).1 ≢ ok out
tombstone_refuses t k expires now recipient requested asked reading out tomb names shown =
    let (g, p) = project-IsProjected now recipient requested asked reading t out shown in
    let named = owner_grant-IsNamed t requested reading.source asked g p.named in
    let same : some g ≡ some tomb.grant =
      sym named.stored ∙ ap (λ x. lookup x t.grants) names ∙ tomb.stored in
    ground (arith, same, tomb.revoked, p.live.not_revoked)

-- In a well-formed store, once `Revoke` has succeeded, no later `Project` that names its grant returns a
-- snapshot, whatever calls came between, if the clock read less than the grant's expiry at each of them.
pub revoke_final :
    (owner : OwnerPrincipal) (binding : Binding) (source : SourceKey) (revision : ℤ) (s : Store)
    (m : GrantMetadata) (cs : List (ℤ × Request)) (now : ℤ) (recipient : RecipientPrincipal)
    (requested : Binding) (asked : ℤ) (reading : SourceSnapshot) (out : Snapshot)
    → Inv s
    → (revoke owner binding source revision s).1 ≡ ok m
    → All (λ c. c.0 <ℤ m.expires_at_ms) cs
    → (normalize_binding requested).0.grant_id ≡ m.binding.grant_id
    → (project now recipient requested asked reading
        (run (revoke owner binding source revision s).0 cs)).1
      ≢ ok out
revoke_final owner binding source revision s m cs now recipient requested asked reading out i h
      young names =
    let after = (revoke owner binding source revision s).0 in
    let w = (revoke-Write now owner binding source revision s).write in
    let tomb = revoke-IsTombstone owner binding source revision s m h in
    tombstone_refuses (run after cs) m.binding.grant_id m.expires_at_ms now recipient requested
      asked reading out
      (run-IsTombstone after m.binding.grant_id m.expires_at_ms cs (Change-Inv (wrote w) i) tomb
        young)
      names
