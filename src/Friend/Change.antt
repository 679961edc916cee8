-- ===== src/Friend/Change.antt =====
-- Every operation of internal/friendtogether/store.go as a change of the map of grants: which grant
-- it writes, and what the new value has to do with the old one.
use my_t_companion.Friend.Identity.{normalize_binding, normalize_source}
use my_t_companion.Friend.Grant.{active, advance}
use my_t_companion.Friend.Operations.{
  create, restrict, when_active, project_active, restrict_active, owner_grant, put, project, revoke,
  Outcome, is_restriction, deliver, owned_grant, valid_spec, alias_allowed, revoke_grant,
  restrict_grant, new_grant, prune_terminal_before, on_ok, return_if,
}
use my_t_companion.Base.{
  ◌≡◌, refl, Bool, true, false, none, some, arith, ◌≢◌, length, ◌<◌, inl, inr, Option-cases,
}
use my_t_companion.Base.Int.{ℤ, eqb_ℤ_iff}
use my_t_companion.Base.Eq.{bytes_key}
use my_t_companion.Base.Maps.{lookup}
use my_t_companion.Friend.Types.{
  Result, ok, err, Binding, SourceKey, OwnerPrincipal, RecipientPrincipal, Grant, Store, Snapshot,
  SourceSnapshot, GrantSpec, Permissions, max_int64, max_grants, Error,
}
use my_t_companion.Friend.Authority.{IsLive, owner_grant-IsNamed, owned_grant-ok, active-IsLive}

-- One operation's effect on the grant that it reaches.
pub data GrantStep (now : ℤ) (g : Grant) : Grant → Type 0 where
  lapse : (active g now).1 ≢ none → GrantStep now g (active g now).0
  show :
      (source : SourceSnapshot) (out : Snapshot)
      → IsLive now g
      → deliver now source g ≡ ok out
      → GrantStep now g (advance now out g)
  narrow :
      (p : Permissions) (expires : ℤ)
      → IsLive now g
      → is_restriction now g.metadata p expires ≡ true
      → g.metadata.revision ≢ max_int64
      → GrantStep now g (restrict_grant now p expires g)
  withdraw : GrantStep now g (revoke_grant g)

abbrev pub Stored : Store → Grant → Type 0
Stored s g = lookup g.metadata.binding.grant_id s.grants ≡ some g

-- What every operation but the housekeeping does to the map.
pub data Write (now : ℤ) (s : Store) : Store → Type 0 where
  unchanged : Write now s s
  written : (g g' : Grant) → Stored s g → GrantStep now g g' → Write now s (put g' s)
  added :
      (binding : Binding) (source : SourceKey) (spec : GrantSpec)
      → normalize_binding spec.binding ≡ (binding, true)
      → valid_spec now spec ≡ true
      → alias_allowed spec spec.destination_alias ≡ true
      → lookup binding.grant_id s.grants ≡ none
      → length s.grants < max_grants
      → Write now s (put (new_grant now binding source spec) s)

pub data Change (now : ℤ) (s : Store) : Store → Type 0 where
  wrote : {t : Store} → Write now s t → Change now s t
  pruned : (cutoff : ℤ) → Change now s (prune_terminal_before now cutoff s)

pub IsNamed-Stored :
    (s : Store) (binding : Binding) (source : SourceKey) (revision : ℤ) (g : Grant)
    → owner_grant s binding source revision ≡ ok g
    → Stored s g
IsNamed-Stored s binding source revision g h =
    ground (arith, owner_grant-IsNamed s binding source revision g h)

pub owned_grant-Stored :
    (owner : OwnerPrincipal) (s : Store) (binding : Binding) (source : SourceKey) (revision : ℤ)
    (g : Grant)
    → owned_grant owner s binding source revision ≡ ok g
    → Stored s g
owned_grant-Stored owner s binding source revision g e =
    IsNamed-Stored s binding source revision g
      (owned_grant-ok owner s binding source revision g e).0

-- What an outcome did to the store.
pub record Effect (now : ℤ) (s : Store) {A : Type 0} (o : Outcome A) : Type 0 where
  pub write : Write now s o.0

made : {A : Type 0} {now : ℤ} {s : Store} {o : Outcome A} → Write now s o.0 → Effect now s o
made c = record { write = c }

-- Each of the ways in which an operation goes on or returns.
return_if-Write :
    {A : Type 0} (now : ℤ) (s : Store) (bad : Bool) (e : Error) (rest : Outcome A)
    → (bad ≡ false → Effect now s rest)
    → Effect now s (return_if bad e s rest)
unfolding return_if
return_if-Write now s true e rest h = made unchanged
return_if-Write now s false e rest h = h refl

on_ok-Write :
    {A B : Type 0} (now : ℤ) (s : Store) (r : Result B) (k : B → Outcome A)
    → ((b : B) → r ≡ ok b → Effect now s (k b))
    → Effect now s (on_ok r s k)
unfolding on_ok
on_ok-Write now s (ok b) k h = h b refl
on_ok-Write now s (err e) k h = (made unchanged)

when_active-Write :
    {A : Type 0} (now : ℤ) (g : Grant) (s : Store) (k : Grant → Store → Outcome A)
    → Stored s g
    → (IsLive now g → Effect now s (k g s))
    → Effect now s (when_active now g s k)
unfolding when_active
when_active-Write now g s k st live = elim (Option-cases (active g now).1) [
  | inl e ↦ rw (e, when_active) (live (active-IsLive g now e))
  | inr (x, e) ↦ rw (e, when_active) (made (written g (active g now).0 st (lapse (λ q. cc))))
]

project_active-Write :
    (now : ℤ) (source : SourceSnapshot) (g : Grant) (s : Store)
    → Stored s g
    → IsLive now g
    → Effect now s (project_active now source g s)
unfolding project_active
project_active-Write now source g s st live =
    on_ok-Write now s (deliver now source g) _
      λ out e. made (written g (advance now out g) st (show source out live e))

restrict_active-Write :
    (now : ℤ) (p : Permissions) (expires : ℤ) (g : Grant) (s : Store)
    → Stored s g
    → IsLive now g
    → Effect now s (restrict_active now p expires g s)
unfolding restrict_active
restrict_active-Write now p expires g s st live = return_if-Write now s _ _ _ λ allowed.
    return_if-Write now s _ _ _ λ room. made (
      written g (restrict_grant now p expires g) st (
        narrow p expires live (ground arith)
          (λ e. ground (arith, eqb_ℤ_iff g.metadata.revision max_int64))))

pub project-Write :
    (now : ℤ) (recipient : RecipientPrincipal) (binding : Binding) (revision : ℤ)
    (source : SourceSnapshot) (s : Store)
    → Effect now s (project now recipient binding revision source s)
unfolding project
project-Write now recipient binding revision source s = return_if-Write now s _ _ _ λ same.
    on_ok-Write now s (owner_grant s binding source.source revision) _ λ g e.
      let st = IsNamed-Stored s binding source.source revision g e in
      when_active-Write now g s _ st (project_active-Write now source g s st)

pub restrict-Write :
    (now : ℤ) (owner : OwnerPrincipal) (binding : Binding) (source : SourceKey) (revision : ℤ)
    (p : Permissions) (expires : ℤ) (s : Store)
    → Effect now s (restrict now owner binding source revision p expires s)
unfolding restrict
restrict-Write now owner binding source revision p expires s =
    on_ok-Write now s (owned_grant owner s binding source revision) _ λ g e.
      let st = owned_grant-Stored owner s binding source revision g e in
      when_active-Write now g s _ st (restrict_active-Write now p expires g s st)

pub revoke-Write :
    (now : ℤ) (owner : OwnerPrincipal) (binding : Binding) (source : SourceKey) (revision : ℤ)
    (s : Store)
    → Effect now s (revoke owner binding source revision s)
unfolding revoke
revoke-Write now owner binding source revision s =
    on_ok-Write now s (owned_grant owner s binding source revision) _ λ g e.
      made (
        written g (revoke_grant g) (owned_grant-Stored owner s binding source revision g e)
          withdraw)

pub create-Write :
    (now : ℤ) (owner : OwnerPrincipal) (spec : GrantSpec) (s : Store)
    → Effect now s (create now owner spec s)
unfolding create
create-Write now owner spec s =
    let b = (normalize_binding spec.binding).0 in
    return_if-Write now s _ _ _ λ owned. return_if-Write now s _ _ _ λ good.
      return_if-Write now s _ _ _ λ alias_good. return_if-Write now s _ _ _ λ free.
        return_if-Write now s _ _ _ λ room. made (
          added b (normalize_source spec.source).0 spec (ground arith) (ground arith) (ground arith)
            (ground arith) (ground arith))
