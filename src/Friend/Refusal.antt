-- ===== src/Friend/Refusal.antt =====
-- What a refused operation leaves of the store (internal/friendtogether/store.go).
use my_t_companion.Friend.Grant.{active}
use my_t_companion.Friend.Change.{Stored, IsNamed-Stored, owned_grant-Stored}
use my_t_companion.Base.{Bool, ◌≡◌, ◌≢◌, none, true, refl, false, Option-cases, inl, inr}
use my_t_companion.Friend.Types.{
  Grant, Store, Result, Error, err, ok, OwnerPrincipal, Binding, RecipientPrincipal, GrantSpec,
  SourceKey, SourceSnapshot, Permissions,
}
use my_t_companion.Base.Int.{ℤ}
use my_t_companion.Friend.Operations.{
  when_active, return_if, on_ok, Outcome, put, project, revoke, create, restrict, project_active,
  restrict_active, owned_grant, owner_grant, revoke_grant, deliver,
}

-- Nothing changed, or a grant that is found past its expiry was marked so.
pub data IsKept (now : ℤ) (s : Store) : Store → Type 0 where
  same : IsKept now s s
  marked :
      (g : Grant) → Stored s g → (active g now).1 ≢ none → IsKept now s (put (active g now).0 s)

-- The outcome leaves the store so where it is an error.
abbrev pub IsRefusal : ℤ → Store → {A : Type 0} → Outcome A → Type 0
IsRefusal now s o = (e : Error) → o.1 ≡ err e → IsKept now s o.0

return_if-IsRefusal :
    {A : Type 0} (now : ℤ) (bad : Bool) (error : Error) (s : Store) (rest : Outcome A)
    → IsRefusal now s rest
    → IsRefusal now s (return_if bad error s rest)
unfolding return_if
return_if-IsRefusal now true error s rest h e refused = same
return_if-IsRefusal now false error s rest h e refused = h e refused

on_ok-IsRefusal :
    {A B : Type 0} (now : ℤ) (r : Result B) (s : Store) (k : B → Outcome A)
    → ((b : B) → r ≡ ok b → IsRefusal now s (k b))
    → IsRefusal now s (on_ok r s k)
unfolding on_ok
on_ok-IsRefusal now (err error) s k h e refused = same
on_ok-IsRefusal now (ok b) s k h e refused = h b refl e refused

when_active-IsRefusal :
    {A : Type 0} (now : ℤ) (g : Grant) (s : Store) (k : Grant → Store → Outcome A)
    → Stored s g
    → IsRefusal now s (k g s)
    → IsRefusal now s (when_active now g s k)
unfolding when_active
when_active-IsRefusal now g s k stored h = elim (Option-cases (active g now).1) [
  | inl live ↦ rw (live, when_active) h
  | inr (x, inactive_now) ↦ rw (inactive_now, when_active) λ e refused. marked g stored (λ q. cc)
]

success-IsRefusal : {A : Type 0} (now : ℤ) (s t : Store) (a : A) → IsRefusal now s (t, ok a)
success-IsRefusal now s t a e refused = absurd (cc)

project-IsRefusal :
    (now : ℤ) (recipient : RecipientPrincipal) (binding : Binding) (revision : ℤ)
    (source : SourceSnapshot) (s : Store)
    → IsRefusal now s (project now recipient binding revision source s)
unfolding project project_active
project-IsRefusal now recipient binding revision source s = return_if-IsRefusal now _ _ s _ (
    on_ok-IsRefusal now (owner_grant s binding source.source revision) s _ λ g found.
      when_active-IsRefusal now g s _ (IsNamed-Stored s binding source.source revision g found)
        (on_ok-IsRefusal now (deliver now source g) s _ λ out shown. success-IsRefusal now s _ out))

restrict-IsRefusal :
    (now : ℤ) (owner : OwnerPrincipal) (binding : Binding) (source : SourceKey) (revision : ℤ)
    (p : Permissions) (expires : ℤ) (s : Store)
    → IsRefusal now s (restrict now owner binding source revision p expires s)
unfolding restrict restrict_active
restrict-IsRefusal now owner binding source revision p expires s =
    on_ok-IsRefusal now (owned_grant owner s binding source revision) s _ λ g found.
      when_active-IsRefusal now g s _ (owned_grant-Stored owner s binding source revision g found) (
        return_if-IsRefusal now _ _ s _
          (return_if-IsRefusal now _ _ s _ (success-IsRefusal now s _ _)))

return_if-refused :
    {A : Type 0} (bad : Bool) (error : Error) (s : Store) (rest : Outcome A)
    → ((e : Error) → rest.1 ≡ err e → rest.0 ≡ s)
    → (e : Error) → (return_if bad error s rest).1 ≡ err e
    → (return_if bad error s rest).0 ≡ s
unfolding return_if
return_if-refused true error s rest h e refused = refl
return_if-refused false error s rest h e refused = h e refused

create-refused :
    (now : ℤ) (owner : OwnerPrincipal) (spec : GrantSpec) (s : Store) (e : Error)
    → (create now owner spec s).1 ≡ err e
    → (create now owner spec s).0 ≡ s
unfolding create
create-refused now owner spec s = return_if-refused _ _ s _ (
    return_if-refused _ _ s _ (
      return_if-refused _ _ s _
        (return_if-refused _ _ s _ (return_if-refused _ _ s _ λ e refused. absurd (cc)))))

revoke-refused :
    (owner : OwnerPrincipal) (binding : Binding) (source : SourceKey) (revision : ℤ) (s : Store)
    (e : Error)
    → (revoke owner binding source revision s).1 ≡ err e
    → (revoke owner binding source revision s).0 ≡ s
unfolding revoke on_ok
revoke-refused owner binding source revision s e =
    elim (owned_grant owner s binding source revision)
      as (λ r.
        (on_ok r s λ g. (put (revoke_grant g) s, ok (revoke_grant g).metadata)).1 ≡ err e
        → (on_ok r s λ g. (put (revoke_grant g) s, ok (revoke_grant g).metadata)).0 ≡ s) [
          | err x ↦ λ refused. refl
          | ok g ↦ λ refused. absurd (cc)
        ]

-- A Project or Restrict that is refused leaves the store as it was, but for the mark on a stored grant that
-- it finds past its expiry; a Create or Revoke that is refused leaves it as it was.
pub refused-IsKept :
    (now : ℤ) (owner : OwnerPrincipal) (recipient : RecipientPrincipal) (spec : GrantSpec)
    (binding : Binding) (source : SourceKey) (revision : ℤ) (p : Permissions) (expires : ℤ)
    (snapshot : SourceSnapshot) (s : Store)
    → IsRefusal now s (project now recipient binding revision snapshot s)
      × IsRefusal now s (restrict now owner binding source revision p expires s)
      × ((e : Error) → (create now owner spec s).1 ≡ err e → (create now owner spec s).0 ≡ s)
      × ((e : Error)
          → (revoke owner binding source revision s).1 ≡ err e
          → (revoke owner binding source revision s).0 ≡ s)
refused-IsKept now owner recipient spec binding source revision p expires snapshot s = (
  project-IsRefusal now recipient binding revision snapshot s,
  restrict-IsRefusal now owner binding source revision p expires s,
  create-refused now owner spec s,
  revoke-refused owner binding source revision s,
)
