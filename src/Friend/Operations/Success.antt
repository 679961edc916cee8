-- ===== src/Friend/Operations/Success.antt =====
-- What an operation of internal/friendtogether/store.go went through when it succeeded.
use my_t_companion.Friend.Authority.{IsLive, active-IsLive}
use my_t_companion.Base.Int.{ℤ}
use my_t_companion.Friend.Operations.{
  when_active, return_if, on_ok, project, Result, project_active, RecipientPrincipal, Store,
  Outcome, Error, Binding, SourceSnapshot, ok, Snapshot, err, owner_grant, same_recipient, deliver,
  active, put, advance, revoke, not_authorized, OwnerPrincipal, SourceKey, GrantMetadata,
  owned_grant, revoke_grant,
}
use my_t_companion.Base.{◌≡◌, refl, arith, Bool, false, Option-cases, true, inl, inr, not, ap, ◌∙◌}
use my_t_companion.Friend.Types.{Grant, err, ok-injective}

-- Each lemma gives what the code found, the rest as the result, and the rest's own success.
return_if-ok :
    {A : Type 0} (bad : Bool) (e : Error) (s : Store) (rest : Outcome A) {a : A}
    → (return_if bad e s rest).1 ≡ ok a
    → (bad ≡ false) × (return_if bad e s rest ≡ rest) × (rest.1 ≡ ok a)
unfolding return_if
return_if-ok true e s rest h = absurd (cc)
return_if-ok false e s rest h = (refl, refl, h)

on_ok-ok :
    {A B : Type 0} (r : Result B) (s : Store) (k : B → Outcome A) {a : A}
    → (on_ok r s k).1 ≡ ok a
    → (b : B) × (r ≡ ok b) × (on_ok r s k ≡ k b) × ((k b).1 ≡ ok a)
unfolding on_ok
on_ok-ok (err e) s k h = absurd (cc)
on_ok-ok (ok b) s k h = (b, refl, refl, h)

when_active-ok :
    {A : Type 0} (now : ℤ) (g : Grant) (s : Store) (k : Grant → Store → Outcome A) {a : A}
    → (when_active now g s k).1 ≡ ok a
    → IsLive now g × (when_active now g s k ≡ k g s) × ((k g s).1 ≡ ok a)
unfolding when_active
when_active-ok now g s k h = elim (Option-cases (active g now).1) [
  | inl e ↦ (active-IsLive g now e, rw (e, when_active) refl, rw (e, when_active) at h)
  | inr (x, e) ↦ absurd (ground (arith, e))
]

record_result :
    (f : Snapshot → Store) (r : Result Snapshot) (s : Store) (out : Snapshot)
    → (on_ok r s (λ o. (f o, ok o))).1 ≡ ok out
    → (r ≡ ok out) × (on_ok r s (λ o. (f o, ok o)) ≡ (f out, ok out))
unfolding on_ok
record_result f (err e) s out h = absurd (cc)
record_result f (ok o) s out h =
    let e : o ≡ out = ok-injective h in (ap ok e, ap (λ (x : Snapshot). (f x, ok x)) e)

-- The grant behind a successful `Project`, what it was shown, and what is stored after it.
pub record IsProjected (now : ℤ) (recipient : RecipientPrincipal) (binding : Binding) (revision : ℤ)
    (source : SourceSnapshot) (s : Store) (out : Snapshot) (g : Grant) : Type 0 where
  pub recipient_same : same_recipient recipient binding ≡ true
  pub named : owner_grant s binding source.source revision ≡ ok g
  pub live : IsLive now g
  pub delivered : deliver now source g ≡ ok out
  pub result : project now recipient binding revision source s ≡ (put (advance now out g) s, ok out)

project-IsLive :
    (now : ℤ) (source : SourceSnapshot) (g : Grant) (s : Store) (out : Snapshot)
    → (when_active now g s (project_active now source)).1 ≡ ok out
    → IsLive now g
      × (deliver now source g ≡ ok out)
      × (when_active now g s (project_active now source) ≡ (put (advance now out g) s, ok out))
unfolding project_active
project-IsLive now source g s out h =
    let (live, same, done) = when_active-ok now g s (project_active now source) h in
    let (made, result) =
      record_result (λ o. put (advance now o g) s) (deliver now source g) s out done in
    (live, made, same ∙ result)

-- What the checks of a successful `Project` found.
pub project-IsProjected :
    (now : ℤ) (recipient : RecipientPrincipal) (binding : Binding) (revision : ℤ)
    (source : SourceSnapshot) (s : Store) (out : Snapshot)
    → (project now recipient binding revision source s).1 ≡ ok out
    → (g : Grant) × IsProjected now recipient binding revision source s out g
unfolding project
project-IsProjected now recipient binding revision source s out h =
    let (same, first, h1) =
      return_if-ok (not (same_recipient recipient binding)) not_authorized s _ h in
    let (g, named, second, h2) = on_ok-ok (owner_grant s binding source.source revision) s _ h1 in
    let (live, made, third) = project-IsLive now source g s out h2 in
    (
      g,
      record {
        recipient_same = ground arith;
        named = named;
        live = live;
        delivered = made;
        result = unfold project in first ∙ second ∙ third;
      },
    )

-- The grant behind a successful `Revoke`.
pub revoke-ok :
    (owner : OwnerPrincipal) (binding : Binding) (source : SourceKey) (revision : ℤ) (s : Store)
    (m : GrantMetadata)
    → (revoke owner binding source revision s).1 ≡ ok m
    → (g : Grant) × (owned_grant owner s binding source revision ≡ ok g)
      × (revoke owner binding source revision s
          ≡ (put (revoke_grant g) s, ok (revoke_grant g).metadata))
      × ((revoke_grant g).metadata ≡ m)
unfolding revoke
revoke-ok owner binding source revision s m h =
    let (g, found, same, done) = on_ok-ok (owned_grant owner s binding source revision) s _ h in
    (g, found, unfold revoke in same, ok-injective done)
