-- ===== src/Friend/Trace.antt =====
-- Histories of a store: any calls of the operations of internal/friendtogether/store.go, one after
-- another as the mutex orders them, each at whatever the clock reads.
use my_t_companion.Friend.Identity.{valid_time}
use my_t_companion.Friend.Evolution.Steps.{GrantStep-Evolves}
use my_t_companion.Base.Maps.{IsMap, lookup, lookup-insert, lookup-keep}
use my_t_companion.Base.Eq.{Bytes, bytes_eq, bytes_key, bytes_eq_iff}
use my_t_companion.Friend.Invariant.{Inv, Change-Inv, Stored-GrantInv}
use my_t_companion.Friend.Change.{
  Change, create-Write, revoke-Write, restrict-Write, GrantStep, written, Stored, project-Write,
  pruned, added, unchanged, wrote, Write, create-Write, revoke-Write, restrict-Write, project-Write,
}
use my_t_companion.Friend.Operations.{
  prune_terminal_before, create, revoke, restrict, project, put, new_grant, is_terminal_before,
  survives,
}
use my_t_companion.Base.Int.{ℤ, ◌≤ℤ◌, ltb_ℤ}
use my_t_companion.Base.{
  ◌≡◌, refl, arith, List, ◌∷◌, [], some, none, Bool-cases, not, ◌||◌, inl, inr, subst, sym, true,
  ◌∙◌, Bool, false,
}
use my_t_companion.Friend.Types.{
  Grant, Store, OwnerPrincipal, GrantSpec, Binding, SourceKey, Permissions, RecipientPrincipal,
  SourceSnapshot,
}

pub data Request : Type 0 where
  creates : OwnerPrincipal → GrantSpec → Request
  revokes : OwnerPrincipal → Binding → SourceKey → ℤ → Request
  restricts : OwnerPrincipal → Binding → SourceKey → ℤ → Permissions → ℤ → Request
  projects : RecipientPrincipal → Binding → ℤ → SourceSnapshot → Request
  prunes : ℤ → Request

unfoldable pub step : Store → ℤ × Request → Store
step s (now, creates owner spec) = (create now owner spec s).0
step s (now, revokes owner binding source revision) = (revoke owner binding source revision s).0
step s (now, restricts owner binding source revision p expires) =
    (restrict now owner binding source revision p expires s).0
step s (now, projects recipient binding revision source) =
    (project now recipient binding revision source s).0
step s (now, prunes cutoff) = prune_terminal_before now cutoff s

unfoldable pub run : Store → List (ℤ × Request) → Store
unfolding step
run s [] = s
run s (c ∷ cs) = run (step s c) cs

-- `NewStore()`
abbrev pub new_store : Store
new_store = record { grants = [] }

pub step-Change : (s : Store) (c : ℤ × Request) → Change c.0 s (step s c)
unfolding step
step-Change s (now, creates owner spec) = wrote (create-Write now owner spec s).write
step-Change s (now, revokes owner binding source revision) =
    wrote (revoke-Write now owner binding source revision s).write
step-Change s (now, restricts owner binding source revision p expires) =
    wrote (restrict-Write now owner binding source revision p expires s).write
step-Change s (now, projects recipient binding revision source) =
    wrote (project-Write now recipient binding revision source s).write
step-Change s (now, prunes cutoff) = pruned cutoff

pub run-Inv : (s : Store) (cs : List (ℤ × Request)) → Inv s → Inv (run s cs)
unfolding run
run-Inv s [] i = i
run-Inv s (c ∷ cs) i = run-Inv (step s c) cs (Change-Inv (step-Change s c) i)

-- Every store that calls of the operations lead to from `NewStore`, at any clock values, is well formed: a
-- grant stands under its own normalized key, once, there are at most 64, and each has the location
-- permission, an expiry after its last use and within the greatest lifetime from its consent, a revision of
-- at least 1 and a sequence of at least 0 that fit an int64, and an alias only with navigation.
pub run_new-Inv : (cs : List (ℤ × Request)) → Inv (run new_store cs)
run_new-Inv cs = run-Inv new_store cs (record { keyed = tt; bounded = omega arith; entries = tt })

-- The calls other than the housekeeping.
abbrev pub is_call : Request → Bool
is_call (prunes cutoff) = false
is_call _ = true

pub step-Write : (s : Store) (c : ℤ × Request) → is_call c.1 ≡ true → Write c.0 s (step s c)
unfolding step
step-Write s (now, creates owner spec) h = (create-Write now owner spec s).write
step-Write s (now, revokes owner binding source revision) h =
    (revoke-Write now owner binding source revision s).write
step-Write s (now, restricts owner binding source revision p expires) h =
    (restrict-Write now owner binding source revision p expires s).write
step-Write s (now, projects recipient binding revision source) h =
    (project-Write now recipient binding revision source s).write
step-Write s (now, prunes cutoff) h = cc

-- What becomes of the grant `g` under the key `k` when it stays.
pub data Stays (now : ℤ) (k : Bytes) (g : Grant) (t : Store) : Type 0 where
  kept : lookup k t.grants ≡ some g → Stays now k g t
  stepped : (h : Grant) → lookup k t.grants ≡ some h → GrantStep now g h → Stays now k g t

pub data Fate (now : ℤ) (k : Bytes) (g : Grant) (t : Store) : Type 0 where
  stays : Stays now k g t → Fate now k g t
  dropped : g.metadata.expires_at_ms ≤ℤ now → Fate now k g t

put-Stays :
    (now : ℤ) (s : Store) (k : Bytes) (g a b : Grant)
    → lookup k s.grants ≡ some g
    → Stored s a
    → b.metadata.binding ≡ a.metadata.binding
    → GrantStep now a b
    → Stays now k g (put b s)
put-Stays now s k g a b look st same gs =
    elim (Bool-cases (bytes_eq b.metadata.binding.grant_id k)) [
      | inl here ↦
          let at : b.metadata.binding.grant_id ≡ k = (bytes_eq_iff _ _).0 here in
          let is_a : g ≡ a = ground (arith, at, same) in
          stepped b (rw (lookup-insert b.metadata.binding.grant_id k b s.grants, here) refl)
            (subst (λ x. GrantStep now x b) (sym is_a) gs)
      | inr other ↦ kept (rw (lookup-insert b.metadata.binding.grant_id k b s.grants, other) look)
    ]

added-Stays :
    (now : ℤ) (s : Store) (k : Bytes) (g b : Grant)
    → lookup k s.grants ≡ some g
    → lookup b.metadata.binding.grant_id s.grants ≡ none
    → Stays now k g (put b s)
added-Stays now s k g b look free = elim (Bool-cases (bytes_eq b.metadata.binding.grant_id k)) [
  | inl here ↦ absurd (ground (arith, (bytes_eq_iff b.metadata.binding.grant_id k).0 here))
  | inr other ↦ kept (rw (lookup-insert b.metadata.binding.grant_id k b s.grants, other) look)
]

is_terminal_before-expired :
    (now cutoff : ℤ) (g : Grant)
    → is_terminal_before now cutoff g ≡ true
    → g.metadata.expires_at_ms ≤ℤ now
unfolding is_terminal_before
is_terminal_before-expired now cutoff g h = ground arith

pruned-Fate :
    (now cutoff : ℤ) (s : Store) (k : Bytes) (g : Grant)
    → IsMap s.grants
    → lookup k s.grants ≡ some g
    → Fate now k g (prune_terminal_before now cutoff s)
unfolding prune_terminal_before
pruned-Fate now cutoff s k g u look =
    elim (Bool-cases (not (valid_time cutoff) || ltb_ℤ now cutoff)) [
      | inl bad ↦ rw bad (stays (kept look))
      | inr good ↦ rw good (elim (Bool-cases (is_terminal_before now cutoff g)) [
        | inl old ↦ dropped (is_terminal_before-expired now cutoff g old)
        | inr young ↦
            stays
              (kept (lookup-keep (survives now cutoff) k g s.grants u look ∙ ground (arith, young)))
      ])
    ]

pub Write-Stays :
    {now : ℤ} {s t : Store} (k : Bytes) (g : Grant)
    → Write now s t
    → Inv s
    → lookup k s.grants ≡ some g
    → Stays now k g t
Write-Stays k g unchanged i look = kept look
Write-Stays {now} {s} k g (written a b st gs) i look =
    put-Stays now s k g a b look st
      (GrantStep-Evolves (Stored-GrantInv s a st i).location gs).binding gs
Write-Stays {now} {s} k g (added binding source spec b v al free room) i look =
    added-Stays now s k g (new_grant now binding source spec) look (unfold new_grant in free)

pub Change-Fate :
    {now : ℤ} {s t : Store} (k : Bytes) (g : Grant)
    → Change now s t
    → Inv s
    → lookup k s.grants ≡ some g
    → Fate now k g t
Change-Fate k g (wrote w) i look = stays (Write-Stays k g w i look)
Change-Fate {now} {s} k g (pruned cutoff) i look = pruned-Fate now cutoff s k g i.keyed look
