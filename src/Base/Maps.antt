-- ===== src/Base/Maps.antt =====
-- A Go map as an association list with one entry for each key that was written.
use Prim.Native.Nat.{suc}
use my_t_companion.Base.Tests.{if◌then◌else◌, is_some, Bool-cases}
use my_t_companion.Base.Lists.{length, keep, All}
use my_t_companion.Base.Eq.{Eq}
use mathlib.Core.Path.{◌≡◌, refl, subst, ap}
use mathlib.Core.Bool.{Bool, true}
use mathlib.Core.Logic.{inl, inr}
use mathlib.Core.Option.{Option, none, some}
use mathlib.Core.List.{List, [], ◌∷◌, map}
use native.Mathlib.Omega.{arith}

-- A map's zero value for a missing key
abbrev pub or_zero {ℓ} : {A : Type ℓ} → A → Option A → A
or_zero missing none = missing
or_zero missing (some a) = a

module _ {ℓ} {K : Type ℓ} {V : Type ℓ} ⦃e : Eq K⦄ where
  -- `m[k]`
  unfoldable pub lookup : K → List (K × V) → Option V
  lookup k [] = none
  lookup k ((j, v) ∷ m) = if e.beq j k then some v else lookup k m

  -- `m[k] = v`
  unfoldable pub insert : K → V → List (K × V) → List (K × V)
  insert k v [] = (k, v) ∷ []
  insert k v ((j, w) ∷ m) = if e.beq j k then (k, v) ∷ m else (j, w) ∷ insert k v m

  -- `delete(m, k)`
  unfoldable pub delete : K → List (K × V) → List (K × V)
  delete k [] = []
  delete k ((j, w) ∷ m) = if e.beq j k then m else (j, w) ∷ delete k m

  pub lookup-insert :
      (k j : K) (v : V) (m : List (K × V))
      → lookup j (insert k v m) ≡ (if e.beq k j then some v else lookup j m)
  unfolding lookup insert
  lookup-insert k j v [] = refl
  lookup-insert k j v ((i, w) ∷ m) =
      ground (arith, e.beq_iff k j, e.beq_iff i k, e.beq_iff i j, lookup-insert k j v m)

  -- `m` holds `k`
  abbrev pub has_key : K → List (K × V) → Bool
  has_key k m = is_some (lookup k m)

  -- Every key stands in one entry.
  abbrev pub IsMap : List (K × V) → Type ℓ
  IsMap [] = Unit
  IsMap ((k, v) ∷ m) = (lookup k m ≡ none) × IsMap m

  pub delete-IsMap-lookup :
      (k j : K) (m : List (K × V))
      → IsMap m
      → lookup j (delete k m) ≡ (if e.beq k j then none else lookup j m)
  unfolding lookup delete
  delete-IsMap-lookup k j [] u = ground arith
  delete-IsMap-lookup k j ((i, w) ∷ m) u =
      ground (arith, e.beq_iff k j, e.beq_iff i k, e.beq_iff i j, delete-IsMap-lookup k j m)

  pub insert-IsMap : (k : K) (v : V) (m : List (K × V)) → IsMap m → IsMap (insert k v m)
  unfolding lookup insert
  insert-IsMap k v [] u = (refl, tt)
  insert-IsMap k v ((i, w) ∷ m) u =
      ground (arith, e.beq_iff i k, e.beq_iff k i, lookup-insert k i v m, insert-IsMap k v m)

  pub delete-IsMap : (k : K) (m : List (K × V)) → IsMap m → IsMap (delete k m)
  unfolding lookup delete
  delete-IsMap k [] u = u
  delete-IsMap k ((i, w) ∷ m) u =
      ground (arith, e.beq_iff i k, e.beq_iff k i, delete-IsMap-lookup k i m, delete-IsMap k m)

  pub length-insert_old :
      (k : K) (v w : V) (m : List (K × V)) → lookup k m ≡ some w → length (insert k v m) ≡ length m
  unfolding lookup insert
  length-insert_old k v w [] h = cc
  length-insert_old k v w ((i, x) ∷ m) h = ground (arith, length-insert_old k v w m)

  pub length-insert_new :
      (k : K) (v : V) (m : List (K × V))
      → lookup k m ≡ none
      → length (insert k v m) ≡ suc (length m)
  unfolding lookup insert
  length-insert_new k v [] h = refl
  length-insert_new k v ((i, x) ∷ m) h = ground (arith, length-insert_new k v m)

  -- The filter of a map by its entries; `lookup` in it is a lookup and a test.
  pub lookup-keep-none :
      (p : K × V → Bool) (k : K) (m : List (K × V)) → lookup k m ≡ none → lookup k (keep p m) ≡ none
  unfolding lookup
  lookup-keep-none p k [] h = refl
  lookup-keep-none p k ((i, x) ∷ m) h = ground (arith, lookup-keep-none p k m)

  pub lookup-keep :
      (p : K × V → Bool) (k : K) (v : V) (m : List (K × V))
      → IsMap m
      → lookup k m ≡ some v
      → lookup k (keep p m) ≡ (if p (k, v) then some v else none)
  unfolding lookup
  lookup-keep p k v [] u h = cc
  lookup-keep p k v ((i, x) ∷ m) u h =
      ground (arith, e.beq_iff i k, lookup-keep-none p k m, lookup-keep p k v m u.1)

  pub keep-IsMap : (p : K × V → Bool) (m : List (K × V)) → IsMap m → IsMap (keep p m)
  keep-IsMap p [] u = u
  keep-IsMap p ((i, x) ∷ m) u = ground (arith, lookup-keep-none p i m u.0, keep-IsMap p m u.1)

  pub All-insert {κ} :
      (P : K × V → Type κ) (k : K) (v : V) (m : List (K × V))
      → All P m
      → P (k, v)
      → All P (insert k v m)
  unfolding insert
  All-insert P k v [] a h = (h, tt)
  All-insert P k v ((i, x) ∷ m) a h = elim (Bool-cases (e.beq i k)) [
    | inl same ↦ rw same (h, a.1)
    | inr other ↦ rw other (a.0, All-insert P k v m a.1 h)
  ]

  pub All-lookup {κ} :
      (P : K × V → Type κ) (k : K) (v : V) (m : List (K × V))
      → All P m
      → lookup k m ≡ some v
      → P (k, v)
  unfolding lookup
  All-lookup P k v [] a h = absurd (cc)
  All-lookup P k v ((i, x) ∷ m) a h = elim (Bool-cases (e.beq i k)) [
    | inl same ↦ subst P (ground (arith, (e.beq_iff i k).0 same, same)) a.0
    | inr other ↦ All-lookup P k v m a.1 (ground (arith, other))
  ]

  pub lookup-map :
      (f : K → V → V) (k : K) (m : List (K × V))
      → lookup k (map (λ (x : K × V). (x.0, f x.0 x.1)) m)
        ≡ elim (lookup k m) [ none ↦ none | some v ↦ some (f k v) ]
  unfolding lookup
  lookup-map f k [] = refl
  lookup-map f k ((j, w) ∷ m) = elim (Bool-cases (e.beq j k)) [
    | inl h ↦ let same = (e.beq_iff j k).0 h in rw (h, same) refl
    | inr h ↦ rw (h) (lookup-map f k m)
  ]

  pub lookup-keep_keys :
      (p : K → Bool) (k : K) (m : List (K × V))
      → lookup k (keep (λ (x : K × V). p x.0) m) ≡ (if p k then lookup k m else none)
  unfolding lookup
  lookup-keep_keys p k [] = ground arith
  lookup-keep_keys p k ((j, w) ∷ m) = ground (arith, e.beq_iff j k, lookup-keep_keys p k m, ap p)

  pub lookup-insert_self : (k : K) (v : V) (m : List (K × V)) → lookup k (insert k v m) ≡ some v
  lookup-insert_self k v m = rw (lookup-insert k k v m, (e.beq_iff k k).1 refl) refl

  pub length-delete :
      (k : K) (m : List (K × V)) → has_key k m ≡ true → suc (length (delete k m)) ≡ length m
  unfolding lookup delete
  length-delete k [] h = absurd (cc)
  length-delete k ((j, w) ∷ m) h = ground (arith, length-delete k m)
