-- ===== src/Storage/Sorting.antt =====
-- The order of the remembered deliveries (storage_policy.go).
use my_t_companion.Base.Maps.{lookup, IsMap}
use my_t_companion.Base.{
  List, All, ◌∷◌, length, ◌≡◌, suc, Bool-cases, [], none, arith, ◌∙◌, refl, ◌≤◌, ap, ltb, inl,
  if◌then◌else◌, inr, some, ltb→lt, All-imp,
}
use my_t_companion.Storage.{place, newest_first, Stamp, time_of}
use my_t_companion.Base.Eq.{Eq}

module _ {K : Type 0} ⦃e : Eq {0} K⦄ where
  -- Newest first
  abbrev pub IsSorted : List (K × Stamp) → Type 0
  IsSorted [] = Unit
  IsSorted (x ∷ xs) = All (λ (y : K × Stamp). time_of y.1 ≤ time_of x.1) xs × IsSorted xs

  length-place : (x : K × Stamp) (ys : List (K × Stamp)) → length (place x ys) ≡ suc (length ys)
  unfolding place
  length-place x [] = refl
  length-place x (y ∷ ys) = ground (arith, length-place x ys)

  lookup-place :
      (x : K × Stamp) (ys : List (K × Stamp)) (k : K)
      → lookup x.0 ys ≡ none
      → lookup k (place x ys) ≡ lookup k (x ∷ ys)
  unfolding place lookup
  lookup-place (i, a) [] k h = refl
  lookup-place (i, a) ((j, b) ∷ ys) k h =
      ground (arith, e.beq_iff i k, e.beq_iff j k, e.beq_iff j i, lookup-place (i, a) ys k, h)

  place-IsMap :
      (x : K × Stamp) (ys : List (K × Stamp)) → lookup x.0 ys ≡ none → IsMap ys → IsMap (place x ys)
  unfolding place lookup
  place-IsMap (i, a) [] h u = (refl, tt)
  place-IsMap (i, a) ((j, b) ∷ ys) h u =
      ground
        (arith, e.beq_iff i j, e.beq_iff j i, lookup-place (i, a) ys j, place-IsMap (i, a) ys, h, u)

  All-place :
      (P : K × Stamp → Type 0) (x : K × Stamp) (ys : List (K × Stamp))
      → P x
      → All P ys
      → All P (place x ys)
  unfolding place
  All-place P x [] p a = (p, tt)
  All-place P x (y ∷ ys) p a = elim (Bool-cases (ltb (time_of x.1) (time_of y.1))) [
    | inl later ↦ rw later (a.0, All-place P x ys p a.1)
    | inr first ↦ rw first (p, a)
  ]

  place-IsSorted : (x : K × Stamp) (ys : List (K × Stamp)) → IsSorted ys → IsSorted (place x ys)
  unfolding place
  place-IsSorted x [] s = (tt, tt)
  place-IsSorted x (y ∷ ys) s = elim (Bool-cases (ltb (time_of x.1) (time_of y.1))) [
    | inl later ↦ rw later (
      All-place (λ (z : K × Stamp). time_of z.1 ≤ time_of y.1) x ys
          (omega (arith, ltb→lt (time_of x.1) (time_of y.1) later)) s.0,
      place-IsSorted x ys s.1,
    )
    | inr first ↦
        let newer : time_of y.1 ≤ time_of x.1 = ground (arith, first) in
        rw first (
          (
            newer,
            All-imp (λ (z : K × Stamp). time_of z.1 ≤ time_of y.1)
                (λ (z : K × Stamp). time_of z.1 ≤ time_of x.1) ys (λ z h. omega (arith, h, newer))
                s.0,
          ),
          s,
        )
  ]

  pub newest_first-IsSorted : (xs : List (K × Stamp)) → IsSorted (newest_first xs)
  unfolding newest_first
  newest_first-IsSorted [] = tt
  newest_first-IsSorted (x ∷ xs) = place-IsSorted x (newest_first xs) (newest_first-IsSorted xs)

  pub length-newest_first : (xs : List (K × Stamp)) → length (newest_first xs) ≡ length xs
  unfolding newest_first
  length-newest_first [] = refl
  length-newest_first (x ∷ xs) =
      omega (arith, length-place x (newest_first xs), length-newest_first xs)

  pub lookup-newest_first :
      (xs : List (K × Stamp)) (k : K) → IsMap xs → lookup k (newest_first xs) ≡ lookup k xs
  unfolding newest_first lookup
  lookup-newest_first [] k u = refl
  lookup-newest_first ((i, a) ∷ xs) k u =
      lookup-place (i, a) (newest_first xs) k (lookup-newest_first xs i u.1 ∙ u.0)
      ∙ ap (λ rest. if e.beq i k then some a else rest) (lookup-newest_first xs k u.1)

  pub newest_first-IsMap : (xs : List (K × Stamp)) → IsMap xs → IsMap (newest_first xs)
  unfolding newest_first
  newest_first-IsMap [] u = tt
  newest_first-IsMap ((i, a) ∷ xs) u =
      place-IsMap (i, a) (newest_first xs) (lookup-newest_first xs i u.1 ∙ u.0)
        (newest_first-IsMap xs u.1)
