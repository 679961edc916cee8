-- ===== src/Storage/Removal.antt =====
-- Removing the oldest of the remembered deliveries (storage_policy.go).
use my_t_companion.Base.{
  ◌≡◌, true, if◌then◌else◌, some, drop, none, length, [], ◌∷◌, ◌+◌, ◌≤◌, arith, suc, zero, ◌∙◌,
  refl, Bool-cases, inl, inr, ap, is_some, All-drop,
}
use my_t_companion.Storage.Sorting.{IsSorted}
use my_t_companion.Base.Maps.{
  lookup, IsMap, has_key, delete, delete-IsMap, length-delete, delete-IsMap-lookup, All-lookup,
}
use my_t_companion.Storage.{delete_all, List, ℕ, Stamp, time_of}
use my_t_companion.Base.Eq.{Eq}

module _ {K : Type 0} ⦃e : Eq {0} K⦄ where
  pub delete_all-IsMap : {V : Type 0} (xs m : List (K × V)) → IsMap m → IsMap (delete_all xs m)
  unfolding delete_all
  delete_all-IsMap [] m u = u
  delete_all-IsMap ((i, v) ∷ xs) m u = delete_all-IsMap xs (delete i m) (delete-IsMap i m u)

  pub lookup-delete_all :
      {V : Type 0} (xs m : List (K × V)) (k : K)
      → IsMap m
      → lookup k (delete_all xs m) ≡ (if has_key k xs then none else lookup k m)
  unfolding delete_all lookup
  lookup-delete_all [] m k u = refl
  lookup-delete_all ((i, v) ∷ xs) m k u =
      lookup-delete_all xs (delete i m) k (delete-IsMap i m u)
      ∙ ground (arith, delete-IsMap-lookup i k m u)

  -- Every key that is removed once leaves a map that is one shorter.
  pub length-delete_all :
      {V : Type 0} (xs m : List (K × V))
      → IsMap xs
      → IsMap m
      → ((k : K) → has_key k xs ≡ true → has_key k m ≡ true)
      → length (delete_all xs m) + length xs ≡ length m
  unfolding delete_all lookup
  length-delete_all [] m u w held = omega arith
  length-delete_all ((i, v) ∷ xs) m u w held =
      let mine = held i (ground (arith, (e.beq_iff i i).1 refl)) in
      let rest = length-delete_all xs (delete i m) u.1 (delete-IsMap i m w) (λ k has.
        elim (Bool-cases (e.beq i k)) [
          | inl same ↦ absurd (ground (arith, (e.beq_iff i k).0 same, has, ap is_some u.0))
          | inr other ↦
              rw (delete-IsMap-lookup i k m w, other) (held k (ground (arith, other, has)))
        ]) in
      omega (arith, rest, length-delete i m mine)

  -- Of a list that is sorted, what is cut off is no newer than what is not.
  pub drop-IsSorted :
      (n : ℕ) (xs : List (K × Stamp)) (k j : K) (a b : Stamp)
      → IsSorted xs
      → lookup k xs ≡ some a
      → lookup k (drop n xs) ≡ none
      → lookup j (drop n xs) ≡ some b
      → time_of b ≤ time_of a
  unfolding lookup
  drop-IsSorted zero xs k j a b s mine none_left other = absurd (ground (arith, mine, none_left))
  drop-IsSorted (suc n) [] k j a b s mine none_left other = absurd (cc)
  drop-IsSorted (suc n) ((i, t) ∷ xs) k j a b s mine none_left other =
      let P = λ (y : K × Stamp). time_of y.1 ≤ time_of t in
      elim (Bool-cases (e.beq i k)) [
        | inl same ↦
            let older : time_of b ≤ time_of t =
              All-lookup P j b (drop n xs) (All-drop P n xs s.0) other in
            let a_is : a ≡ t = ground (arith, same, mine) in rw a_is older
        | inr differ ↦ drop-IsSorted n xs k j a b s.1 (ground (arith, differ, mine)) none_left other
      ]

  pub lookup-drop :
      (n : ℕ) (xs : List (K × Stamp)) (k : K) (a : Stamp)
      → IsMap xs
      → lookup k (drop n xs) ≡ some a
      → lookup k xs ≡ some a
  unfolding lookup
  lookup-drop zero xs k a u h = h
  lookup-drop (suc n) [] k a u h = h
  lookup-drop (suc n) ((i, t) ∷ xs) k a u h =
      let later = lookup-drop n xs k a u.1 h in
      elim (Bool-cases (e.beq i k)) [
        | inl same ↦ absurd (ground (arith, (e.beq_iff i k).0 same, later, u.0))
        | inr other ↦ rw other later
      ]

  pub drop-IsMap : (n : ℕ) (xs : List (K × Stamp)) → IsMap xs → IsMap (drop n xs)
  drop-IsMap zero xs u = u
  drop-IsMap (suc n) [] u = u
  drop-IsMap (suc n) (x ∷ xs) u = drop-IsMap n xs u.1
