-- ===== src/Storage/Pruned.antt =====
-- What is remembered after pruning (storage_policy.go, `pruneTimestampMap`).
use my_t_companion.Storage.Sorting.{
  lookup-newest_first, newest_first-IsMap, newest_first-IsSorted, length-newest_first,
}
use my_t_companion.Storage.Removal.{
  lookup-delete_all, drop-IsSorted, drop-IsMap, lookup-drop, length-delete_all, delete_all-IsMap,
}
use my_t_companion.Storage.{prune_timestamp_map, is_kept, time_of, delete_all, newest_first}
use my_t_companion.Base.Maps.{IsMap, lookup, keep-IsMap, lookup-keep-none, lookup-keep, has_key}
use my_t_companion.Base.{
  ℕ, List, length, keep, ◌≡◌, min, some, Bool-cases, true, leb, none, Option-cases, inl, arith, ◌≤◌,
  inr, ◌<◌, subst, drop, ◌∙◌, sym, is_some-none, length-drop, refl,
}
use my_t_companion.Base.Clock.{Time, Stamp}
use my_t_companion.Base.Eq.{Eq}

module _ {K : Type 0} ⦃e : Eq {0} K⦄ (now : Time) (age maximum : ℕ)
    (values : List (K × Stamp)) where
  -- A map whose entries are valid, recent and in `values`; as many as may be; none that goes is newer than
  -- one that stays.
  abbrev pub IsPruned : List (K × Stamp) → Type 0
  IsPruned result =
      IsMap result
      × (length result ≡ min maximum (length (keep (is_kept now age) values)))
      × ((k : K) (a : Stamp)
          → lookup k result ≡ some a
          → (lookup k values ≡ some a) × (is_kept now age (k, a) ≡ true))
      × ((k j : K) (a b : Stamp)
          → lookup k result ≡ some a
          → lookup j values ≡ some b
          → is_kept now age (j, b) ≡ true
          → lookup j result ≡ none
          → time_of b ≤ time_of a)

  kept-lookup :
      (k : K) (a : Stamp)
      → IsMap values
      → lookup k (keep (is_kept now age) values) ≡ some a
      → (lookup k values ≡ some a) × (is_kept now age (k, a) ≡ true)
  kept-lookup k a u h = elim (Option-cases (lookup k values)) [
    | inl missing ↦ absurd (ground (arith, h, lookup-keep-none (is_kept now age) k values missing))
    | inr (b, found) ↦
        let test = lookup-keep (is_kept now age) k b values u found in
        elim (Bool-cases (is_kept now age (k, b))) [
          | inl stays ↦
              let same : b ≡ a = ground (arith, h, test, stays) in
              subst (λ x. (lookup k values ≡ some x) × (is_kept now age (k, x) ≡ true)) same
                (found, stays)
          | inr goes ↦ absurd (ground (arith, h, test, goes))
        ]
  ]

  -- An entry of the map that is cut off is one of the map.
  cut-lookup :
      (m : List (K × Stamp)) (k : K) (a : Stamp)
      → IsMap m
      → lookup k (drop maximum (newest_first m)) ≡ some a
      → lookup k m ≡ some a
  cut-lookup m k a u h =
      sym (lookup-newest_first m k u)
      ∙ lookup-drop maximum (newest_first m) k a (newest_first-IsMap m u) h

  length-removed :
      (m : List (K × Stamp))
      → IsMap m
      → maximum < length m
      → length (delete_all (drop maximum (newest_first m)) m) ≡ maximum
  length-removed m u many =
      let cut = drop maximum (newest_first m) in
      let cut_map = drop-IsMap maximum (newest_first m) (newest_first-IsMap m u) in
      omega (
        arith,
        many,
        length-delete_all cut m cut_map u (λ k has. elim (Option-cases (lookup k cut)) [
          | inl missing ↦ absurd (ground (arith, has, missing))
          | inr (a, found) ↦ rw (cut-lookup m k a u found) refl
        ]),
        length-drop maximum (newest_first m),
        length-newest_first m,
      )

  removed-lookup :
      (m : List (K × Stamp)) (k : K) (a : Stamp)
      → IsMap m
      → lookup k (delete_all (drop maximum (newest_first m)) m) ≡ some a
      → (lookup k (drop maximum (newest_first m)) ≡ none) × (lookup k m ≡ some a)
  removed-lookup m k a u h =
      let cut = drop maximum (newest_first m) in
      let left = lookup-delete_all cut m k u in
      elim (Bool-cases (has_key k cut)) [
        | inl gone ↦ absurd (ground (arith, h, left, gone))
        | inr stays ↦ (is_some-none (lookup k cut) stays, ground (arith, h, left, stays))
      ]

  removed-older :
      (m : List (K × Stamp)) (k j : K) (a b : Stamp)
      → IsMap m
      → lookup k (delete_all (drop maximum (newest_first m)) m) ≡ some a
      → lookup j m ≡ some b
      → lookup j (delete_all (drop maximum (newest_first m)) m) ≡ none
      → time_of b ≤ time_of a
  removed-older m k j a b u h other gone =
      let sorted = newest_first m in
      let cut = drop maximum sorted in
      let left = lookup-delete_all cut m j u in
      let stays = removed-lookup m k a u h in
      elim (Option-cases (lookup j cut)) [
        | inl missing ↦ absurd (ground (arith, gone, left, missing, other))
        | inr (c, found) ↦
            let same : c ≡ b = ground (arith, cut-lookup m j c u found, other) in
            rw⁻¹ same (
              drop-IsSorted maximum sorted k j a c (newest_first-IsSorted m)
                (lookup-newest_first m k u ∙ stays.1) stays.0 found)
      ]

  -- The entries that are kept are the valid ones of the right age; beyond the maximum the oldest go.
  pub prune_timestamp_map-IsPruned :
      IsMap values → IsPruned (prune_timestamp_map now age maximum values)
  unfolding prune_timestamp_map
  prune_timestamp_map-IsPruned u =
      let kept = keep (is_kept now age) values in
      let unique = keep-IsMap (is_kept now age) values u in
      elim (Bool-cases (leb (length kept) maximum)) [
        | inl few ↦ rw few (
          unique,
          ground (arith, few),
          λ k a h. kept-lookup k a u h,
          λ k j a b h other stays gone.
              absurd
                (ground (arith, gone, lookup-keep (is_kept now age) j b values u other, stays)),
        )
        | inr many ↦ rw many (
          delete_all-IsMap (drop maximum (newest_first kept)) kept unique,
          ground (arith, length-removed kept unique (ground (arith, many))),
          λ k a h. kept-lookup k a u (removed-lookup kept k a unique h).1,
          λ k j a b h other stays gone.
              removed-older kept k j a b unique h
                (lookup-keep (is_kept now age) j b values u other ∙ ground (arith, stays)) gone,
        )
      ]
