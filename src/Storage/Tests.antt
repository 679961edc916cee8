-- ===== src/Storage/Tests.antt =====
-- Pruning at concrete values.
use my_t_companion.Base.Eq.{nat_key}
use my_t_companion.Storage.Pruned.{IsPruned, prune_timestamp_map-IsPruned}
use my_t_companion.Base.{◌≡◌, some, ℕ, ◌∷◌, [], none, refl}
use my_t_companion.Base.Maps.{lookup, insert, delete, IsMap}
use my_t_companion.Storage.{
  prune_timestamp_map, timestamp_is_older_than, is_kept, place, newest_first, delete_all, List,
  Stamp,
}

abbrev delivered : List (ℕ × Stamp)
delivered = (1, some 50) ∷ (2, none) ∷ (3, some 70) ∷ (4, some 5) ∷ (5, some 60) ∷ []

newest_two : prune_timestamp_map 100 60 2 delivered ≡ (3, some 70) ∷ (5, some 60) ∷ []
unfolding timestamp_is_older_than is_kept place newest_first delete_all prune_timestamp_map lookup
    insert delete
newest_two = refl

delivered-IsMap : IsMap delivered
unfolding lookup
delivered-IsMap = (refl, (refl, (refl, (refl, (refl, tt)))))

prune_timestamp_map-IsPruned_example :
    IsPruned 100 60 2 delivered (prune_timestamp_map 100 60 2 delivered)
prune_timestamp_map-IsPruned_example =
    prune_timestamp_map-IsPruned 100 60 2 delivered delivered-IsMap
