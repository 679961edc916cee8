-- ===== src/Storage.antt =====
-- The bound on remembered deliveries (storage_policy.go). `time.Parse` is done already: a key is mapped to a
-- `Stamp`. `sort.Slice` does not say how it orders equal times; here the order of the map decides.
pub mod Sorting
pub mod Removal
pub mod Tests
pub mod Pruned
use my_t_companion.Base.Maps.{delete}
use my_t_companion.Base.{
  List, ℕ, ◌∷◌, some, [], keep, Bool, none, if◌then◌else◌, false, true, leb, ltb, length, ◌+◌, drop,
}
use my_t_companion.Base.Clock.{Time, Stamp}
use my_t_companion.Base.Eq.{Eq}

unfoldable pub timestamp_is_older_than : Stamp → Time → ℕ → Bool
timestamp_is_older_than none now age = true
timestamp_is_older_than (some at) now age = ltb (at + age) now

-- Neither invalid nor before the cutoff
unfoldable pub is_kept : {K : Type 0} → Time → ℕ → K × Stamp → Bool
is_kept now age (key, none) = false
is_kept now age (key, some at) = leb now (at + age)

abbrev pub time_of : Stamp → Time
time_of none = 0
time_of (some at) = at

-- A place in a list that is sorted newest first
unfoldable pub place : {K : Type 0} → K × Stamp → List (K × Stamp) → List (K × Stamp)
place x [] = x ∷ []
place x (y ∷ ys) = if ltb (time_of x.1) (time_of y.1) then y ∷ place x ys else x ∷ y ∷ ys

unfoldable pub newest_first : {K : Type 0} → List (K × Stamp) → List (K × Stamp)
unfolding place
newest_first [] = []
newest_first (x ∷ xs) = place x (newest_first xs)

-- `delete` of each key
unfoldable pub delete_all :
    {K : Type 0} {V : Type 0} ⦃e : Eq {0} K⦄ → List (K × V) → List (K × V) → List (K × V)
delete_all [] m = m
delete_all ((key, value) ∷ rest) m = delete_all rest (delete key m)

unfoldable pub prune_timestamp_map :
    {K : Type 0} ⦃e : Eq {0} K⦄ → Time → ℕ → ℕ → List (K × Stamp) → List (K × Stamp)
unfolding is_kept newest_first delete_all
prune_timestamp_map now age maximum values =
    let kept = keep (is_kept now age) values in
    if leb (length kept) maximum then kept else delete_all (drop maximum (newest_first kept)) kept
