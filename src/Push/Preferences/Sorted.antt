-- ===== src/Push/Preferences/Sorted.antt =====
-- What normalizing the preferences of cars keeps (push_subscribers.go).
use my_t_companion.Base.Int.{eqb_ℤ_iff, eqb_ℤ}
use my_t_companion.Base.{
  if◌then◌else◌, ◌≡◌, false, ◌∷◌, true, arith, ◌∙◌, ap, [], refl, ◌||◌, length, inr, suc, ◌≤◌,
}
use my_t_companion.Push.Preferences.{
  preferences_from, names_car, are_valid, insert_by_car, sort_by_car,
  normalize_vehicle_push_preferences, PushSubscriber, ℤ, VehiclePushPreferences, List,
  max_vehicle_push_preference_items,
}

module _ (s : PushSubscriber) (car : ℤ) where
  insert-same :
      (p : VehiclePushPreferences) (qs : List VehiclePushPreferences)
      → names_car p.car_id qs ≡ false
      → preferences_from s car (insert_by_car p qs) ≡ preferences_from s car (p ∷ qs)
  unfolding preferences_from insert_by_car names_car
  insert-same p [] h = refl
  insert-same p (q ∷ qs) h = ground (
    arith,
    eqb_ℤ_iff p.car_id car,
    eqb_ℤ_iff q.car_id car,
    eqb_ℤ_iff q.car_id p.car_id,
    insert-same p qs,
  )

names_car-insert :
    (car : ℤ) (p : VehiclePushPreferences) (qs : List VehiclePushPreferences)
    → names_car car (insert_by_car p qs) ≡ names_car car (p ∷ qs)
unfolding insert_by_car names_car
names_car-insert car p [] = refl
names_car-insert car p (q ∷ qs) = ground (arith, names_car-insert car p qs)

names_car-sort :
    (car : ℤ) (qs : List VehiclePushPreferences) → names_car car (sort_by_car qs) ≡ names_car car qs
unfolding sort_by_car names_car
names_car-sort car [] = refl
names_car-sort car (q ∷ qs) =
    names_car-insert car q (sort_by_car qs)
    ∙ ap (λ b. eqb_ℤ q.car_id car || b) (names_car-sort car qs)

-- A valid list names no car that was seen.
valid-new :
    (p : VehiclePushPreferences) (seen qs : List VehiclePushPreferences)
    → names_car p.car_id seen ≡ true
    → are_valid seen qs ≡ true
    → names_car p.car_id qs ≡ false
unfolding are_valid names_car
valid-new p seen [] n h = refl
valid-new p seen (q ∷ qs) n h = ground (
  arith,
  eqb_ℤ_iff q.car_id p.car_id,
  ap (λ (c : ℤ). names_car c seen),
  valid-new p (q ∷ seen) qs,
)

own-name :
    (q : VehiclePushPreferences) (seen : List VehiclePushPreferences)
    → names_car q.car_id (q ∷ seen) ≡ true
unfolding names_car
own-name q seen = ground (arith, eqb_ℤ_iff q.car_id q.car_id)

head-same :
    (s : PushSubscriber) (car : ℤ) (q : VehiclePushPreferences) (a b : List VehiclePushPreferences)
    → preferences_from s car a ≡ preferences_from s car b
    → preferences_from s car (q ∷ a) ≡ preferences_from s car (q ∷ b)
unfolding preferences_from
head-same s car q a b e = ap (λ r. if eqb_ℤ q.car_id car then q else r) e

sort-same :
    (s : PushSubscriber) (car : ℤ) (seen qs : List VehiclePushPreferences)
    → are_valid seen qs ≡ true
    → preferences_from s car (sort_by_car qs) ≡ preferences_from s car qs
unfolding sort_by_car are_valid
sort-same s car seen [] h = refl
sort-same s car seen (q ∷ qs) h =
    let rest : are_valid (q ∷ seen) qs ≡ true = ground arith in
    let fresh = valid-new q (q ∷ seen) qs (own-name q seen) rest in
    insert-same s car q (sort_by_car qs) (names_car-sort q.car_id qs ∙ fresh)
    ∙ head-same s car q (sort_by_car qs) qs (sort-same s car (q ∷ seen) qs rest)

length-insert :
    (p : VehiclePushPreferences) (qs : List VehiclePushPreferences)
    → length (insert_by_car p qs) ≡ suc (length qs)
unfolding insert_by_car
length-insert p [] = refl
length-insert p (q ∷ qs) = ground (arith, length-insert p qs)

length-sort : (qs : List VehiclePushPreferences) → length (sort_by_car qs) ≡ length qs
unfolding sort_by_car
length-sort [] = refl
length-sort (q ∷ qs) = length-insert q (sort_by_car qs) ∙ ap suc (length-sort qs)

-- Preferences that are accepted are at most 32, are all kept, and give every car what the list gave it as it
-- came, whatever the phone's own choices are.
pub normalize-same :
    (s : PushSubscriber) (car : ℤ) (values ps : List VehiclePushPreferences)
    → normalize_vehicle_push_preferences values ≡ inr ps
    → (length ps ≡ length values)
      × (length ps ≤ max_vehicle_push_preference_items)
      × (preferences_from s car ps ≡ preferences_from s car values)
unfolding normalize_vehicle_push_preferences
normalize-same s car values ps h =
    let valid : are_valid [] values ≡ true = ground arith in
    let sorted : ps ≡ sort_by_car values = ground arith in
    let room : length values ≤ max_vehicle_push_preference_items = ground arith in
    let same = ap length sorted ∙ length-sort values in
    (same, omega arith, ap (preferences_from s car) sorted ∙ sort-same s car [] values valid)
