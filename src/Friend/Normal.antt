-- ===== src/Friend/Normal.antt =====
-- What normalisation of identifiers does (internal/friendtogether/store.go, `normalizeID`), and the
-- equality of the normalised structs.
use my_t_companion.Base.{
  none, some, ℕ, zero, suc, ◌-◌, ◌≡◌, refl, ap, true, [], ◌∷◌, map, ◌==◌, length, take, drop, arith,
  sym, Option, ◌∙◌, some,
}
use mathlib.Core.List.{map-append}
use my_t_companion.Base.Int.{eqb_ℤ_iff}
use my_t_companion.Base.Eq.{Bytes, bytes_eq_iff}
use my_t_companion.Base.Text.{to_lower, slice, byte_is, hex_value, hex_decode}
use my_t_companion.Friend.Types.{Binding, SourceKey}
use my_t_companion.Friend.Identity.{
  normalize_id, has_uuid_shape, hex_text, binding_eq, source_eq, decoded_id,
}

to_lower_twice : (c : ℕ) → to_lower (to_lower c) ≡ to_lower c
unfolding to_lower
to_lower_twice c = ground arith

hex_value-to_lower : (c : ℕ) → hex_value (to_lower c) ≡ hex_value c
unfolding hex_value to_lower
hex_value-to_lower c = ground arith

to_lower-dash : (c : ℕ) → (to_lower c == b'-') ≡ (c == b'-')
unfolding to_lower
to_lower-dash c = ground arith

map-to_lower_twice : (s : Bytes) → map to_lower (map to_lower s) ≡ map to_lower s
map-to_lower_twice [] = refl
map-to_lower_twice (c ∷ cs) = ground (arith, to_lower_twice c, map-to_lower_twice cs)

length-map-to_lower : (s : Bytes) → length (map to_lower s) ≡ length s
length-map-to_lower [] = refl
length-map-to_lower (c ∷ cs) = ap suc (length-map-to_lower cs)

take-map : (n : ℕ) (s : Bytes) → take n (map to_lower s) ≡ map to_lower (take n s)
take-map zero s = refl
take-map (suc n) [] = refl
take-map (suc n) (c ∷ cs) = ap (◌∷◌ (to_lower c)) (take-map n cs)

drop-map : (n : ℕ) (s : Bytes) → drop n (map to_lower s) ≡ map to_lower (drop n s)
drop-map zero s = refl
drop-map (suc n) [] = refl
drop-map (suc n) (c ∷ cs) = drop-map n cs

byte_is-map : (s : Bytes) (i : ℕ) → byte_is (map to_lower s) i b'-' ≡ byte_is s i b'-'
byte_is-map [] i = refl
byte_is-map (c ∷ cs) zero = to_lower-dash c
byte_is-map (c ∷ cs) (suc i) = byte_is-map cs i

slice-map : (lo hi : ℕ) (s : Bytes) → slice lo hi (map to_lower s) ≡ map to_lower (slice lo hi s)
slice-map lo hi s = rw (drop-map lo s) (take-map (hi - lo) (drop lo s))

hex_decode-map : (s : Bytes) → hex_decode (map to_lower s) ≡ hex_decode s
unfolding hex_decode
hex_decode-map [] = refl
hex_decode-map (a ∷ []) = refl
hex_decode-map (a ∷ b ∷ cs) =
    rw (hex_value-to_lower a, hex_value-to_lower b, hex_decode-map cs) refl

hex_text-map : (s : Bytes) → hex_text (map to_lower s) ≡ map to_lower (hex_text s)
unfolding hex_text
hex_text-map s = simp (drop-map, take-map, map-append)

has_uuid_shape-map : (s : Bytes) → has_uuid_shape (map to_lower s) ≡ has_uuid_shape s
unfolding has_uuid_shape
has_uuid_shape-map s =
    rw
      (length-map-to_lower s, byte_is-map s 8, byte_is-map s 13, byte_is-map s 18, byte_is-map s 23)
      refl

decoded_id-map : (s : Bytes) (d : Option Bytes) → decoded_id (map to_lower s) d ≡ decoded_id s d
unfolding decoded_id
decoded_id-map s none = refl
decoded_id-map s (some d) = rw (map-to_lower_twice s) refl

pub normalize_id-map : (s : Bytes) → normalize_id (map to_lower s) ≡ normalize_id s
unfolding normalize_id
normalize_id-map s =
    rw (has_uuid_shape-map s, hex_text-map s, hex_decode-map (hex_text s), decoded_id-map s) refl

-- Two spellings of an identifier that differ in ASCII case only have one normal form.
pub normalize_id_case :
    (a b : Bytes) → map to_lower a ≡ map to_lower b → normalize_id a ≡ normalize_id b
normalize_id_case a b e = sym (normalize_id-map a) ∙ ap normalize_id e ∙ normalize_id-map b

normalize_id-lower : (s v : Bytes) → normalize_id s ≡ (v, true) → v ≡ map to_lower s
unfolding normalize_id decoded_id
normalize_id-lower s v h = ground arith

-- The normal form of an accepted identifier is accepted, and is its own normal form.
pub normalize_id_idem : (s v : Bytes) → normalize_id s ≡ (v, true) → normalize_id v ≡ (v, true)
normalize_id_idem s v h =
    rw (normalize_id-lower s v h) (normalize_id-map s ∙ (rw (← normalize_id-lower s v h) h))

pub binding_eq→eq : (a b : Binding) → binding_eq a b ≡ true → a ≡ b
unfolding binding_eq
binding_eq→eq a b h = ground (
  arith,
  bytes_eq_iff a.grant_id b.grant_id,
  bytes_eq_iff a.issuer_id b.issuer_id,
  bytes_eq_iff a.session_id b.session_id,
  bytes_eq_iff a.member_id b.member_id,
  bytes_eq_iff a.recipient_id b.recipient_id,
)

pub source_eq→eq : (a b : SourceKey) → source_eq a b ≡ true → a ≡ b
unfolding source_eq
source_eq→eq a b h =
    ground (arith, bytes_eq_iff a.source_id b.source_id, eqb_ℤ_iff a.car_id b.car_id)
