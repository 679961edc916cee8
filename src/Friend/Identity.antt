-- ===== src/Friend/Identity.antt =====
-- The validation and normalisation helpers at the end of internal/friendtogether/store.go.
use my_t_companion.Base.{
  Bool, true, false, not, ◌&&◌, ◌||◌, Option, none, some, [], ◌++◌, map, ltb, ◌==◌, if◌then◌else◌,
  length, any, all,
}
use my_t_companion.Base.Int.{ℤ, pos, ltb_ℤ, leb_ℤ, eqb_ℤ}
use my_t_companion.Base.Eq.{Bytes, bytes_eq}
use my_t_companion.Base.Text.{
  to_lower, slice, byte_is, hex_decode, decode_runes, is_control, is_space_rune,
}
use my_t_companion.Friend.Types.{
  Binding, SourceKey, OwnerPrincipal, DestinationAlias, max_timestamp_ms,
}

unfoldable pub valid_time : ℤ → Bool
valid_time t = leb_ℤ (pos 0) t && leb_ℤ t max_timestamp_ms

-- Both nil, or both set and equal by `==` of the type.
unfoldable pub equal_pointer {ℓ} : {A : Type ℓ} → (A → A → Bool) → Option A → Option A → Bool
equal_pointer eq none none = true
equal_pointer eq none (some b) = false
equal_pointer eq (some a) none = false
equal_pointer eq (some a) (some b) = eq a b

-- Both set, and the current one smaller.
unfoldable pub regressed : Option ℤ → Option ℤ → Bool
regressed none previous = false
regressed (some c) none = false
regressed (some c) (some p) = ltb_ℤ c p

unfoldable pub has_uuid_shape : Bytes → Bool
has_uuid_shape id =
    length id == 36
    && byte_is id 8 b'-'
    && byte_is id 13 b'-'
    && byte_is id 18 b'-'
    && byte_is id 23 b'-'

unfoldable pub hex_text : Bytes → Bytes
hex_text id = slice 0 8 id ++ slice 9 13 id ++ slice 14 18 id ++ slice 19 23 id ++ slice 24 36 id

-- The lower-case text and whether some byte of it is not zero.
unfoldable pub decoded_id : Bytes → Option Bytes → Bytes × Bool
decoded_id id none = ([], false)
decoded_id id (some decoded) = (map to_lower id, any (λ b. not (b == 0)) decoded)

unfoldable pub normalize_id : Bytes → Bytes × Bool
normalize_id id =
    if not (has_uuid_shape id) then ([], false) else decoded_id id (hex_decode (hex_text id))

abbrev pub empty_binding : Binding
empty_binding = record {
  grant_id = [];
  issuer_id = [];
  session_id = [];
  member_id = [];
  recipient_id = [];
}

abbrev pub empty_source : SourceKey
empty_source = record { source_id = []; car_id = pos 0 }

unfoldable pub normalize_binding : Binding → Binding × Bool
normalize_binding b =
    let (g, g_ok) = normalize_id b.grant_id in
    let (i, i_ok) = normalize_id b.issuer_id in
    let (s, s_ok) = normalize_id b.session_id in
    let (m, m_ok) = normalize_id b.member_id in
    let (r, r_ok) = normalize_id b.recipient_id in
    if g_ok && i_ok && s_ok && m_ok && r_ok
    then (
      record { grant_id = g; issuer_id = i; session_id = s; member_id = m; recipient_id = r },
      true,
    )
    else (empty_binding, false)

unfoldable pub normalize_source : SourceKey → SourceKey × Bool
normalize_source s =
    let (id, id_ok) = normalize_id s.source_id in
    if not id_ok || ltb_ℤ s.car_id (pos 1)
    then (empty_source, false)
    else (record s { source_id = id }, true)

-- `==` of the two structs.
unfoldable pub binding_eq : Binding → Binding → Bool
binding_eq a b =
    bytes_eq a.grant_id b.grant_id
    && bytes_eq a.issuer_id b.issuer_id
    && bytes_eq a.session_id b.session_id
    && bytes_eq a.member_id b.member_id
    && bytes_eq a.recipient_id b.recipient_id

unfoldable pub source_eq : SourceKey → SourceKey → Bool
source_eq a b = bytes_eq a.source_id b.source_id && eqb_ℤ a.car_id b.car_id

unfoldable pub valid_owner : OwnerPrincipal → Binding → SourceKey → Bool
unfolding source_eq
valid_owner owner binding source =
    let (issuer, issuer_ok) = normalize_id owner.issuer_id in
    let (owned, owned_ok) = normalize_source owner.source in
    issuer_ok && owned_ok && bytes_eq issuer binding.issuer_id && source_eq owned source

unfoldable pub owner_matches_request : OwnerPrincipal → Binding → SourceKey → Bool
unfolding valid_owner
owner_matches_request owner binding source =
    let (b, b_ok) = normalize_binding binding in
    let (s, s_ok) = normalize_source source in b_ok && s_ok && valid_owner owner b s

-- In valid text strings.TrimSpace leaves nothing when every rune is a space.
unfoldable pub valid_alias : DestinationAlias → Bool
valid_alias a =
    if ltb_ℤ a.navigation_revision (pos 1) || ltb 256 (length a.value)
    then false
    else elim (decode_runes a.value) [
      | none ↦ false
      | some runes ↦ not (all is_space_rune runes) && not (any is_control runes)
    ]
