-- ===== src/Base/Text.antt =====
-- What the code uses of Go's `strings`, `hex` and `utf8` packages, over the bytes of a string.
use my_t_companion.Base.Int.{ℤ, sub_ℕ, pos}
use my_t_companion.Base.Tests.{ltb, leb, ◌==◌, if◌then◌else◌}
use my_t_companion.Base.Lists.{take, drop, get_elem?}
use my_t_companion.Base.Eq.{Bytes, bytes_eq, codes}
use Prim.Native.String.{String}
use Prim.Native.Nat.{ℕ, ◌+◌, ◌-◌, ◌*◌}
use mathlib.Core.Bool.{Bool, false, true, not, ◌&&◌, ◌||◌}
use mathlib.Core.Option
use mathlib.Core.Option.{Option, none, some}
use mathlib.Core.List.{List, [], ◌∷◌, ◌++◌, reverse, map}

abbrev pub within : ℕ → ℕ → ℕ → Bool
within lo hi c = leb lo c && leb c hi

-- strings.ToLower and strings.ToUpper on one ASCII byte; other bytes stay.
unfoldable pub to_lower : ℕ → ℕ
to_lower c = if within b'A' b'Z' c then c + 32 else c

unfoldable pub to_upper : ℕ → ℕ
to_upper c = if within b'a' b'z' c then c - 32 else c

-- The ASCII white space of strings.TrimSpace.
unfoldable pub is_space : ℕ → Bool
is_space c = within 9 13 c || c == 32

unfoldable pub trim_left : Bytes → Bytes
unfolding is_space
trim_left [] = []
trim_left (c ∷ cs) = if is_space c then trim_left cs else c ∷ cs

unfoldable pub trim_space : Bytes → Bytes
unfolding trim_left
trim_space s = reverse (trim_left (reverse (trim_left s)))

-- `s[lo:hi]`
abbrev pub slice : ℕ → ℕ → Bytes → Bytes
slice lo hi s = take (hi - lo) (drop lo s)

-- `s[i] == c`, false out of range
abbrev pub byte_is : Bytes → ℕ → ℕ → Bool
byte_is s i c = elim (get_elem? s i) [ none ↦ false | some b ↦ b == c ]

infixl 5 ◌>>=◌
abbrev pub ◌>>=◌ {ℓ κ} : {A : Type ℓ} {B : Type κ} → Option A → (A → Option B) → Option B
none >>= f = none
some a >>= f = f a

-- hex.DecodeString
unfoldable pub hex_value : ℕ → Option ℕ
hex_value c =
    if within b'0' b'9' c
    then some (c - b'0')
    else if within b'a' b'f' c
    then some (c - b'a' + 10)
    else if within b'A' b'F' c
    then some (c - b'A' + 10)
    else none

unfoldable pub hex_decode : Bytes → Option Bytes
unfolding hex_value
hex_decode [] = some []
hex_decode (a ∷ []) = none
hex_decode (a ∷ b ∷ cs) = do
  x ← hex_value a
  y ← hex_value b
  rest ← hex_decode cs
  some ((x * 16 + y) ∷ rest)

-- The decoder of UTF-8 between two bytes: how many continuation bytes are due, the bits so far,
-- and the range of the next byte.
pub record Utf8 : Type 0 where
  pub pending : ℕ
  pub rune : ℕ
  pub low : ℕ
  pub high : ℕ

abbrev utf8_start : Utf8
utf8_start = record { pending = 0; rune = 0; low = 0x80; high = 0xbf }

utf8_lead : ℕ → Option (Utf8 × List ℕ)
utf8_lead b =
    if ltb b 0x80
    then some (utf8_start, b ∷ [])
    else if within 0xc2 0xdf b
    then some (record utf8_start { pending = 1; rune = b - 0xc0 }, [])
    else if b == 0xe0
    then some (record { pending = 2; rune = 0; low = 0xa0; high = 0xbf }, [])
    else if b == 0xed
    then some (record { pending = 2; rune = 13; low = 0x80; high = 0x9f }, [])
    else if within 0xe1 0xef b
    then some (record utf8_start { pending = 2; rune = b - 0xe0 }, [])
    else if b == 0xf0
    then some (record { pending = 3; rune = 0; low = 0x90; high = 0xbf }, [])
    else if within 0xf1 0xf3 b
    then some (record utf8_start { pending = 3; rune = b - 0xf0 }, [])
    else if b == 0xf4
    then some (record { pending = 3; rune = 4; low = 0x80; high = 0x8f }, [])
    else none

utf8_next : Utf8 → ℕ → Option (Utf8 × List ℕ)
utf8_next u b =
    let r = u.rune * 64 + (b - 0x80) in
    if not (within u.low u.high b)
    then none
    else if u.pending == 1
    then some (utf8_start, r ∷ [])
    else some (record utf8_start { pending = u.pending - 1; rune = r }, [])

utf8_step : Utf8 → ℕ → Option (Utf8 × List ℕ)
unfolding utf8_lead utf8_next
utf8_step u b = if u.pending == 0 then utf8_lead b else utf8_next u b

utf8_loop : Utf8 → Bytes → Option (List ℕ)
unfolding utf8_step
utf8_loop u [] = if u.pending == 0 then some [] else none
utf8_loop u (b ∷ bs) = utf8_step u b >>= λ r. utf8_loop r.0 bs >>= λ rest. some (r.1 ++ rest)

-- The runes of a string, or `none` where utf8.ValidString is false.
unfoldable pub decode_runes : Bytes → Option (List ℕ)
unfolding utf8_loop
decode_runes s = utf8_loop utf8_start s

-- unicode.IsControl
abbrev pub is_control : ℕ → Bool
is_control r = ltb r 0x20 || within 0x7f 0x9f r

-- unicode.IsSpace, on runes
abbrev pub is_space_rune : ℕ → Bool
is_space_rune r =
    within 9 13 r
    || r == 0x20
    || r == 0x85
    || r == 0xa0
    || r == 0x1680
    || within 0x2000 0x200a r
    || within 0x2028 0x2029 r
    || r == 0x202f
    || r == 0x205f
    || r == 0x3000

-- `strings.ToLower` and `strings.ToUpper`, of ASCII letters only.
abbrev pub lower_text : Bytes → Bytes
lower_text = map to_lower

abbrev pub upper_text : Bytes → Bytes
upper_text = map to_upper

-- `s == "…"` for a literal of the source
abbrev pub text_is : Bytes → String → Bool
text_is s literal = bytes_eq s (codes literal)

abbrev pub is_blank : Bytes → Bool
is_blank s = text_is s ""

abbrev flush : Bytes → List Bytes → List Bytes
flush [] words = words
flush (c ∷ cs) words = (c ∷ cs) ∷ words

fields_from : Bytes → Bytes → List Bytes
fields_from word [] = flush word []
fields_from word (c ∷ cs) = elim (is_space c) [
  | true ↦ flush word (fields_from [] cs)
  | false ↦ fields_from (word ++ c ∷ []) cs
]

join_words : List Bytes → Bytes
join_words [] = []
join_words (w ∷ []) = w
join_words (w ∷ v ∷ ws) = w ++ (32 ∷ join_words (v ∷ ws))

-- `strings.Join(strings.Fields(s), " ")`
unfoldable pub collapse_spaces : Bytes → Bytes
unfolding fields_from join_words is_space
collapse_spaces s = join_words (fields_from [] s)

-- strconv.Atoi; a number too large for `int` is an error there and a large number here.
digits_from : ℕ → Bytes → Option ℕ
digits_from n [] = some n
digits_from n (c ∷ cs) =
    let rest = digits_from (n * 10 + (c - b'0')) cs in if within b'0' b'9' c then rest else none

digits : Bytes → Option ℕ
unfolding digits_from
digits [] = none
digits (c ∷ cs) = digits_from 0 (c ∷ cs)

unfoldable pub parse_int : Bytes → Option ℤ
unfolding digits
parse_int [] = none
parse_int (c ∷ cs) =
    if c == b'-'
    then Option.map (sub_ℕ 0) (digits cs)
    else if c == b'+'
    then Option.map pos (digits cs)
    else Option.map pos (digits (c ∷ cs))

-- `normalizedMQTTValue` of notification.go: the trimmed value, or nothing for an unknown one.
unfoldable pub normalized_mqtt_value : Bytes → Bytes
normalized_mqtt_value value =
    let s = lower_text (trim_space value) in
    if is_blank s || text_is s "nil" || text_is s "null" || text_is s "unknown"
    then []
    else trim_space value

-- `collapsedDisplayName` of notification.go
unfoldable pub collapsed_display_name : Bytes → Bytes
collapsed_display_name value = collapse_spaces (normalized_mqtt_value value)
