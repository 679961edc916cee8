-- ===== src/Base/Float.antt =====
-- `float64` values, as far as the code compares them. A finite value is a whole multiple of
-- 2 ^ -1074, the least positive value of the type; the two zeros are one value here, as for `==`.
use my_t_companion.Base.Int.{ℤ, pos, ltb_ℤ, leb_ℤ, eqb_ℤ, sub_ℕ}
use Prim.Native.Nat.{ℕ, ◌*◌, ◌-◌, ◌^◌}
use mathlib.Core.Bool.{Bool, true, false}

pub data Float64 : Type 0 where
  nan inf neg_inf : Float64
  finite : ℤ → Float64

-- 1.0
unfoldable pub float_one : ℕ
float_one = 2 ^ 1074

unfoldable pub float_of : ℕ → Float64
unfolding float_one
float_of n = finite (pos (n * float_one))

unfoldable pub float_neg : ℕ → Float64
unfolding float_one sub_ℕ
float_neg n = finite (sub_ℕ 0 (n * float_one))

-- math.MaxFloat64
unfoldable pub max_float64 : Float64
max_float64 = finite (pos ((2 ^ 53 - 1) * 2 ^ 2045))

-- `a < b`; every comparison with NaN is false.
unfoldable pub float_lt : Float64 → Float64 → Bool
float_lt (finite a) (finite b) = ltb_ℤ a b
float_lt neg_inf (finite b) = true
float_lt neg_inf inf = true
float_lt (finite a) inf = true
float_lt _ _ = false

-- `a == b`
unfoldable pub float_eq : Float64 → Float64 → Bool
float_eq (finite a) (finite b) = eqb_ℤ a b
float_eq inf inf = true
float_eq neg_inf neg_inf = true
float_eq _ _ = false

-- `a <= b`
unfoldable pub float_le : Float64 → Float64 → Bool
float_le (finite a) (finite b) = leb_ℤ a b
float_le neg_inf (finite b) = true
float_le neg_inf inf = true
float_le (finite a) inf = true
float_le inf inf = true
float_le neg_inf neg_inf = true
float_le _ _ = false

-- math.IsNaN(v)
unfoldable pub is_nan : Float64 → Bool
is_nan nan = true
is_nan _ = false

-- math.IsInf(v, 0)
unfoldable pub is_inf : Float64 → Bool
is_inf inf = true
is_inf neg_inf = true
is_inf _ = false
