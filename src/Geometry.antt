-- ===== src/Geometry.antt =====
-- crates/core/src/rect.rs, over f64 as its 64-bit pattern: the order of IEEE 754 is that of the
-- patterns, up to the sign. The rounding to hundredths and the Fx hash of the four results
-- (the `rustc_hash` package) are the parameter `hash`.
use agent_desktop.Prelude.{
  Bool, Option, Result, err, if◌then◌else◌, leb, ltb, none, not, ok, some, true, ℕ, ◌&&◌, ◌-◌, ◌==◌,
  ◌||◌,
}
use agent_desktop.Error.{AdapterError, invalid_args, new}

-- The bits of an f64.
abbrev pub F64 : Type 0
F64 = ℕ

abbrev pub sign_bit : ℕ
sign_bit = 0x8000000000000000

abbrev pub infinity_bits : ℕ
infinity_bits = 0x7ff0000000000000

-- `10_000_000.0`.
abbrev pub max_geometry_magnitude : F64
max_geometry_magnitude = 0x416312d000000000

unfoldable pub is_negative : F64 → Bool
is_negative x = leb sign_bit x

-- `f64::abs`.
unfoldable pub abs : F64 → F64
abs x = if leb sign_bit x then x - sign_bit else x

-- `f64::is_finite`.
unfoldable pub is_finite : F64 → Bool
unfolding abs
is_finite x = ltb (abs x) infinity_bits

unfoldable pub is_nan : F64 → Bool
unfolding abs
is_nan x = ltb infinity_bits (abs x)

-- `a <= b`: false on a NaN, and the two zeros are equal.
unfoldable pub le_f64 : F64 → F64 → Bool
unfolding is_nan is_negative abs
le_f64 a b =
    not (is_nan a || is_nan b)
    && (if is_negative a
        then (if is_negative b then leb (abs b) (abs a) else true)
        else if is_negative b
        then abs a == 0 && abs b == 0
        else leb a b)

-- `a < b`.
unfoldable pub lt_f64 : F64 → F64 → Bool
unfolding le_f64
lt_f64 a b = le_f64 a b && not (le_f64 b a)

pub record Rect : Type 0 where
  pub x : F64
  pub y : F64
  pub width : F64
  pub height : F64

abbrev pub invalid_rect : AdapterError
invalid_rect =
    new invalid_args
      "Rectangle must contain finite bounded coordinates and non-negative bounded dimensions"

unfoldable pub is_valid_rect : Rect → Bool
unfolding is_finite le_f64 abs
is_valid_rect r =
    let coordinates_valid =
      is_finite r.x
      && (is_finite r.y
          && (le_f64 (abs r.x) max_geometry_magnitude
              && le_f64 (abs r.y) max_geometry_magnitude)) in
    let size_valid =
      is_finite r.width
      && (is_finite r.height
          && ((le_f64 0 r.width && le_f64 r.width max_geometry_magnitude)
              && (le_f64 0 r.height && le_f64 r.height max_geometry_magnitude))) in
    coordinates_valid && size_valid

-- `Rect::validate`.
unfoldable pub validate : Rect → Result AdapterError Rect
unfolding is_valid_rect
validate r = if is_valid_rect r then ok r else err invalid_rect

-- `Rect::bounds_hash`.
unfoldable pub bounds_hash : (Rect → ℕ) → Rect → Option ℕ
unfolding is_valid_rect
bounds_hash hash r = if is_valid_rect r then some (hash r) else none
