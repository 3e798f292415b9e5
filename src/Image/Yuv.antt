-- ===== src/Image/Yuv.antt =====
-- middleware/image/image.c: `yuv2rgb`, one pixel from YUV to RGB through the tables.
pub mod Exact
use beaglebone_black_motion.Base.{
  ℕ, ◌+◌, ◌-◌, ◌*◌, ◌/◌, ◌%◌, ◌^◌, ◌≤◌, ◌<◌, ◌≡◌, refl, ap, ◌∙◌, Option, none, some, Bool, ◌&&◌,
  List, [], ◌∷◌, get_elem?, if◌then◌else◌, leb, ltb, arith, bit_and,
}
use beaglebone_black_motion.Base.Int.{
  ℤ, pos, negsuc, pos_part, neg_part, ◌+ℤ◌, ◌-ℤ◌, ◌*ℤ◌, ◌/ℤ◌, ◌≤ℤ◌, ltb_ℤ, sub_ℕ,
}
use beaglebone_black_motion.Types.{u8}
use beaglebone_black_motion.Image.Lut.{
  precision, coefficients_y, coefficients_rv, coefficients_gu, coefficients_gv, coefficients_bu,
}

-- `CLAMP_UPPER(x, y)`
abbrev pub clamp_upper : ℤ → ℤ → ℤ
clamp_upper x y = if ltb_ℤ y x then y else x

-- `CLAMP_LOWER(x, y)`
abbrev pub clamp_lower : ℤ → ℤ → ℤ
clamp_lower x y = if ltb_ℤ x y then y else x

-- `(uint8_t) x & 0xFFu`
abbrev pub to_byte : ℤ → ℕ
to_byte (pos n) = bit_and (u8 n) 0xff
to_byte (negsuc n) = bit_and (2 ^ 8 - 1 - u8 n) 0xff

-- What the code does to each of `RR`, `GG` and `BB`: the division, the two clamps and the cast.
pub finish : ℤ → ℕ
unfolding ◌/ℤ◌
finish x = to_byte (clamp_lower (clamp_upper (x /ℤ precision) (pos 255)) (pos 0))

-- A read of a table; `none` is a read outside of it.
infixl 5 ◌>>=◌
abbrev pub ◌>>=◌ {ℓ κ} : {A : Type ℓ} {B : Type κ} → Option A → (A → Option B) → Option B
none >>= f = none
some a >>= f = f a

-- An addition of two `int`s; `none` is an overflow, which has no defined result.
abbrev pub in_int : ℤ → Bool
in_int x = ltb (pos_part x) (2 ^ 31) && leb (neg_part x) (2 ^ 31)

pub add_int : ℤ → ℤ → Option ℤ
add_int x y = if in_int (x +ℤ y) then some (x +ℤ y) else none

-- The sums of `yuv2rgb` and what follows them, from what the tables gave.
pub pixel_of : (cy rv gu gv bu : ℤ) → Option (ℕ × ℕ × ℕ)
unfolding finish ◌+ℤ◌ add_int
pixel_of cy rv gu gv bu = do
  rr ← add_int cy rv
  gg ← add_int cy gu
  gg' ← add_int gg gv
  bb ← add_int cy bu
  some (finish rr, finish gg', finish bb)

-- `yuv2rgb`
unfoldable pub yuv2rgb : ℕ → ℕ → ℕ → Option (ℕ × ℕ × ℕ)
unfolding finish ◌+ℤ◌ add_int pixel_of coefficients_y coefficients_rv coefficients_gu
    coefficients_gv coefficients_bu
yuv2rgb y u v = do
  cy ← get_elem? coefficients_y y
  rv ← get_elem? coefficients_rv v
  gu ← get_elem? coefficients_gu u
  gv ← get_elem? coefficients_gv v
  bu ← get_elem? coefficients_bu u
  pixel_of cy rv gu gv bu
