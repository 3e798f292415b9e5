-- ===== src/Image/Yuv/Exact.antt =====
-- What `yuv2rgb` computes, written out: no read leaves a table, no sum leaves `int`, and each channel
-- is the rounded weighted sum, cut to a byte.
use native.Mathlib.Nat.{zero-add}
use beaglebone_black_motion.Base.{
  ℕ, ◌+◌, ◌-◌, ◌*◌, ◌/◌, ◌%◌, ◌^◌, ◌≤◌, ◌<◌, ◌≡◌, refl, ap, ◌∙◌, some, min, ◌⊎◌, inl, inr, arith,
  bit_and_mask, bit_and, get_elem?,
}
use beaglebone_black_motion.Base.Int.{ℤ, pos, negsuc, pos_part, neg_part, ◌+ℤ◌, +ℤ_parts}
use beaglebone_black_motion.Image.Lut.{
  tabulate, get_elem?-tabulate, coefficients_y, coefficients_rv, coefficients_gu, coefficients_gv,
  coefficients_bu, entry_y, entry_rv, entry_gu, entry_gv, entry_bu,
}
use beaglebone_black_motion.Image.Yuv.{finish, add_int, pixel_of, yuv2rgb}

-- The channels in natural numbers, scaled by 32768; a difference below 0 stops at 0.
abbrev pub red : ℕ → ℕ → ℕ
red y v = min 255 ((38142 * y + 52298 * v + 16384 - 7304416) / 32768)

abbrev pub green : ℕ → ℕ → ℕ → ℕ
green y u v = min 255 ((38142 * y + 5066240 - (12812 * u + 26640 * v + 610272)) / 32768)

abbrev pub blue : ℕ → ℕ → ℕ
blue y u = min 255 ((38142 * y + 66126 * u + 16384 - 9074400) / 32768)

byte_mask : (n : ℕ) → n < 256 → bit_and (n % 2 ^ 8) 255 ≡ n
byte_mask n h = bit_and_mask 8 (n % 2 ^ 8) ∙ omega arith

-- The division, the clamps and the cast, on a sum of either sign.
finish_lem : (x : ℤ) → finish x ≡ min 255 (pos_part x / 32768)
unfolding finish
finish_lem (pos n) = ground (arith, byte_mask (n / 32768))
finish_lem (negsuc n) = ground (arith, byte_mask 0)

-- A number has one of its two parts only.
one_sign : (x : ℤ) → (pos_part x ≡ 0) ⊎ (neg_part x ≡ 0)
one_sign (pos n) = inr refl
one_sign (negsuc n) = inl refl

entry_y_parts : (n : ℕ) → pos_part (entry_y n) + 610272 ≡ neg_part (entry_y n) + 38142 * n + 16384
unfolding entry_y
entry_y_parts n = ground arith

entry_rv_parts : (n : ℕ) → pos_part (entry_rv n) + 6694144 ≡ neg_part (entry_rv n) + 52298 * n
unfolding entry_rv
entry_rv_parts n = ground arith

entry_bu_parts : (n : ℕ) → pos_part (entry_bu n) + 8464128 ≡ neg_part (entry_bu n) + 66126 * n
unfolding entry_bu
entry_bu_parts n = ground arith

entry_gu_parts : (n : ℕ) → pos_part (entry_gu n) + 12812 * n ≡ neg_part (entry_gu n) + 1639936
unfolding entry_gu
entry_gu_parts n = ground arith

entry_gv_parts : (n : ℕ) → pos_part (entry_gv n) + 26640 * n ≡ neg_part (entry_gv n) + 3409920
unfolding entry_gv
entry_gv_parts n = ground arith

-- The three sums of a pixel, in natural numbers.
sum_red : (y v : ℕ) → pos_part (entry_y y +ℤ entry_rv v) ≡ 38142 * y + 52298 * v + 16384 - 7304416
sum_red y v = omega (
  arith,
  entry_y_parts y,
  entry_rv_parts v,
  +ℤ_parts (entry_y y) (entry_rv v),
  one_sign (entry_y y +ℤ entry_rv v),
)

sum_green :
    (y u v : ℕ)
    → pos_part (entry_y y +ℤ entry_gu u +ℤ entry_gv v)
      ≡ 38142 * y + 5066240 - (12812 * u + 26640 * v + 610272)
sum_green y u v = omega (
  arith,
  entry_y_parts y,
  entry_gu_parts u,
  entry_gv_parts v,
  +ℤ_parts (entry_y y) (entry_gu u),
  +ℤ_parts (entry_y y +ℤ entry_gu u) (entry_gv v),
  one_sign (entry_y y +ℤ entry_gu u +ℤ entry_gv v),
)

sum_blue : (y u : ℕ) → pos_part (entry_y y +ℤ entry_bu u) ≡ 38142 * y + 66126 * u + 16384 - 9074400
sum_blue y u = omega (
  arith,
  entry_y_parts y,
  entry_bu_parts u,
  +ℤ_parts (entry_y y) (entry_bu u),
  one_sign (entry_y y +ℤ entry_bu u),
)

-- The range of a 32-bit `int`.
abbrev InInt : ℤ → Type 0
InInt x = (pos_part x < 2 ^ 31) × (neg_part x ≤ 2 ^ 31)

sums-InInt :
    (y u v : ℕ)
    → y < 256
    → u < 256
    → v < 256
    → InInt (entry_y y +ℤ entry_rv v)
      × InInt (entry_y y +ℤ entry_gu u)
      × InInt (entry_y y +ℤ entry_gu u +ℤ entry_gv v)
      × InInt (entry_y y +ℤ entry_bu u)
sums-InInt y u v hy hu hv = omega (
  arith,
  entry_y_parts y,
  entry_rv_parts v,
  entry_gu_parts u,
  entry_gv_parts v,
  entry_bu_parts u,
  +ℤ_parts,
  one_sign,
)

add_int_lem : (x y : ℤ) → InInt (x +ℤ y) → add_int x y ≡ some (x +ℤ y)
unfolding add_int
add_int_lem x y h = ground arith

pixel_of_lem :
    (cy rv gu gv bu : ℤ)
    → InInt (cy +ℤ rv)
    → InInt (cy +ℤ gu)
    → InInt (cy +ℤ gu +ℤ gv)
    → InInt (cy +ℤ bu)
    → pixel_of cy rv gu gv bu ≡ some (finish (cy +ℤ rv), finish (cy +ℤ gu +ℤ gv), finish (cy +ℤ bu))
unfolding pixel_of
pixel_of_lem cy rv gu gv bu r g g' b =
    rw (add_int_lem cy rv r, add_int_lem cy gu g, add_int_lem (cy +ℤ gu) gv g', add_int_lem cy bu b)
      refl

-- Where the five reads are inside their tables.
yuv2rgb_reads :
    (y u v : ℕ) {cy rv gu gv bu : ℤ}
    → get_elem? coefficients_y y ≡ some cy
    → get_elem? coefficients_rv v ≡ some rv
    → get_elem? coefficients_gu u ≡ some gu
    → get_elem? coefficients_gv v ≡ some gv
    → get_elem? coefficients_bu u ≡ some bu
    → yuv2rgb y u v ≡ pixel_of cy rv gu gv bu
unfolding yuv2rgb
yuv2rgb_reads y u v a b c d e = rw (a, b, c, d, e) refl

table_read : (entry : ℕ → ℤ) (n : ℕ) → n < 256 → get_elem? (tabulate entry 0 256) n ≡ some (entry n)
table_read entry n h = get_elem?-tabulate entry 0 256 n h ∙ ap (λ k. some (entry k)) (zero-add n)

-- The reads of the tables stay inside them, and the sums inside `int`.
yuv2rgb_sums :
    (y u v : ℕ)
    → y < 256
    → u < 256
    → v < 256
    → yuv2rgb y u v
      ≡ some (
        finish (entry_y y +ℤ entry_rv v),
        finish (entry_y y +ℤ entry_gu u +ℤ entry_gv v),
        finish (entry_y y +ℤ entry_bu u),
      )
unfolding coefficients_y coefficients_rv coefficients_gu coefficients_gv coefficients_bu
yuv2rgb_sums y u v hy hu hv =
    let (r, g, g', b) = sums-InInt y u v hy hu hv in
    yuv2rgb_reads y u v (table_read entry_y y hy) (table_read entry_rv v hv)
      (table_read entry_gu u hu) (table_read entry_gv v hv) (table_read entry_bu u hu)
    ∙ pixel_of_lem (entry_y y) (entry_rv v) (entry_gu u) (entry_gv v) (entry_bu u) r g g' b

-- For all byte values the conversion reads inside its tables, none of its sums leaves `int`, and it gives the rounded weighted sums
-- of the three inputs, cut to the range of a byte.
pub yuv2rgb_lem :
    (y u v : ℕ)
    → y < 256
    → u < 256
    → v < 256
    → yuv2rgb y u v ≡ some (red y v, green y u v, blue y u)
yuv2rgb_lem y u v hy hu hv =
    yuv2rgb_sums y u v hy hu hv ∙ simp (finish_lem, sum_red, sum_green, sum_blue)
