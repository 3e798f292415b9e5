-- ===== src/Base/Bits.antt =====
-- Masking by `2 ^ k - 1` is the remainder by `2 ^ k`.
use Prim.Native.Nat.{
  ℕ, zero, suc, ◌+◌, ◌-◌, ◌*◌, ◌/◌, ◌%◌, ◌^◌, ◌≤◌, ◌<◌, ◌∣◌, min, bit_and, digits, bit_and-bitwise,
}
use mathlib.Core.Path.{◌≡◌, sym, ap, ap₂, ◌∙◌}
use native.Mathlib.Nat.{
  pow-suc, div-add-mod, mul-add-mod_self_left, mod-eq_of_lt, mod-lt, zero-mod, mul_assoc, add-suc,
  add-zero, mul-suc, mod-mod_of_dvd, mod-eq-sub-mod, dvd-mul_right, pow-le-pow_right,
}
use native.Mathlib.Decide.{dec_lt}
use native.Mathlib.Omega.{arith}
use beaglebone_black_motion.Base.Boolean.{ltb, lt→ltb, if◌then◌else◌}

pub two_pow_pos : (k : ℕ) → 0 < 2 ^ k
two_pow_pos zero = omega arith
two_pow_pos (suc k) = omega (arith, pow-suc 2 k, two_pow_pos k)

-- A number below `2 * p` is its own remainder, whatever multiple of `2 * p` is added.
mod_of_parts : (x p d s : ℕ) → x ≡ 2 * p * d + s → s < 2 * p → x % (2 * p) ≡ s
mod_of_parts x p d s e h =
    ap (λ y. y % (2 * p)) e ∙ mul-add-mod_self_left (2 * p) d s ∙ mod-eq_of_lt h

-- The remainder by `2 * p`, from the last binary digit and the rest.
mod_double : (x p : ℕ) → 0 < p → (x / 2 % p) * 2 + x % 2 ≡ x % (2 * p)
mod_double x p h = sym (
    mod_of_parts x p (x / 2 / p) ((x / 2 % p) * 2 + x % 2)
      (omega (arith, div-add-mod (x / 2) p, mul_assoc 2 p (x / 2 / p)))
      (omega (arith, mod-lt (x / 2) h)))

-- The mask has `k` binary ones.
mask_digits : (n k a : ℕ) → a ≤ n → digits (λ b. zero) min n a (2 ^ k - 1) ≡ a % 2 ^ k
mask_digits zero k zero h = sym (zero-mod (2 ^ k))
mask_digits zero k (suc a) h = absurd (omega arith)
mask_digits (suc n) k zero h = sym (zero-mod (2 ^ k))
mask_digits (suc n) zero (suc a) h = omega (arith, mask_digits n zero (suc a / 2) (omega arith))
mask_digits (suc n) (suc k) (suc a) h =
    ap₂ (λ m e. digits (λ b. zero) min n (suc a / 2) m * 2 + min (suc a % 2) e) half odd
    ∙ omega (arith, mask_digits n k (suc a / 2) (omega arith))
    ∙ mod_double (suc a) (2 ^ k) (two_pow_pos k)
    ∙ ap (λ p. suc a % p) (omega (arith, pow-suc 2 k))
  where
    half : (2 ^ suc k - 1) / 2 ≡ 2 ^ k - 1
    half = omega (arith, pow-suc 2 k, two_pow_pos k)

    odd : (2 ^ suc k - 1) % 2 ≡ 1
    odd = omega (arith, pow-suc 2 k, two_pow_pos k)

-- `x & (2 ^ k - 1)` is `x % 2 ^ k`.
pub bit_and_mask : (k x : ℕ) → bit_and x (2 ^ k - 1) ≡ x % 2 ^ k
bit_and_mask k x = bit_and-bitwise x (2 ^ k - 1) ∙ mask_digits x k x (omega arith)

two_pow_add : (k n : ℕ) → 2 ^ (k + n) ≡ 2 ^ k * 2 ^ n
two_pow_add k zero = rw (add-zero) (omega arith)
two_pow_add k (suc n) =
    rw (add-suc, pow-suc, pow-suc)
      (omega (arith, ap (λ m. m * 2) (two_pow_add k n), mul_assoc (2 ^ k) (2 ^ n) 2))

sub_wrap_mul : (p q a b : ℕ) → b < p → (a + p * suc q - b) % p ≡ (a + p - b) % p
sub_wrap_mul p q a b h =
    ap (λ x. x % p) {y = p * q + (a + p - b)} (omega (arith, mul-suc p q))
    ∙ mul-add-mod_self_left p q (a + p - b)

-- Subtraction modulo a multiple of `2 ^ k` is subtraction modulo `2 ^ k`, after the mask.
pub sub_wrap :
    (k n m a b : ℕ)
    → k + n ≡ m
    → b < 2 ^ k
    → (a + 2 ^ m - b) % 2 ^ m % 2 ^ k ≡ (a + 2 ^ k - b) % 2 ^ k
sub_wrap k n m a b e h =
    mod-mod_of_dvd (2 ^ k) (a + 2 ^ m - b) multiple
    ∙ ap (λ x. (a + x - b) % 2 ^ k) product
    ∙ sub_wrap_mul (2 ^ k) (2 ^ n - 1) a b h
  where
    product : 2 ^ m ≡ 2 ^ k * suc (2 ^ n - 1)
    product =
        ap (λ x. 2 ^ x) (sym e)
        ∙ two_pow_add k n
        ∙ ap (λ x. 2 ^ k * x) (omega (arith, two_pow_pos n))

    multiple : 2 ^ k ∣ 2 ^ m
    multiple = rw product (dvd-mul_right (2 ^ k) (suc (2 ^ n - 1)))

pub two_pow_le : (i j : ℕ) → i ≤ j → 2 ^ i ≤ 2 ^ j
two_pow_le i j h = pow-le-pow_right {n = 2} (omega arith) h

-- The remainder of a number below twice the divisor, by one test.
pub mod_wrap : (x s : ℕ) → x < 2 * s → x % s ≡ (if ltb x s then x else x - s)
mod_wrap x s h = elim (dec_lt x s) [
  | yes p ↦ rw (lt→ltb x s p, mod-eq_of_lt p)
  | no p ↦ ground (
    arith,
    mod-eq-sub-mod {n = x} {m = s} (omega arith),
    mod-eq_of_lt {n = x - s} {m = s} (omega arith),
  )
]
