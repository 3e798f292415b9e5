-- ===== src/Image/Lut.antt =====
-- middleware/image/color_lut.c: the fixed-point coefficients of the conversion from YUV to RGB, and
-- its tables. The code computes a coefficient as `(int)(c * (float)PRECISION + 0.5f)` for a decimal
-- `c` of three places; here `c` is written in thousandths, which gives the same integers, as no
-- product lies near an integer. A table of the code lists its 256 initialisers, which differ in the
-- operand 0, 1, ..., 255 only; here `tabulate` lists them.
use beaglebone_black_motion.Base.{
  ℕ, zero, suc, ◌+◌, ◌*◌, ◌/◌, ◌<◌, ◌≡◌, ap, ◌∙◌, some, List, [], ◌∷◌, get_elem?, arith,
}
use beaglebone_black_motion.Base.Int.{ℤ, pos, ◌+ℤ◌, ◌-ℤ◌, ◌*ℤ◌}

-- `PRECISION`
abbrev pub precision : ℕ
precision = 32768

-- `(int)(c * (float)PRECISION + 0.5f)`, with `c` in thousandths.
abbrev pub fixed : ℕ → ℕ
fixed c = (c * precision + 500) / 1000

-- `COEFFICIENT_Y`
abbrev pub coefficient_y : ℤ
coefficient_y = pos (fixed 1164)

-- `COEFFICIENT_RV`
abbrev pub coefficient_rv : ℤ
coefficient_rv = pos (fixed 1596)

-- `COEFFICIENT_GU`
abbrev pub coefficient_gu : ℤ
coefficient_gu = pos (fixed 391)

-- `COEFFICIENT_GV`
abbrev pub coefficient_gv : ℤ
coefficient_gv = pos (fixed 813)

-- `COEFFICIENT_BU`
abbrev pub coefficient_bu : ℤ
coefficient_bu = pos (fixed 2018)

-- `-x`
pub negate : ℤ → ℤ
unfolding ◌-ℤ◌
negate x = pos 0 -ℤ x

-- `-COEFFICIENT_GU * (n - 128)`, an initialiser of `CoeffecientsGU`
unfoldable pub entry_gu : ℕ → ℤ
unfolding negate ◌-ℤ◌ ◌*ℤ◌
entry_gu n = negate coefficient_gu *ℤ (pos n -ℤ pos 128)

-- `-COEFFICIENT_GV * (n - 128)`, an initialiser of `CoeffecientsGV`
unfoldable pub entry_gv : ℕ → ℤ
unfolding negate ◌-ℤ◌ ◌*ℤ◌
entry_gv n = negate coefficient_gv *ℤ (pos n -ℤ pos 128)

-- `COEFFICIENT_RV * (n - 128)`, an initialiser of `CoeffecientsRV`
unfoldable pub entry_rv : ℕ → ℤ
unfolding ◌-ℤ◌ ◌*ℤ◌
entry_rv n = coefficient_rv *ℤ (pos n -ℤ pos 128)

-- `COEFFICIENT_BU * (n - 128)`, an initialiser of `CoeffecientsBU`
unfoldable pub entry_bu : ℕ → ℤ
unfolding ◌-ℤ◌ ◌*ℤ◌
entry_bu n = coefficient_bu *ℤ (pos n -ℤ pos 128)

-- `COEFFICIENT_Y * (n - 16) + (PRECISION / 2)`, an initialiser of `CoefficientsY`
unfoldable pub entry_y : ℕ → ℤ
unfolding ◌+ℤ◌ ◌-ℤ◌ ◌*ℤ◌
entry_y n = coefficient_y *ℤ (pos n -ℤ pos 16) +ℤ pos (precision / 2)

-- `entry i`, `entry (i + 1)`, and so on: `n` entries.
pub tabulate : (ℕ → ℤ) → ℕ → ℕ → List ℤ
tabulate entry i zero = []
tabulate entry i (suc n) = entry i ∷ tabulate entry (i + 1) n

pub get_elem?-tabulate :
    (entry : ℕ → ℤ) (i n j : ℕ) → j < n → get_elem? (tabulate entry i n) j ≡ some (entry (i + j))
unfolding tabulate
get_elem?-tabulate entry i zero j h = absurd (omega arith)
get_elem?-tabulate entry i (suc n) zero h = ap (λ k. some (entry k)) (omega arith)
get_elem?-tabulate entry i (suc n) (suc j) h =
    get_elem?-tabulate entry (i + 1) n j (omega arith) ∙ ap (λ k. some (entry k)) (omega arith)

-- `CoeffecientsGU`
unfoldable pub coefficients_gu : List ℤ
unfolding tabulate entry_gu
coefficients_gu = tabulate entry_gu 0 256

-- `CoeffecientsGV`
unfoldable pub coefficients_gv : List ℤ
unfolding tabulate entry_gv
coefficients_gv = tabulate entry_gv 0 256

-- `CoeffecientsRV`
unfoldable pub coefficients_rv : List ℤ
unfolding tabulate entry_rv
coefficients_rv = tabulate entry_rv 0 256

-- `CoeffecientsBU`
unfoldable pub coefficients_bu : List ℤ
unfolding tabulate entry_bu
coefficients_bu = tabulate entry_bu 0 256

-- `CoefficientsY`
unfoldable pub coefficients_y : List ℤ
unfolding tabulate entry_y
coefficients_y = tabulate entry_y 0 256
