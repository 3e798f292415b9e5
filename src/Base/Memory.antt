-- ===== src/Base/Memory.antt =====
-- Copies between arrays of bytes. `none` is an access outside of one of the arrays, which the C code
-- does not check for: undefined behaviour.
use Prim.Native.Nat.{ℕ, ◌<◌, ◌≤◌}
use mathlib.Core.Path.{◌≡◌}
use mathlib.Core.Option.{Option, none, some}
use mathlib.Core.List.{List, ◌++◌}
use native.Mathlib.Omega.{arith}
use beaglebone_black_motion.Base.Boolean.{leb, ltb, if◌then◌else◌}
use beaglebone_black_motion.Base.Lists.{
  length, set, take, drop, length-append, length-take, length-drop,
}
use mathlib.Core.Bool.{◌&&◌}

-- `memcpy(dst, src, n)`: the destination afterwards.
unfoldable pub memcpy : List ℕ → List ℕ → ℕ → Option (List ℕ)
memcpy dst src n =
    if leb n (length dst) && leb n (length src) then some (take n src ++ drop n dst) else none

-- `dst[i] = v`
unfoldable pub put_at : List ℕ → ℕ → ℕ → Option (List ℕ)
put_at dst i v = if ltb i (length dst) then some (set dst i v) else none

-- A copy that stays inside both arrays succeeds: the bytes copied, then those that were there.
pub memcpy-some :
    (dst src : List ℕ) (n : ℕ)
    → n ≤ length dst
    → n ≤ length src
    → memcpy dst src n ≡ some (take n src ++ drop n dst)
unfolding memcpy
memcpy-some dst src n h k = ground arith

pub memcpy-none : (dst src : List ℕ) (n : ℕ) → length dst < n → memcpy dst src n ≡ none
unfolding memcpy
memcpy-none dst src n h = ground arith

pub length-memcpy :
    (dst src : List ℕ) (n : ℕ) {d : List ℕ} → memcpy dst src n ≡ some d → length d ≡ length dst
unfolding memcpy
length-memcpy dst src n h =
    ground (arith, length-append (take n src) (drop n dst), length-take n src, length-drop n dst)
