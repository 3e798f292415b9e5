-- ===== src/Types.antt =====
-- utils/types/types.h and utils/types/utils.h: the result codes, `IS_ERROR` and the machine words.
use beaglebone_black_motion.Base.{ℕ, ◌+◌, ◌-◌, ◌*◌, ◌%◌, ◌^◌, if◌then◌else◌}
use beaglebone_black_motion.Base.Int.{ℤ, pos, ltb_ℤ}

-- `sys_result_e`
pub data SysResult : Type 0 where
  sys_success sys_failure sys_ignore sys_count : SysResult

-- `IS_ERROR(x)`: a negative code is a failure, any other a success.
unfoldable pub is_error : ℤ → SysResult
is_error x = if ltb_ℤ x (pos 0) then sys_failure else sys_success

-- `uint8_t` and `uint32_t` arithmetic wraps.
abbrev pub u8 : ℕ → ℕ
u8 n = n % 2 ^ 8

abbrev pub u32 : ℕ → ℕ
u32 n = n % 2 ^ 32

abbrev pub add32 : ℕ → ℕ → ℕ
add32 a b = u32 (a + b)

-- `-` on ℕ stops at 0, so the modulus is added first.
abbrev pub sub32 : ℕ → ℕ → ℕ
sub32 a b = u32 (a + 2 ^ 32 - b)

-- `MSEC_PER_SEC`, `USEC_PER_MSEC`, `NSEC_PER_USEC`, `NSEC_PER_SEC`
abbrev pub msec_per_sec : ℕ
msec_per_sec = 1000

abbrev pub usec_per_msec : ℕ
usec_per_msec = 1000

abbrev pub nsec_per_usec : ℕ
nsec_per_usec = 1000

abbrev pub nsec_per_sec : ℕ
nsec_per_sec = msec_per_sec * usec_per_msec * nsec_per_usec
