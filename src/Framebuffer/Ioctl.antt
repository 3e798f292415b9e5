-- ===== src/Framebuffer/Ioctl.antt =====
-- `framebuffer_ioctl`: what it makes of the results of `ioctl`.
use beaglebone_black_motion.Base.{◌<◌, ◌≡◌, ◌≢◌, ◌⊎◌, arith}
use beaglebone_black_motion.Base.Int.{ℤ, pos, negsuc}
use beaglebone_black_motion.Types.{sys_ignore}
use beaglebone_black_motion.Framebuffer.{Errno, framebuffer_ioctl}

-- `ioctl` returns 0 or -1, as POSIX documents it.
abbrev pub IsIoctl : ℤ → Type 0
IsIoctl r = (r ≡ pos 0) ⊎ (r ≡ negsuc 0)

-- Error numbers are positive.
abbrev pub IsErrno : Errno → Type 0
IsErrno e = (0 < e.eagain) × (0 < e.epipe)

-- As `ioctl` reports an error by -1 and not by its number, `framebuffer_ioctl` never returns
-- `SYS_IGNORE`: an empty queue of the driver (`EAGAIN`) is a failure like any other.
pub framebuffer_ioctl_no_ignore :
    (errno : Errno) (ret : ℤ)
    → IsErrno errno
    → IsIoctl ret
    → framebuffer_ioctl errno ret ≢ sys_ignore
unfolding framebuffer_ioctl
framebuffer_ioctl_no_ignore errno ret h k = ground arith
