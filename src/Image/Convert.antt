-- ===== src/Image/Convert.antt =====
-- middleware/image/image.c: `image_convert` and `rgb888_convert`. `none` is an access outside of the
-- source or of the destination.
pub mod Bounds
use beaglebone_black_motion.Base.{
  ℕ, zero, suc, ◌+◌, ◌*◌, ◌/◌, Bool, true, false, Option, none, some, List, [], ◌∷◌, get_elem?,
  memcpy, put_at, if◌then◌else◌,
}
use beaglebone_black_motion.Types.{SysResult, sys_success, sys_failure, sys_ignore}
use beaglebone_black_motion.Config.{
  PixelFormat, yuyv, mjpeg, rgb888, other, same_format, Frame, frame_size,
}
use beaglebone_black_motion.Image.Yuv.{yuv2rgb, ◌>>=◌}

-- `dest_frame[j]`, `dest_frame[j + 1]`, `dest_frame[j + 2]` through the three pointers
pub put_pixel : Frame → ℕ → ℕ × ℕ × ℕ → Option Frame
unfolding put_at
put_pixel dest j (r, g, b) = do
  dest' ← put_at dest j r
  dest'' ← put_at dest' (j + 1) g
  put_at dest'' (j + 2) b

-- One round of the loop: two pixels from four bytes.
pub yuyv_round : Frame → Frame → ℕ → ℕ → Option Frame
unfolding put_pixel yuv2rgb
yuyv_round src dest i j = do
  y ← get_elem? src i
  u ← get_elem? src (i + 1)
  y2 ← get_elem? src (i + 2)
  v ← get_elem? src (i + 3)
  p ← yuv2rgb y u v
  dest' ← put_pixel dest j p
  p2 ← yuv2rgb y2 u v
  put_pixel dest' (j + 3) p2

-- `for (i = 0, j = 0; i < FRAME_SIZE; i = i + 4, j = j + 6)`, by the rounds that are left.
pub yuyv_loop : ℕ → Frame → ℕ → ℕ → Frame → Option Frame
unfolding yuyv_round
yuyv_loop zero src i j dest = some dest
yuyv_loop (suc n) src i j dest = do
  dest' ← yuyv_round src dest i j
  yuyv_loop n src (i + 4) (j + 6) dest'

-- The rounds of the loop: `FRAME_SIZE` is a multiple of 4.
abbrev pub yuyv_rounds : ℕ
yuyv_rounds = frame_size / 4

-- A call that succeeded, with the destination that it leaves.
abbrev pub succeed : Option Frame → Option (SysResult × Frame)
succeed none = none
succeed (some dest) = some (sys_success, dest)

-- `rgb888_convert`
pub rgb888_convert : PixelFormat → Frame → Frame → Option (SysResult × Frame)
rgb888_convert yuyv src dest = succeed (yuyv_loop yuyv_rounds src 0 0 dest)
rgb888_convert mjpeg src dest = succeed (memcpy dest src frame_size)
rgb888_convert rgb888 src dest = succeed (memcpy dest src frame_size)
rgb888_convert other src dest = some (sys_failure, dest)

-- The `switch (destFmt)`
pub convert_to : PixelFormat → PixelFormat → Frame → Frame → Option (SysResult × Frame)
unfolding rgb888_convert
convert_to src_fmt rgb888 src dest = rgb888_convert src_fmt src dest
convert_to src_fmt _ src dest = some (sys_failure, dest)

-- `image_convert`
pub image_convert : PixelFormat → PixelFormat → Frame → Frame → Option (SysResult × Frame)
unfolding convert_to
image_convert src_fmt dest_fmt src dest =
    if same_format src_fmt dest_fmt
    then some (sys_ignore, dest)
    else convert_to src_fmt dest_fmt src dest
