-- ===== src/Config.antt =====
-- src/camera/camera_cfg.h: the configuration that the build selects, `CAMERA_USE_MJPEG`.
use beaglebone_black_motion.Base.{ℕ, ◌*◌, Bool, true, false, List, ◌≡◌, length}

-- The pixel formats that the code names. The header of V4L2 gives each its own number.
pub data PixelFormat : Type 0 where
  yuyv mjpeg rgb888 other : PixelFormat

-- `==` on formats
abbrev pub same_format : PixelFormat → PixelFormat → Bool
same_format yuyv yuyv = true
same_format mjpeg mjpeg = true
same_format rgb888 rgb888 = true
same_format other other = true
same_format _ _ = false

-- `PIXEL_FORMAT_CAMERA`
abbrev pub pixel_format_camera : PixelFormat
pixel_format_camera = mjpeg

-- `PIXEL_WIDTH`
abbrev pub pixel_width : ℕ
pixel_width = 320

-- `PIXEL_HEIGHT`
abbrev pub pixel_height : ℕ
pixel_height = 240

-- `FRAME_SIZE`, and `RGB_FRAME_SIZE_BYTES`, which is the same
abbrev pub frame_size : ℕ
frame_size = pixel_width * pixel_height

abbrev pub rgb_frame_size_bytes : ℕ
rgb_frame_size_bytes = frame_size

-- The bytes of a `frame_t` or of an `rgb_frame_t`.
abbrev pub Frame : Type 0
Frame = List ℕ

-- A frame has the size of the array in its structure.
abbrev pub IsFrame : Frame → Type 0
IsFrame f = length f ≡ frame_size
