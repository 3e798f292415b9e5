-- ===== src/Camera/Init.antt =====
-- src/camera/camera.c: `camera_init`, which opens the camera and sets it up.
use beaglebone_black_motion.Base.{
  ℕ, Bool, true, not, ◌||◌, ◌&&◌, Option, none, some, List, [], ◌∷◌, ◌==◌, ◌≡◌, ◌↔◌, if◌then◌else◌,
  arith,
}
use beaglebone_black_motion.Base.Int.{ℤ, pos, ltb_ℤ}
use beaglebone_black_motion.Config.{
  PixelFormat, same_format, pixel_format_camera, pixel_width, pixel_height,
}

-- `struct v4l2_pix_format`: the entries that are looked at again.
pub record PixFormat : Type 0 where
  pub pixelformat : PixelFormat
  pub width : ℕ
  pub height : ℕ

-- The controls that are set, and the values that they are set to.
pub data Control : Type 0 where
  exposure_absolute focus_auto focus_absolute : Control

pub data Value : Type 0 where
  exposure_manual : Value
  number : ℕ → Value

-- A call to the driver, or of `osal_queue_create` with its size.
pub data InitCall : Type 0 where
  querycap g_parm : InitCall
  s_fmt : PixFormat → InitCall
  s_parm : (numerator denominator : ℕ) → InitCall
  s_ctrl : Control → Value → InitCall
  queue_create : ℕ → InitCall

-- What `open` returns, whether the capabilities have `V4L2_CAP_STREAMING`, and what the driver makes
-- of the format: `none` where that call of `ioctl` fails and leaves it as it is.
pub record Device : Type 0 where
  pub fd : ℤ
  pub streaming : Bool
  pub format : Option PixFormat

-- The format that is asked for.
abbrev pub wanted : PixFormat
wanted = record { pixelformat = pixel_format_camera; width = pixel_width; height = pixel_height }

-- `fmt.fmt.pix` once `VIDIOC_S_FMT` returned.
abbrev pub set_format : Option PixFormat → PixFormat
set_format none = wanted
set_format (some f) = f

-- The calls after the checks.
abbrev pub settings : List InitCall
settings =
    s_parm 1 30
    ∷ g_parm
    ∷ s_ctrl exposure_absolute exposure_manual
    ∷ s_ctrl focus_auto (number 0)
    ∷ s_ctrl focus_absolute (number 0)
    ∷ queue_create 10
    ∷ []

-- `camera_init`: the descriptor that it hands on and the calls that it makes; `none` where it ends
-- the process. The results of `camera_ioctl` and of `osal_queue_create` are not looked at.
pub camera_init : Device → Option ℤ × List InitCall
camera_init d =
    if ltb_ℤ d.fd (pos 0)
    then (none, [])
    else if not d.streaming
    then (none, querycap ∷ [])
    else let fmt = set_format d.format in
      if not (same_format fmt.pixelformat pixel_format_camera)
      then (none, querycap ∷ s_fmt wanted ∷ [])
      else if not (fmt.width == pixel_width) || not (fmt.height == pixel_height)
      then (none, querycap ∷ s_fmt wanted ∷ [])
      else (some d.fd, querycap ∷ s_fmt wanted ∷ settings)

-- The driver takes the format as it is, or its call fails.
abbrev pub accepts : Option PixFormat → Bool
accepts none = true
accepts (some f) =
    same_format f.pixelformat pixel_format_camera
    && (f.width == pixel_width)
    && (f.height == pixel_height)

-- `camera_init` hands on the descriptor exactly if it could be opened, the device streams, and the
-- driver kept format and size or refused to set them; it has made all of its settings then, and else
-- ends the process with none of them made.
pub camera_init_returns :
    (d : Device)
    → let ok = not (ltb_ℤ d.fd (pos 0)) && d.streaming && accepts d.format in
      ((camera_init d).0 ≡ (if ok then some d.fd else none))
      × (((camera_init d).1 ≡ querycap ∷ s_fmt wanted ∷ settings) ↔ (ok ≡ true))
unfolding camera_init
camera_init_returns d = ground arith
