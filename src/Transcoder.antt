-- ===== src/Transcoder.antt =====
-- src/transcoder/transcoder.c: the task that takes raw frames from the camera's ring, converts them
-- and puts them into the image buffer. `none` is undefined behaviour in the conversion.
pub mod Move
pub mod Exit
mod Tests
use beaglebone_black_motion.Base.{Bool, Option, none, some, List, [], ◌∷◌, if◌then◌else◌}
use beaglebone_black_motion.Config.{Frame, pixel_format_camera, rgb888}
use beaglebone_black_motion.RingBuffer.{Ring}
use beaglebone_black_motion.Framebuffer.{
  is_success, framebuffer_getframe_ptr, framebuffer_freeframe,
}
use beaglebone_black_motion.Image.Buffer.{ImageBuffer, imagebuffer_init, imagebuffer_write}
use beaglebone_black_motion.Image.Convert.{image_convert}

-- What the task works on: the ring of raw frames, the image buffer and its flag `exit_task`.
pub record Transcoder : Type 0 where
  pub raw : Ring Frame
  pub images : ImageBuffer
  pub exit_task : Bool

-- `transcoder_init`, without the descriptor of the camera, which is not a part of the model.
unfoldable pub transcoder_init : Transcoder → Transcoder
transcoder_init t = record t { images = (imagebuffer_init t.images).1 }

-- `process_frames`; the first argument is what the local variable `rgbFrame` holds before it is set.
pub process_frames : Frame → Transcoder → Option Transcoder
process_frames rgb_frame t =
    let (found, raw_frame) = framebuffer_getframe_ptr t.raw in
    if is_success found
    then elim raw_frame [
      | none ↦ none
      | some src ↦ elim (image_convert pixel_format_camera rgb888 src rgb_frame) [
        | none ↦ none
        | some (r, dest) ↦ some (record t {
          raw = (framebuffer_freeframe t.raw).1;
          images = (imagebuffer_write dest t.images).1;
        })
      ]
    ]
    else some t

-- The `for (uint8_t i = 0; i < 2; i++)` of the loop of `transcoder_task`; the local variable is a
-- new one in each call.
unfoldable pub turn : Frame → Frame → Transcoder → Option Transcoder
turn rgb_frame rgb_frame' t = elim (process_frames rgb_frame t) [
  | none ↦ none
  | some t' ↦ process_frames rgb_frame' t'
]

-- `transcoder_exit`
pub transcoder_exit : Transcoder → Transcoder
transcoder_exit t = record t { exit_task = Bool.true }

-- What the task meets in one round of its loop: what its local frames hold, and whether
-- `transcoder_exit` runs before the flag is tested again.
pub record Round : Type 0 where
  pub rgb_frame : Frame
  pub rgb_frame' : Frame
  pub exits : Bool

-- The loop of `transcoder_task` over the rounds that it meets, and whether it has ended.
pub transcoder_task : List Round → Transcoder → Option (Transcoder × Bool)
transcoder_task [] t = some (t, t.exit_task)
transcoder_task (r ∷ rs) t =
    if t.exit_task then some (t, Bool.true) else elim (turn r.rgb_frame r.rgb_frame' t) [
      | none ↦ none
      | some t' ↦ transcoder_task rs (if r.exits then transcoder_exit t' else t')
    ]
