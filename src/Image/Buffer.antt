-- ===== src/Image/Buffer.antt =====
-- middleware/image/image.c: the ring of RGB frames between the transcoder and the streaming task.
pub mod Refine
use beaglebone_black_motion.Base.{
  ℕ, Bool, true, false, Option, none, some, List, [], ◌∷◌, if◌then◌else◌,
}
use beaglebone_black_motion.Types.{SysResult, sys_success, sys_failure, sys_ignore}
use beaglebone_black_motion.Config.{Frame}
use beaglebone_black_motion.RingBuffer
use beaglebone_black_motion.RingBuffer.{Ring}

-- The static variables `imageBuffer` and `imagebuffer_initialized`. The cells of the ring are the
-- macro's static array; `ringbuffer_init` does not clear it.
pub record ImageBuffer : Type 0 where
  pub ring : Ring Frame
  pub initialized : Bool

-- The size that `imagebuffer_init` gives to the ring.
abbrev pub image_ring_size : ℕ
image_ring_size = 256

-- `imagebuffer_init`
pub imagebuffer_init : ImageBuffer → SysResult × ImageBuffer
imagebuffer_init b =
    if b.initialized
    then (sys_success, b)
    else (sys_success, record b { ring = RingBuffer.init b.ring.cells image_ring_size })

-- `imagebuffer_startread`; the frame is what the pointer that it gives out points to.
unfoldable pub imagebuffer_startread : ImageBuffer → SysResult × Option Frame
imagebuffer_startread b =
    if RingBuffer.is_empty b.ring
    then (sys_ignore, none)
    else (sys_success, RingBuffer.read_zc b.ring)

-- `imagebuffer_endread`
unfoldable pub imagebuffer_endread : ImageBuffer → SysResult × ImageBuffer
imagebuffer_endread b =
    if RingBuffer.is_empty b.ring
    then (sys_ignore, b)
    else (sys_success, record b { ring = RingBuffer.inc_readptr b.ring })

-- `imagebuffer_write`
pub imagebuffer_write : Frame → ImageBuffer → SysResult × ImageBuffer
imagebuffer_write frame b =
    if RingBuffer.is_full b.ring
    then (sys_failure, b)
    else (sys_success, record b { ring = RingBuffer.write b.ring frame })

-- A call of the tasks that share the ring, and what the caller gets back.
pub data Op : Type 0 where
  startread endread : Op
  write : Frame → Op

abbrev pub Reply : Type 0
Reply = SysResult × Option Frame

-- One call.
unfoldable pub call : Op → ImageBuffer → Reply × ImageBuffer
unfolding imagebuffer_startread imagebuffer_endread imagebuffer_write
call startread b = (imagebuffer_startread b, b)
call endread b = let (r, b') = imagebuffer_endread b in ((r, none), b')
call (write frame) b = let (r, b') = imagebuffer_write frame b in ((r, none), b')

-- Calls in order, with what each returns.
pub calls : List Op → ImageBuffer → List Reply × ImageBuffer
unfolding call
calls [] b = ([], b)
calls (op ∷ ops) b = let (r, b') = call op b in let (rs, b'') = calls ops b' in (r ∷ rs, b'')
