-- ===== src/Framebuffer.antt =====
-- middleware/frameBuffer/framebuffer.c: the V4L2 buffers of the camera and the ring of raw frames.
-- The answers of the driver (`ioctl`, `select`, `mmap`) are arguments; the calls made to it are listed
-- in order. `none` stands for undefined behaviour, where a function can reach it.
pub mod Setup
pub mod Teardown
pub mod Ioctl
pub mod Save
pub mod Write
pub mod Read
pub mod Tests
use beaglebone_black_motion.Base.{
  ℕ, Bool, true, false, Option, none, some, List, [], ◌∷◌, ◌++◌, ◌==◌, if◌then◌else◌, ◌||◌,
  get_elem?, memcpy,
}
use beaglebone_black_motion.Base.Int.{ℤ, pos, negsuc}
use beaglebone_black_motion.Types.{SysResult, sys_success, sys_failure, sys_ignore, sys_count}
use beaglebone_black_motion.Config.{Frame}
use beaglebone_black_motion.RingBuffer
use beaglebone_black_motion.RingBuffer.{Ring}

-- `NUM_FRAME_BUFS`
abbrev pub num_frame_bufs : ℕ
num_frame_bufs = 32

-- The size that `framebuffer_init` gives to the ring.
abbrev pub incoming_ring_size : ℕ
incoming_ring_size = 128

-- The two error numbers of the operating system that the file names.
pub record Errno : Type 0 where
  pub eagain : ℕ
  pub epipe : ℕ

-- `framebuffer_ioctl`, from what `ioctl` returns.
abbrev pub is_number : ℤ → ℕ → Bool
is_number (pos n) k = n == k
is_number (negsuc n) k = false

unfoldable pub framebuffer_ioctl : Errno → ℤ → SysResult
framebuffer_ioctl errno ret =
    if is_number ret errno.eagain || is_number ret errno.epipe
    then sys_ignore
    else if is_number ret 0
    then sys_success
    else sys_failure

-- A call of the driver.
pub data DriverCall : Type 0 where
  reqbufs : ℕ → DriverCall
  querybuf : ℕ → DriverCall
  qbuf : ℕ → DriverCall
  dqbuf : DriverCall
  selects : DriverCall

abbrev pub is_success : SysResult → Bool
is_success sys_success = true
is_success _ = false

-- `framebuffer_queueframe`, on the buffer of that index.
pub framebuffer_queueframe : Errno → (index : ℕ) → (ret : ℤ) → SysResult × List DriverCall
framebuffer_queueframe errno index ret =
    if is_success (framebuffer_ioctl errno ret)
    then (sys_success, qbuf index ∷ [])
    else (sys_failure, qbuf index ∷ [])

-- `framebuffer_dequeueframe`
pub framebuffer_dequeueframe : Errno → (ret : ℤ) → SysResult × List DriverCall
framebuffer_dequeueframe errno ret = (framebuffer_ioctl errno ret, dqbuf ∷ [])

-- What the driver answers to one call of `framebuffer_writeframe`: the results of `select`, of the
-- two `ioctl`s, and the buffer that it hands over, with the bytes that are mapped there.
pub record Answers : Type 0 where
  pub selected : ℤ
  pub dequeued : ℤ
  pub index : ℕ
  pub bytesused : ℕ
  pub mapped : List ℕ
  pub queued : ℤ

-- `-1 == r`
abbrev pub is_minus_one : ℤ → Bool
is_minus_one (negsuc n) = n == 0
is_minus_one (pos n) = false

-- The `if (writeCondition)` block: the frame is copied into the cell at the write pointer and
-- published, or dropped if the ring is full.
pub save_frame : Answers → Ring Frame → Option (Ring Frame)
save_frame a ring =
    if RingBuffer.is_full ring then some ring else elim (get_elem? ring.cells ring.write_ptr) [
      | none ↦ none
      | some cell ↦ elim (memcpy cell a.mapped a.bytesused) [
        | none ↦ none
        | some frame ↦ some (RingBuffer.inc_writeptr (RingBuffer.store ring frame))
      ]
    ]

-- The end of `framebuffer_writeframe`, from the second `ioctl` on.
pub requeue : Errno → Answers → Bool → Ring Frame → SysResult × Ring Frame × List DriverCall
requeue errno a save ring =
    let (r, call) = framebuffer_queueframe errno a.index a.queued in
    let calls = selects ∷ dqbuf ∷ call in
    if is_success r
    then (if save then (sys_success, ring, calls) else (sys_ignore, ring, calls))
    else (sys_failure, ring, calls)

-- `framebuffer_writeframe`
pub framebuffer_writeframe :
    Errno → Answers → Bool → Ring Frame → Option (SysResult × Ring Frame × List DriverCall)
framebuffer_writeframe errno a save ring =
    if is_minus_one a.selected
    then some (sys_ignore, ring, selects ∷ [])
    else if is_success (framebuffer_dequeueframe errno a.dequeued).0
    then elim (if save then save_frame a ring else some ring) [
      | none ↦ none
      | some ring' ↦ some (requeue errno a save ring')
    ]
    else some (sys_failure, ring, selects ∷ dqbuf ∷ [])

-- `framebuffer_getframe`
pub framebuffer_getframe : Ring Frame → SysResult × Option Frame × Ring Frame
framebuffer_getframe ring =
    if RingBuffer.is_empty ring
    then (sys_ignore, none, ring)
    else (let (frame, ring') = RingBuffer.read ring in (sys_success, frame, ring'))

-- `framebuffer_getframe_ptr`; the frame is what the pointer points to.
unfoldable pub framebuffer_getframe_ptr : Ring Frame → SysResult × Option Frame
framebuffer_getframe_ptr ring =
    if RingBuffer.is_empty ring then (sys_ignore, none) else (sys_success, RingBuffer.read_zc ring)

-- `framebuffer_freeframe`
unfoldable pub framebuffer_freeframe : Ring Frame → SysResult × Ring Frame
framebuffer_freeframe ring =
    if RingBuffer.is_empty ring
    then (sys_failure, ring)
    else (sys_success, RingBuffer.inc_readptr ring)
