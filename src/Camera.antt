-- ===== src/Camera.antt =====
-- src/camera/camera.c: the camera task. One turn of the loop of `camera_task` is `turn`: the answers of
-- the event queue and of the driver are arguments. `none` is undefined behaviour in
-- `framebuffer_writeframe`.
pub mod Machine
pub mod Capture
pub mod Follow
pub mod Exit
pub mod Init
pub mod Tests
use beaglebone_black_motion.Base.{
  ℕ, ◌+◌, ◌%◌, ◌^◌, Bool, true, false, Option, none, some, List, [], ◌∷◌, ◌++◌, if◌then◌else◌,
}
use beaglebone_black_motion.Base.Int.{ℤ}
use beaglebone_black_motion.Types.{SysResult, sys_success, sys_failure, sys_ignore, sys_count, u32}
use beaglebone_black_motion.Config.{Frame}
use beaglebone_black_motion.Events.{Event, event_none, event_motion_detected, event_motion_lost}
use beaglebone_black_motion.RingBuffer.{Ring}
use beaglebone_black_motion.Framebuffer.{
  Errno, Answers, DriverCall, is_minus_one, is_success, framebuffer_writeframe,
}

-- `camera_state_e`
pub data Power : Type 0 where
  camera_on camera_off camera_count : Power

-- `camera_fsm_e`
pub data State : Type 0 where
  idle capturing exiting exit state_count : State

-- A call that switches the stream.
pub data StreamCall : Type 0 where
  streamon streamoff : StreamCall

-- The static variables `state` and `num_writes`, and the ring that the framebuffer functions fill.
pub record Camera : Type 0 where
  pub state : State
  pub num_writes : ℕ
  pub ring : Ring Frame

-- `camera_ioctl`
pub camera_ioctl : ℤ → SysResult
camera_ioctl ret = if is_minus_one ret then sys_failure else sys_success

-- `camera_capturestate`
pub camera_capturestate : Power → ℤ → SysResult × List StreamCall
unfolding camera_ioctl
camera_capturestate camera_on ret = (camera_ioctl ret, streamon ∷ [])
camera_capturestate camera_off ret = (camera_ioctl ret, streamoff ∷ [])
camera_capturestate camera_count ret = (sys_failure, [])

-- `process_event_queue`, from the result of `osal_queue_receive` and the event that it stored.
unfoldable pub process_event_queue : SysResult → Event → Event
process_event_queue received event = if is_success received then event else event_none

-- `set_camera_state`; the trace that it prints is left out.
abbrev pub set_camera_state : State → Camera → Camera
set_camera_state s c = record c { state = s }

-- The `switch (event)`, on the state alone.
unfoldable pub handle_event : Event → State → State
handle_event event_motion_detected idle = capturing
handle_event event_motion_detected s = s
handle_event event_motion_lost exit = exit
handle_event event_motion_lost s = idle
handle_event event_none s = s

-- What one turn leaves: the camera and the calls to the driver.
abbrev pub Turn : Type 0
Turn = Camera × List DriverCall × List StreamCall

-- A turn that called `framebuffer_writeframe`: `count` says whether a success is counted.
abbrev pub wrote : Bool → Camera → Option (SysResult × Ring Frame × List DriverCall) → Option Turn
wrote count c none = none
wrote count c (some (r, ring, calls)) = some (
  record c {
    ring = ring;
    num_writes =
        if count
        then (if is_success r then u32 (c.num_writes + 1) else c.num_writes)
        else c.num_writes;
  },
  calls,
  [],
)

-- The `switch (state)`; `off` is what `ioctl` returns when the stream is switched off.
pub act : Errno → Answers → (off : ℤ) → State → Camera → Option Turn
act errno a off idle c = wrote false c (framebuffer_writeframe errno a false c.ring)
act errno a off capturing c = wrote true c (framebuffer_writeframe errno a true c.ring)
act errno a off exiting c =
    some (set_camera_state exit c, [], (camera_capturestate camera_off off).1)
act errno a off _ c = some (c, [], [])

-- What the environment answers in one turn.
pub record Inputs : Type 0 where
  pub received : SysResult
  pub event : Event
  pub answers : Answers
  pub off : ℤ

-- The body of the loop of `camera_task`, up to `osal_task_delay`.
unfoldable pub turn : Errno → Inputs → Camera → Option Turn
turn errno i c =
    let c' = set_camera_state (handle_event (process_event_queue i.received i.event) c.state) c in
    act errno i.answers i.off c'.state c'

abbrev pub is_exit : State → Bool
is_exit exit = true
is_exit _ = false

-- What a run leaves, with the calls made before it in front.
abbrev pub after : List DriverCall → List StreamCall → Option Turn → Option Turn
after calls streams none = none
after calls streams (some (c, calls', streams')) = some (c, calls ++ calls', streams ++ streams')

-- The loop of `camera_task` over the answers that it meets, while nothing else sets the state.
pub task_loop : Errno → List Inputs → Camera → Option Turn
task_loop errno [] c = some (c, [], [])
task_loop errno (i ∷ is) c = if is_exit c.state then some (c, [], []) else elim (turn errno i c) [
  | none ↦ none
  | some (c', calls, streams) ↦ after calls streams (task_loop errno is c')
]

-- `camera_task`: the stream is switched on, then the loop runs.
pub camera_task : Errno → (on : ℤ) → List Inputs → Camera → Option Turn
camera_task errno on is c = after [] (camera_capturestate camera_on on).1 (task_loop errno is c)

-- `camera_exit`
unfoldable pub camera_exit : Camera → Camera
camera_exit c = set_camera_state exit c
