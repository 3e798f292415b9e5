-- ===== src/Camera/Tests.antt =====
-- Runs of the camera task, and the witnesses of its properties.
use beaglebone_black_motion.Base.{◌≡◌, false, [], arith}
use beaglebone_black_motion.Base.Int.{pos}
use beaglebone_black_motion.Types.{sys_success}
use beaglebone_black_motion.Events.{event_motion_detected}
use beaglebone_black_motion.Camera.{idle, Camera, Inputs, turn}
use beaglebone_black_motion.Camera.{is_exit}
use beaglebone_black_motion.Camera.Exit.{in_case, turn_with_exit, camera_exit-Kept}
use beaglebone_black_motion.Camera.Capture.{IsTaking, Taken, next_state, turn-Taken}
use beaglebone_black_motion.Camera.Follow.{handle_events}
use beaglebone_black_motion.Framebuffer.Tests.{linux, fresh, fresh-IsReady, two_bytes}

-- The camera task at rest.
abbrev pub resting : Camera
resting = record { state = idle; num_writes = 0; ring = fresh }

-- Motion is reported, and the driver delivers two bytes.
abbrev pub motion : Inputs
motion = record {
  received = sys_success;
  event = event_motion_detected;
  answers = two_bytes;
  off = pos 0;
}

turn-Taken_example :
    let s = next_state motion idle in
    IsTaking s × Taken linux two_bytes s (record resting { state = s }) (turn linux motion resting)
turn-Taken_example = turn-Taken linux motion resting tt fresh-IsReady (omega arith) (omega arith)

camera_exit-Kept_example :
    is_exit (handle_events [] (turn_with_exit in_case event_motion_detected idle)) ≡ false
camera_exit-Kept_example = camera_exit-Kept in_case event_motion_detected [] idle tt
