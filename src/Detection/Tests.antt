-- ===== src/Detection/Tests.antt =====
-- Runs of the detection task, and the witnesses of its properties.
use beaglebone_black_motion.Detection.{iterate}
use beaglebone_black_motion.Detection.Invariant.{report, iterate_sends}
use beaglebone_black_motion.Base.{ℕ, ◌≡◌, refl, false, true, List, [], ◌∷◌, ◌++◌, arith}
use beaglebone_black_motion.Events.{event_motion_detected, event_motion_lost}
use beaglebone_black_motion.Detection.{Detection, detecting, Sample, initial, detection_task}
use beaglebone_black_motion.Detection.{is_exit}
use beaglebone_black_motion.Detection.Exit.{after_test, turn_with_exit, detection_exit-Kept}
use beaglebone_black_motion.Detection.Timeout.{running, rested, timeout_elapses, timeout_cancelled}

-- A sample with that status, that many seconds after the clock's origin.
abbrev at : ℕ → ℕ → Sample
at status sec = record { status = status; now = record { tv_sec = sec; tv_nsec = 0 } }

-- Motion at second 1, none from second 2 on.
abbrev trace : List Sample
trace = at 1 1 ∷ at 0 2 ∷ at 0 4 ∷ at 0 7 ∷ at 0 8 ∷ at 0 9 ∷ []

-- The task at rest with the flag up.
abbrev moved : Detection
moved = record initial { flag = true }

trace_sends : (detection_task trace initial).1 ≡ event_motion_detected ∷ event_motion_lost ∷ []
unfolding detection_task
trace_sends = refl

trace_ends : (detection_task trace initial).0.state ≡ detecting
unfolding detection_task
trace_ends = refl

timeout_elapses_example :
    detection_task (at 0 2 ∷ (at 0 4 ∷ []) ++ (at 0 7 ∷ at 0 8 ∷ at 0 9 ∷ at 1 10 ∷ [])) moved ≡ (
      let (d', later) = detection_task (at 1 10 ∷ []) (rested (at 0 2).now moved) in
      (d', event_motion_lost ∷ later))
timeout_elapses_example =
    timeout_elapses (at 0 2) (at 0 4 ∷ []) moved refl refl refl ((refl, omega arith), tt) (at 0 7)
      (at 0 8) (at 0 9) (at 1 10 ∷ []) refl (omega arith) refl refl

timeout_cancelled_example :
    detection_task (at 0 2 ∷ (at 0 4 ∷ []) ++ (at 1 5 ∷ at 0 6 ∷ [])) moved ≡ (
      let (d', later) =
        detection_task
          (at 0 6 ∷ [])
          (record (running (at 0 2).now moved) { flag = true; state = detecting }) in
      (d', event_motion_detected ∷ later))
timeout_cancelled_example =
    timeout_cancelled (at 0 2) (at 0 4 ∷ []) moved refl refl refl ((refl, omega arith), tt) (at 1 5)
      (at 0 6 ∷ []) (omega arith)

-- `detection_exit` comes while the task waits for the sensor to be read, which shows motion.
detection_exit-Kept_example :
    is_exit (detection_task trace (turn_with_exit after_test (at 1 1) initial).0).0.state ≡ false
detection_exit-Kept_example = detection_exit-Kept after_test (at 1 1) trace initial

abbrev high : Sample
high = record { status = 1; now = record { tv_sec = 1; tv_nsec = 0 } }

iterate_sends_example : (iterate high initial).1 ≡ report high initial
iterate_sends_example = iterate_sends high initial tt
