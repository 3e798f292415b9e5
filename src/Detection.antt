-- ===== src/Detection.antt =====
-- src/detection/detection.c: the motion detection task. One turn of the loop of `detection_task` is
-- `iterate`: its inputs are the answers of the GPIO file and of the clock, and its outputs are the
-- events that it hands to `osal_queue_send` (whose result the code ignores).
pub mod Gpio
pub mod Invariant
pub mod Trace
pub mod Timeout
pub mod Exit
mod Tests
use beaglebone_black_motion.Base.{
  ℕ, ◌+◌, ◌*◌, Bool, true, false, List, [], ◌∷◌, ◌++◌, ◌&&◌, not, leb, ◌==◌, if◌then◌else◌,
}
use beaglebone_black_motion.Events.{Event, event_motion_detected, event_motion_lost}
use beaglebone_black_motion.Types.{nsec_per_sec}

-- `detection_fsm_state_e`
pub data State : Type 0 where
  detecting motion_detected motion_lost timeout exiting exit : State

-- `detection_fsm_substate_e`
pub data Substate : Type 0 where
  entry run leave : Substate

-- `struct timespec`
pub record Timespec : Type 0 where
  pub tv_sec : ℕ
  pub tv_nsec : ℕ

-- The static variables of the file; `motion_detected` is `flag`.
pub record Detection : Type 0 where
  pub flag : Bool
  pub state : State
  pub substate : Substate
  pub timeout_start : Timespec

-- The initial values of the static variables.
abbrev pub initial : Detection
initial = record {
  flag = false;
  state = detecting;
  substate = entry;
  timeout_start = record { tv_sec = 0; tv_nsec = 0 };
}

-- `set_detection_state`; the trace that it prints is left out.
abbrev pub set_detection_state : State → Detection → Detection
set_detection_state s d = record d { state = s }

-- `detection_state == eSTATE_TIMEOUT`
abbrev pub is_timeout : State → Bool
is_timeout timeout = true
is_timeout _ = false

-- `process_next_state`; the argument is `cur_status`, a `uint8_t`.
pub process_next_state : ℕ → Detection → Detection
process_next_state cur_status d =
    if not (cur_status == 0) && not d.flag
    then set_detection_state motion_detected d
    else if (cur_status == 0) && d.flag
    then (if is_timeout d.state
        then record d { flag = false }
        else set_detection_state timeout (record d { flag = false; substate = entry }))
    else d

-- A clock value in nanoseconds.
abbrev pub nanos : Timespec → ℕ
nanos t = t.tv_sec * nsec_per_sec + t.tv_nsec

-- `elapsed >= 5.0`. The code computes `elapsed` in seconds as a `double`; here both sides are
-- counted in whole nanoseconds, the resolution of the clock.
abbrev pub has_elapsed : Timespec → Timespec → Bool
has_elapsed start current = leb (nanos start + 5 * nsec_per_sec) (nanos current)

-- The inner `switch(detection_substate)`; `now` is what `clock_gettime` gives.
pub run_timeout : Substate → Timespec → Detection → Detection
run_timeout entry now d = record d { substate = run; timeout_start = now }
run_timeout run now d = if has_elapsed d.timeout_start now then record d { substate = leave } else d
run_timeout leave now d = set_detection_state motion_lost (record d { flag = false })

-- The `switch(detection_state)` of the loop, with the events sent.
pub dispatch : State → Timespec → Detection → Detection × List Event
unfolding run_timeout
dispatch motion_detected now d =
    (set_detection_state detecting (record d { flag = true }), event_motion_detected ∷ [])
dispatch motion_lost now d =
    (set_detection_state detecting (record d { flag = false }), event_motion_lost ∷ [])
dispatch timeout now d = (run_timeout d.substate now d, [])
dispatch _ now d = (d, [])

-- What the environment answers in one turn: `read_gpio_value` as a `uint8_t`, and the clock.
pub record Sample : Type 0 where
  pub status : ℕ
  pub now : Timespec

-- The body of the loop of `detection_task`, up to `osal_task_delay`.
unfoldable pub iterate : Sample → Detection → Detection × List Event
unfolding process_next_state dispatch
iterate i d = let d' = process_next_state i.status d in dispatch d'.state i.now d'

-- `detection_state != eSTATE_EXIT`
abbrev pub is_exit : State → Bool
is_exit exit = true
is_exit _ = false

-- `detection_task` over the samples that it meets, while nothing else sets the state: the loop ends
-- at `eSTATE_EXIT`.
unfoldable pub detection_task : List Sample → Detection → Detection × List Event
unfolding iterate
detection_task [] d = (d, [])
detection_task (i ∷ is) d =
    if is_exit d.state
    then (d, [])
    else (let (d', sent) = iterate i d in
        let (d'', later) = detection_task is d' in (d'', sent ++ later))

-- `detection_exit`, called by the shutdown sequence. What it does to the GPIO is in `Gpio`.
pub detection_exit : Detection → Detection
detection_exit d = set_detection_state exit d
