-- ===== src/Detection/Invariant.antt =====
-- What holds of the detection task between two turns of its loop, and what one turn sends.
use beaglebone_black_motion.Base.{
  ◌≡◌, Bool, true, false, List, [], ◌∷◌, ◌&&◌, not, ◌==◌, if◌then◌else◌, arith,
}
use beaglebone_black_motion.Events.{Event, event_motion_detected, event_motion_lost}
use beaglebone_black_motion.Detection.{
  State, detecting, motion_lost, timeout, exit, Detection, Sample, iterate,
}

-- The states in which a turn can end, with the flag that goes with them: `eSTATE_MOTION_DETECTED` is
-- left within the turn that enters it, and `eSTATE_EXITING` is never entered.
abbrev pub Settled : State → Bool → Type 0
Settled detecting flag = Unit
Settled timeout flag = flag ≡ false
Settled motion_lost flag = flag ≡ false
Settled exit flag = Unit
Settled _ _ = ⊥

abbrev pub IsSettled : Detection → Type 0
IsSettled d = Settled d.state d.flag

-- Every turn, whatever the sensor and the clock say, ends in a settled state if it began in one.
pub iterate-IsSettled : (i : Sample) (d : Detection) → IsSettled d → IsSettled (iterate i d).0
unfolding iterate
iterate-IsSettled i d h = ground arith

-- `detection_state == eSTATE_MOTION_LOST`
abbrev is_motion_lost : State → Bool
is_motion_lost motion_lost = true
is_motion_lost _ = false

-- What a turn has to send: a high sensor while the flag is down reports motion; a low sensor in the
-- state `eSTATE_MOTION_LOST` reports its end; nothing else is reported.
abbrev pub report : Sample → Detection → List Event
report i d =
    if not (i.status == 0) && not d.flag
    then event_motion_detected ∷ []
    else if is_motion_lost d.state
    then event_motion_lost ∷ []
    else []

-- In every settled state a turn sends what `report` says, and nothing more.
pub iterate_sends : (i : Sample) (d : Detection) → IsSettled d → (iterate i d).1 ≡ report i d
unfolding iterate
iterate_sends i d h = ground arith
