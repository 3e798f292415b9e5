-- ===== src/Detection/Exit.antt =====
-- src/detection/detection.c: `detection_exit` runs on the thread of the scheduler, which has a higher
-- priority than the detection task and so can come at any point of a turn of its loop. Both write
-- `detection_state` without a lock.
use beaglebone_black_motion.Base.{
  ◌≡◌, refl, sym, ap, ◌∙◌, Bool, Bool-cases, inl, inr, true, false, not, ◌&&◌, ◌||◌, List, [], ◌∷◌,
  ◌==◌, arith,
}
use beaglebone_black_motion.Events.{Event}
use beaglebone_black_motion.Detection.{
  State, motion_detected, motion_lost, timeout, Substate, leave, Detection, Sample,
  process_next_state, run_timeout, dispatch, iterate, is_exit, detection_task, detection_exit,
}
use beaglebone_black_motion.Detection.Trace.{detection_task-step}

-- Where in a turn `detection_exit` comes: after the test of the loop, between `process_next_state` and
-- the `switch`, once the `switch` has read the state and before its case writes it, or after the case.
pub data Point : Type 0 where
  after_test before_switch in_switch after_case : Point

-- A turn of the loop of `detection_task` in which `detection_exit` comes at that point.
pub turn_with_exit : Point → Sample → Detection → Detection × List Event
unfolding detection_exit process_next_state dispatch
turn_with_exit after_test i d = iterate i (detection_exit d)
turn_with_exit before_switch i d =
    let d' = detection_exit (process_next_state i.status d) in dispatch d'.state i.now d'
turn_with_exit in_switch i d =
    let d' = process_next_state i.status d in dispatch d'.state i.now (detection_exit d')
turn_with_exit after_case i d = let (d', sent) = iterate i d in (detection_exit d', sent)

-- A case of the `switch` that writes the state.
abbrev pub writes_state : State → Substate → Bool
writes_state motion_detected s = true
writes_state motion_lost s = true
writes_state timeout leave = true
writes_state _ s = false

-- Whether the turn writes over the state that `detection_exit` has set.
abbrev pub loses_exit : Point → Sample → Detection → Bool
loses_exit after_test i d = (not (i.status == 0) && not d.flag) || ((i.status == 0) && d.flag)
loses_exit before_switch i d = false
loses_exit in_switch i d =
    let d' = process_next_state i.status d in writes_state d'.state d'.substate
loses_exit after_case i d = false

turn_exits :
    (p : Point) (i : Sample) (d : Detection)
    → is_exit (turn_with_exit p i d).0.state ≡ not (loses_exit p i d)
unfolding turn_with_exit process_next_state dispatch run_timeout detection_exit iterate
turn_exits p i d = ground arith

iterate_stays :
    (i : Sample) (d : Detection) → is_exit d.state ≡ false → is_exit (iterate i d).0.state ≡ false
unfolding iterate
iterate_stays i d h = ground arith

runs_on :
    (is : List Sample) (d : Detection)
    → is_exit d.state ≡ false
    → is_exit (detection_task is d).0.state ≡ false
unfolding detection_task
runs_on [] d h = h
runs_on (i ∷ is) d h =
    ap (λ (x : Detection × List Event). is_exit x.0.state) (detection_task-step i is d h)
    ∙ runs_on is (iterate i d).0 (iterate_stays i d h)

ended : (is : List Sample) (d : Detection) → is_exit d.state ≡ true → detection_task is d ≡ (d, [])
unfolding detection_task
ended [] d h = refl
ended (i ∷ is) d h = rw h

-- Wherever in a turn `detection_exit` comes, and whatever the sensor and the clock say in it and in all
-- turns after it: the task ends with the turn, if that does not write over the state, and otherwise
-- never by itself. The turn writes over it if `detection_exit` comes before `process_next_state`, which
-- changes the state where the sensor and the flag differ, or inside a case that writes the state.
pub detection_exit-Kept :
    (p : Point) (i : Sample) (is : List Sample) (d : Detection)
    → is_exit (detection_task is (turn_with_exit p i d).0).0.state ≡ not (loses_exit p i d)
detection_exit-Kept p i is d = elim (Bool-cases (is_exit (turn_with_exit p i d).0.state)) [
  | inl e ↦
      ap (λ (x : Detection × List Event). is_exit x.0.state) (ended is (turn_with_exit p i d).0 e)
      ∙ turn_exits p i d
  | inr e ↦ runs_on is (turn_with_exit p i d).0 e ∙ sym e ∙ turn_exits p i d
]
