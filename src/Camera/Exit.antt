-- ===== src/Camera/Exit.antt =====
-- src/camera/camera.c: `camera_exit` runs on the thread of the scheduler, which has a higher priority
-- than the camera task and so can come at any point of a turn of its loop. Both write `state` without a
-- lock.
use beaglebone_black_motion.Base.{
  ◌≡◌, refl, ◌∙◌, Bool, true, false, not, List, [], ◌∷◌, if◌then◌else◌, arith,
}
use beaglebone_black_motion.Events.{Event, event_motion_detected, event_motion_lost}
use beaglebone_black_motion.Camera.{State, idle, exit, handle_event, is_exit}
use beaglebone_black_motion.Camera.Capture.{IsTaking}
use beaglebone_black_motion.Camera.Follow.{handle_events}

-- Where `camera_exit` comes: before the `switch (event)`, between the test in one of its cases and the
-- assignment of the state, or after it.
pub data Point : Type 0 where
  before_switch in_case after_switch : Point

-- The case of the event passes its test and assigns the state.
abbrev pub assigns : Event → State → Bool
assigns event_motion_detected idle = true
assigns event_motion_lost exit = false
assigns event_motion_lost s = true
assigns _ s = false

-- What a turn with that event makes of the state. The `switch (state)` after it assigns no other state
-- than `eSTATE_EXIT`.
pub turn_with_exit : Point → Event → State → State
turn_with_exit before_switch e s = handle_event e exit
turn_with_exit in_case e s = if assigns e s then handle_event e s else exit
turn_with_exit after_switch e s = exit

abbrev pub loses_exit : Point → Event → State → Bool
loses_exit in_case e s = assigns e s
loses_exit _ e s = false

exits :
    (p : Point) (e : Event) (s : State)
    → IsTaking s
    → is_exit (turn_with_exit p e s) ≡ not (loses_exit p e s)
unfolding turn_with_exit handle_event
exits p e s h = ground arith

handle_event-is_exit : (e : Event) (s : State) → is_exit (handle_event e s) ≡ is_exit s
unfolding handle_event
handle_event-is_exit e s = ground arith

handle_events-is_exit : (es : List Event) (s : State) → is_exit (handle_events es s) ≡ is_exit s
unfolding handle_events
handle_events-is_exit [] s = refl
handle_events-is_exit (e ∷ es) s =
    handle_events-is_exit es (handle_event e s) ∙ handle_event-is_exit e s

-- Wherever in a turn `camera_exit` comes while the task takes frames, and whatever events are read in
-- the turn and after it: the state stays `eSTATE_EXIT`, so that the task ends, unless `camera_exit` came
-- between the test and the assignment of a case that assigns the state; then no event brings it back.
pub camera_exit-Kept :
    (p : Point) (e : Event) (es : List Event) (s : State)
    → IsTaking s
    → is_exit (handle_events es (turn_with_exit p e s)) ≡ not (loses_exit p e s)
camera_exit-Kept p e es s h = handle_events-is_exit es (turn_with_exit p e s) ∙ exits p e s h
