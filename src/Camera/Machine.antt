-- ===== src/Camera/Machine.antt =====
-- The state machine of the camera task: which states it reaches, and when it switches the stream.
use beaglebone_black_motion.Base.{
  ◌≡◌, inl, inr, refl, ap, ◌∙◌, Option, none, some, List, [], ◌∷◌, ◌++◌, arith, Bool-cases,
  Option-cases,
}
use beaglebone_black_motion.Base.Int.{ℤ}
use beaglebone_black_motion.Events.{Event, event_none, event_motion_detected, event_motion_lost}
use beaglebone_black_motion.Framebuffer.{Errno, Answers, DriverCall}
use beaglebone_black_motion.Camera.{
  State, idle, capturing, exiting, exit, state_count, StreamCall, streamon, Camera,
  process_event_queue, handle_event, Turn, act, Inputs, turn, after, task_loop, camera_task,
  camera_capturestate, is_exit,
}

-- The states that the task is in: `eSTATE_EXITING` is not one of them.
abbrev pub IsLive : State → Type 0
IsLive exiting = ⊥
IsLive _ = Unit

handle_event-IsLive : (e : Event) (s : State) → IsLive s → IsLive (handle_event e s)
unfolding handle_event
handle_event-IsLive event_none s h = h
handle_event-IsLive event_motion_detected idle h = tt
handle_event-IsLive event_motion_detected capturing h = tt
handle_event-IsLive event_motion_detected exiting h = h
handle_event-IsLive event_motion_detected exit h = tt
handle_event-IsLive event_motion_detected state_count h = tt
handle_event-IsLive event_motion_lost idle h = tt
handle_event-IsLive event_motion_lost capturing h = tt
handle_event-IsLive event_motion_lost exiting h = tt
handle_event-IsLive event_motion_lost exit h = tt
handle_event-IsLive event_motion_lost state_count h = tt

-- A turn of a camera that is not in `eSTATE_EXITING` switches nothing off and keeps the state that
-- the event left.
act_quiet :
    (errno : Errno) (a : Answers) (off : ℤ) (s : State) (c : Camera) {c' : Camera}
    {calls : List DriverCall} {streams : List StreamCall}
    → IsLive s
    → act errno a off s c ≡ some (c', calls, streams)
    → (streams ≡ []) × (c'.state ≡ c.state)
unfolding act
act_quiet errno a off idle c h e = ground arith
act_quiet errno a off capturing c h e = ground arith
act_quiet errno a off exiting c h e = absurd h
act_quiet errno a off exit c h e = ground arith
act_quiet errno a off state_count c h e = ground arith

turn_quiet :
    (errno : Errno) (i : Inputs) (c : Camera) {c' : Camera} {calls : List DriverCall}
    {streams : List StreamCall}
    → IsLive c.state
    → turn errno i c ≡ some (c', calls, streams)
    → (streams ≡ []) × (c'.state ≡ handle_event (process_event_queue i.received i.event) c.state)
unfolding turn
turn_quiet errno i c h e =
    act_quiet errno i.answers i.off _ _
      (handle_event-IsLive (process_event_queue i.received i.event) c.state h) e

-- A run that is defined has switched nothing off and did not end in `eSTATE_EXITING`.
abbrev Quiet : Option Turn → Type 0
Quiet none = Unit
Quiet (some (c, calls, streams)) = (streams ≡ []) × IsLive c.state

IsLive-of_eq : (s t : State) → IsLive t → s ≡ t → IsLive s
IsLive-of_eq s t h e = rw e h

Quiet-after :
    (calls : List DriverCall) (streams : List StreamCall) (o : Option Turn)
    → streams ≡ []
    → Quiet o
    → Quiet (after calls streams o)
Quiet-after calls streams none e q = tt
Quiet-after calls streams (some (c, calls', streams')) e q = (ap (λ s. s ++ streams') e ∙ q.0, q.1)

task-Quiet :
    (errno : Errno) (is : List Inputs) (c : Camera) → IsLive c.state → Quiet (task_loop errno is c)
unfolding task_loop
task-Quiet errno [] c h = (refl, h)
task-Quiet errno (i ∷ is) c h = elim (Bool-cases (is_exit c.state)) [
  | inl e ↦ rw e (refl, h)
  | inr e ↦ elim (Option-cases (turn errno i c)) [
    | inl n ↦ rw (e, n, task_loop) tt
    | inr ((c1, k1, s1), f) ↦
        let (quiet, state) = turn_quiet errno i c h f in
        rw (e, f, task_loop)
          (Quiet-after k1 s1 (task_loop errno is c1) quiet (
            task-Quiet errno is c1 (
              IsLive-of_eq c1.state _
                (handle_event-IsLive (process_event_queue i.received i.event) c.state h) state)))
  ]
]

-- The stream calls of a run that is defined.
abbrev pub streams_of : Option Turn → List StreamCall
streams_of none = streamon ∷ []
streams_of (some (c, calls, streams)) = streams

camera_on_once :
    (o : Option Turn) → Quiet o → streams_of (after [] (streamon ∷ []) o) ≡ streamon ∷ []
camera_on_once none q = refl
camera_on_once (some (c, calls, streams)) q = ap (λ s. streamon ∷ s) q.0

-- A camera task that starts in any state but `eSTATE_EXITING`, the state that `camera_exit` sets
-- included, switches the stream on and never off: no event leads to `eSTATE_EXITING`, and nothing
-- else does.
pub camera_never_off :
    (errno : Errno) (on : ℤ) (is : List Inputs) (c : Camera)
    → IsLive c.state
    → streams_of (camera_task errno on is c) ≡ streamon ∷ []
unfolding camera_task camera_capturestate
camera_never_off errno on is c h = camera_on_once (task_loop errno is c) (task-Quiet errno is c h)
