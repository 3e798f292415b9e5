-- ===== src/Camera/Follow.antt =====
-- The two state machines together: the camera task reads what the detection task sends, in order.
use beaglebone_black_motion.Base.{◌≡◌, refl, Bool, true, false, List, [], ◌∷◌, ◌++◌, arith}
use beaglebone_black_motion.Events.{Event}
use beaglebone_black_motion.Detection
use beaglebone_black_motion.Detection.{Detection, Sample, iterate, detection_task}
use beaglebone_black_motion.Detection.Trace.{detection_task-step}
use beaglebone_black_motion.Camera.{State, idle, capturing, handle_event}

-- The state of the camera task after it has read these events.
unfoldable pub handle_events : List Event → State → State
handle_events [] s = s
handle_events (e ∷ es) s = handle_events es (handle_event e s)

pub handle_events-append :
    (xs ys : List Event) (s : State)
    → handle_events (xs ++ ys) s ≡ handle_events ys (handle_events xs s)
unfolding handle_events
handle_events-append [] ys s = refl
handle_events-append (x ∷ xs) ys s = handle_events-append xs ys (handle_event x s)

-- The camera state that belongs to a state of the detection task that has not been told to exit.
abbrev pub Follows : Detection.State → Bool → State → Type 0
Follows Detection.State.detecting true s = s ≡ capturing
Follows Detection.State.detecting false s = s ≡ idle
Follows Detection.State.timeout flag s = (flag ≡ false) × (s ≡ capturing)
Follows Detection.State.motion_lost flag s = (flag ≡ false) × (s ≡ capturing)
Follows _ _ s = ⊥

pub iterate-Follows :
    (i : Sample) (d : Detection) (s : State)
    → Follows d.state d.flag s
    → let (d', sent) = iterate i d in Follows d'.state d'.flag (handle_events sent s)
unfolding iterate handle_events handle_event
iterate-Follows i d s h = ground arith

not_exit :
    (d : Detection) (s : State) → Follows d.state d.flag s → Detection.is_exit d.state ≡ false
not_exit d s h = ground arith

task-Follows :
    (is : List Sample) (d : Detection) (s : State)
    → Follows d.state d.flag s
    → let (d', sent) = detection_task is d in Follows d'.state d'.flag (handle_events sent s)
unfolding detection_task handle_events
task-Follows [] d s h = h
task-Follows (i ∷ is) d s h = rw (detection_task-step i is d (not_exit d s h)) (
    rw (handle_events-append (iterate i d).1 (detection_task is (iterate i d).0).1 s)
      (task-Follows is (iterate i d).0 (handle_events (iterate i d).1 s) (iterate-Follows i d s h)))

-- Whatever the sensor and the clock say, a camera task that starts idle and reads all events of the
-- detection task in order captures exactly while the flag of the detection task is up or its
-- timeout has not ended with the `lost` event; at rest with the flag down it is idle again.
pub camera-Follows :
    (is : List Sample)
    → let (d, sent) = detection_task is Detection.initial in
      Follows d.state d.flag (handle_events sent idle)
camera-Follows is = task-Follows is Detection.initial idle refl
