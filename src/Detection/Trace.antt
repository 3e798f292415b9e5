-- ===== src/Detection/Trace.antt =====
-- Whole runs of the detection task, whatever the sensor and the clock say.
use beaglebone_black_motion.Base.{
  ℕ, ◌+◌, ◌*◌, ◌≤◌, ◌≡◌, ◌≢◌, refl, Bool, true, false, List, [], ◌∷◌, ◌++◌, length, length-append,
  arith, ◌∙◌,
}
use beaglebone_black_motion.Events.{Event, event_none, event_motion_detected, event_motion_lost}
use beaglebone_black_motion.Detection.{
  State, detecting, motion_lost, timeout, Detection, Sample, initial, iterate, detection_task,
  is_exit,
}

-- The last event sent, given the last one before.
abbrev pub last_event : Event → List Event → Event
last_event e [] = e
last_event e (x ∷ xs) = last_event x xs

-- What the receiver of the events believes agrees with the state of the task: `e` is the last event
-- sent so far.
abbrev pub Told : State → Bool → Event → Type 0
Told detecting true e = e ≡ event_motion_detected
Told detecting false e = e ≢ event_motion_detected
Told timeout flag e = (flag ≡ false) × (e ≡ event_motion_detected)
Told motion_lost flag e = (flag ≡ false) × (e ≡ event_motion_detected)
Told _ _ e = ⊥

abbrev pub IsTold : Detection → Event → Type 0
IsTold d e = Told d.state d.flag e

iterate-IsTold :
    (i : Sample) (d : Detection) (e : Event)
    → IsTold d e
    → IsTold (iterate i d).0 (last_event e (iterate i d).1)
unfolding iterate
iterate-IsTold i d e h = ground arith

last_event-append :
    (e : Event) (xs ys : List Event) → last_event e (xs ++ ys) ≡ last_event (last_event e xs) ys
last_event-append e [] ys = refl
last_event-append e (x ∷ xs) ys = last_event-append x xs ys

-- A `lost` event directly follows a `detected` event; `prev` is the event before the list.
abbrev pub Paired : Event → List Event → Type 0
Paired prev [] = Unit
Paired prev (event_motion_lost ∷ xs) = (prev ≡ event_motion_detected) × Paired event_motion_lost xs
Paired prev (x ∷ xs) = Paired x xs

Paired-append :
    (e : Event) (xs ys : List Event)
    → Paired e xs
    → Paired (last_event e xs) ys
    → Paired e (xs ++ ys)
Paired-append e [] ys h k = k
Paired-append e (event_motion_lost ∷ xs) ys h k = (h.0, Paired-append event_motion_lost xs ys h.1 k)
Paired-append e (event_none ∷ xs) ys h k = Paired-append event_none xs ys h k
Paired-append e (event_motion_detected ∷ xs) ys h k = Paired-append event_motion_detected xs ys h k

iterate-Paired : (i : Sample) (d : Detection) (e : Event) → IsTold d e → Paired e (iterate i d).1
unfolding iterate
iterate-Paired i d e h = ground arith

IsTold-not_exit : (d : Detection) (e : Event) → IsTold d e → is_exit d.state ≡ false
IsTold-not_exit d e h = ground arith

-- The loop's step, where the task has not been told to exit.
pub detection_task-step :
    (i : Sample) (is : List Sample) (d : Detection)
    → is_exit d.state ≡ false
    → detection_task (i ∷ is) d ≡ (
      (detection_task is (iterate i d).0).0,
      (iterate i d).1 ++ (detection_task is (iterate i d).0).1,
    )
unfolding detection_task
detection_task-step i is d h = rw h

task-IsTold :
    (is : List Sample) (d : Detection) (e : Event)
    → IsTold d e
    → IsTold (detection_task is d).0 (last_event e (detection_task is d).1)
      × Paired e (detection_task is d).1
unfolding detection_task
task-IsTold [] d e h = (h, tt)
task-IsTold (i ∷ is) d e h =
    let (told, paired) = task-IsTold is (iterate i d).0 _ (iterate-IsTold i d e h) in
    rw (detection_task-step i is d (IsTold-not_exit d e h)) (
      rw (last_event-append e (iterate i d).1 (detection_task is (iterate i d).0).1) told,
      Paired-append e (iterate i d).1 (detection_task is (iterate i d).0).1 (iterate-Paired i d e h)
          paired,
    )

none≢detected : event_none ≢ event_motion_detected
none≢detected e = cc

-- After any samples, a task that has not been told to exit agrees with what it sent: with the flag
-- up, or while the timeout runs, the last event is `detected`; at rest with the flag down it is not.
pub run-IsTold :
    (is : List Sample)
    → let (d, sent) = detection_task is initial in IsTold d (last_event event_none sent)
run-IsTold is = (task-IsTold is initial event_none none≢detected).0

-- Whatever the samples, each `lost` event is sent directly after a `detected` event: there are never
-- two `lost` events in a row, nor one at the beginning.
pub run-Paired : (is : List Sample) → Paired event_none (detection_task is initial).1
run-Paired is = (task-IsTold is initial event_none none≢detected).1

told_high :
    (i : Sample) (d : Detection) (e : Event)
    → IsTold d e
    → i.status ≢ 0
    → last_event e (iterate i d).1 ≡ event_motion_detected
unfolding iterate
told_high i d e h high = ground arith

-- After any samples, one more turn with a high sensor leaves `detected` as the last event sent: the
-- camera has been told to capture whenever the sensor was last seen high.
pub run_high :
    (is : List Sample) (i : Sample)
    → i.status ≢ 0
    → let (d, sent) = detection_task is initial in
      last_event event_none (sent ++ (iterate i d).1) ≡ event_motion_detected
run_high is i high =
    let (d, sent) = detection_task is initial in
    last_event-append event_none sent (iterate i d).1
    ∙ told_high i d (last_event event_none sent) (run-IsTold is) high

-- How many halves of an event the task can send ahead of the turns that it takes.
abbrev pub lead : Bool → State → ℕ
lead true _ = 0
lead false motion_lost = 2
lead false _ = 1

iterate-lead :
    (i : Sample) (d : Detection) (e : Event)
    → IsTold d e
    → let (d', sent) = iterate i d in
      2 * length sent + lead d'.flag d'.state ≤ 1 + lead d.flag d.state
unfolding iterate
iterate-lead i d e h = ground arith

task-lead :
    (is : List Sample) (d : Detection) (e : Event)
    → IsTold d e
    → 2 * length (detection_task is d).1 ≤ length is + lead d.flag d.state
unfolding detection_task
task-lead [] d e h = omega arith
task-lead (i ∷ is) d e h = rw (detection_task-step i is d (IsTold-not_exit d e h)) (
    omega (
      arith,
      length-append (iterate i d).1 (detection_task is (iterate i d).0).1,
      iterate-lead i d e h,
      task-lead is (iterate i d).0 _ (iterate-IsTold i d e h),
    ))

-- In `n` turns the task sends at most `(n + 1) / 2` events: at most one every second turn.
pub run_rate : (is : List Sample) → 2 * length (detection_task is initial).1 ≤ length is + 1
run_rate is = task-lead is initial event_none none≢detected
