-- ===== src/Detection/Timeout.antt =====
-- The software timeout of the detection task: from the first low sample to the `lost` event.
use beaglebone_black_motion.Base.{
  ◌+◌, ◌*◌, ◌≤◌, ◌<◌, ◌≡◌, ◌≢◌, refl, ap, ◌∙◌, true, false, List, [], ◌∷◌, ◌++◌, arith, All,
}
use beaglebone_black_motion.Events.{Event, event_motion_detected, event_motion_lost}
use beaglebone_black_motion.Types.{nsec_per_sec}
use beaglebone_black_motion.Detection.{
  detecting, motion_lost, timeout, run, leave, Timespec, Detection, Sample, iterate, detection_task,
  nanos, is_exit,
}
use beaglebone_black_motion.Detection.Trace.{detection_task-step}

-- The sensor is low, and the clock is less than five seconds after `start`.
abbrev pub Waits : Timespec → Sample → Type 0
Waits start i = (i.status ≡ 0) × (nanos i.now < nanos start + 5 * nsec_per_sec)

-- The task while the timeout runs since `start`.
abbrev pub running : Timespec → Detection → Detection
running start d = record d { flag = false; state = timeout; substate = run; timeout_start = start }

-- The task after the timeout that ran since `start`.
abbrev pub rested : Timespec → Detection → Detection
rested start d = record d {
  flag = false;
  state = detecting;
  substate = leave;
  timeout_start = start;
}

iterate-first :
    (i : Sample) (d : Detection)
    → i.status ≡ 0
    → d.flag ≡ true
    → d.state ≡ detecting
    → iterate i d ≡ (running i.now d, [])
unfolding iterate
iterate-first i d low up s = ground arith

iterate-Waits :
    (i : Sample) (d : Detection) (start : Timespec)
    → Waits start i
    → iterate i (running start d) ≡ (running start d, [])
unfolding iterate
iterate-Waits i d start w = ground arith

iterate-elapsed :
    (i : Sample) (d : Detection) (start : Timespec)
    → i.status ≡ 0
    → nanos start + 5 * nsec_per_sec ≤ nanos i.now
    → iterate i (running start d) ≡ (record (running start d) { substate = leave }, [])
unfolding iterate
iterate-elapsed i d start low h = ground arith

iterate-leave :
    (i : Sample) (d : Detection) (start : Timespec)
    → i.status ≡ 0
    → iterate i (record (running start d) { substate = leave })
      ≡ (record (rested start d) { state = motion_lost }, [])
unfolding iterate
iterate-leave i d start low = ground arith

iterate-lost :
    (i : Sample) (d : Detection) (start : Timespec)
    → i.status ≡ 0
    → iterate i (record (rested start d) { state = motion_lost })
      ≡ (rested start d, event_motion_lost ∷ [])
unfolding iterate
iterate-lost i d start low = ground arith

iterate-cancel :
    (i : Sample) (d : Detection) (start : Timespec)
    → i.status ≢ 0
    → iterate i (running start d)
      ≡ (record (running start d) { flag = true; state = detecting }, event_motion_detected ∷ [])
unfolding iterate
iterate-cancel i d start high = ground arith

-- A turn of the loop whose result is known.
task-step :
    (i : Sample) (is : List Sample) (d d' : Detection) (sent : List Event)
    → is_exit d.state ≡ false
    → iterate i d ≡ (d', sent)
    → detection_task (i ∷ is) d ≡ ((detection_task is d').0, sent ++ (detection_task is d').1)
task-step i is d d' sent h e =
    detection_task-step i is d h
    ∙ ap
        (λ (p : Detection × List Event).
          ((detection_task is p.0).0, p.1 ++ (detection_task is p.0).1))
        e

task-Waits :
    (ws rest : List Sample) (d : Detection) (start : Timespec)
    → All (Waits start) ws
    → detection_task (ws ++ rest) (running start d) ≡ detection_task rest (running start d)
task-Waits [] rest d start h = refl
task-Waits (w ∷ ws) rest d start h =
    task-step w (ws ++ rest) (running start d) (running start d) [] refl
      (iterate-Waits w d start h.0)
    ∙ task-Waits ws rest d start h.1

module _ (first : Sample) (ws : List Sample) (d : Detection) (low : first.status ≡ 0)
    (up : d.flag ≡ true) (s : d.state ≡ detecting) (waits : All (Waits first.now) ws) where
  task-first :
      (rest : List Sample)
      → detection_task (first ∷ ws ++ rest) d ≡ detection_task rest (running first.now d)
  task-first rest =
      task-step first (ws ++ rest) d (running first.now d) [] (rw s)
        (iterate-first first d low up s)
      ∙ task-Waits ws rest d first.now waits

  -- While the task rests with the flag up, a low sample starts the timeout. Over further low samples
  -- within five seconds nothing is sent; the next three low samples, the first of them five seconds
  -- or more after the start, send one `lost` event and bring the task back to rest, flag down.
  pub timeout_elapses :
      (e l m : Sample) (rest : List Sample)
      → e.status ≡ 0
      → nanos first.now + 5 * nsec_per_sec ≤ nanos e.now
      → l.status ≡ 0
      → m.status ≡ 0
      → detection_task (first ∷ ws ++ (e ∷ l ∷ m ∷ rest)) d ≡ (
          let (d', later) = detection_task rest (rested first.now d) in
          (d', event_motion_lost ∷ later))
  timeout_elapses e l m rest he late hl hm =
      task-first (e ∷ l ∷ m ∷ rest)
      ∙ task-step e (l ∷ m ∷ rest) _ _ [] refl (iterate-elapsed e d first.now he late)
      ∙ task-step l (m ∷ rest) _ _ [] refl (iterate-leave l d first.now hl)
      ∙ task-step m rest _ _ (event_motion_lost ∷ []) refl (iterate-lost m d first.now hm)

  -- A high sample while the timeout runs cancels it: `detected` is sent instead of `lost`, and the
  -- task is at rest with the flag up.
  pub timeout_cancelled :
      (i : Sample) (rest : List Sample)
      → i.status ≢ 0
      → detection_task (first ∷ ws ++ (i ∷ rest)) d ≡ (
          let (d', later) =
            detection_task rest (record (running first.now d) { flag = true; state = detecting }) in
          (d', event_motion_detected ∷ later))
  timeout_cancelled i rest high =
      task-first (i ∷ rest)
      ∙ task-step i rest _ _ (event_motion_detected ∷ []) refl (iterate-cancel i d first.now high)

pub rest_waits :
    (i : Sample) (d : Detection)
    → d.state ≡ detecting
    → d.flag ≡ false
    → i.status ≡ 0
    → iterate i d ≡ (d, [])
unfolding iterate
rest_waits i d s f low = ground arith

-- At rest with the flag down, low samples change nothing and send nothing, for ever.
pub rest_quiet :
    (is : List Sample) (d : Detection)
    → d.state ≡ detecting
    → d.flag ≡ false
    → All (λ (i : Sample). i.status ≡ 0) is
    → detection_task is d ≡ (d, [])
unfolding detection_task
rest_quiet [] d s f h = refl
rest_quiet (i ∷ is) d s f h =
    task-step i is d d [] (rw s) (rest_waits i d s f h.0) ∙ rest_quiet is d s f h.1
