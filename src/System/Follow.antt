-- ===== src/System/Follow.antt =====
-- The camera follows the sensor, whatever the order of the turns, as long as the camera task gets its
-- turn at half the rate of the detection task.
use beaglebone_black_motion.Base.{
  ℕ, ◌+◌, ◌<◌, ◌≤◌, ◌≡◌, refl, sym, ap, subst, ◌∙◌, Option, some, List, [], ◌∷◌, ◌++◌, length,
  arith,
}
use beaglebone_black_motion.Base.Int.{ℤ}
use beaglebone_black_motion.Config.{frame_size}
use beaglebone_black_motion.Events.{Event}
use beaglebone_black_motion.Mqueue.{Mqueue, IsMqueue}
use beaglebone_black_motion.Framebuffer.{Errno, Answers}
use beaglebone_black_motion.Image.Send.{Datagram}
use beaglebone_black_motion.Detection.{Sample, iterate}
use beaglebone_black_motion.Camera
use beaglebone_black_motion.Camera.Capture.{next_state}
use beaglebone_black_motion.Camera.Follow.{handle_events, Follows}
use beaglebone_black_motion.Motion
use beaglebone_black_motion.Motion.{Motion, queue_size}
use beaglebone_black_motion.Motion.Delivery.{Inv, lead-le, detect-Inv, receive-Inv}
use beaglebone_black_motion.Pipeline
use beaglebone_black_motion.Pipeline.{Pipeline}
use beaglebone_black_motion.Pipeline.Turns
use beaglebone_black_motion.Pipeline.Turns.{Stepped, camera_state, step-Stepped}
use beaglebone_black_motion.System.{
  Step, detect, film, transcode, stream, System, Outcome, send_all, inputs, passed_on, step, run,
}
use beaglebone_black_motion.System.Quiet.{IsFair, IsQuiet, run_step}

-- The steps are fair, and between two turns of the camera task there are at most two of the detection
-- task; `since` counts those since the last one.
abbrev pub Paced : (since : ℕ) → List Step → Type 0
Paced since [] = Unit
Paced since (detect i ∷ ts) = (since < 2) × Paced (since + 1) ts
Paced since (film a off ∷ ts) = IsFair (film a off) × Paced 0 ts
Paced since (transcode f f' ∷ ts) = IsFair (transcode f f') × Paced since ts
Paced since (stream net net' ∷ ts) = IsFair (stream net net') × Paced since ts

module _ (m : Mqueue) (law : IsMqueue m queue_size) where
  -- The part of the system that Motion is about.
  abbrev pub motion : System m → Motion m
  motion s = record {
    detection = s.detection;
    queue = s.queue;
    camera = s.pipeline.camera.state;
    lost = 0;
  }

  -- What holds `since` turns of the detection task after a turn of the camera task.
  record IsFollowing (since : ℕ) (s : System m) : Type 0 where
    pace : since ≤ 2
    inv : Inv m law (since + 2) (motion s)
    ready : Turns.IsReady s.pipeline

  -- A step or a run that is defined, after which the camera follows.
  record Advanced (since : ℕ) (out : Option (Outcome m)) : Type 0 where
    after : System m
    datagrams : List Datagram
    ended : out ≡ some (after, datagrams)
    holds : IsFollowing since after

  -- The calls of `osal_queue_send` change the queue and the count of lost events.
  send_all_lem :
      (es : List Event) (s : Motion m)
      → Motion.send_all m es s
        ≡ record s { queue = send_all m es s.queue; lost = (Motion.send_all m es s).lost }
  unfolding Motion.send_all send_all
  send_all_lem [] s = refl
  send_all_lem (e ∷ es) s = send_all_lem es _

  detect-Inv_system :
      (k : ℕ) (i : Sample) (s : System m)
      → k ≤ 4
      → Inv m law k (motion s)
      → let (d, sent) = iterate i s.detection in
        Inv m law (k + 1) (motion (record s { detection = d; queue = send_all m sent s.queue }))
  unfolding Motion.detect
  detect-Inv_system k i s h v =
      let (d, sent) = iterate i s.detection in
      let before = record (motion s) { detection = d } in
      let x =
        subst (Inv m law (k + 1)) (send_all_lem sent before)
          (detect-Inv m law k i (motion s) h v) in
      subst (λ n. Inv m law (k + 1) (record before { queue = send_all m sent s.queue; lost = n }))
        x.kept x

  film-Inv_system :
      (k : ℕ) (a : Answers) (off : ℤ) (s : System m) (state : Camera.State)
      → k ≤ 4
      → state ≡ next_state (inputs m a off s.queue) s.pipeline.camera.state
      → Inv m law k (motion s)
      → Inv m law 2 (record (motion s) { queue = (m.receive s.queue).2; camera = state })
  unfolding Motion.receive
  film-Inv_system k a off s state h e v =
      subst (λ c. Inv m law 2 (record (motion s) { queue = (m.receive s.queue).2; camera = c }))
        (sym e)
        (receive-Inv m law (motion s)
          (record { follows = v.follows; room = omega (arith, v.room, h); kept = v.kept }))

  -- A turn of a task that does not use the message queue.
  passed_on-Advanced :
      (errno : Errno) (t : Pipeline.Step) (since : ℕ) (s : System m) {out : Option Pipeline.Outcome}
      → Stepped errno t s.pipeline out
      → camera_state t s.pipeline ≡ s.pipeline.camera.state
      → IsFollowing since s
      → Advanced since (passed_on m s s.queue out)
  passed_on-Advanced errno t since s x same v = record {
    after = record s { pipeline = x.after };
    datagrams = x.datagrams;
    ended = ap (passed_on m s s.queue) x.ended;
    holds = record {
      pace = v.pace;
      inv =
          subst (λ c. Inv m law (since + 2) (record (motion s) { camera = c }))
            (sym (x.state ∙ same)) v.inv;
      ready = x.ready;
    };
  }

  -- One more step in front of a run.
  in_front :
      (errno : Errno) (fuel : ℕ) (t : Step) (ts : List Step) (s s' : System m) (ds : List Datagram)
      → step m errno fuel t s ≡ some (s', ds)
      → (since : ℕ) × Advanced since (run m errno fuel ts s')
      → (since : ℕ) × Advanced since (run m errno fuel (t ∷ ts) s)
  in_front errno fuel t ts s s' ds e (since, x) = (
    since,
    record {
      after = x.after;
      datagrams = ds ++ x.datagrams;
      ended = run_step m errno fuel t ts s e x.ended;
      holds = x.holds;
    },
  )

  -- From a state in which the camera follows, with the turns since the last one of the camera task.
  run-Advanced :
      (errno : Errno) (fuel since : ℕ) (ts : List Step) (s : System m)
      → frame_size < fuel
      → Paced since ts
      → IsFollowing since s
      → (since' : ℕ) × Advanced since' (run m errno fuel ts s)
  unfolding run step
  run-Advanced errno fuel since [] s g h v =
      (since, record { after = s; datagrams = []; ended = refl; holds = v })
  run-Advanced errno fuel since (detect i ∷ ts) s g (room, h) v =
      let (d, sent) = iterate i s.detection in
      let after = record s { detection = d; queue = send_all m sent s.queue } in
      in_front errno fuel (detect i) ts s after [] refl (
        run-Advanced errno fuel (since + 1) ts after g h (record {
          pace = omega arith;
          inv =
              subst (λ k. Inv m law k (motion after)) (omega arith)
                (detect-Inv_system (since + 2) i s (omega (arith, v.pace, room)) v.inv);
          ready = v.ready;
        }))
  run-Advanced errno fuel since (film a off ∷ ts) s g (fair, h) v =
      let i = inputs m a off s.queue in
      let x = step-Stepped errno fuel (Pipeline.film i) s.pipeline g fair v.ready in
      let q = (m.receive s.queue).2 in
      let after = record s { queue = q; pipeline = x.after } in
      in_front errno fuel (film a off) ts s after x.datagrams (ap (passed_on m s q) x.ended) (
        run-Advanced errno fuel 0 ts after g h (record {
          pace = omega arith;
          inv =
              film-Inv_system (since + 2) a off s x.after.camera.state (omega (arith, v.pace))
                x.state v.inv;
          ready = x.ready;
        }))
  run-Advanced errno fuel since (transcode f f' ∷ ts) s g (fair, h) v =
      let t = Pipeline.transcode f f' in
      let x = step-Stepped errno fuel t s.pipeline g fair v.ready in
      let y = passed_on-Advanced errno t since s x refl v in
      in_front errno fuel (transcode f f') ts s y.after y.datagrams y.ended
        (run-Advanced errno fuel since ts y.after g h y.holds)
  run-Advanced errno fuel since (stream net net' ∷ ts) s g (fair, h) v =
      let t = Pipeline.stream net net' in
      let x = step-Stepped errno fuel t s.pipeline g fair v.ready in
      let y = passed_on-Advanced errno t since s x refl v in
      in_front errno fuel (stream net net') ts s y.after y.datagrams y.ended
        (run-Advanced errno fuel since ts y.after g h y.holds)

  quiet-IsFollowing : (s : System m) → IsQuiet m law s → IsFollowing 0 s
  unfolding handle_events
  quiet-IsFollowing s v = record {
    pace = omega arith;
    inv = record {
      follows = rw (v.queue, v.detecting, v.flag) v.idle;
      room = omega (arith, ap length v.queue, lead-le s.detection.flag s.detection.state);
      kept = refl;
    };
    ready = v.ready;
  }

  -- A run that is defined and leaves the pipeline ready. At most two events wait, and the camera task
  -- is, once it has read them, in the state that belongs to the detection task.
  pub record Followed (out : Option (Outcome m)) : Type 0 where
    pub after : System m
    pub datagrams : List Datagram
    pub ended : out ≡ some (after, datagrams)
    pub ready : Turns.IsReady after.pipeline
    pub few : length (law.messages after.queue) ≤ 2
    pub follows :
        Follows after.detection.state after.detection.flag
          (handle_events (law.messages after.queue) after.pipeline.camera.state)

  -- With a message queue of ten places that behaves as POSIX says, fuel above the size of a frame and
  -- a quiet system: for turns of the four tasks in any order, the sensor high or low, as long as they
  -- are fair and the detection task gets at most two turns between two of the camera task, the run is
  -- defined and leaves the pipeline ready; no more than two events wait, and the camera task, once it
  -- has read those, is in the state that belongs to the detection task.
  pub run-Followed :
      (errno : Errno) (fuel : ℕ) (ts : List Step) (s : System m)
      → frame_size < fuel
      → Paced 0 ts
      → IsQuiet m law s
      → Followed (run m errno fuel ts s)
  unfolding handle_events
  run-Followed errno fuel ts s g h v =
      let (since, x) = run-Advanced errno fuel 0 ts s g h (quiet-IsFollowing s v) in
      record {
        after = x.after;
        datagrams = x.datagrams;
        ended = x.ended;
        ready = x.holds.ready;
        few = omega (arith, x.holds.inv.room, x.holds.pace);
        follows = x.holds.inv.follows;
      }
