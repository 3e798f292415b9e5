-- ===== src/System/FirstFrame.antt =====
-- The first motion after a rest: the frame that the camera takes then is the one that is sent.
use beaglebone_black_motion.Base.{
  ℕ, zero, suc, ◌<◌, ◌≤◌, ◌≡◌, ◌≢◌, refl, ap, ap₂, ◌∙◌, arith, true, false, Option, some, List, [],
  ◌∷◌, ◌++◌, append-nil, length, take, drop, ◌⊎◌,
}
use beaglebone_black_motion.Base.Int.{ℤ}
use beaglebone_black_motion.Config.{Frame, frame_size}
use beaglebone_black_motion.Events.{Event, event_motion_detected}
use beaglebone_black_motion.Mqueue.{Mqueue, IsMqueue}
use beaglebone_black_motion.Framebuffer.{Errno, Answers}
use beaglebone_black_motion.Framebuffer.Save.{stored_frame}
use beaglebone_black_motion.Image.Send.{Datagram}
use beaglebone_black_motion.Detection
use beaglebone_black_motion.Detection.{Detection, Sample, iterate}
use beaglebone_black_motion.Camera
use beaglebone_black_motion.Camera.{handle_event}
use beaglebone_black_motion.Camera.Capture.{next_state}
use beaglebone_black_motion.Motion.{queue_size}
use beaglebone_black_motion.Motion.Delivery.{received_some}
use beaglebone_black_motion.Nvm.Drain.{Offline}
use beaglebone_black_motion.Pipeline.Passed.{PassedAll}
use beaglebone_black_motion.Pipeline.Turns
use beaglebone_black_motion.Pipeline.Turns.{underway, step-Stepped}
use beaglebone_black_motion.System.{
  Step, detect, film, transcode, stream, System, Outcome, send_all, inputs, passed_on, step, run,
}
use beaglebone_black_motion.System.Quiet.{AllLow, IsQuiet, step-Rested, run_step}
use beaglebone_black_motion.System.Passage.{Round, in_turn, IsMotion, pipeline-Passes}

-- A high sample at rest reports motion.
iterate-detects :
    (i : Sample) (d : Detection)
    → d.state ≡ Detection.State.detecting
    → d.flag ≡ false
    → i.status ≢ 0
    → iterate i d
      ≡ (record d { flag = true; state = Detection.State.detecting }, event_motion_detected ∷ [])
unfolding iterate
iterate-detects i d s f high = ground arith

take-append : (n : ℕ) (xs ys : Frame) → n ≤ length xs → take n (take n xs ++ ys) ≡ take n xs
take-append zero xs ys h = refl
take-append (suc n) [] ys h = absurd (omega arith)
take-append (suc n) (x ∷ xs) ys h = ap (λ l. x ∷ l) (take-append n xs ys (omega arith))

module _ (m : Mqueue) (law : IsMqueue m queue_size) where
  -- A run that is defined and sends one frame, which begins with the bytes that the
  -- driver delivered. After it no frame is on its way, no event waits, and the camera takes frames.
  pub record Shown (t : Round) (out : Option (Outcome m)) : Type 0 where
    pub after : System m
    pub datagrams : List Datagram
    pub ended : out ≡ some (after, datagrams)
    pub frame : Frame
    pub passed : PassedAll (Offline t.net ⊎ Offline t.net') (frame ∷ []) datagrams
    pub fresh : take t.answers.bytesused frame ≡ take t.answers.bytesused t.answers.mapped
    pub state : after.pipeline.camera.state ≡ Camera.State.capturing
    pub ready : Turns.IsReady after.pipeline
    pub empty : underway after.pipeline ≡ []
    pub queue : law.messages after.queue ≡ []

  -- The queue and the camera once motion was reported to a quiet system.
  reported :
      (s : System m) (a : Answers) (off : ℤ)
      → IsQuiet m law s
      → let q = send_all m (event_motion_detected ∷ []) s.queue in
        (next_state (inputs m a off q) s.pipeline.camera.state ≡ Camera.State.capturing)
        × (law.messages (m.receive q).2 ≡ [])
  unfolding send_all handle_event
  reported s a off v =
      let q = (m.send s.queue event_motion_detected).1 in
      let (ok, put) =
        law.send_room s.queue event_motion_detected (omega (arith, ap length v.queue)) in
      let (n, ret, event, left) =
        law.receive_some q event_motion_detected []
          (put ∙ ap (λ z. z ++ event_motion_detected ∷ []) v.queue) in
      (ap₂ handle_event (received_some (m.receive q).0 n (m.receive q).1 ret ∙ event) v.idle, left)

  motion-Shown :
      (errno : Errno) (fuel : ℕ) (t : Round) (s : System m)
      → frame_size < fuel
      → IsMotion errno t
      → IsQuiet m law s
      → Shown t (run m errno fuel (in_turn t) s)
  unfolding step run
  motion-Shown errno fuel t s g h v =
      let q = send_all m (event_motion_detected ∷ []) s.queue in
      let (capturing, left) = reported s t.answers t.off v in
      let i = inputs m t.answers t.off q in
      let x = pipeline-Passes errno fuel i t s.pipeline g refl h v.ready v.empty capturing in
      let detected = record s {
        detection = record s.detection { flag = true; state = Detection.State.detecting };
        queue = q;
      } in
      let filmed = record detected { queue = (m.receive q).2; pipeline = x.filmed } in
      let moved = record filmed { pipeline = x.moved } in
      let shown = record moved { pipeline = x.sent } in
      record {
        after = shown;
        datagrams = x.datagrams;
        ended =
            run_step m errno fuel (detect t.sample) (drop 1 (in_turn t)) s
              (ap
                (λ (z : Detection × List Event).
                  some (record s { detection = z.0; queue = send_all m z.1 s.queue }, []))
                (iterate-detects t.sample s.detection v.detecting v.flag h.high))
              (run_step m errno fuel (film t.answers t.off) (drop 2 (in_turn t)) detected
                (ap (passed_on m detected (m.receive q).2) x.film)
                (run_step m errno fuel (transcode t.rgb_frame t.rgb_frame') (drop 3 (in_turn t))
                  filmed (ap (passed_on m filmed filmed.queue) x.transcode)
                  (run_step m errno fuel (stream t.net t.net') [] moved
                    (ap (passed_on m moved moved.queue) x.stream) refl)))
            ∙ ap (λ (z : List Datagram). some (shown, z)) (append-nil x.datagrams);
        frame = stored_frame t.answers s.pipeline.camera.ring;
        passed = x.passed;
        fresh = take-append t.answers.bytesused t.answers.mapped _ h.film.1;
        state = x.state;
        ready = x.ready;
        empty = x.empty;
        queue = left;
      }

  -- With a message queue of ten places that behaves as POSIX says, fuel above the size of a frame and
  -- a quiet system: if fair turns of the four tasks in any order, in which the sensor is low, are
  -- followed by a turn of each task in which the sensor is high and the driver delivers a frame, then
  -- the run is defined and sends one frame, which begins with the bytes that the driver delivered in
  -- that turn: the whole of it, or a beginning where the last call of `sendto` failed or no socket
  -- could be made in that turn. After it no frame is on its way, no event waits, and the
  -- camera takes frames.
  pub first_frame-Shown :
      (errno : Errno) (fuel : ℕ) (ts : List Step) (t : Round) (s : System m)
      → frame_size < fuel
      → AllLow ts
      → IsMotion errno t
      → IsQuiet m law s
      → Shown t (run m errno fuel (ts ++ in_turn t) s)
  first_frame-Shown errno fuel [] t s g low h v = motion-Shown errno fuel t s g h v
  first_frame-Shown errno fuel (u ∷ us) t s g (low, lows) h v =
      let first = step-Rested m law errno fuel u s g low v in
      let rest = first_frame-Shown errno fuel us t first.after g lows h first.quiet in
      record {
        after = rest.after;
        datagrams = rest.datagrams;
        ended = run_step m errno fuel u (us ++ in_turn t) s first.ended rest.ended;
        frame = rest.frame;
        passed = rest.passed;
        fresh = rest.fresh;
        state = rest.state;
        ready = rest.ready;
        empty = rest.empty;
        queue = rest.queue;
      }
