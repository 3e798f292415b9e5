-- ===== src/System/Quiet.antt =====
-- The system at rest: no frame is taken, and none is sent, before there is motion.
use beaglebone_black_motion.Base.{
  ℕ, ◌<◌, ◌≤◌, ◌≡◌, refl, ap, ap₂, subst, ◌∙◌, ◌&&◌, arith, if◌then◌else◌, false, Option, some,
  List, [], ◌∷◌, ◌++◌, length,
}
use beaglebone_black_motion.Base.Int.{ℤ}
use beaglebone_black_motion.Base.Subsequence.{Subsequence, done}
use beaglebone_black_motion.Config.{Frame, IsFrame, frame_size}
use beaglebone_black_motion.Events.{Event}
use beaglebone_black_motion.Mqueue.{Mqueue, IsMqueue}
use beaglebone_black_motion.Framebuffer.{Errno, Answers}
use beaglebone_black_motion.Framebuffer.Save.{stored_frame}
use beaglebone_black_motion.Framebuffer.Write.{took}
use beaglebone_black_motion.Camera.Capture.{is_capturing, next_state}
use beaglebone_black_motion.Image.Send.{Datagram}
use beaglebone_black_motion.Image.Send.Complete.{IsSendto}
use beaglebone_black_motion.Detection
use beaglebone_black_motion.Detection.{Detection, Sample, iterate}
use beaglebone_black_motion.Detection.Timeout.{rest_waits}
use beaglebone_black_motion.Camera
use beaglebone_black_motion.Camera.{process_event_queue, handle_event}
use beaglebone_black_motion.Motion.{queue_size}
use beaglebone_black_motion.Motion.Delivery.{received_none}
use beaglebone_black_motion.Pipeline
use beaglebone_black_motion.Pipeline.{Pipeline}
use beaglebone_black_motion.Pipeline.Passed.{PassedAll}
use beaglebone_black_motion.Pipeline.Turns.{Unconnected}
use beaglebone_black_motion.Pipeline.Turns
use beaglebone_black_motion.Pipeline.Turns.{Stepped, underway, captured, camera_state, step-Stepped}
use beaglebone_black_motion.System.{
  Step, detect, film, transcode, stream, System, Outcome, send_all, inputs, passed_on, step, run,
}

-- What a step meets is fair: as in the pipeline.
abbrev pub IsFair : Step → Type 0
IsFair (detect i) = Unit
IsFair (film a off) = (a.bytesused ≤ frame_size) × (a.bytesused ≤ length a.mapped)
IsFair (transcode rgb_frame rgb_frame') = IsFrame rgb_frame × IsFrame rgb_frame'
IsFair (stream net net') = IsSendto net.sendto × IsSendto net'.sendto

-- The step is fair, and if it looks at the sensor, this is low.
abbrev pub IsLow : Step → Type 0
IsLow (detect i) = i.status ≡ 0
IsLow (film a off) = IsFair (film a off)
IsLow (transcode rgb_frame rgb_frame') = IsFair (transcode rgb_frame rgb_frame')
IsLow (stream net net') = IsFair (stream net net')

abbrev pub AllLow : List Step → Type 0
AllLow [] = Unit
AllLow (t ∷ ts) = IsLow t × AllLow ts

nothing_of : {xs : List Frame} → Subsequence xs [] → xs ≡ []
nothing_of done = refl

pub append-empty : (xs ys : List Frame) → xs ++ ys ≡ [] → (xs ≡ []) × (ys ≡ [])
append-empty [] ys e = (refl, e)
append-empty (x ∷ xs) ys e = absurd (cc)

module _ (m : Mqueue) where
  pub run_step :
      (errno : Errno) (fuel : ℕ) (t : Step) (ts : List Step) (s : System m) {s' s'' : System m}
      {ds ds' : List Datagram}
      → step m errno fuel t s ≡ some (s', ds)
      → run m errno fuel ts s' ≡ some (s'', ds')
      → run m errno fuel (t ∷ ts) s ≡ some (s'', ds ++ ds')
  unfolding run
  run_step errno fuel t ts s e e' = rw (run, e) (rw e' refl)

module _ (m : Mqueue) (law : IsMqueue m queue_size) where
  -- No motion is reported or under way to the camera task, the camera is idle, and no frame is on
  -- its way.
  pub record IsQuiet (s : System m) : Type 0 where
    pub detecting : s.detection.state ≡ Detection.State.detecting
    pub flag : s.detection.flag ≡ false
    pub queue : law.messages s.queue ≡ []
    pub idle : s.pipeline.camera.state ≡ Camera.State.idle
    pub ready : Turns.IsReady s.pipeline
    pub empty : underway s.pipeline ≡ []

  -- A run that is defined, sends nothing, and leaves the system quiet.
  pub record Rested (out : Option (Outcome m)) : Type 0 where
    pub after : System m
    pub ended : out ≡ some (after, [])
    pub quiet : IsQuiet after

  detect-Rested :
      (errno : Errno) (fuel : ℕ) (i : Sample) (s : System m)
      → i.status ≡ 0
      → IsQuiet s
      → Rested (step m errno fuel (detect i) s)
  unfolding step
  detect-Rested errno fuel i s low v = record {
    after = s;
    ended =
        ap
          (λ (x : Detection × List Event).
            some (record s { detection = x.0; queue = send_all m x.1 s.queue }, []))
          (rest_waits i s.detection v.detecting v.flag low);
    quiet = v;
  }

  -- A pipeline with nothing on its way that captures nothing sends nothing.
  rested_pipeline :
      (errno : Errno) (t : Pipeline.Step) (p : Pipeline) {out : Option Pipeline.Outcome}
      → (x : Stepped errno t p out) → underway p ≡ []
      → captured errno t p ≡ []
      → (x.datagrams ≡ []) × (underway x.after ≡ [])
  rested_pipeline errno t p x e c =
      let nothing =
        nothing_of (subst (Subsequence (x.taken ++ underway x.after)) (ap₂ ◌++◌ e c) x.order) in
      let (a, b) = append-empty x.taken (underway x.after) nothing in
      (subst (λ fs. PassedAll (Unconnected t) fs x.datagrams) a x.passed, b)

  passed_on-Rested :
      (errno : Errno) (t : Pipeline.Step) (s : System m) (q : m.Queue)
      {out : Option Pipeline.Outcome}
      → Stepped errno t s.pipeline out
      → IsQuiet s
      → law.messages q ≡ []
      → camera_state t s.pipeline ≡ Camera.State.idle
      → captured errno t s.pipeline ≡ []
      → Rested (passed_on m s q out)
  passed_on-Rested errno t s q x v none idle c =
      let (sent, empty) = rested_pipeline errno t s.pipeline x v.empty c in
      record {
        after = record s { queue = q; pipeline = x.after };
        ended =
            ap (passed_on m s q) x.ended
            ∙ ap (λ (ds : List Datagram). some (record s { queue = q; pipeline = x.after }, ds))
                sent;
        quiet = record {
          detecting = v.detecting;
          flag = v.flag;
          queue = none;
          idle = x.state ∙ idle;
          ready = x.ready;
          empty = empty;
        };
      }

  -- The camera task finds no event and stays idle.
  film_waits :
      (a : Answers) (off : ℤ) (s : System m)
      → IsQuiet s
      → (next_state (inputs m a off s.queue) s.pipeline.camera.state ≡ Camera.State.idle)
        × (law.messages (m.receive s.queue).2 ≡ [])
  film_waits a off s v =
      let (ret, left) = law.receive_none s.queue v.queue in
      (
        received_none (m.receive s.queue).0 (m.receive s.queue).1 s.pipeline.camera.state ret
            ∙ v.idle,
        left,
      )

  idle_captures_none :
      (errno : Errno) (a : Answers) (state : Camera.State) (f : Frame)
      → state ≡ Camera.State.idle
      → (if took errno a && is_capturing state then f ∷ [] else []) ≡ []
  idle_captures_none errno a state f e = ground arith

  pub step-Rested :
      (errno : Errno) (fuel : ℕ) (t : Step) (s : System m)
      → frame_size < fuel
      → IsLow t
      → IsQuiet s
      → Rested (step m errno fuel t s)
  unfolding step
  step-Rested errno fuel (detect i) s g low v = detect-Rested errno fuel i s low v
  step-Rested errno fuel (film a off) s g h v =
      let (idle, left) = film_waits a off s v in
      let i = inputs m a off s.queue in
      passed_on-Rested errno (Pipeline.film i) s (m.receive s.queue).2
        (step-Stepped errno fuel (Pipeline.film i) s.pipeline g h v.ready) v left idle
        (idle_captures_none errno a (next_state i s.pipeline.camera.state)
          (stored_frame a s.pipeline.camera.ring) idle)
  step-Rested errno fuel (transcode rgb_frame rgb_frame') s g h v =
      let t = Pipeline.transcode rgb_frame rgb_frame' in
      passed_on-Rested errno t s s.queue (step-Stepped errno fuel t s.pipeline g h v.ready) v
        v.queue v.idle refl
  step-Rested errno fuel (stream net net') s g h v =
      let t = Pipeline.stream net net' in
      passed_on-Rested errno t s s.queue (step-Stepped errno fuel t s.pipeline g h v.ready) v
        v.queue v.idle refl

  -- With a message queue of ten places that behaves as POSIX says, fuel above the size of a frame and
  -- a quiet system: turns of the four tasks in any order, each of them fair and each sample of the
  -- sensor low, are defined, send no datagram and leave the system quiet.
  pub run-Rested :
      (errno : Errno) (fuel : ℕ) (ts : List Step) (s : System m)
      → frame_size < fuel
      → AllLow ts
      → IsQuiet s
      → Rested (run m errno fuel ts s)
  unfolding run
  run-Rested errno fuel [] s g h v = record { after = s; ended = refl; quiet = v }
  run-Rested errno fuel (t ∷ ts) s g (h, hs) v =
      let first = step-Rested errno fuel t s g h v in
      let rest = run-Rested errno fuel ts first.after g hs first.quiet in
      record {
        after = rest.after;
        ended = run_step m errno fuel t ts s first.ended rest.ended;
        quiet = rest.quiet;
      }
