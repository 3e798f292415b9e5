-- ===== src/System/Settle.antt =====
-- When the motion is over, what is on its way is sent, and the system is quiet again.
use beaglebone_black_motion.Base.{
  ℕ, ◌*◌, ◌<◌, ◌≤◌, ◌≡◌, refl, sym, ap, subst, ◌∙◌, false, Option, Option-cases, inl, inr, none,
  some, List, [], ◌∷◌, length,
}
use beaglebone_black_motion.Config.{frame_size}
use beaglebone_black_motion.Mqueue.{Mqueue, IsMqueue}
use beaglebone_black_motion.Framebuffer.{Errno}
use beaglebone_black_motion.Image.Buffer.Refine.{frames}
use beaglebone_black_motion.Image.Send.{Datagram}
use beaglebone_black_motion.Detection
use beaglebone_black_motion.Camera
use beaglebone_black_motion.Camera.Follow.{handle_events, Follows}
use beaglebone_black_motion.Motion.{queue_size}
use beaglebone_black_motion.Pipeline
use beaglebone_black_motion.Pipeline.{Pipeline}
use beaglebone_black_motion.Pipeline.Drain.{Cycle, FairCycles, Emptied, drain-Emptied}
use beaglebone_black_motion.Pipeline.Drain
use beaglebone_black_motion.Pipeline.Order
use beaglebone_black_motion.Pipeline.Order.{SomeUnconnected}
use beaglebone_black_motion.Pipeline.Passed.{PassedAll}
use beaglebone_black_motion.Pipeline.Turns
use beaglebone_black_motion.Pipeline.Turns.{underway}
use beaglebone_black_motion.System.{Step, transcode, stream, System, Outcome, passed_on, step, run}
use beaglebone_black_motion.System.Quiet.{IsQuiet, run_step}

-- The turns of the transcoder and of the streaming task, in turn.
abbrev pub steps : List Cycle → List Step
steps [] = []
steps (c ∷ cs) = transcode c.rgb_frame c.rgb_frame' ∷ stream c.net c.net' ∷ steps cs

pipeline_stops :
    (errno : Errno) (fuel : ℕ) (u : Pipeline.Step) (us : List Pipeline.Step) (p : Pipeline)
    → Pipeline.step errno fuel u p ≡ none
    → Pipeline.run errno fuel (u ∷ us) p ≡ none
unfolding Pipeline.run
pipeline_stops errno fuel u us p e = rw (Pipeline.run, e)

pipeline_stops_later :
    (errno : Errno) (fuel : ℕ) (u : Pipeline.Step) (us : List Pipeline.Step) (p : Pipeline)
    {p' : Pipeline} {ds : List Datagram}
    → Pipeline.step errno fuel u p ≡ some (p', ds)
    → Pipeline.run errno fuel us p' ≡ none
    → Pipeline.run errno fuel (u ∷ us) p ≡ none
unfolding Pipeline.run
pipeline_stops_later errno fuel u us p e r = rw (Pipeline.run, e) (rw r)

module _ (m : Mqueue) where
  system_stops :
      (errno : Errno) (fuel : ℕ) (t : Step) (ts : List Step) (s : System m)
      → step m errno fuel t s ≡ none
      → run m errno fuel (t ∷ ts) s ≡ none
  unfolding run
  system_stops errno fuel t ts s e = rw (run, e)

  system_stops_later :
      (errno : Errno) (fuel : ℕ) (t : Step) (ts : List Step) (s : System m) {s' : System m}
      {ds : List Datagram}
      → step m errno fuel t s ≡ some (s', ds)
      → run m errno fuel ts s' ≡ none
      → run m errno fuel (t ∷ ts) s ≡ none
  unfolding run
  system_stops_later errno fuel t ts s e r = rw (run, e) (rw r)

  -- The system with another pipeline, and what it makes of a result of the pipeline.
  abbrev over : System m → Pipeline → System m
  over s p = record s { pipeline = p }

  abbrev lifted : System m → Pipeline → Option Pipeline.Outcome → Option (Outcome m)
  lifted s p = passed_on m (over s p) s.queue

  -- A turn that does not use the message queue, and then a run that is one of the pipeline.
  lift_step :
      (errno : Errno) (fuel : ℕ) (t : Step) (u : Pipeline.Step) (ts : List Step)
      (us : List Pipeline.Step) (s : System m)
      → ((p : Pipeline)
          → step m errno fuel t (over s p) ≡ lifted s p (Pipeline.step errno fuel u p))
      → ((p : Pipeline)
          → run m errno fuel ts (over s p) ≡ lifted s p (Pipeline.run errno fuel us p))
      → (p : Pipeline)
      → run m errno fuel (t ∷ ts) (over s p) ≡ lifted s p (Pipeline.run errno fuel (u ∷ us) p)
  lift_step errno fuel t u ts us s one rest p = elim (Option-cases (Pipeline.step errno fuel u p)) [
    | inl e ↦
        system_stops errno fuel t ts (over s p) (one p ∙ ap (lifted s p) e)
        ∙ sym (ap (lifted s p) (pipeline_stops errno fuel u us p e))
    | inr ((p', ds), e) ↦
        let first : step m errno fuel t (over s p) ≡ some (over s p', ds) =
          one p ∙ ap (lifted s p) e in
        elim (Option-cases (Pipeline.run errno fuel us p')) [
          | inl r ↦
              system_stops_later errno fuel t ts (over s p) first (rest p' ∙ ap (lifted s p') r)
              ∙ sym (ap (lifted s p) (pipeline_stops_later errno fuel u us p e r))
          | inr ((p'', ds'), r) ↦
              run_step m errno fuel t ts (over s p) first (rest p' ∙ ap (lifted s p') r)
              ∙ sym (ap (lifted s p) (Order.run_step errno fuel u us p e r))
        ]
  ]

  run_cycles :
      (errno : Errno) (fuel : ℕ) (cs : List Cycle) (s : System m) (p : Pipeline)
      → run m errno fuel (steps cs) (over s p)
        ≡ lifted s p (Pipeline.run errno fuel (Drain.steps cs) p)
  unfolding run Pipeline.run step
  run_cycles errno fuel [] s p = refl
  run_cycles errno fuel (c ∷ cs) s p =
      lift_step errno fuel (transcode c.rgb_frame c.rgb_frame')
        (Pipeline.transcode c.rgb_frame c.rgb_frame') (stream c.net c.net' ∷ steps cs)
        (Pipeline.stream c.net c.net' ∷ Drain.steps cs) s (λ p. refl)
        (lift_step errno fuel (stream c.net c.net') (Pipeline.stream c.net c.net') (steps cs)
          (Drain.steps cs) s (λ p. refl) (run_cycles errno fuel cs s))
        p

module _ (m : Mqueue) (law : IsMqueue m queue_size) where
  -- A run that is defined, sends each of these frames as PassedAll says, and leaves the system quiet.
  pub record Settled (cs : List Cycle) (s : System m) (out : Option (Outcome m)) : Type 0 where
    pub after : System m
    pub datagrams : List Datagram
    pub ended : out ≡ some (after, datagrams)
    pub passed : PassedAll (SomeUnconnected (Drain.steps cs)) (underway s.pipeline) datagrams
    pub quiet : IsQuiet m law after

  -- The detection task at rest with its flag down, no event on its way, and the camera following.
  pub record IsOver (s : System m) : Type 0 where
    pub detecting : s.detection.state ≡ Detection.State.detecting
    pub flag : s.detection.flag ≡ false
    pub queue : law.messages s.queue ≡ []
    pub follows :
        Follows s.detection.state s.detection.flag
          (handle_events (law.messages s.queue) s.pipeline.camera.state)
    pub ready : Turns.IsReady s.pipeline

  camera_idle : (s : System m) → IsOver s → s.pipeline.camera.state ≡ Camera.State.idle
  unfolding handle_events
  camera_idle s v =
      let c = s.pipeline.camera.state in
      let f = s.detection.flag in
      let read = subst (λ q. Follows s.detection.state f (handle_events q c)) v.queue v.follows in
      let rests = subst (λ x. Follows x f c) v.detecting read in
      subst (λ x. Follows Detection.State.detecting x c) v.flag rests

  -- With a message queue of ten places that behaves as POSIX says, fuel above the size of a frame and
  -- both rings ready, where the detection task is at rest with its flag down, no event waits, the
  -- camera is in the state that belongs to this and the image buffer has room for two frames: as many
  -- fair cycles of the transcoder and the streaming task as there are pairs of frames on their way, or
  -- more, are defined, send each of these frames, the oldest first, and leave the system quiet, with no
  -- frame on its way. Of a frame the whole is sent, or a beginning where the last call of `sendto` for
  -- it failed or no socket could be made in some turn.
  pub cycles-Settled :
      (errno : Errno) (fuel : ℕ) (cs : List Cycle) (s : System m)
      → frame_size < fuel
      → FairCycles cs
      → IsOver s
      → length (frames s.pipeline.images) ≤ 253
      → length (underway s.pipeline) ≤ 2 * length cs
      → Settled cs s (run m errno fuel (steps cs) s)
  cycles-Settled errno fuel cs s g h v room few =
      let x = drain-Emptied errno fuel cs s.pipeline g h v.ready room few in
      record {
        after = over m s x.after;
        datagrams = x.datagrams;
        ended = run_cycles m errno fuel cs s s.pipeline ∙ ap (lifted m s s.pipeline) x.ended;
        passed = x.passed;
        quiet = record {
          detecting = v.detecting;
          flag = v.flag;
          queue = v.queue;
          idle = x.state ∙ camera_idle s v;
          ready = x.ready;
          empty = x.empty;
        };
      }
