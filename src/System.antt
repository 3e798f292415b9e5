-- ===== src/System.antt =====
-- The program's four tasks together: the detection task (src/detection/detection.c) and the camera
-- task (src/camera/camera.c) joined by their message queue, and the way of a frame from the camera
-- over the transcoder (src/transcoder/transcoder.c) to the streaming task (src/nvm/nvm.c). A step is
-- one turn of one task; the steps come in any order.
pub mod Quiet
pub mod Follow
pub mod Settle
pub mod Passage
pub mod FirstFrame
mod Tests
use beaglebone_black_motion.Base.{ℕ, false, Option, none, some, List, [], ◌∷◌, ◌++◌}
use beaglebone_black_motion.Base.Int.{ℤ}
use beaglebone_black_motion.Config.{Frame}
use beaglebone_black_motion.Events.{Event}
use beaglebone_black_motion.Mqueue.{Mqueue}
use beaglebone_black_motion.Osal.Sync.{osal_queue_receive}
use beaglebone_black_motion.Framebuffer.{Errno, Answers}
use beaglebone_black_motion.Image.Send.{Datagram}
use beaglebone_black_motion.Detection.{Detection, Sample, iterate}
use beaglebone_black_motion.Camera.{Inputs}
use beaglebone_black_motion.Nvm.{Network}
use beaglebone_black_motion.Pipeline
use beaglebone_black_motion.Pipeline.{Pipeline}

-- A turn of one of the tasks, with what it meets: the sensor and the clock, the driver, what the
-- local frames of the transcoder hold, the network.
pub data Step : Type 0 where
  detect : Sample → Step
  film : Answers → (off : ℤ) → Step
  transcode : Frame → Frame → Step
  stream : Network → Network → Step

module _ (m : Mqueue) where
  pub record System : Type 0 where
    pub detection : Detection
    pub queue : m.Queue
    pub pipeline : Pipeline

  -- What a step or a run leaves, with the calls of `sendto`.
  abbrev pub Outcome : Type 0
  Outcome = System × List Datagram

  -- The calls of `osal_queue_send` for these events; the code ignores what they return.
  unfoldable pub send_all : List Event → m.Queue → m.Queue
  send_all [] q = q
  send_all (e ∷ es) q = send_all es (m.send q e).1

  -- What the camera task meets in a turn: the event comes from the queue.
  abbrev pub inputs : Answers → (off : ℤ) → m.Queue → Inputs
  inputs a off q =
      let (ret, e, q') = m.receive q in
      record { received = osal_queue_receive ret; event = e; answers = a; off = off }

  -- A turn of a task that does not use the message queue.
  abbrev pub passed_on : System → m.Queue → Option Pipeline.Outcome → Option Outcome
  passed_on s q none = none
  passed_on s q (some (p, datagrams)) = some (record s { queue = q; pipeline = p }, datagrams)

  unfoldable pub step : Errno → (fuel : ℕ) → Step → System → Option Outcome
  unfolding send_all
  step errno fuel (detect i) s =
      let (d, sent) = iterate i s.detection in
      some (record s { detection = d; queue = send_all sent s.queue }, [])
  step errno fuel (film a off) s =
      passed_on s (m.receive s.queue).2
        (Pipeline.step errno fuel (Pipeline.film (inputs a off s.queue)) s.pipeline)
  step errno fuel (transcode rgb_frame rgb_frame') s =
      passed_on s s.queue
        (Pipeline.step errno fuel (Pipeline.transcode rgb_frame rgb_frame') s.pipeline)
  step errno fuel (stream net net') s =
      passed_on s s.queue (Pipeline.step errno fuel (Pipeline.stream net net') s.pipeline)

  unfoldable pub run : Errno → (fuel : ℕ) → List Step → System → Option Outcome
  run errno fuel [] s = some (s, [])
  run errno fuel (t ∷ ts) s = elim (step errno fuel t s) [
    | none ↦ none
    | some (s', datagrams) ↦ elim (run errno fuel ts s') [
      | none ↦ none
      | some (s'', datagrams') ↦ some (s'', datagrams ++ datagrams')
    ]
  ]
