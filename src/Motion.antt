-- ===== src/Motion.antt =====
-- The detection task and the camera task joined by their message queue: src/detection/detection.c
-- sends, src/camera/camera.c receives. The detection task runs at 100 Hz and the camera task at
-- 50 Hz, so that a round is two turns of the one and then one of the other.
pub mod Delivery
mod Tests
use beaglebone_black_motion.Base.{ℕ, ◌+◌, List, [], ◌∷◌, if◌then◌else◌}
use beaglebone_black_motion.Events.{Event}
use beaglebone_black_motion.Mqueue.{Mqueue}
use beaglebone_black_motion.Osal.{is_failure}
use beaglebone_black_motion.Osal.Sync.{osal_queue_send, osal_queue_receive}
use beaglebone_black_motion.Detection
use beaglebone_black_motion.Detection.{Detection, Sample, iterate}
use beaglebone_black_motion.Camera
use beaglebone_black_motion.Camera.{process_event_queue, handle_event}

-- The size that both tasks give to `osal_queue_create`.
abbrev pub queue_size : ℕ
queue_size = 10

module _ (m : Mqueue) where
  -- Both tasks and the queue; `lost` counts the events that `osal_queue_send` failed on.
  pub record Motion : Type 0 where
    pub detection : Detection
    pub queue : m.Queue
    pub camera : Camera.State
    pub lost : ℕ

  -- The calls of `osal_queue_send` for these events; the code ignores what they return.
  unfoldable pub send_all : List Event → Motion → Motion
  send_all [] s = s
  send_all (e ∷ es) s =
      let (ret, q) = m.send s.queue e in
      send_all es (record s {
        queue = q;
        lost = if is_failure (osal_queue_send ret) then s.lost + 1 else s.lost;
      })

  -- A turn of the detection task.
  unfoldable pub detect : Sample → Motion → Motion
  detect i s = let (d, sent) = iterate i s.detection in send_all sent (record s { detection = d })

  -- What a turn of the camera task does with the queue and with its state.
  unfoldable pub receive : Motion → Motion
  receive s =
      let (ret, e, q) = m.receive s.queue in
      record s {
        queue = q;
        camera = handle_event (process_event_queue (osal_queue_receive ret) e) s.camera;
      }

  pub round : Sample × Sample → Motion → Motion
  round (i, i') s = receive (detect i' (detect i s))

  pub rounds : List (Sample × Sample) → Motion → Motion
  rounds [] s = s
  rounds (i ∷ is) s = rounds is (round i s)

  -- Both tasks at their start, with this queue.
  abbrev pub begin : m.Queue → Motion
  begin q = record {
    detection = Detection.initial;
    queue = q;
    camera = Camera.State.idle;
    lost = 0;
  }
