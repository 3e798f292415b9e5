-- ===== src/Events.antt =====
-- middleware/events/events.h: the messages of the motion event queue.

-- `event_e`
pub data Event : Type 0 where
  event_none event_motion_detected event_motion_lost : Event
