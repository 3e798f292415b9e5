-- ===== src/Camera/Capture.antt =====
-- What a turn of the camera task does with the frame that the driver delivers.
use beaglebone_black_motion.Base.{
  ◌+◌, ◌≤◌, ◌≡◌, refl, ap, Bool, true, false, ◌&&◌, Option, some, List, [], ◌∷◌, ◌++◌, length,
  if◌then◌else◌, arith,
}
use beaglebone_black_motion.Types.{u32}
use beaglebone_black_motion.Base.Int.{ℤ}
use beaglebone_black_motion.Config.{frame_size}
use beaglebone_black_motion.Events.{Event, event_none, event_motion_detected, event_motion_lost}
use beaglebone_black_motion.RingBuffer.Refine.{contents}
use beaglebone_black_motion.Framebuffer.{Errno, Answers, DriverCall, is_success, framebuffer_ioctl}
use beaglebone_black_motion.Framebuffer.Save.{IsReady, stored_frame}
use beaglebone_black_motion.Framebuffer.Write.{framebuffer_writeframe-Written, took, adds}
use beaglebone_black_motion.Camera.{
  State, idle, capturing, exiting, exit, state_count, Camera, process_event_queue, handle_event,
  Turn, wrote, act, Inputs, turn,
}

-- The two states in which the task takes frames from the driver.
abbrev pub IsTaking : State → Type 0
IsTaking idle = Unit
IsTaking capturing = Unit
IsTaking _ = ⊥

abbrev pub is_capturing : State → Bool
is_capturing capturing = true
is_capturing _ = false

-- The state of the task once it has read the event queue.
abbrev pub next_state : Inputs → State → State
next_state i s = handle_event (process_event_queue i.received i.event) s

next_state-IsTaking : (e : Event) (s : State) → IsTaking s → IsTaking (handle_event e s)
unfolding handle_event
next_state-IsTaking event_none s h = h
next_state-IsTaking event_motion_detected idle h = tt
next_state-IsTaking event_motion_detected capturing h = tt
next_state-IsTaking event_motion_detected exiting h = absurd h
next_state-IsTaking event_motion_detected exit h = absurd h
next_state-IsTaking event_motion_detected state_count h = absurd h
next_state-IsTaking event_motion_lost idle h = tt
next_state-IsTaking event_motion_lost capturing h = tt
next_state-IsTaking event_motion_lost exiting h = absurd h
next_state-IsTaking event_motion_lost exit h = absurd h
next_state-IsTaking event_motion_lost state_count h = absurd h

-- What the `switch (state)` leaves of a camera in a state `s` in which it takes frames.
pub record Taken (errno : Errno) (a : Answers) (s : State) (c : Camera) (out : Option Turn)
    : Type 0 where
  pub after : Camera
  pub calls : List DriverCall
  pub ended : out ≡ some (after, calls, [])
  pub state : after.state ≡ c.state
  pub ready : IsReady after.ring
  pub queue :
      contents [] after.ring
      ≡ contents [] c.ring
        ++ (if adds errno a (is_capturing s) c.ring then stored_frame a c.ring ∷ [] else [])
  pub counted : after.num_writes ≡ (
      if took errno a && is_success (framebuffer_ioctl errno a.queued) && is_capturing s
      then u32 (c.num_writes + 1)
      else c.num_writes)

module _ (errno : Errno) (a : Answers) (off : ℤ) (h : a.bytesused ≤ frame_size)
    (k : a.bytesused ≤ length a.mapped) where
  act-Taken :
      (s : State) (c : Camera)
      → IsTaking s
      → IsReady c.ring
      → Taken errno a s c (act errno a off s c)
  unfolding act
  act-Taken idle c t v =
      let w = framebuffer_writeframe-Written errno a c.ring v h k false in
      record {
        after = record c { ring = w.after };
        calls = w.calls;
        ended = ap (wrote false c) w.ended;
        state = refl;
        ready = w.ready;
        queue = w.queue;
        counted = ground arith;
      }
  act-Taken capturing c t v =
      let w = framebuffer_writeframe-Written errno a c.ring v h k true in
      record {
        after = record c {
          ring = w.after;
          num_writes = if is_success w.result then u32 (c.num_writes + 1) else c.num_writes;
        };
        calls = w.calls;
        ended = ap (wrote true c) w.ended;
        state = refl;
        ready = w.ready;
        queue = w.queue;
        counted = ap (λ b. if b then u32 (c.num_writes + 1) else c.num_writes) w.success;
      }
  act-Taken exiting c t v = absurd t
  act-Taken exit c t v = absurd t
  act-Taken state_count c t v = absurd t

-- A turn of the task in one of the two states, on a ready ring and for a delivery that fits: the new
-- state is what the event says; the frame joins the ring's queue exactly if that state is
-- `eSTATE_CAPTURING`, a buffer was taken and the ring had room; the count of writes goes up whenever a
-- frame was taken and its buffer given back in that state, also if the ring was full and the frame
-- was dropped; the ring stays ready and the stream is left alone.
pub turn-Taken :
    (errno : Errno) (i : Inputs) (c : Camera)
    → IsTaking c.state
    → IsReady c.ring
    → i.answers.bytesused ≤ frame_size
    → i.answers.bytesused ≤ length i.answers.mapped
    → let s = next_state i c.state in
      IsTaking s × Taken errno i.answers s (record c { state = s }) (turn errno i c)
unfolding turn
turn-Taken errno i c t v h k =
    let e = process_event_queue i.received i.event in
    let t' = next_state-IsTaking e c.state t in
    (
      t',
      act-Taken errno i.answers i.off h k (handle_event e c.state)
          (record c { state = handle_event e c.state }) t' v,
    )
