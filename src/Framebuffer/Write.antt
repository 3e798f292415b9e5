-- ===== src/Framebuffer/Write.antt =====
-- `framebuffer_writeframe`: what it stores, what it returns, and the driver's buffers.
use beaglebone_black_motion.Base.{
  ◌≤◌, ◌<◌, ◌≡◌, inl, inr, refl, sym, ap₂, Bool, true, false, not, ◌&&◌, Option, none, some, List,
  [], ◌∷◌, ◌++◌, length, append-nil, if◌then◌else◌, arith, Bool-cases,
}
use beaglebone_black_motion.Types.{SysResult, sys_failure, sys_ignore}
use beaglebone_black_motion.Config.{Frame, frame_size}
use beaglebone_black_motion.RingBuffer
use beaglebone_black_motion.RingBuffer.{Ring}
use beaglebone_black_motion.RingBuffer.Refine.{contents, write_refines}
use beaglebone_black_motion.Framebuffer.{
  Errno, Answers, framebuffer_ioctl, is_minus_one, is_success, save_frame, requeue, DriverCall,
  qbuf, dqbuf, selects, framebuffer_writeframe, framebuffer_queueframe, framebuffer_dequeueframe,
}
use beaglebone_black_motion.Framebuffer.Save.{
  IsReady, stored_frame, save_frame_full, save_frame-none, save_frame-some, write-IsReady,
}

-- The call took a buffer from the driver.
abbrev pub took : Errno → Answers → Bool
took errno a = not (is_minus_one a.selected) && is_success (framebuffer_ioctl errno a.dequeued)

-- The frame is added to the ring.
abbrev pub adds : Errno → Answers → Bool → Ring Frame → Bool
adds errno a save ring = took errno a && save && not (RingBuffer.is_full ring)

-- What one call of `framebuffer_writeframe` does.
pub record Written (errno : Errno) (a : Answers) (save : Bool) (ring : Ring Frame)
    (out : Option (SysResult × Ring Frame × List DriverCall)) : Type 0 where
  pub result : SysResult
  pub after : Ring Frame
  pub calls : List DriverCall
  pub ended : out ≡ some (result, after, calls)
  pub ready : IsReady after
  pub queue :
      contents [] after
      ≡ contents [] ring ++ (if adds errno a save ring then stored_frame a ring ∷ [] else [])
  pub returned : calls ≡ (
      if took errno a
      then selects ∷ dqbuf ∷ qbuf a.index ∷ []
      else if is_minus_one a.selected
      then selects ∷ []
      else selects ∷ dqbuf ∷ [])
  pub success :
      is_success result ≡ took errno a && is_success (framebuffer_ioctl errno a.queued) && save

requeue_result :
    (errno : Errno) (a : Answers) (save : Bool) (ring : Ring Frame)
    → is_success (requeue errno a save ring).0
      ≡ is_success (framebuffer_ioctl errno a.queued) && save
unfolding requeue framebuffer_queueframe
requeue_result errno a save ring = ground arith

requeue_rest :
    (errno : Errno) (a : Answers) (save : Bool) (ring : Ring Frame)
    → ((requeue errno a save ring).1 ≡ ring)
      × ((requeue errno a save ring).2 ≡ selects ∷ dqbuf ∷ qbuf a.index ∷ [])
unfolding requeue framebuffer_queueframe
requeue_rest errno a save ring = ground arith

-- The `if (writeCondition)` block, on each of its branches.
record Saved (a : Answers) (save : Bool) (ring : Ring Frame) : Type 0 where
  after : Ring Frame
  ended : (if save then save_frame a ring else some ring) ≡ some after
  ready : IsReady after
  queue :
      contents [] after
      ≡ contents [] ring
        ++ (if save && not (RingBuffer.is_full ring) then stored_frame a ring ∷ [] else [])

module _ (errno : Errno) (a : Answers) (ring : Ring Frame) (v : IsReady ring)
    (h : a.bytesused ≤ frame_size) (k : a.bytesused ≤ length a.mapped) where
  save_lem : (save : Bool) → Saved a save ring
  save_lem false = record {
    after = ring;
    ended = refl;
    ready = v;
    queue = sym (append-nil (contents [] ring));
  }
  save_lem true = elim (Bool-cases (RingBuffer.is_full ring)) [
    | inl f ↦ record {
      after = ring;
      ended = save_frame_full a ring v f;
      ready = v;
      queue = rw f (sym (append-nil (contents [] ring)));
    }
    | inr n ↦ record {
      after = RingBuffer.write ring (stored_frame a ring);
      ended = save_frame-some a ring v h k n;
      ready = write-IsReady a ring v h k;
      queue = rw n (write_refines [] (stored_frame a ring) v.valid n);
    }
  ]

  -- On a ready ring, and for a delivery that fits a frame and its mapping, each call of
  -- `framebuffer_writeframe` is defined, whatever the driver answers. It adds the delivered frame to
  -- the ring's queue exactly if a buffer was taken, the frame was to be saved and the ring had room.
  -- A buffer that was taken is given back with its own index, saved or not. It returns success
  -- exactly if a buffer was taken and given back and the frame was to be saved: also where the frame
  -- was dropped because the ring was full.
  pub framebuffer_writeframe-Written :
      (save : Bool) → Written errno a save ring (framebuffer_writeframe errno a save ring)
  unfolding framebuffer_writeframe framebuffer_dequeueframe
  framebuffer_writeframe-Written save = elim (Bool-cases (is_minus_one a.selected)) [
    | inl e ↦ record {
      result = sys_ignore;
      after = ring;
      calls = selects ∷ [];
      ended = rw e;
      ready = v;
      queue = rw e (sym (append-nil (contents [] ring)));
      returned = rw e;
      success = rw e;
    }
    | inr e ↦ elim (Bool-cases (is_success (framebuffer_ioctl errno a.dequeued))) [
      | inl d ↦
          let s = save_lem save in
          record {
            result = (requeue errno a save s.after).0;
            after = s.after;
            calls = selects ∷ dqbuf ∷ qbuf a.index ∷ [];
            ended =
                rw (e, d)
                  (rw s.ended (
                    ap₂ (λ r c. some ((requeue errno a save s.after).0, r, c))
                      (requeue_rest errno a save s.after).0 (requeue_rest errno a save s.after).1));
            ready = s.ready;
            queue = rw (e, d) (s.queue);
            returned = rw (e, d);
            success = rw (e, d) (requeue_result errno a save s.after);
          }
      | inr d ↦ record {
        result = sys_failure;
        after = ring;
        calls = selects ∷ dqbuf ∷ [];
        ended = rw (e, d);
        ready = v;
        queue = rw (e, d) (sym (append-nil (contents [] ring)));
        returned = rw (e, d);
        success = rw (e, d);
      }
    ]
  ]

-- The size of a delivery is not checked: with a ring that has room and a frame to be saved, a
-- delivery larger than a frame is copied over the end of the cell.
pub framebuffer_writeframe_overruns :
    (errno : Errno) (a : Answers) (ring : Ring Frame)
    → IsReady ring
    → adds errno a true ring ≡ true
    → frame_size < a.bytesused
    → framebuffer_writeframe errno a true ring ≡ none
unfolding framebuffer_writeframe framebuffer_dequeueframe
framebuffer_writeframe_overruns errno a ring v h large =
    rw (conditions.0, conditions.1) (rw (save_frame-none a ring v conditions.2 large))
  where
    conditions :
        (is_minus_one a.selected ≡ false)
        × (is_success (framebuffer_ioctl errno a.dequeued) ≡ true)
        × (RingBuffer.is_full ring ≡ false)
    conditions = (ground arith, ground arith, ground arith)
