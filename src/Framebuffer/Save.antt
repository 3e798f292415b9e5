-- ===== src/Framebuffer/Save.antt =====
-- `framebuffer_writeframe`: the block that copies a delivered frame into the ring.
use beaglebone_black_motion.Base.{
  ℕ, zero, suc, ◌≤◌, ◌<◌, ◌≡◌, ◌∙◌, true, false, none, some, List, [], ◌∷◌, ◌++◌, length, get_elem?,
  get_or, set, take, drop, All, get_elem?-eq-get_or, memcpy, memcpy-some, memcpy-none,
  length-memcpy, arith,
}
use beaglebone_black_motion.Config.{Frame, IsFrame, frame_size}
use beaglebone_black_motion.RingBuffer
use beaglebone_black_motion.RingBuffer.{Ring}
use beaglebone_black_motion.RingBuffer.Bounds.{IsValid, in_bounds, write-IsValid}
use beaglebone_black_motion.Framebuffer.{Answers, save_frame}

-- The ring is one that `framebuffer_init` made, and each of its cells has the size of a frame.
pub record IsReady (ring : Ring Frame) : Type 0 where
  pub valid : IsValid 7 ring
  pub sized : All IsFrame ring.cells

-- The frame that a call stores: the bytes that the driver delivered, then what the cell held before.
abbrev pub stored_frame : Answers → Ring Frame → Frame
stored_frame a ring =
    take a.bytesused a.mapped ++ drop a.bytesused (get_or ring.cells ring.write_ptr [])

All-get_or : (xs : List Frame) (i : ℕ) → All IsFrame xs → i < length xs → IsFrame (get_or xs i [])
All-get_or [] i h k = absurd (omega arith)
All-get_or (x ∷ xs) zero h k = h.0
All-get_or (x ∷ xs) (suc i) h k = All-get_or xs i h.1 (omega arith)

All-set :
    (xs : List Frame) (i : ℕ) (f : Frame) → All IsFrame xs → IsFrame f → All IsFrame (set xs i f)
All-set [] i f h k = tt
All-set (x ∷ xs) zero f h k = (k, h.1)
All-set (x ∷ xs) (suc i) f h k = (h.0, All-set xs i f h.1 k)

module _ (a : Answers) (ring : Ring Frame) (v : IsReady ring) where
  pub cell_lem : get_elem? ring.cells ring.write_ptr ≡ some (get_or ring.cells ring.write_ptr [])
  cell_lem = get_elem?-eq-get_or ring.cells ring.write_ptr [] (in_bounds v.valid).0

  cell-IsFrame : IsFrame (get_or ring.cells ring.write_ptr [])
  cell-IsFrame = All-get_or ring.cells ring.write_ptr v.sized (in_bounds v.valid).0

  pub save_frame_full : RingBuffer.is_full ring ≡ true → save_frame a ring ≡ some ring
  unfolding save_frame
  save_frame_full f = rw f

  -- A delivery that is larger than a frame is copied all the same, over the end of the cell.
  pub save_frame-none :
      RingBuffer.is_full ring ≡ false → frame_size < a.bytesused → save_frame a ring ≡ none
  unfolding save_frame
  save_frame-none n h =
      rw (n, cell_lem)
        (rw (
          memcpy-none (get_or ring.cells ring.write_ptr []) a.mapped a.bytesused
            (omega (arith, cell-IsFrame))))

  module _ (h : a.bytesused ≤ frame_size) (k : a.bytesused ≤ length a.mapped) where
    copy_lem :
        memcpy (get_or ring.cells ring.write_ptr []) a.mapped a.bytesused
        ≡ some (stored_frame a ring)
    copy_lem =
        memcpy-some (get_or ring.cells ring.write_ptr []) a.mapped a.bytesused
          (omega (arith, cell-IsFrame)) k

    stored_frame-IsFrame : IsFrame (stored_frame a ring)
    stored_frame-IsFrame =
        length-memcpy (get_or ring.cells ring.write_ptr []) a.mapped a.bytesused copy_lem
        ∙ cell-IsFrame

    pub save_frame-some :
        RingBuffer.is_full ring ≡ false
        → save_frame a ring ≡ some (RingBuffer.write ring (stored_frame a ring))
    unfolding save_frame RingBuffer.write
    save_frame-some n = rw (n, cell_lem) (rw copy_lem)

    pub write-IsReady : IsReady (RingBuffer.write ring (stored_frame a ring))
    unfolding RingBuffer.write
    write-IsReady = record {
      valid = write-IsValid v.valid (stored_frame a ring);
      sized = All-set ring.cells ring.write_ptr (stored_frame a ring) v.sized stored_frame-IsFrame;
    }
