-- ===== src/Framebuffer/Read.antt =====
-- The reading side of the ring of raw frames, on its queue.
use beaglebone_black_motion.Base.{
  ◌≡◌, ap, true, Option, none, some, List, [], ◌∷◌, drop, refl, arith, Bool-cases, inl, inr,
}
use beaglebone_black_motion.Types.{SysResult, sys_success, sys_failure, sys_ignore}
use beaglebone_black_motion.Config.{Frame}
use beaglebone_black_motion.RingBuffer
use beaglebone_black_motion.RingBuffer.{Ring}
use beaglebone_black_motion.RingBuffer.Bounds.{inc_readptr-IsValid}
use beaglebone_black_motion.RingBuffer.Refine.{contents, span, is_empty_lem, read_refines}
use beaglebone_black_motion.Framebuffer.{
  framebuffer_getframe, framebuffer_getframe_ptr, framebuffer_freeframe,
}
use beaglebone_black_motion.Framebuffer.Save.{IsReady}

-- Taking the oldest frame off a queue.
abbrev pub pop : List Frame → Option Frame × List Frame
pop [] = (none, [])
pop (f ∷ q) = (some f, q)

pub pop_two : (q : List Frame) → (pop (pop q).1).1 ≡ drop 2 q
pop_two [] = refl
pop_two (f ∷ []) = refl
pop_two (f ∷ g ∷ q) = refl

-- The code that a call returns for a queue, where an empty one gives `empty`.
abbrev pub reply : SysResult → List Frame → SysResult
reply empty [] = empty
reply empty (f ∷ q) = sys_success

pub contents_of_empty :
    (ring : Ring Frame) → IsReady ring → RingBuffer.is_empty ring ≡ true → contents [] ring ≡ []
contents_of_empty ring v h = ap (span [] ring.cells ring.size ring.read_ptr) empty
  where
    empty : RingBuffer.getlen ring ≡ 0
    empty = ground (arith, is_empty_lem [] v.valid)

pub freed-IsReady : (ring : Ring Frame) → IsReady ring → IsReady (RingBuffer.inc_readptr ring)
unfolding RingBuffer.inc_readptr
freed-IsReady ring v = record { valid = inc_readptr-IsValid v.valid; sized = v.sized }

-- On a ready ring `framebuffer_getframe_ptr` gives the oldest frame and leaves it in the queue,
-- `framebuffer_freeframe` drops it, and `framebuffer_getframe` does both; on an empty queue the first
-- and the last return "ignore" and the second a failure, and nothing changes. The ring stays ready.
pub framebuffer_reads :
    (ring : Ring Frame)
    → IsReady ring
    → let q = contents [] ring in
      (framebuffer_getframe_ptr ring ≡ (reply sys_ignore q, (pop q).0))
      × ((framebuffer_freeframe ring).0 ≡ reply sys_failure q)
      × (contents [] (framebuffer_freeframe ring).1 ≡ (pop q).1)
      × IsReady (framebuffer_freeframe ring).1
      × (framebuffer_getframe ring
          ≡ (reply sys_ignore q, (pop q).0, (framebuffer_freeframe ring).1))
unfolding framebuffer_getframe_ptr framebuffer_freeframe framebuffer_getframe RingBuffer.read
framebuffer_reads ring v = elim (Bool-cases (RingBuffer.is_empty ring)) [
  | inl e ↦ rw e (
    rw (contents_of_empty ring v e),
    rw (contents_of_empty ring v e),
    rw (contents_of_empty ring v e),
    v,
    rw (contents_of_empty ring v e),
  )
  | inr e ↦
      let (x, r, q) = read_refines [] v.valid e in
      rw e (rw (q, r), rw q, rw q, freed-IsReady ring v, rw (q, r))
]
