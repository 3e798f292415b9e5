-- ===== src/Framebuffer/Tests.antt =====
-- Runs of the framebuffer functions, and the witnesses of their properties.
use beaglebone_black_motion.Base.{
  ℕ, zero, suc, ◌+◌, ◌≤◌, ◌≡◌, refl, true, some, List, [], ◌∷◌, ◌++◌, replicate, length-replicate,
  All, arith,
}
use beaglebone_black_motion.Base.Int.{pos}
use beaglebone_black_motion.Types.{sys_ignore, sys_failure}
use beaglebone_black_motion.Config.{Frame, IsFrame, frame_size}
use beaglebone_black_motion.RingBuffer
use beaglebone_black_motion.RingBuffer.{Ring}
use beaglebone_black_motion.RingBuffer.Bounds.{init-IsValid}
use beaglebone_black_motion.RingBuffer.Refine.{contents}
use beaglebone_black_motion.Framebuffer.{
  Errno, Answers, DriverCall, reqbufs, querybuf, qbuf, num_frame_bufs, incoming_ring_size,
  framebuffer_ioctl, framebuffer_queueframe, framebuffer_writeframe, framebuffer_getframe,
  framebuffer_getframe_ptr, framebuffer_freeframe,
}
use beaglebone_black_motion.Framebuffer.Save.{IsReady}
use beaglebone_black_motion.Framebuffer.Write.{Written, framebuffer_writeframe-Written}
use beaglebone_black_motion.Framebuffer.Read.{pop, reply, framebuffer_reads}
use beaglebone_black_motion.Framebuffer.Setup.{
  Framebuffer, Mapping, framebuffer_requestbuffers, map_loop, framebuffer_mapbuffers,
  framebuffer_initframebuffers, framebuffer_init, calls_from, framebuffer_init_calls,
}

-- The error numbers of Linux.
abbrev pub linux : Errno
linux = record { eagain = 11; epipe = 32 }

-- A frame of zeros.
abbrev pub blank : Frame
blank = replicate frame_size 0

pub All-replicate : (n : ℕ) (f : Frame) → IsFrame f → All IsFrame (replicate n f)
All-replicate zero f h = tt
All-replicate (suc n) f h = (h, All-replicate n f h)

-- The ring that `framebuffer_init` makes.
abbrev pub fresh : Ring Frame
fresh = record { cells = replicate 128 blank; size = 128; read_ptr = 0; write_ptr = 0 }

pub fresh-IsReady : IsReady fresh
unfolding RingBuffer.init
fresh-IsReady = record {
  valid = init-IsValid 7 (replicate 128 blank) (omega arith) (length-replicate 128 blank);
  sized = All-replicate 128 blank (length-replicate {A = ℕ} frame_size 0);
}

-- The driver delivers two bytes in its buffer 5.
abbrev pub two_bytes : Answers
two_bytes = record {
  selected = pos 1;
  dequeued = pos 0;
  index = 5;
  bytesused = 2;
  mapped = 7 ∷ 8 ∷ [];
  queued = pos 0;
}

framebuffer_writeframe-Written_example :
    Written linux two_bytes true fresh (framebuffer_writeframe linux two_bytes true fresh)
framebuffer_writeframe-Written_example =
    framebuffer_writeframe-Written linux two_bytes fresh fresh-IsReady (omega arith) (omega arith)
      true

framebuffer_reads_example :
    let q = contents [] fresh in
    (framebuffer_getframe_ptr fresh ≡ (reply sys_ignore q, (pop q).0))
    × ((framebuffer_freeframe fresh).0 ≡ reply sys_failure q)
    × (contents [] (framebuffer_freeframe fresh).1 ≡ (pop q).1)
    × IsReady (framebuffer_freeframe fresh).1
    × (framebuffer_getframe fresh
        ≡ (reply sys_ignore q, (pop q).0, (framebuffer_freeframe fresh).1))
framebuffer_reads_example = framebuffer_reads fresh fresh-IsReady

-- The driver grants two buffers and maps each where it is asked to.
abbrev mapping : ℕ → Mapping
mapping i = record { queried = pos 0; length = 153600; address = 4096 + i }

abbrev unset : Framebuffer
unset = record { buffers = replicate 32 (record { start = 0; size = 0 }); ring = fresh }

abbrev set_up : Framebuffer
set_up = record {
  buffers =
      record { start = 4096; size = 153600 }
      ∷ record { start = 4097; size = 153600 }
      ∷ replicate 30 (record { start = 0; size = 0 });
  ring = RingBuffer.init fresh.cells incoming_ring_size;
}

abbrev init_calls : List DriverCall
init_calls = reqbufs 32 ∷ querybuf 0 ∷ querybuf 1 ∷ calls_from qbuf 32 0

init_returns :
    framebuffer_init linux (pos 0) 2 mapping (λ i. pos 0) unset ≡ some (set_up, init_calls)
unfolding framebuffer_init framebuffer_requestbuffers framebuffer_ioctl map_loop
    framebuffer_mapbuffers framebuffer_initframebuffers framebuffer_queueframe
init_returns = refl

framebuffer_init_calls_example :
    (2 ≤ num_frame_bufs)
    × (init_calls
        ≡ reqbufs num_frame_bufs ∷ calls_from querybuf 2 0 ++ calls_from qbuf num_frame_bufs 0)
    × (set_up.ring ≡ RingBuffer.init unset.ring.cells incoming_ring_size)
framebuffer_init_calls_example =
    framebuffer_init_calls linux (pos 0) 2 mapping (λ i. pos 0) unset init_returns
