-- ===== src/System/Tests.antt =====
-- Runs of the four tasks, and the witnesses of their properties.
use beaglebone_black_motion.Base.{refl, length, ◌≤◌, ◌*◌, List, [], ◌∷◌, ◌++◌, arith}
use beaglebone_black_motion.Base.Int.{pos, negsuc}
use beaglebone_black_motion.Mqueue.Memory.{memory_queue, memory_queue-IsMqueue}
use beaglebone_black_motion.RingBuffer
use beaglebone_black_motion.Framebuffer.{framebuffer_ioctl}
use beaglebone_black_motion.Framebuffer.Tests.{linux, fresh-IsReady, two_bytes}
use beaglebone_black_motion.Image.Tests
use beaglebone_black_motion.Image.Tests.{blank, blank-IsFrame, one_byte, one_byte-IsSendto}
use beaglebone_black_motion.Detection
use beaglebone_black_motion.Detection.{Sample}
use beaglebone_black_motion.Camera.Follow.{handle_events}
use beaglebone_black_motion.Camera.Tests.{resting}
use beaglebone_black_motion.Nvm.{Network}
use beaglebone_black_motion.System.{Step, detect, film, transcode, stream, System, run}
use beaglebone_black_motion.System.Quiet.{AllLow, IsQuiet, Rested, run-Rested}
use beaglebone_black_motion.System.Passage.{Round, in_turn, IsMotion}
use beaglebone_black_motion.System.Follow.{Paced, Followed, run-Followed}
use beaglebone_black_motion.System.FirstFrame.{Shown, first_frame-Shown}
use beaglebone_black_motion.System.Settle.{steps, IsOver, Settled, cycles-Settled}
use beaglebone_black_motion.Image.Buffer.Refine.{frames}
use beaglebone_black_motion.Pipeline.Drain.{Cycle}
use beaglebone_black_motion.Pipeline.Turns.{underway}
use beaglebone_black_motion.Pipeline.Tests.{filming, filming-IsReady}

abbrev seen : Sample
seen = record { status = 1; now = record { tv_sec = 3; tv_nsec = 0 } }

abbrev unseen : Sample
unseen = record { status = 0; now = record { tv_sec = 2; tv_nsec = 0 } }

abbrev network : Network
network = record { socket = pos 4; sendto = one_byte }

-- The tasks at their start, with an empty message queue.
abbrev started : System (memory_queue 10)
started = record {
  detection = Detection.initial;
  queue = [];
  pipeline = record { camera = resting; images = Tests.fresh; sockfd = negsuc 0 };
}

started-IsQuiet : IsQuiet (memory_queue 10) (memory_queue-IsMqueue 10) started
unfolding RingBuffer.getlen
started-IsQuiet = record {
  detecting = refl;
  flag = refl;
  queue = refl;
  idle = refl;
  ready = record { taking = tt; raw = fresh-IsReady; images = Tests.fresh-IsReady };
  empty = refl;
}

-- The streaming task comes first; the camera gets frames of two bytes all along.
abbrev waits : List Step
waits = stream network network ∷ detect unseen ∷ film two_bytes (pos 0) ∷ transcode blank blank ∷ []

waits-AllLow : AllLow waits
waits-AllLow = (
  (one_byte-IsSendto, one_byte-IsSendto),
  (refl, ((omega arith, omega arith), ((blank-IsFrame, blank-IsFrame), tt))),
)

run-Rested_example :
    Rested
      (memory_queue 10)
      (memory_queue-IsMqueue 10)
      (run (memory_queue 10) linux 76801 waits started)
run-Rested_example =
    run-Rested (memory_queue 10) (memory_queue-IsMqueue 10) linux 76801 waits started (omega arith)
      waits-AllLow started-IsQuiet

abbrev round : Round
round = record {
  sample = seen;
  answers = two_bytes;
  off = pos 0;
  rgb_frame = blank;
  rgb_frame' = blank;
  net = network;
  net' = network;
}

round-IsMotion : IsMotion linux round
unfolding framebuffer_ioctl
round-IsMotion = record {
  high = omega arith;
  delivered = refl;
  film = (omega arith, omega arith);
  transcode = (blank-IsFrame, blank-IsFrame);
  stream = (one_byte-IsSendto, one_byte-IsSendto);
}

first_frame-Shown_example :
    Shown
      (memory_queue 10)
      (memory_queue-IsMqueue 10)
      round
      (run (memory_queue 10) linux 76801 (waits ++ in_turn round) started)
first_frame-Shown_example =
    first_frame-Shown (memory_queue 10) (memory_queue-IsMqueue 10) linux 76801 waits round started
      (omega arith) waits-AllLow round-IsMotion started-IsQuiet

-- Motion, then none, before the camera task gets a turn.
abbrev mixed : List Step
mixed =
    detect seen
    ∷ stream network network
    ∷ detect unseen
    ∷ film two_bytes (pos 0)
    ∷ transcode blank blank
    ∷ detect unseen
    ∷ []

mixed-Paced : Paced 0 mixed
mixed-Paced = (
  omega arith,
  (
    (one_byte-IsSendto, one_byte-IsSendto),
    (
      omega arith,
      ((omega arith, omega arith), ((blank-IsFrame, blank-IsFrame), (omega arith, tt))),
    ),
  ),
)

run-Followed_example :
    Followed
      (memory_queue 10)
      (memory_queue-IsMqueue 10)
      (run (memory_queue 10) linux 76801 mixed started)
run-Followed_example =
    run-Followed (memory_queue 10) (memory_queue-IsMqueue 10) linux 76801 mixed started
      (omega arith) mixed-Paced started-IsQuiet

-- The motion is over, and two frames wait in the image buffer.
abbrev over : System (memory_queue 10)
over = record { detection = Detection.initial; queue = []; pipeline = filming }

over-IsOver : IsOver (memory_queue 10) (memory_queue-IsMqueue 10) over
unfolding handle_events
over-IsOver = record {
  detecting = refl;
  flag = refl;
  queue = refl;
  follows = refl;
  ready = filming-IsReady;
}

abbrev cycle : Cycle
cycle = record { rgb_frame = blank; rgb_frame' = blank; net = network; net' = network }

over-images : length (frames over.pipeline.images) ≤ 253
unfolding RingBuffer.getlen
over-images = omega arith

over-underway : length (underway over.pipeline) ≤ 2 * 1
unfolding RingBuffer.getlen
over-underway = omega arith

cycles-Settled_example :
    Settled
      (memory_queue 10)
      (memory_queue-IsMqueue 10)
      (cycle ∷ [])
      over
      (run (memory_queue 10) linux 76801 (steps (cycle ∷ [])) over)
cycles-Settled_example =
    cycles-Settled (memory_queue 10) (memory_queue-IsMqueue 10) linux 76801 (cycle ∷ []) over
      (omega arith) ((blank-IsFrame, blank-IsFrame), (one_byte-IsSendto, one_byte-IsSendto), tt)
      over-IsOver over-images over-underway
