-- ===== src/Pipeline/Tests.antt =====
-- Runs of the three tasks, and the witnesses of their properties.
use beaglebone_black_motion.Base.{refl, List, [], ◌∷◌, replicate, length-replicate, false, arith}
use beaglebone_black_motion.Base.Int.{pos, negsuc}
use beaglebone_black_motion.Framebuffer.Tests.{linux, fresh-IsReady}
use beaglebone_black_motion.Image.Tests.{blank, blank-IsFrame, one_byte, one_byte-IsSendto}
use beaglebone_black_motion.Image.Buffer.{ImageBuffer}
use beaglebone_black_motion.Camera.Tests.{resting, motion}
use beaglebone_black_motion.Nvm.{Network}
use beaglebone_black_motion.Pipeline.{Pipeline, Step, film, transcode, stream, run}
use beaglebone_black_motion.Pipeline.Turns.{IsReady, AllFair}
use beaglebone_black_motion.Pipeline.Order.{Ran, run-Ran}

-- Two frames wait in the image buffer, and there is no socket yet.
abbrev two_images : ImageBuffer
two_images = record {
  ring = record { cells = replicate 256 blank; size = 256; read_ptr = 255; write_ptr = 1 };
  initialized = false;
}

abbrev pub filming : Pipeline
filming = record { camera = resting; images = two_images; sockfd = negsuc 0 }

pub filming-IsReady : IsReady filming
filming-IsReady = record {
  taking = tt;
  raw = fresh-IsReady;
  images = record {
    small = omega arith;
    pow = refl;
    storage = length-replicate 256 blank;
    read_in = omega arith;
    write_in = omega arith;
  };
}

-- A network with a socket that refuses the third call.
abbrev network : Network
network = record { socket = pos 4; sendto = one_byte }

-- The streaming task comes before the camera, and the transcoder after both.
abbrev turns : List Step
turns = stream network network ∷ film motion ∷ transcode blank blank ∷ film motion ∷ []

turns-AllFair : AllFair turns
turns-AllFair = (
  (one_byte-IsSendto, one_byte-IsSendto),
  ((omega arith, omega arith), ((blank-IsFrame, blank-IsFrame), ((omega arith, omega arith), tt))),
)

run-Ran_example : Ran linux 76801 turns filming (run linux 76801 turns filming)
run-Ran_example = run-Ran linux 76801 turns filming (omega arith) turns-AllFair filming-IsReady
