-- ===== src/Transcoder/Tests.antt =====
-- The witness of the transcoder's property.
use beaglebone_black_motion.Base.{refl, false, replicate, length-replicate, arith}
use beaglebone_black_motion.Framebuffer.Tests.{All-replicate}
use beaglebone_black_motion.Image.Tests.{blank, blank-IsFrame, fresh, fresh-IsReady}
use beaglebone_black_motion.Transcoder.{Transcoder, turn}
use beaglebone_black_motion.Transcoder.Move.{IsReady, Moves, move, turn-Moves}

-- One raw frame waits; the image buffer is empty.
abbrev waiting : Transcoder
waiting = record {
  raw = record { cells = replicate 128 blank; size = 128; read_ptr = 0; write_ptr = 1 };
  images = fresh;
  exit_task = false;
}

waiting-IsReady : IsReady waiting
waiting-IsReady = record {
  raw = record {
    valid = record {
      small = omega arith;
      pow = refl;
      storage = length-replicate 128 blank;
      read_in = omega arith;
      write_in = omega arith;
    };
    sized = All-replicate 128 blank blank-IsFrame;
  };
  images = fresh-IsReady;
}

turn-Moves_example : Moves (λ q. move (move q)) waiting (turn blank blank waiting)
turn-Moves_example = turn-Moves blank blank waiting blank-IsFrame blank-IsFrame waiting-IsReady
