-- ===== src/Nvm/Tests.antt =====
-- The witnesses of the streaming task's properties.
use beaglebone_black_motion.Base.{
  refl, true, false, List, [], ◌∷◌, replicate, length-replicate, arith,
}
use beaglebone_black_motion.Base.Int.{pos, negsuc}
use beaglebone_black_motion.Image.Buffer.Refine.{IsReady}
use beaglebone_black_motion.Image.Tests.{blank, one_byte, one_byte-IsSendto}
use beaglebone_black_motion.Nvm.{Nvm, Network, Round, turn, nvm_task}
use beaglebone_black_motion.Nvm.Exit.{Exits, nvm_task-Exits}
use beaglebone_black_motion.Nvm.Drain.{DrainedTwo, turn-DrainedTwo}

-- Two frames wait, and there is no socket yet.
abbrev waiting : Nvm
waiting = record {
  images = record {
    ring = record { cells = replicate 256 blank; size = 256; read_ptr = 255; write_ptr = 1 };
    initialized = false;
  };
  sockfd = negsuc 0;
  exit_task = false;
}

waiting-IsReady : IsReady waiting.images
waiting-IsReady = record {
  small = omega arith;
  pow = refl;
  storage = length-replicate 256 blank;
  read_in = omega arith;
  write_in = omega arith;
}

-- A network with a socket that refuses the third call.
abbrev network : Network
network = record { socket = pos 4; sendto = one_byte }

turn-DrainedTwo_example : DrainedTwo network network waiting (turn 76801 network network waiting)
turn-DrainedTwo_example =
    turn-DrainedTwo 76801 network network waiting one_byte-IsSendto one_byte-IsSendto (omega arith)
      waiting-IsReady

-- The exit is asked for in the second of three rounds.
abbrev three_rounds : List Round
three_rounds =
    record { net = network; net' = network; exits = false }
    ∷ record { net = network; net' = network; exits = true }
    ∷ record { net = network; net' = network; exits = false }
    ∷ []

nvm_task-Exits_example : Exits three_rounds waiting (nvm_task 76801 three_rounds waiting)
nvm_task-Exits_example =
    nvm_task-Exits 76801 three_rounds waiting (omega arith)
      (
        one_byte-IsSendto,
        one_byte-IsSendto,
        (one_byte-IsSendto, one_byte-IsSendto, (one_byte-IsSendto, one_byte-IsSendto, tt)),
      )
      waiting-IsReady refl refl
