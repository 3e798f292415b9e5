-- ===== src/Pipeline.antt =====
-- The way of a frame: the camera task (src/camera/camera.c) fills the ring of raw frames, the
-- transcoder task (src/transcoder/transcoder.c) moves them to the image buffer, and the streaming
-- task (src/nvm/nvm.c) sends them. The three share the two rings; a step is one turn of one task.
pub mod Passed
pub mod Turns
pub mod Order
pub mod Drain
pub mod Tests
use beaglebone_black_motion.Base.{ℕ, false, Option, none, some, List, [], ◌∷◌, ◌++◌}
use beaglebone_black_motion.Base.Int.{ℤ}
use beaglebone_black_motion.Config.{Frame}
use beaglebone_black_motion.Framebuffer.{Errno}
use beaglebone_black_motion.Image.Buffer.{ImageBuffer}
use beaglebone_black_motion.Image.Send.{Datagram}
use beaglebone_black_motion.Camera
use beaglebone_black_motion.Camera.{Camera, Inputs}
use beaglebone_black_motion.Transcoder
use beaglebone_black_motion.Nvm
use beaglebone_black_motion.Nvm.{Network}

-- The camera with the ring of raw frames, the image buffer, and the socket of `image_save`.
pub record Pipeline : Type 0 where
  pub camera : Camera
  pub images : ImageBuffer
  pub sockfd : ℤ

-- A turn of one of the tasks, with what it meets: the driver's answers, what the local frames of the
-- transcoder hold, the network's answers.
pub data Step : Type 0 where
  film : Inputs → Step
  transcode : Frame → Frame → Step
  stream : Network → Network → Step

-- What a step or a run leaves, with the calls of `sendto`.
abbrev pub Outcome : Type 0
Outcome = Pipeline × List Datagram

abbrev pub transcoder : Pipeline → Transcoder.Transcoder
transcoder p = record { raw = p.camera.ring; images = p.images; exit_task = false }

abbrev pub nvm : Pipeline → Nvm.Nvm
nvm p = record { images = p.images; sockfd = p.sockfd; exit_task = false }

pub step : Errno → (fuel : ℕ) → Step → Pipeline → Option Outcome
step errno fuel (film i) p = elim (Camera.turn errno i p.camera) [
  | none ↦ none
  | some (c, calls, streams) ↦ some (record p { camera = c }, [])
]
step errno fuel (transcode rgb_frame rgb_frame') p =
    elim (Transcoder.turn rgb_frame rgb_frame' (transcoder p)) [
      | none ↦ none
      | some t ↦
          some (record p { camera = record p.camera { ring = t.raw }; images = t.images }, [])
    ]
step errno fuel (stream net net') p = elim (Nvm.turn fuel net net' (nvm p)) [
  | none ↦ none
  | some (n, datagrams) ↦ some (record p { images = n.images; sockfd = n.sockfd }, datagrams)
]

unfoldable pub run : Errno → (fuel : ℕ) → List Step → Pipeline → Option Outcome
run errno fuel [] p = some (p, [])
run errno fuel (s ∷ ss) p = elim (step errno fuel s p) [
  | none ↦ none
  | some (p', datagrams) ↦ elim (run errno fuel ss p') [
    | none ↦ none
    | some (p'', datagrams') ↦ some (p'', datagrams ++ datagrams')
  ]
]
