-- ===== src/Main/End.antt =====
-- The end of `main` where the layer is not initialised.
use beaglebone_black_motion.Base.{◌≡◌, refl, false, Bool, ℕ, some, List, ◌∷◌, map, length}
use beaglebone_black_motion.Base.Int.{ℤ}
use beaglebone_black_motion.Framebuffer.{num_frame_bufs}
use beaglebone_black_motion.Framebuffer.Setup.{Buffer}
use beaglebone_black_motion.Framebuffer.Teardown.{closes, unmaps, framebuffer_deinit_lem}
use beaglebone_black_motion.Osal.{Osal}
use beaglebone_black_motion.Osal.Life.{osal_deinit}
use beaglebone_black_motion.Main.{ends, finish}

-- Without a layer to end, `main` closes the camera, unmaps its 32 buffers, touches no thread and
-- returns 0.
pub finish_lem :
    (created : ℕ → Bool) (fd : ℤ) (buffers : List Buffer) (o : Osal)
    → length buffers ≡ num_frame_bufs
    → o.os_initialized ≡ false
    → finish created fd buffers o ≡ some (ends 0, closes fd ∷ map unmaps buffers)
unfolding finish osal_deinit
finish_lem created fd buffers o h down =
    rw (finish, framebuffer_deinit_lem fd buffers h) (rw down refl)
