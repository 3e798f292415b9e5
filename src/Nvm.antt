-- ===== src/Nvm.antt =====
-- src/nvm/nvm.c: the task that takes RGB frames from the image buffer and sends them with
-- `image_save`. `none` is a loop of `image_save` that has not ended on its fuel.
pub mod Drain
pub mod Exit
mod Tests
use beaglebone_black_motion.Base.{
  ℕ, Bool, false, Option, none, some, List, [], ◌∷◌, ◌++◌, if◌then◌else◌,
}
use beaglebone_black_motion.Base.Int.{ℤ}
use beaglebone_black_motion.Types.{SysResult, sys_success}
use beaglebone_black_motion.Config.{rgb_frame_size_bytes}
use beaglebone_black_motion.Framebuffer.{is_success}
use beaglebone_black_motion.Image.Buffer.{
  ImageBuffer, imagebuffer_init, imagebuffer_startread, imagebuffer_endread,
}
use beaglebone_black_motion.Image.Send.{Sendto, Datagram, image_save}

-- What the task works on: the image buffer, the static `sockfd` of `image_save`, and `exit_task`.
pub record Nvm : Type 0 where
  pub images : ImageBuffer
  pub sockfd : ℤ
  pub exit_task : Bool

-- What the network answers in one round of the inner loop.
pub record Network : Type 0 where
  pub socket : ℤ
  pub sendto : Sendto

-- `nvm_init`, without the descriptor, which the task does not use.
unfoldable pub nvm_init : Nvm → Nvm
nvm_init n = record n { images = (imagebuffer_init n.images).1 }

-- The body of the `for` of `nvm_task`, with the calls of `sendto`. The result of `image_save` is
-- traced only.
pub save_round : (fuel : ℕ) → Network → Nvm → Option (Nvm × List Datagram)
save_round fuel net n =
    let (found, save_frame) = imagebuffer_startread n.images in
    if is_success found
    then elim save_frame [
      | none ↦ none
      | some frame ↦
          let (sockfd, sent) =
            image_save fuel net.sendto net.socket n.sockfd frame rgb_frame_size_bytes in
          elim sent [
            | none ↦ none
            | some (r, datagrams) ↦
                some (
                  record n { images = (imagebuffer_endread n.images).1; sockfd = sockfd },
                  datagrams,
                )
          ]
    ]
    else some (n, [])

-- The `for (uint8_t i = 0; i < 2; i ++)` of the loop of `nvm_task`.
unfoldable pub turn : (fuel : ℕ) → Network → Network → Nvm → Option (Nvm × List Datagram)
turn fuel net net' n = elim (save_round fuel net n) [
  | none ↦ none
  | some (n', datagrams) ↦ elim (save_round fuel net' n') [
    | none ↦ none
    | some (n'', datagrams') ↦ some (n'', datagrams ++ datagrams')
  ]
]

-- `nvm_exit`
pub nvm_exit : Nvm → Nvm
nvm_exit n = record n { exit_task = Bool.true }

-- `image_close`: the result, the descriptor that is closed, and the new state. `sockfd` keeps its
-- number.
pub image_close : Nvm → SysResult × ℤ × Nvm
image_close n =
    (sys_success, n.sockfd, record n { images = record n.images { initialized = false } })

-- What the task meets in one round of its loop: the two networks, and whether `nvm_exit` runs before
-- the flag is tested.
pub record Round : Type 0 where
  pub net : Network
  pub net' : Network
  pub exits : Bool

-- What a run of the task leaves: the state, the calls of `sendto` and, once it has ended, the
-- descriptor that was closed.
abbrev pub TaskRun : Type 0
TaskRun = Nvm × List Datagram × Option ℤ

abbrev pub after : List Datagram → Option TaskRun → Option TaskRun
after datagrams none = none
after datagrams (some (n, datagrams', closed)) = some (n, datagrams ++ datagrams', closed)

-- The loop of `nvm_task` over the rounds that it meets, and `image_close` at its end.
pub nvm_task : (fuel : ℕ) → List Round → Nvm → Option TaskRun
nvm_task fuel [] n = some (n, [], none)
nvm_task fuel (r ∷ rs) n = elim (turn fuel r.net r.net' n) [
  | none ↦ none
  | some (n', datagrams) ↦
      let n'' = if r.exits then nvm_exit n' else n' in
      let rest = nvm_task fuel rs n'' in
      let (result, closed, ended) = image_close n'' in
      if n''.exit_task then some (ended, datagrams, some closed) else after datagrams rest
]
