-- ===== src/Image/Send.antt =====
-- middleware/image/image.c: `image_save` of the build with `STREAM_TO_SERVER`, which sends a frame
-- over UDP in pieces of at most 1024 bytes.
pub mod Complete
use beaglebone_black_motion.Base.{
  ℕ, zero, suc, ◌+◌, ◌-◌, Bool, true, false, Option, none, some, List, [], ◌∷◌, take, drop, ltb,
  leb, min, if◌then◌else◌,
}
use beaglebone_black_motion.Base.Int.{ℤ, pos, negsuc}
use beaglebone_black_motion.Types.{SysResult, sys_success, sys_failure, sub32}
use beaglebone_black_motion.Config.{Frame}

-- The largest piece, the bound of `CLAMP_UPPER(sizeBuf, 1024)`.
abbrev pub max_piece : ℕ
max_piece = 1024

-- The operating system's `sendto`: what the `k`th call returns for a datagram of that many bytes.
abbrev pub Sendto : Type 0
Sendto = ℕ → ℕ → ℤ

-- A call of `sendto`: the bytes handed over and what it returned.
pub record Datagram : Type 0 where
  pub payload : Frame
  pub sent : ℤ

-- The call of `sendto` in the loop: `sizeBuf` bytes from `buf + wBytes`, after the clamp.
abbrev pub datagram : Sendto → ℕ → Frame → ℕ → ℕ → Datagram
datagram sendto k buf w_bytes size_buf =
    let piece = min size_buf max_piece in
    record { payload = take piece (drop w_bytes buf); sent = sendto k piece }

-- What a finished loop returns, with one more call in front.
abbrev pub after :
    Datagram → Option (SysResult × List Datagram) → Option (SysResult × List Datagram)
after d none = none
after d (some (r, ds)) = some (r, d ∷ ds)

-- The `do … while (wBytes < size)` loop, on fuel: `none` is a loop that has not ended. The loop is
-- entered with `k` calls made, `w_bytes` bytes sent and `size_buf` in `sizeBuf`. A size below 2 ^ 31
-- keeps the signed variables of the code from turning negative.
pub send_loop :
    (fuel : ℕ)
    → Sendto
    → (k : ℕ) → Frame
    → (size w_bytes size_buf : ℕ) → Option (SysResult × List Datagram)
send_loop zero sendto k buf size w_bytes size_buf = none
send_loop (suc fuel) sendto k buf size w_bytes size_buf =
    let d = datagram sendto k buf w_bytes size_buf in
    elim (d.sent) [
      | negsuc e ↦ some (sys_failure, d ∷ [])
      | pos n ↦ elim (ltb (w_bytes + n) size) [
        | true ↦
            after d
              (send_loop fuel sendto (suc k) buf size (w_bytes + n) (sub32 size (w_bytes + n)))
        | false ↦ some (sys_success, d ∷ [])
      ]
    ]

-- The static `sockfd`; -1 is the value before the first call.
abbrev pub no_socket : ℤ
no_socket = negsuc 0

abbrev pub is_no_socket : ℤ → Bool
is_no_socket (negsuc zero) = true
is_no_socket _ = false

-- The first part of `image_save`: the socket is made if there is none. `socket` is what the operating
-- system's `socket` returns; `none` is the return with `SYS_FAILURE`.
abbrev pub open_socket : (sockfd socket : ℤ) → ℤ × Bool
open_socket sockfd socket =
    if is_no_socket sockfd
    then elim socket [ pos n ↦ (pos n, true) | negsuc n ↦ (negsuc n, false) ]
    else (sockfd, true)

-- `image_save`: the new `sockfd`, and what the call returns with the calls of `sendto` that it makes.
unfoldable pub image_save :
    (fuel : ℕ)
    → Sendto
    → (socket sockfd : ℤ) → Frame
    → (size : ℕ) → ℤ × Option (SysResult × List Datagram)
unfolding send_loop
image_save fuel sendto socket sockfd buf size =
    let (fd, is_open) = open_socket sockfd socket in
    (fd, if is_open then send_loop fuel sendto 0 buf size 0 size else some (sys_failure, []))
