-- ===== src/Framebuffer/Setup.antt =====
-- `framebuffer_init`: the driver is asked for buffers, they are mapped and handed to the driver. The
-- process ends (`exit(1)`) where the code says so: `none`.
use beaglebone_black_motion.Base.{
  ℕ, zero, suc, ◌+◌, ◌≤◌, ◌≡◌, ◌⊎◌, refl, Bool, true, false, Option, none, some, List, [], ◌∷◌,
  ◌++◌, set, ltb, if◌then◌else◌, arith, Option-cases, inl, inr,
}
use beaglebone_black_motion.Base.Int.{ℤ}
use beaglebone_black_motion.Types.{SysResult, sys_failure}
use beaglebone_black_motion.Config.{Frame}
use beaglebone_black_motion.RingBuffer
use beaglebone_black_motion.RingBuffer.{Ring}
use beaglebone_black_motion.Framebuffer.{
  Errno, framebuffer_ioctl, framebuffer_queueframe, DriverCall, reqbufs, querybuf, qbuf,
  num_frame_bufs, incoming_ring_size,
}

-- `struct buffer`; the start is an address.
pub record Buffer : Type 0 where
  pub start : ℕ
  pub size : ℕ

-- What the driver answers while a buffer is mapped: the result of `ioctl`, the length of the buffer
-- and the address that `mmap` gives.
pub record Mapping : Type 0 where
  pub queried : ℤ
  pub length : ℕ
  pub address : ℕ

abbrev pub is_failure : SysResult → Bool
is_failure sys_failure = true
is_failure _ = false

-- `framebuffer_requestbuffers(count)`; `granted` is `req.count` after the call.
unfoldable pub framebuffer_requestbuffers :
    Errno → (count : ℕ) → (ret : ℤ) → (granted : ℕ) → Option ℕ
framebuffer_requestbuffers errno count ret granted =
    if is_failure (framebuffer_ioctl errno ret)
    then none
    else if ltb count granted
    then none
    else some granted

-- `framebuffer_mapbuffers`
unfoldable pub framebuffer_mapbuffers : Errno → Mapping → Option Buffer
framebuffer_mapbuffers errno m =
    if is_failure (framebuffer_ioctl errno m.queried)
    then none
    else some (record { start = m.address; size = m.length })

-- The loop over `i < bufCount`, by the rounds that are left.
unfoldable pub map_loop :
    Errno → (ℕ → Mapping) → (rounds i : ℕ) → List Buffer → Option (List Buffer × List DriverCall)
map_loop errno maps zero i buffers = some (buffers, [])
map_loop errno maps (suc n) i buffers = elim (framebuffer_mapbuffers errno (maps i)) [
  | none ↦ none
  | some b ↦ elim (map_loop errno maps n (i + 1) (set buffers i b)) [
    | none ↦ none
    | some (buffers', calls) ↦ some (buffers', querybuf i ∷ calls)
  ]
]

-- `framebuffer_initframebuffers`, by the rounds that are left; its results are ignored.
unfoldable pub framebuffer_initframebuffers : Errno → (ℕ → ℤ) → (rounds i : ℕ) → List DriverCall
framebuffer_initframebuffers errno rets zero i = []
framebuffer_initframebuffers errno rets (suc n) i =
    (framebuffer_queueframe errno i (rets i)).1 ++ framebuffer_initframebuffers errno rets n (i + 1)

-- The static variables of the file that `framebuffer_init` sets.
pub record Framebuffer : Type 0 where
  pub buffers : List Buffer
  pub ring : Ring Frame

-- `framebuffer_init`, with the answers of the driver: to the request, to the mapping of each buffer
-- and to the queueing of each buffer.
unfoldable pub framebuffer_init :
    Errno
    → (ret : ℤ) (granted : ℕ) → (ℕ → Mapping)
    → (ℕ → ℤ)
    → Framebuffer
    → Option (Framebuffer × List DriverCall)
framebuffer_init errno ret granted maps rets s =
    elim (framebuffer_requestbuffers errno num_frame_bufs ret granted) [
      | none ↦ none
      | some count ↦ elim (map_loop errno maps count 0 s.buffers) [
        | none ↦ none
        | some (buffers, calls) ↦ some (
          record { buffers = buffers; ring = RingBuffer.init s.ring.cells incoming_ring_size },
          reqbufs num_frame_bufs ∷ calls
              ++ framebuffer_initframebuffers errno rets num_frame_bufs 0,
        )
      ]
    ]

-- `f i`, `f (i + 1)`, and so on: `n` calls.
abbrev pub calls_from : (ℕ → DriverCall) → (n i : ℕ) → List DriverCall
calls_from f zero i = []
calls_from f (suc n) i = f i ∷ calls_from f n (i + 1)

initframebuffers_calls :
    (errno : Errno) (rets : ℕ → ℤ) (n i : ℕ)
    → framebuffer_initframebuffers errno rets n i ≡ calls_from qbuf n i
unfolding framebuffer_initframebuffers framebuffer_queueframe
initframebuffers_calls errno rets zero i = refl
initframebuffers_calls errno rets (suc n) i =
    ground (arith, initframebuffers_calls errno rets n (i + 1))

-- The loop ends the process, or asks for each of its buffers in turn.
map_loop_calls :
    (errno : Errno) (maps : ℕ → Mapping) (n i : ℕ) (bs : List Buffer)
    → (map_loop errno maps n i bs ≡ none)
      ⊎ ((bs' : List Buffer) × (map_loop errno maps n i bs ≡ some (bs', calls_from querybuf n i)))
unfolding map_loop
map_loop_calls errno maps zero i bs = inr (bs, refl)
map_loop_calls errno maps (suc n) i bs =
    elim (Option-cases (framebuffer_mapbuffers errno (maps i))) [
      | inl e ↦ inl (rw (e, map_loop))
      | inr (b, e) ↦ elim (map_loop_calls errno maps n (i + 1) (set bs i b)) [
        | inl f ↦ inl (rw (e, map_loop) (rw f))
        | inr (bs', f) ↦ inr (bs', rw (e, map_loop) (rw f))
      ]
    ]

-- Where `framebuffer_init` returns, the driver granted at most 32 buffers, so that no entry of the
-- table beyond its end is written; the buffers granted were mapped in order; and all 32 were queued,
-- also those that were not granted.
pub framebuffer_init_calls :
    (errno : Errno) (ret : ℤ) (granted : ℕ) (maps : ℕ → Mapping) (rets : ℕ → ℤ) (s : Framebuffer)
    {s' : Framebuffer} {calls : List DriverCall}
    → framebuffer_init errno ret granted maps rets s ≡ some (s', calls)
    → (granted ≤ num_frame_bufs)
      × (calls
          ≡ reqbufs num_frame_bufs ∷ calls_from querybuf granted 0
            ++ calls_from qbuf num_frame_bufs 0)
      × (s'.ring ≡ RingBuffer.init s.ring.cells incoming_ring_size)
unfolding framebuffer_init framebuffer_requestbuffers
framebuffer_init_calls errno ret granted maps rets s h =
    elim (map_loop_calls errno maps granted 0 s.buffers) [
      | inl e ↦ ground (arith, initframebuffers_calls errno rets num_frame_bufs 0)
      | inr (bs, e) ↦ ground (arith, initframebuffers_calls errno rets num_frame_bufs 0)
    ]
