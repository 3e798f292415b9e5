-- ===== src/Image/Buffer/Refine.antt =====
-- The image buffer is a queue of at most 255 frames.
use beaglebone_black_motion.Base.{
  ℕ, ◌≡◌, refl, ap, ◌∙◌, true, false, none, some, List, [], ◌∷◌, ◌++◌, length, ◌==◌, if◌then◌else◌,
  arith, Bool-cases, inl, inr,
}
use beaglebone_black_motion.Types.{sys_success, sys_failure, sys_ignore}
use beaglebone_black_motion.Config.{Frame}
use beaglebone_black_motion.RingBuffer
use beaglebone_black_motion.RingBuffer.{Ring}
use beaglebone_black_motion.RingBuffer.Bounds.{
  IsValid, init-IsValid, write-IsValid, inc_readptr-IsValid,
}
use beaglebone_black_motion.RingBuffer.Refine.{
  contents, span, length-contents, is_empty_lem, is_full_lem, read_refines, write_refines,
  contents-init,
}
use beaglebone_black_motion.Image.Buffer.{
  ImageBuffer, image_ring_size, imagebuffer_init, imagebuffer_startread, imagebuffer_endread,
  imagebuffer_write, Op, startread, endread, write, Reply, call, calls,
}

-- The specification: the frames, oldest first.
abbrev pub FrameQueue : Type 0
FrameQueue = List Frame

abbrev pub queue_capacity : ℕ
queue_capacity = 255

unfoldable pub queue_call : Op → FrameQueue → Reply × FrameQueue
queue_call startread [] = ((sys_ignore, none), [])
queue_call startread (f ∷ q) = ((sys_success, some f), f ∷ q)
queue_call endread [] = ((sys_ignore, none), [])
queue_call endread (f ∷ q) = ((sys_success, none), q)
queue_call (write f) q =
    if length q == queue_capacity
    then ((sys_failure, none), q)
    else ((sys_success, none), q ++ (f ∷ []))

pub queue_calls : List Op → FrameQueue → List Reply × FrameQueue
unfolding queue_call
queue_calls [] q = ([], q)
queue_calls (op ∷ ops) q =
    let (r, q') = queue_call op q in let (rs, q'') = queue_calls ops q' in (r ∷ rs, q'')

-- The frames that the buffer holds. The empty frame stands for a read outside of the storage, which
-- a valid ring does not make.
abbrev pub frames : ImageBuffer → FrameQueue
frames b = contents [] b.ring

-- The ring of the buffer is one that `imagebuffer_init` made.
abbrev pub IsReady : ImageBuffer → Type 0
IsReady b = IsValid 8 b.ring

pub frames_empty : (b : ImageBuffer) → IsReady b → RingBuffer.is_empty b.ring ≡ true → frames b ≡ []
frames_empty b v h = ap (span [] b.ring.cells b.ring.size b.ring.read_ptr) empty
  where
    empty : RingBuffer.getlen b.ring ≡ 0
    empty = ground (arith, is_empty_lem [] v)

startread_refines :
    (b : ImageBuffer)
    → IsReady b
    → (imagebuffer_startread b, frames b) ≡ queue_call startread (frames b)
unfolding imagebuffer_startread queue_call
startread_refines b v = elim (Bool-cases (RingBuffer.is_empty b.ring)) [
  | inl e ↦ rw (e, frames_empty b v e)
  | inr e ↦ let (x, r, q) = read_refines [] v e in rw (e, r, q)
]

pub endread_refines :
    (b : ImageBuffer)
    → IsReady b
    → let (r, b') = imagebuffer_endread b in
      IsReady b' × (((r, none), frames b') ≡ queue_call endread (frames b))
unfolding imagebuffer_endread queue_call
endread_refines b v = elim (Bool-cases (RingBuffer.is_empty b.ring)) [
  | inl e ↦ rw e (v, rw (frames_empty b v e))
  | inr e ↦ let (x, r, q) = read_refines [] v e in rw e (inc_readptr-IsValid v, rw q)
]

full_iff :
    (b : ImageBuffer)
    → IsReady b
    → RingBuffer.is_full b.ring ≡ (length (frames b) == queue_capacity)
full_iff b v = ground (arith, is_full_lem [] v, length-contents [] v, v.pow)

write_buffer_refines :
    (f : Frame) (b : ImageBuffer)
    → IsReady b
    → let (r, b') = imagebuffer_write f b in
      IsReady b' × (((r, none), frames b') ≡ queue_call (write f) (frames b))
unfolding imagebuffer_write queue_call
write_buffer_refines f b v = elim (Bool-cases (RingBuffer.is_full b.ring)) [
  | inl e ↦ rw (← full_iff b v, e) (v, refl)
  | inr e ↦ rw (← full_iff b v, e) (write-IsValid v f, rw (write_refines [] f v e))
]

pub call_refines :
    (op : Op) (b : ImageBuffer)
    → IsReady b
    → IsReady (call op b).1 × (((call op b).0, frames (call op b).1) ≡ queue_call op (frames b))
unfolding call
call_refines startread b v = (v, startread_refines b v)
call_refines endread b v = endread_refines b v
call_refines (write f) b v = write_buffer_refines f b v

-- No sequence of calls tells a ready buffer from a queue of at most 255 frames: each call returns
-- what it returns on the queue, and the buffer holds the queue's frames at the end.
pub calls_refine :
    (ops : List Op) (b : ImageBuffer)
    → IsReady b
    → let (rs, b') = calls ops b in (rs, frames b') ≡ queue_calls ops (frames b)
unfolding calls queue_calls
calls_refine [] b v = refl
calls_refine (op ∷ ops) b v =
    let (v', e) = call_refines op b v in
    rw (← e) (
      ap (λ (p : List Reply × FrameQueue). ((call op b).0 ∷ p.0, p.1))
        (calls_refine ops (call op b).1 v'))

-- A call leaves the flag `imagebuffer_initialized` alone, and a ready buffer ready.
call-initialized : (op : Op) (b : ImageBuffer) → (call op b).1.initialized ≡ b.initialized
unfolding call imagebuffer_endread imagebuffer_write
call-initialized startread b = refl
call-initialized endread b = ground arith
call-initialized (write f) b = ground arith

calls-initialized : (ops : List Op) (b : ImageBuffer) → (calls ops b).1.initialized ≡ b.initialized
unfolding calls
calls-initialized [] b = refl
calls-initialized (op ∷ ops) b = calls-initialized ops (call op b).1 ∙ call-initialized op b

calls-IsReady : (ops : List Op) (b : ImageBuffer) → IsReady b → IsReady (calls ops b).1
unfolding calls
calls-IsReady [] b v = v
calls-IsReady (op ∷ ops) b v = calls-IsReady ops (call op b).1 (call_refines op b v).0

-- What `imagebuffer_init` makes of a buffer whose flag is down: an empty one, with the flag down.
init-fresh :
    (b : ImageBuffer)
    → b.initialized ≡ false
    → length b.ring.cells ≡ image_ring_size
    → let b' = (imagebuffer_init b).1 in (b'.initialized ≡ false) × IsReady b' × (frames b' ≡ [])
unfolding imagebuffer_init
init-fresh b f h = rw f (
  refl,
  init-IsValid 8 b.ring.cells (omega arith) h,
  contents-init [] 8 b.ring.cells (omega arith) h,
)

-- `imagebuffer_init` empties the buffer whenever it is called, a second time too, whatever calls came
-- between: no function raises the flag that is to prevent that.
pub imagebuffer_init_again :
    (ops : List Op) (b : ImageBuffer)
    → b.initialized ≡ false
    → length b.ring.cells ≡ image_ring_size
    → let b' = (calls ops (imagebuffer_init b).1).1 in
      let b'' = (imagebuffer_init b').1 in
      (b'.initialized ≡ false) × IsReady b'' × (frames b'' ≡ [])
imagebuffer_init_again ops b f h =
    let (f1, v1, e1) = init-fresh b f h in
    let b' = (calls ops (imagebuffer_init b).1).1 in
    let v = calls-IsReady ops (imagebuffer_init b).1 v1 in
    let f' = calls-initialized ops (imagebuffer_init b).1 ∙ f1 in
    let (f2, v2, e2) = init-fresh b' f' (v.storage ∙ v.pow) in (f', v2, e2)
