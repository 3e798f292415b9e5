-- ===== src/Transcoder/Move.antt =====
-- What the transcoder does on the queues that its two rings stand for.
use beaglebone_black_motion.Base.{
  ℕ, zero, suc, ◌≡◌, refl, ap, ◌∙◌, Option, some, some-injective, subst, sym, List, [], ◌∷◌,
  get_elem?, All, arith, Bool-cases, inl, inr,
}
use beaglebone_black_motion.Config.{Frame, IsFrame}
use beaglebone_black_motion.RingBuffer
use beaglebone_black_motion.RingBuffer.{Ring}
use beaglebone_black_motion.RingBuffer.Refine.{contents, read_refines}
use beaglebone_black_motion.Framebuffer.{framebuffer_getframe_ptr, framebuffer_freeframe}
use beaglebone_black_motion.Framebuffer.Save
use beaglebone_black_motion.Framebuffer.Read.{contents_of_empty, freed-IsReady}
use beaglebone_black_motion.Image.Buffer.{call, write, imagebuffer_write, Reply}
use beaglebone_black_motion.Image.Buffer.Refine
use beaglebone_black_motion.Image.Buffer.Refine.{FrameQueue, queue_call, call_refines, frames}
use beaglebone_black_motion.Image.Convert.Bounds.{image_convert_camera}
use beaglebone_black_motion.Transcoder.{Transcoder, process_frames, turn}

-- Both rings are ready.
pub record IsReady (t : Transcoder) : Type 0 where
  pub raw : Save.IsReady t.raw
  pub images : Refine.IsReady t.images

-- The two queues, raw frames first.
abbrev pub Queues : Type 0
Queues = List Frame × FrameQueue

abbrev pub queues : Transcoder → Queues
queues t = (contents [] t.raw, frames t.images)

-- The specification: the oldest raw frame moves to the image queue, which drops it when full.
unfoldable pub move : Queues → Queues
move ([], q) = ([], q)
move (f ∷ fs, q) = (fs, (queue_call (write f) q).1)

-- A call that is defined, leaves both rings ready and `exit_task` as it was, and does `spec` on the
-- queues.
pub record Moves (spec : Queues → Queues) (t : Transcoder) (out : Option Transcoder) : Type 0 where
  pub after : Transcoder
  pub ended : out ≡ some after
  pub ready : IsReady after
  pub moved : queues after ≡ spec (queues t)
  pub flag : after.exit_task ≡ t.exit_task

All-get_elem? :
    (xs : List Frame) (i : ℕ) (x : Frame) → All IsFrame xs → get_elem? xs i ≡ some x → IsFrame x
All-get_elem? [] i x h e = ground arith
All-get_elem? (y ∷ ys) zero x h e = subst IsFrame (some-injective y x e) h.0
All-get_elem? (y ∷ ys) (suc i) x h e = All-get_elem? ys i x h.1 e

-- The frame that the ring gives has the size of a frame.
read_zc-IsFrame :
    (ring : Ring Frame) (x : Frame)
    → Save.IsReady ring
    → RingBuffer.read_zc ring ≡ some x
    → IsFrame x
unfolding RingBuffer.read_zc
read_zc-IsFrame ring x v e = All-get_elem? ring.cells ring.read_ptr x v.sized e

process_frames-Moves :
    (rgb_frame : Frame) (t : Transcoder)
    → IsFrame rgb_frame
    → IsReady t
    → Moves move t (process_frames rgb_frame t)
unfolding process_frames move framebuffer_getframe_ptr framebuffer_freeframe call
process_frames-Moves rgb_frame t h v = elim (Bool-cases (RingBuffer.is_empty t.raw)) [
  | inl e ↦ record {
    after = t;
    ended = rw e;
    ready = v;
    moved = rw (contents_of_empty t.raw v.raw e);
    flag = refl;
  }
  | inr e ↦
      let (x, r, q) = read_refines [] v.raw.valid e in
      let (ready, same) = call_refines (write x) t.images v.images in
      record {
        after = record t {
          raw = RingBuffer.inc_readptr t.raw;
          images = (imagebuffer_write x t.images).1;
        };
        ended =
            rw (e, r)
              (rw (image_convert_camera x rgb_frame (read_zc-IsFrame t.raw x v.raw r) h)
                (rw (framebuffer_freeframe, e)));
        ready = record { raw = freed-IsReady t.raw v.raw; images = ready };
        moved =
            ap (λ (b : FrameQueue). (contents [] (RingBuffer.inc_readptr t.raw), b))
              (ap (λ (p : Reply × FrameQueue). p.1) same)
            ∙ ap (λ (c : List Frame). move (c, frames t.images)) (sym q);
        flag = refl;
      }
]

-- On ready rings one turn of the transcoder is defined, whatever its local frames hold, keeps the
-- rings ready, and moves the two oldest raw frames, or those that there are, to the image queue in
-- order and unchanged; the image queue drops what it has no room for. `exit_task` stays.
pub turn-Moves :
    (rgb_frame rgb_frame' : Frame) (t : Transcoder)
    → IsFrame rgb_frame
    → IsFrame rgb_frame'
    → IsReady t
    → Moves (λ q. move (move q)) t (turn rgb_frame rgb_frame' t)
unfolding turn
turn-Moves rgb_frame rgb_frame' t h h' v =
    let first = process_frames-Moves rgb_frame t h v in
    let second = process_frames-Moves rgb_frame' first.after h' first.ready in
    record {
      after = second.after;
      ended = rw (turn, first.ended) second.ended;
      ready = second.ready;
      moved = second.moved ∙ ap move first.moved;
      flag = second.flag ∙ first.flag;
    }
