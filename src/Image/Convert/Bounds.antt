-- ===== src/Image/Convert/Bounds.antt =====
-- What `image_convert` does to a frame, and where it leaves the destination.
use beaglebone_black_motion.Base.{
  ℕ, zero, suc, ◌+◌, ◌*◌, ◌≤◌, ◌<◌, ◌≡◌, ◌≢◌, ◌⊎◌, inl, inr, refl, ap, ap₂, ◌∙◌, Option, none, some,
  ◌++◌, length, get_elem?, length-set, take_all, drop_all, append-nil, memcpy, memcpy-some, put_at,
  if◌then◌else◌, arith, Option-cases,
}
use beaglebone_black_motion.Types.{sys_success, sys_failure, sys_ignore}
use beaglebone_black_motion.Config.{
  PixelFormat, yuyv, rgb888, other, same_format, Frame, IsFrame, frame_size, pixel_format_camera,
}
use beaglebone_black_motion.Image.Yuv.{yuv2rgb, ◌>>=◌}
use beaglebone_black_motion.Image.Convert.{
  put_pixel, yuyv_round, yuyv_loop, yuyv_rounds, succeed, rgb888_convert, image_convert,
}

-- A copy of a whole frame over a frame gives that frame.
pub memcpy-frame :
    (dest src : Frame) → IsFrame dest → IsFrame src → memcpy dest src frame_size ≡ some src
memcpy-frame dest src hd hs =
    memcpy-some dest src frame_size (omega arith) (omega arith)
    ∙ ap some (ap₂ ◌++◌ (take_all frame_size src hs) (drop_all frame_size dest hd) ∙ append-nil src)

-- In the configuration of the build the conversion of a camera frame to RGB888 succeeds and copies
-- it as it is: what is streamed is the MJPEG frame.
pub image_convert_camera :
    (src dest : Frame)
    → IsFrame src
    → IsFrame dest
    → image_convert pixel_format_camera rgb888 src dest ≡ some (sys_success, src)
unfolding image_convert
image_convert_camera src dest hs hd = ap succeed (memcpy-frame dest src hd hs)

put_at_bound :
    (dest : Frame) (i v : ℕ) {d : Frame}
    → put_at dest i v ≡ some d
    → (length d ≡ length dest) × (i < length dest)
unfolding put_at
put_at_bound dest i v h = ground (arith, length-set dest i v)

-- Inversion of a successful step.
bind_some {ℓ κ} :
    {A : Type ℓ} {B : Type κ} (m : Option A) (f : A → Option B) {b : B}
    → (m >>= f) ≡ some b
    → (a : A) × (m ≡ some a) × (f a ≡ some b)
bind_some none f h = cc
bind_some (some a) f h = (a, refl, h)

put_pixel_bound :
    (dest : Frame) (j : ℕ) (p : ℕ × ℕ × ℕ) {d : Frame}
    → put_pixel dest j p ≡ some d
    → (length d ≡ length dest) × (j + 2 < length dest)
unfolding put_pixel
put_pixel_bound dest j (r, g, b) h =
    let (d, e, h') = bind_some (put_at dest j r) _ h in
    let (d', e', h'') = bind_some (put_at d (j + 1) g) _ h' in
    omega
      (arith, put_at_bound dest j r e, put_at_bound d (j + 1) g e', put_at_bound d' (j + 2) b h'')

yuyv_round_bound :
    (src dest : Frame) (i j : ℕ) {d : Frame}
    → yuyv_round src dest i j ≡ some d
    → (length d ≡ length dest) × (j + 5 < length dest)
unfolding yuyv_round
yuyv_round_bound src dest i j h =
    let (y, ey, h1) = bind_some (get_elem? src i) _ h in
    let (u, eu, h2) = bind_some (get_elem? src (i + 1)) _ h1 in
    let (y2, ey2, h3) = bind_some (get_elem? src (i + 2)) _ h2 in
    let (v, ev, h4) = bind_some (get_elem? src (i + 3)) _ h3 in
    let (p, ep, h5) = bind_some (yuv2rgb y u v) _ h4 in
    let (d, e, h6) = bind_some (put_pixel dest j p) _ h5 in
    let (p2, ep2, h7) = bind_some (yuv2rgb y2 u v) _ h6 in
    omega (arith, put_pixel_bound dest j p e, put_pixel_bound d (j + 3) p2 h7)

-- The loop writes six bytes in each round, and fails in the round that has not six bytes left.
yuyv_loop_short :
    (n : ℕ) (src : Frame) (i j : ℕ) (dest : Frame)
    → j ≤ length dest
    → length dest < j + 6 * n
    → yuyv_loop n src i j dest ≡ none
unfolding yuyv_loop
yuyv_loop_short zero src i j dest h k = absurd (omega arith)
yuyv_loop_short (suc n) src i j dest h k = elim (Option-cases (yuyv_round src dest i j)) [
  | inl e ↦ rw e
  | inr (d, e) ↦ rw e (
      yuyv_loop_short n src (i + 4) (j + 6) d (omega (arith, yuyv_round_bound src dest i j e))
        (omega (arith, yuyv_round_bound src dest i j e)))
]

-- The conversion from YUYV writes three bytes for two: into a frame of `FRAME_SIZE` bytes it has no
-- defined result, whatever the source.
pub rgb888_convert_overruns :
    (src dest : Frame) → IsFrame dest → rgb888_convert yuyv src dest ≡ none
unfolding rgb888_convert
rgb888_convert_overruns src dest h =
    ap succeed (yuyv_loop_short yuyv_rounds src 0 0 dest (omega arith) (omega arith))

-- A conversion that is not supported leaves the destination alone: equal formats are ignored, and
-- any other destination than RGB888, or an unknown source, is a failure.
pub image_convert_refused :
    (src_fmt dest_fmt : PixelFormat) (src dest : Frame)
    → (dest_fmt ≢ rgb888) ⊎ ((src_fmt ≡ other) ⊎ (src_fmt ≡ rgb888))
    → image_convert src_fmt dest_fmt src dest
      ≡ some (if same_format src_fmt dest_fmt then sys_ignore else sys_failure, dest)
unfolding image_convert
image_convert_refused src_fmt dest_fmt src dest h = ground arith
