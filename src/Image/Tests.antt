-- ===== src/Image/Tests.antt =====
-- Runs of the image functions, and the witnesses of their properties.
use beaglebone_black_motion.Base.{
  ℕ, zero, suc, ◌≡◌, inl, inr, refl, false, some, List, [], ◌∷◌, replicate, length-replicate, arith,
}
use beaglebone_black_motion.Base.Int.{pos, negsuc}
use beaglebone_black_motion.Config.{yuyv, Frame, IsFrame, frame_size}
use beaglebone_black_motion.RingBuffer
use beaglebone_black_motion.RingBuffer.Bounds.{init-IsValid}
use beaglebone_black_motion.Image.Yuv.{yuv2rgb}
use beaglebone_black_motion.Image.Convert.Bounds.{rgb888_convert_overruns}
use beaglebone_black_motion.Base.{none}
use beaglebone_black_motion.Image.Yuv.Exact.{red, green, blue, yuv2rgb_lem}
use beaglebone_black_motion.Image.Convert.{rgb888_convert}
use beaglebone_black_motion.Image.Buffer.{
  ImageBuffer, imagebuffer_init, Op, startread, endread, write, calls,
}
use beaglebone_black_motion.Image.Buffer.Refine.{
  IsReady, frames, queue_calls, calls_refine, imagebuffer_init_again,
}
use beaglebone_black_motion.Image.Send.{Sendto, image_save}
use beaglebone_black_motion.Image.Send.Complete.{IsSendto, Sent, image_save-Sent}
use beaglebone_black_motion.Image.FileWrite.{Write}

-- A frame of zeros.
abbrev pub blank : Frame
blank = replicate frame_size 0

pub blank-IsFrame : IsFrame blank
blank-IsFrame = length-replicate {A = ℕ} frame_size 0

white : yuv2rgb 255 128 128 ≡ some (255, 255, 255)
unfolding yuv2rgb
white = refl

yuv2rgb_lem_example : yuv2rgb 76 84 255 ≡ some (red 76 255, green 76 84 255, blue 76 84)
yuv2rgb_lem_example = yuv2rgb_lem 76 84 255 (omega arith) (omega arith) (omega arith)

-- The buffer before its first call.
abbrev unset : ImageBuffer
unset = record {
  ring = record { cells = replicate 256 blank; size = 0; read_ptr = 0; write_ptr = 0 };
  initialized = false;
}

-- The buffer that `imagebuffer_init` makes.
abbrev pub fresh : ImageBuffer
fresh = record {
  ring = record { cells = replicate 256 blank; size = 256; read_ptr = 0; write_ptr = 0 };
  initialized = false;
}

pub fresh-IsReady : IsReady fresh
unfolding RingBuffer.init
fresh-IsReady = init-IsValid 8 (replicate 256 blank) (omega arith) (length-replicate 256 blank)

abbrev ops : List Op
ops = write (1 ∷ []) ∷ write (2 ∷ []) ∷ startread ∷ endread ∷ startread ∷ []

calls_refine_example :
    let (rs, b') = calls ops fresh in (rs, frames b') ≡ queue_calls ops (frames fresh)
calls_refine_example = calls_refine ops fresh fresh-IsReady

imagebuffer_init_again_example :
    let b' = (calls ops (imagebuffer_init unset).1).1 in
    let b'' = (imagebuffer_init b').1 in (b'.initialized ≡ false) × IsReady b'' × (frames b'' ≡ [])
imagebuffer_init_again_example = imagebuffer_init_again ops unset refl (length-replicate 256 blank)

-- A network that takes one byte at each call and refuses the third.
abbrev pub one_byte : Sendto
one_byte (suc (suc zero)) n = negsuc 0
one_byte k n = pos 1

pub one_byte-IsSendto : IsSendto one_byte
one_byte-IsSendto zero n h = inr (1, refl, omega arith, h)
one_byte-IsSendto (suc zero) n h = inr (1, refl, omega arith, h)
one_byte-IsSendto (suc (suc zero)) n h = inl (0, refl)
one_byte-IsSendto (suc (suc (suc k))) n h = inr (1, refl, omega arith, h)

image_save-Sent_example :
    Sent
      (7 ∷ 8 ∷ 9 ∷ 10 ∷ [])
      0
      4
      (image_save 5 one_byte (pos 4) (negsuc 0) (7 ∷ 8 ∷ 9 ∷ 10 ∷ []) 4).1
image_save-Sent_example =
    image_save-Sent one_byte (pos 4) (negsuc 0) 5 (7 ∷ 8 ∷ 9 ∷ 10 ∷ []) 4 one_byte-IsSendto
      (omega arith) (omega arith) (omega arith) refl

-- A file that takes 40 bytes, then 30, then the other 30.
abbrev three_writes : Write
three_writes zero n = pos 40
three_writes k n = pos 30

rgb888_convert_overruns_example : rgb888_convert yuyv blank blank ≡ none
rgb888_convert_overruns_example = rgb888_convert_overruns blank blank blank-IsFrame
