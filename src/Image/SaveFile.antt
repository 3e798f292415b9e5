-- ===== src/Image/SaveFile.antt =====
-- middleware/image/image.c: `image_save` of the build without `STREAM_TO_SERVER`, which writes a frame
-- to a file of its own.
use beaglebone_black_motion.Base.{
  ℕ, suc, ◌-◌, ◌^◌, ◌<◌, ◌≡◌, Bool, true, false, Option, none, some, [], ◌∷◌, leb, if◌then◌else◌,
  arith,
}
use beaglebone_black_motion.Base.Int.{ℤ, pos, negsuc, ltb_ℤ}
use beaglebone_black_motion.Types.{SysResult, sys_success, sys_failure, add32}
use beaglebone_black_motion.Image.FileWrite.{Write, file_write_blocking}

-- What a call leaves: the result, `frameIdx`, and whether the file that was opened was closed.
pub record SavedFile : Type 0 where
  pub result : SysResult
  pub frame_idx : ℕ
  pub opened : Bool
  pub closed : Bool

-- `image_save`; `file` is what `open` returns, and `none` a loop that has not ended on the fuel.
pub image_save_file : (fuel : ℕ) → (file : ℤ) → Write → (size frame_idx : ℕ) → Option SavedFile
image_save_file fuel file write size frame_idx =
    if ltb_ℤ file (pos 0)
    then some
        (record { result = sys_failure; frame_idx = frame_idx; opened = false; closed = false })
    else elim (file_write_blocking fuel write 0 size 0 size) [
      | none ↦ none
      | some (ret, calls) ↦
          if leb (2 ^ 31) ret
          then some (record {
            result = sys_failure;
            frame_idx = frame_idx;
            opened = true;
            closed = false;
          })
          else some (record {
            result = sys_success;
            frame_idx = add32 frame_idx 1;
            opened = true;
            closed = true;
          })
    ]

-- `image_getsavedframes`, on `frameIdx`.
unfoldable pub image_getsavedframes : ℕ → ℕ
image_getsavedframes frame_idx = frame_idx

failed_write :
    (write : Write) (fuel size e : ℕ)
    → size < 2 ^ 31
    → e < 2 ^ 31
    → write 0 size ≡ negsuc e
    → file_write_blocking (suc fuel) write 0 size 0 size
      ≡ some (add32 0 (2 ^ 32 - 1 - e), (0, size) ∷ [])
unfolding file_write_blocking
failed_write write fuel size e h k q = ground arith

-- For a size below 2 ^ 31, a file that could be opened and a first `write` that fails: the call
-- returns failure, does not count the frame, and leaves the file open.
pub image_save_file_leaks :
    (write : Write) (fuel file size e frame_idx : ℕ)
    → size < 2 ^ 31
    → e < 2 ^ 31
    → write 0 size ≡ negsuc e
    → image_save_file (suc fuel) (pos file) write size frame_idx
      ≡ some (record { result = sys_failure; frame_idx = frame_idx; opened = true; closed = false })
unfolding image_save_file
image_save_file_leaks write fuel file size e frame_idx h k q =
    rw (image_save_file, failed_write write fuel size e h k q) (ground arith)
