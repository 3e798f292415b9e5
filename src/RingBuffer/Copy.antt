-- ===== src/RingBuffer/Copy.antt =====
-- The macro `ringbuffer_write_memcpy`, against the queue that a ring stands for.
use beaglebone_black_motion.Base.{
  ℕ, ◌≤◌, ◌≡◌, refl, false, some, List, [], ◌∷◌, ◌++◌, length, take, drop, get_or,
  get_elem?-eq-get_or, memcpy-some,
}
use beaglebone_black_motion.RingBuffer.{Ring, write, write_memcpy, is_full, store, inc_writeptr}
use beaglebone_black_motion.RingBuffer.Bounds.{IsValid, in_bounds, write-IsValid}
use beaglebone_black_motion.RingBuffer.Refine.{contents, write_refines}

-- A write by copy that is defined, into a ring with room: the queue gets one more item, the bytes and
-- then what the cell held behind them.
pub record Copied (k size : ℕ) (bytes : List ℕ) (b : Ring (List ℕ)) : Type 0 where
  pub after : Ring (List ℕ)
  pub ended : write_memcpy b bytes size ≡ some after
  pub valid : IsValid k after
  pub old : List ℕ
  pub queue : contents [] after ≡ contents [] b ++ (take size bytes ++ drop size old) ∷ []

pub write_memcpy-Copied :
    {k : ℕ} {b : Ring (List ℕ)} (size : ℕ) (bytes : List ℕ)
    → IsValid k b
    → is_full b ≡ false
    → size ≤ length (get_or b.cells b.write_ptr [])
    → size ≤ length bytes
    → Copied k size bytes b
unfolding write_memcpy write store inc_writeptr
write_memcpy-Copied {b = b} size bytes v room fits given =
    let cell = get_or b.cells b.write_ptr [] in
    let item = take size bytes ++ drop size cell in
    record {
      after = write b item;
      ended =
          rw (write_memcpy, get_elem?-eq-get_or b.cells b.write_ptr [] (in_bounds v).0)
            (rw (memcpy-some cell bytes size fits given) refl);
      valid = write-IsValid v item;
      old = cell;
      queue = write_refines [] item v room;
    }
