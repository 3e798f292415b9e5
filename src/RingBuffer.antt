-- ===== src/RingBuffer.antt =====
-- utils/ringbuffer/ringbuffer.h: the macros of the statically allocated ring buffer. A macro that
-- assigns to `BUF` returns the new ring. The pointers are `uint32_t` indices, masked by `size - 1`.
pub mod Bounds
pub mod Refine
pub mod Spsc
pub mod RoundTrip
pub mod Copy
pub mod Abstract
mod Tests
use beaglebone_black_motion.Base.{
  ℕ, Bool, Option, none, some, List, memcpy, get_elem?, set, ◌==◌, bit_and,
}
use beaglebone_black_motion.Types.{add32, sub32}

-- `ringbuffer_typedef(TYPE, NAME)`
pub record Ring {ℓ} (A : Type ℓ) : Type ℓ where
  pub cells : List A
  pub size : ℕ
  pub read_ptr : ℕ
  pub write_ptr : ℕ

module _ {ℓ} {A : Type ℓ} where
  -- `ringbuffer_init(BUF, TYPE, SIZE)`; `storage` is the macro's static array of `SIZE` cells.
  unfoldable pub init : List A → ℕ → Ring A
  init storage size = record { cells = storage; size = size; read_ptr = 0; write_ptr = 0 }

  -- `BUF.size - 1u`
  abbrev pub mask : Ring A → ℕ
  mask b = sub32 b.size 1

  -- `ringbuffer_inc_writeptr(BUF)`
  pub inc_writeptr : Ring A → Ring A
  inc_writeptr b = record b { write_ptr = bit_and (add32 b.write_ptr 1) (mask b) }

  -- The assignment to `data[writePtr]`. A `set` out of range changes nothing; `Bounds` rules it out.
  pub store : Ring A → A → Ring A
  store b x = record b { cells = set b.cells b.write_ptr x }

  -- `ringbuffer_write(BUF, DATA)`
  unfoldable pub write : Ring A → A → Ring A
  unfolding store inc_writeptr
  write b x = inc_writeptr (store b x)

  -- `ringbuffer_inc_readptr(BUF)`
  unfoldable pub inc_readptr : Ring A → Ring A
  inc_readptr b = record b { read_ptr = bit_and (add32 b.read_ptr 1) (mask b) }

  -- `ringbuffer_read_zc(BUF, DATA)`: what the pointer to `data[readPtr]` points to.
  unfoldable pub read_zc : Ring A → Option A
  read_zc b = get_elem? b.cells b.read_ptr

  -- `ringbuffer_read(BUF, DATA)`
  unfoldable pub read : Ring A → Option A × Ring A
  unfolding read_zc inc_readptr
  read b = (read_zc b, inc_readptr b)

  -- `ringbuffer_getlen(BUF)`
  unfoldable pub getlen : Ring A → ℕ
  getlen b = bit_and (sub32 b.write_ptr b.read_ptr) (mask b)

  -- `ringbuffer_isEmpty(BUF)`
  pub is_empty : Ring A → Bool
  is_empty b = b.read_ptr == b.write_ptr

  -- `ringbuffer_isFull(BUF)`
  pub is_full : Ring A → Bool
  unfolding getlen
  is_full b = getlen b == mask b

-- `buffer_state_e`, which nothing uses.
pub data BufferState : Type 0 where
  bufstate_empty bufstate_full bufstate_count : BufferState

-- `ringbuffer_write_memcpy(BUF, DATA, SIZE)`, on cells of bytes; `none` is a copy beyond the cell or
-- beyond the data.
pub write_memcpy : Ring (List ℕ) → (bytes : List ℕ) → (size : ℕ) → Option (Ring (List ℕ))
write_memcpy b bytes size = elim (get_elem? b.cells b.write_ptr) [
  | none ↦ none
  | some cell ↦ elim (memcpy cell bytes size) [
    | none ↦ none
    | some cell' ↦ some (inc_writeptr (store b cell'))
  ]
]
