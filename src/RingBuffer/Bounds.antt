-- ===== src/RingBuffer/Bounds.antt =====
-- The representation invariant of the ring buffer macros: the masks are remainders, and no access
-- leaves the storage.
use beaglebone_black_motion.Base.{
  ℕ, ◌+◌, ◌-◌, ◌%◌, ◌^◌, ◌≤◌, ◌<◌, ◌≡◌, List, length, length-set, arith, bit_and_mask, two_pow_pos,
  two_pow_le, sub_wrap, ap, ◌∙◌, sym, refl, bit_and,
}
use beaglebone_black_motion.RingBuffer.{
  Ring, init, mask, inc_writeptr, store, write, inc_readptr, getlen,
}
use beaglebone_black_motion.Types.{add32, sub32}

-- A ring of `2 ^ k` cells, with both indices in range.
pub record IsValid {ℓ} {A : Type ℓ} (k : ℕ) (b : Ring A) : Type 0 where
  pub small : k ≤ 31
  pub pow : b.size ≡ 2 ^ k
  pub storage : length b.cells ≡ b.size
  pub read_in : b.read_ptr < b.size
  pub write_in : b.write_ptr < b.size

module _ {ℓ} {A : Type ℓ} {k : ℕ} {b : Ring A} (v : IsValid k b) where
  pub size_pos : 0 < b.size
  size_pos = omega (arith, v.pow, two_pow_pos k)

  size_lt : b.size < 2 ^ 32
  size_lt = omega (arith, v.pow, two_pow_le k 31 v.small)

  mask_eq : mask b ≡ 2 ^ k - 1
  mask_eq = omega (arith, v.pow, size_lt, size_pos)

  pub mask_lem : mask b ≡ b.size - 1
  mask_lem = omega (arith, size_lt, size_pos)

  masked : (x : ℕ) → bit_and x (mask b) ≡ x % b.size
  masked x = ap (bit_and x) mask_eq ∙ bit_and_mask k x ∙ ap (λ p. x % p) (sym v.pow)

  -- No increment wraps at the width of the index: the mask alone brings it back.
  pub inc_writeptr_lem : (inc_writeptr b).write_ptr ≡ (b.write_ptr + 1) % b.size
  unfolding inc_writeptr
  inc_writeptr_lem =
      masked (add32 b.write_ptr 1) ∙ ap (λ x. x % b.size) (omega (arith, size_lt, v.write_in))

  pub inc_readptr_lem : (inc_readptr b).read_ptr ≡ (b.read_ptr + 1) % b.size
  unfolding inc_readptr
  inc_readptr_lem =
      masked (add32 b.read_ptr 1) ∙ ap (λ x. x % b.size) (omega (arith, size_lt, v.read_in))

  pub getlen_lem : getlen b ≡ (b.write_ptr + b.size - b.read_ptr) % b.size
  unfolding getlen
  getlen_lem = masked (sub32 b.write_ptr b.read_ptr) ∙ wrap
    where
      wrap : sub32 b.write_ptr b.read_ptr % b.size ≡ (b.write_ptr + b.size - b.read_ptr) % b.size
      wrap = rw v.pow (
          sub_wrap k (32 - k) 32 b.write_ptr b.read_ptr (omega (arith, v.small))
            (omega (arith, v.pow, v.read_in)))

  -- The three macros that read or write a cell stay inside the storage.
  pub in_bounds : (b.write_ptr < length b.cells) × (b.read_ptr < length b.cells)
  in_bounds = omega (arith, v.storage, v.read_in, v.write_in)

  pub getlen-lt : getlen b < b.size
  getlen-lt = omega (arith, getlen_lem, size_pos)

  pub inc_writeptr-IsValid : IsValid k (inc_writeptr b)
  unfolding inc_writeptr
  inc_writeptr-IsValid = record {
    small = v.small;
    pow = v.pow;
    storage = v.storage;
    read_in = v.read_in;
    write_in = omega (arith, inc_writeptr_lem, size_pos);
  }

  pub inc_readptr-IsValid : IsValid k (inc_readptr b)
  unfolding inc_readptr
  inc_readptr-IsValid = record {
    small = v.small;
    pow = v.pow;
    storage = v.storage;
    read_in = omega (arith, inc_readptr_lem, size_pos);
    write_in = v.write_in;
  }

  pub store-IsValid : (x : A) → IsValid k (store b x)
  unfolding store
  store-IsValid x = record {
    small = v.small;
    pow = v.pow;
    storage = length-set b.cells b.write_ptr x ∙ v.storage;
    read_in = v.read_in;
    write_in = v.write_in;
  }

pub write-IsValid {ℓ} :
    {A : Type ℓ} {k : ℕ} {b : Ring A} → IsValid k b → (x : A) → IsValid k (write b x)
unfolding write
write-IsValid v x = inc_writeptr-IsValid (store-IsValid v x)

-- What `ringbuffer_init` makes is valid, if `SIZE` is a power of two and the storage has `SIZE` cells.
pub init-IsValid {ℓ} :
    {A : Type ℓ} (k : ℕ) (storage : List A)
    → k ≤ 31
    → length storage ≡ 2 ^ k
    → IsValid k (init storage (2 ^ k))
unfolding init
init-IsValid k storage h e = record {
  small = h;
  pow = refl;
  storage = e;
  read_in = two_pow_pos k;
  write_in = two_pow_pos k;
}
