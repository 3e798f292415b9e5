-- ===== src/RingBuffer/RoundTrip.antt =====
-- What is written into a ring is what is read from it.
use beaglebone_black_motion.Base.{
  ℕ, zero, suc, ◌+◌, ◌<◌, ◌≡◌, refl, sym, ap, subst, ◌∙◌, true, Option, some, List, [], ◌∷◌, ◌++◌,
  map, append_assoc, append-nil, length, length-append, arith,
}
use beaglebone_black_motion.RingBuffer.{
  Ring, write, read, inc_readptr, store, inc_writeptr, getlen, is_empty,
}
use beaglebone_black_motion.RingBuffer.Bounds.{
  IsValid, store-IsValid, inc_writeptr-IsValid, inc_readptr-IsValid,
}
use beaglebone_black_motion.RingBuffer.Refine.{
  contents, length-contents, write_refines, read_refines, is_empty_lem, is_full_lem,
}

module _ {ℓ} {A : Type ℓ} where
  -- The macro `ringbuffer_write` for these items, one after the other.
  pub write_all : List A → Ring A → Ring A
  write_all [] b = b
  write_all (x ∷ xs) b = write_all xs (write b x)

  -- The macro `ringbuffer_read`, `n` times.
  pub read_all : ℕ → Ring A → List (Option A) × Ring A
  read_all zero b = ([], b)
  read_all (suc n) b = let (x, b') = read b in let (xs, b'') = read_all n b' in (x ∷ xs, b'')

  -- A ring that holds this queue.
  pub record Holds (d : A) (k : ℕ) (b : Ring A) (q : List A) : Type ℓ where
    pub valid : IsValid k b
    pub items : contents d b ≡ q

  Holds-length : (d : A) (k : ℕ) (b : Ring A) (q : List A) → Holds d k b q → getlen b ≡ length q
  Holds-length d k b q h = sym (length-contents d h.valid) ∙ ap length h.items

  write-Holds :
      (d x : A) (k : ℕ) (b : Ring A) (q : List A)
      → Holds d k b q
      → length q + 1 < b.size
      → Holds d k (write b x) (q ++ (x ∷ [])) × ((write b x).size ≡ b.size)
  unfolding write store inc_writeptr
  write-Holds d x k b q h r = (
    record {
      valid = inc_writeptr-IsValid (store-IsValid h.valid x);
      items =
          write_refines d x h.valid (ground (arith, is_full_lem d h.valid, Holds-length d k b q h))
          ∙ ap (λ p. p ++ (x ∷ [])) h.items;
    },
    refl,
  )

  pub write_all-Holds :
      (d : A) (k : ℕ) (xs : List A) (b : Ring A) (q : List A)
      → Holds d k b q
      → length q + length xs < b.size
      → Holds d k (write_all xs b) (q ++ xs)
  unfolding write_all
  write_all-Holds d k [] b q h r = record { valid = h.valid; items = h.items ∙ sym (append-nil q) }
  write_all-Holds d k (x ∷ xs) b q h r =
      let (h', same) = write-Holds d x k b q h (omega arith) in
      let rest =
        write_all-Holds d k xs (write b x) (q ++ (x ∷ [])) h'
          (omega (arith, same, length-append q (x ∷ []))) in
      record { valid = rest.valid; items = rest.items ∙ append_assoc q (x ∷ []) xs }

  read_all_lem :
      (d : A) (k : ℕ) (q : List A) (b : Ring A)
      → Holds d k b q
      → let (ys, b') = read_all (length q) b in (ys ≡ map some q) × (is_empty b' ≡ true)
  unfolding read_all read
  read_all_lem d k [] b h = (refl, ground (arith, is_empty_lem d h.valid, Holds-length d k b [] h))
  read_all_lem d k (x ∷ q) b h =
      let (y, first, rest) =
        read_refines d h.valid
          (ground (arith, is_empty_lem d h.valid, Holds-length d k b (x ∷ q) h)) in
      let same : y ∷ contents d (inc_readptr b) ≡ x ∷ q = sym rest ∙ h.items in
      let (e, e') =
        read_all_lem d k q (inc_readptr b)
          (record { valid = inc_readptr-IsValid h.valid; items = cc }) in
      (cc, e')

  -- From a valid ring with room for all of `xs`: writing them and then reading as many items as the
  -- ring holds gives what it held before and then `xs`, in order, and leaves the ring empty.
  pub read_all-write_all :
      (d : A) (k : ℕ) (b : Ring A) (xs : List A)
      → IsValid k b
      → getlen b + length xs < b.size
      → let (ys, b') = read_all (getlen b + length xs) (write_all xs b) in
        (ys ≡ map some (contents d b ++ xs)) × (is_empty b' ≡ true)
  read_all-write_all d k b xs v r =
      let size : length (contents d b ++ xs) ≡ getlen b + length xs =
        length-append (contents d b) xs ∙ ap (λ n. n + length xs) (length-contents d v) in
      subst
        (λ n.
          let (ys, b') = read_all n (write_all xs b) in
          (ys ≡ map some (contents d b ++ xs)) × (is_empty b' ≡ true))
        size
        (read_all_lem d k (contents d b ++ xs) (write_all xs b) (
          write_all-Holds d k xs b (contents d b) (record { valid = v; items = refl })
            (omega (arith, length-contents d v))))
