-- ===== src/RingBuffer/Refine.antt =====
-- A valid ring holds a queue of fewer than `size` items: the cells from `read_ptr` up to
-- `write_ptr`, round the end of the storage.
use beaglebone_black_motion.Base.{
  ℕ, zero, suc, ◌+◌, ◌-◌, ◌%◌, ◌≤◌, ◌<◌, ◌≡◌, ◌≢◌, refl, sym, ap, ap₂, ◌∙◌, false, some, List, [],
  ◌∷◌, ◌++◌, ◌^◌, length, get_or, set, get_or-set_self, get_or-set_ne, get_elem?-eq-get_or, arith,
  ◌==◌, mod-eq_of_lt, mod-add-mod, mod_wrap, two_pow_pos,
}
use beaglebone_black_motion.RingBuffer.{
  Ring, init, inc_writeptr, store, write, inc_readptr, read_zc, getlen, is_empty, is_full,
}
use beaglebone_black_motion.RingBuffer.Bounds.{
  IsValid, init-IsValid, inc_writeptr-IsValid, inc_readptr-IsValid, store-IsValid, inc_writeptr_lem,
  inc_readptr_lem, getlen_lem, getlen-lt, size_pos, in_bounds, mask_lem,
}

module _ {ℓ} {A : Type ℓ} (d : A) (cells : List A) (size : ℕ) where
  -- The `n` items from index `i` on, going round at `size`. `d` stands for a read out of range.
  abbrev pub span : ℕ → ℕ → List A
  span i zero = []
  span i (suc n) = get_or cells i d ∷ span ((i + 1) % size) n

  length-span : (i n : ℕ) → length (span i n) ≡ n
  length-span i zero = refl
  length-span i (suc n) = ap suc (length-span ((i + 1) % size) n)

  span_pos : (i n : ℕ) → 0 < n → span i n ≡ get_or cells i d ∷ span ((i + 1) % size) (n - 1)
  span_pos i zero h = absurd (omega arith)
  span_pos i (suc n) h = ap (λ m. get_or cells i d ∷ span ((i + 1) % size) m) (omega arith)

-- The queue that a ring holds.
abbrev pub contents {ℓ} : {A : Type ℓ} → A → Ring A → List A
contents d b = span d b.cells b.size b.read_ptr (getlen b)

-- `i + m` steps round the ring, for `m < size`.
round_step : (i n size : ℕ) → i < size → n < size → ((i + 1) % size + n) % size ≡ (i + suc n) % size
round_step i n size hi hn = mod-add-mod (i + 1) size n ∙ ap (λ x. x % size) (omega arith)

-- Fewer than `size` steps round the ring do not come back.
round_ne : (i n size w : ℕ) → i < size → suc n < size → w ≡ (i + suc n) % size → w ≢ i
round_ne i n size w hi hn e = ground (arith, mod_wrap (i + suc n) size)

-- `suc n` items are `n` items and the one that `n` steps lead to.
span_snoc {ℓ} :
    {A : Type ℓ} (d : A) (cells : List A) (size n i w : ℕ)
    → i < size
    → n < size
    → w ≡ (i + n) % size
    → span d cells size i (suc n) ≡ span d cells size i n ++ (get_or cells w d ∷ [])
span_snoc d cells size zero i w hi hn e =
    ap (λ j. get_or cells j d ∷ []) (sym (e ∙ ap (λ y. y % size) (omega arith) ∙ mod-eq_of_lt hi))
span_snoc d cells size (suc n) i w hi hn e =
    ap (λ l. get_or cells i d ∷ l)
      (span_snoc d cells size n ((i + 1) % size) w (omega arith) (omega arith)
        (e ∙ sym (round_step i n size hi (omega arith))))

-- A write `n` steps after `i` is beyond the first `n` items.
span-set {ℓ} :
    {A : Type ℓ} (d x : A) (cells : List A) (size n i w : ℕ)
    → i < size
    → n < size
    → w ≡ (i + n) % size
    → span d (set cells w x) size i n ≡ span d cells size i n
span-set d x cells size zero i w hi hn e = refl
span-set d x cells size (suc n) i w hi hn e =
    ap₂ ◌∷◌ (get_or-set_ne cells x d (round_ne i n size w hi hn e)) (
      span-set d x cells size n ((i + 1) % size) w (omega arith) (omega arith)
        (e ∙ sym (round_step i n size hi (omega arith))))

module _ {ℓ} {A : Type ℓ} (d : A) {k : ℕ} {b : Ring A} (v : IsValid k b) where
  pub length-contents : length (contents d b) ≡ getlen b
  length-contents = length-span d b.cells b.size b.read_ptr (getlen b)

  -- The length moves by one with each pointer, as long as the ring does not run over.
  pub getlen-inc_writeptr : getlen b + 1 < b.size → getlen (inc_writeptr b) ≡ getlen b + 1
  unfolding inc_writeptr
  getlen-inc_writeptr h = ground (
    arith,
    v.read_in,
    v.write_in,
    getlen_lem v,
    getlen_lem (inc_writeptr-IsValid v),
    inc_writeptr_lem v,
    mod_wrap (b.write_ptr + 1) b.size,
    mod_wrap (b.write_ptr + b.size - b.read_ptr) b.size,
    mod_wrap (b.write_ptr + 1 + b.size - b.read_ptr) b.size,
    mod_wrap (0 + b.size - b.read_ptr) b.size,
  )

  pub getlen-inc_readptr : 0 < getlen b → getlen (inc_readptr b) ≡ getlen b - 1
  unfolding inc_readptr
  getlen-inc_readptr h = ground (
    arith,
    v.read_in,
    v.write_in,
    getlen_lem v,
    getlen_lem (inc_readptr-IsValid v),
    inc_readptr_lem v,
    mod_wrap (b.read_ptr + 1) b.size,
    mod_wrap (b.write_ptr + b.size - b.read_ptr) b.size,
    mod_wrap (b.write_ptr + b.size - (b.read_ptr + 1)) b.size,
    mod_wrap (b.write_ptr + b.size - 0) b.size,
  )

  -- Where the write pointer stands: `getlen` steps after the read pointer.
  write_ptr_lem : b.write_ptr ≡ (b.read_ptr + getlen b) % b.size
  write_ptr_lem = ground (
    arith,
    v.read_in,
    v.write_in,
    getlen_lem v,
    mod_wrap (b.write_ptr + b.size - b.read_ptr) b.size,
    mod_wrap (b.read_ptr + getlen b) b.size,
  )

  -- A store by itself does not change the queue: the cell is not in it yet.
  pub contents-store : (x : A) → contents d (store b x) ≡ contents d b
  unfolding store getlen
  contents-store x =
      span-set d x b.cells b.size (getlen b) b.read_ptr b.write_ptr v.read_in (getlen-lt v)
        write_ptr_lem

  -- Publishing the write pointer appends the cell that it stood on.
  pub contents-inc_writeptr :
      getlen b + 1 < b.size
      → contents d (inc_writeptr b) ≡ contents d b ++ (get_or b.cells b.write_ptr d ∷ [])
  unfolding inc_writeptr
  contents-inc_writeptr h =
      ap (span d b.cells b.size b.read_ptr) longer
      ∙ span_snoc d b.cells b.size (getlen b) b.read_ptr b.write_ptr v.read_in (getlen-lt v)
          write_ptr_lem
    where
      longer : getlen (inc_writeptr b) ≡ suc (getlen b)
      longer = omega (arith, getlen-inc_writeptr h)

  pub room_of_not_full : is_full b ≡ false → getlen b + 1 < b.size
  unfolding is_full
  room_of_not_full h = ground (arith, mask_lem v, getlen-lt v)

  pub getlen_pos : is_empty b ≡ false → 0 < getlen b
  unfolding is_empty
  getlen_pos h = ground (
    arith,
    v.read_in,
    v.write_in,
    getlen_lem v,
    mod_wrap (b.write_ptr + b.size - b.read_ptr) b.size,
  )

  -- A ring that is not empty gives its oldest item, and dropping that item leaves the rest.
  pub read_refines :
      is_empty b ≡ false
      → (x : A) × (read_zc b ≡ some x) × (contents d b ≡ x ∷ contents d (inc_readptr b))
  unfolding read_zc inc_readptr
  read_refines h = (
    get_or b.cells b.read_ptr d,
    get_elem?-eq-get_or b.cells b.read_ptr d (in_bounds v).1,
    span_pos d b.cells b.size b.read_ptr (getlen b) (getlen_pos h)
        ∙ ap₂ (λ i n. get_or b.cells b.read_ptr d ∷ span d b.cells b.size i n)
            (sym (inc_readptr_lem v)) (sym (getlen-inc_readptr (getlen_pos h))),
  )

  -- The two tests say what they are named for.
  pub is_empty_lem : is_empty b ≡ (getlen b == 0)
  unfolding is_empty
  is_empty_lem = ground (
    arith,
    v.read_in,
    v.write_in,
    getlen_lem v,
    mod_wrap (b.write_ptr + b.size - b.read_ptr) b.size,
  )

  pub is_full_lem : is_full b ≡ (getlen b + 1 == b.size)
  unfolding is_full
  is_full_lem = ground (arith, mask_lem v, size_pos v)

  -- While the ring holds something the two pointers stand on different cells.
  pub pointers_ne : 0 < getlen b → b.write_ptr ≢ b.read_ptr
  pointers_ne h =
      ground (arith, v.read_in, getlen_lem v, mod_wrap (b.write_ptr + b.size - b.read_ptr) b.size)

-- A write into a ring that is not full appends the item to its queue.
pub write_refines {ℓ} :
    {A : Type ℓ} (d x : A) {k : ℕ} {b : Ring A}
    → IsValid k b
    → is_full b ≡ false
    → contents d (write b x) ≡ contents d b ++ (x ∷ [])
unfolding write getlen
write_refines d x {b = b} v h =
    contents-inc_writeptr d (store-IsValid v x) (room_of_not_full d v h)
    ∙ ap₂ (λ q y. q ++ (y ∷ [])) (contents-store d v x)
        (get_or-set_self b.cells b.write_ptr x d (in_bounds v).0)

pub contents-init {ℓ} :
    {A : Type ℓ} (d : A) (k : ℕ) (storage : List A)
    → k ≤ 31
    → length storage ≡ 2 ^ k
    → contents d (init storage (2 ^ k)) ≡ []
unfolding init
contents-init d k storage h e = ap (span d storage (2 ^ k) 0) empty
  where
    fresh : getlen (init storage (2 ^ k)) ≡ (0 + 2 ^ k - 0) % 2 ^ k
    fresh = getlen_lem (init-IsValid k storage h e)

    empty : getlen (init storage (2 ^ k)) ≡ 0
    empty = ground (arith, fresh, mod_wrap (0 + 2 ^ k - 0) (2 ^ k), two_pow_pos k)
