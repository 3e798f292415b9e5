-- ===== src/RingBuffer/Spsc/Invariant.antt =====
-- What holds between any two accesses of the two tasks: neither overwrites what the other works on,
-- and no frame is lost, repeated or reordered.
use beaglebone_black_motion.Base.{
  ℕ, ◌+◌, ◌^◌, ◌≤◌, ◌<◌, ◌≡◌, ◌≢◌, sym, ap, ◌∙◌, subst, false, some, List, [], ◌∷◌, ◌++◌, length,
  get_elem?, get_elem?-set_self, get_elem?-set_ne, get_or_of_get_elem?, arith, append_assoc,
}
use beaglebone_black_motion.RingBuffer.{
  Ring, inc_writeptr, store, inc_readptr, read_zc, is_empty, getlen,
}
use beaglebone_black_motion.RingBuffer.Bounds.{
  IsValid, init-IsValid, inc_writeptr-IsValid, inc_readptr-IsValid, store-IsValid, in_bounds,
}
use beaglebone_black_motion.RingBuffer.Refine.{
  contents, getlen-inc_writeptr, getlen-inc_readptr, getlen_pos, read_refines,
  contents-inc_writeptr, contents-store, room_of_not_full, pointers_ne, contents-init,
}
use beaglebone_black_motion.RingBuffer.Spsc.{
  Producer, waiting, ready, stored, Consumer, idle, holding, System, Step, check, put, publish,
  hold, release, Reach, here, next, start,
}

module _ {A : Type 0} where
  -- What the place of the filling task says about the ring.
  abbrev pub Filling : Ring A → Producer A → Type 0
  Filling b waiting = Unit
  Filling b ready = getlen b + 1 < b.size
  Filling b (stored x) = (getlen b + 1 < b.size) × (get_elem? b.cells b.write_ptr ≡ some x)

  -- What the place of the emptying task says about the ring: the frame in its hands is intact.
  abbrev pub Emptying : Ring A → Consumer A → Type 0
  Emptying b idle = Unit
  Emptying b (holding x) = (0 < getlen b) × (read_zc b ≡ some x)

  pub record Inv (d : A) (k : ℕ) (s : System A) : Type 0 where
    pub valid : IsValid k s.ring
    pub filling : Filling s.ring s.producer
    pub emptying : Emptying s.ring s.consumer
    pub fifo : s.sent ≡ s.got ++ contents d s.ring

  -- A store goes to another cell than the one that the emptying task works on.
  Emptying-store :
      (d x : A) {k : ℕ} {b : Ring A} (c : Consumer A)
      → IsValid k b
      → Emptying b c
      → Emptying (store b x) c
  unfolding store getlen read_zc
  Emptying-store d x idle v e = tt
  Emptying-store d x {b = b} (holding y) v e =
      (e.0, get_elem?-set_ne b.cells x (pointers_ne d v e.0) ∙ e.1)

  Emptying-inc_writeptr :
      (d : A) {k : ℕ} {b : Ring A} (c : Consumer A)
      → IsValid k b
      → getlen b + 1 < b.size
      → Emptying b c
      → Emptying (inc_writeptr b) c
  unfolding inc_writeptr read_zc
  Emptying-inc_writeptr d idle v room e = tt
  Emptying-inc_writeptr d (holding y) v room e =
      (omega (arith, getlen-inc_writeptr d v room, e.0), e.1)

  Filling-inc_readptr :
      (d : A) {k : ℕ} {b : Ring A} (p : Producer A)
      → IsValid k b
      → 0 < getlen b
      → Filling b p
      → Filling (inc_readptr b) p
  unfolding inc_readptr
  Filling-inc_readptr d waiting v h f = tt
  Filling-inc_readptr d ready v h f = omega (arith, getlen-inc_readptr d v h)
  Filling-inc_readptr d (stored x) v h f = (omega (arith, getlen-inc_readptr d v h, f.0), f.1)

  store-Filling :
      (x : A) {k : ℕ} {b : Ring A} → IsValid k b → Filling b ready → Filling (store b x) (stored x)
  unfolding store getlen
  store-Filling x {b = b} v f = (f, get_elem?-set_self b.cells b.write_ptr x (in_bounds v).0)

  -- Releasing the frame in hand takes exactly that frame off the queue.
  contents_of_held :
      (d x : A) {k : ℕ} {b : Ring A}
      → IsValid k b
      → is_empty b ≡ false
      → read_zc b ≡ some x
      → contents d b ≡ x ∷ contents d (inc_readptr b)
  contents_of_held d x {b = b} v h r =
      let (y, q, e) = read_refines d v h in
      let same : y ≡ x = cc in e ∙ ap (λ z. z ∷ contents d (inc_readptr b)) same

  -- Every access of either task keeps the invariant.
  pub Step-Inv : (d : A) (k : ℕ) {s t : System A} → Step s t → Inv d k s → Inv d k t
  Step-Inv d k {s} (check e h) inv = record {
    valid = inv.valid;
    filling = room_of_not_full d inv.valid h;
    emptying = inv.emptying;
    fifo = inv.fifo;
  }
  Step-Inv d k {s} (put x e) inv = record {
    valid = store-IsValid inv.valid x;
    filling = put_filling;
    emptying = Emptying-store d x s.consumer inv.valid inv.emptying;
    fifo = inv.fifo ∙ ap (λ q. s.got ++ q) (sym (contents-store d inv.valid x));
  }
    where
      put_filling : Filling (store s.ring x) (stored x)
      put_filling = store-Filling x inv.valid (subst (Filling s.ring) e inv.filling)
  Step-Inv d k {s} (publish x e) inv = record {
    valid = inc_writeptr-IsValid inv.valid;
    filling = tt;
    emptying = Emptying-inc_writeptr d s.consumer inv.valid before.0 inv.emptying;
    fifo =
        ap (λ q. q ++ (x ∷ [])) inv.fifo
        ∙ append_assoc s.got (contents d s.ring) (x ∷ [])
        ∙ ap (λ q. s.got ++ q) (sym longer);
  }
    where
      before : Filling s.ring (stored x)
      before = subst (Filling s.ring) e inv.filling

      longer : contents d (inc_writeptr s.ring) ≡ contents d s.ring ++ (x ∷ [])
      longer =
          contents-inc_writeptr d inv.valid before.0
          ∙ ap (λ y. contents d s.ring ++ (y ∷ []))
              (get_or_of_get_elem? s.ring.cells s.ring.write_ptr x d before.1)
  Step-Inv d k {s} (hold x e h r) inv = record {
    valid = inv.valid;
    filling = inv.filling;
    emptying = (getlen_pos d inv.valid h, r);
    fifo = inv.fifo;
  }
  Step-Inv d k {s} (release x e h) inv = record {
    valid = inc_readptr-IsValid inv.valid;
    filling = Filling-inc_readptr d s.producer inv.valid before.0 inv.filling;
    emptying = tt;
    fifo =
        inv.fifo
        ∙ ap (λ q. s.got ++ q) (contents_of_held d x inv.valid h before.1)
        ∙ sym (append_assoc s.got (x ∷ []) (contents d (inc_readptr s.ring)));
  }
    where
      before : Emptying s.ring (holding x)
      before = subst (Emptying s.ring) e inv.emptying

  Reach-Inv : (d : A) (k : ℕ) {s t : System A} → Reach s t → Inv d k s → Inv d k t
  Reach-Inv d k here inv = inv
  Reach-Inv d k (next r st) inv = Step-Inv d k st (Reach-Inv d k r inv)

  start-Inv :
      (d : A) (k : ℕ) (storage : List A)
      → k ≤ 31
      → length storage ≡ 2 ^ k
      → Inv d k (start storage (2 ^ k))
  unfolding start
  start-Inv d k storage h e = record {
    valid = init-IsValid k storage h e;
    filling = tt;
    emptying = tt;
    fifo = sym (contents-init d k storage h e);
  }

  module _ (d : A) (k : ℕ) (storage : List A) (h : k ≤ 31) (e : length storage ≡ 2 ^ k)
      {t : System A} (r : Reach (start storage (2 ^ k)) t) where
    -- In every state that the two tasks reach from a fresh ring of `2 ^ k` cells, by any
    -- interleaving, the frames published are the frames released and then those in the ring, in
    -- order: none is lost, repeated or reordered.
    pub reach_fifo : t.sent ≡ t.got ++ contents d t.ring
    reach_fifo = (Reach-Inv d k r (start-Inv d k storage h e)).fifo

    -- In every state that a filling and an emptying task reach from a fresh ring of 2 ^ k cells (k at
    -- most 31), by any interleaving of their accesses: the frame that the emptying task holds is still
    -- in its cell, and the cell at the write pointer is another one.
    pub reach_no_overlap :
        (x : A)
        → t.consumer ≡ holding x
        → (read_zc t.ring ≡ some x) × (t.ring.write_ptr ≢ t.ring.read_ptr)
    reach_no_overlap x c = (held.1, pointers_ne d inv.valid held.0)
      where
        inv : Inv d k t
        inv = Reach-Inv d k r (start-Inv d k storage h e)

        held : Emptying t.ring (holding x)
        held = subst (Emptying t.ring) c inv.emptying
