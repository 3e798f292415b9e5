-- ===== src/RingBuffer/Tests.antt =====
-- Runs of the ring buffer macros, and the witnesses of its properties.
use mathlib.Core.Equiv.{IsEquiv}
use mathlib.Core.Quot.{mk}
use native.Mathlib.Nat.{ℕ_set}
use beaglebone_black_motion.Base.{
  ℕ, ◌≡◌, ◌≢◌, refl, true, some, map, ◌+◌, List, [], ◌∷◌, ◌++◌, arith,
}
use beaglebone_black_motion.RingBuffer.{
  Ring, init, write, read, store, inc_writeptr, read_zc, is_empty, is_full, getlen,
}
use beaglebone_black_motion.RingBuffer.Abstract.{
  AbstractRing, abstract_write, abstract_drop, queue_of, pushed, dropped, queue_of-IsEquiv,
}
use beaglebone_black_motion.RingBuffer.Bounds.{IsValid, init-IsValid, write-IsValid}
use beaglebone_black_motion.RingBuffer.Refine.{contents}
use beaglebone_black_motion.RingBuffer.RoundTrip.{read_all, write_all, read_all-write_all}
use beaglebone_black_motion.RingBuffer.Spsc.{
  System, ready, holding, Reach, here, next, check, put, publish, hold, start,
}
use beaglebone_black_motion.RingBuffer.Spsc.Invariant.{reach_fifo, reach_no_overlap}

abbrev storage : List ℕ
storage = 0 ∷ 0 ∷ 0 ∷ 0 ∷ []

abbrev fresh : Ring ℕ
fresh = record { cells = storage; size = 4; read_ptr = 0; write_ptr = 0 }

-- A ring of four cells is full with three items; the pointers wrap round.
full_at_three : is_full (write (write (write fresh 5) 6) 7) ≡ true
unfolding is_full write
full_at_three = refl

wraps_round : (inc_writeptr (write (write (write fresh 5) 6) 7)).write_ptr ≡ 0
unfolding write inc_writeptr
wraps_round = refl

reads_oldest : (read (write (write fresh 5) 6)).0 ≡ some 5
unfolding read write
reads_oldest = refl

fresh-IsValid : IsValid 2 fresh
unfolding init
fresh-IsValid = init-IsValid 2 storage (omega arith) refl

one_item : IsValid 2 (write fresh 5)
one_item = write-IsValid fresh-IsValid 5

-- The ring holds 5 and has room for two more.
read_all-write_all_example :
    let (ys, b') = read_all (getlen (write fresh 5) + 2) (write_all (6 ∷ 7 ∷ []) (write fresh 5)) in
    (ys ≡ map some (contents 0 (write fresh 5) ++ (6 ∷ 7 ∷ []))) × (is_empty b' ≡ true)
unfolding getlen write
read_all-write_all_example =
    read_all-write_all 0 2 (write fresh 5) (6 ∷ 7 ∷ []) one_item (omega arith)

-- The filling task publishes 5, the emptying task takes it and holds it, and the filling task has
-- passed its test again.
abbrev held : System ℕ
held = record {
  ring = record { cells = 5 ∷ 0 ∷ 0 ∷ 0 ∷ []; size = 4; read_ptr = 0; write_ptr = 1 };
  producer = ready;
  consumer = holding 5;
  sent = 5 ∷ [];
  got = [];
}

held_reached : Reach (start storage 4) held
unfolding start init store inc_writeptr is_full is_empty read_zc
held_reached =
    next
      (next (next (next (next here (check refl refl)) (put 5 refl)) (publish 5 refl))
        (hold 5 refl refl refl))
      (check refl refl)

reach_fifo_example : held.sent ≡ held.got ++ contents 0 held.ring
reach_fifo_example = reach_fifo 0 2 storage (omega arith) refl held_reached

reach_no_overlap_example : (read_zc held.ring ≡ some 5) × (held.ring.write_ptr ≢ held.ring.read_ptr)
reach_no_overlap_example = reach_no_overlap 0 2 storage (omega arith) refl held_reached 5 refl

-- A ring of four cells with one item.
abbrev abstract_ring : AbstractRing {A = ℕ} 0 2
abstract_ring = mk (write fresh 5, one_item)

-- The queue that an abstract ring of bytes stands for.
abbrev queue : AbstractRing {A = ℕ} 0 2 → List ℕ
queue r = (queue_of {A = ℕ} 0 2 ℕ_set (omega arith) r).0

queue_of-IsEquiv_example :
    IsEquiv (queue_of {A = ℕ} 0 2 ℕ_set (omega arith))
    × (queue (abstract_write {A = ℕ} 0 2 6 abstract_ring) ≡ pushed 2 6 (queue abstract_ring))
    × (queue (abstract_drop {A = ℕ} 0 2 abstract_ring) ≡ dropped (queue abstract_ring))
queue_of-IsEquiv_example = queue_of-IsEquiv {A = ℕ} 0 2 ℕ_set (omega arith) 6 abstract_ring
