-- ===== src/RingBuffer/Abstract.antt =====
-- The ring buffer as an abstract type: what is left of a valid ring if the place of its pointers and
-- what its other cells hold are forgotten.
use mathlib.Core.Equiv.{IsEquiv, Iso, iso_to_equiv}
use mathlib.Core.HLevel.{Σ_prop_path}
use mathlib.Core.List
use mathlib.Core.Quot
use mathlib.Core.Quot.{Quot, Quot-set}
use native.Mathlib.Bridge.{le_prop}
use beaglebone_black_motion.Base.{
  ℕ, ◌+◌, ◌^◌, ◌<◌, ◌≤◌, ◌≡◌, refl, sym, ap, ◌∙◌, true, false, List, [], ◌∷◌, ◌++◌, length,
  replicate, length-replicate, ◌==◌, if◌then◌else◌, Bool-cases, inl, inr, arith,
}
use beaglebone_black_motion.RingBuffer.{Ring, init, write, inc_readptr, is_empty, is_full}
use beaglebone_black_motion.RingBuffer.Bounds.{
  IsValid, init-IsValid, write-IsValid, inc_readptr-IsValid, getlen-lt,
}
use beaglebone_black_motion.RingBuffer.Refine.{
  contents, contents-init, length-contents, write_refines, read_refines, is_empty_lem, is_full_lem,
}
use beaglebone_black_motion.RingBuffer.RoundTrip.{write_all, Holds, write_all-Holds}

-- What becomes of a queue of fewer than `2 ^ k` items: an item joins it if there is room, and the oldest
-- one is dropped.
abbrev pub pushed {ℓ} : {A : Type ℓ} (k : ℕ) → A → List A → List A
pushed k x q = if length q + 1 == 2 ^ k then q else q ++ x ∷ []

abbrev pub dropped {ℓ} : {A : Type ℓ} → List A → List A
dropped [] = []
dropped (x ∷ q) = q

module _ {ℓ} {A : Type ℓ} (d : A) (k : ℕ) where
  abbrev pub ValidRing : Type ℓ
  ValidRing = (b : Ring A) × IsValid k b

  -- Two rings hold the same items in the same order.
  abbrev pub SameQueue : ValidRing → ValidRing → Type ℓ
  SameQueue x y = contents d x.0 ≡ contents d y.0

  abbrev pub AbstractRing : Type ℓ
  AbstractRing = Quot SameQueue

  abbrev pub Queue : Type ℓ
  Queue = (q : List A) × (length q < 2 ^ k)

  -- The two operations as the program calls them: `ringbuffer_write` behind the test of
  -- `ringbuffer_isFull`, and `ringbuffer_inc_readptr` behind that of `ringbuffer_isEmpty`.
  abbrev pub guarded_write : A → ValidRing → ValidRing
  guarded_write x (b, v) = if is_full b then (b, v) else (write b x, write-IsValid v x)

  abbrev pub guarded_drop : ValidRing → ValidRing
  guarded_drop (b, v) = if is_empty b then (b, v) else (inc_readptr b, inc_readptr-IsValid v)

  contents-lt : (r : ValidRing) → length (contents d r.0) < 2 ^ k
  contents-lt (b, v) = omega (arith, length-contents d v, getlen-lt v, v.pow)

  guarded_write-contents :
      (x : A) (r : ValidRing) → contents d (guarded_write x r).0 ≡ pushed k x (contents d r.0)
  guarded_write-contents x (b, v) = elim (Bool-cases (is_full b)) [
    | inl e ↦ rw e (rw (full e) refl)
    | inr e ↦ rw e (rw (room e) (write_refines d x v e))
  ]
    where
      full : is_full b ≡ true → (length (contents d b) + 1 == 2 ^ k) ≡ true
      full e = ground (arith, is_full_lem d v, length-contents d v, v.pow)

      room : is_full b ≡ false → (length (contents d b) + 1 == 2 ^ k) ≡ false
      room e = ground (arith, is_full_lem d v, length-contents d v, v.pow)

  guarded_drop-contents : (r : ValidRing) → contents d (guarded_drop r).0 ≡ dropped (contents d r.0)
  guarded_drop-contents (b, v) = elim (Bool-cases (is_empty b)) [
    | inl e ↦ rw e (nothing (contents d b) (ground (arith, is_empty_lem d v, length-contents d v)))
    | inr e ↦ rw e (let (x, r, q) = read_refines d v e in ap dropped (sym q))
  ]
    where
      nothing : (q : List A) → length q ≡ 0 → q ≡ dropped q
      nothing [] h = refl
      nothing (x ∷ q) h = absurd (omega arith)

  -- The operations of the abstract ring.
  pub abstract_write : A → AbstractRing → AbstractRing
  abstract_write x =
      Quot.lift Quot-set (λ r. Quot.mk (guarded_write x r)) (λ r s h. Quot.sound (same x r s h))
    where
      same :
          (x : A) (r s : ValidRing)
          → SameQueue r s
          → SameQueue (guarded_write x r) (guarded_write x s)
      same x r s h =
          guarded_write-contents x r ∙ ap (pushed k x) h ∙ sym (guarded_write-contents x s)

  pub abstract_drop : AbstractRing → AbstractRing
  abstract_drop =
      Quot.lift Quot-set (λ r. Quot.mk (guarded_drop r)) (λ r s h. Quot.sound (same r s h))
    where
      same : (r s : ValidRing) → SameQueue r s → SameQueue (guarded_drop r) (guarded_drop s)
      same r s h = guarded_drop-contents r ∙ ap dropped h ∙ sym (guarded_drop-contents s)

  -- A ring that holds a queue: a fresh one, into which its items were written.
  ring_holding :
      (q : List A)
      → k ≤ 31
      → length q < 2 ^ k
      → Holds d k (write_all q (init (replicate (2 ^ k) d) (2 ^ k))) q
  unfolding init
  ring_holding q small h =
      write_all-Holds d k q (init (replicate (2 ^ k) d) (2 ^ k)) []
        (record {
          valid = init-IsValid k (replicate (2 ^ k) d) small (length-replicate (2 ^ k) d);
          items = contents-init d k (replicate (2 ^ k) d) small (length-replicate (2 ^ k) d);
        })
        (omega (arith, h))

  module _ (set : IsSet A) (small : k ≤ 31) where
    Queue-set : IsSet Queue
    Queue-set = hlevel (List.is_set set, le_prop)

    -- The queue that an abstract ring stands for.
    pub queue_of : AbstractRing → Queue
    queue_of =
        Quot.lift Queue-set (λ r. (contents d r.0, contents-lt r))
          (λ r s h. Σ_prop_path (λ q. le_prop) h)

    ring_of : Queue → AbstractRing
    ring_of (q, h) =
        Quot.mk (write_all q (init (replicate (2 ^ k) d) (2 ^ k)), (ring_holding q small h).valid)

    queue_of-Iso : Iso AbstractRing Queue
    unfolding queue_of ring_of
    queue_of-Iso = record {
      fun = queue_of;
      inv = ring_of;
      rinv = λ (q, h). Σ_prop_path (λ q. le_prop) (ring_holding q small h).items;
      linv =
          Quot.ind (λ r. Quot-set _ _)
            (λ r. Quot.sound (ring_holding (contents d r.0) small (contents-lt r)).items);
    }

    -- For items of a set and `k` at most 31: the valid rings of `2 ^ k` cells, up to having the same
    -- queue, are equivalent to the queues of fewer than `2 ^ k` items. Through this equivalence a write
    -- behind the test for a full ring appends the item where there is room and changes nothing
    -- otherwise, and an increment of the read pointer behind the test for an empty ring drops the
    -- oldest item.
    pub queue_of-IsEquiv :
        (x : A) (r : AbstractRing)
        → IsEquiv queue_of
          × ((queue_of (abstract_write x r)).0 ≡ pushed k x (queue_of r).0)
          × ((queue_of (abstract_drop r)).0 ≡ dropped (queue_of r).0)
    unfolding queue_of abstract_write abstract_drop queue_of-Iso
    queue_of-IsEquiv x r = (
      (iso_to_equiv queue_of-Iso).1,
      Quot.ind {β = λ r. (queue_of (abstract_write x r)).0 ≡ pushed k x (queue_of r).0}
          (λ r. List.is_set set _ _) (λ r. guarded_write-contents x r) r,
      Quot.ind {β = λ r. (queue_of (abstract_drop r)).0 ≡ dropped (queue_of r).0}
          (λ r. List.is_set set _ _) (λ r. guarded_drop-contents r) r,
    )
