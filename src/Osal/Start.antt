-- ===== src/Osal/Start.antt =====
-- What `osal_task_start` and the sequencer do to the table of sequencers.
use beaglebone_black_motion.Base.{
  ℕ, zero, suc, ◌<◌, ◌≡◌, ◌≢◌, refl, sym, ap, ◌∙◌, true, Option, some, some-injective, List, [],
  ◌∷◌, length, get_elem?, set, length-set, get_elem?-set_self, get_elem?-set_ne, ◌==◌,
  if◌then◌else◌, Bool-cases, inl, inr, arith,
}
use beaglebone_black_motion.Base.Int.{pos}
use beaglebone_black_motion.Types.{SysResult, sys_success, is_error}
use beaglebone_black_motion.Osal.{
  Osal, Sequencer, running, update, posted, set_state, osal_task_start,
}

module _ {ℓ} {A : Type ℓ} where
  pub lookup : (xs : List A) (i : ℕ) → i < length xs → (x : A) × (get_elem? xs i ≡ some x)
  lookup [] i h = absurd (omega arith)
  lookup (x ∷ xs) zero h = (x, refl)
  lookup (x ∷ xs) (suc i) h = lookup xs i (omega arith)

  -- An assignment inside a table changes the one entry.
  pub record Updated (f : A → A) (i : ℕ) (xs : List A) (out : Option (List A)) : Type ℓ where
    pub after : List A
    pub ended : out ≡ some after
    pub size : length after ≡ length xs
    pub entries :
        (j : ℕ) (x : A)
        → get_elem? xs j ≡ some x
        → get_elem? after j ≡ some (if j == i then f x else x)

  pub update-Updated :
      (f : A → A) (i : ℕ) (xs : List A) → i < length xs → Updated f i xs (update f i xs)
  unfolding update
  update-Updated f i xs h =
      let (x, e) = lookup xs i h in
      record {
        after = set xs i (f x);
        ended = rw (update, e);
        size = length-set xs i (f x);
        entries = λ j y g. entry j y x e g;
      }
    where
      entry :
          (j : ℕ) (y x : A)
          → get_elem? xs i ≡ some x
          → get_elem? xs j ≡ some y
          → get_elem? (set xs i (f x)) j ≡ some (if j == i then f y else y)
      entry j y x e g = elim (Bool-cases (j == i)) [
        | inl q ↦
            let p : j ≡ i = ground arith in
            rw (q, p)
              (get_elem?-set_self xs i (f x) h
                ∙ ap (λ z. some (f z)) (some-injective x y (sym e ∙ ap (get_elem? xs) (sym p) ∙ g)))
        | inr q ↦ let p : i ≢ j = ground arith in rw q (get_elem?-set_ne xs (f x) p ∙ g)
      ]

-- What `osal_task_start(i)` makes of the entry `j`, where `task_idx` is `t`.
abbrev pub started : (i t j : ℕ) → Sequencer → Sequencer
started i t j s =
    let s' = if j == i then posted s else s in if j == t then set_state running s' else s'

pub record Started (i : ℕ) (o : Osal) (out : Option (SysResult × Osal)) : Type 0 where
  pub after : List Sequencer
  pub ended : out ≡ some (sys_success, record o { sequencers = after })
  pub size : length after ≡ length o.sequencers
  pub entries :
      (j : ℕ) (s : Sequencer)
      → get_elem? o.sequencers j ≡ some s
      → get_elem? after j ≡ some (started i o.task_idx j s)

start_eq :
    (i : ℕ) (o : Osal) {ss ss' : List Sequencer}
    → o.os_initialized ≡ true
    → update posted i o.sequencers ≡ some ss
    → update (set_state running) o.task_idx ss ≡ some ss'
    → osal_task_start (pos 0) i o ≡ some (sys_success, record o { sequencers = ss' })
unfolding osal_task_start is_error
start_eq i o up e e' = ground arith

pub osal_task_start-Started :
    (i : ℕ) (o : Osal)
    → o.os_initialized ≡ true
    → i < length o.sequencers
    → o.task_idx < length o.sequencers
    → Started i o (osal_task_start (pos 0) i o)
osal_task_start-Started i o up h k =
    let first = update-Updated posted i o.sequencers h in
    let second =
      update-Updated (set_state running) o.task_idx first.after (omega (arith, first.size)) in
    record {
      after = second.after;
      ended = start_eq i o up first.ended second.ended;
      size = second.size ∙ first.size;
      entries = λ j s g. second.entries j (if j == i then posted s else s) (first.entries j s g);
    }
