-- ===== src/Osal/Release.antt =====
-- `osal_task_generic_sequencer`: which tasks one tick of the timer releases.
use beaglebone_black_motion.Base.{
  not, ℕ, zero, suc, ◌+◌, ◌<◌, ◌≤◌, ◌≡◌, refl, sym, ap, ◌∙◌, subst, Bool, true, false, ◌&&◌, Option,
  some, some-injective, List, length, get_elem?, ◌==◌, ltb, leb, if◌then◌else◌, Bool-cases, inl,
  inr, arith,
}
use beaglebone_black_motion.Base.Int.{pos}
use beaglebone_black_motion.Types.{sys_success}
use beaglebone_black_motion.Osal.{
  is_unused, Osal, Sequencer, osal_task_start, is_due, sequence, sequence_loop,
  osal_task_generic_sequencer, max_tasks,
}
use beaglebone_black_motion.Osal.Start.{lookup, started, osal_task_start-Started}

-- The layer is initialised, and the entry for the next task is in the table and as it was at the
-- start: its period count is 0.
pub record IsReady (o : Osal) : Type 0 where
  pub up : o.os_initialized ≡ true
  pub size : length o.sequencers ≡ max_tasks
  pub next_in : o.task_idx < max_tasks
  pub next_idle : (s : Sequencer) → get_elem? o.sequencers o.task_idx ≡ some s → s.period_cnts ≡ 0

-- How an entry stands to the one before: it keeps its period, one signal is added if it was hit and
-- due, it is due if and only if it was, and it stays in use if it was.
abbrev pub Released : (tick : ℕ) → Bool → Sequencer → Sequencer → Type 0
Released tick hit s s' =
    (s'.period_cnts ≡ s.period_cnts)
    × (s'.signal_sem ≡ s.signal_sem + (if hit && is_due tick s then 1 else 0))
    × (is_due tick s' ≡ is_due tick s)
    × ((not (is_unused s.task_state) && is_unused s'.task_state) ≡ false)

Released-due :
    (tick i t j : ℕ) (s : Sequencer)
    → (j ≡ i → is_due tick s ≡ true)
    → (j ≡ t → s.period_cnts ≡ 0)
    → Released tick (j == i) s (started i t j s)
Released-due tick i t j s d z = ground arith

Released-not_due :
    (tick i j : ℕ) (s : Sequencer) → (j ≡ i → is_due tick s ≡ false) → Released tick (j == i) s s
Released-not_due tick i j s d = ground arith

-- A part of the loop that hits the entries that `hit` names.
pub record Sequenced (hit : ℕ → Bool) (o : Osal) (out : Option Osal) : Type 0 where
  pub after : List Sequencer
  pub ended : out ≡ some (record o { sequencers = after })
  pub size : length after ≡ length o.sequencers
  pub entries :
      (j : ℕ) (s : Sequencer)
      → get_elem? o.sequencers j ≡ some s
      → (s' : Sequencer) × (get_elem? after j ≡ some s') × Released o.tick (hit j) s s'

same_entry :
    (xs : List Sequencer) (i j : ℕ) (x y : Sequencer)
    → get_elem? xs i ≡ some x
    → get_elem? xs j ≡ some y
    → j ≡ i
    → x ≡ y
same_entry xs i j x y e g p = some-injective x y (sym e ∙ ap (get_elem? xs) (sym p) ∙ g)

sequence_due :
    (i : ℕ) (o : Osal) (x : Sequencer) {o' : Osal}
    → get_elem? o.sequencers i ≡ some x
    → is_due o.tick x ≡ true
    → osal_task_start (pos 0) i o ≡ some (sys_success, o')
    → sequence (pos 0) i o ≡ some o'
unfolding sequence
sequence_due i o x e d s = rw (sequence, e, d) (rw s)

sequence_not_due :
    (i : ℕ) (o : Osal) (x : Sequencer)
    → get_elem? o.sequencers i ≡ some x
    → is_due o.tick x ≡ false
    → sequence (pos 0) i o ≡ some o
unfolding sequence
sequence_not_due i o x e d = rw (sequence, e, d)

pub sequence-Sequenced :
    (i : ℕ) (o : Osal)
    → i < max_tasks
    → IsReady o
    → Sequenced (λ j. j == i) o (sequence (pos 0) i o)
sequence-Sequenced i o h v =
    let (x, e) = lookup o.sequencers i (omega (arith, v.size)) in
    elim (Bool-cases (is_due o.tick x)) [
      | inl d ↦
          let s =
            osal_task_start-Started i o v.up (omega (arith, v.size))
              (omega (arith, v.size, v.next_in)) in
          record {
            after = s.after;
            ended = sequence_due i o x e d s.ended;
            size = s.size;
            entries = λ j y g. (
              started i o.task_idx j y,
              s.entries j y g,
              Released-due o.tick i o.task_idx j y
                  (λ p.
                    subst (λ z. is_due o.tick z ≡ true) (same_entry o.sequencers i j x y e g p) d)
                  (λ p. v.next_idle y (ap (get_elem? o.sequencers) (sym p) ∙ g)),
            );
          }
      | inr d ↦ record {
        after = o.sequencers;
        ended = sequence_not_due i o x e d;
        size = refl;
        entries = λ j y g. (
          y,
          g,
          Released-not_due o.tick i j y
              (λ p. subst (λ z. is_due o.tick z ≡ false) (same_entry o.sequencers i j x y e g p) d),
        );
      }
    ]

-- The entries that `n` rounds from round `i` on look at.
abbrev pub within : (i n j : ℕ) → Bool
within i n j = leb i j && ltb j (i + n)

count_append :
    (i n j a b c : ℕ) (d d' : Bool)
    → b ≡ a + (if (j == i) && d then 1 else 0)
    → c ≡ b + (if within (i + 1) n j && d' then 1 else 0)
    → d' ≡ d
    → c ≡ a + (if within i (suc n) j && d then 1 else 0)
count_append i n j a b c d d' e f g = ground arith

Released-append :
    (tick i n j : ℕ) (s s' s'' : Sequencer)
    → Released tick (j == i) s s'
    → Released tick (within (i + 1) n j) s' s''
    → Released tick (within i (suc n) j) s s''
Released-append tick i n j s s' s'' r r' = (
  ground (arith, r.0, r'.0),
  count_append i n j _ _ _ (is_due tick s) (is_due tick s') r.1 r'.1 r.2,
  r'.2 ∙ r.2,
  ground (arith, r.3, r'.3),
)

Released-none : (tick i j : ℕ) (s : Sequencer) → Released tick (within i 0 j) s s
Released-none tick i j s = ground arith

pub IsReady-after :
    (hit : ℕ → Bool) (o : Osal) {out : Option Osal} (v : IsReady o) (q : Sequenced hit o out)
    → IsReady (record o { sequencers = q.after })
IsReady-after hit o v q = record {
  up = v.up;
  size = q.size ∙ v.size;
  next_in = v.next_in;
  next_idle = λ s' g'. idle s' g';
}
  where
    idle : (s' : Sequencer) → get_elem? q.after o.task_idx ≡ some s' → s'.period_cnts ≡ 0
    idle s' g' =
        let (s, g) = lookup o.sequencers o.task_idx (omega (arith, v.size, v.next_in)) in
        let (t, h, r) = q.entries o.task_idx s g in
        ap (λ (z : Sequencer). z.period_cnts) (some-injective s' t (sym g' ∙ h))
        ∙ r.0
        ∙ v.next_idle s g

pub loop_step :
    (n i : ℕ) (o : Osal) {o' : Osal}
    → sequence (pos 0) i o ≡ some o'
    → sequence_loop (λ k. pos 0) (suc n) i o ≡ sequence_loop (λ k. pos 0) n (i + 1) o'
unfolding sequence_loop
loop_step n i o e = rw (sequence_loop, e)

sequence_loop-Sequenced :
    (n i : ℕ) (o : Osal)
    → i + n ≤ max_tasks
    → IsReady o
    → Sequenced (within i n) o (sequence_loop (λ k. pos 0) n i o)
unfolding sequence_loop
sequence_loop-Sequenced zero i o h v = record {
  after = o.sequencers;
  ended = refl;
  size = refl;
  entries = λ j s g. (s, g, Released-none o.tick i j s);
}
sequence_loop-Sequenced (suc n) i o h v =
    let first = sequence-Sequenced i o (omega arith) v in
    let rest =
      sequence_loop-Sequenced n (i + 1) (record o { sequencers = first.after }) (omega arith)
        (IsReady-after (λ j. j == i) o v first) in
    record {
      after = rest.after;
      ended = loop_step n i o first.ended ∙ rest.ended;
      size = rest.size ∙ first.size;
      entries = λ j s g.
          let (s', g', r) = first.entries j s g in
          let (s'', g'', r') = rest.entries j s' g' in
          (s'', g'', Released-append o.tick i n j s s' s'' r r');
    }

-- Where the layer is initialised, the entry for the next task is in the table with period count 0,
-- and each semaphore can be posted, one run of the sequencer is defined: each of the five tasks gets
-- one signal if it is in use and its period count, not 0, divides the tick, and no signal otherwise;
-- no period changes, no task becomes due or stops being due by the run, and none in use falls out of
-- use.
pub osal_task_generic_sequencer-Sequenced :
    (o : Osal)
    → IsReady o
    → Sequenced (within 0 max_tasks) o (osal_task_generic_sequencer (λ k. pos 0) o)
unfolding osal_task_generic_sequencer
osal_task_generic_sequencer-Sequenced o v = sequence_loop-Sequenced max_tasks 0 o (omega arith) v
