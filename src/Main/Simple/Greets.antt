-- ===== src/Main/Simple/Greets.antt =====
-- A task of the demonstration greets four times and ends, if its semaphore is signalled often enough.
use beaglebone_black_motion.Base.{
  ℕ, zero, suc, ◌+◌, ◌<◌, ◌≤◌, ◌≡◌, refl, ap, ◌∙◌, Bool-cases, inl, inr, subst, true, false, Option,
  some, List, [], ◌∷◌, length, leb, get_elem?, set, get_elem?-set_self, ◌==◌, if◌then◌else◌, arith,
}
use beaglebone_black_motion.Types.{u32, sys_success}
use beaglebone_black_motion.Osal.{
  Osal, Sequencer, Tcb, suspended, TaskState, unused, update, set_state,
}
use beaglebone_black_motion.Osal.Start.{update-Updated}
use beaglebone_black_motion.Osal.Threads.{
  returns, blocks, exits, cleared, osal_task_delay, osal_task_delete,
}
use beaglebone_black_motion.Osal.Threads.Backlog.{delay_eq, inside, suspend, update_eq}
use beaglebone_black_motion.Main.Simple.{
  Stage, delayed, deleted, Run, traced, hello_loop, hello_task,
}

-- The `k` counts after `count`.
abbrev pub counts : (count k : ℕ) → List ℕ
counts count zero = []
counts count (suc k) = (count + 1) ∷ counts (count + 1) k

-- The layer is initialised, and the task has an entry in both tables, with `n` signals.
pub record Signalled (id n : ℕ) (o : Osal) : Type 0 where
  pub up : o.os_initialized ≡ true
  pub tcb : id < length o.tcbs
  pub entry : Sequencer
  pub found : get_elem? o.sequencers id ≡ some entry
  pub signals : entry.signal_sem ≡ n

-- A run that is defined, traced these counts, and stands there.
pub record Greeted (id : ℕ) (cs : List ℕ) (stage : Stage) (s : TaskState) (out : Option Run)
    : Type 0 where
  pub after : Osal
  pub ended : out ≡ some (cs, stage, after)
  pub entry : Sequencer
  pub found : get_elem? after.sequencers id ≡ some entry
  pub state : entry.task_state ≡ s

-- The task takes a signal and goes on.
delay-Signalled :
    (id n : ℕ) (o : Osal)
    → Signalled id (suc n) o
    → (o' : Osal) × (osal_task_delay id o ≡ some (returns sys_success, o')) × Signalled id n o'
delay-Signalled id n o v =
    let s = v.entry in
    let o' = record o { sequencers = set o.sequencers id (suspend s s) } in
    let busy : (s.signal_sem == 0) ≡ false = ground (arith, v.signals) in
    (
      o',
      delay_eq id o v.up v.found
          ∙ ap (λ b. some (if b then blocks else returns sys_success, o')) busy,
      record {
        up = v.up;
        tcb = v.tcb;
        entry = suspend s s;
        found = get_elem?-set_self o.sequencers id (suspend s s) (inside o.sequencers id v.found);
        signals = ground (arith, v.signals);
      },
    )

-- Without a signal it waits.
delay_waits :
    (id : ℕ) (o : Osal) (v : Signalled id 0 o)
    → osal_task_delay id o
      ≡ some (blocks, record o { sequencers = set o.sequencers id (suspend v.entry v.entry) })
delay_waits id o v =
    delay_eq id o v.up v.found
    ∙ ap
        (λ m. some (
          if m == 0 then blocks else returns sys_success,
          record o { sequencers = set o.sequencers id (suspend v.entry v.entry) },
        ))
        v.signals

next_count :
    (count : ℕ) → count < 4 → (leb 5 (u32 (count + 1)) ≡ false) × (u32 (count + 1) ≡ count + 1)
next_count count h = ground arith

loop_delays :
    (fuel id count : ℕ) (o : Osal) {o' : Osal}
    → count < 4
    → osal_task_delay id o ≡ some (returns sys_success, o')
    → hello_loop (suc fuel) id count o ≡ traced (count + 1) (hello_loop fuel id (count + 1) o')
unfolding hello_loop
loop_delays fuel id count o {o'} h e =
    rw (hello_loop, (next_count count h).0, e)
      (ap (λ c. traced c (hello_loop fuel id c o')) (next_count count h).1)

loop_waits :
    (fuel id count : ℕ) (o : Osal) {o' : Osal}
    → count < 4
    → osal_task_delay id o ≡ some (blocks, o')
    → hello_loop (suc fuel) id count o ≡ some ((count + 1) ∷ [], delayed, o')
unfolding hello_loop
loop_waits fuel id count o {o'} h e =
    rw (hello_loop, (next_count count h).0, e)
      (ap (λ (c : ℕ). some (c ∷ [], delayed, o')) (next_count count h).1)

delete_eq :
    (id : ℕ) (o : Osal) {tcbs : List Tcb} {s : Sequencer}
    → o.os_initialized ≡ true
    → update cleared id o.tcbs ≡ some tcbs
    → get_elem? o.sequencers id ≡ some s
    → osal_task_delete (λ k. true) id false o
      ≡ some (
        sys_success,
        exits ∷ [],
        record o { tcbs = tcbs; sequencers = set o.sequencers id (set_state unused s) },
      )
unfolding osal_task_delete
delete_eq id o {s = s} up t e =
    let changed : update (set_state unused) id o.sequencers
        ≡ some (set o.sequencers id (set_state unused s)) =
      update_eq (set_state unused) id o.sequencers e in
    ground (arith, up, t, changed)

-- A task that has greeted four times deletes itself.
loop-ends :
    (fuel id : ℕ) (o : Osal) (n : ℕ)
    → Signalled id n o
    → Greeted id [] (deleted (exits ∷ [])) unused (hello_loop (suc fuel) id 4 o)
unfolding hello_loop
loop-ends fuel id o n v =
    let t = update-Updated cleared id o.tcbs v.tcb in
    let s = set_state unused v.entry in
    record {
      after = record o { tcbs = t.after; sequencers = set o.sequencers id s };
      ended = rw (hello_loop, delete_eq id o v.up t.ended v.found) refl;
      entry = s;
      found = get_elem?-set_self o.sequencers id s (inside o.sequencers id v.found);
      state = refl;
    }

-- One more greeting in front.
in_front :
    (id count fuel : ℕ) (o : Osal) (cs : List ℕ) (stage : Stage) (s : TaskState) {o' : Osal}
    → count < 4
    → osal_task_delay id o ≡ some (returns sys_success, o')
    → Greeted id cs stage s (hello_loop fuel id (count + 1) o')
    → Greeted id ((count + 1) ∷ cs) stage s (hello_loop (suc fuel) id count o)
in_front id count fuel o cs stage s h e g = record {
  after = g.after;
  ended = loop_delays fuel id count o h e ∙ ap (traced (count + 1)) g.ended;
  entry = g.entry;
  found = g.found;
  state = g.state;
}

-- With a signal for each of the `k` delays that are left, the task greets as often and ends.
loop-Greeted :
    (k fuel id count n : ℕ) (o : Osal)
    → count + k ≡ 4
    → k < fuel
    → k ≤ n
    → Signalled id n o
    → Greeted id (counts count k) (deleted (exits ∷ [])) unused (hello_loop fuel id count o)
loop-Greeted zero (suc fuel) id count n o e f s v =
    let last : 4 ≡ count = omega arith in
    subst (λ c. Greeted id [] (deleted (exits ∷ [])) unused (hello_loop (suc fuel) id c o)) last
      (loop-ends fuel id o n v)
loop-Greeted (suc k) (suc fuel) id count (suc n) o e f s v =
    let (o', d, v') = delay-Signalled id n o v in
    in_front id count fuel o (counts (count + 1) k) (deleted (exits ∷ [])) unused (omega arith) d
      (loop-Greeted k fuel id (count + 1) n o' (omega arith) (omega arith) (omega arith) v')
loop-Greeted k zero id count n o e f s v = absurd (omega arith)
loop-Greeted (suc k) (suc fuel) id count zero o e f s v = absurd (omega arith)

-- With fewer signals it greets once more than there are, and waits.
loop-Waits :
    (n fuel id count : ℕ) (o : Osal)
    → count + n < 4
    → n < fuel
    → Signalled id n o
    → Greeted id (counts count (suc n)) delayed suspended (hello_loop fuel id count o)
loop-Waits zero (suc fuel) id count o h f v =
    let s = suspend v.entry v.entry in
    record {
      after = record o { sequencers = set o.sequencers id s };
      ended = loop_waits fuel id count o (omega arith) (delay_waits id o v);
      entry = s;
      found = get_elem?-set_self o.sequencers id s (inside o.sequencers id v.found);
      state = ground (arith, v.signals);
    }
loop-Waits (suc n) (suc fuel) id count o h f v =
    let (o', d, v') = delay-Signalled id n o v in
    in_front id count fuel o (counts (count + 1) (suc n)) delayed suspended (omega arith) d
      (loop-Waits n fuel id (count + 1) o' (omega arith) (omega arith) v')
loop-Waits n zero id count o h f v = absurd (omega arith)

-- What a task has done once it took its `n` signals.
abbrev pub Result : (n id : ℕ) → Option Run → Type 0
Result n id out =
    if leb 4 n
    then Greeted id (counts 0 4) (deleted (exits ∷ [])) unused out
    else Greeted id (counts 0 (suc n)) delayed suspended out

-- With the layer initialised, an entry in both tables and `n` signals on its semaphore, fuel of five
-- rounds is enough for a task of the demonstration: with four signals or more it traces the counts 1
-- to 4 and deletes itself, which leaves its entry unused; with fewer it traces the counts 1 to n + 1
-- and waits, suspended.
pub hello_task-Result :
    (fuel id n : ℕ) (o : Osal) → 4 < fuel → Signalled id n o → Result n id (hello_task fuel id o)
unfolding hello_task
hello_task-Result fuel id n o f v = elim (Bool-cases (leb 4 n)) [
  | inl e ↦ rw e (loop-Greeted 4 fuel id 0 n o refl f (ground arith) v)
  | inr e ↦ rw e (loop-Waits n fuel id 0 o (ground arith) (ground arith) v)
]
