-- ===== src/Osal/Create.antt =====
-- `osal_task_create`: what it returns, and when it leaves its tables.
use beaglebone_black_motion.Base.{
  ℕ, zero, suc, ◌+◌, ◌/◌, [], ◌∷◌, ◌<◌, ◌≤◌, ◌≡◌, refl, ap, ◌∙◌, Bool, true, false, Option, none,
  some, List, length, get_elem?, ltb, ◌==◌, if◌then◌else◌, arith, ◌||◌,
}
use beaglebone_black_motion.Base.Int.{pos}
use beaglebone_black_motion.Types.{SysResult, sys_success, is_error, u8}
use beaglebone_black_motion.Osal.{
  Osal, Sequencer, Tcb, Posix, update, osal_task_create, finish_create, osal_task_set_period,
  set_state, suspended, max_tasks, sem_reset, code, is_failure, osal_sem_init, timer_tick_ms,
}
use beaglebone_black_motion.Osal.Start.{update-Updated, lookup}

-- The layer is initialised, its tables have their five entries, and the priority is in the range.
pub record Accepts (priority : ℕ) (o : Osal) : Type 0 where
  pub up : o.os_initialized ≡ true
  pub low : o.rt_min_prio ≤ priority
  pub high : priority ≤ o.rt_max_prio
  pub tcbs : length o.tcbs ≡ max_tasks
  pub sequencers : length o.sequencers ≡ max_tasks

outside : (ys : List Tcb) (j : ℕ) → length ys ≤ j → get_elem? ys j ≡ none
outside [] j k = refl
outside (y ∷ ys) zero k = absurd (omega arith)
outside (y ∷ ys) (suc j) k = outside ys j (omega arith)

update_outside : (f : Tcb → Tcb) (i : ℕ) (xs : List Tcb) → length xs ≤ i → update f i xs ≡ none
unfolding update
update_outside f i xs h = rw (update, outside xs i h)

in_range :
    (priority : ℕ) (o : Osal)
    → Accepts priority o
    → (ltb o.rt_max_prio priority || ltb priority o.rt_min_prio) ≡ false
in_range priority o v = ground (arith, v.low, v.high)

-- The value of a `sys_result_e` is never negative.
code_lem : (r : SysResult) → is_failure (is_error (code r)) ≡ false
unfolding is_error
code_lem r = ground arith

create_none :
    (p : Posix) (priority : ℕ) (exit_func : Bool) (period_ms a : ℕ) (o : Osal)
    → Accepts priority o
    → p.attr_init ≡ pos a
    → update
        (λ (t : Tcb). record {
          task_id = o.task_idx;
          task_priority = priority;
          exit_func = exit_func;
        })
        o.task_idx
        o.tcbs
      ≡ none
    → osal_task_create p priority exit_func period_ms o ≡ none
unfolding osal_task_create is_error
create_none p priority exit_func period_ms a o v q h = ground (arith, h, in_range priority o v)

-- The index is not compared with the size of the tables: with all five entries given away, the next
-- task that is accepted is written outside of them.
pub osal_task_create_overruns :
    (p : Posix) (priority : ℕ) (exit_func : Bool) (period_ms a : ℕ) (o : Osal)
    → Accepts priority o
    → p.attr_init ≡ pos a
    → max_tasks ≤ o.task_idx
    → osal_task_create p priority exit_func period_ms o ≡ none
osal_task_create_overruns p priority exit_func period_ms a o v q h =
    create_none p priority exit_func period_ms a o v q
      (update_outside _ o.task_idx o.tcbs (omega (arith, v.tcbs)))

same : (n : ℕ) → (n == n) ≡ true
same n = ground arith

-- A task that was created before the scheduler started: the next index is taken, and its entry has
-- the period, the period count and the state of a suspended task.
pub record Created (period_ms : ℕ) (o : Osal) (out : Option (SysResult × Option ℕ × Osal))
    : Type 0 where
  pub after : Osal
  pub ended : out ≡ some (sys_success, some o.task_idx, after)
  pub next : after.task_idx ≡ o.task_idx + 1
  pub entry : Sequencer
  pub stored : get_elem? after.sequencers o.task_idx ≡ some entry
  pub period : entry.period_ms ≡ period_ms
  pub count : entry.period_cnts ≡ period_ms / timer_tick_ms
  pub state : entry.task_state ≡ suspended

-- The three changes of the entry in the table of sequencers.
abbrev with_period : ℕ → Sequencer → Sequencer
with_period period_ms s = record s {
  period_ms = period_ms;
  period_cnts = period_ms / timer_tick_ms;
}

finish_eq :
    (p : Posix) (period_ms : ℕ) (o : Osal) {ss' ss'' : List Sequencer}
    → o.scheduler_started ≡ false
    → update (with_period period_ms) o.task_idx o.sequencers ≡ some ss'
    → update (set_state suspended) o.task_idx ss' ≡ some ss''
    → finish_create p period_ms o
      ≡ some (record o { sequencers = ss''; task_idx = u8 (o.task_idx + 1) })
unfolding finish_create osal_task_set_period
finish_eq p period_ms o st e3 e4 = ground arith

create_eq :
    (p : Posix) (priority : ℕ) (exit_func : Bool) (period_ms a c : ℕ) (o : Osal) {tcbs : List Tcb}
    {ss ss' ss'' : List Sequencer}
    → Accepts priority o
    → o.scheduler_started ≡ false
    → p.attr_init ≡ pos a
    → p.thread_create ≡ pos c
    → update
        (λ (t : Tcb). record {
          task_id = o.task_idx;
          task_priority = priority;
          exit_func = exit_func;
        })
        o.task_idx
        o.tcbs
      ≡ some tcbs
    → update (sem_reset p.sem_init) o.task_idx o.sequencers ≡ some ss
    → update (with_period period_ms) o.task_idx ss ≡ some ss'
    → update (set_state suspended) o.task_idx ss' ≡ some ss''
    → osal_task_create p priority exit_func period_ms o
      ≡ some (
        sys_success,
        some o.task_idx,
        record o { tcbs = tcbs; sequencers = ss''; task_idx = u8 (o.task_idx + 1) },
      )
unfolding osal_task_create is_error
create_eq p priority exit_func period_ms a c o {tcbs = tcbs} {ss = ss} v st q q' e1 e2 e3 e4 =
    ground (
      arith,
      in_range priority o v,
      code_lem (osal_sem_init p.sem_init (record o { tcbs = tcbs; sequencers = ss })),
      finish_eq p period_ms (record o { tcbs = tcbs; sequencers = ss }) st e3 e4,
    )

-- Before the scheduler starts, with an index in the tables and whatever `sem_init` and
-- `pthread_create` report, the latter by 0 or a positive error number: `osal_task_create` returns
-- success, takes the index and sets the entry up, also where no thread was made.
pub osal_task_create-Created :
    (p : Posix) (priority : ℕ) (exit_func : Bool) (period_ms a c : ℕ) (o : Osal)
    → Accepts priority o
    → o.scheduler_started ≡ false
    → o.task_idx < max_tasks
    → p.attr_init ≡ pos a
    → p.thread_create ≡ pos c
    → Created period_ms o (osal_task_create p priority exit_func period_ms o)
osal_task_create-Created p priority exit_func period_ms a c o v st h q q' =
    let t =
      update-Updated
        (λ (t : Tcb). record {
          task_id = o.task_idx;
          task_priority = priority;
          exit_func = exit_func;
        })
        o.task_idx o.tcbs (omega (arith, v.tcbs)) in
    let s1 =
      update-Updated (sem_reset p.sem_init) o.task_idx o.sequencers (omega (arith, v.sequencers)) in
    let s2 =
      update-Updated (with_period period_ms) o.task_idx s1.after
        (omega (arith, v.sequencers, s1.size)) in
    let s3 =
      update-Updated (set_state suspended) o.task_idx s2.after
        (omega (arith, v.sequencers, s1.size, s2.size)) in
    let (y, f) = lookup s1.after o.task_idx (omega (arith, v.sequencers, s1.size)) in
    record {
      after = record o { tcbs = t.after; sequencers = s3.after; task_idx = u8 (o.task_idx + 1) };
      ended =
          create_eq p priority exit_func period_ms a c o v st q q' t.ended s1.ended s2.ended
            s3.ended;
      next = omega arith;
      entry = set_state suspended (with_period period_ms y);
      stored =
          s3.entries o.task_idx (with_period period_ms y) (
            s2.entries o.task_idx y f
            ∙ ap (λ b. some (if b then with_period period_ms y else y)) (same o.task_idx))
          ∙ ap
              (λ b. some (
                if b
                then set_state suspended (with_period period_ms y)
                else with_period period_ms y))
              (same o.task_idx);
      period = refl;
      count = refl;
      state = refl;
    }
