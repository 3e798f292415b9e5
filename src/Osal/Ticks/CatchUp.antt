-- ===== src/Osal/Ticks/CatchUp.antt =====
-- The thread of the scheduler catches up with the alarms that it missed.
use beaglebone_black_motion.Base.{
  ℕ, zero, suc, ◌+◌, ◌-◌, ◌<◌, ◌≡◌, refl, sym, ◌∙◌, false, Option-cases, none, some, some-injective,
  subst, inl, inr, get_elem?, arith,
}
use beaglebone_black_motion.Base.Int.{pos}
use beaglebone_black_motion.Osal.{Osal, Sequencer, is_unused, sequence, sequence_loop, max_tasks}
use beaglebone_black_motion.Osal.Release.{IsReady, sequence-Sequenced, loop_step}
use beaglebone_black_motion.Osal.Ticks.{Scheduler, waiting, wake, look, Reach, here, later}
use beaglebone_black_motion.Osal.Ticks.Invariant.{Inv, late, step-Inv, reach-Inv}

-- A run between whose looks no other step comes is one of `osal_task_generic_sequencer`.
pub undisturbed :
    (n : ℕ) {start : Scheduler} (c : Scheduler) {o : Osal}
    → Reach start c
    → c.next + n ≡ max_tasks
    → sequence_loop (λ k. pos 0) n c.next c.osal ≡ some o
    → Reach start (record c { osal = o; next = max_tasks })
unfolding sequence_loop
undisturbed zero {start} c {o} h e s =
    subst (λ (z : Osal). Reach start (record c { osal = z; next = max_tasks }))
      (some-injective c.osal o s) (subst (λ z. Reach start (record c { next = z })) (omega arith) h)
undisturbed (suc n) {start} c {o} h e s = elim (Option-cases (sequence (pos 0) c.next c.osal)) [
  | inl q ↦ absurd (stops q s)
  | inr (p, q) ↦
      undisturbed n (record c { osal = p; next = c.next + 1 }) (later h (look c p (omega arith) q))
        (omega arith) (sym (loop_step n c.next c.osal q) ∙ s)
]
  where
    stops :
        sequence (pos 0) c.next c.osal ≡ none
        → sequence_loop (λ k. pos 0) (suc n) c.next c.osal ≡ some o
        → ⊥
    stops q s = cc

module _ (o : Osal) where
  -- Steps of the thread alone, to a moment at which it waits with this count of the semaphore.
  record Finished (sem : ℕ) (start c : Scheduler) : Type 0 where
    after : Scheduler
    path : Reach start after
    inv : Inv o after
    idle : after.next ≡ max_tasks
    left : after.os_sched_sem ≡ sem
    alarms : after.alarms ≡ c.alarms
    interrupted : after.interrupted ≡ c.interrupted

  -- The rest of a run is defined.
  finish :
      (n : ℕ) (start c : Scheduler)
      → Reach start c
      → Inv o c
      → c.next + n ≡ max_tasks
      → Finished c.os_sched_sem start c
  finish zero start c h v e = record {
    after = c;
    path = h;
    inv = v;
    idle = omega arith;
    left = refl;
    alarms = refl;
    interrupted = refl;
  }
  finish (suc n) start c h v e =
      let in_table : c.next < max_tasks = omega arith in
      let x = sequence-Sequenced c.next c.osal in_table v.ready in
      let p = record c.osal { sequencers = x.after } in
      let t = look c p in_table x.ended in
      let rest =
        finish n start (record c { osal = p; next = c.next + 1 }) (later h t) (step-Inv o t v)
          (omega arith) in
      record {
        after = rest.after;
        path = rest.path;
        inv = rest.inv;
        idle = rest.idle;
        left = rest.left;
        alarms = rest.alarms;
        interrupted = rest.interrupted;
      }

  -- The runs for the alarms that wait.
  drain :
      (n : ℕ) (start c : Scheduler)
      → Reach start c
      → Inv o c
      → c.next ≡ max_tasks
      → c.os_sched_sem ≡ n
      → Finished 0 start c
  drain zero start c h v e k = record {
    after = c;
    path = h;
    inv = v;
    idle = e;
    left = k;
    alarms = refl;
    interrupted = refl;
  }
  drain (suc n) start c h v e k =
      let t = wake c e (omega arith) in
      let run =
        finish max_tasks start
          (record c { os_sched_sem = c.os_sched_sem - 1; next = 0; runs = c.runs + 1 }) (later h t)
          (step-Inv o t v) refl in
      let rest = drain n start run.after run.path run.inv run.idle (run.left ∙ omega arith) in
      record {
        after = rest.after;
        path = rest.path;
        inv = rest.inv;
        idle = rest.idle;
        left = rest.left;
        alarms = rest.alarms ∙ run.alarms;
        interrupted = rest.interrupted ∙ run.interrupted;
      }

-- A later moment at which the thread waits and no alarm does, with what the entry got by then.
pub record CaughtUp (c : Scheduler) (j : ℕ) (s : Sequencer) : Type 0 where
  pub after : Scheduler
  pub path : Reach c after
  pub idle : after.next ≡ max_tasks
  pub left : after.os_sched_sem ≡ 0
  pub entry : Sequencer
  pub found : get_elem? after.osal.sequencers j ≡ some entry
  pub signals : entry.signal_sem ≡ s.signal_sem + (c.alarms + c.interrupted)

-- From an initialised layer whose next entry has the period count 0, and after any interleaving of
-- alarms with the thread: there are steps of the thread that lead to a moment at which it waits and no
-- alarm does, and a task in use with the period count 1 has got by then one signal for each alarm that
-- came and for each wait that a signal ended, none lost.
pub reach-CaughtUp :
    (o : Osal) {c : Scheduler} (j : ℕ) (s : Sequencer)
    → IsReady o
    → Reach (waiting o) c
    → get_elem? o.sequencers j ≡ some s
    → j < max_tasks
    → is_unused s.task_state ≡ false
    → s.period_cnts ≡ 1
    → CaughtUp c j s
reach-CaughtUp o {c} j s r h g k u p =
    let v = reach-Inv o r h in
    let run = finish o (max_tasks - c.next) c c here v (omega (arith, v.in_table)) in
    let all = drain o run.after.os_sched_sem c run.after run.path run.inv run.idle refl in
    let (s', g', x) = all.inv.entries j s g k in
    record {
      after = all.after;
      path = all.path;
      idle = all.idle;
      left = all.left;
      entry = s';
      found = g';
      signals =
          signals_of all.after s' (x.each u p) (none_late all.after j k all.idle) all.left
            all.inv.posts (all.alarms ∙ run.alarms) (all.interrupted ∙ run.interrupted);
    }
  where
    none_late : (a : Scheduler) (j : ℕ) → j < max_tasks → a.next ≡ max_tasks → late a.next j ≡ 0
    none_late a j k e = ground arith

    signals_of :
        (a : Scheduler) (s' : Sequencer)
        → s'.signal_sem + late a.next j ≡ s.signal_sem + a.runs
        → late a.next j ≡ 0
        → a.os_sched_sem ≡ 0
        → a.os_sched_sem + a.runs ≡ a.alarms + a.interrupted
        → a.alarms ≡ c.alarms
        → a.interrupted ≡ c.interrupted
        → s'.signal_sem ≡ s.signal_sem + (c.alarms + c.interrupted)
    signals_of a s' e l z q x y = omega arith
