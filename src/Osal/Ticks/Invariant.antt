-- ===== src/Osal/Ticks/Invariant.antt =====
-- What holds of the two at every moment.
use beaglebone_black_motion.Base.{
  ℕ, ◌+◌, ◌-◌, ◌%◌, ◌^◌, ◌<◌, ◌≤◌, ◌≡◌, refl, sym, ap, ◌∙◌, subst, false, not, ◌&&◌, some,
  some-injective, get_elem?, ◌==◌, leb, if◌then◌else◌, arith,
}
use beaglebone_black_motion.Base.Int.{pos}
use beaglebone_black_motion.Osal.{
  Osal, Sequencer, is_unused, sequence, osal_signal_handler_dispatcher, sigalrm, max_tasks,
}
use beaglebone_black_motion.Osal.Release.{IsReady, Released, sequence-Sequenced, IsReady-after}
use beaglebone_black_motion.Osal.Ticks.{
  Scheduler, waiting, Step, post, count, wake, interrupt, look, Reach, here, later,
}

-- How an entry stands to what it was at the start: it keeps its period, an entry in use stays in use,
-- it got at most one signal for each run that has come to it, and exactly one if it is in use and
-- has the period count 1. `late` is 1 where the run under way has not come to it.
pub record Entry (late runs : ℕ) (s s' : Sequencer) : Type 0 where
  pub period : s'.period_cnts ≡ s.period_cnts
  pub used : (not (is_unused s.task_state) && is_unused s'.task_state) ≡ false
  pub most : s'.signal_sem + late ≤ s.signal_sem + runs
  pub each :
      is_unused s.task_state ≡ false
      → s.period_cnts ≡ 1
      → s'.signal_sem + late ≡ s.signal_sem + runs

abbrev pub late : (next j : ℕ) → ℕ
late next j = if leb next j then 1 else 0

module _ (o : Osal) where
  pub record Inv (c : Scheduler) : Type 0 where
    pub ready : IsReady c.osal
    pub posts : c.os_sched_sem + c.runs ≡ c.alarms + c.interrupted
    pub ticks : (c.osal.tick + c.handlers) % 2 ^ 64 ≡ (o.tick + c.alarms) % 2 ^ 64
    pub in_table : c.next ≤ max_tasks
    pub begun : c.next < max_tasks → 0 < c.runs
    pub entries :
        (j : ℕ) (s : Sequencer)
        → get_elem? o.sequencers j ≡ some s
        → j < max_tasks
        → (s' : Sequencer) × (get_elem? c.osal.sequencers j ≡ some s')
          × Entry (late c.next j) c.runs s s'

  pub waiting-Inv : IsReady o → Inv (waiting o)
  waiting-Inv v = record {
    ready = v;
    posts = refl;
    ticks = refl;
    in_table = omega arith;
    begun = λ h. omega arith;
    entries = λ j s e h. (s, e, fresh j s h);
  }
    where
      fresh : (j : ℕ) (s : Sequencer) → j < max_tasks → Entry (late max_tasks j) 0 s s
      fresh j s h = record {
        period = refl;
        used = ground arith;
        most = ground arith;
        each = λ u p. ground arith;
      }

  post-Inv :
      (c : Scheduler)
      → Inv c
      → Inv (record c {
        os_sched_sem = c.os_sched_sem + 1;
        handlers = c.handlers + 1;
        alarms = c.alarms + 1;
      })
  post-Inv c v = record {
    ready = v.ready;
    posts = omega (arith, v.posts);
    ticks = omega (arith, v.ticks);
    in_table = v.in_table;
    begun = v.begun;
    entries = v.entries;
  }

  count-Inv :
      (c : Scheduler)
      → 0 < c.handlers
      → Inv c
      → Inv (record c {
        osal = osal_signal_handler_dispatcher sigalrm c.osal;
        handlers = c.handlers - 1;
      })
  unfolding osal_signal_handler_dispatcher
  count-Inv c h v = record {
    ready = record {
      up = v.ready.up;
      size = v.ready.size;
      next_in = v.ready.next_in;
      next_idle = v.ready.next_idle;
    };
    posts = v.posts;
    ticks = omega (arith, v.ticks, h);
    in_table = v.in_table;
    begun = v.begun;
    entries = v.entries;
  }

  -- A run begins: each entry is late by one.
  begun-entries :
      (c : Scheduler)
      → Inv c
      → c.next ≡ max_tasks
      → (j : ℕ) (s : Sequencer) → get_elem? o.sequencers j ≡ some s
      → j < max_tasks
      → (s' : Sequencer) × (get_elem? c.osal.sequencers j ≡ some s')
        × Entry (late 0 j) (c.runs + 1) s s'
  begun-entries c v e j s g h =
      let (s', g', x) = v.entries j s g h in
      let on_time : late c.next j ≡ 0 = ground arith in
      let begins : late 0 j ≡ 1 = ground arith in
      (
        s',
        g',
        record {
          period = x.period;
          used = x.used;
          most = omega (arith, x.most, on_time, begins);
          each = λ u p. omega (arith, x.each u p, on_time, begins);
        },
      )

  wake-Inv :
      (c : Scheduler)
      → c.next ≡ max_tasks
      → 0 < c.os_sched_sem
      → Inv c
      → Inv (record c { os_sched_sem = c.os_sched_sem - 1; next = 0; runs = c.runs + 1 })
  wake-Inv c e h v = record {
    ready = v.ready;
    posts = omega (arith, v.posts, h);
    ticks = v.ticks;
    in_table = omega arith;
    begun = λ k. omega arith;
    entries = λ j s g k. begun-entries c v e j s g k;
  }

  interrupt-Inv :
      (c : Scheduler)
      → c.next ≡ max_tasks
      → Inv c
      → Inv (record c { next = 0; runs = c.runs + 1; interrupted = c.interrupted + 1 })
  interrupt-Inv c e v = record {
    ready = v.ready;
    posts = omega (arith, v.posts);
    ticks = v.ticks;
    in_table = omega arith;
    begun = λ k. omega arith;
    entries = λ j s g k. begun-entries c v e j s g k;
  }

  -- A look at the entry `i`.
  Entry-look :
      (tick i j runs : ℕ) (s s' s'' : Sequencer)
      → Entry (late i j) runs s s'
      → Released tick (j == i) s' s''
      → Entry (late (i + 1) j) runs s s''
  Entry-look tick i j runs s s' s'' x r = record {
    period = r.0 ∙ x.period;
    used = ground (arith, x.used, r.3);
    most = ground (arith, x.most, r.1);
    each = λ u p. ground (arith, x.each u p, r.1, x.period, x.used);
  }

  look-Inv :
      (c : Scheduler) (p : Osal)
      → c.next < max_tasks
      → sequence (pos 0) c.next c.osal ≡ some p
      → Inv c
      → Inv (record c { osal = p; next = c.next + 1 })
  look-Inv c p h e v =
      let x = sequence-Sequenced c.next c.osal h v.ready in
      let q = record c.osal { sequencers = x.after } in
      subst (λ (z : Osal). Inv (record c { osal = z; next = c.next + 1 }))
        (some-injective q p (sym x.ended ∙ e))
        (record {
          ready = IsReady-after (λ j. j == c.next) c.osal v.ready x;
          posts = v.posts;
          ticks = v.ticks;
          in_table = omega arith;
          begun = λ k. v.begun h;
          entries = λ j s g k.
              let (s', g', y) = v.entries j s g k in
              let (s'', g'', r) = x.entries j s' g' in
              (s'', g'', Entry-look c.osal.tick c.next j c.runs s s' s'' y r);
        })

  pub step-Inv : {c c' : Scheduler} → Step c c' → Inv c → Inv c'
  step-Inv (post c) v = post-Inv c v
  step-Inv (count c h) v = count-Inv c h v
  step-Inv (wake c e h) v = wake-Inv c e h v
  step-Inv (interrupt c e) v = interrupt-Inv c e v
  step-Inv (look c p h e) v = look-Inv c p h e v

  pub reach-Inv : {c : Scheduler} → IsReady o → Reach (waiting o) c → Inv c
  reach-Inv r here = waiting-Inv r
  reach-Inv r (later h t) = step-Inv t (reach-Inv r h)

-- From an initialised layer whose next entry has the period count 0, and for any interleaving of
-- alarms, also of some in the middle of a run, with waits that a signal ends: each run of the sequencer
-- belongs to an alarm or to such a wait, the tick lags behind the alarms by the handlers that have not
-- counted it yet (at 64 bits), and no task got more than one signal for each run.
pub reach_signals :
    (o : Osal) {c : Scheduler} (j : ℕ) (s s' : Sequencer)
    → IsReady o
    → Reach (waiting o) c
    → get_elem? o.sequencers j ≡ some s
    → get_elem? c.osal.sequencers j ≡ some s'
    → j < max_tasks
    → (c.os_sched_sem + c.runs ≡ c.alarms + c.interrupted)
      × ((c.osal.tick + c.handlers) % 2 ^ 64 ≡ (o.tick + c.alarms) % 2 ^ 64)
      × (s'.signal_sem ≤ s.signal_sem + c.runs)
reach_signals o {c} j s s' r h g g' k =
    let v = reach-Inv o r h in
    let (t, e, x) = v.entries j s g k in
    let same = ap (λ (z : Sequencer). z.signal_sem) (some-injective t s' (sym e ∙ g')) in
    (v.posts, v.ticks, omega (arith, x.most, same))
