-- ===== src/Osal/Ticks/Tests.antt =====
-- Interleavings of the alarms with the thread of the scheduler, and the witnesses of their properties.
use beaglebone_black_motion.Base.{ℕ, ◌+◌, ◌-◌, ◌%◌, ◌^◌, ◌≤◌, ◌≡◌, refl, List, [], ◌∷◌, arith}
use beaglebone_black_motion.Types.{is_error}
use beaglebone_black_motion.Osal.{
  Sequencer, running, suspended, sequence, sequence_loop, osal_task_start,
  osal_signal_handler_dispatcher, update, max_tasks,
}
use beaglebone_black_motion.Osal.Tests.{free, two_tasks, two_tasks-IsReady}
use beaglebone_black_motion.Osal.Ticks.{Scheduler, waiting, post, count, wake, Reach, here, later}
use beaglebone_black_motion.Osal.Ticks.Invariant.{reach_signals}
use beaglebone_black_motion.Osal.Ticks.CatchUp.{undisturbed, CaughtUp, reach-CaughtUp}

-- Two alarms of which the second comes before the thread runs.
abbrev two_waiting : Scheduler
two_waiting = record {
  osal = record two_tasks { tick = 6 };
  os_sched_sem = 2;
  handlers = 0;
  next = max_tasks;
  alarms = 2;
  runs = 0;
  interrupted = 0;
}

two_alarms : Reach (waiting two_tasks) two_waiting
unfolding osal_signal_handler_dispatcher
two_alarms =
    later (later (later (later here (post _)) (count _ (omega arith))) (post _))
      (count _ (omega arith))

-- The table once `n` runs have given each of the two tasks a signal. `osal_task_start` marks the entry
-- of the next task as running.
abbrev released : ℕ → List Sequencer
released n =
    record free { period_ms = 11; period_cnts = 1; task_state = suspended; signal_sem = n }
    ∷ record free { period_ms = 22; period_cnts = 2; task_state = suspended; signal_sem = n }
    ∷ record free { task_state = running }
    ∷ free
    ∷ free
    ∷ []

abbrev after_runs : ℕ → Scheduler
after_runs n = record two_waiting {
  osal = record two_tasks { tick = 6; sequencers = released n };
  os_sched_sem = 2 - n;
  runs = n;
}

-- The camera task, of half the rate, gets a signal in each of the two runs: two for two alarms.
released_twice : Reach (waiting two_tasks) (after_runs 2)
unfolding sequence sequence_loop osal_task_start update is_error osal_signal_handler_dispatcher
released_twice =
    let first =
      undisturbed max_tasks _ (later two_alarms (wake two_waiting refl (omega arith))) (omega arith)
        refl in
    undisturbed max_tasks _ (later first (wake (after_runs 1) refl (omega arith))) (omega arith)
      refl

reach_signals_example : (0 + 2 ≡ 2 + 0) × ((6 + 0) % 2 ^ 64 ≡ (4 + 2) % 2 ^ 64) × (2 ≤ 0 + 2)
reach_signals_example =
    reach_signals two_tasks 1 _ _ two_tasks-IsReady released_twice refl refl (omega arith)

reach-CaughtUp_example :
    CaughtUp two_waiting 0 (record free { period_ms = 11; period_cnts = 1; task_state = suspended })
reach-CaughtUp_example =
    reach-CaughtUp two_tasks 0 _ two_tasks-IsReady two_alarms refl (omega arith) refl refl
