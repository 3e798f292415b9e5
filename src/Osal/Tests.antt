-- ===== src/Osal/Tests.antt =====
-- Runs of the task table, and the witnesses of its properties.
use beaglebone_black_motion.Base.{List, refl, true, false, [], ◌∷◌, replicate, arith}
use beaglebone_black_motion.Osal.{Signal, sigalrm, sigterm}
use beaglebone_black_motion.Base.Int.{pos}
use beaglebone_black_motion.Osal.{Osal, Sequencer, Tcb, Posix, unused, suspended, osal_task_create}
use beaglebone_black_motion.Osal.Release.{IsReady}
use beaglebone_black_motion.Osal.Create.{Accepts, Created, osal_task_create-Created}

abbrev pub free : Sequencer
free = record { period_ms = 0; period_cnts = 0; signal_sem = 0; task_state = unused }

abbrev pub free_tcb : Tcb
free_tcb = record { task_id = 0; task_priority = 0; exit_func = false }

-- The layer after `osal_init`.
abbrev pub initial : Osal
initial = record {
  os_initialized = true;
  scheduler_started = false;
  tcbs = replicate 5 free_tcb;
  sequencers = replicate 5 free;
  task_idx = 0;
  rt_max_prio = 97;
  rt_min_prio = 1;
  tick = 0;
  start_shutdown = false;
}

-- The detection and the camera task, of 100 and of 50 Hz, at tick 4.
abbrev pub two_tasks : Osal
two_tasks = record initial {
  sequencers =
      record free { period_ms = 11; period_cnts = 1; task_state = suspended }
      ∷ record free { period_ms = 22; period_cnts = 2; task_state = suspended }
      ∷ free
      ∷ free
      ∷ free
      ∷ [];
  task_idx = 2;
  tick = 4;
}

pub two_tasks-IsReady : IsReady two_tasks
two_tasks-IsReady = record {
  up = refl;
  size = refl;
  next_in = omega arith;
  next_idle = λ s g. ground (arith, g);
}

-- `pthread_create` reports `EAGAIN`.
abbrev no_thread : Posix
no_thread = record { attr_init = pos 0; sem_init = pos 0; thread_create = pos 11; sem_post = pos 0 }

initial-Accepts : Accepts 95 initial
initial-Accepts = record {
  up = refl;
  low = omega arith;
  high = omega arith;
  tcbs = refl;
  sequencers = refl;
}

osal_task_create-Created_example :
    Created 22 initial (osal_task_create no_thread 95 true 22 initial)
osal_task_create-Created_example =
    osal_task_create-Created no_thread 95 true 22 0 11 initial initial-Accepts refl (omega arith)
      refl refl

-- The two tasks have exit functions.
abbrev two_stoppable : Osal
two_stoppable = record two_tasks {
  tcbs =
      record free_tcb { exit_func = true }
      ∷ record free_tcb { exit_func = true }
      ∷ replicate 3 free_tcb;
}

-- SIGTERM comes before the second alarm.
abbrev wakes : List (List Signal)
wakes = (sigalrm ∷ []) ∷ (sigterm ∷ sigalrm ∷ []) ∷ (sigalrm ∷ []) ∷ []
