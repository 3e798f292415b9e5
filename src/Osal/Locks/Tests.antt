-- ===== src/Osal/Locks/Tests.antt =====
-- Threads that call functions of the layer, and the witnesses of their properties.
use beaglebone_black_motion.Base.{
  ℕ, zero, suc, ltb, if◌then◌else◌, false, true, none, some, List, [], ◌∷◌,
}
use beaglebone_black_motion.Base.Int.{ℤ, pos}
use beaglebone_black_motion.Osal.{Osal, Posix}
use beaglebone_black_motion.Osal.Tests.{two_tasks}
use beaglebone_black_motion.Osal.Locks.{
  os_tcb, os_sched, lock, unlock, Api, task_create, task_suspend, Threads, put, begin,
}
use beaglebone_black_motion.Osal.Locks.Ceiling.{Ceiling}

abbrev works : Posix
works = record { attr_init = pos 0; sem_init = pos 0; thread_create = pos 0; sem_post = pos 0 }

-- The scheduler has been started.
abbrev started : Osal
started = record two_tasks { scheduler_started = true }

-- A thread that creates a task, and a task that waits for its next period; the other threads do
-- nothing.
abbrev calls : ℕ → List (Api × Osal)
calls zero = (task_create works 95, started) ∷ []
calls (suc zero) = (task_suspend, started) ∷ []
calls (suc (suc i)) = []

-- The priorities of the camera and the detection task, and the ceiling on Linux.
abbrev priority : ℕ → ℕ
priority zero = 90
priority (suc i) = 95

-- The thread that creates the task has taken the first mutex, and the other one the second.
abbrev creating : Threads
creating = record {
  priority = priority;
  ceiling = 97;
  thread = put (begin priority 97 calls).thread 0 (record {
    rest = lock os_sched ∷ unlock os_sched ∷ lock os_sched ∷ unlock os_sched ∷ unlock os_tcb ∷ [];
    tcb = true;
    sched = false;
  });
  tcb_owner = some 0;
  sched_owner = none;
}

abbrev both : Threads
both = record {
  priority = priority;
  ceiling = 97;
  thread =
      put creating.thread 1 (record { rest = unlock os_sched ∷ []; tcb = false; sched = true });
  tcb_owner = some 0;
  sched_owner = some 1;
}

-- Linux: `EINVAL` is 22.
abbrev linux_lock : (priority ceiling : ℕ) → ℤ
linux_lock p c = if ltb c p then pos 22 else pos 0
