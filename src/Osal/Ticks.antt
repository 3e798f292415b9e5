-- ===== src/Osal/Ticks.antt =====
-- utils/osal/osal.c: the handler of SIGALRM and the thread of the scheduler, interleaved. The handler
-- posts the semaphore of the scheduler and only then counts the tick, and it can run on any thread, so
-- that the scheduler's thread can come between the two; the thread looks at one entry after the other
-- and reads the tick each time. `tick++` counts as one access.
pub mod Invariant
pub mod CatchUp
pub mod Prompt
mod Tests
use beaglebone_black_motion.Base.{ℕ, ◌+◌, ◌-◌, ◌<◌, ◌≡◌, some}
use beaglebone_black_motion.Base.Int.{pos}
use beaglebone_black_motion.Osal.{
  Osal, sequence, osal_signal_handler_dispatcher, sigalrm, max_tasks,
}

-- `handlers` counts the handlers that have posted and not yet counted the tick. `next` is the variable
-- of the loop of `osal_task_generic_sequencer`, and `max_tasks` while the thread waits. `alarms`,
-- `runs` and `interrupted` count the alarms, the runs of the sequencer, and the waits that a signal
-- ended.
pub record Scheduler : Type 0 where
  pub osal : Osal
  pub os_sched_sem : ℕ
  pub handlers : ℕ
  pub next : ℕ
  pub alarms : ℕ
  pub runs : ℕ
  pub interrupted : ℕ

-- The thread waits in its loop, no alarm has come, and the timer runs.
abbrev pub waiting : Osal → Scheduler
waiting o = record {
  osal = o;
  os_sched_sem = 0;
  handlers = 0;
  next = max_tasks;
  alarms = 0;
  runs = 0;
  interrupted = 0;
}

-- A step of a handler or of the thread. `osal_signal_handler_task` does not look at what
-- `osal_sem_wait` returns: a wait that a signal has ended (EINTR) lets it run the sequencer too.
pub data Step : Scheduler → Scheduler → Type 0 where
  post :
      (c : Scheduler)
      → Step c (record c {
        os_sched_sem = c.os_sched_sem + 1;
        handlers = c.handlers + 1;
        alarms = c.alarms + 1;
      })
  count :
      (c : Scheduler)
      → 0 < c.handlers
      → Step c (record c {
        osal = osal_signal_handler_dispatcher sigalrm c.osal;
        handlers = c.handlers - 1;
      })
  wake :
      (c : Scheduler)
      → c.next ≡ max_tasks
      → 0 < c.os_sched_sem
      → Step c (record c { os_sched_sem = c.os_sched_sem - 1; next = 0; runs = c.runs + 1 })
  interrupt :
      (c : Scheduler)
      → c.next ≡ max_tasks
      → Step c (record c { next = 0; runs = c.runs + 1; interrupted = c.interrupted + 1 })
  look :
      (c : Scheduler) (o : Osal)
      → c.next < max_tasks
      → sequence (pos 0) c.next c.osal ≡ some o
      → Step c (record c { osal = o; next = c.next + 1 })

pub data Reach (c : Scheduler) : Scheduler → Type 0 where
  here : Reach c c
  later : {s t : Scheduler} → Reach c s → Step s t → Reach c t
