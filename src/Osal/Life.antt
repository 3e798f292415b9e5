-- ===== src/Osal/Life.antt =====
-- utils/osal/osal.c: the start, the scheduler's timer and the shutdown of the layer. The results of
-- the POSIX calls are arguments.
pub mod Shutdown
use beaglebone_black_motion.Base.{
  ℕ, zero, suc, ◌+◌, ◌-◌, ◌*◌, Bool, true, false, not, ◌&&◌, Option, none, some, List, [], ◌∷◌,
  ◌++◌, map, get_elem?, if◌then◌else◌,
}
use beaglebone_black_motion.Base.Int.{ℤ, pos}
use beaglebone_black_motion.Types.{
  SysResult, sys_success, sys_failure, is_error, usec_per_msec, nsec_per_usec,
}
use beaglebone_black_motion.Osal.{
  Osal, Sequencer, unused, is_failure, set_state, is_unused, max_tasks, timer_tick_ms,
  osal_sem_init, Signal, osal_signal_handler_dispatcher, osal_task_generic_sequencer,
}
use beaglebone_black_motion.Osal.Sync.{osal_mutex_init, prio_ceiling}
use beaglebone_black_motion.Osal.Threads.{ThreadCall, runs_exit, kills_scheduler, osal_task_delete}

-- What the POSIX calls of `osal_init` return.
pub record Start : Type 0 where
  pub sched_max : ℕ
  pub sched_min : ℕ
  pub set_scheduler : ℤ
  pub timer_create : ℤ
  pub tcb_made : ℤ
  pub tcb_set : ℤ
  pub sched_made : ℤ
  pub sched_set : ℤ
  pub sem_init : ℤ

-- `osal_create_scheduler`; the result of `pthread_create` does not change what it returns, and the
-- entry of the scheduler's thread is not read again.
unfoldable pub osal_create_scheduler : (up : Bool) → (attr_init : ℤ) → SysResult
osal_create_scheduler up attr_init =
    if not up
    then sys_failure
    else if is_failure (is_error attr_init)
    then sys_failure
    else sys_success

-- The two fields that `osal_init` sets first. The system has more than two priorities.
abbrev pub with_priorities : Start → Osal → Osal
with_priorities a o = record o { rt_max_prio = a.sched_max - 2; rt_min_prio = a.sched_min }

-- The entries after the loop of `osal_init`.
abbrev pub all_unused : Osal → Osal
all_unused o = record o { sequencers = map (set_state unused) o.sequencers }

-- `osal_init`, without the scheduler's thread, whose making is `osal_create_scheduler` and whose
-- result the code ignores.
unfoldable pub osal_init : Start → Osal → SysResult × Osal
osal_init a o =
    if o.os_initialized
    then (sys_success, o)
    else let o1 = with_priorities a o in
      if is_failure (is_error a.set_scheduler)
      then (sys_failure, o1)
      else let o2 = all_unused o1 in
        if is_failure (is_error a.timer_create)
        then (sys_failure, o2)
        else let o3 = record o2 { os_initialized = true } in
          if is_failure (osal_mutex_init true prio_ceiling o3.rt_max_prio a.tcb_made a.tcb_set).0
          then (sys_failure, o3)
          else if is_failure
              (osal_mutex_init true prio_ceiling o3.rt_max_prio a.sched_made a.sched_set).0
          then (sys_failure, o3)
          else if is_failure (osal_sem_init a.sem_init o3)
          then (sys_failure, o3)
          else (sys_success, o3)

-- `osal_start_scheduler`: what it returns, the interval of the timer in nanoseconds, and the new
-- state. `ret` is what `timer_settime` returns.
unfoldable pub osal_start_scheduler : (ret : ℤ) → Osal → SysResult × Option ℕ × Osal
osal_start_scheduler ret o = if not o.os_initialized then (sys_failure, none, o) else (
  is_error ret,
  some (timer_tick_ms * usec_per_msec * nsec_per_usec),
  record o { scheduler_started = true },
)

-- `osal_stop_scheduler`
pub osal_stop_scheduler : (ret : ℤ) → Osal → SysResult × Option ℕ × Osal
osal_stop_scheduler ret o =
    if not o.os_initialized
    then (sys_success, none, o)
    else (is_error ret, some 0, record o { scheduler_started = false })

-- How `osal_deinit` ends: it returns, or, with these calls on threads, it sends SIGKILL, which ends the
-- process; the layer is as it was then.
pub data Deinit : Type 0 where
  done : SysResult → Deinit
  killed : List ThreadCall → Osal → Deinit

-- The loop of `osal_deinit`, by the rounds that are left.
pub delete_loop : (created : ℕ → Bool) → (rounds i : ℕ) → Osal → Option (List ThreadCall × Osal)
delete_loop created zero i o = some ([], o)
delete_loop created (suc n) i o = elim (osal_task_delete created i true o) [
  | none ↦ none
  | some (r, calls, o') ↦ elim (delete_loop created n (i + 1) o') [
    | none ↦ none
    | some (calls', o'') ↦ some (calls ++ calls', o'')
  ]
]

-- `osal_deinit`. `pthread_kill` of the thread of the scheduler with SIGKILL ends the whole process, so
-- that what follows in the code is not reached; `none` is undefined behaviour in a call of
-- `osal_task_delete`.
unfoldable pub osal_deinit : (created : ℕ → Bool) → Osal → Option Deinit
osal_deinit created o =
    if not o.os_initialized
    then some (done sys_success)
    else elim (delete_loop created max_tasks 0 o) [
      | none ↦ none
      | some (calls, o') ↦ some (killed (calls ++ kills_scheduler ∷ []) o')
    ]

-- The loop of `osal_signal_handler_task` over the exit functions, by the rounds that are left.
pub exit_loop : (rounds i : ℕ) → Osal → Option (List ThreadCall)
exit_loop zero i o = some []
exit_loop (suc n) i o = elim (get_elem? o.sequencers i) [
  | none ↦ none
  | some s ↦ elim (get_elem? o.tcbs i) [
    | none ↦ none
    | some t ↦ elim (exit_loop n (i + 1) o) [
      | none ↦ none
      | some calls ↦
          some (if not (is_unused s.task_state) && t.exit_func then runs_exit i ∷ calls else calls)
    ]
  ]
]

-- The end of `osal_signal_handler_task`, once `startShutdown` is up. The exit functions of the
-- program do not touch the state of the layer. The result is the calls of the exit functions, and what
-- `osal_deinit` comes to after them.
pub shut_down : (created : ℕ → Bool) → (ret : ℤ) → Osal → Option (List ThreadCall × Option Deinit)
shut_down created ret o =
    let o' = (osal_stop_scheduler ret o).2 in
    elim (exit_loop max_tasks 0 o') [
      | none ↦ none
      | some calls ↦ some (calls, osal_deinit created o')
    ]

-- The signals that come while the scheduler's thread waits for its semaphore.
pub handle : List Signal → Osal → Osal
handle [] o = o
handle (s ∷ ss) o = handle ss (osal_signal_handler_dispatcher s o)

-- `osal_signal_handler_task`: for each time that an alarm wakes the thread, the signals that came in
-- between. `none` also stands for a run in which no alarm follows any more.
pub osal_signal_handler_task :
    (created : ℕ → Bool)
    → (ret : ℤ) → List (List Signal)
    → Osal
    → Option (List ThreadCall × Option Deinit)
osal_signal_handler_task created ret [] o =
    if o.start_shutdown then shut_down created ret o else none
osal_signal_handler_task created ret (w ∷ ws) o =
    if o.start_shutdown
    then shut_down created ret o
    else elim (osal_task_generic_sequencer (λ k. pos 0) (handle w o)) [
      | none ↦ none
      | some o' ↦ osal_signal_handler_task created ret ws o'
    ]
