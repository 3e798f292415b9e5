-- ===== src/Osal/Threads.antt =====
-- utils/osal/osal.c: the functions that end, suspend and wait for tasks. The calls on threads are
-- listed in order. `none` is an access outside of the tables.
pub mod Backlog
use beaglebone_black_motion.Base.{
  ℕ, zero, suc, ◌+◌, ◌-◌, Bool, not, ◌&&◌, Option, none, some, List, [], ◌∷◌, ◌==◌, get_elem?,
  if◌then◌else◌,
}
use beaglebone_black_motion.Base.Int.{ℤ, pos, ltb_ℤ}
use beaglebone_black_motion.Types.{SysResult, sys_success, sys_failure}
use beaglebone_black_motion.Osal.{
  Osal, Sequencer, Tcb, TaskState, unused, suspended, update, set_state, is_unused, max_tasks,
  osal_task_set_period,
}

-- A call on a thread: the one of the task of that number, or the one of the scheduler; and the call
-- of a task's exit function.
pub data ThreadCall : Type 0 where
  cancels : ℕ → ThreadCall
  exits : ThreadCall
  joins : ℕ → ThreadCall
  runs_exit : ℕ → ThreadCall
  kills_scheduler : ThreadCall

-- What `osal_task_delete` leaves of an entry; it keeps the exit function.
abbrev pub cleared : Tcb → Tcb
cleared t = record t { task_priority = 0 }

-- `osal_task_delete`. `created` tells which entries have a handle from `pthread_create`: with `force`,
-- `none` also stands for `pthread_cancel` on a handle that was never set, which has no defined result.
-- With `force` down the calling thread ends in it.
unfoldable pub osal_task_delete :
    (created : ℕ → Bool) → ℕ → (force : Bool) → Osal → Option (SysResult × List ThreadCall × Osal)
osal_task_delete created id force o =
    if not o.os_initialized then some (sys_failure, [], o) else elim (update cleared id o.tcbs) [
      | none ↦ none
      | some tcbs ↦ elim (update (set_state unused) id o.sequencers) [
        | none ↦ none
        | some ss ↦
            if force && not (created id)
            then none
            else some (
              sys_success,
              (if force then cancels id else exits) ∷ [],
              record o { tcbs = tcbs; sequencers = ss },
            )
      ]
    ]

-- How a call that waits on a semaphore ends: it returns, or it blocks.
pub data Wake : Type 0 where
  returns : SysResult → Wake
  blocks : Wake

-- `sem_wait` on the semaphore of an entry.
abbrev pub taken : Sequencer → Sequencer
taken s = record s { signal_sem = s.signal_sem - 1 }

-- `osal_task_suspend`: the task is marked, and waits for a signal if none is left over.
pub osal_task_suspend : ℕ → Osal → Option (Wake × Osal)
osal_task_suspend id o =
    if not o.os_initialized
    then some (returns sys_failure, o)
    else elim (get_elem? o.sequencers id) [
      | none ↦ none
      | some s ↦
          elim (update
            (λ (t : Sequencer).
              if s.signal_sem == 0 then set_state suspended t else taken (set_state suspended t))
            id o.sequencers) [
              | none ↦ none
              | some ss ↦ some (
                if s.signal_sem == 0 then blocks else returns sys_success,
                record o { sequencers = ss },
              )
            ]
    ]

-- `osal_task_delay`
pub osal_task_delay : ℕ → Osal → Option (Wake × Osal)
unfolding osal_task_suspend
osal_task_delay id o = osal_task_suspend id o

-- `osal_task_delay_period`
unfoldable pub osal_task_delay_period : ℕ → (period_ms : ℕ) → Osal → Option (Wake × Osal)
osal_task_delay_period id period_ms o = elim (osal_task_set_period id period_ms o) [
  | none ↦ none
  | some o' ↦ osal_task_suspend id o'
]

-- The loop of `osal_task_wait_all`, by the rounds that are left; `states` are the states that the
-- loop reads, which change while it waits.
unfoldable pub wait_loop : (states : ℕ → TaskState) → (rounds i : ℕ) → List ThreadCall × ℕ
wait_loop states zero i = ([], 0)
wait_loop states (suc n) i =
    let (calls, count) = wait_loop states n (i + 1) in
    if is_unused (states i) then (calls, count) else (joins i ∷ calls, suc count)

-- `osal_task_wait_all`: the threads waited for and how many there were.
unfoldable pub osal_task_wait_all : (up : Bool) → (ℕ → TaskState) → List ThreadCall × ℕ
osal_task_wait_all up states = if up then wait_loop states max_tasks 0 else ([], 0)

-- `osal_task_wait`
unfoldable pub osal_task_wait : ℕ → Osal → Option (SysResult × List ThreadCall)
osal_task_wait id o =
    if o.os_initialized
    then elim (get_elem? o.sequencers id) [
      | none ↦ none
      | some s ↦
          if is_unused s.task_state
          then some (sys_failure, [])
          else some (sys_success, joins id ∷ [])
    ]
    else some (sys_failure, [])

-- `osal_task_wait_start`: whether the call waits for the semaphore; `sval` is the value that
-- `sem_getvalue` gives.
unfoldable pub osal_task_wait_start : (sval : ℤ) → Bool
osal_task_wait_start sval = ltb_ℤ sval (pos 0)
