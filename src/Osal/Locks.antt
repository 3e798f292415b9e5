-- ===== src/Osal/Locks.antt =====
-- utils/osal/osal.c: the two mutexes of the layer, `os_tcb_mutex` and `os_sched_mutex`. `trace` lists
-- the calls of `osal_mutex_lock` and `osal_mutex_unlock` that a function of the layer makes on each of
-- its branches; `Step` interleaves threads that run such functions. A thread with a priority above the
-- ceiling of the mutexes is refused a mutex and goes on without it, as the functions do not look at what
-- `osal_mutex_lock` returns; which threads these are is in Osal/Locks/Ceiling. `os_initialized` is the
-- same all through a call: it is up before any thread is made, and `osal_deinit` ends the process
-- before it takes the flag down.
pub mod Ordered
pub mod Exclusion
pub mod Progress
pub mod Completion
pub mod Ceiling
mod Tests
use beaglebone_black_motion.Base.{
  ℕ, Bool, true, false, not, ◌||◌, Option, none, some, List, [], ◌∷◌, ◌++◌, ltb, ◌==◌,
  if◌then◌else◌, ◌≡◌, ◌≤◌, ◌<◌,
}
use beaglebone_black_motion.Base.Int.{ℤ}
use beaglebone_black_motion.Types.{is_error}
use beaglebone_black_motion.Osal.{Osal, Posix, is_failure, osal_sem_init, code}
use beaglebone_black_motion.Osal.Sync.{osal_sem_signal}

pub data Mutex : Type 0 where
  os_tcb os_sched : Mutex

-- A call that takes a mutex or gives it back.
pub data Act : Type 0 where
  lock unlock : Mutex → Act

-- A function of the layer, with the results of the POSIX calls that it branches on.
pub data Api : Type 0 where
  task_create : Posix → (priority : ℕ) → Api
  task_start : (post : ℤ) → Api
  task_delete task_suspend task_set_period task_delay_period : Api
  start_scheduler stop_scheduler : Api
  create_scheduler : (attr_init : ℤ) → Api

-- `osal_mutex_lock` and `osal_mutex_unlock` do nothing while the layer is not initialised.
abbrev pub locks : (up : Bool) → Act → List Act
locks up a = if up then a ∷ [] else []

-- `osal_task_set_period`
abbrev pub set_period_trace : (up : Bool) → List Act
set_period_trace up = locks up (lock os_sched) ++ locks up (unlock os_sched)

-- `osal_task_start`, which has an early return.
pub start_trace : (post : ℤ) → (up : Bool) → List Act
start_trace post up =
    if not up
    then []
    else lock os_sched
      ∷ (if is_failure (osal_sem_signal up post)
          then unlock os_sched ∷ []
          else unlock os_sched ∷ [])

-- `osal_task_suspend`; it waits for the semaphore after it has given the mutex back.
abbrev pub suspend_trace : (up : Bool) → List Act
suspend_trace up = if up then lock os_sched ∷ unlock os_sched ∷ [] else []

-- `osal_task_delete`; the threads are ended after it.
abbrev pub delete_trace : (up : Bool) → List Act
delete_trace up = if up then lock os_sched ∷ unlock os_sched ∷ [] else []

-- `osal_start_scheduler`
abbrev pub start_scheduler_trace : (up : Bool) → List Act
start_scheduler_trace up = if up then lock os_sched ∷ unlock os_sched ∷ [] else []

-- `osal_stop_scheduler`
abbrev pub stop_scheduler_trace : (up : Bool) → List Act
stop_scheduler_trace up = if up then lock os_sched ∷ unlock os_sched ∷ [] else []

-- `osal_create_scheduler`; a failure of `pthread_create` goes to the same `cleanup`.
abbrev pub create_scheduler_trace : (attr_init : ℤ) → (up : Bool) → List Act
create_scheduler_trace attr_init up =
    if not up
    then []
    else if is_failure (is_error attr_init)
    then []
    else lock os_tcb ∷ unlock os_tcb ∷ []

-- The critical section of `osal_task_create`, with its two `goto cleanup`.
pub create_section : Posix → Osal → List Act
unfolding start_trace
create_section p o =
    if is_failure (is_error (code (osal_sem_init p.sem_init o)))
      || is_failure (is_error p.thread_create)
    then []
    else set_period_trace o.os_initialized
      ++ (if o.scheduler_started then start_trace p.sem_post o.os_initialized else [])

-- `osal_task_create`
pub create_trace : Posix → (priority : ℕ) → Osal → List Act
unfolding create_section
create_trace p priority o =
    if not o.os_initialized
    then []
    else if ltb o.rt_max_prio priority || ltb priority o.rt_min_prio
    then []
    else if is_failure (is_error p.attr_init)
    then []
    else lock os_tcb ∷ (create_section p o ++ unlock os_tcb ∷ [])

-- What a call does with the mutexes, on each of its branches.
pub trace : Api → Osal → List Act
unfolding start_trace create_trace
trace (task_create p priority) o = create_trace p priority o
trace (task_start post) o = start_trace post o.os_initialized
trace task_delete o = delete_trace o.os_initialized
trace task_suspend o = suspend_trace o.os_initialized
trace task_set_period o = set_period_trace o.os_initialized
trace task_delay_period o = set_period_trace o.os_initialized ++ suspend_trace o.os_initialized
trace start_scheduler o = start_scheduler_trace o.os_initialized
trace stop_scheduler o = stop_scheduler_trace o.os_initialized
trace (create_scheduler attr_init) o = create_scheduler_trace attr_init o.os_initialized

-- The calls of a thread, each in the state that the layer has then.
pub script : List (Api × Osal) → List Act
unfolding trace
script [] = []
script ((f, o) ∷ cs) = trace f o ++ script cs

-- A thread: what it still has to do, and which of the mutexes it holds.
pub record Thread : Type 0 where
  pub rest : List Act
  pub tcb : Bool
  pub sched : Bool

-- The threads, by number, with their priorities, and who holds the mutexes.
pub record Threads : Type 0 where
  pub priority : ℕ → ℕ
  pub ceiling : ℕ
  pub thread : ℕ → Thread
  pub tcb_owner : Option ℕ
  pub sched_owner : Option ℕ

abbrev pub put : (ℕ → Thread) → ℕ → Thread → ℕ → Thread
put f i t j = if j == i then t else f j

-- A thread takes a mutex that is free, is refused one, or gives one back; giving back a mutex that
-- another thread holds frees it.
pub data Step (s : Threads) : Threads → Type 0 where
  take_tcb :
      (i : ℕ) {rest : List Act}
      → (s.thread i).rest ≡ lock os_tcb ∷ rest
      → s.tcb_owner ≡ none
      → s.priority i ≤ s.ceiling
      → Step s (record s {
        thread = put s.thread i (record { rest = rest; tcb = true; sched = (s.thread i).sched });
        tcb_owner = some i;
      })
  take_sched :
      (i : ℕ) {rest : List Act}
      → (s.thread i).rest ≡ lock os_sched ∷ rest
      → s.sched_owner ≡ none
      → s.priority i ≤ s.ceiling
      → Step s (record s {
        thread = put s.thread i (record { rest = rest; tcb = (s.thread i).tcb; sched = true });
        sched_owner = some i;
      })
  refuse :
      (i : ℕ) (m : Mutex) {rest : List Act}
      → (s.thread i).rest ≡ lock m ∷ rest
      → s.ceiling < s.priority i
      → Step s (record s {
        thread =
            put s.thread i
              (record { rest = rest; tcb = (s.thread i).tcb; sched = (s.thread i).sched });
      })
  give_tcb :
      (i : ℕ) {rest : List Act}
      → (s.thread i).rest ≡ unlock os_tcb ∷ rest
      → Step s (record s {
        thread = put s.thread i (record { rest = rest; tcb = false; sched = (s.thread i).sched });
        tcb_owner = none;
      })
  give_sched :
      (i : ℕ) {rest : List Act}
      → (s.thread i).rest ≡ unlock os_sched ∷ rest
      → Step s (record s {
        thread = put s.thread i (record { rest = rest; tcb = (s.thread i).tcb; sched = false });
        sched_owner = none;
      })

-- The threads before their first call.
abbrev pub begin : (priority : ℕ → ℕ) → (ceiling : ℕ) → (ℕ → List (Api × Osal)) → Threads
begin priority ceiling calls = record {
  priority = priority;
  ceiling = ceiling;
  thread = λ i. record { rest = script (calls i); tcb = false; sched = false };
  tcb_owner = none;
  sched_owner = none;
}

pub data Reach (priority : ℕ → ℕ) (ceiling : ℕ) (calls : ℕ → List (Api × Osal))
    : Threads → Type 0 where
  start : Reach priority ceiling calls (begin priority ceiling calls)
  later :
      {s t : Threads} → Reach priority ceiling calls s → Step s t → Reach priority ceiling calls t
