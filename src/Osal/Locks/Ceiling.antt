-- ===== src/Osal/Locks/Ceiling.antt =====
-- utils/osal/osal.c: the priorities of the threads against the ceiling of the two mutexes, which is
-- `rt_max_prio`. A mutex with `PTHREAD_PRIO_PROTECT` refuses a thread whose priority is above its
-- ceiling: `pthread_mutex_lock` returns `EINVAL` and the thread does not get the mutex.
use beaglebone_black_motion.Base.{ℕ, ◌+◌, ◌<◌, ◌≤◌, ◌≡◌, true, Option, none, some, List, [], ◌∷◌}
use beaglebone_black_motion.Base.Int.{ℤ, pos}
use beaglebone_black_motion.Types.{sys_success}
use beaglebone_black_motion.Osal.{Osal}
use beaglebone_black_motion.Osal.Sync.{MutexCall, set_ceiling, mutex_init, osal_mutex_lock}

-- `main_param.sched_priority`, the priority of the thread of `main` from `osal_init` on.
abbrev pub main_priority : Osal → ℕ
main_priority o = o.rt_max_prio + 2

-- The priority of the thread of the scheduler, set by `osal_create_scheduler`.
abbrev pub scheduler_priority : Osal → ℕ
scheduler_priority o = o.rt_max_prio + 1

-- `pthread_mutex_lock` on a free mutex, by the priority of the thread and the ceiling, and what POSIX
-- says of it: 0, or a positive error number for a thread above the ceiling.
pub record IsLock (pthread_mutex_lock : (priority ceiling : ℕ) → ℤ) : Type 0 where
  pub below : (p c : ℕ) → p ≤ c → pthread_mutex_lock p c ≡ pos 0
  pub above : (p c : ℕ) → c < p → (e : ℕ) × (pthread_mutex_lock p c ≡ pos (e + 1))

-- The ceiling of the mutex that a list of calls makes: the last one set before `pthread_mutex_init`.
abbrev pub ceiling_of : Option ℕ → List MutexCall → Option ℕ
ceiling_of c [] = none
ceiling_of c (set_ceiling n ∷ cs) = ceiling_of (some n) cs
ceiling_of c (mutex_init ∷ cs) = c
ceiling_of c (_ ∷ cs) = ceiling_of c cs

-- A thread of this priority does not get the mutex and is told that it did.
abbrev pub Unprotected : ((priority ceiling : ℕ) → ℤ) → (priority ceiling : ℕ) → Type 0
Unprotected pthread_mutex_lock p c =
    ((e : ℕ) × (pthread_mutex_lock p c ≡ pos (e + 1)))
    × (osal_mutex_lock true (pthread_mutex_lock p c) ≡ sys_success)

-- The mutexes of the layer have the ceiling `c`, a thread of this priority gets one that is free, and
-- the threads of `main` and of the scheduler do not.
pub record Ceiling (pthread_mutex_lock : (priority ceiling : ℕ) → ℤ) (priority : ℕ) (o : Osal)
    (calls : List MutexCall) : Type 0 where
  pub c : ℕ
  pub made : ceiling_of none calls ≡ some c
  pub gets : pthread_mutex_lock priority c ≡ pos 0
  pub main : Unprotected pthread_mutex_lock (main_priority o) c
  pub scheduler : Unprotected pthread_mutex_lock (scheduler_priority o) c
