-- ===== src/Osal/Sync.antt =====
-- utils/osal/osal.c: the wrappers of mutexes, semaphores and message queues. What a POSIX call
-- returns is an argument; `up` is `os_initialized`.
use beaglebone_black_motion.Base.{
  ℕ, ◌≡◌, ◌↔◌, Bool, true, false, not, ◌&&◌, List, [], ◌∷◌, ◌++◌, ◌==◌, if◌then◌else◌, arith,
}
use beaglebone_black_motion.Base.Int.{ℤ, pos, negsuc}
use beaglebone_black_motion.Types.{SysResult, sys_success, sys_failure, is_error}

-- `osal_mutex_attr_e`
pub data MutexAttr : Type 0 where
  prio_inherit prio_ceiling no_prio attr_count : MutexAttr

-- A call of the POSIX functions on mutexes.
pub data MutexCall : Type 0 where
  attr_init set_inherit set_protect set_none mutex_init attr_destroy : MutexCall
  set_ceiling : ℕ → MutexCall

-- `ret == SYS_SUCCESS`, on the `int` that a POSIX function returns.
abbrev pub is_zero : ℤ → Bool
is_zero (pos n) = n == 0
is_zero (negsuc n) = false

-- The `switch (attr)` of `osal_mutex_init`.
abbrev pub protocol : MutexAttr → (rt_max_prio : ℕ) → List MutexCall
protocol prio_inherit prio = set_inherit ∷ []
protocol prio_ceiling prio = set_ceiling prio ∷ set_protect ∷ []
protocol _ prio = set_none ∷ []

-- `osal_mutex_init`; `made` is what `pthread_mutexattr_init` returns and `set` the result that the
-- `switch` keeps.
unfoldable pub osal_mutex_init :
    (up : Bool) → MutexAttr → (rt_max_prio : ℕ) → (made set : ℤ) → SysResult × List MutexCall
osal_mutex_init up attr prio made set =
    if not up
    then (sys_failure, [])
    else if not (is_zero made)
    then (sys_failure, attr_init ∷ [])
    else (
      sys_success,
      attr_init ∷ protocol attr prio
          ++ (if is_zero set then mutex_init ∷ attr_destroy ∷ [] else attr_destroy ∷ []),
    )

-- `osal_mutex_delete`, `osal_sem_delete`, `osal_queue_delete`, `osal_queue_send` and
-- `osal_queue_receive`: the result of the POSIX call through `IS_ERROR`.
pub osal_mutex_delete : ℤ → SysResult
osal_mutex_delete ret = is_error ret

unfoldable pub osal_sem_delete : ℤ → SysResult
osal_sem_delete ret = is_error ret

unfoldable pub osal_queue_delete : ℤ → SysResult
osal_queue_delete ret = is_error ret

unfoldable pub osal_queue_send : ℤ → SysResult
osal_queue_send ret = is_error ret

unfoldable pub osal_queue_receive : ℤ → SysResult
osal_queue_receive ret = is_error ret

-- `osal_mutex_lock`
pub osal_mutex_lock : (up : Bool) → ℤ → SysResult
osal_mutex_lock up ret = if not up then sys_failure else is_error ret

-- `osal_mutex_unlock`
pub osal_mutex_unlock : (up : Bool) → ℤ → SysResult
osal_mutex_unlock up ret = if not up then sys_failure else is_error ret

-- `osal_sem_signal`
unfoldable pub osal_sem_signal : (up : Bool) → ℤ → SysResult
osal_sem_signal up ret = if not up then sys_failure else is_error ret

-- `osal_sem_wait`
unfoldable pub osal_sem_wait : (up : Bool) → ℤ → SysResult
osal_sem_wait up ret = if not up then sys_failure else is_error ret

-- `*queue == (mqd_t)-1`
abbrev pub is_minus_one : ℤ → Bool
is_minus_one (pos n) = false
is_minus_one (negsuc n) = n == 0

-- `osal_queue_create`, from what `mq_open` returns.
unfoldable pub osal_queue_create : (up : Bool) → ℤ → SysResult
osal_queue_create up queue =
    if not up then sys_failure else if is_minus_one queue then sys_failure else sys_success

-- Whether a list of calls makes the mutex.
abbrev pub makes : List MutexCall → Bool
makes [] = false
makes (mutex_init ∷ cs) = true
makes (_ ∷ cs) = makes cs

-- A failure to set the protocol is not reported: `osal_mutex_init` returns success whenever the
-- attributes could be made, but the mutex itself is made only if the protocol was set, too.
pub osal_mutex_init_unmade :
    (attr : MutexAttr) (prio : ℕ) (made set : ℤ)
    → let (r, calls) = osal_mutex_init true attr prio made set in
      ((r ≡ sys_success) ↔ (is_zero made ≡ true)) × (makes calls ≡ is_zero made && is_zero set)
unfolding osal_mutex_init
osal_mutex_init_unmade attr prio made set = ground arith

-- The POSIX functions on mutexes return 0 or a positive error number, which `IS_ERROR` never takes
-- for an error: once the layer is initialised, taking and giving back a mutex succeeds whatever
-- becomes of it.
pub osal_mutex_never_fails :
    (e : ℕ)
    → (osal_mutex_lock true (pos e) ≡ sys_success)
      × (osal_mutex_unlock true (pos e) ≡ sys_success)
      × (osal_mutex_delete (pos e) ≡ sys_success)
unfolding osal_mutex_lock osal_mutex_unlock osal_mutex_delete is_error
osal_mutex_never_fails e = ground arith
