-- ===== src/Osal.antt =====
-- utils/osal/osal.c: the task table and the sequencer that releases the tasks. `none` is an access
-- outside of the two tables of `MAX_TASKS` entries. The results of the POSIX calls are arguments; the
-- locks, the thread attributes and the handles of threads are left out.
pub mod Start
pub mod Release
pub mod Rate
pub mod Create
pub mod Sync
pub mod Threads
pub mod Life
pub mod Ticks
pub mod Locks
mod Tests
use beaglebone_black_motion.Base.{
  ℕ, zero, suc, ◌+◌, ◌/◌, ◌%◌, ◌^◌, Bool, true, false, not, ◌&&◌, ◌||◌, Option, none, some, List,
  ltb, ◌==◌, get_elem?, set, if◌then◌else◌,
}
use beaglebone_black_motion.Base.Int.{ℤ, pos, negsuc}
use beaglebone_black_motion.Types.{SysResult, sys_success, sys_failure, is_error, u8}

-- `MAX_TASKS` and `TIMER_TICK_MS`
abbrev pub max_tasks : ℕ
max_tasks = 5

abbrev pub timer_tick_ms : ℕ
timer_tick_ms = 11

-- `osal_task_state_e`
pub data TaskState : Type 0 where
  unused running suspended state_count : TaskState

-- `osal_task_tcb_t`: the entries that the code reads again. `exit_func` says whether
-- `task_exit_func` is set.
pub record Tcb : Type 0 where
  pub task_id : ℕ
  pub task_priority : ℕ
  pub exit_func : Bool

-- `osal_sequencer_t`; of the semaphore, its count.
pub record Sequencer : Type 0 where
  pub period_ms : ℕ
  pub period_cnts : ℕ
  pub signal_sem : ℕ
  pub task_state : TaskState

-- The static variables of the file.
pub record Osal : Type 0 where
  pub os_initialized : Bool
  pub scheduler_started : Bool
  pub tcbs : List Tcb
  pub sequencers : List Sequencer
  pub task_idx : ℕ
  pub rt_max_prio : ℕ
  pub rt_min_prio : ℕ
  pub tick : ℕ
  pub start_shutdown : Bool

-- An assignment to an entry of a table.
unfoldable pub update {ℓ} : {A : Type ℓ} → (A → A) → ℕ → List A → Option (List A)
update f i xs = elim (get_elem? xs i) [ none ↦ none | some x ↦ some (set xs i (f x)) ]

abbrev pub is_failure : SysResult → Bool
is_failure sys_failure = true
is_failure _ = false

-- `sem_post` on the semaphore of an entry.
abbrev pub posted : Sequencer → Sequencer
posted s = record s { signal_sem = s.signal_sem + 1 }

abbrev pub set_state : TaskState → Sequencer → Sequencer
set_state t s = record s { task_state = t }

-- `osal_task_start`; `post` is what `sem_post` returns.
pub osal_task_start : (post : ℤ) → ℕ → Osal → Option (SysResult × Osal)
osal_task_start post id o =
    if not o.os_initialized
    then some (sys_failure, o)
    else if is_failure (is_error post)
    then some (sys_failure, o)
    else elim (update posted id o.sequencers) [
      | none ↦ none
      | some ss ↦ elim (update (set_state running) o.task_idx ss) [
        | none ↦ none
        | some ss' ↦ some (sys_success, record o { sequencers = ss' })
      ]
    ]

-- `osal_task_set_period`
unfoldable pub osal_task_set_period : ℕ → (period_ms : ℕ) → Osal → Option Osal
osal_task_set_period id period_ms o =
    elim (update (λ s. record s { period_ms = period_ms; period_cnts = period_ms / timer_tick_ms })
      id o.sequencers) [ none ↦ none | some ss ↦ some (record o { sequencers = ss }) ]

-- `osal_sem_init`, from what `sem_init` returns.
abbrev pub osal_sem_init : ℤ → Osal → SysResult
osal_sem_init ret o = if not o.os_initialized then sys_failure else is_error ret

-- What `sem_init` does to the semaphore of an entry.
abbrev pub sem_reset : ℤ → Sequencer → Sequencer
sem_reset ret s = if is_failure (is_error ret) then s else record s { signal_sem = 0 }

-- A `sys_result_e` as the `int` that the code assigns it to.
abbrev pub code : SysResult → ℤ
code sys_success = pos 0
code sys_failure = pos 1
code SysResult.sys_ignore = pos 2
code SysResult.sys_count = pos 3

-- What the POSIX calls of `osal_task_create` return: `pthread_attr_init`, `sem_init`,
-- `pthread_create`, and `sem_post` in `osal_task_start`.
pub record Posix : Type 0 where
  pub attr_init : ℤ
  pub sem_init : ℤ
  pub thread_create : ℤ
  pub sem_post : ℤ

-- The end of the critical section of `osal_task_create`, once the thread is made.
unfoldable pub finish_create : Posix → (period_ms : ℕ) → Osal → Option Osal
finish_create p period_ms o = elim (osal_task_set_period o.task_idx period_ms o) [
  | none ↦ none
  | some o' ↦
      let started =
        if o'.scheduler_started
        then elim (osal_task_start (p.sem_post) o'.task_idx o') [
          | none ↦ none
          | some (r, o'') ↦ some o''
        ]
        else elim (update (set_state suspended) o'.task_idx o'.sequencers) [
          | none ↦ none
          | some ss ↦ some (record o' { sequencers = ss })
        ] in
      elim started [
        | none ↦ none
        | some o'' ↦ some (record o'' { task_idx = u8 (o''.task_idx + 1) })
      ]
]

-- `osal_task_create`: what it returns, `*id`, and the new state. The second test is on the `int`
-- that `osal_sem_init` was assigned to.
unfoldable pub osal_task_create :
    Posix
    → (priority : ℕ) → (exit_func : Bool) → (period_ms : ℕ) → Osal
    → Option (SysResult × Option ℕ × Osal)
osal_task_create p priority exit_func period_ms o =
    if not o.os_initialized
    then some (sys_failure, none, o)
    else if ltb o.rt_max_prio priority || ltb priority o.rt_min_prio
    then some (sys_failure, none, o)
    else if is_failure (is_error p.attr_init)
    then some (sys_failure, none, o)
    else elim (update
        (λ (t : Tcb). record {
          task_id = o.task_idx;
          task_priority = priority;
          exit_func = exit_func;
        })
        o.task_idx o.tcbs) [
          | none ↦ none
          | some tcbs ↦ elim (update (sem_reset p.sem_init) o.task_idx o.sequencers) [
            | none ↦ none
            | some ss ↦
                let o' = record o { tcbs = tcbs; sequencers = ss } in
                if is_failure (is_error (code (osal_sem_init p.sem_init o')))
                  || is_failure (is_error p.thread_create)
                then some (sys_success, some o.task_idx, o')
                else elim (finish_create p period_ms o') [
                  | none ↦ none
                  | some o'' ↦ some (sys_success, some o.task_idx, o'')
                ]
          ]
        ]

abbrev pub is_unused : TaskState → Bool
is_unused unused = true
is_unused _ = false

-- The two tests of `osal_task_generic_sequencer` on an entry.
abbrev pub is_due : (tick : ℕ) → Sequencer → Bool
is_due tick s =
    not (is_unused s.task_state) && not (s.period_cnts == 0) && (tick % s.period_cnts == 0)

-- The body of the loop of `osal_task_generic_sequencer`; `post` is what `sem_post` returns.
pub sequence : (post : ℤ) → ℕ → Osal → Option Osal
sequence post i o = elim (get_elem? o.sequencers i) [
  | none ↦ none
  | some s ↦
      if is_due o.tick s
      then elim (osal_task_start post i o) [ none ↦ none | some (r, o') ↦ some o' ]
      else some o
]

-- The loop, by the rounds that are left.
pub sequence_loop : (ℕ → ℤ) → (rounds i : ℕ) → Osal → Option Osal
sequence_loop posts zero i o = some o
sequence_loop posts (suc n) i o = elim (sequence (posts i) i o) [
  | none ↦ none
  | some o' ↦ sequence_loop posts n (i + 1) o'
]

-- `osal_task_generic_sequencer`
pub osal_task_generic_sequencer : (ℕ → ℤ) → Osal → Option Osal
osal_task_generic_sequencer posts o = sequence_loop posts max_tasks 0 o

-- The signals that `osal_signal_handler_dispatcher` looks at.
pub data Signal : Type 0 where
  sigalrm sigint sigterm other : Signal

-- `osal_signal_handler_dispatcher`, without the semaphore of the scheduler's thread; `tick` has 64
-- bits.
pub osal_signal_handler_dispatcher : Signal → Osal → Osal
osal_signal_handler_dispatcher sigalrm o = record o { tick = (o.tick + 1) % 2 ^ 64 }
osal_signal_handler_dispatcher sigint o = record o { start_shutdown = true }
osal_signal_handler_dispatcher sigterm o = record o { start_shutdown = true }
osal_signal_handler_dispatcher other o = o
