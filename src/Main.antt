-- ===== src/Main.antt =====
-- src/main.c: the start of the program, up to where `main` waits for the tasks to end, and its end.
pub mod Boot
pub mod End
pub mod Interrupted
pub mod Simple
mod Tests
use beaglebone_black_motion.Base.{
  ℕ, ◌*◌, Bool, true, false, not, ◌||◌, Option, none, some, List, [], ◌∷◌, replicate, if◌then◌else◌,
}
use beaglebone_black_motion.Base.Int.{ℤ, pos}
use beaglebone_black_motion.Osal.{
  Osal, Sequencer, Tcb, Posix, unused, is_failure, max_tasks, osal_task_create,
}
use beaglebone_black_motion.Osal.Threads.{ThreadCall}
use beaglebone_black_motion.Osal.Life.{
  Start, osal_init, osal_start_scheduler, done, killed, osal_deinit,
}
use beaglebone_black_motion.Framebuffer.Setup.{Buffer}
use beaglebone_black_motion.Framebuffer.Teardown.{ReleaseCall, framebuffer_deinit}

-- The tasks that `main` creates, in its order.
pub data Task : Type 0 where
  detection camera transcoder nvm : Task

abbrev pub tasks : List Task
tasks = detection ∷ camera ∷ transcoder ∷ nvm ∷ []

-- What `prio` holds at the call for the task.
abbrev pub priority : Task → ℕ
priority detection = 95
priority camera = 90
priority transcoder = 80
priority nvm = 75

-- `TASK_RATE_100HZ`, `TASK_RATE_50HZ` and `TASK_RATE_30HZ`
abbrev pub task_rate_100hz : ℕ
task_rate_100hz = 11

abbrev pub task_rate_50hz : ℕ
task_rate_50hz = 22

abbrev pub task_rate_30hz : ℕ
task_rate_30hz = 33

-- The period that `main` passes for the task.
abbrev pub period : Task → ℕ
period detection = task_rate_100hz
period camera = task_rate_50hz
period transcoder = 2 * task_rate_30hz
period nvm = 2 * task_rate_30hz

-- What the calls return that `main` leads to: `inits` says whether all of `camera_init`,
-- `framebuffer_init`, `nvm_init`, `transcoder_init` and `detection_init` return, `timer` is the
-- result of `timer_settime`.
pub record Answers : Type 0 where
  pub start : Start
  pub inits : Bool
  pub posix : Task → Posix
  pub timer : ℤ

-- The program ends with this code, or waits for its tasks.
pub data Ending : Type 0 where
  ends : ℕ → Ending
  waits : Ending
  dies : List ThreadCall → Ending

-- The calls of `osal_task_create` for these tasks, until one does not succeed; whether all did.
pub create : (Task → Posix) → List Task → Osal → Option (Bool × Osal)
create posix [] o = some (true, o)
create posix (t ∷ ts) o = elim (osal_task_create (posix t) (priority t) true (period t) o) [
  | none ↦ none
  | some (r, id, o') ↦
      let rest = create posix ts o' in if is_failure r then some (false, o') else rest
]

-- `main`, up to `osal_task_wait_all`.
pub main : Answers → Osal → Option (Ending × Osal)
main a o =
    let (r, o1) = osal_init a.start o in
    if is_failure r
    then some (ends 1, o1)
    else if not a.inits
    then some (ends 1, o1)
    else elim (create a.posix tasks o1) [
      | none ↦ none
      | some (created, o2) ↦
          if not created
          then some (ends 1, o2)
          else let (r', interval, o3) = osal_start_scheduler a.timer o2 in
            if is_failure r' then some (ends 1, o3) else some (waits, o3)
    ]

-- The end of `main`, after `osal_task_wait_all`: how it ends, and the calls on the camera's buffers.
pub finish : (created : ℕ → Bool) → ℤ → List Buffer → Osal → Option (Ending × List ReleaseCall)
finish created framebuffer_fd buffers o = elim (framebuffer_deinit framebuffer_fd buffers) [
  | none ↦ none
  | some (r, released) ↦ elim (osal_deinit created o) [
    | none ↦ none
    | some (done r') ↦ some (ends 0, released)
    | some (killed calls o') ↦ some (dies calls, released)
  ]
]

-- The static variables of the layer when the program starts: all zero.
abbrev pub zeroed : Osal
zeroed = record {
  os_initialized = false;
  scheduler_started = false;
  tcbs = replicate max_tasks (record { task_id = 0; task_priority = 0; exit_func = false });
  sequencers =
      replicate max_tasks
        (record { period_ms = 0; period_cnts = 0; signal_sem = 0; task_state = unused });
  task_idx = 0;
  rt_max_prio = 0;
  rt_min_prio = 0;
  tick = 0;
  start_shutdown = false;
}
