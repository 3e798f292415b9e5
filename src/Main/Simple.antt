-- ===== src/Main/Simple.antt =====
-- src/main.c built with `SIMPLE_TASKS`: two tasks that greet and end in place of those of the camera.
pub mod Greets
pub mod Boot
use beaglebone_black_motion.Base.{
  ℕ, zero, suc, ◌+◌, ◌*◌, Bool, true, false, Option, none, some, List, [], ◌∷◌, leb, if◌then◌else◌,
}
use beaglebone_black_motion.Types.{u32}
use beaglebone_black_motion.Osal.{Osal, Posix, is_failure, osal_task_create}
use beaglebone_black_motion.Osal.Life.{osal_init, osal_start_scheduler}
use beaglebone_black_motion.Osal.Threads.{
  Wake, returns, blocks, ThreadCall, osal_task_delay, osal_task_delete,
}
use beaglebone_black_motion.Main.{Answers, Ending, ends, waits}

-- `TASK_RATE_1HZ`
abbrev pub task_rate_1hz : ℕ
task_rate_1hz = 1000

pub data Hello : Type 0 where
  hellodog hellocat : Hello

abbrev pub priority : Hello → ℕ
priority hellodog = 90
priority hellocat = 80

abbrev pub period : Hello → ℕ
period hellodog = task_rate_1hz
period hellocat = 3 * task_rate_1hz

-- A call of `osal_task_create`; the task has no exit function, and a failure is traced only.
pub create_hello : Hello → Posix → Osal → Option Osal
create_hello t posix o = elim (osal_task_create posix (priority t) false (period t) o) [
  | none ↦ none
  | some (r, id, o') ↦ some o'
]

-- `main`, up to `osal_task_wait_all`.
pub main_simple : Answers → (posix : Hello → Posix) → Osal → Option (Ending × Osal)
unfolding create_hello
main_simple a posix o =
    let (r, o1) = osal_init a.start o in
    if is_failure r then some (ends 1, o1) else elim (create_hello hellodog (posix hellodog) o1) [
      | none ↦ none
      | some o2 ↦ elim (create_hello hellocat (posix hellocat) o2) [
        | none ↦ none
        | some o3 ↦
            let (r', interval, o4) = osal_start_scheduler a.timer o3 in
            if is_failure r' then some (ends 1, o4) else some (waits, o4)
      ]
    ]

-- How far a task has got: it waits in `osal_task_delay`, or it has called `osal_task_delete`.
pub data Stage : Type 0 where
  delayed : Stage
  deleted : List ThreadCall → Stage

-- What a run of a task leaves: the counts that it has traced, where it stands, and the layer.
abbrev pub Run : Type 0
Run = List ℕ × Stage × Osal

abbrev pub traced : ℕ → Option Run → Option Run
traced count none = none
traced count (some (counts, stage, o)) = some (count ∷ counts, stage, o)

-- The loop of `HelloDog_Task` and of `HelloCat_Task`, with the signals that its semaphore holds: on
-- fuel, and up to a delay that waits; no alarm comes in between. `none` is a loop that has not ended, or an access outside of the
-- tables.
pub hello_loop : (fuel : ℕ) → (id count : ℕ) → Osal → Option Run
hello_loop zero id count o = none
hello_loop (suc fuel) id count o =
    let count' = u32 (count + 1) in
    if leb 5 count'
    then elim (osal_task_delete (λ k. true) id false o) [
      | none ↦ none
      | some (r, calls, o') ↦ some ([], deleted calls, o')
    ]
    else elim (osal_task_delay id o) [
      | none ↦ none
      | some (w, o') ↦
          let rest = hello_loop fuel id count' o' in
          elim w [ returns r ↦ traced count' rest | blocks ↦ some (count' ∷ [], delayed, o') ]
    ]

-- `HelloDog_Task` and `HelloCat_Task`, from `count = 0` on. `osal_task_wait_start` does not change the
-- layer.
pub hello_task : (fuel : ℕ) → (id : ℕ) → Osal → Option Run
unfolding hello_loop
hello_task fuel id o = hello_loop fuel id 0 o
