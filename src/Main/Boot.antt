-- ===== src/Main/Boot.antt =====
-- The start of the program: the rates of its tasks, and what a failed start leaves.
use beaglebone_black_motion.Base.{
  ℕ, ◌/◌, ◌^◌, ◌<◌, ◌≡◌, refl, true, false, Option, some, [], ◌∷◌, get_elem?, arith,
}
use beaglebone_black_motion.Base.Int.{ℤ, pos}
use beaglebone_black_motion.Types.{is_error, sys_success}
use beaglebone_black_motion.Osal.{
  Osal, Sequencer, unused, suspended, is_failure, osal_task_create, update, finish_create,
  osal_task_set_period,
}
use beaglebone_black_motion.Osal.Release.{IsReady}
use beaglebone_black_motion.Osal.Rate.{Alarmed, alarms, alarms-Alarmed}
use beaglebone_black_motion.Osal.Ticks.{waiting, Reach}
use beaglebone_black_motion.Osal.Ticks.Prompt.{caught_up, alarms-Reach}
use beaglebone_black_motion.Osal.Sync.{osal_mutex_init}
use beaglebone_black_motion.Osal.Life.{Start, osal_init, osal_start_scheduler}
use beaglebone_black_motion.Main.{
  Task, detection, camera, transcoder, nvm, period, Answers, Ending, waits, create, main, zeroed,
}

-- The real-time priorities of Linux, and calls that succeed; the results of setting the protocol of
-- the two mutexes and of `pthread_create` are left open.
abbrev pub linux : (set set' : ℤ) → (thread : Task → ℕ) → Answers
linux set set' thread = record {
  start = record {
    sched_max = 99;
    sched_min = 1;
    set_scheduler = pos 0;
    timer_create = pos 0;
    tcb_made = pos 0;
    tcb_set = set;
    sched_made = pos 0;
    sched_set = set';
    sem_init = pos 0;
  };
  inits = true;
  posix = λ t. record {
    attr_init = pos 0;
    sem_init = pos 0;
    thread_create = pos (thread t);
    sem_post = pos 0;
  };
  timer = pos 0;
}

-- The entry that a task has at the start.
abbrev pub entry : Task → Sequencer
entry t = record {
  period_ms = period t;
  period_cnts = period t / 11;
  signal_sem = 0;
  task_state = suspended;
}

-- The layer once `main` waits.
abbrev pub booted : Osal
booted = record zeroed {
  os_initialized = true;
  scheduler_started = true;
  tcbs =
      record { task_id = 0; task_priority = 95; exit_func = true }
      ∷ record { task_id = 1; task_priority = 90; exit_func = true }
      ∷ record { task_id = 2; task_priority = 80; exit_func = true }
      ∷ record { task_id = 3; task_priority = 75; exit_func = true }
      ∷ record { task_id = 0; task_priority = 0; exit_func = false }
      ∷ [];
  sequencers =
      entry detection
      ∷ entry camera
      ∷ entry transcoder
      ∷ entry nvm
      ∷ record { period_ms = 0; period_cnts = 0; signal_sem = 0; task_state = unused }
      ∷ [];
  task_idx = 4;
  rt_max_prio = 97;
  rt_min_prio = 1;
}

pub main_boots :
    (set set' : ℤ) (thread : Task → ℕ) → main (linux set set' thread) zeroed ≡ some (waits, booted)
unfolding main osal_init osal_mutex_init create osal_task_create finish_create osal_task_set_period
    osal_start_scheduler update is_error
main_boots set set' thread = ground arith

pub booted-IsReady : IsReady booted
booted-IsReady = record {
  up = refl;
  size = refl;
  next_in = omega arith;
  next_idle = λ s g. ground (arith, g);
}

-- The place of the task in the tables.
abbrev pub index : Task → ℕ
index detection = 0
index camera = 1
index transcoder = 2
index nvm = 3

-- `main` waits for its tasks, and over `n` alarms, each of which the scheduler has handled before the
-- next one, each of them gets a signal per `every` of them.
pub record Released (n : ℕ) (every : Task → ℕ) (out : Option (Ending × Osal)) : Type 0 where
  pub layer : Osal
  pub started : out ≡ some (waits, layer)
  pub after : Osal
  pub ended : alarms n layer ≡ some after
  pub reached : Reach (waiting layer) (caught_up n after)
  pub signals :
      (t : Task)
      → (s : Sequencer) × (get_elem? after.sequencers (index t) ≡ some s)
        × (s.signal_sem ≡ n / every t)

abbrev pub every : Task → ℕ
every detection = 1
every camera = 2
every transcoder = 6
every nvm = 6

signals_lem :
    (n : ℕ) (q : Alarmed n booted (alarms n booted)) (t : Task)
    → (s : Sequencer) × (get_elem? q.after.sequencers (index t) ≡ some s)
      × (s.signal_sem ≡ n / every t)
signals_lem n q detection =
    let (s, g, r) = q.entries 0 (entry detection) refl (omega arith) refl (omega arith) in
    (s, g, omega (arith, r.2, q.tick))
signals_lem n q camera =
    let (s, g, r) = q.entries 1 (entry camera) refl (omega arith) refl (omega arith) in
    (s, g, omega (arith, r.2, q.tick))
signals_lem n q transcoder =
    let (s, g, r) = q.entries 2 (entry transcoder) refl (omega arith) refl (omega arith) in
    (s, g, omega (arith, r.2, q.tick))
signals_lem n q nvm =
    let (s, g, r) = q.entries 3 (entry nvm) refl (omega arith) refl (omega arith) in
    (s, g, omega (arith, r.2, q.tick))

-- With the priorities of Linux and calls that succeed, whatever the settings of the two mutexes and
-- `pthread_create` report, the latter by 0 or a positive error number: `main` gets to its wait.
-- From there, if each of `n` alarms of the timer, fewer than 2 ^ 64, is counted and run through by the
-- sequencer before the next one comes, as the handler and the scheduler's thread can do, the detection
-- task gets `n` signals, the camera task `n / 2` and the transcoder and the streaming task `n / 6`.
pub main-Released :
    (set set' : ℤ) (thread : Task → ℕ) (n : ℕ)
    → n < 2 ^ 64
    → Released n every (main (linux set set' thread) zeroed)
main-Released set set' thread n h =
    let q = alarms-Alarmed n booted booted-IsReady (omega arith) in
    record {
      layer = booted;
      started = main_boots set set' thread;
      after = q.after;
      ended = q.ended;
      reached = alarms-Reach n booted q.ended;
      signals = signals_lem n q;
    }

-- Once the scheduling policy is set and the timer made, `osal_init` leaves the layer marked as
-- initialised: called again it reports success and changes nothing, also where the first call failed
-- on a mutex or the semaphore.
pub osal_init_again :
    (a b : Start) (o : Osal)
    → is_failure (is_error a.set_scheduler) ≡ false
    → is_failure (is_error a.timer_create) ≡ false
    → osal_init b (osal_init a o).1 ≡ (sys_success, (osal_init a o).1)
unfolding osal_init
osal_init_again a b o h k = ground (arith, h, k)
