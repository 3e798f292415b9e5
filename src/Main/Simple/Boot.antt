-- ===== src/Main/Simple/Boot.antt =====
-- The demonstration from its start to the end of its two tasks.
use beaglebone_black_motion.Base.{
  ℕ, ◌/◌, ◌^◌, ◌<◌, ◌≡◌, refl, ap, true, false, Option, some, [], ◌∷◌, length, arith,
}
use beaglebone_black_motion.Base.Int.{pos}
use beaglebone_black_motion.Types.{is_error}
use beaglebone_black_motion.Osal.{
  Osal, Sequencer, Posix, unused, suspended, osal_task_create, update, finish_create,
  osal_task_set_period,
}
use beaglebone_black_motion.Osal.Release.{IsReady}
use beaglebone_black_motion.Osal.Rate.{alarms, alarms-Alarmed}
use beaglebone_black_motion.Osal.Sync.{osal_mutex_init}
use beaglebone_black_motion.Osal.Life.{osal_init, osal_start_scheduler}
use beaglebone_black_motion.Main.{Ending, waits, zeroed}
use beaglebone_black_motion.Main.Boot.{linux}
use beaglebone_black_motion.Main.Simple.{
  Hello, hellodog, hellocat, period, main_simple, create_hello, hello_task,
}
use beaglebone_black_motion.Main.Simple.Greets.{Result, hello_task-Result}

abbrev pub works : Posix
works = record { attr_init = pos 0; sem_init = pos 0; thread_create = pos 0; sem_post = pos 0 }

abbrev pub entry : Hello → Sequencer
entry t = record {
  period_ms = period t;
  period_cnts = period t / 11;
  signal_sem = 0;
  task_state = suspended;
}

-- The layer once `main` waits.
abbrev pub simple_booted : Osal
simple_booted = record zeroed {
  os_initialized = true;
  scheduler_started = true;
  tcbs =
      record { task_id = 0; task_priority = 90; exit_func = false }
      ∷ record { task_id = 1; task_priority = 80; exit_func = false }
      ∷ record { task_id = 0; task_priority = 0; exit_func = false }
      ∷ record { task_id = 0; task_priority = 0; exit_func = false }
      ∷ record { task_id = 0; task_priority = 0; exit_func = false }
      ∷ [];
  sequencers =
      entry hellodog
      ∷ entry hellocat
      ∷ record { period_ms = 0; period_cnts = 0; signal_sem = 0; task_state = unused }
      ∷ record { period_ms = 0; period_cnts = 0; signal_sem = 0; task_state = unused }
      ∷ record { period_ms = 0; period_cnts = 0; signal_sem = 0; task_state = unused }
      ∷ [];
  task_idx = 2;
  rt_max_prio = 97;
  rt_min_prio = 1;
}

main_boots :
    main_simple (linux (pos 0) (pos 0) (λ t. 0)) (λ t. works) zeroed ≡ some (waits, simple_booted)
unfolding main_simple create_hello osal_init osal_mutex_init osal_task_create finish_create
    osal_task_set_period osal_start_scheduler update is_error
main_boots = refl

booted-IsReady : IsReady simple_booted
booted-IsReady = record {
  up = refl;
  size = refl;
  next_in = omega arith;
  next_idle = λ s g. ground (arith, g);
}

-- `main` waits, the alarms are defined, and after them each of the two tasks has its result.
pub record Performed (n : ℕ) (out : Option (Ending × Osal)) : Type 0 where
  pub layer : Osal
  pub started : out ≡ some (waits, layer)
  pub after : Osal
  pub ended : alarms n layer ≡ some after
  pub dog : Result (n / 90) 0 (hello_task 5 0 after)
  pub cat : Result (n / 272) 1 (hello_task 5 1 after)

-- Built with `SIMPLE_TASKS`, with the priorities of Linux and calls that succeed: `main` gets to its
-- wait. If each of `n` alarms of the timer, fewer than 2 ^ 64, is handled before the next one, and the
-- two tasks get the processor only after them, they get `n / 90` and `n / 272` signals. With these each of them greets once more than it got signals and waits, or, from four
-- signals on, greets four times and deletes itself.
pub main_simple-Performed :
    (n : ℕ)
    → n < 2 ^ 64
    → Performed n (main_simple (linux (pos 0) (pos 0) (λ t. 0)) (λ t. works) zeroed)
main_simple-Performed n h =
    let q = alarms-Alarmed n simple_booted booted-IsReady (omega arith) in
    let (s, g, r) = q.entries 0 (entry hellodog) refl (omega arith) refl (omega arith) in
    let (s', g', r') = q.entries 1 (entry hellocat) refl (omega arith) refl (omega arith) in
    record {
      layer = simple_booted;
      started = main_boots;
      after = q.after;
      ended = q.ended;
      dog = hello_task-Result 5 0 (n / 90) q.after (omega arith) (record {
        up = q.ready.up;
        tcb = omega (arith, ap length q.tcbs);
        entry = s;
        found = g;
        signals = omega (arith, r.2, q.tick);
      });
      cat = hello_task-Result 5 1 (n / 272) q.after (omega arith) (record {
        up = q.ready.up;
        tcb = omega (arith, ap length q.tcbs);
        entry = s';
        found = g';
        signals = omega (arith, r'.2, q.tick);
      });
    }
