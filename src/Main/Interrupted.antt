-- ===== src/Main/Interrupted.antt =====
-- The program from its start to the signal that ends it.
use beaglebone_black_motion.Base.{
  ℕ, zero, suc, ◌==◌, ◌≡◌, refl, sym, ap, ap₂, ◌∙◌, Bool, true, false, Option, none, some,
  some-injective, List, [], ◌∷◌, get_elem?, arith,
}
use beaglebone_black_motion.Base.Int.{ℤ}
use beaglebone_black_motion.Osal.{Osal, Sequencer, Signal, is_unused}
use beaglebone_black_motion.Osal.Threads.{ThreadCall, runs_exit}
use beaglebone_black_motion.Osal.Life.{osal_signal_handler_task}
use beaglebone_black_motion.Osal.Life.Shutdown.{
  exit_calls, deinit_end, Five, five, StayInUse, some_wake_asks, osal_signal_handler_task-Stops,
}
use beaglebone_black_motion.Main.{
  Task, detection, camera, transcoder, nvm, Ending, waits, main, zeroed,
}
use beaglebone_black_motion.Main.Boot.{linux, booted, booted-IsReady, main_boots, entry}

-- The exit functions of the four tasks, in the order in which `main` created them.
abbrev pub all_exits : List ThreadCall
all_exits = runs_exit 0 ∷ runs_exit 1 ∷ runs_exit 2 ∷ runs_exit 3 ∷ []

in_use :
    (ss : List Sequencer) (j : ℕ) (x : Sequencer)
    → ((s' : Sequencer) × (get_elem? ss j ≡ some s') × (is_unused s'.task_state ≡ false))
    → get_elem? ss j ≡ some x
    → is_unused x.task_state ≡ false
in_use ss j x (s', g, u) e =
    ap (λ (z : Sequencer). is_unused z.task_state) (some-injective x s' (sym e ∙ g)) ∙ u

five_exits :
    (a b c d e : Sequencer)
    → is_unused a.task_state ≡ false
    → is_unused b.task_state ≡ false
    → is_unused c.task_state ≡ false
    → is_unused d.task_state ≡ false
    → exit_calls 0 (a ∷ b ∷ c ∷ d ∷ e ∷ []) booted.tcbs ≡ all_exits
five_exits a b c d e ha hb hc hd = ground (arith, ha, hb, hc, hd)

booted_exits :
    (last : Osal) (f : Five last.sequencers)
    → StayInUse booted last
    → exit_calls 0 last.sequencers booted.tcbs ≡ all_exits
booted_exits last f k =
    let at : (j : ℕ)
        → get_elem? last.sequencers j ≡ get_elem? (f.a ∷ f.b ∷ f.c ∷ f.d ∷ f.e ∷ []) j =
      λ j. ap (λ ss. get_elem? ss j) f.all in
    ap (λ ss. exit_calls 0 ss booted.tcbs) f.all
    ∙ five_exits f.a f.b f.c f.d f.e
        (in_use last.sequencers 0 f.a (k 0 (entry detection) refl refl) (at 0))
        (in_use last.sequencers 1 f.b (k 1 (entry camera) refl refl) (at 1))
        (in_use last.sequencers 2 f.c (k 2 (entry transcoder) refl refl) (at 2))
        (in_use last.sequencers 3 f.d (k 3 (entry nvm) refl refl) (at 3))

-- The entries whose thread `pthread_create` has made; there are four tasks.
abbrev pub made_by : (thread : Task → ℕ) → ℕ → Bool
made_by thread zero = thread detection == 0
made_by thread (suc zero) = thread camera == 0
made_by thread (suc (suc zero)) = thread transcoder == 0
made_by thread (suc (suc (suc zero))) = thread nvm == 0
made_by thread _ = false

undefined_end : (created : ℕ → Bool) (o : Osal) → created 4 ≡ false → deinit_end created o ≡ none
undefined_end created o h = ground arith

-- The program has started, and the thread of the scheduler has run the exit functions.
pub record Interrupted (thread : Task → ℕ) (ret : ℤ) (ws : List (List Signal))
    (out : Option (Ending × Osal)) : Type 0 where
  pub layer : Osal
  pub started : out ≡ some (waits, layer)
  pub ended : osal_signal_handler_task (made_by thread) ret ws layer ≡ some (all_exits, none)

-- With the priorities of Linux and calls that succeed, whatever the settings of the two mutexes and
-- `pthread_create` report, the latter by 0 or a positive error number: `main` gets to its wait, and if
-- SIGINT or SIGTERM is among the signals of one of the wakes of the scheduler's thread, this thread
-- runs the exit functions of the four tasks in the order of their creation, each once, whatever the
-- timer did before; `osal_deinit`, which follows, has no defined result, as the fifth entry of the
-- table has no thread to cancel.
pub main-Interrupted :
    (set set' : ℤ) (thread : Task → ℕ) (ret : ℤ) (ws : List (List Signal))
    → some_wake_asks ws ≡ true
    → Interrupted thread ret ws (main (linux set set' thread) zeroed)
main-Interrupted set set' thread ret ws h =
    let q =
      osal_signal_handler_task-Stops (made_by thread) ret ws booted refl booted-IsReady refl h in
    record {
      layer = booted;
      started = main_boots set set' thread;
      ended =
          q.ended
          ∙ ap₂ (λ calls d. some (calls, d))
              (booted_exits q.last (five q.last.sequencers q.ready.size) q.in_use)
              (undefined_end (made_by thread) q.last refl);
    }
