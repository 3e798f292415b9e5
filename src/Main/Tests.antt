-- ===== src/Main/Tests.antt =====
-- Runs of the start of the program, and the witnesses of its properties.
use beaglebone_black_motion.Osal.{Signal, sigalrm, sigint}
use beaglebone_black_motion.Main.Interrupted.{Interrupted, main-Interrupted}
use beaglebone_black_motion.Base.{List, [], ◌∷◌, refl, ℕ, arith}
use beaglebone_black_motion.Base.Int.{pos}
use beaglebone_black_motion.Main.{Task, main, zeroed}
use beaglebone_black_motion.Main.Boot.{linux, Released, every, main-Released}

-- No thread was made for the tasks.
abbrev no_threads : Task → ℕ
no_threads t = 11

main-Released_example : Released 13 every (main (linux (pos 0) (pos 0) no_threads) zeroed)
main-Released_example = main-Released (pos 0) (pos 0) no_threads 13 (omega arith)

abbrev all_threads : Task → ℕ
all_threads t = 0

-- Two alarms, and SIGINT before the second.
abbrev wakes : List (List Signal)
wakes = (sigalrm ∷ []) ∷ (sigint ∷ sigalrm ∷ []) ∷ []

main-Interrupted_example :
    Interrupted all_threads (pos 0) wakes (main (linux (pos 0) (pos 0) all_threads) zeroed)
main-Interrupted_example = main-Interrupted (pos 0) (pos 0) all_threads (pos 0) wakes refl
