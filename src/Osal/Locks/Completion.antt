-- ===== src/Osal/Locks/Completion.antt =====
-- Each interleaving of threads that call functions of the layer can be completed.
use beaglebone_black_motion.Base.{ℕ, zero, suc, ◌+◌, ◌≡◌, [], length}
use beaglebone_black_motion.Osal.{Osal}
use beaglebone_black_motion.Osal.Locks.{Threads, Step}

-- What the first `n` threads have left to do.
abbrev pub left : ℕ → Threads → ℕ
left zero s = 0
left (suc n) s = left n s + length (s.thread n).rest

-- Steps of the threads from one moment to a later one.
pub data Run (s : Threads) : Threads → Type 0 where
  here : Run s s
  next : {t u : Threads} → Run s t → Step t u → Run s u

-- A later moment at which all threads are done.
pub record Done (s : Threads) : Type 0 where
  pub after : Threads
  pub path : Run s after
  pub all : (i : ℕ) → (after.thread i).rest ≡ []
