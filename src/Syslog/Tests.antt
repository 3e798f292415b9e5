-- ===== src/Syslog/Tests.antt =====
-- Runs of the log, and the witnesses of its properties.
use beaglebone_black_motion.Types.{sys_success}
use beaglebone_black_motion.Syslog.{syslog_init, syslog_getsysname, syslog_printheader}
use beaglebone_black_motion.Syslog.Name.{IsChar, syslog_init_name}
use beaglebone_black_motion.Base.{
  ℕ, zero, suc, All, ◌≡◌, ◌+◌, refl, true, false, none, some, [], ◌∷◌, ◌++◌, List, length, take,
  replicate, leb, if◌then◌else◌, arith,
}
use beaglebone_black_motion.Base.Int.{pos}
use beaglebone_black_motion.Syslog.{Text, Syslog, writes, nul, syslog_trace}
use beaglebone_black_motion.Syslog.Lines.{IsOpen, syslog_trace_printed}
use beaglebone_black_motion.Syslog.Descriptors.{
  Call, init, close, run, lost, opened, closed, one_if, run_balance,
}

abbrev opened_log : Syslog
opened_log = record {
  is_initialized = true;
  print_func = true;
  trace_fd = pos 3;
  sys_name = replicate 256 nul;
}

opened_log-IsOpen : IsOpen opened_log
opened_log-IsOpen = record { up = refl; hooked = refl; fd = (3, refl) }

abbrev ok_text : Text
ok_text = 79 ∷ 75 ∷ []

abbrev header : Text
header = 62 ∷ 32 ∷ []

-- A conversion prints the message as 300 bytes.
abbrev long_text : Text
long_text = replicate 300 120

syslog_trace_printed_example :
    syslog_trace (some header) (λ m. some long_text) ok_text opened_log ≡ (
      if leb (length long_text) 256
      then some
          (writes header ∷ writes (take (length long_text) (take 255 long_text ++ nul ∷ [])) ∷ [])
      else none)
syslog_trace_printed_example =
    syslog_trace_printed opened_log header ok_text long_text (λ m. some long_text) opened_log-IsOpen
      (omega arith) refl

abbrev closed_log : Syslog
closed_log = record opened_log { is_initialized = false; print_func = false }

-- The first `popen` fails.
abbrev calls : List Call
calls =
    init (record { fd = pos 3; popen = false; line = none })
    ∷ init (record { fd = pos 4; popen = true; line = some ok_text })
    ∷ close
    ∷ []

run_balance_example :
    let (file, s') = run ok_text calls closed_log in
    (s'.print_func ≡ s'.is_initialized)
    × (opened file + one_if false
        ≡ closed file + one_if s'.is_initialized + lost ok_text calls closed_log)
run_balance_example = run_balance ok_text calls closed_log refl

-- The line of `uname` is as long as the array.
abbrev long_line : Text
long_line = replicate 256 120

long_line-IsChar : (n : ℕ) → All IsChar (replicate n 120)
long_line-IsChar zero = tt
long_line-IsChar (suc n) = (ground arith, long_line-IsChar n)

syslog_init_name_example :
    let (r, file, s') =
      syslog_init ok_text (record { fd = pos 3; popen = true; line = some long_line }) closed_log in
    let fits = leb (suc (length long_line)) 256 in
    (r ≡ sys_success)
    × (syslog_getsysname s' ≡ (if fits then some long_line else none))
    × (syslog_printheader (some header) some s'
        ≡ (if fits then syslog_trace (some header) some long_line s' else none))
syslog_init_name_example =
    syslog_init_name ok_text 3 long_line closed_log (some header) some refl (long_line-IsChar 256)
