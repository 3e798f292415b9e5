-- ===== src/Syslog/Descriptors.antt =====
-- The descriptor of the log file over any calls of `syslog_init` and `syslog_close`.
use beaglebone_black_motion.Base.{
  ℕ, ◌+◌, ◌≡◌, Bool, true, false, not, ◌&&◌, List, [], ◌∷◌, ◌++◌, if◌then◌else◌, arith,
}
use beaglebone_black_motion.Base.Int.{pos, ltb_ℤ}
use beaglebone_black_motion.Syslog.{
  Text, Syslog, Answers, FileCall, opens, closes, writes, syslog_init, syslog_close,
}

-- A call of one of the two functions.
pub data Call : Type 0 where
  init : Answers → Call
  close : Call

abbrev pub call : Text → Call → Syslog → List FileCall × Syslog
call name (init a) s = let (r, calls, s') = syslog_init name a s in (calls, s')
call name close s = let (r, calls, s') = syslog_close s in (calls, s')

unfoldable pub run : Text → List Call → Syslog → List FileCall × Syslog
run name [] s = ([], s)
run name (c ∷ cs) s =
    let (calls, s') = call name c s in let (calls', s'') = run name cs s' in (calls ++ calls', s'')

-- The descriptors that were opened and closed.
abbrev pub opened : List FileCall → ℕ
opened [] = 0
opened (opens name fd ∷ cs) = (if ltb_ℤ fd (pos 0) then 0 else 1) + opened cs
opened (_ ∷ cs) = opened cs

abbrev pub closed : List FileCall → ℕ
closed [] = 0
closed (closes fd ∷ cs) = 1 + closed cs
closed (_ ∷ cs) = closed cs

abbrev pub one_if : Bool → ℕ
one_if true = 1
one_if false = 0

-- The calls of `syslog_init` that open the file and then fail in `popen`.
abbrev pub loses : Call → Syslog → Bool
loses (init a) s = not s.is_initialized && not (ltb_ℤ a.fd (pos 0)) && not a.popen
loses close s = false

pub lost : Text → List Call → Syslog → ℕ
lost name [] s = 0
lost name (c ∷ cs) s = one_if (loses c s) + lost name cs (call name c s).1

opened-append : (cs cs' : List FileCall) → opened (cs ++ cs') ≡ opened cs + opened cs'
opened-append [] cs' = omega arith
opened-append (opens name fd ∷ cs) cs' = omega (arith, opened-append cs cs')
opened-append (closes fd ∷ cs) cs' = opened-append cs cs'
opened-append (writes t ∷ cs) cs' = opened-append cs cs'

closed-append : (cs cs' : List FileCall) → closed (cs ++ cs') ≡ closed cs + closed cs'
closed-append [] cs' = omega arith
closed-append (opens name fd ∷ cs) cs' = closed-append cs cs'
closed-append (closes fd ∷ cs) cs' = omega (arith, closed-append cs cs')
closed-append (writes t ∷ cs) cs' = closed-append cs cs'

init_balance :
    (name : Text) (a : Answers) (s : Syslog)
    → let (calls, s') = call name (init a) s in
      (opened calls + one_if s.is_initialized
        ≡ closed calls + one_if s'.is_initialized + one_if (loses (init a) s))
      × (s.print_func ≡ s.is_initialized → s'.print_func ≡ s'.is_initialized)
unfolding syslog_init
init_balance name a s = ground arith

close_balance :
    (name : Text) (s : Syslog)
    → let (calls, s') = call name close s in
      (opened calls + one_if s.is_initialized ≡ closed calls + one_if s'.is_initialized)
      × (s.print_func ≡ s.is_initialized → s'.print_func ≡ s'.is_initialized)
unfolding syslog_close
close_balance name s = ground arith

call_balance :
    (name : Text) (c : Call) (s : Syslog)
    → let (calls, s') = call name c s in
      (opened calls + one_if s.is_initialized
        ≡ closed calls + one_if s'.is_initialized + one_if (loses c s))
      × (s.print_func ≡ s.is_initialized → s'.print_func ≡ s'.is_initialized)
call_balance name (init a) s = init_balance name a s
call_balance name close s = (omega (arith, close_balance name s), (close_balance name s).1)

-- Over any calls of `syslog_init` and `syslog_close`, from a log whose print functions are set
-- exactly while it is initialised: they still are, and of the descriptors that were opened those
-- not closed are the log's own while it is initialised, and one for each `syslog_init` that failed
-- in `popen`.
pub run_balance :
    (name : Text) (cs : List Call) (s : Syslog)
    → s.print_func ≡ s.is_initialized
    → let (calls, s') = run name cs s in
      (s'.print_func ≡ s'.is_initialized)
      × (opened calls + one_if s.is_initialized
          ≡ closed calls + one_if s'.is_initialized + lost name cs s)
unfolding run lost
run_balance name [] s h = (h, omega arith)
run_balance name (c ∷ cs) s h =
    let first = call_balance name c s in
    let s' = (call name c s).1 in
    let rest = run_balance name cs s' (first.1 h) in
    (
      rest.0,
      omega (
        arith,
        opened-append (call name c s).0 (run name cs s').0,
        closed-append (call name c s).0 (run name cs s').0,
        first.0,
        rest.1,
      ),
    )
