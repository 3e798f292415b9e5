-- ===== src/Syslog/Name.antt =====
-- The name of the system that `syslog_init` keeps.
use beaglebone_black_motion.Base.{
  ℕ, zero, suc, ◌≤◌, ◌≡◌, ◌≢◌, refl, ap, ◌∙◌, Bool, true, false, Option, none, some, List, [], ◌∷◌,
  ◌++◌, not, All, length, take, replicate, leb, if◌then◌else◌, arith,
}
use beaglebone_black_motion.Base.Int.{pos}
use beaglebone_black_motion.Types.{sys_success}
use beaglebone_black_motion.Syslog.{
  Text, Syslog, FileCall, nul, buffer_size, strncpy, c_string, syslog_init, syslog_getsysname,
  syslog_printheader, syslog_trace,
}

-- A byte of a text.
abbrev pub IsChar : ℕ → Type 0
IsChar c = c ≢ nul

-- A copy of a text into an array with a NUL after it, if there is room for one.
c_string-copy :
    (n : ℕ) (t : Text) (size : ℕ)
    → All IsChar t
    → n ≤ size
    → c_string (take n (t ++ replicate size nul))
      ≡ (if leb (suc (length t)) n then some t else none)
c_string-copy zero t size h k = ground arith
c_string-copy (suc n) [] zero h k = absurd (omega arith)
c_string-copy (suc n) [] (suc size) h k = ground arith
c_string-copy (suc n) (c ∷ t) size (h, hs) k =
    ground (arith, c_string-copy n t size hs (omega arith))

init_eq :
    (name : Text) (fd : ℕ) (path : Text) (s : Syslog)
    → s.is_initialized ≡ false
    → let (r, calls, s') =
        syslog_init name (record { fd = pos fd; popen = true; line = some path }) s in
      (r ≡ sys_success) × (s'.is_initialized ≡ true) × (s'.sys_name ≡ strncpy buffer_size path)
unfolding syslog_init
init_eq name fd path s h = ground (arith, h)

-- What `syslog_printheader` makes of the name.
abbrev printed : Bool → Option Text → (Text → Option (List FileCall)) → Option (List FileCall)
printed up name f = if not up then some [] else elim name [ none ↦ none | some t ↦ f t ]

printed_if :
    (b : Bool) (t : Text) (f : Text → Option (List FileCall))
    → printed true (if b then some t else none) f ≡ (if b then f t else none)
printed_if true t f = refl
printed_if false t f = refl

header_eq :
    (header : Option Text) (print : Text → Option Text) (s : Syslog) (b : Bool) (path : Text)
    → s.is_initialized ≡ true
    → c_string s.sys_name ≡ (if b then some path else none)
    → syslog_printheader header print s ≡ (if b then syslog_trace header print path s else none)
unfolding syslog_printheader
header_eq header print s b path u e =
    let f = λ (t : Text). syslog_trace header print t s in
    ap (λ up. printed up (c_string s.sys_name) f) u
    ∙ ap (λ name. printed true name f) e
    ∙ printed_if b path f

-- From a log that is not initialised, where the file and the pipe can be opened: `syslog_init`
-- succeeds whatever line `uname` prints, and the name that it keeps is that line exactly if it has
-- fewer than 256 bytes. A longer one has no NUL after it, and reading it, which `syslog_printheader`
-- does, has no defined result.
pub syslog_init_name :
    (name : Text) (fd : ℕ) (path : Text) (s : Syslog) (header : Option Text)
    (print : Text → Option Text)
    → s.is_initialized ≡ false
    → All IsChar path
    → let (r, calls, s') =
        syslog_init name (record { fd = pos fd; popen = true; line = some path }) s in
      let fits = leb (suc (length path)) buffer_size in
      (r ≡ sys_success)
      × (syslog_getsysname s' ≡ (if fits then some path else none))
      × (syslog_printheader header print s'
          ≡ (if fits then syslog_trace header print path s' else none))
unfolding syslog_getsysname
syslog_init_name name fd path s header print h p =
    let (r, up, kept) = init_eq name fd path s h in
    let read = ap c_string kept ∙ c_string-copy 256 path 256 p (omega arith) in
    (r, read, header_eq header print _ (leb (suc (length path)) buffer_size) path up read)
