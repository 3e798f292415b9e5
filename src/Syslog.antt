-- ===== src/Syslog.antt =====
-- utils/syslog/syslog.c: the log of the program. A text is the list of its bytes, without the NUL
-- at its end. What the C library prints for a format and its arguments is an argument, `none` where
-- it reports an error, and so are the answers of `open`, `popen` and `fgets`.
pub mod Lines
pub mod Descriptors
pub mod Name
mod Tests
use beaglebone_black_motion.Base.{
  ℕ, ◌+◌, ◌-◌, Bool, true, false, not, Option, none, some, List, [], ◌∷◌, ◌++◌, length, get_or,
  take, replicate, leb, ◌==◌, if◌then◌else◌,
}
use beaglebone_black_motion.Base.Int.{ℤ, pos, negsuc, ltb_ℤ}
use beaglebone_black_motion.Types.{SysResult, sys_success, sys_failure}

abbrev pub Text : Type 0
Text = List ℕ

abbrev pub nul : ℕ
nul = 0

abbrev pub newline : ℕ
newline = 10

-- `SYSLOG_FILE_NAME_SIZE`
abbrev pub syslog_file_name_size : ℕ
syslog_file_name_size = 19 + 1

-- The size of the buffers that messages are made in, and of `sys_name`.
abbrev pub buffer_size : ℕ
buffer_size = 256

-- The static variables that the code reads again. `print_func` says whether `_printFunc` and
-- `_vprintFunc` are set.
pub record Syslog : Type 0 where
  pub is_initialized : Bool
  pub print_func : Bool
  pub trace_fd : ℤ
  pub sys_name : Text

-- The calls on the log file; `opens` has what `open` returns.
pub data FileCall : Type 0 where
  opens : Text → ℤ → FileCall
  closes : ℤ → FileCall
  writes : Text → FileCall

-- What `snprintf` leaves in a buffer of that size.
abbrev pub cut : ℕ → Text → Text
cut size t = take (size - 1) t

-- What `strncpy` leaves in an array of that size: NULs fill it up, and none is added to a text
-- that fills it by itself.
abbrev pub strncpy : ℕ → Text → Text
strncpy size t = take size (t ++ replicate size nul)

-- What `open`, `popen` and `fgets` answer to `syslog_init`.
pub record Answers : Type 0 where
  pub fd : ℤ
  pub popen : Bool
  pub line : Option Text

-- `syslog_init`; `name` is what the format of the file's name gives.
pub syslog_init : (name : Text) → Answers → Syslog → SysResult × List FileCall × Syslog
syslog_init name a s =
    if s.is_initialized
    then (SysResult.sys_ignore, [], s)
    else let s' = record s { trace_fd = a.fd } in
      let calls = opens (cut syslog_file_name_size name) a.fd ∷ [] in
      if ltb_ℤ a.fd (pos 0)
      then (sys_failure, calls, s')
      else if not a.popen
      then (sys_failure, calls, s')
      else (
        sys_success,
        calls,
        record s' {
          sys_name = elim a.line [ none ↦ s.sys_name | some path ↦ strncpy buffer_size path ];
          print_func = true;
          is_initialized = true;
        },
      )

-- `syslog_close`
pub syslog_close : Syslog → SysResult × List FileCall × Syslog
syslog_close s =
    if s.is_initialized
    then (
      sys_success,
      closes s.trace_fd ∷ [],
      record s { print_func = false; is_initialized = false },
    )
    else (SysResult.sys_ignore, [], s)

-- `'\n' != msg[strlen(msg)]` and what is made of the message then.
pub with_newline : Text → Text
with_newline msg =
    if not (newline == get_or msg (length msg) nul)
    then cut buffer_size (msg ++ newline ∷ [])
    else msg

-- `trace_write` and `vtrace_write`: the number returned and the calls. `none` is a read beyond the
-- buffer, which holds a NUL after the text.
pub vtrace_write : (trace_fd : ℤ) → Option Text → Option (ℤ × List FileCall)
vtrace_write trace_fd printed = if ltb_ℤ trace_fd (pos 0) then some (pos 0, []) else elim printed [
  | none ↦ some (negsuc 0, [])
  | some t ↦
      if leb (length t) buffer_size
      then some (pos (length t), writes (take (length t) (cut buffer_size t ++ nul ∷ [])) ∷ [])
      else none
]

-- A call through `_printFunc` or `_vprintFunc`; `none` also where they are not set.
pub through : Syslog → Option Text → Option (List FileCall)
through s printed =
    if not s.print_func
    then none
    else elim (vtrace_write s.trace_fd printed) [ none ↦ none | some (n, calls) ↦ some calls ]

-- `syslog_trace`; `header` is what the time, the platform and the course are printed as, and
-- `print` what the C library prints for a format with the arguments of the call.
pub syslog_trace :
    (header : Option Text)
    → (print : Text → Option Text) → (msg : Text) → Syslog
    → Option (List FileCall)
syslog_trace header print msg s =
    if not s.is_initialized then some [] else elim (through s header) [
      | none ↦ none
      | some calls ↦ elim (through s (print (with_newline msg))) [
        | none ↦ none
        | some calls' ↦ some (calls ++ calls')
      ]
    ]

-- `syslog_print`: what goes to the standard output.
unfoldable pub syslog_print : (print : Text → Option Text) → (msg : Text) → Option Text
syslog_print print msg = print (with_newline msg)

-- A read of an array as a text, up to the first NUL; `none` where it has none.
abbrev pub c_string : Text → Option Text
c_string [] = none
c_string (c ∷ t) =
    let rest = c_string t in
    if c == nul then some [] else elim rest [ none ↦ none | some u ↦ some (c ∷ u) ]

-- `syslog_getsysname`
pub syslog_getsysname : Syslog → Option Text
syslog_getsysname s = c_string s.sys_name

-- `syslog_printheader`: the name of the system is the format of the message.
pub syslog_printheader :
    (header : Option Text) → (print : Text → Option Text) → Syslog → Option (List FileCall)
syslog_printheader header print s =
    if not s.is_initialized
    then some []
    else elim (c_string s.sys_name) [ none ↦ none | some name ↦ syslog_trace header print name s ]
