-- ===== src/Syslog/Lines.antt =====
-- What a message becomes in the log.
use beaglebone_black_motion.Base.{
  ℕ, zero, suc, ◌<◌, ◌≤◌, ◌≡◌, ◌↔◌, refl, ap, ◌∙◌, true, false, Option, none, some, List, [], ◌∷◌,
  ◌++◌, length, length-append, length-take, get_or, take, Bool, not, leb, if◌then◌else◌, arith,
}
use beaglebone_black_motion.Base.Int.{ℤ, pos}
use beaglebone_black_motion.Syslog.{
  Text, Syslog, FileCall, writes, nul, newline, buffer_size, cut, with_newline, vtrace_write,
  through, syslog_trace,
}

get_or_end : (t : Text) → get_or t (length t) nul ≡ nul
get_or_end [] = refl
get_or_end (c ∷ t) = get_or_end t

take_prefix : (t u : Text) → take (length t) (t ++ u) ≡ t
take_prefix [] u = refl
take_prefix (c ∷ t) u = ap (λ r. c ∷ r) (take_prefix t u)

take_all : (n : ℕ) (t : Text) → length t ≤ n → take n t ≡ t
take_all zero [] h = refl
take_all zero (c ∷ t) h = absurd (omega arith)
take_all (suc n) [] h = refl
take_all (suc n) (c ∷ t) h = ap (λ r. c ∷ r) (take_all n t (omega arith))

-- The byte that is compared is the NUL at the end, so that a newline is added to every message.
pub with_newline_lem : (msg : Text) → with_newline msg ≡ cut buffer_size (msg ++ newline ∷ [])
unfolding with_newline
with_newline_lem msg = rw (with_newline, get_or_end msg) refl

-- The log is initialised and its file open.
pub record IsOpen (s : Syslog) : Type 0 where
  pub up : s.is_initialized ≡ true
  pub hooked : s.print_func ≡ true
  pub fd : (n : ℕ) × (s.trace_fd ≡ pos n)

-- A text of up to 255 bytes is written as it is.
through_lem :
    (s : Syslog) (t : Text) → IsOpen s → length t ≤ 255 → through s (some t) ≡ some (writes t ∷ [])
unfolding through vtrace_write
through_lem s t v h =
    let same : take (length t) (cut buffer_size t ++ nul ∷ []) ≡ t =
      ap (λ u. take (length t) (u ++ nul ∷ [])) (take_all 255 t h) ∙ take_prefix t (nul ∷ []) in
    ground (arith, v.hooked, v.fd, same)

short_or_not :
    (n : ℕ) (t : Text)
    → vtrace_write (pos n) (some t) ≡ (
        if leb (length t) buffer_size
        then some (pos (length t), writes (take (length t) (cut buffer_size t ++ nul ∷ [])) ∷ [])
        else none)
unfolding vtrace_write
short_or_not n t = ground arith

abbrev sent : Bool → Option (ℤ × List FileCall) → Option (List FileCall)
sent hooked z = if not hooked then none else elim z [ none ↦ none | some (n, calls) ↦ some calls ]

sent_if :
    (b : Bool) (n : ℤ) (calls : List FileCall)
    → sent true (if b then some (n, calls) else none) ≡ (if b then some calls else none)
sent_if true n calls = refl
sent_if false n calls = refl

through_any :
    (s : Syslog) (t : Text)
    → IsOpen s
    → through s (some t) ≡ (
        if leb (length t) buffer_size
        then some (writes (take (length t) (cut buffer_size t ++ nul ∷ [])) ∷ [])
        else none)
unfolding through
through_any s t v =
    let (n, fd) = v.fd in
    ap (λ b. sent b (vtrace_write s.trace_fd (some t))) v.hooked
    ∙ ap (λ z. sent true (vtrace_write z (some t))) fd
    ∙ ap (sent true) (short_or_not n t)
    ∙ sent_if (leb (length t) buffer_size) (pos (length t)) _

-- What the calls of both writes come to.
abbrev joined : Bool → Option (List FileCall) → Option (List FileCall) → Option (List FileCall)
joined up first second = if not up then some [] else elim first [
  | none ↦ none
  | some calls ↦ elim second [ none ↦ none | some calls' ↦ some (calls ++ calls') ]
]

trace_eq :
    (s : Syslog) (header : Option Text) (print : Text → Option Text) (msg : Text)
    {first second : Option (List FileCall)}
    → s.is_initialized ≡ true
    → through s header ≡ first
    → through s (print (with_newline msg)) ≡ second
    → syslog_trace header print msg s ≡ joined true first second
unfolding syslog_trace
trace_eq s header print msg {first = first} up e e' =
    ap (λ b. joined b (through s header) (through s (print (with_newline msg)))) up
    ∙ ap (λ z. joined true z (through s (print (with_newline msg)))) e
    ∙ ap (joined true first) e'

-- With the log open and a header of up to 255 bytes, a message without conversions, which the C
-- library prints as it is, gives two writes: the header, and the first 255 bytes of the message with
-- a newline after it. The newline is there exactly if the message has fewer than 255 bytes.
pub syslog_trace_plain :
    (s : Syslog) (header msg : Text) (print : Text → Option Text)
    → IsOpen s
    → length header ≤ 255
    → print (with_newline msg) ≡ some (with_newline msg)
    → let line = take 255 (msg ++ newline ∷ []) in
      (syslog_trace (some header) print msg s ≡ some (writes header ∷ writes line ∷ []))
      × ((line ≡ msg ++ newline ∷ []) ↔ (length msg < 255))
syslog_trace_plain s header msg print v h e =
    let line = take 255 (msg ++ newline ∷ []) in
    let size : length line ≤ 255 = omega (arith, length-take 255 (msg ++ newline ∷ [])) in
    let printed : print (with_newline msg) ≡ some line = e ∙ ap some (with_newline_lem msg) in
    (
      trace_eq s (some header) print msg v.up (through_lem s header v h)
          (ap (through s) printed ∙ through_lem s line v size),
      (
        λ q. omega (arith, ap length q, length-append msg (newline ∷ []), size),
        λ q. take_all 255 (msg ++ newline ∷ []) (omega (arith, length-append msg (newline ∷ []))),
      ),
    )

-- With the log open and a header of up to 255 bytes, `syslog_trace` is defined exactly for messages
-- that the C library prints in at most 256 bytes; a longer one makes it write bytes from beyond its
-- buffer, and one of 256 bytes loses its last byte to a NUL.
pub syslog_trace_printed :
    (s : Syslog) (header msg t : Text) (print : Text → Option Text)
    → IsOpen s
    → length header ≤ 255
    → print (with_newline msg) ≡ some t
    → syslog_trace (some header) print msg s ≡ (
        if leb (length t) 256
        then some (writes header ∷ writes (take (length t) (take 255 t ++ nul ∷ [])) ∷ [])
        else none)
syslog_trace_printed s header msg t print v h e =
    trace_eq s (some header) print msg v.up (through_lem s header v h)
      (ap (through s) e ∙ through_any s t v)
    ∙ appended (leb (length t) 256)
  where
    appended :
        (b : Bool)
        → joined true
            (some (writes header ∷ []))
            (if b then some (writes (take (length t) (take 255 t ++ nul ∷ [])) ∷ []) else none)
          ≡ (if b
              then some (writes header ∷ writes (take (length t) (take 255 t ++ nul ∷ [])) ∷ [])
              else none)
    appended true = refl
    appended false = refl
