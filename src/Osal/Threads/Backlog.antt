-- ===== src/Osal/Threads/Backlog.antt =====
-- Signals that came while a task was busy are not lost: it takes them one by one without waiting.
use beaglebone_black_motion.Base.{
  ℕ, zero, suc, ◌<◌, ◌≡◌, refl, ap, ◌∙◌, true, false, Option, none, some, List, [], ◌∷◌, length,
  get_elem?, set, get_elem?-set_self, replicate, ◌==◌, if◌then◌else◌, arith,
}
use beaglebone_black_motion.Types.{sys_success}
use beaglebone_black_motion.Osal.{Osal, Sequencer, suspended, set_state, update}
use beaglebone_black_motion.Osal.Threads.{
  Wake, returns, blocks, taken, osal_task_suspend, osal_task_delay,
}

-- That many calls of `osal_task_delay`, as long as they return.
pub delays : ℕ → ℕ → Osal → Option (List Wake × Osal)
delays zero id o = some ([], o)
delays (suc n) id o = elim (osal_task_delay id o) [
  | none ↦ none
  | some (w, o') ↦ elim (delays n id o') [ none ↦ none | some (ws, o'') ↦ some (w ∷ ws, o'') ]
]

-- What one call makes of the entry.
abbrev pub suspend : Sequencer → Sequencer → Sequencer
suspend s t = if s.signal_sem == 0 then set_state suspended t else taken (set_state suspended t)

pub update_eq :
    (f : Sequencer → Sequencer) (id : ℕ) (ss : List Sequencer) {s : Sequencer}
    → get_elem? ss id ≡ some s
    → update f id ss ≡ some (set ss id (f s))
unfolding update
update_eq f id ss e = rw (update, e) refl

pub delay_eq :
    (id : ℕ) (o : Osal) {s : Sequencer}
    → o.os_initialized ≡ true
    → get_elem? o.sequencers id ≡ some s
    → osal_task_delay id o
      ≡ some (
        if s.signal_sem == 0 then blocks else returns sys_success,
        record o { sequencers = set o.sequencers id (suspend s s) },
      )
unfolding osal_task_delay osal_task_suspend
delay_eq id o {s = s} up e =
    let changed : update (suspend s) id o.sequencers ≡ some (set o.sequencers id (suspend s s)) =
      update_eq (suspend s) id o.sequencers e in
    ground (arith, up, e, changed)

pub inside : (ss : List Sequencer) (i : ℕ) {s : Sequencer} → get_elem? ss i ≡ some s → i < length ss
inside [] i e = absurd (cc)
inside (t ∷ ss) zero e = omega arith
inside (t ∷ ss) (suc i) e = omega (arith, inside ss i e)

-- The task takes its signals without waiting, and waits then.
pub record Caught (n id : ℕ) (o : Osal) : Type 0 where
  pub after : Osal
  pub ended : delays n id o ≡ some (replicate n (returns sys_success), after)
  pub waiting : Osal
  pub waits : osal_task_delay id after ≡ some (blocks, waiting)

delays_step :
    (n id : ℕ) (o : Osal) {o' o'' : Osal} {w : Wake} {ws : List Wake}
    → osal_task_delay id o ≡ some (w, o')
    → delays n id o' ≡ some (ws, o'')
    → delays (suc n) id o ≡ some (w ∷ ws, o'')
unfolding delays
delays_step n id o e e' = rw (delays, e) (rw e' refl)

-- With the layer initialised, a task whose semaphore counts `n` signals takes them in its next `n`
-- calls of `osal_task_delay`, each of which returns success without waiting; the call after them
-- waits.
pub delays-Caught :
    (n id : ℕ) (o : Osal) (s : Sequencer)
    → o.os_initialized ≡ true
    → get_elem? o.sequencers id ≡ some s
    → s.signal_sem ≡ n
    → Caught n id o
unfolding delays
delays-Caught zero id o s up e k = record {
  after = o;
  ended = refl;
  waiting = record o { sequencers = set o.sequencers id (suspend s s) };
  waits =
      delay_eq id o up e
      ∙ ap
          (λ m. some (
            if m == 0 then blocks else returns sys_success,
            record o { sequencers = set o.sequencers id (suspend s s) },
          ))
          k;
}
delays-Caught (suc n) id o s up e k =
    let o' = record o { sequencers = set o.sequencers id (suspend s s) } in
    let left : (suspend s s).signal_sem ≡ n = ground (arith, k) in
    let busy : (s.signal_sem == 0) ≡ false = ground (arith, k) in
    let rest =
      delays-Caught n id o' (suspend s s) up
        (get_elem?-set_self o.sequencers id (suspend s s) (inside o.sequencers id e)) left in
    let first : osal_task_delay id o ≡ some (returns sys_success, o') =
      delay_eq id o up e ∙ ap (λ b. some (if b then blocks else returns sys_success, o')) busy in
    record {
      after = rest.after;
      ended = delays_step n id o first rest.ended;
      waiting = rest.waiting;
      waits = rest.waits;
    }
