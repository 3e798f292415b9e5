-- ===== src/Osal/Life/Shutdown.antt =====
-- What the shutdown of the layer does to the tasks, and that it comes.
use beaglebone_black_motion.Base.{
  ℕ, ◌+◌, ◌≡◌, refl, sym, ap, ◌∙◌, subst, Bool, true, false, not, ◌&&◌, ◌||◌, Option, none, some,
  List, [], ◌∷◌, map, length, get_elem?, if◌then◌else◌, arith, Bool-cases, inl, inr,
}
use beaglebone_black_motion.Base.Int.{ℤ, pos}
use beaglebone_black_motion.Osal.{
  Osal, Sequencer, Tcb, unused, set_state, is_unused, max_tasks, update, Signal, sigalrm, sigint,
  sigterm, other, osal_signal_handler_dispatcher, osal_task_generic_sequencer,
}
use beaglebone_black_motion.Osal.Release
use beaglebone_black_motion.Osal.Release.{Sequenced, within, osal_task_generic_sequencer-Sequenced}
use beaglebone_black_motion.Osal.Threads.{
  ThreadCall, cancels, runs_exit, kills_scheduler, osal_task_delete, cleared,
}
use beaglebone_black_motion.Osal.Life.{
  Deinit, killed, osal_stop_scheduler, delete_loop, osal_deinit, exit_loop, shut_down, handle,
  osal_signal_handler_task,
}

-- The exit functions of the tasks in use that have one, in the order of the table.
abbrev pub exit_calls : ℕ → List Sequencer → List Tcb → List ThreadCall
exit_calls i (s ∷ ss) (t ∷ ts) =
    let rest = exit_calls (i + 1) ss ts in
    if not (is_unused s.task_state) && t.exit_func then runs_exit i ∷ rest else rest
exit_calls i _ _ = []

-- The layer when the process ends.
abbrev pub stopped : Osal → Osal
stopped o = record o {
  scheduler_started = false;
  tcbs = map cleared o.tcbs;
  sequencers = map (set_state unused) o.sequencers;
}

-- The calls that end the threads: all five entries are cancelled.
abbrev pub end_calls : List ThreadCall
end_calls = cancels 0 ∷ cancels 1 ∷ cancels 2 ∷ cancels 3 ∷ cancels 4 ∷ kills_scheduler ∷ []

-- What `osal_deinit` comes to with tables of five entries: the end of the process, or undefined
-- behaviour where an entry was never created.
abbrev pub deinit_end : (created : ℕ → Bool) → Osal → Option Deinit
deinit_end created o =
    if created 0 && created 1 && created 2 && created 3 && created 4
    then some (killed end_calls (stopped o))
    else none

-- A table of five entries, written out.
pub record Five {ℓ} {A : Type ℓ} (xs : List A) : Type ℓ where
  pub a : A
  pub b : A
  pub c : A
  pub d : A
  pub e : A
  pub all : xs ≡ a ∷ b ∷ c ∷ d ∷ e ∷ []

pub five {ℓ} : {A : Type ℓ} (xs : List A) → length xs ≡ max_tasks → Five xs
five (a ∷ b ∷ c ∷ d ∷ e ∷ []) h = record { a = a; b = b; c = c; d = d; e = e; all = refl }
five [] h = absurd (omega arith)
five (a ∷ []) h = absurd (omega arith)
five (a ∷ b ∷ []) h = absurd (omega arith)
five (a ∷ b ∷ c ∷ []) h = absurd (omega arith)
five (a ∷ b ∷ c ∷ d ∷ []) h = absurd (omega arith)
five (a ∷ b ∷ c ∷ d ∷ e ∷ f ∷ xs) h = absurd (omega arith)

-- What the shutdown is to do, from the layer `o`.
abbrev ShutsDown : (created : ℕ → Bool) → ℤ → Osal → Type 0
ShutsDown created ret o =
    shut_down created ret o ≡ some (exit_calls 0 o.sequencers o.tcbs, deinit_end created o)

-- The layer, initialised, with these two tables.
abbrev with_tables : Osal → Bool → List Sequencer → List Tcb → Osal
with_tables o up ss ts = record o { os_initialized = up; sequencers = ss; tcbs = ts }

shut_down_five :
    (created : ℕ → Bool) (ret : ℤ) (o : Osal) (s0 s1 s2 s3 s4 : Sequencer) (t0 t1 t2 t3 t4 : Tcb)
    → ShutsDown created ret
        (with_tables o true (s0 ∷ s1 ∷ s2 ∷ s3 ∷ s4 ∷ []) (t0 ∷ t1 ∷ t2 ∷ t3 ∷ t4 ∷ []))
unfolding shut_down osal_stop_scheduler exit_loop osal_deinit delete_loop osal_task_delete update
shut_down_five created ret o s0 s1 s2 s3 s4 t0 t1 t2 t3 t4 = ground arith

-- With the layer initialised and tables of five entries, the shutdown runs the exit function of each
-- task in use that has one, in the order of the table. If all five threads were created, `osal_deinit`
-- then cancels them and ends the process, with all entries unused and the scheduler stopped; if one
-- was not, it has no defined result.
pub shut_down_lem :
    (created : ℕ → Bool) (ret : ℤ) (o : Osal)
    → length o.sequencers ≡ max_tasks
    → length o.tcbs ≡ max_tasks
    → o.os_initialized ≡ true
    → shut_down created ret o ≡ some (exit_calls 0 o.sequencers o.tcbs, deinit_end created o)
shut_down_lem created ret o h k up =
    let s = five o.sequencers h in
    let t = five o.tcbs k in
    subst (λ up'. ShutsDown created ret (with_tables o up' o.sequencers o.tcbs)) (sym up)
      (subst (λ ts. ShutsDown created ret (with_tables o true o.sequencers ts)) (sym t.all)
        (subst
          (λ ss. ShutsDown created ret (with_tables o true ss (t.a ∷ t.b ∷ t.c ∷ t.d ∷ t.e ∷ [])))
          (sym s.all) (shut_down_five created ret o s.a s.b s.c s.d s.e t.a t.b t.c t.d t.e)))

-- A signal that asks for the shutdown.
abbrev pub asks : Signal → Bool
asks sigint = true
asks sigterm = true
asks _ = false

abbrev pub some_asks : List Signal → Bool
some_asks [] = false
some_asks (s ∷ ss) = asks s || some_asks ss

raised :
    (t : ℕ) (o : Osal) (b : Bool)
    → record o { tick = t; start_shutdown = b || true }
      ≡ record o { tick = t; start_shutdown = true }
raised t o true = refl
raised t o false = refl

-- Signals change the tick, and raise the flag if one of them asks for it.
handle_lem :
    (w : List Signal) (o : Osal)
    → handle w o
      ≡ record o { tick = (handle w o).tick; start_shutdown = some_asks w || o.start_shutdown }
unfolding handle osal_signal_handler_dispatcher
handle_lem [] o = refl
handle_lem (sigalrm ∷ ss) o = handle_lem ss (osal_signal_handler_dispatcher sigalrm o)
handle_lem (sigint ∷ ss) o =
    handle_lem ss (osal_signal_handler_dispatcher sigint o)
    ∙ raised (handle ss (osal_signal_handler_dispatcher sigint o)).tick o (some_asks ss)
handle_lem (sigterm ∷ ss) o =
    handle_lem ss (osal_signal_handler_dispatcher sigterm o)
    ∙ raised (handle ss (osal_signal_handler_dispatcher sigterm o)).tick o (some_asks ss)
handle_lem (other ∷ ss) o = handle_lem ss (osal_signal_handler_dispatcher other o)

handle-IsReady : (w : List Signal) (o : Osal) → Release.IsReady o → Release.IsReady (handle w o)
handle-IsReady w o v =
    subst Release.IsReady (sym (handle_lem w o))
      (record { up = v.up; size = v.size; next_in = v.next_in; next_idle = v.next_idle })

-- The entries of one layer that are in use are in use in the other.
abbrev pub StayInUse : Osal → Osal → Type 0
StayInUse o o' =
    (j : ℕ) (s : Sequencer)
    → get_elem? o.sequencers j ≡ some s
    → is_unused s.task_state ≡ false
    → (s' : Sequencer) × (get_elem? o'.sequencers j ≡ some s') × (is_unused s'.task_state ≡ false)

-- The thread has begun the shutdown in the state `last`, run the exit functions and entered
-- `osal_deinit`.
pub record Stops (created : ℕ → Bool) (o : Osal) (out : Option (List ThreadCall × Option Deinit))
    : Type 0 where
  pub last : Osal
  pub in_use : StayInUse o last
  pub ready : Release.IsReady last
  pub ended : out ≡ some (exit_calls 0 last.sequencers o.tcbs, deinit_end created last)

-- What waking up with these signals leaves, where the thread goes on.
record Woken (created : ℕ → Bool) (ret : ℤ) (w : List Signal) (ws : List (List Signal)) (o : Osal)
    : Type 0 where
  after : Osal
  ready : Release.IsReady after
  tcbs : after.tcbs ≡ o.tcbs
  in_use : StayInUse o after
  flag : after.start_shutdown ≡ (some_asks w || o.start_shutdown)
  step :
      osal_signal_handler_task created ret (w ∷ ws) o
      ≡ osal_signal_handler_task created ret ws after

wake_step :
    (created : ℕ → Bool) (ret : ℤ) (w : List Signal) (ws : List (List Signal)) (o : Osal)
    {o' : Osal}
    → o.start_shutdown ≡ false
    → osal_task_generic_sequencer (λ k. pos 0) (handle w o) ≡ some o'
    → osal_signal_handler_task created ret (w ∷ ws) o ≡ osal_signal_handler_task created ret ws o'
unfolding osal_signal_handler_task
wake_step created ret w ws o d e = rw (osal_signal_handler_task, e) (rw d)

wake-Woken :
    (created : ℕ → Bool) (ret : ℤ) (w : List Signal) (ws : List (List Signal)) (o : Osal)
    → o.start_shutdown ≡ false
    → Release.IsReady o
    → Woken created ret w ws o
wake-Woken created ret w ws o d v =
    let v' = handle-IsReady w o v in
    let q = osal_task_generic_sequencer-Sequenced (handle w o) v' in
    record {
      after = record (handle w o) { sequencers = q.after };
      ready = Release.IsReady-after (within 0 max_tasks) (handle w o) v' q;
      tcbs = ap (λ (x : Osal). x.tcbs) (handle_lem w o);
      in_use = λ j s g u.
          let g' = ap (λ (x : Osal). get_elem? x.sequencers j) (handle_lem w o) ∙ g in
          let (s', h, r) = q.entries j s g' in (s', h, ground (arith, r.3, u));
      flag = ap (λ (x : Osal). x.start_shutdown) (handle_lem w o);
      step = wake_step created ret w ws o d q.ended;
    }

-- With the flag up the thread shuts down, whatever wakes it could wait for.
stop_step :
    (created : ℕ → Bool) (ret : ℤ) (ws : List (List Signal)) (o : Osal)
    → o.start_shutdown ≡ true
    → osal_signal_handler_task created ret ws o ≡ shut_down created ret o
unfolding osal_signal_handler_task
stop_step created ret [] o u = rw (osal_signal_handler_task, u)
stop_step created ret (w ∷ ws) o u = rw (osal_signal_handler_task, u)

abbrev pub some_wake_asks : List (List Signal) → Bool
some_wake_asks [] = false
some_wake_asks (w ∷ ws) = some_asks w || some_wake_asks ws

pub osal_signal_handler_task-Stops :
    (created : ℕ → Bool) (ret : ℤ) (ws : List (List Signal)) (o : Osal)
    → o.start_shutdown ≡ false
    → Release.IsReady o
    → length o.tcbs ≡ max_tasks
    → some_wake_asks ws ≡ true
    → Stops created o (osal_signal_handler_task created ret ws o)
osal_signal_handler_task-Stops created ret [] o d v k a = absurd (cc)
osal_signal_handler_task-Stops created ret (w ∷ ws) o d v k a =
    let q = wake-Woken created ret w ws o d v in
    elim (Bool-cases (some_asks w)) [
      | inl e ↦
          let up : q.after.start_shutdown ≡ true = q.flag ∙ ap (λ b. b || o.start_shutdown) e in
          record {
            last = q.after;
            in_use = q.in_use;
            ready = q.ready;
            ended =
                q.step
                ∙ stop_step created ret ws q.after up
                ∙ shut_down_lem created ret q.after q.ready.size (ap length q.tcbs ∙ k) q.ready.up
                ∙ ap (λ ts. some (exit_calls 0 q.after.sequencers ts, deinit_end created q.after))
                    q.tcbs;
          }
      | inr e ↦
          let down : q.after.start_shutdown ≡ false =
            q.flag ∙ ap (λ b. b || o.start_shutdown) e ∙ d in
          let r =
            osal_signal_handler_task-Stops created ret ws q.after down q.ready
              (ap length q.tcbs ∙ k) (ground arith) in
          record {
            last = r.last;
            in_use = λ j s g u. let (s', g', u') = q.in_use j s g u in r.in_use j s' g' u';
            ready = r.ready;
            ended =
                q.step
                ∙ r.ended
                ∙ ap (λ ts. some (exit_calls 0 r.last.sequencers ts, deinit_end created r.last))
                    q.tcbs;
          }
    ]
