-- ===== src/Osal/Ticks/Prompt.antt =====
-- utils/osal/osal.c: alarms that are each counted and run through before the next one comes, as steps of
-- the handler and of the thread of the scheduler.
use native.Mathlib.Nat.{zero-add}
use beaglebone_black_motion.Base.{
  ℕ, zero, suc, ◌+◌, ◌≡◌, refl, sym, ◌∙◌, subst, Option, none, some, some-injective, Option-cases,
  inl, inr, arith,
}
use beaglebone_black_motion.Base.Int.{pos}
use beaglebone_black_motion.Osal.{
  Osal, sequence, sequence_loop, osal_task_generic_sequencer, osal_signal_handler_dispatcher,
  sigalrm, max_tasks,
}
use beaglebone_black_motion.Osal.Release.{loop_step}
use beaglebone_black_motion.Osal.Rate.{alarm, alarms, alarms_step}
use beaglebone_black_motion.Osal.Ticks.{
  Scheduler, waiting, post, count, wake, look, Reach, here, later,
}

-- The scheduler has run as often as alarms came, and looks at entry `i` next.
abbrev looking : (a i : ℕ) → Osal → Scheduler
looking a i o = record {
  osal = o;
  os_sched_sem = 0;
  handlers = 0;
  next = i;
  alarms = a;
  runs = a;
  interrupted = 0;
}

-- It waits, and nothing is left to do.
abbrev pub caught_up : (alarms : ℕ) → Osal → Scheduler
caught_up a o = looking a max_tasks o

loop_stops :
    (n i : ℕ) (o : Osal)
    → sequence (pos 0) i o ≡ none
    → sequence_loop (λ k. pos 0) (suc n) i o ≡ none
unfolding sequence_loop
loop_stops n i o e = rw (sequence_loop, e)

not_both : {A : Type 0} (x : Option A) (y : A) → x ≡ none → x ≡ some y → ⊥
not_both x y e e' = cc

module _ (first : Scheduler) where
  looks :
      (n i a : ℕ) (o : Osal) {o' : Osal}
      → i + n ≡ max_tasks
      → sequence_loop (λ k. pos 0) n i o ≡ some o'
      → Reach first (looking a i o)
      → Reach first (caught_up a o')
  unfolding sequence_loop
  looks zero i a o {o'} h e r =
      let end : i ≡ max_tasks = omega arith in
      subst (λ x. Reach first (caught_up a x)) (some-injective o o' e)
        (subst (λ j. Reach first (looking a j o)) end r)
  looks (suc n) i a o {o'} h e r = elim (Option-cases (sequence (pos 0) i o)) [
    | inl stuck ↦
        absurd (not_both (sequence_loop (λ k. pos 0) (suc n) i o) o' (loop_stops n i o stuck) e)
    | inr (o1, s) ↦
        looks n (i + 1) a o1 (omega arith) (sym (loop_step n i o s) ∙ e)
          (later r (look (looking a i o) o1 (omega arith) s))
  ]

  prompt :
      (a : ℕ) (o : Osal) {o' : Osal}
      → alarm o ≡ some o'
      → Reach first (caught_up a o)
      → Reach first (caught_up (a + 1) o')
  unfolding alarm osal_task_generic_sequencer
  prompt a o e r =
      let ticked = osal_signal_handler_dispatcher sigalrm o in
      let posted = record (caught_up a o) { os_sched_sem = 1; handlers = 1; alarms = a + 1 } in
      let counted = record posted { osal = ticked; handlers = 0 } in
      looks 5 0 (a + 1) ticked refl e (
        later (later (later r (post (caught_up a o))) (count posted (omega arith)))
          (wake counted refl (omega arith)))

  alarms_steps :
      (n a : ℕ) (o : Osal) {o' : Osal}
      → alarms n o ≡ some o'
      → Reach first (caught_up a o)
      → Reach first (caught_up (a + n) o')
  unfolding alarms
  alarms_steps zero a o {o'} e r =
      let same : a ≡ a + 0 = omega arith in
      subst (λ x. Reach first (caught_up (a + 0) x)) (some-injective o o' e)
        (subst (λ b. Reach first (caught_up b o)) same r)
  alarms_steps (suc n) a o {o'} e r = elim (Option-cases (alarm o)) [
    | inl stuck ↦ absurd (not_both (alarms (suc n) o) o' (alarms_stop n o stuck) e)
    | inr (o1, s) ↦
        let more : a + 1 + n ≡ a + suc n = omega arith in
        subst (λ b. Reach first (caught_up b o')) more
          (alarms_steps n (a + 1) o1 (sym (alarms_step n o s) ∙ e) (prompt a o s r))
  ]
    where
      alarms_stop : (n : ℕ) (o : Osal) → alarm o ≡ none → alarms (suc n) o ≡ none
      alarms_stop n o e = rw (alarms, e)

-- The alarms, each handled before the next one, are an interleaving of the handler and the thread.
pub alarms-Reach :
    (n : ℕ) (o : Osal) {o' : Osal} → alarms n o ≡ some o' → Reach (waiting o) (caught_up n o')
alarms-Reach n o {o'} e =
    subst (λ a. Reach (waiting o) (caught_up a o')) (zero-add n)
      (alarms_steps (waiting o) n 0 o e here)
