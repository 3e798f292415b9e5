-- ===== src/Osal/Rate.antt =====
-- The sequencer over many ticks of the timer: how often each task is released.
use native.Mathlib.Nat.{div-add-mod, div-eq_of_lt-le, mod-lt}
use beaglebone_black_motion.Base.{
  ℕ, zero, suc, ◌+◌, ◌*◌, ◌/◌, ◌%◌, ◌^◌, ◌<◌, ◌≡◌, refl, ap, ◌∙◌, false, Option, none, some,
  get_elem?, ◌==◌, if◌then◌else◌, inl, inr, ltb, Bool-cases, arith,
}
use beaglebone_black_motion.Base.Int.{pos}
use beaglebone_black_motion.Osal.{
  Osal, Sequencer, is_unused, osal_task_generic_sequencer, osal_signal_handler_dispatcher, sigalrm,
  max_tasks,
}
use beaglebone_black_motion.Osal.Release.{
  IsReady, Released, within, IsReady-after, osal_task_generic_sequencer-Sequenced,
}

module _ (t c : ℕ) (h : 0 < c) where
  inside : t % c + 1 < c → (suc t / c ≡ t / c) × (suc t % c ≡ t % c + 1)
  inside k = (same, omega (arith, div-add-mod t c, div-add-mod (suc t) c, ap (λ z. c * z) same))
    where
      same : suc t / c ≡ t / c
      same = div-eq_of_lt-le c (omega (arith, div-add-mod t c)) (omega (arith, k, div-add-mod t c))

  across : t % c + 1 ≡ c → (suc t / c ≡ t / c + 1) × (suc t % c ≡ 0)
  across k = (next, omega (arith, div-add-mod t c, div-add-mod (suc t) c, ap (λ z. c * z) next))
    where
      next : suc t / c ≡ t / c + 1
      next =
          div-eq_of_lt-le c (omega (arith, k, div-add-mod t c)) (omega (arith, k, div-add-mod t c))

  -- A step by one crosses a multiple exactly if it ends on one.
  div-suc : suc t / c ≡ t / c + (if suc t % c == 0 then 1 else 0)
  div-suc = elim (Bool-cases (ltb (t % c + 1) c)) [
    | inl e ↦ ground (arith, inside (ground arith))
    | inr e ↦ ground (arith, across (ground (arith, mod-lt t h)))
  ]

-- One alarm of the timer that is handled before the next one: the tick is counted and then the
-- scheduler's thread runs the sequencer once. Osal/Ticks has the alarms that come in between, and
-- Osal/Ticks/Prompt these as steps of it.
unfoldable pub alarm : Osal → Option Osal
alarm o = osal_task_generic_sequencer (λ k. pos 0) (osal_signal_handler_dispatcher sigalrm o)

-- That many alarms.
unfoldable pub alarms : ℕ → Osal → Option Osal
alarms zero o = some o
alarms (suc n) o = elim (alarm o) [ none ↦ none | some o' ↦ alarms n o' ]

-- How an entry in use stands to the one before, from tick `t` to tick `t'`: the signals are as many
-- more as there are multiples of its period count from one to the other.
abbrev pub Rated : (t t' : ℕ) → Sequencer → Sequencer → Type 0
Rated t t' s s' =
    (s'.period_cnts ≡ s.period_cnts)
    × (is_unused s'.task_state ≡ false)
    × (s'.signal_sem + t / s.period_cnts ≡ s.signal_sem + t' / s.period_cnts)

-- Alarms that are defined and take the tick from where it was on by `n`.
pub record Alarmed (n : ℕ) (o : Osal) (out : Option Osal) : Type 0 where
  pub after : Osal
  pub ended : out ≡ some after
  pub ready : IsReady after
  pub tick : after.tick ≡ o.tick + n
  pub tcbs : after.tcbs ≡ o.tcbs
  pub entries :
      (j : ℕ) (s : Sequencer)
      → get_elem? o.sequencers j ≡ some s
      → j < max_tasks
      → is_unused s.task_state ≡ false
      → 0 < s.period_cnts
      → (s' : Sequencer) × (get_elem? after.sequencers j ≡ some s') × Rated o.tick after.tick s s'

Released-Rated :
    (t j : ℕ) (s s' : Sequencer)
    → j < max_tasks
    → is_unused s.task_state ≡ false
    → 0 < s.period_cnts
    → Released (suc t) (within 0 max_tasks j) s s'
    → Rated t (suc t) s s'
Released-Rated t j s s' h u p r =
    (r.0, ground (arith, r.3, u), ground (arith, r.1, div-suc t s.period_cnts p))

-- The layer at the next tick; the tick does not wrap.
ticked : Osal → Osal
ticked o = record o { tick = suc o.tick }

dispatch_lem :
    (o : Osal) → suc o.tick < 2 ^ 64 → osal_signal_handler_dispatcher sigalrm o ≡ ticked o
unfolding osal_signal_handler_dispatcher ticked
dispatch_lem o h = ap (λ t. record o { tick = t }) (omega arith)

ticked-IsReady : (o : Osal) → IsReady o → IsReady (ticked o)
unfolding ticked
ticked-IsReady o v = record {
  up = v.up;
  size = v.size;
  next_in = v.next_in;
  next_idle = v.next_idle;
}

alarm-Alarmed : (o : Osal) → IsReady o → suc o.tick < 2 ^ 64 → Alarmed 1 o (alarm o)
unfolding alarm ticked
alarm-Alarmed o v h =
    let q = osal_task_generic_sequencer-Sequenced (ticked o) (ticked-IsReady o v) in
    record {
      after = record (ticked o) { sequencers = q.after };
      ended = ap (λ x. osal_task_generic_sequencer (λ k. pos 0) x) (dispatch_lem o h) ∙ q.ended;
      ready = IsReady-after (within 0 max_tasks) (ticked o) (ticked-IsReady o v) q;
      tick = omega arith;
      tcbs = refl;
      entries = λ j s g k u p.
          let (s', g', r) = q.entries j s g in (s', g', Released-Rated o.tick j s s' k u p r);
    }

pub alarms_step :
    (n : ℕ) (o : Osal) {o' : Osal} → alarm o ≡ some o' → alarms (suc n) o ≡ alarms n o'
unfolding alarms
alarms_step n o e = rw (alarms, e)

Rated-append :
    (t t' t'' : ℕ) (s s' s'' : Sequencer)
    → Rated t t' s s'
    → Rated t' t'' s' s''
    → Rated t t'' s s''
Rated-append t t' t'' s s' s'' r r' =
    (r'.0 ∙ r.0, r'.1, omega (arith, r.2, r'.2, ap (λ c. t' / c) r.0, ap (λ c. t'' / c) r.0))

-- Over `n` alarms that each run the sequencer once, from a ready layer whose tick does not wrap, and
-- with semaphores that can be posted: the run is defined, the tick goes up by `n`, and a task in use
-- with a period count `c` above 0 gets as many signals as there are multiples of `c` among the ticks
-- that came; it keeps its period count and stays in use, and the layer stays ready.
pub alarms-Alarmed : (n : ℕ) (o : Osal) → IsReady o → o.tick + n < 2 ^ 64 → Alarmed n o (alarms n o)
unfolding alarms
alarms-Alarmed zero o v h = record {
  after = o;
  ended = refl;
  ready = v;
  tick = omega arith;
  tcbs = refl;
  entries = λ j s g k u p. (s, g, (refl, u, refl));
}
alarms-Alarmed (suc n) o v h =
    let first = alarm-Alarmed o v (omega arith) in
    let rest = alarms-Alarmed n first.after first.ready (omega (arith, first.tick)) in
    record {
      after = rest.after;
      ended = alarms_step n o first.ended ∙ rest.ended;
      ready = rest.ready;
      tick = omega (arith, first.tick, rest.tick);
      tcbs = rest.tcbs ∙ first.tcbs;
      entries = λ j s g k u p.
          let (s', g', r) = first.entries j s g k u p in
          let (s'', g'', r') = rest.entries j s' g' k r.1 (omega (arith, r.0)) in
          (s'', g'', Rated-append o.tick first.after.tick rest.after.tick s s' s'' r r');
    }
