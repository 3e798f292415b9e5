-- ===== src/Osal/Locks/Exclusion.antt =====
-- Two threads never hold a mutex at once, and some thread can always go on.
use beaglebone_black_motion.Base.{
  ℕ, ◌≤◌, ◌≡◌, ◌≢◌, refl, sym, ap, ◌∙◌, subst, Bool, true, false, Option, none, some, List, ◌∷◌,
  ◌==◌, Bool-cases, inl, inr, arith,
}
use beaglebone_black_motion.Osal.{Osal}
use beaglebone_black_motion.Osal.Locks.{
  Mutex, os_tcb, os_sched, Act, Api, Thread, Threads, put, Step, take_tcb, take_sched, refuse,
  give_tcb, give_sched, Reach, start, later,
}
use beaglebone_black_motion.Osal.Locks.Ordered.{Ordered, script-Ordered}

abbrev pub owns : Option ℕ → ℕ → Bool
owns none i = false
owns (some k) i = i == k

abbrev pub holds : Mutex → Thread → Bool
holds os_tcb t = t.tcb
holds os_sched t = t.sched

-- What each thread has to do fits what it holds, and the owner of a mutex is the thread that holds it.
pub record Inv (s : Threads) : Type 0 where
  pub ordered : (i : ℕ) → Ordered (s.thread i).tcb (s.thread i).sched (s.thread i).rest
  pub tcb : (i : ℕ) → (s.thread i).tcb ≡ owns s.tcb_owner i
  pub low : (i : ℕ) → s.priority i ≤ s.ceiling
  pub sched : (i : ℕ) → (s.thread i).sched ≡ owns s.sched_owner i

-- What holds of the thread that steps and of all others holds of all.
put-all {ℓ} :
    (P : ℕ → Thread → Type ℓ) (f : ℕ → Thread) (i : ℕ) (t : Thread)
    → P i t
    → ((j : ℕ) → j ≢ i → P j (f j))
    → (j : ℕ) → P j (put f i t j)
put-all P f i t h k j = elim (Bool-cases (j == i)) [
  | inl e ↦ rw e (subst (λ x. P x t) (ground arith) h)
  | inr e ↦ rw e (k j (ground arith))
]

-- What the next call of a thread asks of it.
pub next-Ordered :
    {s : Threads} (v : Inv s) (i : ℕ) {a : Act} {rest : List Act}
    → (s.thread i).rest ≡ a ∷ rest
    → Ordered (s.thread i).tcb (s.thread i).sched (a ∷ rest)
next-Ordered {s} v i e = subst (Ordered (s.thread i).tcb (s.thread i).sched) e (v.ordered i)

owned : (o : Option ℕ) (i j : ℕ) → owns o i ≡ true → j ≢ i → owns o j ≡ false
owned none i j h k = absurd (cc)
owned (some n) i j h k = ground arith

pub step-Inv : {s t : Threads} → Step s t → Inv s → Inv t
step-Inv {s} (take_tcb i e free below) v =
    let (t, d, h) = next-Ordered v i e in
    record {
      low = v.low;
      ordered = put-all (λ j x. Ordered x.tcb x.sched x.rest) s.thread i _ h (λ j k. v.ordered j);
      tcb =
          put-all (λ j x. x.tcb ≡ (j == i)) s.thread i _ (ground arith)
            (λ j k. v.tcb j ∙ ap (λ o. owns o j) free ∙ ground arith);
      sched =
          put-all (λ j x. x.sched ≡ owns s.sched_owner j) s.thread i _ (v.sched i)
            (λ j k. v.sched j);
    }
step-Inv {s} (take_sched i e free below) v =
    let (d, h) = next-Ordered v i e in
    record {
      low = v.low;
      ordered = put-all (λ j x. Ordered x.tcb x.sched x.rest) s.thread i _ h (λ j k. v.ordered j);
      tcb = put-all (λ j x. x.tcb ≡ owns s.tcb_owner j) s.thread i _ (v.tcb i) (λ j k. v.tcb j);
      sched =
          put-all (λ j x. x.sched ≡ (j == i)) s.thread i _ (ground arith)
            (λ j k. v.sched j ∙ ap (λ o. owns o j) free ∙ ground arith);
    }
step-Inv {s} (refuse i m e above) v = absurd (omega (arith, v.low i))
step-Inv {s} (give_tcb i e) v =
    let (t, h) = next-Ordered v i e in
    record {
      low = v.low;
      ordered = put-all (λ j x. Ordered x.tcb x.sched x.rest) s.thread i _ h (λ j k. v.ordered j);
      tcb =
          put-all (λ j x. x.tcb ≡ false) s.thread i _ refl
            (λ j k. v.tcb j ∙ owned s.tcb_owner i j (sym (v.tcb i) ∙ t) k);
      sched =
          put-all (λ j x. x.sched ≡ owns s.sched_owner j) s.thread i _ (v.sched i)
            (λ j k. v.sched j);
    }
step-Inv {s} (give_sched i e) v =
    let (d, h) = next-Ordered v i e in
    record {
      low = v.low;
      ordered = put-all (λ j x. Ordered x.tcb x.sched x.rest) s.thread i _ h (λ j k. v.ordered j);
      tcb = put-all (λ j x. x.tcb ≡ owns s.tcb_owner j) s.thread i _ (v.tcb i) (λ j k. v.tcb j);
      sched =
          put-all (λ j x. x.sched ≡ false) s.thread i _ refl
            (λ j k. v.sched j ∙ owned s.sched_owner i j (sym (v.sched i) ∙ d) k);
    }

pub reach-Inv :
    {priority : ℕ → ℕ} {ceiling : ℕ} {calls : ℕ → List (Api × Osal)} {s : Threads}
    → ((i : ℕ) → priority i ≤ ceiling)
    → Reach priority ceiling calls s
    → Inv s
reach-Inv {calls = calls} low start = record {
  low = low;
  ordered = λ i. script-Ordered (calls i);
  tcb = λ i. refl;
  sched = λ i. refl;
}
reach-Inv low (later h t) = step-Inv t (reach-Inv low h)
