-- ===== src/Osal/Locks/Progress.antt =====
-- The threads never block each other for ever: the one order of the two mutexes rules out a deadlock.
use beaglebone_black_motion.Base.{
  ℕ, ◌+◌, ◌<◌, ◌≡◌, refl, ap, ◌∙◌, subst, Bool, true, false, Option, none, some, some-injective,
  Option-cases, List, [], ◌∷◌, ◌==◌, length, if◌then◌else◌, Bool-cases, ◌⊎◌, inl, inr, arith,
}
use beaglebone_black_motion.Osal.Locks.{
  os_tcb, os_sched, Act, lock, unlock, Thread, Threads, put, Step, take_tcb, take_sched, give_tcb,
  give_sched,
}
use beaglebone_black_motion.Osal.Locks.Ordered.{Ordered}
use beaglebone_black_motion.Osal.Locks.Exclusion.{Inv, owns, next-Ordered}

-- A step of some thread, which takes one call off its list and leaves the lists of the others.
pub record Moved (s : Threads) : Type 0 where
  pub who : ℕ
  pub after : Threads
  pub step : Step s after
  pub shorter :
      (j : ℕ)
      → length (after.thread j).rest + (if j == who then 1 else 0) ≡ length (s.thread j).rest

-- The thread that steps has one call less, and the others have as many as before.
pub put_shorter :
    (f : ℕ → Thread) (i : ℕ) {a : Act} {rest : List Act} (t : Thread)
    → (f i).rest ≡ a ∷ rest
    → t.rest ≡ rest
    → (j : ℕ) → length (put f i t j).rest + (if j == i then 1 else 0) ≡ length (f j).rest
put_shorter f i t e d j = elim (Bool-cases (j == i)) [
  | inl q ↦
      let same : j ≡ i = ground arith in
      rw q (omega (arith, ap length d, ap length e, ap (λ k. length (f k).rest) same))
  | inr q ↦ rw q (omega arith)
]

moved_by :
    (s t : Threads) (i : ℕ) {a : Act} {rest : List Act} (x : Thread)
    → (s.thread i).rest ≡ a ∷ rest
    → x.rest ≡ rest
    → Step s t
    → t.thread ≡ put s.thread i x
    → Moved s
moved_by s t i x e d step c = record {
  who = i;
  after = t;
  step = step;
  shorter = λ j.
      ap (λ (f : ℕ → Thread). length (f j).rest + (if j == i then 1 else 0)) c
      ∙ put_shorter s.thread i x e d j;
}

module _ (s : Threads) (v : Inv s) where
  -- The next call of a thread is possible if the mutexes that it may wait for are free.
  move :
      (i : ℕ) (a : Act) (rest : List Act)
      → (s.thread i).rest ≡ a ∷ rest
      → ((s.thread i).sched ≡ false → s.sched_owner ≡ none)
      → ((s.thread i).tcb ≡ false → (s.thread i).sched ≡ false → s.tcb_owner ≡ none)
      → Moved s
  move i (lock os_tcb) rest e sched tcb =
      let (t, d, h) = next-Ordered v i e in
      moved_by s _ i _ e refl (take_tcb i e (tcb t d) (v.low i)) refl
  move i (lock os_sched) rest e sched tcb =
      let (d, h) = next-Ordered v i e in
      moved_by s _ i _ e refl (take_sched i e (sched d) (v.low i)) refl
  move i (unlock os_tcb) rest e sched tcb = moved_by s _ i _ e refl (give_tcb i e) refl
  move i (unlock os_sched) rest e sched tcb = moved_by s _ i _ e refl (give_sched i e) refl

  -- A thread that holds a mutex has something left to do.
  more_left :
      (i : ℕ) (xs : List Act)
      → (s.thread i).rest ≡ xs
      → ((s.thread i).tcb ≡ true) ⊎ ((s.thread i).sched ≡ true)
      → (a : Act) × (rest : List Act) × ((s.thread i).rest ≡ a ∷ rest)
  more_left i (a ∷ rest) e h = (a, rest, e)
  more_left i [] e h =
      absurd (nothing_held (subst (Ordered (s.thread i).tcb (s.thread i).sched) e (v.ordered i)) h)
    where
      nothing_held : {tcb sched : Bool} → Ordered tcb sched [] → (tcb ≡ true) ⊎ (sched ≡ true) → ⊥
      nothing_held (t, d) (inl h) = cc
      nothing_held (t, d) (inr h) = cc

  owner_holds : (o : Option ℕ) (j : ℕ) → o ≡ some j → owns o j ≡ true
  owner_holds none j e = absurd (cc)
  owner_holds (some k) j e = ground (arith, some-injective k j e)

  -- As long as one thread has something left to do, one can go on.
  pub progress : (i : ℕ) → 0 < length (s.thread i).rest → Moved s
  progress i h = elim (Option-cases s.sched_owner) [
    | inr (j, o) ↦
        let held = v.sched j ∙ owner_holds s.sched_owner j o in
        let (a, rest, e) = more_left j (s.thread j).rest refl (inr held) in
        move j a rest e (λ d. absurd (cc)) (λ t d. absurd (cc))
    | inl free ↦ elim (Option-cases s.tcb_owner) [
      | inr (j, o) ↦
          let held = v.tcb j ∙ owner_holds s.tcb_owner j o in
          let (a, rest, e) = more_left j (s.thread j).rest refl (inl held) in
          move j a rest e (λ d. free) (λ t d. absurd (cc))
      | inl free' ↦
          let (a, rest, e) = first_of (s.thread i).rest refl h in
          move i a rest e (λ d. free) (λ t d. free')
    ]
  ]
    where
      first_of :
          (xs : List Act)
          → (s.thread i).rest ≡ xs
          → 0 < length xs
          → (a : Act) × (rest : List Act) × ((s.thread i).rest ≡ a ∷ rest)
      first_of [] e k = absurd (omega arith)
      first_of (a ∷ rest) e k = (a, rest, e)
