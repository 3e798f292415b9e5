-- ===== src/Osal/Locks/Ordered.antt =====
-- Each function of the layer gives back what it takes, and takes the mutexes in one order.
use beaglebone_black_motion.Base.{
  ◌≡◌, refl, sym, subst, Bool, true, false, List, [], ◌∷◌, ◌++◌, arith,
}
use beaglebone_black_motion.Osal.{Osal}
use beaglebone_black_motion.Osal.Locks.{
  os_tcb, os_sched, Act, lock, unlock, Api, trace, start_trace, create_section, create_trace,
  script,
}

-- A list of calls that a thread may make which holds the mutexes that the two tests name: a mutex is
-- taken only if the thread does not hold it, `os_tcb_mutex` only if it holds neither, a mutex is given
-- back only by a thread that holds it, and at the end none is held.
abbrev pub Ordered : (tcb sched : Bool) → List Act → Type 0
Ordered tcb sched [] = (tcb ≡ false) × (sched ≡ false)
Ordered tcb sched (lock os_tcb ∷ xs) = (tcb ≡ false) × (sched ≡ false) × Ordered true sched xs
Ordered tcb sched (lock os_sched ∷ xs) = (sched ≡ false) × Ordered tcb true xs
Ordered tcb sched (unlock os_tcb ∷ xs) = (tcb ≡ true) × Ordered false sched xs
Ordered tcb sched (unlock os_sched ∷ xs) = (sched ≡ true) × Ordered tcb false xs

Ordered-append :
    (tcb sched : Bool) (xs ys : List Act)
    → Ordered tcb sched xs
    → Ordered false false ys
    → Ordered tcb sched (xs ++ ys)
Ordered-append tcb sched [] ys (t, s) k =
    subst (λ x. Ordered x sched ys) (sym t) (subst (λ x. Ordered false x ys) (sym s) k)
Ordered-append tcb sched (lock os_tcb ∷ xs) ys (t, s, h) k =
    (t, s, Ordered-append true sched xs ys h k)
Ordered-append tcb sched (lock os_sched ∷ xs) ys (s, h) k = (s, Ordered-append tcb true xs ys h k)
Ordered-append tcb sched (unlock os_tcb ∷ xs) ys (t, h) k =
    (t, Ordered-append false sched xs ys h k)
Ordered-append tcb sched (unlock os_sched ∷ xs) ys (s, h) k =
    (s, Ordered-append tcb false xs ys h k)

-- On each branch of each function, whatever the state of the layer and the results of the POSIX
-- calls.
trace-Ordered : (f : Api) (o : Osal) → Ordered false false (trace f o)
unfolding trace start_trace create_section create_trace
trace-Ordered f o = ground arith

pub script-Ordered : (cs : List (Api × Osal)) → Ordered false false (script cs)
unfolding script
script-Ordered [] = (refl, refl)
script-Ordered ((f, o) ∷ cs) =
    Ordered-append false false (trace f o) (script cs) (trace-Ordered f o) (script-Ordered cs)
