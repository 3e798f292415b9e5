-- ===== src/Pipeline/Passed.antt =====
-- Datagrams that send the frames of a queue.
use beaglebone_black_motion.Base.{
  ◌≡◌, refl, sym, ap, ap₂, subst, ◌∙◌, List, [], ◌∷◌, ◌++◌, append-nil, append_assoc, take,
}
use beaglebone_black_motion.Config.{Frame}
use beaglebone_black_motion.Framebuffer.Read.{pop}
use beaglebone_black_motion.Image.Send.{Datagram}
use beaglebone_black_motion.Nvm.Drain.{Passed, Passed-map}

-- The datagrams send the frames, one after the other: the whole of each, or a beginning where the last
-- call of `sendto` for it failed or `B` holds.
abbrev pub PassedAll : (B : Type 0) → List Frame → List Datagram → Type 0
PassedAll B [] ds = ds ≡ []
PassedAll B (f ∷ fs) ds =
    (first : List Datagram) × (rest : List Datagram) × (ds ≡ first ++ rest)
    × Passed B (f ∷ []) first
    × PassedAll B fs rest

pub PassedAll-append :
    (B : Type 0) (fs gs : List Frame) (ds es : List Datagram)
    → PassedAll B fs ds
    → PassedAll B gs es
    → PassedAll B (fs ++ gs) (ds ++ es)
PassedAll-append B [] gs ds es p q = subst (PassedAll B gs) (ap (λ z. z ++ es) (sym p)) q
PassedAll-append B (f ∷ fs) gs ds es (first, rest, e, b, p) q = (
  first,
  rest ++ es,
  ap (λ z. z ++ es) e ∙ append_assoc first rest es,
  b,
  PassedAll-append B fs gs rest es p q,
)

pub PassedAll-map :
    {B C : Type 0}
    → (B → C)
    → (fs : List Frame) (ds : List Datagram) → PassedAll B fs ds
    → PassedAll C fs ds
PassedAll-map h [] ds p = p
PassedAll-map h (f ∷ fs) ds (first, rest, e, b, p) =
    (first, rest, e, Passed-map h (f ∷ []) first b, PassedAll-map h fs rest p)

-- What the streaming task takes in a turn.
pub take_two :
    (B : Type 0) (q : List Frame) (first second : List Datagram)
    → Passed B q first
    → Passed B (pop q).1 second
    → PassedAll B (take 2 q) (first ++ second)
take_two B [] first second p p' = ap₂ ◌++◌ p p'
take_two B (f ∷ []) first second p p' = (first, second, refl, p, p')
take_two B (f ∷ g ∷ q) first second p p' =
    (first, second, refl, p, (second, [], sym (append-nil second), p', refl))

pub take_two_rest : (q : List Frame) → take 2 q ++ (pop (pop q).1).1 ≡ q
take_two_rest [] = refl
take_two_rest (f ∷ []) = refl
take_two_rest (f ∷ g ∷ q) = refl
