-- ===== src/Pipeline/Order.antt =====
-- No frame is sent twice or out of order, whatever the three tasks do.
use beaglebone_black_motion.Base.{
  ℕ, ◌<◌, ◌≡◌, refl, sym, ap, Option, none, some, List, [], ◌∷◌, ◌++◌, append-nil, append_assoc,
  ◌⊎◌, inl, inr,
}
use beaglebone_black_motion.Base.Subsequence.{Subsequence, of_eq, same, in_front, joined, through}
use beaglebone_black_motion.Config.{Frame, frame_size}
use beaglebone_black_motion.Framebuffer.{Errno}
use beaglebone_black_motion.Image.Send.{Datagram}
use beaglebone_black_motion.Pipeline.{Pipeline, Step, Outcome, step, run}
use beaglebone_black_motion.Pipeline.Passed.{PassedAll, PassedAll-append, PassedAll-map}
use beaglebone_black_motion.Pipeline.Turns.{
  IsReady, AllFair, underway, captured, Unconnected, step-Stepped,
}

-- The frames that the steps of a run capture.
pub all_captured : Errno → (fuel : ℕ) → List Step → Pipeline → List Frame
all_captured errno fuel [] p = []
all_captured errno fuel (s ∷ ss) p = captured errno s p ++ elim (step errno fuel s p) [
  | none ↦ []
  | some (p', datagrams) ↦ all_captured errno fuel ss p'
]

-- In some turn of the streaming task no socket could be made.
abbrev pub SomeUnconnected : List Step → Type 0
SomeUnconnected [] = ⊥
SomeUnconnected (s ∷ ss) = Unconnected s ⊎ SomeUnconnected ss

-- A run that is defined, keeps the pipeline ready, and sends frames that were on their way or were
-- captured in it, each at most once and in order.
pub record Ran (errno : Errno) (fuel : ℕ) (ss : List Step) (p : Pipeline) (out : Option Outcome)
    : Type 0 where
  pub after : Pipeline
  pub datagrams : List Datagram
  pub ended : out ≡ some (after, datagrams)
  pub ready : IsReady after
  pub taken : List Frame
  pub passed : PassedAll (SomeUnconnected ss) taken datagrams
  pub order : Subsequence (taken ++ underway after) (underway p ++ all_captured errno fuel ss p)

pub run_step :
    (errno : Errno) (fuel : ℕ) (s : Step) (ss : List Step) (p : Pipeline) {p' p'' : Pipeline}
    {ds ds' : List Datagram}
    → step errno fuel s p ≡ some (p', ds)
    → run errno fuel ss p' ≡ some (p'', ds')
    → run errno fuel (s ∷ ss) p ≡ some (p'', ds ++ ds')
unfolding run
run_step errno fuel s ss p e e' = rw (run, e) (rw e' refl)

captured_step :
    (errno : Errno) (fuel : ℕ) (s : Step) (ss : List Step) (p : Pipeline) {p' : Pipeline}
    {ds : List Datagram}
    → step errno fuel s p ≡ some (p', ds)
    → all_captured errno fuel (s ∷ ss) p ≡ captured errno s p ++ all_captured errno fuel ss p'
unfolding all_captured
captured_step errno fuel s ss p e = rw (all_captured, e) refl

-- Two pieces of a run, one after the other.
order-append :
    (taken taken' a b c first second : List Frame)
    → Subsequence (taken ++ b) (a ++ first)
    → Subsequence (taken' ++ c) (b ++ second)
    → Subsequence ((taken ++ taken') ++ c) (a ++ (first ++ second))
order-append taken taken' a b c first second s s' = through (of_eq (append_assoc a first second)) (
    through (joined s (same second)) (
      through (of_eq (sym (append_assoc taken b second)))
        (through (in_front taken s') (of_eq (append_assoc taken taken' c)))))

-- From a ready pipeline, with fuel above the size of a frame and for any order of turns of the three
-- tasks, each of them fair: the run is defined and leaves the pipeline ready; the datagrams send
-- the frames of a list, one after the other, the whole of each or a beginning where the last call of
-- `sendto` for it failed or no socket could be made in some turn; and that list with the frames still on
-- their way is a subsequence of those on their way before and those captured in the run, so that no
-- frame is made up, sent twice or sent before an older one.
pub run-Ran :
    (errno : Errno) (fuel : ℕ) (ss : List Step) (p : Pipeline)
    → frame_size < fuel
    → AllFair ss
    → IsReady p
    → Ran errno fuel ss p (run errno fuel ss p)
unfolding run all_captured
run-Ran errno fuel [] p g h v = record {
  after = p;
  datagrams = [];
  ended = refl;
  ready = v;
  taken = [];
  passed = refl;
  order = of_eq (sym (append-nil (underway p)));
}
run-Ran errno fuel (s ∷ ss) p g (h, hs) v =
    let first = step-Stepped errno fuel s p g h v in
    let rest = run-Ran errno fuel ss first.after g hs first.ready in
    record {
      after = rest.after;
      datagrams = first.datagrams ++ rest.datagrams;
      ended = run_step errno fuel s ss p first.ended rest.ended;
      ready = rest.ready;
      taken = first.taken ++ rest.taken;
      passed =
          PassedAll-append (SomeUnconnected (s ∷ ss)) first.taken rest.taken first.datagrams
            rest.datagrams (PassedAll-map inl first.taken first.datagrams first.passed)
            (PassedAll-map inr rest.taken rest.datagrams rest.passed);
      order =
          through
            (of_eq (ap (λ z. underway p ++ z) (sym (captured_step errno fuel s ss p first.ended))))
            (order-append first.taken rest.taken (underway p) (underway first.after)
              (underway rest.after) (captured errno s p) (all_captured errno fuel ss first.after)
              first.order rest.order);
    }
