-- ===== src/Pipeline/Drain.antt =====
-- Once the camera writes no more, the frames on their way are sent, all of them and in order.
use beaglebone_black_motion.Base.{
  ℕ, ◌*◌, ◌≤◌, ◌<◌, ◌≡◌, refl, sym, ap, ap₂, subst, ◌∙◌, Option, some, List, [], ◌∷◌, ◌++◌,
  append-nil, append_assoc, length, length-append, length-take, length-drop, take, drop, ◌==◌,
  false, arith, ◌⊎◌, inl, inr,
}
use beaglebone_black_motion.Config.{Frame, frame_size}
use beaglebone_black_motion.RingBuffer.Refine.{contents}
use beaglebone_black_motion.Framebuffer.{Errno}
use beaglebone_black_motion.Framebuffer.Read.{pop_two}
use beaglebone_black_motion.Image.Buffer.Refine.{frames, queue_call}
use beaglebone_black_motion.Image.Send.{Datagram}
use beaglebone_black_motion.Nvm.{Network}
use beaglebone_black_motion.Nvm.Drain.{Offline}
use beaglebone_black_motion.Transcoder.Move.{move}
use beaglebone_black_motion.Pipeline.{Pipeline, Step, transcode, stream, Outcome, run}
use beaglebone_black_motion.Pipeline.Passed.{PassedAll, PassedAll-append, PassedAll-map}
use beaglebone_black_motion.Pipeline.Turns.{IsReady, IsFair, underway, step-Stepped}
use beaglebone_black_motion.Pipeline.Order.{run_step, SomeUnconnected}

-- What a turn of the transcoder and then one of the streaming task meet.
pub record Cycle : Type 0 where
  pub rgb_frame : Frame
  pub rgb_frame' : Frame
  pub net : Network
  pub net' : Network

abbrev pub steps : List Cycle → List Step
steps [] = []
steps (c ∷ cs) = transcode c.rgb_frame c.rgb_frame' ∷ stream c.net c.net' ∷ steps cs

not_full : (q : List Frame) → length q < 255 → (length q == 255) ≡ false
not_full q h = ground arith

move_room :
    (f : Frame) (raw q : List Frame) → length q < 255 → move (f ∷ raw, q) ≡ (raw, q ++ f ∷ [])
unfolding move queue_call
move_room f raw q h = rw (not_full q h) refl

-- With room for two frames the transcoder drops none.
pub move_two :
    (raw q : List Frame) → length q ≤ 253 → move (move (raw, q)) ≡ (drop 2 raw, q ++ take 2 raw)
unfolding move
move_two [] q h = ap (λ (z : List Frame). ([], z)) (sym (append-nil q))
move_two (f ∷ []) q h = ap move (move_room f [] q (omega arith))
move_two (f ∷ g ∷ raw) q h =
    ap move (move_room f (g ∷ raw) q (omega arith))
    ∙ move_room g raw (q ++ f ∷ []) (omega (arith, length-append q (f ∷ [])))
    ∙ ap (λ (z : List Frame). (raw, z)) (append_assoc q (f ∷ []) (g ∷ []))

take-drop_two : (raw : List Frame) → take 2 raw ++ drop 2 raw ≡ raw
take-drop_two [] = refl
take-drop_two (f ∷ []) = refl
take-drop_two (f ∷ g ∷ raw) = refl

-- The two frames that are sent are the two oldest ones on their way.
take_two : (q raw : List Frame) → take 2 (q ++ take 2 raw) ≡ take 2 (q ++ raw)
take_two [] [] = refl
take_two [] (f ∷ []) = refl
take_two [] (f ∷ g ∷ raw) = refl
take_two (a ∷ []) [] = refl
take_two (a ∷ []) (f ∷ []) = refl
take_two (a ∷ []) (f ∷ g ∷ raw) = refl
take_two (a ∷ b ∷ q) raw = refl

drop_two : (q raw : List Frame) → drop 2 (q ++ take 2 raw) ++ drop 2 raw ≡ drop 2 (q ++ raw)
drop_two [] [] = refl
drop_two [] (f ∷ []) = refl
drop_two [] (f ∷ g ∷ raw) = refl
drop_two (a ∷ []) [] = refl
drop_two (a ∷ []) (f ∷ []) = refl
drop_two (a ∷ []) (f ∷ g ∷ raw) = refl
drop_two (a ∷ b ∷ q) raw =
    append_assoc q (take 2 raw) (drop 2 raw) ∙ ap (λ z. q ++ z) (take-drop_two raw)

-- The two turns are defined, send the two oldest frames on their way and leave the others.
record Cycled (errno : Errno) (fuel : ℕ) (c : Cycle) (cs : List Cycle) (p : Pipeline) : Type 0 where
  after : Pipeline
  datagrams : List Datagram
  ended :
      (p' : Pipeline) (ds : List Datagram)
      → run errno fuel (steps cs) after ≡ some (p', ds)
      → run errno fuel (steps (c ∷ cs)) p ≡ some (p', datagrams ++ ds)
  ready : IsReady after
  passed : PassedAll (Offline c.net ⊎ Offline c.net') (take 2 (underway p)) datagrams
  left : underway after ≡ drop 2 (underway p)
  room : length (frames after.images) ≤ 253
  state : after.camera.state ≡ p.camera.state

cycle-Cycled :
    (errno : Errno) (fuel : ℕ) (c : Cycle) (cs : List Cycle) (p : Pipeline)
    → frame_size < fuel
    → IsFair (transcode c.rgb_frame c.rgb_frame')
    → IsFair (stream c.net c.net')
    → IsReady p
    → length (frames p.images) ≤ 253
    → Cycled errno fuel c cs p
cycle-Cycled errno fuel c cs p g h h' v r =
    let raw = contents [] p.camera.ring in
    let q = frames p.images in
    let first = step-Stepped errno fuel (transcode c.rgb_frame c.rgb_frame') p g h v in
    let second = step-Stepped errno fuel (stream c.net c.net') first.after g h' first.ready in
    let moved = first.exact.0 ∙ move_two raw q r in
    let raw' : contents [] second.after.camera.ring ≡ drop 2 raw =
      second.exact.0 ∙ ap (λ (z : List Frame × List Frame). z.0) moved in
    let mid : frames first.after.images ≡ q ++ take 2 raw =
      ap (λ (z : List Frame × List Frame). z.1) moved in
    let q' : frames second.after.images ≡ drop 2 (q ++ take 2 raw) =
      second.exact.1 ∙ pop_two (frames first.after.images) ∙ ap (drop 2) mid in
    record {
      after = second.after;
      datagrams = first.datagrams ++ second.datagrams;
      ended = λ p' ds e.
          run_step errno fuel (transcode c.rgb_frame c.rgb_frame') _ p first.ended
            (run_step errno fuel (stream c.net c.net') (steps cs) first.after second.ended e)
          ∙ ap (λ (z : List Datagram). some (p', z))
              (sym (append_assoc first.datagrams second.datagrams ds));
      ready = second.ready;
      passed =
          subst
            (λ fs.
              PassedAll (Offline c.net ⊎ Offline c.net') fs (first.datagrams ++ second.datagrams))
            (ap₂ ◌++◌ first.exact.1 (second.exact.2 ∙ ap (take 2) mid ∙ take_two q raw))
            (PassedAll-append (Offline c.net ⊎ Offline c.net') first.taken second.taken
              first.datagrams second.datagrams
              (PassedAll-map (λ x. absurd x) first.taken first.datagrams first.passed)
              second.passed);
      left = ap₂ ◌++◌ q' raw' ∙ drop_two q raw;
      room = omega (
        arith,
        ap length q',
        length-drop 2 (q ++ take 2 raw),
        length-append q (take 2 raw),
        length-take 2 raw,
      );
      state = second.state ∙ first.state;
    }

abbrev pub FairCycles : List Cycle → Type 0
FairCycles [] = Unit
FairCycles (c ∷ cs) =
    IsFair (transcode c.rgb_frame c.rgb_frame') × IsFair (stream c.net c.net') × FairCycles cs

-- A run that is defined, sends all that was on its way, and leaves nothing behind.
pub record Emptied (cs : List Cycle) (p : Pipeline) (out : Option Outcome) : Type 0 where
  pub after : Pipeline
  pub datagrams : List Datagram
  pub ended : out ≡ some (after, datagrams)
  pub ready : IsReady after
  pub passed : PassedAll (SomeUnconnected (steps cs)) (underway p) datagrams
  pub empty : underway after ≡ []
  pub state : after.camera.state ≡ p.camera.state

-- From a ready pipeline with fuel above the size of a frame and room for two frames in the image
-- buffer, and with fair turns in which the camera does not write: as many cycles of the transcoder
-- and the streaming task as there are pairs of frames on their way, or more, are defined, send each of
-- these frames, none left out and the oldest first, and leave both rings empty and ready. Of a frame
-- the whole is sent, or a beginning where the last call of `sendto` for it failed or no socket could
-- be made in some turn.
pub drain-Emptied :
    (errno : Errno) (fuel : ℕ) (cs : List Cycle) (p : Pipeline)
    → frame_size < fuel
    → FairCycles cs
    → IsReady p
    → length (frames p.images) ≤ 253
    → length (underway p) ≤ 2 * length cs
    → Emptied cs p (run errno fuel (steps cs) p)
unfolding run
drain-Emptied errno fuel [] p g h v r few =
    let none : underway p ≡ [] = no_frame (underway p) few in
    record {
      after = p;
      datagrams = [];
      ended = refl;
      ready = v;
      passed = subst (λ fs. PassedAll (SomeUnconnected []) fs []) (sym none) refl;
      empty = none;
      state = refl;
    }
  where
    no_frame : (fs : List Frame) → length fs ≤ 0 → fs ≡ []
    no_frame [] k = refl
    no_frame (f ∷ fs) k = absurd (omega arith)
drain-Emptied errno fuel (c ∷ cs) p g (h, h', hs) v r few =
    let first = cycle-Cycled errno fuel c cs p g h h' v r in
    let rest =
      drain-Emptied errno fuel cs first.after g hs first.ready first.room
        (omega (arith, few, ap length first.left, length-drop 2 (underway p))) in
    record {
      after = rest.after;
      datagrams = first.datagrams ++ rest.datagrams;
      ended = first.ended rest.after rest.datagrams rest.ended;
      ready = rest.ready;
      passed =
          subst
            (λ fs.
              PassedAll (SomeUnconnected (steps (c ∷ cs))) fs (first.datagrams ++ rest.datagrams))
            (ap (λ z. take 2 (underway p) ++ z) first.left ∙ take-drop_two (underway p))
            (PassedAll-append (SomeUnconnected (steps (c ∷ cs))) (take 2 (underway p))
              (underway first.after) first.datagrams rest.datagrams
              (PassedAll-map (λ x. inr (inl x)) (take 2 (underway p)) first.datagrams first.passed)
              (PassedAll-map (λ x. inr (inr x)) (underway first.after) rest.datagrams rest.passed));
      empty = rest.empty;
      state = rest.state ∙ first.state;
    }
