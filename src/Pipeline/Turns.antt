-- ===== src/Pipeline/Turns.antt =====
-- What one turn of a task does with the frames on their way.
use beaglebone_black_motion.Base.{
  ℕ, ◌≤◌, ◌<◌, ◌≡◌, refl, sym, ap, subst, ◌∙◌, Bool, true, false, not, ◌&&◌, Option, some, List, [],
  ◌∷◌, ◌++◌, append-nil, append_assoc, length, take, if◌then◌else◌, Bool-cases, inl, inr, ◌==◌, ◌⊎◌,
}
use beaglebone_black_motion.Base.Subsequence.{
  Subsequence, skip, of_eq, same, none_of, in_front, through,
}
use beaglebone_black_motion.Config.{Frame, IsFrame, frame_size}
use beaglebone_black_motion.RingBuffer
use beaglebone_black_motion.RingBuffer.Refine.{contents}
use beaglebone_black_motion.Framebuffer.{Errno}
use beaglebone_black_motion.Framebuffer.Save
use beaglebone_black_motion.Framebuffer.Save.{stored_frame}
use beaglebone_black_motion.Framebuffer.Write.{took, adds}
use beaglebone_black_motion.Framebuffer.Read.{pop}
use beaglebone_black_motion.Image.Buffer.Refine
use beaglebone_black_motion.Image.Buffer.Refine.{frames, queue_call}
use beaglebone_black_motion.Image.Send.{Datagram}
use beaglebone_black_motion.Image.Send.Complete.{IsSendto}
use beaglebone_black_motion.Camera
use beaglebone_black_motion.Camera.{Inputs}
use beaglebone_black_motion.Camera.Capture.{IsTaking, is_capturing, next_state, turn-Taken}
use beaglebone_black_motion.Transcoder.Move.{move, turn-Moves}
use beaglebone_black_motion.Nvm
use beaglebone_black_motion.Nvm.Drain.{Offline, Passed-map, turn-DrainedTwo}
use beaglebone_black_motion.Pipeline.Passed.{PassedAll, take_two, take_two_rest}
use beaglebone_black_motion.Pipeline.{
  Pipeline, Step, film, transcode, stream, Outcome, transcoder, nvm, step,
}

-- The camera takes frames, and both rings are ready.
pub record IsReady (p : Pipeline) : Type 0 where
  pub taking : IsTaking p.camera.state
  pub raw : Save.IsReady p.camera.ring
  pub images : Refine.IsReady p.images

-- A delivery that fits a frame and its mapping, local frames of the size of a frame, and a `sendto`
-- that fails or takes between one byte and all.
abbrev pub IsFair : Step → Type 0
IsFair (film i) =
    (i.answers.bytesused ≤ frame_size) × (i.answers.bytesused ≤ length i.answers.mapped)
IsFair (transcode rgb_frame rgb_frame') = IsFrame rgb_frame × IsFrame rgb_frame'
IsFair (stream net net') = IsSendto net.sendto × IsSendto net'.sendto

abbrev pub AllFair : List Step → Type 0
AllFair [] = Unit
AllFair (s ∷ ss) = IsFair s × AllFair ss

-- The frames on their way, the next one to be sent first.
abbrev pub underway : Pipeline → List Frame
underway p = frames p.images ++ contents [] p.camera.ring

-- The frame that a step takes from the driver while the camera is capturing.
abbrev pub captured : Errno → Step → Pipeline → List Frame
captured errno (film i) p =
    if took errno i.answers && is_capturing (next_state i p.camera.state)
    then stored_frame i.answers p.camera.ring ∷ []
    else []
captured errno _ p = []

-- A raw frame that moves to the image queue stays where it is on its way, or is dropped.
move-Subsequence :
    (raw q : List Frame) → let (raw', q') = move (raw, q) in Subsequence (q' ++ raw') (q ++ raw)
unfolding move queue_call
move-Subsequence [] q = same (q ++ [])
move-Subsequence (f ∷ raw) q = elim (Bool-cases (length q == 255)) [
  | inl e ↦ rw e (in_front q (skip f (same raw)))
  | inr e ↦ rw e (of_eq (append_assoc q (f ∷ []) raw))
]

-- The state of the camera task once a step is done.
abbrev pub camera_state : Step → Pipeline → Camera.State
camera_state (film i) p = next_state i p.camera.state
camera_state _ p = p.camera.state

-- What becomes of the two queues, with the frames taken for sending.
abbrev pub Exact : Errno → Step → Pipeline → Pipeline → List Frame → Type 0
Exact errno (film i) p after taken =
    (contents [] after.camera.ring ≡ (
      contents [] p.camera.ring
      ++ (if adds errno i.answers (is_capturing (next_state i p.camera.state)) p.camera.ring
          then stored_frame i.answers p.camera.ring ∷ []
          else [])))
    × (frames after.images ≡ frames p.images)
    × (taken ≡ [])
Exact errno (transcode rgb_frame rgb_frame') p after taken =
    ((contents [] after.camera.ring, frames after.images)
      ≡ move (move (contents [] p.camera.ring, frames p.images)))
    × (taken ≡ [])
Exact errno (stream net net') p after taken =
    (contents [] after.camera.ring ≡ contents [] p.camera.ring)
    × (frames after.images ≡ (pop (pop (frames p.images)).1).1)
    × (taken ≡ take 2 (frames p.images))

-- The step is a turn of the streaming task in which no socket could be made.
abbrev pub Unconnected : Step → Type 0
Unconnected (stream net net') = Offline net ⊎ Offline net'
Unconnected _ = ⊥

-- A step that is defined, keeps the pipeline ready, and sends only frames that were on their way.
pub record Stepped (errno : Errno) (s : Step) (p : Pipeline) (out : Option Outcome) : Type 0 where
  pub after : Pipeline
  pub datagrams : List Datagram
  pub ended : out ≡ some (after, datagrams)
  pub ready : IsReady after
  pub taken : List Frame
  pub passed : PassedAll (Unconnected s) taken datagrams
  pub order : Subsequence (taken ++ underway after) (underway p ++ captured errno s p)
  pub state : after.camera.state ≡ camera_state s p
  pub exact : Exact errno s p after taken

kept_or_dropped :
    (took capturing full : Bool) (f : Frame)
    → Subsequence
        (if took && capturing && not full then f ∷ [] else [])
        (if took && capturing then f ∷ [] else [])
kept_or_dropped true true true f = none_of (f ∷ [])
kept_or_dropped true true false f = same (f ∷ [])
kept_or_dropped true false full f = same []
kept_or_dropped false capturing full f = same []

film-Stepped :
    (errno : Errno) (fuel : ℕ) (i : Inputs) (p : Pipeline)
    → IsFair (film i)
    → IsReady p
    → Stepped errno (film i) p (step errno fuel (film i) p)
unfolding step
film-Stepped errno fuel i p (h, k) v =
    let (t, c) = turn-Taken errno i p.camera v.taking v.raw h k in
    record {
      after = record p { camera = c.after };
      datagrams = [];
      ended = rw (step, c.ended) refl;
      ready = record { taking = subst IsTaking (sym c.state) t; raw = c.ready; images = v.images };
      taken = [];
      passed = refl;
      order = through (of_eq (sym (append_assoc (frames p.images) (contents [] p.camera.ring) _))) (
          in_front (frames p.images) (
            through
              (in_front (contents [] p.camera.ring) (
                kept_or_dropped (took errno i.answers) (is_capturing (next_state i p.camera.state))
                  (RingBuffer.is_full p.camera.ring) (stored_frame i.answers p.camera.ring)))
              (of_eq c.queue)));
      state = c.state;
      exact = (c.queue, refl, refl);
    }

transcode-Stepped :
    (errno : Errno) (fuel : ℕ) (rgb_frame rgb_frame' : Frame) (p : Pipeline)
    → IsFair (transcode rgb_frame rgb_frame')
    → IsReady p
    → Stepped errno
        (transcode rgb_frame rgb_frame')
        p
        (step errno fuel (transcode rgb_frame rgb_frame') p)
unfolding step
transcode-Stepped errno fuel rgb_frame rgb_frame' p (h, h') v =
    let m =
      turn-Moves rgb_frame rgb_frame' (transcoder p) h h'
        (record { raw = v.raw; images = v.images }) in
    let raw = contents [] p.camera.ring in
    let q = frames p.images in
    let (raw', q') = move (raw, q) in
    record {
      after = record p { camera = record p.camera { ring = m.after.raw }; images = m.after.images };
      datagrams = [];
      ended = rw (step, m.ended) refl;
      ready = record { taking = v.taking; raw = m.ready.raw; images = m.ready.images };
      taken = [];
      passed = refl;
      order = through (of_eq (sym (append-nil (q ++ raw)))) (
          through (move-Subsequence raw q) (
            through (move-Subsequence raw' q')
              (of_eq (ap (λ (z : List Frame × List Frame). z.1 ++ z.0) m.moved))));
      state = refl;
      exact = (m.moved, refl);
    }

stream-Stepped :
    (errno : Errno) (fuel : ℕ) (net net' : Nvm.Network) (p : Pipeline)
    → frame_size < fuel
    → IsFair (stream net net')
    → IsReady p
    → Stepped errno (stream net net') p (step errno fuel (stream net net') p)
unfolding step
stream-Stepped errno fuel net net' p g (h, h') v =
    let d = turn-DrainedTwo fuel net net' (nvm p) h h' g v.images in
    let raw = contents [] p.camera.ring in
    let q = frames p.images in
    let (first, second, e, a, b) = d.passed in
    record {
      after = record p { images = d.after.images; sockfd = d.after.sockfd };
      datagrams = d.datagrams;
      ended = rw (step, d.ended) refl;
      ready = record { taking = v.taking; raw = v.raw; images = d.ready };
      taken = take 2 q;
      passed = subst (PassedAll (Offline net ⊎ Offline net') (take 2 q)) (sym e) (
          take_two (Offline net ⊎ Offline net') q first second (Passed-map inl q first a)
            (Passed-map inr (pop q).1 second b));
      order = of_eq (
          sym (append_assoc (take 2 q) (frames d.after.images) raw)
          ∙ ap (λ z. (take 2 q ++ z) ++ raw) d.queue
          ∙ ap (λ z. z ++ raw) (take_two_rest q)
          ∙ sym (append-nil (q ++ raw)));
      state = refl;
      exact = (refl, d.queue, refl);
    }

-- Whatever a step meets that is fair.
pub step-Stepped :
    (errno : Errno) (fuel : ℕ) (s : Step) (p : Pipeline)
    → frame_size < fuel
    → IsFair s
    → IsReady p
    → Stepped errno s p (step errno fuel s p)
step-Stepped errno fuel (film i) p g h v = film-Stepped errno fuel i p h v
step-Stepped errno fuel (transcode rgb_frame rgb_frame') p g h v =
    transcode-Stepped errno fuel rgb_frame rgb_frame' p h v
step-Stepped errno fuel (stream net net') p g h v = stream-Stepped errno fuel net net' p g h v
