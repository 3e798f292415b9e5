-- ===== src/System/Passage.antt =====
-- A frame passes the camera task, the transcoder and the streaming task, one turn of each.
use beaglebone_black_motion.Base.{
  ℕ, ◌<◌, ◌≡◌, ◌≢◌, sym, ap, ap₂, subst, ◌∙◌, if◌then◌else◌, arith, true, false, some, List, [],
  ◌∷◌, ◌++◌, length, take, ◌⊎◌,
}
use beaglebone_black_motion.Base.Int.{ℤ}
use beaglebone_black_motion.Config.{Frame, frame_size}
use beaglebone_black_motion.RingBuffer
use beaglebone_black_motion.RingBuffer.{Ring}
use beaglebone_black_motion.RingBuffer.Refine.{contents, length-contents, is_full_lem}
use beaglebone_black_motion.Framebuffer.{Errno, Answers}
use beaglebone_black_motion.Framebuffer.Save
use beaglebone_black_motion.Framebuffer.Save.{stored_frame}
use beaglebone_black_motion.Framebuffer.Read.{pop}
use beaglebone_black_motion.Framebuffer.Write.{took, adds}
use beaglebone_black_motion.Image.Buffer.Refine.{frames}
use beaglebone_black_motion.Image.Send.{Datagram}
use beaglebone_black_motion.Detection.{Sample}
use beaglebone_black_motion.Camera
use beaglebone_black_motion.Camera.{handle_event}
use beaglebone_black_motion.Camera.Capture.{is_capturing, next_state}
use beaglebone_black_motion.Transcoder.Move.{move}
use beaglebone_black_motion.Nvm.{Network}
use beaglebone_black_motion.Nvm.Drain.{Offline}
use beaglebone_black_motion.Pipeline
use beaglebone_black_motion.Pipeline.{Pipeline}
use beaglebone_black_motion.Pipeline.Drain.{move_two}
use beaglebone_black_motion.Pipeline.Passed.{PassedAll}
use beaglebone_black_motion.Pipeline.Turns
use beaglebone_black_motion.Pipeline.Turns.{underway, step-Stepped}
use beaglebone_black_motion.System.{Step, detect, film, transcode, stream}
use beaglebone_black_motion.System.Quiet.{IsFair, append-empty}

-- An empty ring has room.
not_full :
    (ring : Ring Frame)
    → Save.IsReady ring
    → contents [] ring ≡ []
    → RingBuffer.is_full ring ≡ false
not_full ring v e =
    ground (arith, is_full_lem [] v.valid, length-contents [] v.valid, ap length e, v.valid.pow)

-- One turn of each task, in the order in which an event and a frame pass them.
pub record Round : Type 0 where
  pub sample : Sample
  pub answers : Answers
  pub off : ℤ
  pub rgb_frame : Frame
  pub rgb_frame' : Frame
  pub net : Network
  pub net' : Network

abbrev pub in_turn : Round → List Step
in_turn t =
    detect t.sample
    ∷ film t.answers t.off
    ∷ transcode t.rgb_frame t.rgb_frame'
    ∷ stream t.net t.net'
    ∷ []

-- Motion is seen and the driver delivers a frame; each turn is fair.
pub record IsMotion (errno : Errno) (t : Round) : Type 0 where
  pub high : t.sample.status ≢ 0
  pub delivered : took errno t.answers ≡ true
  pub film : IsFair (film t.answers t.off)
  pub transcode : IsFair (transcode t.rgb_frame t.rgb_frame')
  pub stream : IsFair (stream t.net t.net')

-- The pipeline once the camera has stored a frame, the transcoder has moved it and the streaming task
-- has sent it: three steps, from a pipeline with nothing on its way.
pub record Passes (errno : Errno) (fuel : ℕ) (i : Camera.Inputs) (t : Round) (p : Pipeline)
    : Type 0 where
  pub filmed : Pipeline
  pub moved : Pipeline
  pub sent : Pipeline
  pub datagrams : List Datagram
  pub film : Pipeline.step errno fuel (Pipeline.film i) p ≡ some (filmed, [])
  pub transcode :
      Pipeline.step errno fuel (Pipeline.transcode t.rgb_frame t.rgb_frame') filmed
      ≡ some (moved, [])
  pub stream :
      Pipeline.step errno fuel (Pipeline.stream t.net t.net') moved ≡ some (sent, datagrams)
  pub passed :
      PassedAll
        (Offline t.net ⊎ Offline t.net')
        (stored_frame i.answers p.camera.ring ∷ [])
        datagrams
  pub state : sent.camera.state ≡ Camera.State.capturing
  pub ready : Turns.IsReady sent
  pub empty : underway sent ≡ []

one_frame :
    (errno : Errno) (a : Answers) (state : Camera.State) (ring : Ring Frame)
    → state ≡ Camera.State.capturing
    → took errno a ≡ true
    → RingBuffer.is_full ring ≡ false
    → (if adds errno a (is_capturing state) ring then stored_frame a ring ∷ [] else [])
      ≡ stored_frame a ring ∷ []
one_frame errno a state ring e h n = ground arith

nothing_sent :
    (B : Type 0) {fs : List Frame} (ds : List Datagram) → fs ≡ [] → PassedAll B fs ds → ds ≡ []
nothing_sent B ds e x = subst (λ (fs : List Frame). PassedAll B fs ds) e x

-- The pipeline after the camera's step, with the frame stored and nothing else on its way.
record Filmed (errno : Errno) (fuel : ℕ) (i : Camera.Inputs) (p : Pipeline) : Type 0 where
  after : Pipeline
  film : Pipeline.step errno fuel (Pipeline.film i) p ≡ some (after, [])
  ready : Turns.IsReady after
  raw : contents [] after.camera.ring ≡ stored_frame i.answers p.camera.ring ∷ []
  images : frames after.images ≡ []
  state : after.camera.state ≡ Camera.State.capturing

film-Filmed :
    (errno : Errno) (fuel : ℕ) (i : Camera.Inputs) (t : Round) (p : Pipeline)
    → frame_size < fuel
    → i.answers ≡ t.answers
    → IsMotion errno t
    → Turns.IsReady p
    → underway p ≡ []
    → next_state i p.camera.state ≡ Camera.State.capturing
    → Filmed errno fuel i p
film-Filmed errno fuel i t p g same h v e c =
    let (no_images, no_raw) = append-empty (frames p.images) (contents [] p.camera.ring) e in
    let a =
      step-Stepped errno fuel (Pipeline.film i) p g
        (subst (λ (z : Answers). IsFair (film z t.off)) (sym same) h.film) v in
    record {
      after = a.after;
      film =
          a.ended
          ∙ ap (λ (z : List Datagram). some (a.after, z))
              (nothing_sent ⊥ a.datagrams a.exact.2 a.passed);
      ready = a.ready;
      raw =
          a.exact.0
          ∙ ap₂ ◌++◌ no_raw (
              one_frame errno i.answers (next_state i p.camera.state) p.camera.ring c
                (subst (λ (z : Answers). took errno z ≡ true) (sym same) h.delivered)
                (not_full p.camera.ring v.raw no_raw));
      images = a.exact.1 ∙ no_images;
      state = a.state ∙ c;
    }

pub pipeline-Passes :
    (errno : Errno) (fuel : ℕ) (i : Camera.Inputs) (t : Round) (p : Pipeline)
    → frame_size < fuel
    → i.answers ≡ t.answers
    → IsMotion errno t
    → Turns.IsReady p
    → underway p ≡ []
    → next_state i p.camera.state ≡ Camera.State.capturing
    → Passes errno fuel i t p
pipeline-Passes errno fuel i t p g same h v e c =
    let f = stored_frame i.answers p.camera.ring in
    let a = film-Filmed errno fuel i t p g same h v e c in
    let b =
      step-Stepped errno fuel (Pipeline.transcode t.rgb_frame t.rgb_frame') a.after g h.transcode
        a.ready in
    let d = step-Stepped errno fuel (Pipeline.stream t.net t.net') b.after g h.stream b.ready in
    let moved : (contents [] b.after.camera.ring, frames b.after.images) ≡ ([], f ∷ []) =
      b.exact.0
      ∙ ap₂ (λ (r q : List Frame). move (move (r, q))) a.raw a.images
      ∙ move_two (f ∷ []) [] (omega arith) in
    let images = ap (λ (z : List Frame × List Frame). z.1) moved in
    record {
      filmed = a.after;
      moved = b.after;
      sent = d.after;
      datagrams = d.datagrams;
      film = a.film;
      transcode =
          b.ended
          ∙ ap (λ (z : List Datagram). some (b.after, z))
              (nothing_sent ⊥ b.datagrams b.exact.1 b.passed);
      stream = d.ended;
      passed =
          subst (λ fs. PassedAll (Offline t.net ⊎ Offline t.net') fs d.datagrams)
            (d.exact.2 ∙ ap (take 2) images) d.passed;
      state = d.state ∙ b.state ∙ a.state;
      ready = d.ready;
      empty =
          ap₂ ◌++◌ (d.exact.1 ∙ ap (λ (q : List Frame). (pop (pop q).1).1) images)
            (d.exact.0 ∙ ap (λ (z : List Frame × List Frame). z.0) moved);
    }
