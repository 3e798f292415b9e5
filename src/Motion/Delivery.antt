-- ===== src/Motion/Delivery.antt =====
-- No event between the two tasks is lost, and the camera is at most one event behind.
use beaglebone_black_motion.Base.{
  ℕ, ◌+◌, ◌*◌, ◌≤◌, ◌≡◌, refl, sym, ap, ◌∙◌, subst, Bool, false, List, [], ◌∷◌, ◌++◌, append-nil,
  append_assoc, length, length-append, if◌then◌else◌, arith, ◌⊎◌, inl, inr,
}
use beaglebone_black_motion.Base.Int.{ℤ, pos, negsuc}
use beaglebone_black_motion.Types.{is_error}
use beaglebone_black_motion.Events.{Event}
use beaglebone_black_motion.Mqueue.{Mqueue, IsMqueue}
use beaglebone_black_motion.Osal.{is_failure}
use beaglebone_black_motion.Osal.Sync.{osal_queue_send, osal_queue_receive}
use beaglebone_black_motion.Detection
use beaglebone_black_motion.Detection.{Detection, Sample, iterate}
use beaglebone_black_motion.Detection.Trace.{lead}
use beaglebone_black_motion.Camera
use beaglebone_black_motion.Camera.{process_event_queue, handle_event}
use beaglebone_black_motion.Camera.Follow.{
  handle_events, handle_events-append, Follows, iterate-Follows,
}
use beaglebone_black_motion.Motion.{
  Motion, send_all, detect, receive, round, rounds, begin, queue_size,
}

lead-Follows :
    (i : Sample) (d : Detection) (s : Camera.State)
    → Follows d.state d.flag s
    → let (d', sent) = iterate i d in
      2 * length sent + lead d'.flag d'.state ≤ 1 + lead d.flag d.state
unfolding iterate
lead-Follows i d s h = ground arith

pub lead-le : (b : Bool) (s : Detection.State) → lead b s ≤ 2
lead-le b s = ground arith

send_ok : (ret : ℤ) → ret ≡ pos 0 → is_failure (osal_queue_send ret) ≡ false
unfolding osal_queue_send is_error
send_ok ret h = ground arith

-- What the camera task makes of the result of `mq_receive`.
pub received_some :
    (ret : ℤ) (n : ℕ) (e : Event) → ret ≡ pos n → process_event_queue (osal_queue_receive ret) e ≡ e
unfolding osal_queue_receive is_error process_event_queue
received_some ret n e h = ground arith

pub received_none :
    (ret : ℤ) (e : Event) (c : Camera.State)
    → ret ≡ negsuc 0
    → handle_event (process_event_queue (osal_queue_receive ret) e) c ≡ c
unfolding osal_queue_receive is_error process_event_queue handle_event
received_none ret e c h = ground arith

List-cases {ℓ} : {A : Type ℓ} (xs : List A) → (xs ≡ []) ⊎ ((x : A) × (ys : List A) × (xs ≡ x ∷ ys))
List-cases [] = inl refl
List-cases (x ∷ xs) = inr (x, xs, refl)

module _ (m : Mqueue) (law : IsMqueue m queue_size) where
  -- What holds of the two tasks, with `k` halves of an event in the queue or on their way.
  pub record Inv (k : ℕ) (s : Motion m) : Type 0 where
    pub follows :
        Follows s.detection.state s.detection.flag (handle_events (law.messages s.queue) s.camera)
    pub room : 2 * length (law.messages s.queue) + lead s.detection.flag s.detection.state ≤ k
    pub kept : s.lost ≡ 0

  -- Events for which there is room reach the queue in order.
  record Sent (es : List Event) (s : Motion m) : Type 0 where
    queue : law.messages (send_all m es s).queue ≡ law.messages s.queue ++ es
    detection : (send_all m es s).detection ≡ s.detection
    camera : (send_all m es s).camera ≡ s.camera
    lost : (send_all m es s).lost ≡ s.lost

  send_all-Sent :
      (es : List Event) (s : Motion m)
      → length (law.messages s.queue) + length es ≤ queue_size
      → Sent es s
  unfolding send_all
  send_all-Sent [] s h = record {
    queue = sym (append-nil (law.messages s.queue));
    detection = refl;
    camera = refl;
    lost = refl;
  }
  send_all-Sent (e ∷ es) s h =
      let (ok, put) = law.send_room s.queue e (omega arith) in
      let s' = record s {
        queue = (m.send s.queue e).1;
        lost = if is_failure (osal_queue_send (m.send s.queue e).0) then s.lost + 1 else s.lost;
      } in
      let rest =
        send_all-Sent es s'
          (omega (arith, ap length put, length-append (law.messages s.queue) (e ∷ []))) in
      record {
        queue =
            rest.queue ∙ ap (λ q. q ++ es) put ∙ append_assoc (law.messages s.queue) (e ∷ []) es;
        detection = rest.detection;
        camera = rest.camera;
        lost =
            rest.lost
            ∙ ap (λ b. if b then s.lost + 1 else s.lost) (send_ok (m.send s.queue e).0 ok);
      }

  pub Inv-of_eq :
      (k : ℕ) (t : Motion m) (d : Detection) (q : List Event) (c : Camera.State)
      → t.detection ≡ d
      → law.messages t.queue ≡ q
      → t.camera ≡ c
      → t.lost ≡ 0
      → Follows d.state d.flag (handle_events q c)
      → 2 * length q + lead d.flag d.state ≤ k
      → Inv k t
  Inv-of_eq k t d q c e e' e'' l f r = record {
    follows =
        subst
          (λ (x : Detection).
            Follows x.state x.flag (handle_events (law.messages t.queue) t.camera))
          (sym e)
          (subst (λ x. Follows d.state d.flag (handle_events x t.camera)) (sym e')
            (subst (λ x. Follows d.state d.flag (handle_events q x)) (sym e'') f));
    room = omega (arith, r, ap length e', ap (λ (x : Detection). lead x.flag x.state) e);
    kept = l;
  }

  pub detect-Inv :
      (k : ℕ) (i : Sample) (s : Motion m) → k ≤ 4 → Inv k s → Inv (k + 1) (detect m i s)
  unfolding detect
  detect-Inv k i s h v =
      let (d, sent) = iterate i s.detection in
      let q = law.messages s.queue in
      let more = lead-Follows i s.detection (handle_events q s.camera) v.follows in
      let t = send_all-Sent sent (record s { detection = d }) (omega (arith, v.room, h, more)) in
      Inv-of_eq (k + 1) (detect m i s) d (q ++ sent) s.camera t.detection t.queue t.camera
        (t.lost ∙ v.kept)
        (subst (Follows d.state d.flag) (sym (handle_events-append q sent s.camera))
          (iterate-Follows i s.detection (handle_events q s.camera) v.follows))
        (omega (arith, length-append q sent, v.room, more))

  pub receive-Inv : (s : Motion m) → Inv 4 s → Inv 2 (receive m s)
  unfolding receive handle_event handle_events
  receive-Inv s v = elim (List-cases (law.messages s.queue)) [
    | inl none ↦
        let (ret, left) = law.receive_none s.queue none in
        Inv-of_eq 2 (receive m s) s.detection [] s.camera refl left
          (received_none (m.receive s.queue).0 (m.receive s.queue).1 s.camera ret) v.kept
          (subst (λ q. Follows s.detection.state s.detection.flag (handle_events q s.camera)) none
            v.follows)
          (omega (arith, lead-le s.detection.flag s.detection.state))
    | inr (e, es, some) ↦
        let (n, ret, event, left) = law.receive_some s.queue e es some in
        Inv-of_eq 2 (receive m s) s.detection es (handle_event e s.camera) refl left
          (ap (λ x. handle_event x s.camera)
            (received_some (m.receive s.queue).0 n (m.receive s.queue).1 ret ∙ event))
          v.kept
          (subst (λ q. Follows s.detection.state s.detection.flag (handle_events q s.camera)) some
            v.follows)
          (omega (arith, ap length some, v.room))
  ]

  rounds-Inv : (is : List (Sample × Sample)) (s : Motion m) → Inv 2 s → Inv 2 (rounds m is s)
  unfolding rounds round
  rounds-Inv [] s v = v
  rounds-Inv ((i, i') ∷ is) s v = rounds-Inv is (round m (i, i') s) (
      receive-Inv (detect m i' (detect m i s))
        (detect-Inv 3 i' (detect m i s) (omega arith) (detect-Inv 2 i s (omega arith) v)))

  -- Whatever the sensor and the clock say: after any number of rounds, from both tasks at their start
  -- and an empty queue, no event has been lost, at most one waits in the queue, and the camera task,
  -- once it has read that one, is in the state that belongs to the detection task.
  pub rounds_deliver :
      (is : List (Sample × Sample)) (q : m.Queue)
      → law.messages q ≡ []
      → let s = rounds m is (begin m q) in
        (s.lost ≡ 0)
        × (length (law.messages s.queue) ≤ 1)
        × Follows s.detection.state s.detection.flag (handle_events (law.messages s.queue) s.camera)
  unfolding handle_events
  rounds_deliver is q e =
      let v = rounds-Inv is (begin m q) (
        Inv-of_eq 2 (begin m q) Detection.initial [] Camera.State.idle refl e refl refl refl
          (omega arith)) in
      (v.kept, omega (arith, v.room), v.follows)
