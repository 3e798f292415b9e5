-- ===== src/Nvm/Drain.antt =====
-- The streaming task takes the frames off the image queue one by one, in order, whatever becomes of
-- their transmission.
use beaglebone_black_motion.Base.{
  ℕ, ◌<◌, ◌≡◌, ap, ◌∙◌, subst, refl, Option, some, List, [], ◌∷◌, ◌++◌, take, arith, Bool-cases,
  inl, inr, ◌⊎◌, false,
}
use beaglebone_black_motion.Base.Int.{ℤ, pos, negsuc}
use beaglebone_black_motion.Types.{SysResult}
use beaglebone_black_motion.Config.{Frame, frame_size}
use beaglebone_black_motion.RingBuffer
use beaglebone_black_motion.RingBuffer.Refine.{read_refines}
use beaglebone_black_motion.Framebuffer.Read.{pop}
use beaglebone_black_motion.Image.Buffer.{call, endread, imagebuffer_startread, imagebuffer_endread}
use beaglebone_black_motion.Image.Buffer.Refine.{IsReady, frames, call_refines, frames_empty}
use beaglebone_black_motion.Image.Send.{Datagram, is_no_socket, open_socket, image_save}
use beaglebone_black_motion.Image.Send.Complete.{IsSendto, Refused, image_save-Sent, delivered}
use beaglebone_black_motion.Nvm.{Nvm, Network, save_round, turn}

-- The operating system makes no socket.
abbrev pub Offline : Network → Type 0
Offline net = (e : ℕ) × (net.socket ≡ negsuc e)

no_socket_made :
    (sockfd socket : ℤ) → (open_socket sockfd socket).1 ≡ false → (e : ℕ) × (socket ≡ negsuc e)
no_socket_made sockfd (negsuc e) h = (e, refl)
no_socket_made sockfd (pos n) h = elim (Bool-cases (is_no_socket sockfd)) [
  | inl e ↦ absurd (ground arith)
  | inr e ↦ absurd (ground arith)
]

-- What a round passes on to the network: nothing without a frame, else the whole of the oldest, or a
-- beginning of it where the last call of `sendto` failed or `B` holds.
abbrev pub Passed : (B : Type 0) → List Frame → List Datagram → Type 0
Passed B [] ds = ds ≡ []
Passed B (f ∷ q) ds =
    (done : ℕ) × (delivered ds ≡ take done f) × ((done ≡ frame_size) ⊎ (Refused ds ⊎ B))

pub Passed-map :
    {B C : Type 0} → (B → C) → (q : List Frame) (ds : List Datagram) → Passed B q ds → Passed C q ds
Passed-map f [] ds h = h
Passed-map f (x ∷ q) ds (done, in_order, inl all) = (done, in_order, inl all)
Passed-map f (x ∷ q) ds (done, in_order, inr (inl refused)) = (done, in_order, inr (inl refused))
Passed-map f (x ∷ q) ds (done, in_order, inr (inr b)) = (done, in_order, inr (inr (f b)))

-- A round that is defined, and takes the oldest frame off the queue.
pub record Drained (net : Network) (n : Nvm) (out : Option (Nvm × List Datagram)) : Type 0 where
  pub after : Nvm
  pub datagrams : List Datagram
  pub ended : out ≡ some (after, datagrams)
  pub ready : IsReady after.images
  pub queue : frames after.images ≡ (pop (frames n.images)).1
  pub passed : Passed (Offline net) (frames n.images) datagrams
  pub flag : after.exit_task ≡ n.exit_task

save-cases :
    (fuel : ℕ) (net : Network) (sockfd : ℤ) (frame : Frame)
    → IsSendto net.sendto
    → frame_size < fuel
    → (r : SysResult) × (ds : List Datagram) × (done : ℕ) × ((image_save fuel net.sendto net.socket
          sockfd frame frame_size).1
        ≡ some (r, ds))
      × (delivered ds ≡ take done frame)
      × ((done ≡ frame_size) ⊎ (Refused ds ⊎ Offline net))
unfolding image_save
save-cases fuel net sockfd frame sane h = elim (Bool-cases (open_socket sockfd net.socket).1) [
  | inl e ↦
      let s =
        image_save-Sent net.sendto net.socket sockfd fuel frame frame_size sane (omega arith)
          (omega arith) h e in
      (
        s.result,
        s.datagrams,
        s.done,
        s.ended,
        s.in_order,
        elim s.stopped [ inl all ↦ inl all | inr refused ↦ inr (inl refused) ],
      )
  | inr e ↦
      (SysResult.sys_failure, [], 0, rw e, refl, inr (inr (no_socket_made sockfd net.socket e)))
]

save_round-Drained :
    (fuel : ℕ) (net : Network) (n : Nvm)
    → IsSendto net.sendto
    → frame_size < fuel
    → IsReady n.images
    → Drained net n (save_round fuel net n)
unfolding save_round imagebuffer_startread imagebuffer_endread call
save_round-Drained fuel net n sane h v = elim (Bool-cases (RingBuffer.is_empty n.images.ring)) [
  | inl e ↦ record {
    after = n;
    datagrams = [];
    ended = rw e;
    ready = v;
    queue = rw (frames_empty n.images v e);
    passed = rw (frames_empty n.images v e);
    flag = refl;
  }
  | inr e ↦
      let (x, r, q) = read_refines [] v e in
      let (result, ds, done, ended, in_order, stopped) = save-cases fuel net n.sockfd x sane h in
      record {
        after = record n {
          images = (imagebuffer_endread n.images).1;
          sockfd = (image_save fuel net.sendto net.socket n.sockfd x frame_size).0;
        };
        datagrams = ds;
        ended = rw (e, r) (rw (ended, imagebuffer_endread, e));
        ready = (call_refines endread n.images v).0;
        queue = rw (imagebuffer_endread, e) (rw q);
        passed = rw q (done, in_order, stopped);
        flag = refl;
      }
]

-- What a turn passes on, in its two rounds.
abbrev pub PassedTwo : (net net' : Network) → List Frame → List Datagram → Type 0
PassedTwo net net' q ds =
    (first : List Datagram) × (second : List Datagram) × (ds ≡ first ++ second)
    × Passed (Offline net) q first
    × Passed (Offline net') (pop q).1 second

-- A turn that is defined, and takes the two oldest frames off the queue, or those that there are.
pub record DrainedTwo (net net' : Network) (n : Nvm) (out : Option (Nvm × List Datagram))
    : Type 0 where
  pub after : Nvm
  pub datagrams : List Datagram
  pub ended : out ≡ some (after, datagrams)
  pub ready : IsReady after.images
  pub queue : frames after.images ≡ (pop (pop (frames n.images)).1).1
  pub passed : PassedTwo net net' (frames n.images) datagrams
  pub flag : after.exit_task ≡ n.exit_task

-- On a ready image buffer, with a network whose `sendto` fails or takes between one byte and all, and
-- fuel above the size of a frame, a turn of the streaming task ends. It takes the two oldest frames
-- off the queue, or those that there are, also where their transmission failed, and passes them on,
-- the older one first: the whole frame, or a beginning of it where the last call of `sendto` for it
-- failed or no socket could be made. The buffer stays ready and `exit_task` as it was.
pub turn-DrainedTwo :
    (fuel : ℕ) (net net' : Network) (n : Nvm)
    → IsSendto net.sendto
    → IsSendto net'.sendto
    → frame_size < fuel
    → IsReady n.images
    → DrainedTwo net net' n (turn fuel net net' n)
unfolding turn
turn-DrainedTwo fuel net net' n sane sane' h v =
    let first = save_round-Drained fuel net n sane h v in
    let second = save_round-Drained fuel net' first.after sane' h first.ready in
    record {
      after = second.after;
      datagrams = first.datagrams ++ second.datagrams;
      ended = rw (turn, first.ended) (rw second.ended);
      ready = second.ready;
      queue = second.queue ∙ ap (λ (q : List Frame). (pop q).1) first.queue;
      passed = (
        first.datagrams,
        second.datagrams,
        refl,
        first.passed,
        subst (λ (q : List Frame). Passed (Offline net') q second.datagrams) first.queue
            second.passed,
      );
      flag = second.flag ∙ first.flag;
    }
