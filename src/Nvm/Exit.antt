-- ===== src/Nvm/Exit.antt =====
-- The streaming task ends once it is asked to.
use beaglebone_black_motion.Base.{
  ℕ, suc, ◌*◌, ◌<◌, ◌≡◌, refl, ap, ◌∙◌, Bool, true, false, ◌||◌, Option, some, List, [], ◌∷◌, ◌++◌,
  drop, drop-drop, if◌then◌else◌, arith, Bool-cases, inl, inr,
}
use beaglebone_black_motion.Config.{frame_size}
use beaglebone_black_motion.Framebuffer.Read.{pop_two}
use beaglebone_black_motion.Image.Buffer.Refine
use beaglebone_black_motion.Image.Buffer.Refine.{frames}
use beaglebone_black_motion.Image.Send.{Datagram}
use beaglebone_black_motion.Image.Send.Complete.{IsSendto}
use beaglebone_black_motion.Nvm.{Nvm, Round, TaskRun, turn, nvm_exit, image_close, nvm_task, after}
use beaglebone_black_motion.Nvm.Drain.{turn-DrainedTwo}

abbrev pub some_exits : List Round → Bool
some_exits [] = false
some_exits (r ∷ rs) = r.exits || some_exits rs

-- The rounds up to the one in which the exit is asked for.
abbrev pub rounds : List Round → ℕ
rounds [] = 0
rounds (r ∷ rs) = if r.exits then 1 else suc (rounds rs)

abbrev pub AllSendto : List Round → Type 0
AllSendto [] = Unit
AllSendto (r ∷ rs) = IsSendto r.net.sendto × IsSendto r.net'.sendto × AllSendto rs

-- The task has ended after these rounds, and closed its socket and the image buffer.
pub record Exits (rs : List Round) (n : Nvm) (out : Option TaskRun) : Type 0 where
  pub last : Nvm
  pub datagrams : List Datagram
  pub ended : out ≡ some (last, datagrams, some last.sockfd)
  pub closed : last.images.initialized ≡ false
  pub queue : frames last.images ≡ drop (2 * rounds rs) (frames n.images)

exit_step :
    (fuel : ℕ) (r : Round) (rs : List Round) (n : Nvm) {n' : Nvm} {ds : List Datagram}
    → turn fuel r.net r.net' n ≡ some (n', ds)
    → r.exits ≡ true
    → nvm_task fuel (r ∷ rs) n ≡ some ((image_close (nvm_exit n')).2, ds, some n'.sockfd)
unfolding nvm_task nvm_exit image_close
exit_step fuel r rs n e x = rw (nvm_task, e) (rw x refl)

go_on :
    (fuel : ℕ) (r : Round) (rs : List Round) (n : Nvm) {n' : Nvm} {ds : List Datagram}
    → turn fuel r.net r.net' n ≡ some (n', ds)
    → r.exits ≡ false
    → n'.exit_task ≡ false
    → nvm_task fuel (r ∷ rs) n ≡ after ds (nvm_task fuel rs n')
unfolding nvm_task
go_on fuel r rs n e x f = rw (nvm_task, e) (rw (x, f) refl)

-- From a ready image buffer with the flag down, with networks whose `sendto` fails or takes between
-- one byte and all, and fuel above the size of a frame: if the exit is asked for in one of the
-- rounds, the task ends in the first such round, after it has taken two frames off the queue in each
-- round, or those that there were; its socket and the image buffer are closed then.
pub nvm_task-Exits :
    (fuel : ℕ) (rs : List Round) (n : Nvm)
    → frame_size < fuel
    → AllSendto rs
    → Refine.IsReady n.images
    → n.exit_task ≡ false
    → some_exits rs ≡ true
    → Exits rs n (nvm_task fuel rs n)
unfolding image_close nvm_exit
nvm_task-Exits fuel [] n g h v f x = absurd (cc)
nvm_task-Exits fuel (r ∷ rs) n g (h, h', hs) v f x =
    let d = turn-DrainedTwo fuel r.net r.net' n h h' g v in
    let left = d.queue ∙ pop_two (frames n.images) in
    elim (Bool-cases r.exits) [
      | inl e ↦ record {
        last = (image_close (nvm_exit d.after)).2;
        datagrams = d.datagrams;
        ended = exit_step fuel r rs n d.ended e;
        closed = refl;
        queue = rw e left;
      }
      | inr e ↦
          let rest = nvm_task-Exits fuel rs d.after g hs d.ready (d.flag ∙ f) (ground arith) in
          record {
            last = rest.last;
            datagrams = d.datagrams ++ rest.datagrams;
            ended = go_on fuel r rs n d.ended e (d.flag ∙ f) ∙ ap (after d.datagrams) rest.ended;
            closed = rest.closed;
            queue =
                rest.queue
                ∙ ap (drop (2 * rounds rs)) left
                ∙ drop-drop (2 * rounds rs) 2 (frames n.images)
                ∙ ap (λ k. drop k (frames n.images)) (rw e (omega arith));
          }
    ]
