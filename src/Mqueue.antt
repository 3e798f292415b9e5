-- ===== src/Mqueue.antt =====
-- The POSIX message queue between the detection task and the camera task, as an interface: the
-- queue is not a part of the program. `send` is `mq_send` and `receive` is `mq_receive`, both on a
-- queue that was opened with `O_NONBLOCK`.
pub mod Memory
use beaglebone_black_motion.Base.{ℕ, ◌+◌, ◌<◌, ◌≤◌, ◌≡◌, ◌⊎◌, List, [], ◌∷◌, ◌++◌, length}
use beaglebone_black_motion.Base.Int.{ℤ, pos, negsuc}
use beaglebone_black_motion.Events.{Event}

pub record Mqueue : Type 1 where
  pub Queue : Type 0
  pub send : Queue → Event → ℤ × Queue
  pub receive : Queue → ℤ × Event × Queue

-- What POSIX says of a queue of `capacity` messages of one priority: it keeps them in order, `send`
-- fails with -1 and changes nothing when it is full, and so does `receive` when it is empty.
pub record IsMqueue (m : Mqueue) (capacity : ℕ) : Type 0 where
  pub messages : m.Queue → List Event
  pub send_room :
      (q : m.Queue) (e : Event)
      → length (messages q) < capacity
      → ((m.send q e).0 ≡ pos 0) × (messages (m.send q e).1 ≡ messages q ++ (e ∷ []))
  pub send_full :
      (q : m.Queue) (e : Event)
      → capacity ≤ length (messages q)
      → ((m.send q e).0 ≡ negsuc 0) × (messages (m.send q e).1 ≡ messages q)
  pub receive_some :
      (q : m.Queue) (e : Event) (es : List Event)
      → messages q ≡ e ∷ es
      → (n : ℕ) × ((m.receive q).0 ≡ pos n)
        × ((m.receive q).1 ≡ e)
        × (messages (m.receive q).2 ≡ es)
  pub receive_none :
      (q : m.Queue)
      → messages q ≡ []
      → ((m.receive q).0 ≡ negsuc 0) × (messages (m.receive q).2 ≡ [])
