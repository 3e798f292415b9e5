-- ===== src/Mqueue/Memory.antt =====
-- A message queue in memory, which shows that the assumptions on the queue can be met.
use beaglebone_black_motion.Base.{
  ℕ, ◌<◌, ◌≤◌, ◌≡◌, refl, List, [], ◌∷◌, ◌++◌, length, ltb, if◌then◌else◌, arith,
}
use beaglebone_black_motion.Base.Int.{ℤ, pos, negsuc}
use beaglebone_black_motion.Events.{Event, event_none}
use beaglebone_black_motion.Mqueue.{Mqueue, IsMqueue}

abbrev pub take_first : List Event → ℤ × Event × List Event
take_first [] = (negsuc 0, event_none, [])
take_first (e ∷ es) = (pos 4, e, es)

abbrev pub memory_queue : ℕ → Mqueue
memory_queue capacity = record {
  Queue = List Event;
  send = λ q e. if ltb (length q) capacity then (pos 0, q ++ (e ∷ [])) else (negsuc 0, q);
  receive = take_first;
}

pub receive_first :
    (q : List Event) (e : Event) (es : List Event)
    → q ≡ e ∷ es
    → (n : ℕ) × ((take_first q).0 ≡ pos n) × ((take_first q).1 ≡ e) × ((take_first q).2 ≡ es)
receive_first [] e es h = absurd (cc)
receive_first (x ∷ xs) e es h = (4, refl, cc, cc)

pub receive_empty :
    (q : List Event) → q ≡ [] → ((take_first q).0 ≡ negsuc 0) × ((take_first q).2 ≡ [])
receive_empty [] h = (refl, refl)
receive_empty (x ∷ xs) h = absurd (cc)

pub send_ok :
    (capacity : ℕ) (q : List Event) (e : Event)
    → length q < capacity
    → (((memory_queue capacity).send q e).0 ≡ pos 0)
      × (((memory_queue capacity).send q e).1 ≡ q ++ (e ∷ []))
send_ok capacity q e h = ground arith

pub send_refused :
    (capacity : ℕ) (q : List Event) (e : Event)
    → capacity ≤ length q
    → (((memory_queue capacity).send q e).0 ≡ negsuc 0) × (((memory_queue capacity).send q e).1 ≡ q)
send_refused capacity q e h = ground arith

abbrev pub memory_queue-IsMqueue : (capacity : ℕ) → IsMqueue (memory_queue capacity) capacity
memory_queue-IsMqueue capacity = record {
  messages = λ q. q;
  send_room = λ q e h. send_ok capacity q e h;
  send_full = λ q e h. send_refused capacity q e h;
  receive_some = λ q e es h. receive_first q e es h;
  receive_none = λ q h. receive_empty q h;
}
