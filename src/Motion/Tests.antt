-- ===== src/Motion/Tests.antt =====
-- A run of the two tasks, and the witness of its property.
use beaglebone_black_motion.Base.{ℕ, ◌≡◌, ◌≤◌, refl, [], ◌∷◌, List, length}
use beaglebone_black_motion.Mqueue.Memory.{memory_queue, memory_queue-IsMqueue}
use beaglebone_black_motion.Detection.{Sample}
use beaglebone_black_motion.Camera.Follow.{handle_events, Follows}
use beaglebone_black_motion.Motion.{rounds, begin}
use beaglebone_black_motion.Motion.Delivery.{rounds_deliver}

abbrev seen_at : ℕ → ℕ → Sample
seen_at status sec = record { status = status; now = record { tv_sec = sec; tv_nsec = 0 } }

-- Motion at second 1, none from second 2 on; the end is reported at second 8.
abbrev turns : List (Sample × Sample)
turns = (seen_at 1 1, seen_at 0 2) ∷ (seen_at 0 4, seen_at 0 7) ∷ (seen_at 0 8, seen_at 0 9) ∷ []

rounds_deliver_example :
    let s = rounds (memory_queue 10) turns (begin (memory_queue 10) []) in
    (s.lost ≡ 0)
    × (length s.queue ≤ 1)
    × Follows s.detection.state s.detection.flag (handle_events s.queue s.camera)
rounds_deliver_example = rounds_deliver (memory_queue 10) (memory_queue-IsMqueue 10) turns [] refl
