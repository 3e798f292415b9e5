-- ===== src/Transcoder/Exit.antt =====
-- The transcoder task ends once it is asked to.
use beaglebone_black_motion.Base.{
  ◌≡◌, refl, ap, ◌∙◌, Bool, true, false, ◌||◌, Option, some, List, [], ◌∷◌, if◌then◌else◌, arith,
  Bool-cases, inl, inr,
}
use beaglebone_black_motion.Config.{IsFrame}
use beaglebone_black_motion.Transcoder.{Transcoder, Round, turn, transcoder_exit, transcoder_task}
use beaglebone_black_motion.Transcoder.Move.{IsReady, Queues, queues, move, turn-Moves}

abbrev pub some_exits : List Round → Bool
some_exits [] = false
some_exits (r ∷ rs) = r.exits || some_exits rs

abbrev pub AllFrames : List Round → Type 0
AllFrames [] = Unit
AllFrames (r ∷ rs) = IsFrame r.rgb_frame × IsFrame r.rgb_frame' × AllFrames rs

-- Two frames are moved in each round up to the one in which the exit is asked for.
pub move_rounds : List Round → Queues → Queues
move_rounds [] q = q
move_rounds (r ∷ rs) q =
    let rest = move_rounds rs (move (move q)) in if r.exits then move (move q) else rest

-- The task has ended, with both rings ready.
pub record Exits (rs : List Round) (t : Transcoder) (out : Option (Transcoder × Bool))
    : Type 0 where
  pub last : Transcoder
  pub ended : out ≡ some (last, true)
  pub ready : IsReady last
  pub moved : queues last ≡ move_rounds rs (queues t)

exit_step :
    (r : Round) (rs : List Round) (t : Transcoder) {t' : Transcoder}
    → t.exit_task ≡ false
    → turn r.rgb_frame r.rgb_frame' t ≡ some t'
    → r.exits ≡ true
    → transcoder_task (r ∷ rs) t ≡ transcoder_task rs (transcoder_exit t')
unfolding transcoder_task
exit_step r rs t f e x = rw (transcoder_task, e) (rw (f, x) refl)

go_on :
    (r : Round) (rs : List Round) (t : Transcoder) {t' : Transcoder}
    → t.exit_task ≡ false
    → turn r.rgb_frame r.rgb_frame' t ≡ some t'
    → r.exits ≡ false
    → transcoder_task (r ∷ rs) t ≡ transcoder_task rs t'
unfolding transcoder_task
go_on r rs t f e x = rw (transcoder_task, e) (rw (f, x) refl)

stopped :
    (rs : List Round) (t : Transcoder)
    → transcoder_task rs (transcoder_exit t) ≡ some (transcoder_exit t, true)
unfolding transcoder_task transcoder_exit
stopped [] t = refl
stopped (r ∷ rs) t = refl

-- From ready rings with the flag down, whatever the local frames hold: if the exit is asked for in
-- one of the rounds, the task ends before the next one; it has moved two raw frames, or those that
-- there were, in each round up to that, and leaves both rings ready.
pub transcoder_task-Exits :
    (rs : List Round) (t : Transcoder)
    → AllFrames rs
    → IsReady t
    → t.exit_task ≡ false
    → some_exits rs ≡ true
    → Exits rs t (transcoder_task rs t)
unfolding transcoder_exit move_rounds
transcoder_task-Exits [] t h v f x = absurd (cc)
transcoder_task-Exits (r ∷ rs) t (h, h', hs) v f x =
    let m = turn-Moves r.rgb_frame r.rgb_frame' t h h' v in
    elim (Bool-cases r.exits) [
      | inl e ↦ record {
        last = transcoder_exit m.after;
        ended = exit_step r rs t f m.ended e ∙ stopped rs m.after;
        ready = record { raw = m.ready.raw; images = m.ready.images };
        moved = rw e m.moved;
      }
      | inr e ↦
          let rest = transcoder_task-Exits rs m.after hs m.ready (m.flag ∙ f) (ground arith) in
          record {
            last = rest.last;
            ended = go_on r rs t f m.ended e ∙ rest.ended;
            ready = rest.ready;
            moved = rw e (rest.moved ∙ ap (move_rounds rs) m.moved);
          }
    ]
