-- ===== src/Framebuffer/Teardown.antt =====
-- middleware/frameBuffer/framebuffer.c: `framebuffer_deinit`.
use beaglebone_black_motion.Base.{
  ℕ, zero, suc, ◌+◌, ◌≡◌, refl, sym, ap, ◌∙◌, Option, none, some, List, [], ◌∷◌, ◌++◌, append_assoc,
  map, length, length-append, get_elem?, get_elem?-append, arith,
}
use beaglebone_black_motion.Base.Int.{ℤ}
use beaglebone_black_motion.Types.{SysResult, sys_success}
use beaglebone_black_motion.Framebuffer.{num_frame_bufs}
use beaglebone_black_motion.Framebuffer.Setup.{Buffer}

-- A call that gives something back to the operating system.
pub data ReleaseCall : Type 0 where
  closes : ℤ → ReleaseCall
  unmaps : Buffer → ReleaseCall

-- The loop over `buffers`, by the rounds that are left. `none` is an access outside of the array.
pub unmap_loop : (rounds i : ℕ) → List Buffer → Option (List ReleaseCall)
unmap_loop zero i buffers = some []
unmap_loop (suc n) i buffers = elim (get_elem? buffers i) [
  | none ↦ none
  | some b ↦ elim (unmap_loop n (i + 1) buffers) [
    | none ↦ none
    | some calls ↦ some (unmaps b ∷ calls)
  ]
]

-- `framebuffer_deinit`, on `framebuffer_fd` and `buffers`.
pub framebuffer_deinit : ℤ → List Buffer → Option (SysResult × List ReleaseCall)
framebuffer_deinit framebuffer_fd buffers = elim (unmap_loop num_frame_bufs 0 buffers) [
  | none ↦ none
  | some calls ↦ some (sys_success, closes framebuffer_fd ∷ calls)
]

unmap_loop_lem :
    (n i : ℕ) (before buffers : List Buffer)
    → i ≡ length before
    → length buffers ≡ n
    → unmap_loop n i (before ++ buffers) ≡ some (map unmaps buffers)
unfolding unmap_loop
unmap_loop_lem zero i before [] e h = refl
unmap_loop_lem zero i before (b ∷ bs) e h = absurd (omega arith)
unmap_loop_lem (suc n) i before [] e h = absurd (omega arith)
unmap_loop_lem (suc n) i before (b ∷ bs) e h =
    let here : get_elem? (before ++ b ∷ bs) i ≡ some b =
      ap (get_elem? (before ++ b ∷ bs)) (at_end i before e) ∙ get_elem?-append before (b ∷ bs) 0 in
    let rest : unmap_loop n (i + 1) (before ++ b ∷ bs) ≡ some (map unmaps bs) =
      ap (unmap_loop n (i + 1)) (sym (append_assoc before (b ∷ []) bs))
      ∙ unmap_loop_lem n (i + 1) (before ++ b ∷ []) bs
          (omega (arith, length-append before (b ∷ []))) (omega arith) in
    rw (unmap_loop, here) (rw rest refl)
  where
    at_end : (j : ℕ) (xs : List Buffer) → j ≡ length xs → j ≡ length xs + 0
    at_end j xs q = omega arith

-- All 32 entries of the array are unmapped after the device is closed, also those that were never
-- mapped.
pub framebuffer_deinit_lem :
    (fd : ℤ) (buffers : List Buffer)
    → length buffers ≡ num_frame_bufs
    → framebuffer_deinit fd buffers ≡ some (sys_success, closes fd ∷ map unmaps buffers)
unfolding framebuffer_deinit
framebuffer_deinit_lem fd buffers h =
    rw (framebuffer_deinit, unmap_loop_lem num_frame_bufs 0 [] buffers refl h) refl
