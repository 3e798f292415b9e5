-- ===== src/Image/FileWrite.antt =====
-- middleware/image/image.c: `file_write_blocking`, which the build without `STREAM_TO_SERVER` uses.
-- `size_t` and `ssize_t` have 32 bits on the target; both variables are kept as bit patterns.
use beaglebone_black_motion.Base.{
  ℕ, zero, suc, ◌+◌, ◌-◌, ◌*◌, ◌^◌, ◌≤◌, ◌<◌, ◌≡◌, ap, ap₂, ◌∙◌, true, false, Option, none, some,
  List, [], ◌∷◌, ltb, arith,
}
use beaglebone_black_motion.Base.Int.{ℤ, pos, negsuc}
use beaglebone_black_motion.Types.{u32, add32, sub32}

-- The bit pattern of an `ssize_t`.
abbrev pub to_u32 : ℤ → ℕ
to_u32 (pos n) = u32 n
to_u32 (negsuc n) = 2 ^ 32 - 1 - u32 n

-- The operating system's `write`: what the `k`th call returns for that many bytes.
abbrev pub Write : Type 0
Write = ℕ → ℕ → ℤ

-- What a finished loop returns, with one more call in front. A call is its offset into the buffer
-- and its length.
abbrev pub after : ℕ × ℕ → Option (ℕ × List (ℕ × ℕ)) → Option (ℕ × List (ℕ × ℕ))
after c none = none
after c (some (r, cs)) = some (r, c ∷ cs)

-- `file_write_blocking(fd, buf, size)`, entered with `k` calls made and the values of `wBytes` and
-- `sizeBuf`: the value returned, as a bit pattern, and the calls of `write`. `none` is a loop that
-- has not ended on the fuel.
unfoldable pub file_write_blocking :
    (fuel : ℕ) → Write → (k size w_bytes size_buf : ℕ) → Option (ℕ × List (ℕ × ℕ))
file_write_blocking zero write k size w_bytes size_buf = none
file_write_blocking (suc fuel) write k size w_bytes size_buf =
    let w' = add32 w_bytes (to_u32 (write k size_buf)) in
    elim (ltb w' size) [
      | true ↦
          after (w_bytes, size_buf)
            (file_write_blocking fuel write (suc k) size w' (sub32 size_buf w'))
      | false ↦ some (w', (w_bytes, size_buf) ∷ [])
    ]

module _ (write : Write) (fuel k size w size_buf n : ℕ) (e : write k size_buf ≡ pos n)
    (fits : w + n < 2 ^ 32) where
  step_more :
      w + n < size
      → file_write_blocking (suc fuel) write k size w size_buf
        ≡ after
            (w, size_buf)
            (file_write_blocking fuel write (suc k) size (w + n) (sub32 size_buf (w + n)))
  unfolding file_write_blocking
  step_more h = ground arith

  step_last :
      size ≤ w + n
      → file_write_blocking (suc fuel) write k size w size_buf ≡ some (w + n, (w, size_buf) ∷ [])
  unfolding file_write_blocking
  step_last h = ground arith

-- After two short writes, of `a` and then of `b` bytes with `size < 2 * a + b`, the third call asks
-- for more bytes than the whole buffer has: the first count is subtracted a second time, and the
-- difference wraps round below 0.
pub file_write_overrun :
    (write : Write) (fuel size a b : ℕ)
    → size < 2 ^ 31
    → a + b < size
    → size < 2 * a + b
    → write 0 size ≡ pos a
    → write 1 (size - a) ≡ pos b
    → write 2 (2 ^ 32 + size - (2 * a + b)) ≡ pos (size - (a + b))
    → let asked = 2 ^ 32 + size - (2 * a + b) in
      (size < asked)
      × (file_write_blocking (suc (suc (suc fuel))) write 0 size 0 size
          ≡ some (size, (0, size) ∷ (a, size - a) ∷ (a + b, asked) ∷ []))
file_write_overrun write fuel size a b h q o e e' e'' = (
  omega arith,
  step_more write (suc (suc fuel)) 0 size 0 size a e (omega arith) (omega arith)
      ∙ ap (after (0, size)) (
          ap₂ (file_write_blocking (suc (suc fuel)) write 1 size) first left
          ∙ step_more write (suc fuel) 1 size a (size - a) b e' (omega arith) q
          ∙ ap (after (a, size - a)) (
              ap (file_write_blocking (suc fuel) write 2 size (a + b)) wrapped
              ∙ step_last write fuel 2 size (a + b) (2 ^ 32 + size - (2 * a + b)) (size - (a + b))
                  e'' (omega arith) (omega arith)))
      ∙ ap (λ r. some (r, (0, size) ∷ (a, size - a) ∷ (a + b, 2 ^ 32 + size - (2 * a + b)) ∷ []))
          whole,
)
  where
    first : 0 + a ≡ a
    first = omega arith

    left : sub32 size (0 + a) ≡ size - a
    left = omega arith

    wrapped : sub32 (size - a) (a + b) ≡ 2 ^ 32 + size - (2 * a + b)
    wrapped = omega arith

    whole : a + b + (size - (a + b)) ≡ size
    whole = omega arith
