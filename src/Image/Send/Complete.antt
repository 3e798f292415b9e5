-- ===== src/Image/Send/Complete.antt =====
-- The loop of `image_save` sends the frame in order, piece by piece, and ends.
use beaglebone_black_motion.Base.{
  ℕ, zero, suc, ◌+◌, ◌-◌, ◌^◌, ◌≤◌, ◌<◌, ◌≡◌, ◌⊎◌, inl, inr, refl, sym, ap, ap₂, ◌∙◌, true, false,
  Option, some, List, [], ◌∷◌, ◌++◌, length, take, drop, take-take, drop-drop, take-add, append-nil,
  length-take, All, ltb, min, arith, Bool-cases,
}
use beaglebone_black_motion.Base.Int.{ℤ, pos, negsuc}
use beaglebone_black_motion.Types.{
  SysResult, sys_success, sys_failure, sys_ignore, sys_count, sub32,
}
use beaglebone_black_motion.Config.{Frame}
use beaglebone_black_motion.Image.Send.{
  Sendto, Datagram, datagram, after, max_piece, send_loop, open_socket, image_save,
}

-- What POSIX says of `sendto`: it fails, or it takes at least one byte and at most what it is given.
abbrev pub IsSendto : Sendto → Type 0
IsSendto sendto =
    (k n : ℕ)
    → 0 < n
    → ((e : ℕ) × (sendto k n ≡ negsuc e)) ⊎ ((m : ℕ) × (sendto k n ≡ pos m) × (0 < m) × (m ≤ n))

-- The bytes that a call passes on.
abbrev pub accepted : Datagram → Frame
accepted d = elim (d.sent) [ pos n ↦ take n d.payload | negsuc e ↦ [] ]

abbrev pub delivered : List Datagram → Frame
delivered [] = []
delivered (d ∷ ds) = accepted d ++ delivered ds

-- The last of the calls failed.
abbrev pub Refused : List Datagram → Type 0
Refused [] = ⊥
Refused (d ∷ []) = (e : ℕ) × (d.sent ≡ negsuc e)
Refused (d ∷ d' ∷ ds) = Refused (d' ∷ ds)

Refused-after : (d : Datagram) (ds : List Datagram) → Refused ds → Refused (d ∷ ds)
Refused-after d [] h = absurd h
Refused-after d (d' ∷ ds) h = h

-- How a finished loop stands to the bytes that it had to send.
abbrev pub Outcome : SysResult → (done todo : ℕ) → Type 0
Outcome sys_success done todo = done ≡ todo
Outcome sys_failure done todo = done < todo
Outcome _ done todo = ⊥

-- A finished loop that had `todo` bytes to send from `w_bytes` on.
pub record Sent (buf : Frame) (w_bytes todo : ℕ) (out : Option (SysResult × List Datagram))
    : Type 0 where
  pub result : SysResult
  pub datagrams : List Datagram
  pub done : ℕ
  pub ended : out ≡ some (result, datagrams)
  pub outcome : Outcome result done todo
  pub in_order : delivered datagrams ≡ take done (drop w_bytes buf)
  pub small : All (λ (d : Datagram). length d.payload ≤ max_piece) datagrams
  pub few : length datagrams ≤ todo
  pub stopped : (done ≡ todo) ⊎ Refused datagrams

module _ (sendto : Sendto) (k : ℕ) (buf : Frame) (w size_buf : ℕ) where
  -- The size of the piece that the `k`th call hands over.
  abbrev piece : ℕ
  piece = min size_buf max_piece

  length-payload : length (datagram sendto k buf w size_buf).payload ≤ max_piece
  length-payload = omega (arith, length-take piece (drop w buf))

  accepted_none :
      (c : ℕ) → sendto k piece ≡ negsuc c → accepted (datagram sendto k buf w size_buf) ≡ []
  accepted_none c q = rw q

  accepted_some :
      (m : ℕ)
      → sendto k piece ≡ pos m
      → m ≤ piece
      → accepted (datagram sendto k buf w size_buf) ≡ take m (drop w buf)
  accepted_some m q h = rw q (take-take m piece (drop w buf) h)

  module _ (fuel size : ℕ) where
    step_fail :
        (c : ℕ)
        → sendto k piece ≡ negsuc c
        → send_loop (suc fuel) sendto k buf size w size_buf
          ≡ some (sys_failure, datagram sendto k buf w size_buf ∷ [])
    unfolding send_loop
    step_fail c q = ground arith

    step_last :
        (m : ℕ)
        → sendto k piece ≡ pos m
        → ltb (w + m) size ≡ false
        → send_loop (suc fuel) sendto k buf size w size_buf
          ≡ some (sys_success, datagram sendto k buf w size_buf ∷ [])
    unfolding send_loop
    step_last m q h = ground arith

    step_more :
        (m : ℕ)
        → sendto k piece ≡ pos m
        → ltb (w + m) size ≡ true
        → send_loop (suc fuel) sendto k buf size w size_buf
          ≡ after
              (datagram sendto k buf w size_buf)
              (send_loop fuel sendto (suc k) buf size (w + m) (sub32 size (w + m)))
    unfolding send_loop
    step_more m q h = ground arith

Outcome-shift :
    (r : SysResult) (done todo m : ℕ)
    → m < todo
    → Outcome r done (todo - m)
    → Outcome r (m + done) todo
Outcome-shift sys_success done todo m h o = omega arith
Outcome-shift sys_failure done todo m h o = omega arith
Outcome-shift sys_ignore done todo m h o = absurd o
Outcome-shift sys_count done todo m h o = absurd o

-- A call that passes `m` bytes on, in front of a loop that sends the rest.
Sent-after :
    (sendto : Sendto) (k : ℕ) (buf : Frame) (w size_buf m todo : ℕ)
    {out loop : Option (SysResult × List Datagram)}
    → sendto k (min size_buf max_piece) ≡ pos m
    → 0 < m
    → m ≤ min size_buf max_piece
    → m < todo
    → loop ≡ after (datagram sendto k buf w size_buf) out
    → Sent buf (w + m) (todo - m) out
    → Sent buf w todo loop
Sent-after sendto k buf w size_buf m todo q m_pos m_le m_lt e rest = record {
  result = rest.result;
  datagrams = datagram sendto k buf w size_buf ∷ rest.datagrams;
  done = m + rest.done;
  ended = e ∙ ap (after (datagram sendto k buf w size_buf)) rest.ended;
  outcome = Outcome-shift rest.result rest.done todo m m_lt rest.outcome;
  in_order =
      ap₂ ◌++◌ (accepted_some sendto k buf w size_buf m q m_le) rest.in_order
      ∙ ap (λ l. take m (drop w buf) ++ take rest.done l) (sym (drop-drop m w buf))
      ∙ sym (take-add m rest.done (drop w buf));
  small = (length-payload sendto k buf w size_buf, rest.small);
  few = omega (arith, rest.few);
  stopped = elim rest.stopped [
    | inl all ↦ inl (omega (arith, all))
    | inr refused ↦ inr (Refused-after (datagram sendto k buf w size_buf) rest.datagrams refused)
  ];
}

module _ (sendto : Sendto) (sane : IsSendto sendto) (buf : Frame) (size : ℕ)
    (fits : size < 2 ^ 31) where
  send_loop-Sent :
      (fuel k w size_buf todo : ℕ)
      → todo < fuel
      → 0 < todo
      → w + todo ≡ size
      → size_buf ≡ todo
      → Sent buf w todo (send_loop fuel sendto k buf size w size_buf)
  send_loop-Sent zero k w size_buf todo f p e s = absurd (omega arith)
  send_loop-Sent (suc fuel) k w size_buf todo f p e s =
      elim (sane k (min size_buf max_piece) (omega arith)) [
        | inl (c, q) ↦ record {
          result = sys_failure;
          datagrams = datagram sendto k buf w size_buf ∷ [];
          done = 0;
          ended = step_fail sendto k buf w size_buf fuel size c q;
          outcome = p;
          in_order = rw (accepted_none sendto k buf w size_buf c q);
          small = (length-payload sendto k buf w size_buf, tt);
          few = p;
          stopped = inr (c, q);
        }
        | inr (m, q, m_pos, m_le) ↦ elim (Bool-cases (ltb (w + m) size)) [
          | inl more ↦
              Sent-after sendto k buf w size_buf m todo q m_pos m_le (ground arith)
                (step_more sendto k buf w size_buf fuel size m q more)
                (send_loop-Sent fuel (suc k) (w + m) (sub32 size (w + m)) (todo - m) (omega arith)
                  (ground arith) (ground arith) (ground arith))
          | inr last ↦ record {
            result = sys_success;
            datagrams = datagram sendto k buf w size_buf ∷ [];
            done = m;
            ended = step_last sendto k buf w size_buf fuel size m q last;
            outcome = ground arith;
            in_order =
                append-nil (accepted (datagram sendto k buf w size_buf))
                ∙ accepted_some sendto k buf w size_buf m q m_le;
            small = (length-payload sendto k buf w size_buf, tt);
            few = omega arith;
            stopped = inl (ground arith);
          }
        ]
      ]

-- With a socket at hand, a size between 1 and 2 ^ 31 - 1, fuel above it and a `sendto` that fails or
-- takes between one byte and all, `image_save` ends: it makes at most one call for each byte, none with
-- more than 1024 bytes, and what the calls pass on is a beginning of the frame, in order. It returns
-- success if that is the whole frame, and failure if it is less; less is passed on only where the last
-- call of `sendto` failed.
pub image_save-Sent :
    (sendto : Sendto) (socket sockfd : ℤ) (fuel : ℕ) (buf : Frame) (size : ℕ)
    → IsSendto sendto
    → 0 < size
    → size < 2 ^ 31
    → size < fuel
    → (open_socket sockfd socket).1 ≡ true
    → Sent buf 0 size (image_save fuel sendto socket sockfd buf size).1
unfolding image_save
image_save-Sent sendto socket sockfd fuel buf size sane p fits f has_socket =
    rw has_socket
      (send_loop-Sent sendto sane buf size fits fuel 0 0 size size f p (omega arith) refl)
