-- ===== src/RingBuffer/Spsc.antt =====
-- One task fills a ring while another empties it: the shared ring of middleware/image/image.c and
-- of middleware/frameBuffer/framebuffer.c. The calls of the two tasks are cut into the accesses
-- that another task can come between; the BeagleBone build has one core, so each access is one step.
pub mod Invariant
use beaglebone_black_motion.Base.{ℕ, ◌≡◌, false, some, List, [], ◌∷◌, ◌++◌}
use beaglebone_black_motion.RingBuffer.{
  Ring, init, inc_writeptr, store, inc_readptr, read_zc, is_empty, is_full,
}

-- Where the task that fills the ring stands: before the test `isFull`, after it, and between the
-- assignment to the cell and the increment of the write pointer.
pub data Producer (A : Type 0) : Type 0 where
  waiting : Producer A
  ready : Producer A
  stored : A → Producer A

-- Where the task that empties the ring stands: it has no frame, or it works on the frame that the
-- pointer from `ringbuffer_read_zc` points to.
pub data Consumer (A : Type 0) : Type 0 where
  idle : Consumer A
  holding : A → Consumer A

-- `sent` and `got` are the frames published and released so far, oldest first.
pub record System (A : Type 0) : Type 0 where
  pub ring : Ring A
  pub producer : Producer A
  pub consumer : Consumer A
  pub sent : List A
  pub got : List A

module _ {A : Type 0} where
  -- `imagebuffer_write` is `check`, `put`, `publish`; `imagebuffer_startread` is `hold` and
  -- `imagebuffer_endread` is `release`. A test that fails leaves everything as it was.
  pub data Step (s : System A) : System A → Type 0 where
    check : s.producer ≡ waiting → is_full s.ring ≡ false → Step s (record s { producer = ready })
    put :
        (x : A)
        → s.producer ≡ ready
        → Step s (record s { ring = store s.ring x; producer = stored x })
    publish :
        (x : A)
        → s.producer ≡ stored x
        → Step s
            (record s { ring = inc_writeptr s.ring; producer = waiting; sent = s.sent ++ (x ∷ []) })
    hold :
        (x : A)
        → s.consumer ≡ idle
        → is_empty s.ring ≡ false
        → read_zc s.ring ≡ some x
        → Step s (record s { consumer = holding x })
    release :
        (x : A)
        → s.consumer ≡ holding x
        → is_empty s.ring ≡ false
        → Step s (record s { ring = inc_readptr s.ring; consumer = idle; got = s.got ++ (x ∷ []) })

  pub data Reach (s : System A) : System A → Type 0 where
    here : Reach s s
    next : {t u : System A} → Reach s t → Step t u → Reach s u

  -- Both tasks before their first call, on the ring that `ringbuffer_init` makes.
  unfoldable pub start : List A → ℕ → System A
  start storage size = record {
    ring = init storage size;
    producer = waiting;
    consumer = idle;
    sent = [];
    got = [];
  }
