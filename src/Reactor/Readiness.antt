-- ===== src/Reactor/Readiness.antt =====
-- fumio-reactor/src/reactor/task.rs: the readiness words of a `ReactorTask` and the wakers of its
-- reading and its writing side.
pub mod Laws
pub mod Threads
use Prim.Native.Nat.{bit_and, bit_or}
use rust_fumio.Prelude.{ℕ, Bool, true, false, not, List, [], ◌∷◌, ◌++◌, if◌then◌else◌, ◌==◌}
use rust_fumio.AtomicWaker.{AtomicWaker}

-- `std::task::Poll<io::Result<mio::Ready>>`; the one error is that the reactor is gone.
pub data PollReady : Type 0 where
  ready : (bits : ℕ) → PollReady
  pending : PollReady
  failed : PollReady

-- One side, reading or writing, of an `InnerTask`.
pub record Side (Cell : Type 0) : Type 0 where
  pub mask : ℕ
  pub readiness : ℕ
  pub waker : Cell

pub record ReactorTask (Cell : Type 0) : Type 0 where
  pub read : Side Cell
  pub write : Side Cell

pub data Woken : Type 0 where
  reader : Woken
  writer : Woken

module _ {Cell : Type 0} (w : AtomicWaker Cell) where
  -- `ReactorTask::new`
  unfoldable pub new : ℕ → ℕ → ReactorTask Cell
  new read_mask write_mask = record {
    read = record { mask = read_mask; readiness = 0; waker = w.new };
    write = record { mask = write_mask; readiness = 0; waker = w.new };
  }

  -- `take_read_ready` and `take_write_ready`
  unfoldable pub take_ready : Side Cell → Side Cell × ℕ
  take_ready s = (record s { readiness = 0 }, s.readiness)

  -- `poll_read_ready` and `poll_write_ready` with no update in between; `alive` is the outcome of
  -- `expect_upgrade`.
  unfoldable pub poll_ready : Bool → Side Cell → Side Cell × PollReady
  unfolding take_ready
  poll_ready alive s =
      let (s1, first) = take_ready s in
      let s2 = record s1 { waker = w.register s1.waker } in
      let (s3, second) = take_ready s2 in
      if not (first == 0)
      then (s1, ready first)
      else if not (second == 0)
      then (s3, ready second)
      else if alive
      then (s3, pending)
      else (s3, failed)

  pub clear_read_ready : ReactorTask Cell → ReactorTask Cell × ℕ
  unfolding take_ready
  clear_read_ready t = let (s, bits) = take_ready t.read in (record t { read = s }, bits)

  pub clear_write_ready : ReactorTask Cell → ReactorTask Cell × ℕ
  unfolding take_ready
  clear_write_ready t = let (s, bits) = take_ready t.write in (record t { write = s }, bits)

  unfoldable pub poll_read_ready : Bool → ReactorTask Cell → ReactorTask Cell × PollReady
  unfolding poll_ready
  poll_read_ready alive t = let (s, r) = poll_ready alive t.read in (record t { read = s }, r)

  unfoldable pub poll_write_ready : Bool → ReactorTask Cell → ReactorTask Cell × PollReady
  unfolding poll_ready
  poll_write_ready alive t = let (s, r) = poll_ready alive t.write in (record t { write = s }, r)

  -- One half of `update_ready`; the second result says whether a waker was called.
  unfoldable pub update_side : ℕ → Side Cell → Side Cell × Bool
  update_side readiness s =
      let bits = bit_and s.mask readiness in
      let (waker, called) = w.wake s.waker in
      if not (bits == 0)
      then (record s { readiness = bit_or s.readiness bits; waker = waker }, called)
      else (s, false)

  unfoldable pub update_ready : ℕ → ReactorTask Cell → ReactorTask Cell × List Woken
  unfolding update_side
  update_ready readiness t =
      let (r, read_called) = update_side readiness t.read in
      let (s, write_called) = update_side readiness t.write in
      (
        record t { read = r; write = s },
        (if read_called then reader ∷ [] else []) ++ (if write_called then writer ∷ [] else []),
      )
