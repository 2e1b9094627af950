-- ===== src/AtomicWaker.antt =====
-- `futures_util::task::AtomicWaker`, which the pool and the reactor use and this repository does not
-- contain: its operations, and what its documentation says of them.
use rust_fumio.Prelude.{◌≡◌, refl, Bool, true, false}

-- `register` stores the waker of the calling context. `wake` takes the stored waker and calls it;
-- its second result says whether there was one. `armed` says that one is stored.
pub record AtomicWaker (Cell : Type 0) : Type 0 where
  pub new : Cell
  pub register : Cell → Cell
  pub wake : Cell → Cell × Bool
  pub armed : Cell → Bool
  pub register_arms : (c : Cell) → armed (register c) ≡ true
  pub wake_calls : (c : Cell) → armed c ≡ true → (wake c).1 ≡ true

-- The least that keeps these laws: a cell that remembers whether a waker is stored.
abbrev pub one_shot : AtomicWaker Bool
one_shot = record {
  new = false;
  register = λ c. true;
  wake = λ c. (false, c);
  armed = λ c. c;
  register_arms = λ c. refl;
  wake_calls = λ c h. h;
}
