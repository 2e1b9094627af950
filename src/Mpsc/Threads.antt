-- ===== src/Mpsc/Threads.antt =====
-- The queue of fumio-utils/src/mpsc.rs with pushing threads and the popping thread interleaved: each
-- atomic access is a step.
use rust_fumio.Prelude.{ℕ, ◌≡◌, ◌≢◌, List, [], ◌∷◌, count, snoc, update}
use rust_fumio.Mpsc.{null, Head, PopAll, new, swap_tail, store_next, swap_next, start_pop}

-- `flight p` is the link that a thread got `p` for and will store there. The logs hold the links in
-- the order of the swaps of the tail, and in the order of the pops, the stub's among them.
pub record World : Type 0 where
  pub queue : Head
  pub iter : PopAll
  pub flight : ℕ → ℕ
  pub pushed : List ℕ
  pub popped : List ℕ

unfoldable pub init : ℕ → World
init stub = record {
  queue = new stub (λ _. null);
  iter = start_pop (new stub (λ _. null));
  flight = λ _. null;
  pushed = stub ∷ [];
  popped = [];
}

abbrev pub swapped : ℕ → World → World
swapped n w = record w {
  queue = (swap_tail n w.queue).1;
  flight = update w.flight (swap_tail n w.queue).0 n;
  pushed = snoc w.pushed n;
}

abbrev pub stored : ℕ → World → World
stored p w = record w { queue = store_next p (w.flight p) w.queue; flight = update w.flight p null }

abbrev pub taken : World → World
taken w = record w {
  queue = (swap_next w.iter w.queue).1;
  iter = record w.iter { pos = (swap_next w.iter w.queue).0 };
  popped = snoc w.popped w.iter.pos;
}

-- A link may be pushed when it was popped as often as it was pushed: it is on no list. The popping
-- thread pushes the stub again by the same two steps.
pub data Step (w : World) : World → Type 0 where
  swap : (n : ℕ) → n ≢ null → count n w.pushed ≡ count n w.popped → Step w (swapped n w)
  store : (p : ℕ) → w.flight p ≢ null → Step w (stored p w)
  take : (swap_next w.iter w.queue).0 ≢ null → Step w (taken w)
  miss :
      (swap_next w.iter w.queue).0 ≡ null
      → Step w (record w { queue = (swap_next w.iter w.queue).1 })

pub data Reach (stub : ℕ) : World → Type 0 where
  start : Reach stub (init stub)
  later : {w w' : World} → Reach stub w → Step w w' → Reach stub w'
