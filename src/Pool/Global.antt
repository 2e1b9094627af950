-- ===== src/Pool/Global.antt =====
-- fumio-pool/src/pool/task.rs: notifications by any number of threads (`global_notify`) while the
-- thread of the pool registers its waker and fetches the global queue (`fetch_global_notifies`). Each
-- access to an atomic is a step, those of the push and of the pop in fumio-utils/src/mpsc.rs among them.
pub mod Kept
pub mod Stub
pub mod Heard
pub mod Fetch
pub mod Safety
mod Examples
use rust_fumio.Prelude.{ℕ, suc, ◌≡◌, ◌≢◌, ◌==◌, Bool, true, false, not, ◌||◌, ◌⊎◌, update}
use rust_fumio.AtomicWaker.{AtomicWaker}
use rust_fumio.Mpsc.{null, Head, PopAll, new, swap_tail, store_next, swap_next, start_pop}

-- Where the pool's thread stands: before its first poll, between two calls of `next`, after `next` has
-- returned a task, in `next` after the stub was popped and after the tail was swapped for it, where
-- the other address is the link that the swap gave; and after the fetch, until the next poll.
pub data Stage : Type 0 where
  unpolled : Stage
  fetching : Stage
  popped : (n : ℕ) → Stage
  popped_stub : (break_loop : Bool) → Stage
  swapped_stub : (prev : ℕ) (break_loop : Bool) → Stage
  fetched : Stage

-- A task goes by the address of its link. `marked n`: a thread has swapped the mark `queued` of the
-- task in and not yet the tail; at most one has. `flight p`: the link that a thread, having got `p`
-- for it, is about to store there. `waking`: how many threads have pushed and not yet called the waker.
-- `called`: a waker was called since the last `register`. The popping position stays in `iter` between
-- the fetches, where the end of one leaves it for the next. A task is `alive` until the pool clears it.
pub record World (Cell : Type 0) : Type 0 where
  pub queue : Head
  pub iter : PopAll
  pub flight : ℕ → ℕ
  pub queued : ℕ → Bool
  pub marked : ℕ → Bool
  pub alive : ℕ → Bool
  pub waking : ℕ
  pub stage : Stage
  pub waker : Cell
  pub called : Bool

abbrev pub after_push : Bool → Stage
after_push true = fetched
after_push false = fetching

module _ {Cell : Type 0} where
  -- `task.queued.swap(true)`, when it was not set
  abbrev pub mark : ℕ → World Cell → World Cell
  mark n s = record s { queued = update s.queued n true; marked = update s.marked n true }

  -- `self.tail.swap(link)` of the thread that has marked `n`
  abbrev pub swap : ℕ → World Cell → World Cell
  swap n s = record s {
    queue = (swap_tail n s.queue).1;
    flight = update s.flight (swap_tail n s.queue).0 n;
    marked = update s.marked n false;
  }

  -- `prev.next.store(link)`
  abbrev pub store : ℕ → World Cell → World Cell
  store p s = record s {
    queue = store_next p (s.flight p) s.queue;
    flight = update s.flight p null;
    waking = suc s.waking;
  }

  -- `next.swap(null)` that finds a link, and takes the popping position there
  abbrev pub advance : Stage → World Cell → World Cell
  advance stage s = record s {
    queue = (swap_next s.iter s.queue).1;
    iter = record s.iter { pos = (swap_next s.iter s.queue).0 };
    stage = stage;
  }

  -- `task.queued.swap(false)`
  abbrev pub unmark : ℕ → World Cell → World Cell
  unmark n s = record s { queued = update s.queued n false; stage = fetching }

  -- `task.queued.store(true)` and `task.alive.set(false)` in `local_clear`
  abbrev pub clear : ℕ → World Cell → World Cell
  clear n s = record s { queued = update s.queued n true; alive = update s.alive n false }

module _ {Cell : Type 0} (aw : AtomicWaker Cell) where
  -- `self.waker.wake()`, after which `n` threads have pushed and not called it: of one of these threads,
  -- or in `local_notify` of the pool's thread
  abbrev pub call : ℕ → World Cell → World Cell
  call n s = record s {
    waking = n;
    waker = (aw.wake s.waker).0;
    called = s.called || (aw.wake s.waker).1;
  }

  -- `waker.register`, and `start_pop`
  abbrev pub begin : World Cell → World Cell
  begin s = record s {
    waker = aw.register s.waker;
    called = false;
    iter = record s.iter { repushed_stub = false };
    stage = fetching;
  }

module _ {Cell : Type 0} (stub : ℕ) where
  -- `self.tail.swap(link)` for the stub
  abbrev pub swap_stub : Bool → World Cell → World Cell
  swap_stub break_loop s = record s {
    queue = (swap_tail stub s.queue).1;
    iter = record s.iter { repushed_stub = true };
    flight = update s.flight (swap_tail stub s.queue).0 stub;
    stage = swapped_stub (swap_tail stub s.queue).0 break_loop;
  }

  -- `prev.next.store(link)` for the stub, with what follows: the end of the loop, or its next round
  abbrev pub store_stub : ℕ → Bool → World Cell → World Cell
  store_stub p break_loop s = record s {
    queue = store_next p stub s.queue;
    flight = update s.flight p null;
    stage = after_push break_loop;
  }

module _ {Cell : Type 0} (aw : AtomicWaker Cell) (stub : ℕ) where
  unfoldable pub init : World Cell
  init = record {
    queue = new stub (λ _. null);
    iter = start_pop (new stub (λ _. null));
    flight = λ _. null;
    queued = λ _. false;
    marked = λ _. false;
    alive = λ _. true;
    waking = 0;
    stage = unpolled;
    waker = aw.new;
    called = false;
  }

  pub data Step (s : World Cell) : World Cell → Type 0 where
    marks : (n : ℕ) → n ≢ null → n ≢ stub → s.queued n ≡ false → Step s (mark n s)
    is_marked : (n : ℕ) → s.queued n ≡ true → Step s s
    swaps : (n : ℕ) → s.marked n ≡ true → Step s (swap n s)
    stores : (p : ℕ) → s.flight p ≢ null → s.flight p ≢ stub → Step s (store p s)
    calls : (n : ℕ) → s.waking ≡ suc n → Step s (call aw n s)
    notifies : Step s (call aw s.waking s)
    clears : (n : ℕ) → n ≢ stub → (s.stage ≡ unpolled) ⊎ (s.stage ≡ fetched) → Step s (clear n s)
    begins : (s.stage ≡ unpolled) ⊎ (s.stage ≡ fetched) → Step s (begin aw s)
    pops :
        s.stage ≡ fetching
        → (swap_next s.iter s.queue).0 ≢ null
        → s.iter.pos ≢ stub
        → Step s (advance (popped s.iter.pos) s)
    unmarks : (n : ℕ) → s.stage ≡ popped n → Step s (unmark n s)
    pops_stub :
        s.stage ≡ fetching
        → (swap_next s.iter s.queue).0 ≢ null
        → s.iter.pos ≡ stub
        → Step s (advance (popped_stub s.iter.repushed_stub) s)
    swaps_stub : (b : Bool) → s.stage ≡ popped_stub b → Step s (swap_stub stub b s)
    stores_stub : (p : ℕ) (b : Bool) → s.stage ≡ swapped_stub p b → Step s (store_stub stub p b s)
    misses :
        s.stage ≡ fetching
        → (swap_next s.iter s.queue).0 ≡ null
        → Step s (record s { queue = (swap_next s.iter s.queue).1; stage = fetched })

  pub data Reach : World Cell → Type 0 where
    start : Reach init
    later : {s s' : World Cell} → Reach s → Step s s' → Reach s'
