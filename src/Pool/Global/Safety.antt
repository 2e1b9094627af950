-- ===== src/Pool/Global/Safety.antt =====
-- No notification of a task is lost, however the steps of the threads and of the pool interleave.
use rust_fumio.Prelude.{
  ℕ, ◌≡◌, ◌≢◌, refl, ◌⊎◌, inl, inr, true, ◌||◌, List, [], ◌∷◌, has, arith, Bool-cases,
}
use rust_fumio.AtomicWaker.{AtomicWaker}
use rust_fumio.Mpsc.{null, new, start_pop}
use rust_fumio.Mpsc.Chain.{IsQueue}
use rust_fumio.Pool.Global.{
  fetched, World, init, Step, marks, is_marked, swaps, stores, calls, notifies, clears, begins,
  pops, unmarks, pops_stub, swaps_stub, stores_stub, misses, Reach, start, later,
}
use rust_fumio.Pool.Global.Kept.{holds}
use rust_fumio.Pool.Global.Heard.{
  Busy, Active, Inv, mark-Inv, swap-Inv, store-Inv, call-Inv, clear-Inv, begin-Inv,
}
use rust_fumio.Pool.Global.Fetch.{
  pop-Inv, pop_stub-Inv, unmark-Inv, swap_stub-Inv, store_stub-Inv, miss-Inv,
}

module _ {Cell : Type 0} (aw : AtomicWaker Cell) (stub : ℕ) (real : stub ≢ null) where
  Step-Inv : {s s' : World Cell} → Step aw stub s s' → Inv aw stub real s → Inv aw stub real s'
  Step-Inv {s} (marks n ne ns q) v = mark-Inv aw stub real s n ne ns q v
  Step-Inv (is_marked n q) v = v
  Step-Inv {s} (swaps n m) v = swap-Inv aw stub real s n m v
  Step-Inv {s} (stores p ne ns) v = store-Inv aw stub real s p ne ns v
  Step-Inv {s} (calls n e) v = call-Inv aw stub real s n v
  Step-Inv {s} notifies v = call-Inv aw stub real s s.waking v
  Step-Inv {s} (clears n ns e) v = clear-Inv aw stub real s n ns v
  Step-Inv {s} (begins e) v = begin-Inv aw stub real s e v
  Step-Inv {s} (pops e ne ns) v =
      pop-Inv aw stub real s v.rest v.queue v.marked v.stubbed v.heard e ne ns
  Step-Inv {s} (unmarks n e) v = unmark-Inv aw stub real s n e v
  Step-Inv {s} (pops_stub e ne es) v =
      pop_stub-Inv aw stub real s v.rest v.queue v.marked v.stubbed v.heard e ne es
  Step-Inv {s} (swaps_stub b e) v = swap_stub-Inv aw stub real s b e v
  Step-Inv {s} (stores_stub p b e) v = store_stub-Inv aw stub real s p b e v
  Step-Inv {s} (misses e n) v = miss-Inv aw stub real s e n v

  Reach-Inv : {s : World Cell} → Reach aw stub s → Inv aw stub real s
  unfolding init new start_pop
  Reach-Inv start = record {
    rest = [];
    queue = record {
      chain = ground arith;
      distinct = (refl, tt);
      real = ground arith;
      clear = λ c o. ground arith;
    };
    marked = record {
      plain_stub = refl;
      on_queue = λ n i ns. ground arith;
      where_queued = λ n q a. absurd (cc);
      before_push = λ n m. absurd (cc);
      after_pop = λ n h. absurd (cc);
    };
    stubbed = record {
      queued_stub = ground arith;
      stores_stub = λ p h. ground arith;
      stored_stub = λ p h. absurd (cc);
    };
    heard = record {
      armed = λ p. absurd (cc);
      repushed = λ p. absurd (cc);
      broken = λ b. absurd (cc);
      ended = λ e. absurd (ground arith);
    };
  }
  Reach-Inv (later r st) = Step-Inv st (Reach-Inv r)

  queued-Active :
      (s : World Cell) (n : ℕ)
      → Inv aw stub real s
      → s.stage ≡ fetched
      → s.queued n ≡ true
      → s.alive n ≡ true
      → Active stub s
  queued-Active s n v e q a = elim (v.heard.ended e) [
    | inl h ↦ h
    | inr (r, p) ↦ elim (Bool-cases (s.marked n)) [
      | inl m ↦ inr (inl (n, m))
      | inr m ↦
          absurd (ground (arith, v.marked.where_queued n q a, v.marked.plain_stub, e, r, p, m))
    ]
  ]

  -- In every interleaving of the atomic steps of notifying threads with those of the pool's thread: once
  -- the fetch of a poll has ended, and until the next poll, if a live task is marked as queued, then the
  -- registered waker has been called since, or a thread is still between its swap of a mark and its call
  -- of the waker. At any time the cells of the queue form the chain of the queued links, with the stores
  -- in flight left out, and a live task that is marked is queued there, is being handed to the pool, or
  -- is about to be pushed by the thread that has marked it.
  pub no_lost_task :
      (s : World Cell) (n : ℕ)
      → Reach aw stub s
      → s.queued n ≡ true
      → s.alive n ≡ true
      → (s.stage ≡ fetched → (s.called ≡ true) ⊎ Busy stub s)
        × ((rest : List ℕ) × IsQueue s.queue.next s.flight s.iter.pos rest s.queue.tail
            × ((has n (s.iter.pos ∷ rest) || (s.marked n || holds s.stage n)) ≡ true))
  no_lost_task s n r q a =
      let v = Reach-Inv r in
      (λ e. queued-Active s n v e q a, (v.rest, v.queue, v.marked.where_queued n q a))
