-- ===== src/Mpsc/Fifo.antt =====
-- The queue is first in, first out under every interleaving.
use rust_fumio.Prelude.{
  ℕ, ◌≡◌, refl, ◌≢◌, ◌⊎◌, inl, inr, List, [], ◌∷◌, ◌++◌, arith, ◌∉◌, snoc, count, count-append,
  not-mem_of_count, update_self, append_assoc, ap,
}
use rust_fumio.Mpsc.{null, new, swap_tail, store_next, swap_next, start_pop}
use rust_fumio.Mpsc.Chain.{IsQueue, IsQueue-swap, IsQueue-store, IsQueue-take}
use rust_fumio.Mpsc.Threads.{
  World, init, swapped, stored, taken, Step, swap, store, take, miss, Reach, start, later,
}

-- The links still queued behind the popping position, in the order of the swaps.
pub record Inv (w : World) : Type 0 where
  pub rest : List ℕ
  pub logged : w.pushed ≡ w.popped ++ w.iter.pos ∷ rest
  pub holds : IsQueue w.queue.next w.flight w.iter.pos rest w.queue.tail

free-out :
    (w : World) (inv : Inv w) (n : ℕ)
    → count n w.pushed ≡ count n w.popped
    → n ∉ (w.iter.pos ∷ inv.rest)
free-out w inv n e =
    not-mem_of_count n (w.iter.pos ∷ inv.rest)
      (omega (arith, e, ap (count n) inv.logged, count-append n w.popped (w.iter.pos ∷ inv.rest)))

swap-Inv :
    (w : World) (n : ℕ) → Inv w → n ≢ null → count n w.pushed ≡ count n w.popped → Inv (swapped n w)
unfolding swap_tail
swap-Inv w n inv ne e = record {
  rest = snoc inv.rest n;
  logged = rw (inv.logged, append_assoc);
  holds =
      IsQueue-swap w.queue.next w.flight w.iter.pos inv.rest w.queue.tail n inv.holds ne
        (free-out w inv n e);
}

store-Inv : (w : World) (p : ℕ) → Inv w → w.flight p ≢ null → Inv (stored p w)
unfolding store_next
store-Inv w p inv ne = record {
  rest = inv.rest;
  logged = inv.logged;
  holds = IsQueue-store w.queue.next w.flight w.iter.pos inv.rest w.queue.tail p inv.holds ne;
}

take-Inv :
    (w : World) (rest : List ℕ)
    → w.pushed ≡ w.popped ++ w.iter.pos ∷ rest
    → IsQueue w.queue.next w.flight w.iter.pos rest w.queue.tail
    → (swap_next w.iter w.queue).0 ≢ null
    → Inv (taken w)
unfolding swap_next
take-Inv w [] e q ne = absurd (ne q.chain.1)
take-Inv w (x ∷ xs) e q ne =
    let (eq, next) = IsQueue-take w.queue.next w.flight w.iter.pos x xs w.queue.tail q ne in
    record { rest = xs; logged = rw (e, append_assoc, eq); holds = rw eq next }

miss-Inv :
    (w : World)
    → Inv w
    → (swap_next w.iter w.queue).0 ≡ null
    → Inv (record w { queue = (swap_next w.iter w.queue).1 })
unfolding swap_next store_next
miss-Inv w inv e = record {
  rest = inv.rest;
  logged = inv.logged;
  holds = rw (update_self w.queue.next w.iter.pos null e) inv.holds;
}

Step-Inv : {w w' : World} → Step w w' → Inv w → Inv w'
Step-Inv {w} (swap n ne e) inv = swap-Inv w n inv ne e
Step-Inv {w} (store p ne) inv = store-Inv w p inv ne
Step-Inv {w} (take ne) inv = take-Inv w inv.rest inv.logged inv.holds ne
Step-Inv {w} (miss e) inv = miss-Inv w inv e

Reach-Inv : {stub : ℕ} {w : World} → stub ≢ null → Reach stub w → Inv w
unfolding init new start_pop
Reach-Inv ne start = record {
  rest = [];
  logged = refl;
  holds = record {
    chain = ground arith;
    distinct = (refl, tt);
    real = ground arith;
    clear = λ c o. ground arith;
  };
}
Reach-Inv ne (later r st) = Step-Inv st (Reach-Inv ne r)

-- In every reachable state the links that were swapped in are those popped so far, in that order,
-- then the link at the popping position, then the rest of the queue: none is lost, doubled or
-- overtaken. The cells form the chain of the queued links, with the stores in flight left out.
pub fifo :
    {stub : ℕ} {w : World}
    → stub ≢ null
    → Reach stub w
    → (rest : List ℕ) × (w.pushed ≡ w.popped ++ w.iter.pos ∷ rest)
      × IsQueue w.queue.next w.flight w.iter.pos rest w.queue.tail
fifo ne r = let inv = Reach-Inv ne r in (inv.rest, inv.logged, inv.holds)

last-miss :
    (w : World) (rest : List ℕ)
    → w.pushed ≡ w.popped ++ w.iter.pos ∷ rest
    → IsQueue w.queue.next w.flight w.iter.pos rest w.queue.tail
    → (swap_next w.iter w.queue).0 ≡ null
    → (w.pushed ≡ snoc w.popped w.iter.pos) ⊎ (w.flight w.iter.pos ≢ null)
unfolding swap_next
last-miss w [] e q f = inl e
last-miss w (x ∷ xs) e q f = inr (λ z. ground (arith, q.chain.0, q.real))

-- In a reachable state the popping thread finds no next link only if every other link swapped in has been popped, or if
-- the thread that pushed the next one has not stored it yet.
pub miss_reason :
    {stub : ℕ} {w : World}
    → stub ≢ null
    → Reach stub w
    → (swap_next w.iter w.queue).0 ≡ null
    → (w.pushed ≡ snoc w.popped w.iter.pos) ⊎ (w.flight w.iter.pos ≢ null)
miss_reason {w} ne r = let inv = Reach-Inv ne r in last-miss w inv.rest inv.logged inv.holds
