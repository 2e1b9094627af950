-- ===== src/Pool/Global/Heard.antt =====
-- What the thread of the pool may rely on, and that the steps of the notifying threads keep it.
use rust_fumio.Prelude.{
  ℕ, ◌≡◌, ◌≢◌, refl, ◌⊎◌, inl, inr, Bool, true, false, ◌||◌, List, [], ◌∷◌, snoc, arith, ◌∉◌,
}
use rust_fumio.AtomicWaker.{AtomicWaker}
use rust_fumio.Mpsc.{null, swap_tail, store_next}
use rust_fumio.Mpsc.Chain.{IsQueue, IsQueue-swap, IsQueue-store, tail-free}
use rust_fumio.Pool.Global.{
  Stage, unpolled, fetching, popped, popped_stub, swapped_stub, fetched, World, mark, swap, store,
  call, clear, begin,
}
use rust_fumio.Pool.Global.Kept.{
  IsMarked, holds, mark-IsMarked, clear-IsMarked, swap-IsMarked, stage-IsMarked,
}
use rust_fumio.Pool.Global.Stub.{HasStub, swap-HasStub, store-HasStub, stage-HasStub}

abbrev pub is_polled : Stage → Bool
is_polled unpolled = false
is_polled _ = true

abbrev pub breaks : Stage → Bool
breaks (popped_stub b) = b
breaks (swapped_stub p b) = b
breaks _ = false

pub breaks-is_polled : (stage : Stage) → breaks stage ≡ true → is_polled stage ≡ true
breaks-is_polled unpolled e = absurd (cc)
breaks-is_polled fetching e = refl
breaks-is_polled (popped n) e = refl
breaks-is_polled (popped_stub b) e = refl
breaks-is_polled (swapped_stub p b) e = refl
breaks-is_polled fetched e = refl

module _ {Cell : Type 0} (stub : ℕ) where
  -- A thread has marked a task, or got the link to store its own in, or is about to call the waker.
  abbrev pub Busy : World Cell → Type 0
  Busy s =
      ((n : ℕ) × (s.marked n ≡ true))
      ⊎ ((p : ℕ) × (s.flight p ≢ null) × (s.flight p ≢ stub))
      ⊎ (s.waking ≢ 0)

  abbrev pub Active : World Cell → Type 0
  Active s = (s.called ≡ true) ⊎ Busy s

module _ {Cell : Type 0} (aw : AtomicWaker Cell) (stub : ℕ) (real : stub ≢ null) where
  -- What the pool may rely on once its waker is registered.
  pub record IsHeard (s : World Cell) (rest : List ℕ) : Type 0 where
    pub armed : is_polled s.stage ≡ true → (aw.armed s.waker ≡ true) ⊎ (s.called ≡ true)
    pub repushed :
        is_polled s.stage ≡ true
        → s.iter.repushed_stub ≡ true
        → Active stub s ⊎ (s.queue.tail ≡ stub)
    pub broken : breaks s.stage ≡ true → Active stub s
    pub ended : s.stage ≡ fetched → Active stub s ⊎ ((rest ≡ []) × (s.iter.pos ≡ stub))

  pub record Inv (s : World Cell) : Type 0 where
    pub rest : List ℕ
    pub queue : IsQueue s.queue.next s.flight s.iter.pos rest s.queue.tail
    pub marked : IsMarked stub s.queued s.marked s.alive s.stage (s.iter.pos ∷ rest)
    pub stubbed : HasStub stub s.flight s.stage (s.iter.pos ∷ rest)
    pub heard : IsHeard s rest

  -- After a step of a thread, which leaves a waker to be called or calls it.
  pub active-IsHeard :
      (s : World Cell) (rest : List ℕ)
      → (is_polled s.stage ≡ true → (aw.armed s.waker ≡ true) ⊎ (s.called ≡ true))
      → (is_polled s.stage ≡ true → Active stub s)
      → IsHeard s rest
  active-IsHeard s rest a act = record {
    armed = a;
    repushed = λ p r. inl (act p);
    broken = λ b. act (breaks-is_polled s.stage b);
    ended = λ e. inl (act (rw e refl));
  }

  pub mark-Inv :
      (s : World Cell) (n : ℕ) → n ≢ null → n ≢ stub → s.queued n ≡ false → Inv s → Inv (mark n s)
  mark-Inv s n ne ns q v = record {
    rest = v.rest;
    queue = v.queue;
    marked = mark-IsMarked stub s.queued s.marked s.alive s.stage _ v.marked n ne ns q;
    stubbed = v.stubbed;
    heard = active-IsHeard (mark n s) v.rest v.heard.armed (λ p. inr (inl (n, ground arith)));
  }

  pub swap-Inv : (s : World Cell) (n : ℕ) → s.marked n ≡ true → Inv s → Inv (swap n s)
  unfolding swap_tail
  swap-Inv s n m v =
      let (ne, ns, q) = v.marked.before_push n m in
      let out : n ∉ (s.iter.pos ∷ v.rest) = ground (arith, v.marked.on_queue n) in
      record {
        rest = snoc v.rest n;
        queue = IsQueue-swap s.queue.next s.flight s.iter.pos v.rest s.queue.tail n v.queue ne out;
        marked =
            swap-IsMarked stub s.queued s.marked s.alive s.stage _ v.marked s.iter.pos v.rest refl n
              m;
        stubbed =
            swap-HasStub stub real s.flight s.stage s.iter.pos v.rest v.stubbed s.queue.tail n ns
              (tail-free s.queue.next s.flight s.iter.pos v.rest s.queue.tail v.queue.chain);
        heard =
            active-IsHeard (swap n s) (snoc v.rest n) v.heard.armed
              (λ p. inr (inr (inl (s.queue.tail, ground arith, ground arith))));
      }

  pub store-Inv :
      (s : World Cell) (p : ℕ) → s.flight p ≢ null → s.flight p ≢ stub → Inv s → Inv (store p s)
  unfolding store_next
  store-Inv s p ne ns v = record {
    rest = v.rest;
    queue = IsQueue-store s.queue.next s.flight s.iter.pos v.rest s.queue.tail p v.queue ne;
    marked = v.marked;
    stubbed = store-HasStub stub real s.flight s.stage s.iter.pos v.rest v.stubbed p ns;
    heard = active-IsHeard (store p s) v.rest v.heard.armed (λ q. inr (inr (inr (ground arith))));
  }

  pub call-Inv : (s : World Cell) (n : ℕ) → Inv s → Inv (call aw n s)
  call-Inv s n v =
      let rings : is_polled s.stage ≡ true → (s.called || (aw.wake s.waker).1) ≡ true = λ p.
        elim (v.heard.armed p) [
          | inl a ↦ ground (arith, aw.wake_calls s.waker a)
          | inr c ↦ ground (arith, c)
        ] in
      record {
        rest = v.rest;
        queue = v.queue;
        marked = v.marked;
        stubbed = v.stubbed;
        heard = active-IsHeard (call aw n s) v.rest (λ p. inr (rings p)) (λ p. inl (rings p));
      }

  pub clear-Inv : (s : World Cell) (n : ℕ) → n ≢ stub → Inv s → Inv (clear n s)
  clear-Inv s n ns v = record {
    rest = v.rest;
    queue = v.queue;
    marked = clear-IsMarked stub s.queued s.marked s.alive s.stage _ v.marked n ns;
    stubbed = v.stubbed;
    heard = record {
      armed = v.heard.armed;
      repushed = v.heard.repushed;
      broken = v.heard.broken;
      ended = v.heard.ended;
    };
  }

  pub begin-Inv :
      (s : World Cell) → (s.stage ≡ unpolled) ⊎ (s.stage ≡ fetched) → Inv s → Inv (begin aw s)
  begin-Inv s e v =
      let none' : (n : ℕ) → holds s.stage n ≡ false = λ n. ground (arith, e) in
      record {
        rest = v.rest;
        queue = v.queue;
        marked =
            stage-IsMarked stub s.queued s.marked s.alive s.stage _ v.marked fetching none'
              (λ n. refl);
        stubbed =
            stage-HasStub stub real s.flight s.stage s.iter.pos v.rest v.stubbed fetching
              (ground (arith, e)) (λ n. ground (arith, e));
        heard = record {
          armed = λ p. inl (aw.register_arms s.waker);
          repushed = λ p r. absurd (cc);
          broken = λ b. absurd (cc);
          ended = λ f. absurd (ground arith);
        };
      }
