-- ===== src/Pool/Global/Fetch.antt =====
-- The steps of the thread of the pool keep what it relies on.
use rust_fumio.Prelude.{
  ℕ, ◌≡◌, ◌≢◌, refl, ◌⊎◌, inl, inr, Bool, true, false, update, update_self, List, [], ◌∷◌, snoc,
  arith, ◌∉◌, Bool-cases,
}
use rust_fumio.AtomicWaker.{AtomicWaker}
use rust_fumio.Mpsc.{null, swap_tail, store_next, swap_next}
use rust_fumio.Mpsc.Chain.{IsQueue, IsQueue-swap, IsQueue-store, IsQueue-take, tail-mem, tail-free}
use rust_fumio.Pool.Global.{
  fetching, popped, popped_stub, swapped_stub, fetched, World, advance, unmark, swap_stub,
  after_push, store_stub,
}
use rust_fumio.Pool.Global.Kept.{
  IsMarked, holds, unmark-IsMarked, stage-IsMarked, pop-IsMarked, pop_stub-IsMarked,
  swap_stub-IsMarked,
}
use rust_fumio.Pool.Global.Stub.{
  HasStub, stage-HasStub, pop-HasStub, pop_stub-HasStub, swap_stub-HasStub, store_stub-HasStub,
}
use rust_fumio.Pool.Global.Heard.{is_polled, Active, IsHeard, Inv}

module _ {Cell : Type 0} (aw : AtomicWaker Cell) (stub : ℕ) (real : stub ≢ null) where
  -- The links and the mark go on to the next link; `rest` is the queue behind the position.
  pub pop-Inv :
      (s : World Cell) (rest : List ℕ)
      → IsQueue s.queue.next s.flight s.iter.pos rest s.queue.tail
      → IsMarked stub s.queued s.marked s.alive s.stage (s.iter.pos ∷ rest)
      → HasStub stub s.flight s.stage (s.iter.pos ∷ rest)
      → IsHeard aw stub real s rest
      → s.stage ≡ fetching
      → (swap_next s.iter s.queue).0 ≢ null
      → s.iter.pos ≢ stub
      → Inv aw stub real (advance (popped s.iter.pos) s)
  unfolding swap_next store_next
  pop-Inv s [] q m h heard e ne ns = absurd (ne q.chain.1)
  pop-Inv s (x ∷ xs) q m h heard e ne ns =
      let pos = s.iter.pos in
      let (eq, next) = IsQueue-take s.queue.next s.flight pos x xs s.queue.tail q ne in
      let none' : (n : ℕ) → holds s.stage n ≡ false = λ n. ground (arith, e) in
      record {
        rest = xs;
        queue = rw eq next;
        marked = rw eq (
            pop-IsMarked stub s.queued s.marked s.alive s.stage pos (x ∷ xs) m none' q.distinct ns);
        stubbed = rw eq (pop-HasStub stub real s.flight s.stage pos (x ∷ xs) h e ns);
        heard = record {
          armed = λ p. heard.armed (rw e refl);
          repushed = λ p r. heard.repushed (rw e refl) r;
          broken = λ b. absurd (cc);
          ended = λ f. absurd (cc);
        };
      }

  pub pop_stub-Inv :
      (s : World Cell) (rest : List ℕ)
      → IsQueue s.queue.next s.flight s.iter.pos rest s.queue.tail
      → IsMarked stub s.queued s.marked s.alive s.stage (s.iter.pos ∷ rest)
      → HasStub stub s.flight s.stage (s.iter.pos ∷ rest)
      → IsHeard aw stub real s rest
      → s.stage ≡ fetching
      → (swap_next s.iter s.queue).0 ≢ null
      → s.iter.pos ≡ stub
      → Inv aw stub real (advance (popped_stub s.iter.repushed_stub) s)
  unfolding swap_next store_next
  pop_stub-Inv s [] q m h heard e ne es = absurd (ne q.chain.1)
  pop_stub-Inv s (x ∷ xs) q m h heard e ne es =
      let pos = s.iter.pos in
      let b = s.iter.repushed_stub in
      let (eq, next) = IsQueue-take s.queue.next s.flight pos x xs s.queue.tail q ne in
      let none' : (n : ℕ) → holds s.stage n ≡ false = λ n. ground (arith, e) in
      let last = tail-mem s.queue.next s.flight x xs s.queue.tail q.chain.1 in
      record {
        rest = xs;
        queue = rw eq next;
        marked =
            rw eq
              (pop_stub-IsMarked stub s.queued s.marked s.alive s.stage pos (x ∷ xs) m none' b es);
        stubbed =
            rw eq (pop_stub-HasStub stub real s.flight s.stage pos (x ∷ xs) h b e q.distinct es);
        heard = record {
          armed = λ p. heard.armed (rw e refl);
          repushed = λ p r. heard.repushed (rw e refl) r;
          broken = λ r. elim (heard.repushed (rw e refl) r) [
            | inl a ↦ a
            | inr t ↦ absurd (ground (arith, last, q.distinct.0))
          ];
          ended = λ f. absurd (cc);
        };
      }

  pub unmark-Inv :
      (s : World Cell) (n : ℕ)
      → s.stage ≡ popped n
      → Inv aw stub real s
      → Inv aw stub real (unmark n s)
  unmark-Inv s n e v = record {
    rest = v.rest;
    queue = v.queue;
    marked = unmark-IsMarked stub s.queued s.marked s.alive s.stage _ v.marked n e;
    stubbed =
        stage-HasStub stub real s.flight s.stage s.iter.pos v.rest v.stubbed fetching
          (ground (arith, e)) (λ c. ground (arith, e));
    heard = record {
      armed = λ p. v.heard.armed (rw e refl);
      repushed = λ p r. v.heard.repushed (rw e refl) r;
      broken = λ b. absurd (cc);
      ended = λ f. absurd (cc);
    };
  }

  -- What was busy is so after the pool's thread has swapped the stub in, or stored it.
  pub still-Active :
      (s s' : World Cell) (p v : ℕ)
      → s'.called ≡ s.called
      → s'.marked ≡ s.marked
      → s'.waking ≡ s.waking
      → s'.flight ≡ update s.flight p v
      → (s.flight p ≡ null) ⊎ (s.flight p ≡ stub)
      → Active stub s
      → Active stub s'
  still-Active s s' p v c m k f e (inl h) = inl (ground (arith, c))
  still-Active s s' p v c m k f e (inr (inl (n, h))) = inr (inl (n, rw m h))
  still-Active s s' p v c m k f e (inr (inr (inl (a, ne, ns)))) =
      inr (inr (inl (a, rw f (ground (arith, e)), rw f (ground (arith, e)))))
  still-Active s s' p v c m k f e (inr (inr (inr h))) = inr (inr (inr (ground (arith, k))))

  pub swap_stub-Inv :
      (s : World Cell) (b : Bool)
      → s.stage ≡ popped_stub b
      → Inv aw stub real s
      → Inv aw stub real (swap_stub stub b s)
  unfolding swap_tail
  swap_stub-Inv s b e v =
      let pos = s.iter.pos in
      let t = s.queue.tail in
      let out : stub ∉ (pos ∷ v.rest) = ground (arith, v.stubbed.queued_stub, e) in
      let none' : (n : ℕ) → holds s.stage n ≡ false = λ n. ground (arith, e) in
      let free = tail-free s.queue.next s.flight pos v.rest t v.queue.chain in
      record {
        rest = snoc v.rest stub;
        queue = IsQueue-swap s.queue.next s.flight pos v.rest t stub v.queue real out;
        marked =
            swap_stub-IsMarked stub s.queued s.marked s.alive s.stage pos v.rest v.marked none' t b;
        stubbed = swap_stub-HasStub stub real s.flight s.stage pos v.rest v.stubbed t b e;
        heard = record {
          armed = λ p. v.heard.armed (rw e refl);
          repushed = λ p r. inr refl;
          broken = λ r.
              still-Active s (swap_stub stub b s) t stub refl refl refl refl (inl free)
                (v.heard.broken (rw e r));
          ended = λ f. absurd (cc);
        };
      }

  pub stored-IsHeard :
      (s s' : World Cell) (b : Bool) (rest rest' : List ℕ)
      → s'.stage ≡ after_push b
      → s'.waker ≡ s.waker
      → s'.called ≡ s.called
      → s'.queue.tail ≡ s.queue.tail
      → s'.iter ≡ s.iter
      → is_polled s.stage ≡ true
      → (b ≡ true → Active stub s)
      → (Active stub s → Active stub s')
      → IsHeard aw stub real s rest
      → IsHeard aw stub real s' rest'
  stored-IsHeard s s' false rest rest' e w c t i p b keeps h = record {
    armed = λ _. ground (arith, h.armed p, w, c);
    repushed = λ _ r. elim (h.repushed p (ground (arith, i, r))) [
      | inl a ↦ inl (keeps a)
      | inr z ↦ inr (rw t z)
    ];
    broken = λ z. absurd (ground (arith, e));
    ended = λ z. absurd (ground (arith, e));
  }
  stored-IsHeard s s' true rest rest' e w c t i p b keeps h = record {
    armed = λ _. ground (arith, h.armed p, w, c);
    repushed = λ _ r. inl (keeps (b refl));
    broken = λ z. keeps (b refl);
    ended = λ z. inl (keeps (b refl));
  }

  pub store_stub-Inv :
      (s : World Cell) (p : ℕ) (b : Bool)
      → s.stage ≡ swapped_stub p b
      → Inv aw stub real s
      → Inv aw stub real (store_stub stub p b s)
  unfolding store_next
  store_stub-Inv s p b e v =
      let pos = s.iter.pos in
      let aim : s.flight p ≡ stub = v.stubbed.stored_stub p (rw e (ground arith)) in
      let none' : (n : ℕ) → holds s.stage n ≡ false = λ n. ground (arith, e) in
      let stored =
        IsQueue-store s.queue.next s.flight pos v.rest s.queue.tail p v.queue
          (ground (arith, aim)) in
      record {
        rest = v.rest;
        queue = rw aim at stored;
        marked =
            stage-IsMarked stub s.queued s.marked s.alive s.stage _ v.marked (after_push b) none'
              (λ n. elim (Bool-cases b) [ inl h ↦ rw h refl | inr h ↦ rw h refl ]);
        stubbed =
            store_stub-HasStub stub real s.flight s.stage pos v.rest v.stubbed p b (after_push b) e
              (elim (Bool-cases b) [ inl h ↦ rw h refl | inr h ↦ rw h refl ])
              (λ n. elim (Bool-cases b) [ inl h ↦ rw h refl | inr h ↦ rw h refl ]);
        heard =
            stored-IsHeard s (store_stub stub p b s) b v.rest v.rest refl refl refl refl refl
              (rw e refl) (λ h. v.heard.broken (rw e h))
              (still-Active s (store_stub stub p b s) p null refl refl refl refl (inr aim)) v.heard;
      }

  -- When `next` finds no link, the stub is the whole queue, or a thread is about to store.
  pub last_link :
      (s : World Cell) (rest : List ℕ)
      → IsQueue s.queue.next s.flight s.iter.pos rest s.queue.tail
      → HasStub stub s.flight s.stage (s.iter.pos ∷ rest)
      → s.stage ≡ fetching
      → s.queue.next s.iter.pos ≡ null
      → Active stub s ⊎ ((rest ≡ []) × (s.iter.pos ≡ stub))
  last_link s [] q h e n = inr (refl, ground (arith, h.queued_stub, e))
  last_link s (x ∷ xs) q h e n = inl (
      inr (
        inr (
          inl (
            s.iter.pos,
            (λ z. ground (arith, q.chain.0, q.real)),
            λ z. ground (arith, h.stores_stub s.iter.pos z, e),
          ))))

  pub miss-Inv :
      (s : World Cell)
      → s.stage ≡ fetching
      → (swap_next s.iter s.queue).0 ≡ null
      → Inv aw stub real s
      → Inv aw stub real (record s { queue = (swap_next s.iter s.queue).1; stage = fetched })
  unfolding swap_next store_next
  miss-Inv s e n v = record {
    rest = v.rest;
    queue = rw (update_self s.queue.next s.iter.pos null n) v.queue;
    marked =
        stage-IsMarked stub s.queued s.marked s.alive s.stage _ v.marked fetched
          (λ c. ground (arith, e)) (λ c. refl);
    stubbed =
        stage-HasStub stub real s.flight s.stage s.iter.pos v.rest v.stubbed fetched
          (ground (arith, e)) (λ c. ground (arith, e));
    heard = record {
      armed = λ p. v.heard.armed (rw e refl);
      repushed = λ p r. v.heard.repushed (rw e refl) r;
      broken = λ b. absurd (cc);
      ended = λ f. last_link s v.rest v.queue v.stubbed e n;
    };
  }
