-- ===== src/Mpsc/Rounds.antt =====
-- The queue run by one thread at a time: one round of the loop in `next`, and one pop.
use rust_fumio.Prelude.{
  ℕ, suc, ◌≡◌, refl, ◌≢◌, true, false, Bool, List, [], ◌∷◌, ◌++◌, arith, ◌∉◌, some, Option, snoc,
  update, update_self, ◌==◌, fun_ext, subst, has-append,
}
use rust_fumio.Mpsc.{null, Head, PopAll, Next, item, finished, push, next_item, swap_next, prepend}
use rust_fumio.Mpsc.Chain.{IsQueue, IsQueue-swap, IsQueue-store, IsQueue-take}

-- All links from the position `pos` on, with no store outstanding.
abbrev pub Holds : Head → ℕ → List ℕ → Type 0
Holds h pos [] = ⊥
Holds h pos (x ∷ xs) = (pos ≡ x) × IsQueue h.next (λ _. null) pos xs h.tail

landed : (tail n : ℕ) → update (update (λ _. null) tail n) tail null ≡ (λ _. null)
landed tail n = fun_ext λ c. ground arith

-- A whole `push` adds the link at the end.
pub push-IsQueue :
    (h : Head) (pos : ℕ) (xs : List ℕ) (n : ℕ)
    → IsQueue h.next (λ _. null) pos xs h.tail
    → n ≢ null
    → n ∉ (pos ∷ xs)
    → IsQueue (push n h).next (λ _. null) pos (snoc xs n) (push n h).tail
unfolding push
push-IsQueue h pos xs n q ne out =
    let fl : ℕ → ℕ = update (λ _. null) h.tail n in
    let e : fl h.tail ≡ n = ground arith in
    let a = IsQueue-swap h.next (λ _. null) pos xs h.tail n q ne out in
    let b = IsQueue-store h.next fl pos (snoc xs n) n h.tail a (ground arith) in
    subst (λ f. IsQueue (update h.next h.tail n) f pos (snoc xs n) n) (landed h.tail n)
      (subst (λ v. IsQueue (update h.next h.tail v) (update fl h.tail null) pos (snoc xs n) n) e b)

module _ (h : Head) (it : PopAll) where
  -- The three outcomes of one round of the loop in `next`.
  pub round_last :
      (k : ℕ) → IsQueue h.next (λ _. null) it.pos [] h.tail → next_item (suc k) it h ≡ finished it h
  unfolding next_item
  round_last k q =
      let e : h.next it.pos ≡ null = q.chain.1 in rw (e, update_self h.next it.pos null e)

  module _ (k x : ℕ) (xs : List ℕ) (q : IsQueue h.next (λ _. null) it.pos (x ∷ xs) h.tail) where
    next_is : h.next it.pos ≡ x
    next_is = ground (arith, q.chain.0, q.real)

    next_real : (x == null) ≡ false
    next_real = ground (arith, q.real)

    pub rest-IsQueue : IsQueue (swap_next it h).1.next (λ _. null) x xs (swap_next it h).1.tail
    unfolding swap_next
    rest-IsQueue =
        (IsQueue-take h.next (λ _. null) it.pos x xs h.tail q
          (ground (arith, next_is, next_real))).1

    round_item :
        (it.pos == h.stub) ≡ false
        → next_item (suc k) it h ≡ item it.pos (record it { pos = x }) (swap_next it h).1
    unfolding next_item
    round_item other = rw (next_is, next_real, other)

    pub round_stub :
        (it.pos == h.stub) ≡ true
        → it.repushed_stub ≡ false
        → next_item (suc k) it h
          ≡ next_item k (record { pos = x; repushed_stub = true }) (push it.pos (swap_next it h).1)
    unfolding next_item
    round_stub stub fresh = rw (next_is, next_real, stub, fresh)

    pub round_break :
        (it.pos == h.stub) ≡ true
        → it.repushed_stub ≡ true
        → next_item (suc k) it h
          ≡ finished (record { pos = x; repushed_stub = true }) (push it.pos (swap_next it h).1)
    unfolding next_item
    round_break stub again = rw (next_is, next_real, stub, again)

-- The loop ended with the links `xs`, and left the queue with nothing but its stub.
pub record Drained (stub : ℕ) (xs : List ℕ) (r : Option (List ℕ × Head)) : Type 0 where
  pub left : Head
  pub result : r ≡ some (xs, left)
  pub same_stub : left.stub ≡ stub
  pub empty : Holds left left.head (stub ∷ [])

pub Drained-prepend :
    (stub x : ℕ) (xs : List ℕ) (r : Option (List ℕ × Head))
    → Drained stub xs r
    → Drained stub (x ∷ xs) (prepend x r)
Drained-prepend stub x xs r d = record {
  left = d.left;
  result = rw d.result;
  same_stub = d.same_stub;
  empty = d.empty;
}

-- One call of `next` at a link that is not the stub and not the last.
pub record Popped (r : Next) (y : ℕ) (zs : List ℕ) (stub : ℕ) (repushed : Bool) : Type 0 where
  pub it : PopAll
  pub queue : Head
  pub result : r ≡ item y it queue
  pub same_stub : queue.stub ≡ stub
  pub same_flag : it.repushed_stub ≡ repushed
  pub holds : Holds queue it.pos zs

pub pop-Holds :
    (k : ℕ) (h : Head) (it : PopAll) (y : ℕ) (zs : List ℕ)
    → Holds h it.pos (y ∷ zs)
    → zs ≢ []
    → (y == h.stub) ≡ false
    → Popped (next_item (suc k) it h) y zs h.stub it.repushed_stub
unfolding swap_next
pop-Holds k h it y [] q ne other = absurd (ne refl)
pop-Holds k h it y (z ∷ zs) q ne other = record {
  it = record it { pos = z };
  queue = (swap_next it h).1;
  result = rw (← q.0) (round_item h it k z zs q.1 (rw q.0 other));
  same_stub = refl;
  same_flag = refl;
  holds = (refl, rest-IsQueue h it k z zs q.1);
}

pub append_cons-ne : (xs : List ℕ) (y : ℕ) (ys : List ℕ) → (xs ++ y ∷ ys) ≢ []
append_cons-ne [] y ys = cc
append_cons-ne (x ∷ xs) y ys = cc

pub head-other :
    (h : Head) (pos y : ℕ) (xs ys : List ℕ)
    → Holds h pos (y ∷ xs ++ h.stub ∷ ys)
    → (y == h.stub) ≡ false
head-other h pos y xs ys q = ground (arith, q.1.distinct, has-append pos xs (h.stub ∷ ys))
