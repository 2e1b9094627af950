-- ===== src/Mpsc/Drain.antt =====
-- The queue run by one thread at a time: what a loop over `start_pop` returns.
use rust_fumio.Prelude.{
  ℕ, zero, suc, ◌+◌, ◌<◌, ◌≡◌, refl, ◌≢◌, true, false, List, [], ◌∷◌, ◌++◌, arith, ◌∉◌, some, snoc,
  length, append_assoc, append-nil, ◌==◌, IsDistinct, subst, ◌∙◌, sym, has-append, has, Bool-cases,
  IsDistinct-apart,
}
use rust_fumio.Mpsc.{
  null, Head, PopAll, new, push, start_pop, end_pop, next_item, swap_next, collect, pop_all,
  drop_assertion,
}
use rust_fumio.Mpsc.Chain.{IsQueue}
use rust_fumio.Mpsc.Rounds.{
  Holds, push-IsQueue, round_last, round_stub, rest-IsQueue, Drained, Drained-prepend, Popped,
  pop-Holds, append_cons-ne, head-other,
}

-- From links that the stub closes.
collect-items :
    (fuel : ℕ) (h : Head) (it : PopAll) (ys : List ℕ)
    → Holds h it.pos (snoc ys h.stub)
    → length ys < fuel
    → Drained h.stub ys (collect fuel it h)
unfolding collect end_pop
collect-items zero h it ys q f = absurd (omega arith)
collect-items (suc fuel) h it [] q f =
    rw (round_last h it 2 q.1)
      (record { left = record h { head = it.pos }; result = refl; same_stub = refl; empty = q })
collect-items (suc fuel) h it (y ∷ ys) q f =
    let p =
      pop-Holds 2 h it y (snoc ys h.stub) q (append_cons-ne ys h.stub [])
        (head-other h it.pos y ys [] q) in
    let rest = collect-items fuel p.queue p.it ys (rw p.same_stub p.holds) (omega arith) in
    rw p.result (
      Drained-prepend h.stub y ys (collect fuel p.it p.queue)
        (subst (λ s. Drained s ys (collect fuel p.it p.queue)) p.same_stub rest))

-- At the stub the loop in `next` pushes it again, and returns the link behind it.
pub repush-Holds :
    (h : Head) (it : PopAll) (z : ℕ) (zs : List ℕ)
    → Holds h it.pos (h.stub ∷ z ∷ zs)
    → it.repushed_stub ≡ false
    → Popped (next_item 3 it h) z (snoc zs h.stub) h.stub true
unfolding swap_next push
repush-Holds h it z zs q n =
    let h1 = (swap_next it h).1 in
    let h2 = push it.pos h1 in
    let it2 : PopAll = record { pos = z; repushed_stub = true } in
    let st : h2.stub ≡ h.stub = refl in
    let pushed : IsQueue h2.next (λ _. null) z (snoc zs it.pos) h2.tail =
      push-IsQueue h1 z zs it.pos (rest-IsQueue h it 2 z zs q.1) (ground (arith, q.1.real))
        q.1.distinct.0 in
    let mid : Holds h2 z (z ∷ snoc zs h.stub) = (refl, rw (← q.0) pushed) in
    let other : (z == h2.stub) ≡ false = ground (arith, q.1.distinct) in
    let p = pop-Holds 1 h2 it2 z (snoc zs h.stub) mid (append_cons-ne zs h.stub []) other in
    record {
      it = p.it;
      queue = p.queue;
      result = round_stub h it 2 z zs q.1 (ground arith) n ∙ p.result;
      same_stub = p.same_stub ∙ st;
      same_flag = p.same_flag;
      holds = p.holds;
    }

collect-all :
    (fuel : ℕ) (h : Head) (it : PopAll) (ys zs : List ℕ)
    → Holds h it.pos (ys ++ h.stub ∷ zs)
    → it.repushed_stub ≡ false
    → length ys + length zs < fuel
    → Drained h.stub (ys ++ zs) (collect fuel it h)
unfolding collect
collect-all zero h it ys zs q n f = absurd (omega arith)
collect-all (suc fuel) h it [] [] q n f = collect-items (suc fuel) h it [] q (omega arith)
collect-all (suc fuel) h it [] (z ∷ zs) q n f =
    let p = repush-Holds h it z zs q n in
    let rest = collect-items fuel p.queue p.it zs (rw p.same_stub p.holds) (omega arith) in
    rw p.result (
      Drained-prepend h.stub z zs (collect fuel p.it p.queue)
        (subst (λ s. Drained s zs (collect fuel p.it p.queue)) p.same_stub rest))
collect-all (suc fuel) h it (y ∷ ys) zs q n f =
    let p =
      pop-Holds 2 h it y (ys ++ h.stub ∷ zs) q (append_cons-ne ys h.stub zs)
        (head-other h it.pos y ys zs q) in
    let rest =
      collect-all fuel p.queue p.it ys zs (rw p.same_stub p.holds) (p.same_flag ∙ n)
        (omega arith) in
    rw p.result (
      Drained-prepend h.stub y (ys ++ zs) (collect fuel p.it p.queue)
        (subst (λ s. Drained s (ys ++ zs) (collect fuel p.it p.queue)) p.same_stub rest))

-- A loop over `start_pop` that nobody pushes into, with more fuel than there are links, returns every
-- queued link once and in order, wherever the stub stands among them, and leaves the queue with its
-- stub alone.
pub pop_all-Drained :
    (fuel : ℕ) (h : Head) (ys zs : List ℕ)
    → Holds h h.head (ys ++ h.stub ∷ zs)
    → length ys + length zs < fuel
    → Drained h.stub (ys ++ zs) (pop_all fuel h)
unfolding pop_all start_pop
pop_all-Drained fuel h ys zs q f =
    collect-all fuel h (record { pos = h.head; repushed_stub = false }) ys zs q refl f

pub new-IsQueue :
    (stub : ℕ)
    → stub ≢ null
    → IsQueue (new stub (λ _. null)).next (λ _. null) stub [] (new stub (λ _. null)).tail
unfolding new
new-IsQueue stub ne = record {
  chain = ground arith;
  distinct = (refl, tt);
  real = ground arith;
  clear = λ c o. ground arith;
}

unfoldable pub push_all : List ℕ → Head → Head
push_all [] h = h
push_all (n ∷ ns) h = push_all ns (push n h)

push_all-IsQueue :
    (ns : List ℕ) (h : Head) (pos : ℕ) (xs : List ℕ)
    → IsQueue h.next (λ _. null) pos xs h.tail
    → IsDistinct (pos ∷ xs ++ ns)
    → null ∉ ns
    → IsQueue (push_all ns h).next (λ _. null) pos (xs ++ ns) (push_all ns h).tail
unfolding push_all
push_all-IsQueue [] h pos xs q d real = rw append-nil q
push_all-IsQueue (n ∷ ns) h pos xs q d real =
    let out : n ∉ (pos ∷ xs) = ground (
      arith,
      d.0,
      has-append pos xs (n ∷ ns),
      IsDistinct-apart xs (n ∷ ns) d.1 n,
      Bool-cases (has n xs),
    ) in
    rw (← append_assoc xs (n ∷ []) ns) (
      push_all-IsQueue ns (push n h) pos (snoc xs n) (push-IsQueue h pos xs n q (ground arith) out)
        (rw (append_assoc xs (n ∷ []) ns) d) (ground arith))

push_all-keeps :
    (ns : List ℕ) (h : Head) → ((push_all ns h).stub ≡ h.stub) × ((push_all ns h).head ≡ h.head)
unfolding push_all push
push_all-keeps [] h = (refl, refl)
push_all-keeps (n ∷ ns) h = push_all-keeps ns (push n h)

-- What is pushed into a new queue comes out: distinct links that are not the stub are returned in
-- the order of their pushes, and the queue then passes the assertion of its `Drop`.
pub pop_all-push_all :
    (stub : ℕ) (ns : List ℕ)
    → IsDistinct (stub ∷ ns)
    → null ∉ (stub ∷ ns)
    → (h : Head) × (pop_all (length ns + 1) (push_all ns (new stub (λ _. null))) ≡ some (ns, h))
      × (drop_assertion h ≡ true)
unfolding drop_assertion new
pop_all-push_all stub ns d real =
    let h0 = new stub (λ _. null) in
    let h1 = push_all ns h0 in
    let (stubs, heads) = push_all-keeps ns h0 in
    let q = push_all-IsQueue ns h0 stub [] (new-IsQueue stub (ground arith)) d (ground arith) in
    let out =
      pop_all-Drained (length ns + 1) h1 [] ns (heads ∙ sym stubs, rw heads q) (omega arith) in
    (out.left, out.result, ground (arith, out.empty, out.same_stub))
