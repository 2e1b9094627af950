-- ===== src/Mpsc/Refine.antt =====
-- The queue as what its owner sees of it: a sequence of pushes, and of loops over `start_pop` that end
-- early, against a list of links.
use rust_fumio.Prelude.{
  ℕ, zero, suc, ◌≡◌, refl, ap, sym, ◌∙◌, ◌≢◌, false, List, [], ◌∷◌, ◌++◌, arith, ◌∉◌, Option, some,
  snoc, append_assoc, append-nil, has-append, subst, ◌==◌, ◌>>=◌,
}
use rust_fumio.Mpsc.{null, Head, PopAll, push, start_pop, end_pop, next_item, item, collect_from}
use rust_fumio.Mpsc.Rounds.{Holds, push-IsQueue, round_last, pop-Holds, append_cons-ne, head-other}
use rust_fumio.Mpsc.Drain.{repush-Holds}

abbrev pub take : ℕ → List ℕ → List ℕ
take zero xs = []
take (suc k) [] = []
take (suc k) (x ∷ xs) = x ∷ take k xs

abbrev pub drop : ℕ → List ℕ → List ℕ
drop zero xs = xs
drop (suc k) [] = []
drop (suc k) (x ∷ xs) = drop k xs

-- A loop over the iterator that leaves it after `k` links.
pub take_items : ℕ → PopAll → Head → Option (List ℕ × Head)
unfolding end_pop collect_from
take_items zero it h = some ([], end_pop it h)
take_items (suc k) it h = collect_from (take_items k) (next_item 3 it h)

pub data Op : Type 0 where
  pushing : (link : ℕ) → Op
  popping : (most : ℕ) → Op

-- What an operation returns, and the links that are queued after it.
pub fifo_step : Op → List ℕ → List ℕ × List ℕ
fifo_step (pushing link) xs = ([], snoc xs link)
fifo_step (popping most) xs = (take most xs, drop most xs)

pub queue_step : Op → Head → Option (List ℕ × Head)
unfolding take_items
queue_step (pushing link) h = some ([], push link h)
queue_step (popping most) h = take_items most (start_pop h) h

pub fifo_run : List Op → List ℕ → List (List ℕ) × List ℕ
unfolding fifo_step
fifo_run [] xs = ([], xs)
fifo_run (op ∷ ops) xs =
    let (reply, xs') = fifo_step op xs in
    let (replies, end) = fifo_run ops xs' in (reply ∷ replies, end)

pub queue_run : List Op → Head → Option (List (List ℕ) × Head)
unfolding queue_step
queue_run [] h = some ([], h)
queue_run (op ∷ ops) h = do
  (reply, h') ← queue_step op h
  (replies, end) ← queue_run ops h'
  some (reply ∷ replies, end)

-- The queue holds the links `xs`, with the stub anywhere among them.
pub record IsFifo (h : Head) (xs : List ℕ) : Type 0 where
  pub front : List ℕ
  pub back : List ℕ
  pub holds : Holds h h.head (front ++ h.stub ∷ back)
  pub queued : front ++ back ≡ xs

-- A link is pushed only while it is not queued.
abbrev pub IsLegal : ℕ → List Op → List ℕ → Type 0
IsLegal stub [] xs = Unit
IsLegal stub (pushing link ∷ ops) xs =
    (link ≢ null) × ((link == stub) ≡ false) × (link ∉ xs) × IsLegal stub ops (snoc xs link)
IsLegal stub (popping most ∷ ops) xs = IsLegal stub ops (drop most xs)

pub push-Holds :
    (h : Head) (pos : ℕ) (front back : List ℕ) (link : ℕ)
    → Holds h pos (front ++ h.stub ∷ back)
    → link ≢ null
    → link ∉ (front ++ h.stub ∷ back)
    → Holds (push link h) pos (front ++ h.stub ∷ snoc back link)
push-Holds h pos [] back link q ne out =
    (q.0, push-IsQueue h pos back link q.1 ne (subst (λ x. link ∉ (x ∷ back)) (sym q.0) out))
push-Holds h pos (x ∷ xs) back link q ne out = (
  q.0,
  rw (← append_assoc xs (h.stub ∷ back) (link ∷ [])) (
      push-IsQueue h pos (xs ++ h.stub ∷ back) link q.1 ne
        (subst (λ y. link ∉ (y ∷ xs ++ h.stub ∷ back)) (sym q.0) out)),
)

pub push-IsFifo :
    (h : Head) (xs : List ℕ) (link : ℕ)
    → IsFifo h xs
    → link ≢ null
    → (link == h.stub) ≡ false
    → link ∉ xs
    → IsFifo (push link h) (snoc xs link)
unfolding push
push-IsFifo h xs link f ne other new =
    let out : link ∉ (f.front ++ f.back) = subst (λ l. link ∉ l) (sym f.queued) new in
    record {
      front = f.front;
      back = snoc f.back link;
      holds = push-Holds h h.head f.front f.back link f.holds ne (
          ground (
            arith,
            has-append link f.front (h.stub ∷ f.back),
            has-append link f.front f.back,
            out,
          ));
      queued = sym (append_assoc f.front f.back (link ∷ [])) ∙ ap (λ l. snoc l link) f.queued;
    }

pub push-stub : (link : ℕ) (h : Head) → (push link h).stub ≡ h.stub
unfolding push
push-stub link h = refl

-- A loop that took the first `k` of the links `xs`, and left the others.
record Taken (stub k : ℕ) (xs : List ℕ) (r : Option (List ℕ × Head)) : Type 0 where
  left : Head
  result : r ≡ some (take k xs, left)
  same_stub : left.stub ≡ stub
  fifo : IsFifo left (drop k xs)

Taken-item :
    (stub k x : ℕ) (xs : List ℕ) (h : Head) (it : PopAll)
    → Taken stub k xs (take_items k it h)
    → Taken stub (suc k) (x ∷ xs) (collect_from (take_items k) (item x it h))
unfolding collect_from
Taken-item stub k x xs h it t = record {
  left = t.left;
  result = rw t.result refl;
  same_stub = t.same_stub;
  fifo = t.fifo;
}

-- From links that the stub closes.
take-items :
    (k : ℕ) (h : Head) (it : PopAll) (ys : List ℕ)
    → Holds h it.pos (snoc ys h.stub)
    → Taken h.stub k ys (take_items k it h)
unfolding take_items end_pop
take-items zero h it ys q = record {
  left = end_pop it h;
  result = refl;
  same_stub = refl;
  fifo = record { front = ys; back = []; holds = q; queued = append-nil ys };
}
take-items (suc k) h it [] q = rw (round_last h it 2 q.1) (record {
  left = end_pop it h;
  result = refl;
  same_stub = refl;
  fifo = record { front = []; back = []; holds = q; queued = refl };
})
take-items (suc k) h it (y ∷ ys) q =
    let p =
      pop-Holds 2 h it y (snoc ys h.stub) q (append_cons-ne ys h.stub [])
        (head-other h it.pos y ys [] q) in
    let rest = take-items k p.queue p.it ys (rw p.same_stub p.holds) in
    rw p.result (
      Taken-item h.stub k y ys p.queue p.it
        (subst (λ s. Taken s k ys (take_items k p.it p.queue)) p.same_stub rest))

take-all :
    (k : ℕ) (h : Head) (it : PopAll) (ys zs : List ℕ)
    → Holds h it.pos (ys ++ h.stub ∷ zs)
    → it.repushed_stub ≡ false
    → Taken h.stub k (ys ++ zs) (take_items k it h)
unfolding take_items end_pop
take-all zero h it ys zs q n = record {
  left = end_pop it h;
  result = refl;
  same_stub = refl;
  fifo = record { front = ys; back = zs; holds = q; queued = refl };
}
take-all (suc k) h it [] [] q n = take-items (suc k) h it [] q
take-all (suc k) h it [] (z ∷ zs) q n =
    let p = repush-Holds h it z zs q n in
    let rest = take-items k p.queue p.it zs (rw p.same_stub p.holds) in
    rw p.result (
      Taken-item h.stub k z zs p.queue p.it
        (subst (λ s. Taken s k zs (take_items k p.it p.queue)) p.same_stub rest))
take-all (suc k) h it (y ∷ ys) zs q n =
    let p =
      pop-Holds 2 h it y (ys ++ h.stub ∷ zs) q (append_cons-ne ys h.stub zs)
        (head-other h it.pos y ys zs q) in
    let rest = take-all k p.queue p.it ys zs (rw p.same_stub p.holds) (p.same_flag ∙ n) in
    rw p.result (
      Taken-item h.stub k y (ys ++ zs) p.queue p.it
        (subst (λ s. Taken s k (ys ++ zs) (take_items k p.it p.queue)) p.same_stub rest))

-- A queue that refines a list of links gives the list's replies, and refines it again: for any
-- sequence of pushes and of loops that take at most so many links, where no link is pushed while it is
-- queued, and neither null nor the stub is.
pub queue_run-refines :
    (ops : List Op) (h : Head) (xs : List ℕ)
    → IsFifo h xs
    → IsLegal h.stub ops xs
    → (h' : Head) × (queue_run ops h ≡ some ((fifo_run ops xs).0, h'))
      × IsFifo h' (fifo_run ops xs).1
unfolding queue_run queue_step fifo_run fifo_step start_pop push
queue_run-refines [] h xs f legal = (h, refl, f)
queue_run-refines (pushing link ∷ ops) h xs f legal =
    let (ne, other, out, later) = legal in
    let (h', e, f') =
      queue_run-refines ops (push link h) (snoc xs link) (push-IsFifo h xs link f ne other out)
        later in
    (h', rw e refl, f')
queue_run-refines (popping most ∷ ops) h xs f legal =
    let t =
      subst (λ l. Taken h.stub most l (take_items most (start_pop h) h)) f.queued
        (take-all most h (start_pop h) f.front f.back f.holds refl) in
    let (h', e, f') =
      queue_run-refines ops t.left (drop most xs) t.fifo
        (subst (λ s. IsLegal s ops (drop most xs)) (sym t.same_stub) legal) in
    (h', rw (t.result, e) refl, f')
