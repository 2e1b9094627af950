-- ===== src/Pool/Invariant.antt =====
-- The well-formedness of the pool, and that every operation of fumio-pool/src/pool/task.rs keeps it.
use rust_fumio.Prelude.{
  ℕ, suc, ◌≤◌, ◌<◌, ◌≡◌, refl, Bool, true, false, not, ◌&&◌, List, [], ◌∷◌, some, is_some, snoc,
  arith, ◌∈◌, ◌∉◌, has, has-append, has-erase, IsDistinct, IsDistinct-snoc, IsDistinct-erase, erase,
  update, ◌==◌, subst, sym, update_self, one_if, ◌+◌,
}
use rust_fumio.AtomicWaker.{AtomicWaker}
use rust_fumio.Pool.Task.{TaskList, new, wake, set_queued, local_clear, set_future}

pub record IsPool {Cell Fut : Type 0} (s : TaskList Cell Fut) : Type 0 where
  pub all_distinct : IsDistinct s.local_all
  pub pending_distinct : IsDistinct s.local_pending
  pub round_distinct : IsDistinct s.poll_list
  pub global_distinct : IsDistinct s.global_pending
  pub apart : (t : ℕ) → t ∈ s.poll_list → t ∉ s.local_pending
  pub listed : (t : ℕ) → has t s.local_all ≡ (s.tasks t).alive
  pub pending_alive : (t : ℕ) → t ∈ s.local_pending → (s.tasks t).alive ≡ true
  pub round_alive : (t : ℕ) → t ∈ s.poll_list → (s.tasks t).alive ≡ true
  pub has_future : (t : ℕ) → is_some (s.tasks t).future ≡ (s.tasks t).alive
  pub global_queued : (t : ℕ) → t ∈ s.global_pending → (s.tasks t).queued ≡ true
  pub queued_global :
      (t : ℕ) → (s.tasks t).alive ≡ true → (s.tasks t).queued ≡ true → t ∈ s.global_pending
  pub bounded : (t : ℕ) → s.fresh ≤ t → ((s.tasks t).alive ≡ false) × ((s.tasks t).queued ≡ false)
  pub counted :
      (t : ℕ) → s.refs t ≡ one_if (has t s.local_all) + one_if (has t s.global_pending) + s.wakers t
  pub unborn : (t : ℕ) → s.fresh ≤ t → s.wakers t ≡ 0

module _ {Cell Fut : Type 0} (s : TaskList Cell Fut) (v : IsPool s) where
  -- Other pending lists of live tasks may stand in the place of these.
  pub relist-IsPool :
      (p r : List ℕ) (w : Cell) (b : Bool) (l : List ℕ)
      → IsDistinct p
      → IsDistinct r
      → ((c : ℕ) → c ∈ r → c ∉ p)
      → ((c : ℕ) → c ∈ p → (s.tasks c).alive ≡ true)
      → ((c : ℕ) → c ∈ r → (s.tasks c).alive ≡ true)
      → IsPool (record s { local_pending = p; poll_list = r; waker = w; woken = b; polled = l })
  relist-IsPool p r w b l dp dr ap lp lr = record {
    all_distinct = v.all_distinct;
    pending_distinct = dp;
    round_distinct = dr;
    global_distinct = v.global_distinct;
    apart = ap;
    listed = v.listed;
    pending_alive = lp;
    round_alive = lr;
    has_future = v.has_future;
    global_queued = v.global_queued;
    queued_global = v.queued_global;
    bounded = v.bounded;
    counted = v.counted;
    unborn = v.unborn;
  }

  -- What is not on the lists does not matter.
  pub aside-IsPool :
      (w : Cell) (b : Bool) (l : List ℕ) → IsPool (record s { waker = w; woken = b; polled = l })
  aside-IsPool w b l =
      relist-IsPool s.local_pending s.poll_list w b l v.pending_distinct v.round_distinct v.apart
        v.pending_alive v.round_alive

module _ {Cell Fut : Type 0} (s : TaskList Cell Fut) (v : IsPool s) (t : ℕ) where
  -- The queue of the thread, one task longer at either end.
  pub append-IsPool :
      (s.tasks t).alive ≡ true
      → t ∉ s.local_pending
      → t ∉ s.poll_list
      → IsPool (record s { local_pending = snoc s.local_pending t })
  append-IsPool a o o' =
      relist-IsPool s v (snoc s.local_pending t) s.poll_list s.waker s.woken s.polled
        (IsDistinct-snoc s.local_pending t v.pending_distinct o) v.round_distinct
        (λ c i. ground (arith, v.apart c, has-append c s.local_pending (t ∷ [])))
        (λ c i. ground (arith, v.pending_alive c, has-append c s.local_pending (t ∷ [])))
        v.round_alive

  pub prepend-IsPool :
      (s.tasks t).alive ≡ true
      → t ∉ s.local_pending
      → t ∉ s.poll_list
      → IsPool (record s { local_pending = t ∷ s.local_pending })
  prepend-IsPool a o o' =
      relist-IsPool s v (t ∷ s.local_pending) s.poll_list s.waker s.woken s.polled
        (o, v.pending_distinct) v.round_distinct (λ c i. ground (arith, v.apart c))
        (λ c i. ground (arith, v.pending_alive c)) v.round_alive

  -- The flag and the references of `t`, and the global queue with or without it.
  pub flag-IsPool :
      (b : Bool) (g : List ℕ) (r : ℕ)
      → IsDistinct g
      → ((c : ℕ) → (t == c) ≡ false → has c g ≡ has c s.global_pending)
      → (t ∈ g → b ≡ true)
      → ((s.tasks t).alive ≡ true → b ≡ true → t ∈ g)
      → t < s.fresh
      → r ≡ one_if (has t s.local_all) + one_if (has t g) + s.wakers t
      → IsPool (record s {
        global_pending = g;
        tasks = update s.tasks t (record (s.tasks t) { queued = b });
        refs = update s.refs t r;
      })
  flag-IsPool b g r d same own own' below counts = record {
    all_distinct = v.all_distinct;
    pending_distinct = v.pending_distinct;
    round_distinct = v.round_distinct;
    global_distinct = d;
    apart = v.apart;
    listed = λ c. ground (arith, v.listed c);
    pending_alive = λ c i. ground (arith, v.pending_alive c);
    round_alive = λ c i. ground (arith, v.round_alive c);
    has_future = λ c. ground (arith, v.has_future c);
    global_queued = λ c i. ground (arith, v.global_queued c, same c);
    queued_global = λ c a q. ground (arith, v.queued_global c, same c);
    bounded = λ c h. ground (arith, v.bounded c h);
    counted = λ c. ground (arith, v.counted c, same c);
    unborn = v.unborn;
  }

  gone_pending : (c : ℕ) → has c (erase t s.local_pending) ≡ (has c s.local_pending && not (t == c))
  gone_pending c = has-erase t c s.local_pending v.pending_distinct

  gone_round : (c : ℕ) → has c (erase t s.poll_list) ≡ (has c s.poll_list && not (t == c))
  gone_round c = has-erase t c s.poll_list v.round_distinct

  -- `local_clear` of a live task keeps the pool well formed.
  pub clear-IsPool : (s.tasks t).alive ≡ true → IsPool (local_clear t s)
  unfolding local_clear
  clear-IsPool a = record {
    all_distinct = IsDistinct-erase t s.local_all v.all_distinct;
    pending_distinct = IsDistinct-erase t s.local_pending v.pending_distinct;
    round_distinct = IsDistinct-erase t s.poll_list v.round_distinct;
    global_distinct = v.global_distinct;
    apart = λ c i. ground (arith, v.apart c, gone_pending c, gone_round c);
    listed = λ c. ground (arith, v.listed c, has-erase t c s.local_all v.all_distinct);
    pending_alive = λ c i. ground (arith, v.pending_alive c, gone_pending c);
    round_alive = λ c i. ground (arith, v.round_alive c, gone_round c);
    has_future = λ c. ground (arith, v.has_future c);
    global_queued = λ c i. ground (arith, v.global_queued c);
    queued_global = λ c a q. ground (arith, v.queued_global c);
    bounded = λ c h. ground (arith, v.bounded c h);
    counted =
        λ c. ground (arith, v.counted c, v.listed t, has-erase t c s.local_all v.all_distinct);
    unborn = v.unborn;
  }

  pub future-IsPool : (f : Fut) → (s.tasks t).alive ≡ true → IsPool (set_future t f s)
  future-IsPool f a = record {
    all_distinct = v.all_distinct;
    pending_distinct = v.pending_distinct;
    round_distinct = v.round_distinct;
    global_distinct = v.global_distinct;
    apart = v.apart;
    listed = λ c. ground (arith, v.listed c);
    pending_alive = λ c i. ground (arith, v.pending_alive c);
    round_alive = λ c i. ground (arith, v.round_alive c);
    has_future = λ c. ground (arith, v.has_future c);
    global_queued = λ c i. ground (arith, v.global_queued c);
    queued_global = λ c a q. ground (arith, v.queued_global c);
    bounded = λ c h. ground (arith, v.bounded c h);
    counted = v.counted;
    unborn = v.unborn;
  }

-- A task that has just been allocated, on no list but that of all tasks.
abbrev pub with_fresh : {Cell Fut : Type 0} → Fut → TaskList Cell Fut → TaskList Cell Fut
with_fresh f s = record s {
  fresh = suc s.fresh;
  tasks = update s.tasks s.fresh (record { queued = false; alive = true; future = some f });
  local_all = snoc s.local_all s.fresh;
  refs = update s.refs s.fresh 1;
}

module _ {Cell Fut : Type 0} (s : TaskList Cell Fut) (v : IsPool s) where
  fresh_out : (s.fresh ∉ s.local_all) × (s.fresh ∉ s.global_pending)
  fresh_out = ground (arith, v.bounded s.fresh, v.listed s.fresh, v.global_queued s.fresh)

  pub fresh-IsPool : (f : Fut) → IsPool (with_fresh f s)
  fresh-IsPool f = record {
    all_distinct = IsDistinct-snoc s.local_all s.fresh v.all_distinct fresh_out.0;
    pending_distinct = v.pending_distinct;
    round_distinct = v.round_distinct;
    global_distinct = v.global_distinct;
    apart = v.apart;
    listed = λ c. ground (arith, v.listed c, has-append c s.local_all (s.fresh ∷ []));
    pending_alive = λ c i. ground (arith, v.pending_alive c);
    round_alive = λ c i. ground (arith, v.round_alive c);
    has_future = λ c. ground (arith, v.has_future c);
    global_queued = λ c i. ground (arith, v.global_queued c, fresh_out);
    queued_global = λ c a q. ground (arith, v.queued_global c);
    bounded = λ c h. ground (arith, v.bounded c);
    counted = λ c.
        ground (arith, v.counted c, v.unborn c, fresh_out, has-append c s.local_all (s.fresh ∷ []));
    unborn = λ c h. ground (arith, v.unborn c);
  }

  -- A waker is cloned, or dropped.
  pub wakers-IsPool :
      (t r n : ℕ)
      → t < s.fresh
      → r + s.wakers t ≡ s.refs t + n
      → IsPool (record s { refs = update s.refs t r; wakers = update s.wakers t n })
  wakers-IsPool t r n below e = record {
    all_distinct = v.all_distinct;
    pending_distinct = v.pending_distinct;
    round_distinct = v.round_distinct;
    global_distinct = v.global_distinct;
    apart = v.apart;
    listed = v.listed;
    pending_alive = v.pending_alive;
    round_alive = v.round_alive;
    has_future = v.has_future;
    global_queued = v.global_queued;
    queued_global = v.queued_global;
    bounded = v.bounded;
    counted = λ c. ground (arith, v.counted c);
    unborn = λ c h. ground (arith, v.unborn c);
  }

  pub requeue-IsPool : (t : ℕ) → (s.tasks t).queued ≡ true → IsPool (set_queued t true s)
  requeue-IsPool t e =
      let same : s.tasks t ≡ record (s.tasks t) { queued = true } = ground arith in
      subst (λ f. IsPool (record s { tasks = f })) (sym (update_self s.tasks t _ same)) v

module _ {Cell Fut : Type 0} (aw : AtomicWaker Cell) (s : TaskList Cell Fut) (v : IsPool s) where
  pub wake-IsPool : IsPool (wake aw s)
  unfolding wake
  wake-IsPool = aside-IsPool s v _ _ s.polled

module _ {Cell : Type 0} (aw : AtomicWaker Cell) where
  -- A new pool is well formed.
  pub new-IsPool : (Fut : Type 0) → IsPool {Cell = Cell} {Fut = Fut} (new aw)
  unfolding new
  new-IsPool Fut = record {
    all_distinct = tt;
    pending_distinct = tt;
    round_distinct = tt;
    global_distinct = tt;
    apart = λ t i. cc;
    listed = λ t. refl;
    pending_alive = λ t i. cc;
    round_alive = λ t i. cc;
    has_future = λ t. refl;
    global_queued = λ t i. cc;
    queued_global = λ t a q. cc;
    bounded = λ t b. (refl, refl);
    counted = λ t. refl;
    unborn = λ t b. refl;
  }
