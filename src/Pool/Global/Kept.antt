-- ===== src/Pool/Global/Kept.antt =====
-- The marks of the tasks against the queue, while threads notify and the pool fetches.
use rust_fumio.Prelude.{
  ℕ, ◌≡◌, ◌≢◌, ◌==◌, Bool, true, false, ◌||◌, update, List, [], ◌∷◌, snoc, has, has-append,
  IsDistinct, arith,
}
use rust_fumio.Mpsc.{null}
use rust_fumio.Pool.Global.{Stage, fetching, popped, popped_stub, swapped_stub}

abbrev pub holds : Stage → ℕ → Bool
holds (popped m) n = m == n
holds _ n = false

-- A live task is marked while it is queued, about to be pushed, or just popped, and in one place only.
pub record IsMarked (stub : ℕ) (queued marked alive : ℕ → Bool) (stage : Stage) (l : List ℕ)
    : Type 0 where
  pub plain_stub : queued stub ≡ false
  pub on_queue : (n : ℕ) → has n l ≡ true → n ≢ stub → (queued n ≡ true) × (marked n ≡ false)
  pub where_queued :
      (n : ℕ) → queued n ≡ true → alive n ≡ true → (has n l || (marked n || holds stage n)) ≡ true
  pub before_push : (n : ℕ) → marked n ≡ true → (n ≢ null) × (n ≢ stub) × (queued n ≡ true)
  pub after_pop :
      (n : ℕ)
      → holds stage n ≡ true
      → (queued n ≡ true) × (marked n ≡ false) × (has n l ≡ false) × (n ≢ stub)

module _ (stub : ℕ) (queued marked alive : ℕ → Bool) (stage : Stage) (l : List ℕ)
    (v : IsMarked stub queued marked alive stage l) where
  pub mark-IsMarked :
      (n : ℕ)
      → n ≢ null
      → n ≢ stub
      → queued n ≡ false
      → IsMarked stub (update queued n true) (update marked n true) alive stage l
  mark-IsMarked n ne ns q = record {
    plain_stub = ground (arith, v.plain_stub);
    on_queue = λ c i s. ground (arith, v.on_queue c i s);
    where_queued = λ c h a. ground (arith, v.where_queued c);
    before_push = λ c h. ground (arith, v.before_push c);
    after_pop = λ c h. ground (arith, v.after_pop c h);
  }

  -- A task that is cleared counts as marked wherever it is.
  pub clear-IsMarked :
      (n : ℕ)
      → n ≢ stub
      → IsMarked stub (update queued n true) marked (update alive n false) stage l
  clear-IsMarked n ns = record {
    plain_stub = ground (arith, v.plain_stub);
    on_queue = λ c i s. ground (arith, v.on_queue c i s);
    where_queued = λ c h a. ground (arith, v.where_queued c);
    before_push = λ c h. ground (arith, v.before_push c h);
    after_pop = λ c h. ground (arith, v.after_pop c h);
  }

  pub swap-IsMarked :
      (pos : ℕ) (xs : List ℕ)
      → l ≡ pos ∷ xs
      → (n : ℕ) → marked n ≡ true
      → IsMarked stub queued (update marked n false) alive stage (pos ∷ snoc xs n)
  swap-IsMarked pos xs e n m = record {
    plain_stub = v.plain_stub;
    on_queue =
        λ c i s. ground (arith, v.on_queue c, v.before_push n m, has-append c xs (n ∷ []), e);
    where_queued = λ c h a. ground (arith, v.where_queued c h a, has-append c xs (n ∷ []), e);
    before_push = λ c h. ground (arith, v.before_push c);
    after_pop = λ c h. ground (arith, v.after_pop c h, has-append c xs (n ∷ []), e);
  }

  pub unmark-IsMarked :
      (n : ℕ) → stage ≡ popped n → IsMarked stub (update queued n false) marked alive fetching l
  unmark-IsMarked n e =
      let out = v.after_pop n (rw e (ground arith)) in
      record {
        plain_stub = ground (arith, v.plain_stub);
        on_queue = λ c i s. ground (arith, v.on_queue c i s, out);
        where_queued = λ c h a. ground (arith, v.where_queued c, e);
        before_push = λ c h. ground (arith, v.before_push c h, out);
        after_pop = λ c h. absurd (cc);
      }

  -- Between the stages in which the pool's thread has no task.
  pub stage-IsMarked :
      (stage' : Stage)
      → ((n : ℕ) → holds stage n ≡ false)
      → ((n : ℕ) → holds stage' n ≡ false)
      → IsMarked stub queued marked alive stage' l
  stage-IsMarked stage' none' none'' = record {
    plain_stub = v.plain_stub;
    on_queue = v.on_queue;
    where_queued = λ c h a. ground (arith, v.where_queued c h a, none' c);
    before_push = v.before_push;
    after_pop = λ c h. ground (arith, none'' c);
  }

module _ (stub : ℕ) (queued marked alive : ℕ → Bool) (stage : Stage) (pos : ℕ) (xs : List ℕ)
    (v : IsMarked stub queued marked alive stage (pos ∷ xs))
    (none' : (n : ℕ) → holds stage n ≡ false) where
  -- A task leaves the queue for the pool's thread.
  pub pop-IsMarked :
      IsDistinct (pos ∷ xs) → pos ≢ stub → IsMarked stub queued marked alive (popped pos) xs
  pop-IsMarked d ne = record {
    plain_stub = v.plain_stub;
    on_queue = λ c i s. ground (arith, v.on_queue c);
    where_queued = λ c h a. ground (arith, v.where_queued c h a, none' c);
    before_push = v.before_push;
    after_pop = λ c h. ground (arith, v.on_queue c, d.0);
  }

  pub pop_stub-IsMarked :
      (b : Bool) → pos ≡ stub → IsMarked stub queued marked alive (popped_stub b) xs
  pop_stub-IsMarked b e = record {
    plain_stub = v.plain_stub;
    on_queue = λ c i s. ground (arith, v.on_queue c);
    where_queued = λ c h a. ground (arith, v.where_queued c h a, none' c, v.plain_stub);
    before_push = v.before_push;
    after_pop = λ c h. absurd (cc);
  }

  pub swap_stub-IsMarked :
      (p : ℕ) (b : Bool) → IsMarked stub queued marked alive (swapped_stub p b) (pos ∷ snoc xs stub)
  swap_stub-IsMarked p b = record {
    plain_stub = v.plain_stub;
    on_queue = λ c i s. ground (arith, v.on_queue c, has-append c xs (stub ∷ []));
    where_queued =
        λ c h a. ground (arith, v.where_queued c h a, none' c, has-append c xs (stub ∷ []));
    before_push = v.before_push;
    after_pop = λ c h. absurd (cc);
  }
