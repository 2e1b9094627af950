-- ===== src/Pool/Global/Stub.antt =====
-- Where the stub of the queue is, while threads notify and the pool fetches.
use rust_fumio.Prelude.{
  ℕ, ◌≡◌, ◌≢◌, ◌==◌, Bool, true, false, not, update, List, [], ◌∷◌, snoc, has, has-append,
  IsDistinct, arith,
}
use rust_fumio.Mpsc.{null}
use rust_fumio.Pool.Global.{Stage, fetching, popped, popped_stub, swapped_stub}

abbrev pub restores : Stage → ℕ → Bool
restores (swapped_stub q b) p = q == p
restores _ p = false

abbrev pub lacks_stub : Stage → Bool
lacks_stub (popped_stub b) = true
lacks_stub _ = false

-- The stub is queued unless the pool's thread has it, which alone stores it.
pub record HasStub (stub : ℕ) (flight : ℕ → ℕ) (stage : Stage) (l : List ℕ) : Type 0 where
  pub queued_stub : has stub l ≡ not (lacks_stub stage)
  pub stores_stub : (p : ℕ) → flight p ≡ stub → restores stage p ≡ true
  pub stored_stub : (p : ℕ) → restores stage p ≡ true → flight p ≡ stub

module _ (stub : ℕ) (real : stub ≢ null) (flight : ℕ → ℕ) (stage : Stage) (pos : ℕ) (xs : List ℕ)
    (v : HasStub stub flight stage (pos ∷ xs)) where
  pub swap-HasStub :
      (t n : ℕ)
      → n ≢ stub
      → flight t ≡ null
      → HasStub stub (update flight t n) stage (pos ∷ snoc xs n)
  swap-HasStub t n ne f = record {
    queued_stub = ground (arith, v.queued_stub, has-append stub xs (n ∷ []));
    stores_stub = λ c h. ground (arith, v.stores_stub c);
    stored_stub = λ c h. ground (arith, v.stored_stub c h);
  }

  pub store-HasStub :
      (p : ℕ) → flight p ≢ stub → HasStub stub (update flight p null) stage (pos ∷ xs)
  store-HasStub p ne = record {
    queued_stub = v.queued_stub;
    stores_stub = λ c h. ground (arith, v.stores_stub c);
    stored_stub = λ c h. ground (arith, v.stored_stub c h);
  }

  -- Between the stages in which the stub is queued.
  pub stage-HasStub :
      (stage' : Stage)
      → lacks_stub stage ≡ lacks_stub stage'
      → ((p : ℕ) → restores stage p ≡ restores stage' p)
      → HasStub stub flight stage' (pos ∷ xs)
  stage-HasStub stage' e f = record {
    queued_stub = ground (arith, v.queued_stub);
    stores_stub = λ c h. ground (arith, v.stores_stub c h, f c);
    stored_stub = λ c h. ground (arith, v.stored_stub c, f c);
  }

  pub pop-HasStub : stage ≡ fetching → pos ≢ stub → HasStub stub flight (popped pos) xs
  pop-HasStub e ne = record {
    queued_stub = ground (arith, v.queued_stub, e);
    stores_stub = λ c h. ground (arith, v.stores_stub c h, e);
    stored_stub = λ c h. absurd (cc);
  }

  pub pop_stub-HasStub :
      (b : Bool)
      → stage ≡ fetching
      → IsDistinct (pos ∷ xs)
      → pos ≡ stub
      → HasStub stub flight (popped_stub b) xs
  pop_stub-HasStub b e d p = record {
    queued_stub = ground (arith, d.0);
    stores_stub = λ c h. ground (arith, v.stores_stub c h, e);
    stored_stub = λ c h. absurd (cc);
  }

  pub swap_stub-HasStub :
      (t : ℕ) (b : Bool)
      → stage ≡ popped_stub b
      → HasStub stub (update flight t stub) (swapped_stub t b) (pos ∷ snoc xs stub)
  swap_stub-HasStub t b e = record {
    queued_stub = ground (arith, has-append stub xs (stub ∷ []));
    stores_stub = λ c h. ground (arith, v.stores_stub c, e);
    stored_stub = λ c h. ground arith;
  }

  pub store_stub-HasStub :
      (p : ℕ) (b : Bool) (stage' : Stage)
      → stage ≡ swapped_stub p b
      → lacks_stub stage' ≡ false
      → ((c : ℕ) → restores stage' c ≡ false)
      → HasStub stub (update flight p null) stage' (pos ∷ xs)
  store_stub-HasStub p b stage' e f g = record {
    queued_stub = ground (arith, v.queued_stub, e);
    stores_stub = λ c h. ground (arith, v.stores_stub c, e);
    stored_stub = λ c h. ground (arith, g c);
  }
