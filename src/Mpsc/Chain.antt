-- ===== src/Mpsc/Chain.antt =====
-- What the cells of the queue stand for: a chain of links from the popping position to the tail,
-- where the store of a push may still be outstanding.
use rust_fumio.Prelude.{
  ℕ, ◌≡◌, refl, ◌≢◌, ◌⊎◌, List, [], ◌∷◌, arith, ◌∈◌, ◌∉◌, has-append, IsDistinct, IsDistinct-append,
  snoc, update,
}
use rust_fumio.Mpsc.{null}

-- `flight a` is the link that a thread is about to store in the `next` cell of `a`.
abbrev pub Joined : (ℕ → ℕ) → (ℕ → ℕ) → ℕ → ℕ → Type 0
Joined next flight a b = ((next a ≡ b) × (flight a ≡ null)) ⊎ ((next a ≡ null) × (flight a ≡ b))

abbrev pub Chain : (ℕ → ℕ) → (ℕ → ℕ) → ℕ → List ℕ → ℕ → Type 0
Chain next flight a [] tail = (a ≡ tail) × (next a ≡ null) × (flight a ≡ null)
Chain next flight a (b ∷ bs) tail = Joined next flight a b × Chain next flight b bs tail

-- The links that are queued, from the popping position on. No other link has anything in its cell.
pub record IsQueue (next flight : ℕ → ℕ) (pos : ℕ) (xs : List ℕ) (tail : ℕ) : Type 0 where
  pub chain : Chain next flight pos xs tail
  pub distinct : IsDistinct (pos ∷ xs)
  pub real : null ∉ (pos ∷ xs)
  pub clear : (c : ℕ) → c ∉ (pos ∷ xs) → (next c ≡ null) × (flight c ≡ null)

module _ (next flight : ℕ → ℕ) where
  pub tail-mem : (a : ℕ) (xs : List ℕ) (t : ℕ) → Chain next flight a xs t → t ∈ (a ∷ xs)
  tail-mem a [] t c = ground arith
  tail-mem a (x ∷ xs) t c = ground (arith, tail-mem x xs t c.1)

  pub tail-free : (a : ℕ) (xs : List ℕ) (t : ℕ) → Chain next flight a xs t → flight t ≡ null
  tail-free a [] t c = ground arith
  tail-free a (x ∷ xs) t c = tail-free x xs t c.1

  -- A swap of the tail puts the new link at the end, with its store outstanding.
  Chain-snoc :
      (a : ℕ) (xs : List ℕ) (t n : ℕ)
      → Chain next flight a xs t
      → IsDistinct (a ∷ xs)
      → n ∉ (a ∷ xs)
      → next n ≡ null
      → flight n ≡ null
      → Chain next (update flight t n) a (snoc xs n) n
  Chain-snoc a [] t n c d out e f = ground arith
  Chain-snoc a (x ∷ xs) t n c d out e f =
      let last = tail-mem x xs t c.1 in
      (ground arith, Chain-snoc x xs t n c.1 d.1 (ground arith) e f)

  -- The outstanding store behind `p` completes the link that the chain has there.
  Chain-store :
      (a : ℕ) (xs : List ℕ) (t p : ℕ)
      → Chain next flight a xs t
      → flight p ≢ null
      → Chain (update next p (flight p)) (update flight p null) a xs t
  Chain-store a [] t p c ne = ground arith
  Chain-store a (x ∷ xs) t p c ne = (ground arith, Chain-store x xs t p c.1 ne)

  -- A chain does not read the cell of another link.
  Chain-frame :
      (a : ℕ) (xs : List ℕ) (t p v : ℕ)
      → Chain next flight a xs t
      → p ∉ (a ∷ xs)
      → Chain (update next p v) flight a xs t
  Chain-frame a [] t p v c out = ground arith
  Chain-frame a (x ∷ xs) t p v c out = (ground arith, Chain-frame x xs t p v c.1 (ground arith))

  pub IsQueue-swap :
      (pos : ℕ) (xs : List ℕ) (t n : ℕ)
      → IsQueue next flight pos xs t
      → n ≢ null
      → n ∉ (pos ∷ xs)
      → IsQueue next (update flight t n) pos (snoc xs n) n
  IsQueue-swap pos xs t n q ne out = record {
    chain = Chain-snoc pos xs t n q.chain q.distinct out (q.clear n out).0 (q.clear n out).1;
    distinct = IsDistinct-append (pos ∷ xs) (n ∷ []) q.distinct (refl, tt) (λ a i. ground arith);
    real = ground (arith, q.real, has-append null xs (n ∷ []));
    clear = λ c o. ground (arith, q.clear c, has-append c xs (n ∷ []), tail-mem pos xs t q.chain);
  }

  pub IsQueue-store :
      (pos : ℕ) (xs : List ℕ) (t p : ℕ)
      → IsQueue next flight pos xs t
      → flight p ≢ null
      → IsQueue (update next p (flight p)) (update flight p null) pos xs t
  IsQueue-store pos xs t p q ne = record {
    chain = Chain-store pos xs t p q.chain ne;
    distinct = q.distinct;
    real = q.real;
    clear = λ c o. ground (arith, q.clear c);
  }

  pub IsQueue-take :
      (pos x : ℕ) (xs : List ℕ) (t : ℕ)
      → IsQueue next flight pos (x ∷ xs) t
      → next pos ≢ null
      → (next pos ≡ x) × IsQueue (update next pos null) flight x xs t
  IsQueue-take pos x xs t q ne = (
    ground (arith, q.chain),
    record {
      chain = Chain-frame x xs t pos null q.chain.1 q.distinct.0;
      distinct = q.distinct.1;
      real = ground (arith, q.real);
      clear = λ c o. ground (arith, q.clear c, q.chain);
    },
  )
