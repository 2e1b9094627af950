-- ===== src/Reactor/Tasks/Cells/Loop.antt =====
-- The loop of `cleanup_tasks` over the queue of cells: it takes the tasks that are queued, in order.
use rust_fumio.Prelude.{
  ℕ, zero, suc, ◌<◌, ◌≡◌, ◌≢◌, refl, ap, sym, subst, ◌∙◌, Bool, true, false, List, [], ◌∷◌, ◌++◌,
  Option, none, some, ◌∈◌, snoc, length, arith, Option-cases, inl, inr,
}
use rust_fumio.Mpsc.{Head, PopAll, end_pop, next_item}
use rust_fumio.Mpsc.Rounds.{Holds, round_last, Popped, pop-Holds, append_cons-ne, head-other}
use rust_fumio.Mpsc.Drain.{repush-Holds}
use rust_fumio.DlList.{null}
use rust_fumio.DlList.Deque.{IsDeque}
use rust_fumio.Reactor.Tasks.{Tasks, cleanup_one, cleanup_all}
use rust_fumio.Reactor.Tasks.Cells.{Cells, cells_step, cells_loop}
use rust_fumio.Reactor.Tasks.Cells.Cleanup.{seen, some-same, cleanup_one-Moved}

-- The cells in the loop: the iterator has the links `qs` before it, and `xs` are on the ring.
pub record At (head stub : ℕ) (c : Cells) (it : PopAll) (qs xs : List ℕ) : Type 0 where
  pub same_head : c.local_head ≡ head
  pub same_stub : c.queue.stub ≡ stub
  pub holds : Holds c.queue it.pos qs
  pub links : IsDeque c.links head xs

-- Tasks have addresses of their own.
abbrev pub IsNamed : ℕ → List ℕ → Type 0
IsNamed head qs = (t : ℕ) → t ∈ qs → (t ≢ null) × (t ≢ head)

-- The end of the loop: the cells stand for `s`, with nothing but the stub in the queue.
pub record Swept (head stub : ℕ) (s : Tasks) (r : Option Cells) : Type 0 where
  pub after : Cells
  pub result : r ≡ some after
  pub on_ring : List ℕ
  pub stands : seen after [] on_ring ≡ s
  pub links : IsDeque after.links head on_ring
  pub same_head : after.local_head ≡ head
  pub same_stub : after.queue.stub ≡ stub
  pub empty : Holds after.queue after.queue.head (stub ∷ [])

no_cleanup : (ts : List ℕ) (s : Tasks) → cleanup_all ts none ≡ some s → ⊥
unfolding cleanup_all
no_cleanup ts s e = cc

first_cleanup :
    (t : ℕ) (ts : List ℕ) (s0 s : Tasks)
    → cleanup_all (t ∷ ts) (some s0) ≡ some s
    → (s1 : Tasks) × (cleanup_one t s0 ≡ some s1) × (cleanup_all ts (some s1) ≡ some s)
unfolding cleanup_all
first_cleanup t ts s0 s e = elim (Option-cases (cleanup_one t s0)) [
  | inl n ↦ absurd (no_cleanup ts s (sym (ap (cleanup_all ts) n) ∙ e))
  | inr (s1, o) ↦ (s1, o, sym (ap (cleanup_all ts) o) ∙ e)
]

-- One turn of the loop, at a link that `next` returns.
record Stepped (head stub y : ℕ) (it : PopAll) (c : Cells) (zs : List ℕ) (s : Tasks) (flag : Bool)
    : Type 0 where
  cells : Cells
  next : PopAll
  on_ring : List ℕ
  same_flag : next.repushed_stub ≡ flag
  runs :
      (rest : PopAll → Cells → Option Cells)
      → cells_step rest (next_item 3 it c.queue) c ≡ rest next cells
  at : At head stub cells next zs on_ring
  stands : seen cells [] on_ring ≡ s

turn-Stepped :
    (head stub y : ℕ) (it : PopAll) (c : Cells) (qs zs xs : List ℕ) (s : Tasks) (flag : Bool)
    → At head stub c it qs xs
    → Popped (next_item 3 it c.queue) y zs stub flag
    → (y ≢ null) × (y ≢ head)
    → cleanup_one y (seen c [] xs) ≡ some s
    → Stepped head stub y it c zs s flag
unfolding cells_step
turn-Stepped head stub y it c qs zs xs s flag a p named e =
    let m =
      cleanup_one-Moved (record c { queue = p.queue }) y [] xs s
        (subst (λ l. IsDeque c.links l xs) (sym a.same_head) a.links) named.0
        (subst (λ l. y ≢ l) (sym a.same_head) named.1) e in
    record {
      cells = m.after;
      next = p.it;
      on_ring = m.on_ring;
      same_flag = p.same_flag;
      runs = λ rest. rw (p.result, m.result, cells_step) refl;
      at = record {
        same_head = m.same_head ∙ a.same_head;
        same_stub = ap (λ (q : Head). q.stub) m.same_queue ∙ p.same_stub;
        holds = subst (λ q. Holds q p.it.pos zs) (sym m.same_queue) p.holds;
        links = subst (λ l. IsDeque m.after.links l m.on_ring) a.same_head m.links;
      };
      stands = m.stands;
    }

-- The two ways in which `next` returns a link.
pop-At :
    (head stub : ℕ) (c : Cells) (it : PopAll) (y : ℕ) (ys zs xs : List ℕ)
    → At head stub c it (y ∷ ys ++ stub ∷ zs) xs
    → Popped (next_item 3 it c.queue) y (ys ++ stub ∷ zs) stub it.repushed_stub
pop-At head stub c it y ys zs xs a =
    let holds : Holds c.queue it.pos (y ∷ ys ++ c.queue.stub ∷ zs) =
      subst (λ z. Holds c.queue it.pos (y ∷ ys ++ z ∷ zs)) (sym a.same_stub) a.holds in
    subst (λ z. Popped (next_item 3 it c.queue) y (ys ++ z ∷ zs) z it.repushed_stub) a.same_stub
      (pop-Holds 2 c.queue it y (ys ++ c.queue.stub ∷ zs) holds (append_cons-ne ys c.queue.stub zs)
        (head-other c.queue it.pos y ys zs holds))

repush-At :
    (head stub : ℕ) (c : Cells) (it : PopAll) (z : ℕ) (zs xs : List ℕ)
    → At head stub c it (stub ∷ z ∷ zs) xs
    → it.repushed_stub ≡ false
    → Popped (next_item 3 it c.queue) z (snoc zs stub) stub true
repush-At head stub c it z zs xs a n =
    subst (λ x. Popped (next_item 3 it c.queue) z (snoc zs x) x true) a.same_stub
      (repush-Holds c.queue it z zs
        (subst (λ x. Holds c.queue it.pos (x ∷ z ∷ zs)) (sym a.same_stub) a.holds) n)

loop-items :
    (head stub fuel : ℕ) (c : Cells) (it : PopAll) (qs xs : List ℕ) (s : Tasks)
    → At head stub c it (snoc qs stub) xs
    → length qs < fuel
    → IsNamed head qs
    → cleanup_all qs (some (seen c [] xs)) ≡ some s
    → Swept head stub s (cells_loop fuel it c)
unfolding cells_loop cells_step end_pop cleanup_all
loop-items head stub zero c it qs xs s a f n e = absurd (omega arith)
loop-items head stub (suc fuel) c it [] xs s a f n e =
    rw (round_last c.queue it 2 a.holds.1) (record {
      after = record c { queue = end_pop it c.queue };
      result = refl;
      on_ring = xs;
      stands = some-same e;
      links = a.links;
      same_head = a.same_head;
      same_stub = a.same_stub;
      empty = a.holds;
    })
loop-items head stub (suc fuel) c it (y ∷ qs) xs s a f n e =
    let (s1, one, rest) = first_cleanup y qs (seen c [] xs) s e in
    let p : Popped (next_item 3 it c.queue) y (snoc qs stub) stub it.repushed_stub =
      pop-At head stub c it y qs [] xs a in
    let t =
      turn-Stepped head stub y it c (y ∷ snoc qs stub) (snoc qs stub) xs s1 it.repushed_stub a p
        (n y (ground arith)) one in
    subst (Swept head stub s) (sym (t.runs (cells_loop fuel))) (
      loop-items head stub fuel t.cells t.next qs t.on_ring s t.at (omega arith)
        (λ q i. n q (ground (arith, i))) (ap (λ z. cleanup_all qs (some z)) t.stands ∙ rest))

pub loop-all :
    (head stub fuel : ℕ) (c : Cells) (it : PopAll) (ys zs xs : List ℕ) (s : Tasks)
    → At head stub c it (ys ++ stub ∷ zs) xs
    → it.repushed_stub ≡ false
    → length (ys ++ zs) < fuel
    → IsNamed head (ys ++ zs)
    → cleanup_all (ys ++ zs) (some (seen c [] xs)) ≡ some s
    → Swept head stub s (cells_loop fuel it c)
unfolding cells_loop cleanup_all
loop-all head stub zero c it ys zs xs s a flag f n e = absurd (omega arith)
loop-all head stub (suc fuel) c it [] [] xs s a flag f n e =
    loop-items head stub (suc fuel) c it [] xs s a f n e
loop-all head stub (suc fuel) c it [] (z ∷ zs) xs s a flag f n e =
    let (s1, one, rest) = first_cleanup z zs (seen c [] xs) s e in
    let p = repush-At head stub c it z zs xs a flag in
    let t =
      turn-Stepped head stub z it c (stub ∷ z ∷ zs) (snoc zs stub) xs s1 true a p
        (n z (ground arith)) one in
    subst (Swept head stub s) (sym (t.runs (cells_loop fuel))) (
      loop-items head stub fuel t.cells t.next zs t.on_ring s t.at (omega arith)
        (λ q i. n q (ground (arith, i))) (ap (λ x. cleanup_all zs (some x)) t.stands ∙ rest))
loop-all head stub (suc fuel) c it (y ∷ ys) zs xs s a flag f n e =
    let (s1, one, rest) = first_cleanup y (ys ++ zs) (seen c [] xs) s e in
    let p = pop-At head stub c it y ys zs xs a in
    let t =
      turn-Stepped head stub y it c (y ∷ ys ++ stub ∷ zs) (ys ++ stub ∷ zs) xs s1 it.repushed_stub a
        p (n y (ground arith)) one in
    subst (Swept head stub s) (sym (t.runs (cells_loop fuel))) (
      loop-all head stub fuel t.cells t.next ys zs t.on_ring s t.at (t.same_flag ∙ flag)
        (omega arith) (λ q i. n q (ground (arith, i)))
        (ap (λ x. cleanup_all (ys ++ zs) (some x)) t.stands ∙ rest))
