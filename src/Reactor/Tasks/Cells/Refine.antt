-- ===== src/Reactor/Tasks/Cells/Refine.antt =====
-- The cells of `Tasks` of fumio-reactor/src/reactor/task.rs, after any sequence of calls, stand for what
-- the lists are after it.
use rust_fumio.Prelude.{
  ℕ, ◌<◌, ◌≡◌, ◌≢◌, refl, ap, sym, subst, ◌∙◌, false, List, [], ◌∷◌, ◌++◌, none, some, ◌==◌, ◌∉◌,
  snoc, length, arith, has-append, Bool-cases, inl, inr,
}
use rust_fumio.Mpsc.{new, push, start_pop}
use rust_fumio.Mpsc.Rounds.{Holds}
use rust_fumio.Mpsc.Drain.{new-IsQueue}
use rust_fumio.Mpsc.Refine.{push-IsFifo, push-stub}
use rust_fumio.DlList.{null}
use rust_fumio.Reactor.Tasks.{
  state_deregistered, release, add_task, deregister_task, cleanup_tasks, cleanup_all,
}
use rust_fumio.Reactor.Tasks.Laws.{IsTasks, held, add_task-IsTasks, deregister_task-IsTasks}
use rust_fumio.Reactor.Tasks.Cleanup.{cleanup_tasks-Cleaned}
use rust_fumio.Reactor.Tasks.Cells.{
  Cells, cells_new, cells_add_task, cells_deregister_task, cells_cleanup_tasks,
}
use rust_fumio.Reactor.Tasks.Cells.Cleanup.{seen}
use rust_fumio.Reactor.Tasks.Cells.Loop.{At, IsNamed, loop-all}
use rust_fumio.Reactor.Tasks.Cells.Ops.{
  Op, cloning, dropping, adding, deregistering, cleaning, retained, tasks_step, cells_op, tasks_run,
  cells_run, IsAllowed, IsLegal, Stands, Refines,
}

module _ (head stub : ℕ) (c : Cells) (ys xs : List ℕ) (v : Stands head stub c ys xs) where
  -- Writes to the words and counts of the tasks.
  fields-Refines :
      (state refs : ℕ → ℕ)
      → IsTasks (record { list = ys; local_list = xs; state = state; refs = refs })
      → Refines head stub
          (some (record { list = ys; local_list = xs; state = state; refs = refs }))
          (some (record c { state = state; refs = refs }))
  fields-Refines state refs agree = record {
    after = record c { state = state; refs = refs };
    result = refl;
    queued = ys;
    on_ring = xs;
    same = refl;
    stands = record {
      same_head = v.same_head;
      same_stub = v.same_stub;
      queue = v.queue;
      links = v.links;
      named = v.named;
      agree = agree;
    };
  }

  -- A task that was not queued goes to the end of the queue.
  pushed-Refines :
      (t : ℕ) (state : ℕ → ℕ)
      → ((t ≢ null) × (t ≢ head) × (t ≢ stub))
      → t ∉ ys
      → IsTasks (record { list = snoc ys t; local_list = xs; state = state; refs = c.refs })
      → Refines head stub
          (some (record { list = snoc ys t; local_list = xs; state = state; refs = c.refs }))
          (some (record c { state = state; queue = push t c.queue }))
  pushed-Refines t state n o agree = record {
    after = record c { state = state; queue = push t c.queue };
    result = refl;
    queued = snoc ys t;
    on_ring = xs;
    same = refl;
    stands = record {
      same_head = v.same_head;
      same_stub = push-stub t c.queue ∙ v.same_stub;
      queue =
          push-IsFifo c.queue ys t v.queue n.0
            (subst (λ x. (t == x) ≡ false) (sym v.same_stub) (ground (arith, n.2))) o;
      links = v.links;
      named = λ q i. ground (arith, has-append q ys (t ∷ []), v.named q, n.0, n.1);
      agree = agree;
    };
  }

  add_task-Refines :
      (t : ℕ)
      → ((t ≢ null) × (t ≢ head) × (t ≢ stub))
      → held t (seen c ys xs) < c.refs t
      → Refines head stub (some (add_task t (seen c ys xs))) (some (cells_add_task t c))
  unfolding add_task cells_add_task
  add_task-Refines t n mine =
      let agree = add_task-IsTasks (seen c ys xs) v.agree t mine in
      elim (Bool-cases (c.state t == 0)) [
        | inl e ↦
            rw e (
              pushed-Refines t _ n (ground (arith, e, v.agree.queued t))
                (rw (e, add_task) at agree))
        | inr e ↦ rw e (fields-Refines _ _ (rw (e, add_task) at agree))
      ]

  deregister_task-Refines :
      (t : ℕ)
      → ((t ≢ null) × (t ≢ head) × (t ≢ stub))
      → held t (seen c ys xs) < c.refs t
      → c.state t ≢ state_deregistered
      → Refines head stub
          (some (deregister_task t (seen c ys xs)))
          (some (cells_deregister_task t c))
  unfolding deregister_task cells_deregister_task
  deregister_task-Refines t n mine known =
      let agree = deregister_task-IsTasks (seen c ys xs) v.agree t mine known in
      elim (Bool-cases (c.state t == 0)) [
        | inl e ↦ rw e (
            pushed-Refines t _ n (ground (arith, e, v.agree.queued t))
              (rw (e, deregister_task) at agree))
        | inr e ↦ rw e (fields-Refines _ _ (rw (e, deregister_task) at agree))
      ]

  cloned-IsTasks : (t : ℕ) → IsTasks (retained t (seen c ys xs))
  cloned-IsTasks t = record {
    list_distinct = v.agree.list_distinct;
    local_distinct = v.agree.local_distinct;
    small = v.agree.small;
    queued = v.agree.queued;
    owned = λ q. ground (arith, v.agree.owned q);
  }

  dropped-IsTasks : (t : ℕ) → held t (seen c ys xs) < c.refs t → IsTasks (release t (seen c ys xs))
  dropped-IsTasks t mine = record {
    list_distinct = v.agree.list_distinct;
    local_distinct = v.agree.local_distinct;
    small = v.agree.small;
    queued = v.agree.queued;
    owned = λ q. ground (arith, v.agree.owned q);
  }

  cleanup-Refines :
      (fuel : ℕ)
      → length ys < fuel
      → Refines head stub (cleanup_tasks (seen c ys xs)) (cells_cleanup_tasks fuel c)
  unfolding cleanup_tasks cells_cleanup_tasks start_pop
  cleanup-Refines fuel enough =
      let f = v.queue in
      let k = cleanup_tasks-Cleaned (seen c ys xs) v.agree in
      let a : At head stub c (start_pop c.queue) (f.front ++ stub ∷ f.back) xs = record {
        same_head = v.same_head;
        same_stub = v.same_stub;
        holds = subst (λ x. Holds c.queue c.queue.head (f.front ++ x ∷ f.back)) v.same_stub f.holds;
        links = v.links;
      } in
      let w =
        loop-all head stub fuel c (start_pop c.queue) f.front f.back xs k.after a refl
          (subst (λ l. length l < fuel) (sym f.queued) enough)
          (subst (IsNamed head) (sym f.queued) v.named)
          (ap (λ l. cleanup_all l (some (seen c [] xs))) f.queued ∙ k.result) in
      record {
        after = w.after;
        result = w.result;
        queued = [];
        on_ring = w.on_ring;
        same = k.result ∙ ap (λ z. some z) (sym w.stands);
        stands = record {
          same_head = w.same_head;
          same_stub = w.same_stub;
          queue = record {
            front = [];
            back = [];
            holds =
                subst (λ x. Holds w.after.queue w.after.queue.head (x ∷ [])) (sym w.same_stub)
                  w.empty;
            queued = refl;
          };
          links = w.links;
          named = λ q i. absurd (cc);
          agree = subst IsTasks (sym w.stands) k.agree;
        };
      }

  op-Refines :
      (op : Op)
      → IsAllowed head stub op (seen c ys xs)
      → Refines head stub (tasks_step op (seen c ys xs)) (cells_op op c)
  unfolding tasks_step cells_op
  op-Refines (cloning t) h = fields-Refines _ _ (cloned-IsTasks t)
  op-Refines (dropping t) h = fields-Refines _ _ (dropped-IsTasks t h)
  op-Refines (adding t) h = add_task-Refines t h.0 h.1
  op-Refines (deregistering t) h = deregister_task-Refines t h.0 h.1 h.2
  op-Refines (cleaning fuel) h = cleanup-Refines fuel h

-- The cells of the reactor's tasks, the queue of links and the ring of nodes, do what two lists of tasks
-- do, for any sequence of calls of `add_task`, `deregister_task` and `cleanup_tasks`, and of clones
-- and drops of references between them, if who passes a task or drops it owns a reference to it, tasks
-- have addresses of their own, none is deregistered again after its cleanup, and each loop has fuel
-- for a round more than there are queued tasks: no assertion fails, no null pointer is read, no loop
-- runs out of fuel, and the cells stand for the lists afterwards.
pub cells_run-Refines :
    (head stub : ℕ) (ops : List Op) (c : Cells) (ys xs : List ℕ)
    → Stands head stub c ys xs
    → IsLegal head stub ops (seen c ys xs)
    → Refines head stub (tasks_run ops (seen c ys xs)) (cells_run ops c)
unfolding tasks_run cells_run
cells_run-Refines head stub [] c ys xs v legal = record {
  after = c;
  result = refl;
  queued = ys;
  on_ring = xs;
  same = refl;
  stands = v;
}
cells_run-Refines head stub (op ∷ ops) c ys xs v legal =
    let r = op-Refines head stub c ys xs v op legal.0 in
    let rest =
      cells_run-Refines head stub ops r.after r.queued r.on_ring r.stands
        (subst (λ o. elim o [ none ↦ Unit | some s' ↦ IsLegal head stub ops s' ]) r.same legal.1) in
    rw (r.same, r.result) rest

-- New cells stand for two empty lists.
pub new-Stands :
    (head stub : ℕ) (refs : ℕ → ℕ)
    → head ≢ null
    → stub ≢ null
    → Stands head stub (cells_new head stub refs) [] []
unfolding cells_new new
new-Stands head stub refs h s = record {
  same_head = refl;
  same_stub = refl;
  queue = record { front = []; back = []; holds = (refl, new-IsQueue stub s); queued = refl };
  links = record { list = inr (refl, (h, refl, refl)); others = λ c ne o. (ne, refl) };
  named = λ t i. absurd (cc);
  agree = record {
    list_distinct = tt;
    local_distinct = tt;
    small = λ t. omega arith;
    queued = λ t. refl;
    owned = λ t. omega arith;
  };
}
