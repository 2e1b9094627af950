-- ===== src/Pool/Global/Examples.antt =====
-- Two threads notify a task before the first fetch: the first has marked it and not yet pushed it when
-- the fetch ends.
use rust_fumio.Prelude.{ℕ, ◌≡◌, refl, ◌⊎◌, inl, Bool, true, List, ◌∷◌, ◌||◌, has, arith}
use rust_fumio.AtomicWaker.{one_shot}
use rust_fumio.Mpsc.{new, start_pop, swap_next, store_next}
use rust_fumio.Mpsc.Chain.{IsQueue}
use rust_fumio.Pool.Global.{
  World, init, mark, begin, marks, is_marked, begins, misses, Reach, start, later, fetched,
}
use rust_fumio.Pool.Global.Kept.{holds}
use rust_fumio.Pool.Global.Heard.{Busy}
use rust_fumio.Pool.Global.Safety.{no_lost_task}

abbrev begun : World Bool
begun = begin one_shot (mark 5 (init one_shot 1))

abbrev missed : World Bool
missed = record begun { queue = (swap_next begun.iter begun.queue).1; stage = fetched }

missed-Reach : Reach one_shot 1 missed
unfolding init new start_pop swap_next store_next
missed-Reach =
    later
      (later (later (later start (marks 5 (ground arith) (ground arith) refl)) (is_marked 5 refl))
        (begins (inl refl)))
      (misses refl refl)

missed-queued : missed.queued 5 ≡ true
unfolding init
missed-queued = refl

missed-alive : missed.alive 5 ≡ true
unfolding init
missed-alive = refl

no_lost_task_example :
    (missed.stage ≡ fetched → (missed.called ≡ true) ⊎ Busy 1 missed)
    × ((rest : List ℕ) × IsQueue missed.queue.next missed.flight missed.iter.pos rest
          missed.queue.tail
        × ((has 5 (missed.iter.pos ∷ rest) || (missed.marked 5 || holds missed.stage 5)) ≡ true))
no_lost_task_example =
    no_lost_task one_shot 1 (ground arith) missed 5 missed-Reach missed-queued missed-alive
