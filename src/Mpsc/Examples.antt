-- ===== src/Mpsc/Examples.antt =====
-- Runs of the queue at concrete links.
use rust_fumio.Prelude.{ℕ, ◌≡◌, refl, inl, List, [], ◌∷◌, ◌++◌, some, true, update, arith}
use rust_fumio.Mpsc.{
  null, Head, PopAll, new, push, swap_tail, store_next, swap_next, start_pop, pop_all,
  drop_assertion, next_item, item, finished,
}
use rust_fumio.Mpsc.Pass.{Pass, begin, pushed, called, Pass-bounded}
use rust_fumio.Mpsc.Refine.{
  Op, pushing, popping, fifo_run, queue_run, IsFifo, IsLegal, queue_run-refines,
}
use rust_fumio.Mpsc.Chain.{IsQueue}
use rust_fumio.Mpsc.Threads.{World, init, swapped, swap, Reach, start, later}
use rust_fumio.Mpsc.Fifo.{fifo}
use rust_fumio.Mpsc.Rounds.{Holds}
use rust_fumio.Mpsc.Drain.{pop_all-push_all, push_all}

-- Two threads have swapped the tail, and only the second has stored its link.
abbrev two_swaps : World
two_swaps = swapped 9 (swapped 5 (init 1))

two_swaps-Reach : Reach 1 two_swaps
unfolding init new start_pop swap_tail
two_swaps-Reach = later (later start (swap 5 (ground arith) refl)) (swap 9 (ground arith) refl)

fifo_example :
    (rest : List ℕ) × (two_swaps.pushed ≡ two_swaps.popped ++ two_swaps.iter.pos ∷ rest)
    × IsQueue two_swaps.queue.next two_swaps.flight two_swaps.iter.pos rest two_swaps.queue.tail
fifo_example = fifo (ground arith) two_swaps-Reach

pop_all-push_all_example :
    (h : Head) × (pop_all 4 (push_all (5 ∷ 9 ∷ 7 ∷ []) (new 1 (λ _. null)))
      ≡ some (5 ∷ 9 ∷ 7 ∷ [], h))
    × (drop_assertion h ≡ true)
pop_all-push_all_example =
    pop_all-push_all 1 (5 ∷ 9 ∷ 7 ∷ []) (refl, (refl, (refl, (refl, tt)))) refl

-- A queue in which the stub stands between two links.
abbrev stub_between : Head
stub_between = record { tail = 9; head = 5; stub = 1; next = update (update (λ _. null) 5 1) 1 9 }

stub_between-Holds : Holds stub_between 5 (5 ∷ 1 ∷ 9 ∷ [])
stub_between-Holds = (
  refl,
  record {
    chain = (inl (refl, refl), (inl (refl, refl), (refl, refl, refl)));
    distinct = (refl, (refl, (refl, tt)));
    real = ground arith;
    clear = λ c o. ground arith;
  },
)

-- A link is pushed, taken after a loop that ends early, and pushed again.
abbrev operations : List Op
operations = pushing 7 ∷ popping 3 ∷ pushing 7 ∷ pushing 5 ∷ popping 1 ∷ []

stub_between-IsFifo : IsFifo stub_between (5 ∷ 9 ∷ [])
stub_between-IsFifo = record {
  front = 5 ∷ [];
  back = 9 ∷ [];
  holds = stub_between-Holds;
  queued = refl;
}

operations-IsLegal : IsLegal 1 operations (5 ∷ 9 ∷ [])
operations-IsLegal =
    (ground arith, refl, refl, (ground arith, refl, refl, (ground arith, refl, refl, tt)))

queue_run_example :
    (h : Head) × (queue_run operations stub_between
      ≡ some ((fifo_run operations (5 ∷ 9 ∷ [])).0, h))
    × IsFifo h (fifo_run operations (5 ∷ 9 ∷ [])).1
queue_run_example =
    queue_run-refines operations stub_between (5 ∷ 9 ∷ []) stub_between-IsFifo operations-IsLegal

-- An iterator that has pushed the stub again, before the link 5; then 7 is pushed, and 5 returned.
abbrev late_iter : PopAll
late_iter = record { pos = 5; repushed_stub = true }

late_call :
    next_item 2 late_iter (push 7 stub_between)
    ≡ item 5 (record { pos = 1; repushed_stub = true }) (store_next 5 null (push 7 stub_between))
unfolding next_item push swap_next
late_call = refl

late-Pass :
    Pass late_iter stub_between
      (5 ∷ [])
      (record { pos = 1; repushed_stub = true })
      (store_next 5 null (push 7 stub_between))
late-Pass = called 5 (pushed 7 begin (ground arith) refl (ground arith)) late_call

late_pass_example :
    (rest : List ℕ) × ((5 ∷ []) ++ rest ≡ 5 ∷ [])
    × (rest ≡ []
        → (it : PopAll) × (h : Head) × (next_item 2
              (record { pos = 1; repushed_stub = true })
              (store_next 5 null (push 7 stub_between))
            ≡ finished it h))
late_pass_example = Pass-bounded (5 ∷ []) (9 ∷ []) late-Pass refl stub_between-Holds
