-- ===== src/Reactor/Tasks/Cells/Examples.antt =====
-- Two tasks that are registered, one of which is deregistered after a cleanup.
use rust_fumio.Prelude.{List, [], ◌∷◌, arith}
use rust_fumio.Reactor.Tasks.{
  add_task, deregister_task, local_add, local_remove, cleanup_one, cleanup_all, cleanup_tasks,
}
use rust_fumio.Reactor.Tasks.Cells.{Cells, cells_new}
use rust_fumio.Reactor.Tasks.Cells.Cleanup.{seen}
use rust_fumio.Reactor.Tasks.Cells.Ops.{
  Op, cloning, dropping, adding, deregistering, cleaning, tasks_step, tasks_run, cells_run, IsLegal,
  Refines,
}
use rust_fumio.Reactor.Tasks.Cells.Refine.{cells_run-Refines, new-Stands}

abbrev calls : List Op
calls =
    adding 4
    ∷ adding 6
    ∷ cleaning 3
    ∷ cloning 4
    ∷ deregistering 4
    ∷ adding 8
    ∷ cleaning 3
    ∷ cloning 6
    ∷ dropping 6
    ∷ []

abbrev unused : Cells
unused = cells_new 1 2 (λ _. 1)

calls-IsLegal : IsLegal 1 2 calls (seen unused [] [])
unfolding tasks_step add_task deregister_task local_add local_remove cleanup_one cleanup_all
    cleanup_tasks cells_new
calls-IsLegal = (
  ((ground arith, ground arith, ground arith), omega arith),
  (
    ((ground arith, ground arith, ground arith), omega arith),
    (
      omega arith,
      (
        tt,
        (
          ((ground arith, ground arith, ground arith), omega arith, ground arith),
          (
            ((ground arith, ground arith, ground arith), omega arith),
            (omega arith, (tt, (omega arith, tt))),
          ),
        ),
      ),
    ),
  ),
)

cells_run_example : Refines 1 2 (tasks_run calls (seen unused [] [])) (cells_run calls unused)
cells_run_example =
    cells_run-Refines 1 2 calls unused [] [] (new-Stands 1 2 (λ _. 1) (ground arith) (ground arith))
      calls-IsLegal
