-- ===== src/Runtime/Io/Examples/Thread.antt =====
-- The handles of a thread beside its timer and its pool.
use rust_fumio.Prelude.{ℕ, ◌≡◌, refl, Bool, Option, none, some, arith}
use rust_fumio.Pool.Task.{TaskList}
use rust_fumio.TimerReactor.{ParkReactor}
use rust_fumio.Runtime.{Locals}
use rust_fumio.Runtime.Io.Ending.{IsSeparate}
use rust_fumio.Runtime.Examples.{Thread}

abbrev pub W : Type 0
W = (Thread × ParkReactor Bool ℕ) × TaskList Bool ℕ

abbrev pub set_timer : ℕ → W → Option W
set_timer t w = elim w.0.0.timer [
  | none ↦ some ((record w.0.0 { timer = some t }, w.0.1), w.1)
  | some _ ↦ none
]

pub set_timer-some :
    (t : ℕ) (w : W)
    → w.0.0.timer ≡ none
    → set_timer t w ≡ some ((record w.0.0 { timer = some t }, w.0.1), w.1)
set_timer-some t w e = ground (arith, e)

abbrev pub locals : Locals W ℕ ℕ ℕ
locals = record {
  reactor = record {
    get = λ w. w.0.0.reactor_cell;
    put = λ c w. ((record w.0.0 { reactor_cell = c }, w.0.1), w.1);
    get_put = λ _ _. refl;
    put_get = λ _. refl;
    put_put = λ _ _ _. refl;
  };
  spawner = record {
    get = λ w. w.0.0.spawner_cell;
    put = λ c w. ((record w.0.0 { spawner_cell = c }, w.0.1), w.1);
    get_put = λ _ _. refl;
    put_get = λ _. refl;
    put_put = λ _ _ _. refl;
  };
  default_timer = λ w. w.0.0.timer;
  set_default = set_timer;
  drop_default = λ w. ((record w.0.0 { timer = none }, w.0.1), w.1);
  set_when_free = λ t w e.
      (((record w.0.0 { timer = some t }, w.0.1), w.1), set_timer-some t w e, (refl, (refl, refl)));
  drop_clears = λ _. refl;
  reactor-drop = λ _. refl;
  spawner-drop = λ _. refl;
  timer-reactor = λ _ _. refl;
  timer-spawner = λ _ _. refl;
  reactor-spawner = λ _ _. refl;
  spawner-reactor = λ _ _. refl;
}

set_timer-same : (t : ℕ) (w w' : W) → set_timer t w ≡ some w' → (w'.0.1 ≡ w.0.1) × (w'.1 ≡ w.1)
set_timer-same t w w' e = (ground (arith, e), ground (arith, e))

pub locals-IsSeparate : IsSeparate locals
locals-IsSeparate = record {
  reactor = λ _ _ _ _ _. refl;
  timer = λ _ _ _ _ _. refl;
  spawner = λ _ _ _ _ _. refl;
  put_reactor = λ _ _. (refl, refl);
  put_spawner = λ _ _. (refl, refl);
  set_timer = set_timer-same;
  drop_timer = λ _. refl;
}
