-- ===== src/Current/Examples.antt =====
-- A thread with one cell, and a callback that reads the handle it was entered with.
use rust_fumio.Prelude.{ℕ, ◌≡◌, refl, Option, none}
use rust_fumio.Current.{Current, LocalKey, Outcome, on_exit, returned, new, enter}
use rust_fumio.Current.Laws.{holding, cleared, IsBalanced, enter_lem}

abbrev one_cell : LocalKey (Current ℕ) ℕ
one_cell = record {
  get = λ c. c;
  put = λ c _. c;
  get_put = λ _ _. refl;
  put_get = λ _. refl;
  put_put = λ _ _ _. refl;
}

abbrev reads : Current ℕ → Outcome (Current ℕ) (Option ℕ)
reads c = returned c c.value

reads-IsBalanced : IsBalanced one_cell reads
reads-IsBalanced c = (refl, refl)

enter_example :
    (holding one_cell 7 ≡ holding one_cell 7)
    × (enter one_cell 7 reads new ≡ on_exit (cleared one_cell) (reads (holding one_cell 7)))
    × ((c : Current ℕ) → (cleared one_cell c).value ≡ none)
enter_example = enter_lem one_cell 7 reads new refl reads-IsBalanced
