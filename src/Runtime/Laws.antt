-- ===== src/Runtime/Laws.antt =====
-- What a callback of the runtime finds, and what it leaves.
use rust_fumio.Prelude.{ℕ, ◌≡◌, refl, ap, sym, subst, ◌∙◌, ◌<◌, true, Option, none, some, List}
use rust_fumio.AtomicWaker.{AtomicWaker}
use rust_fumio.Current.{Current, Outcome, on_exit, returned, panicked, enter, new, can_write}
use rust_fumio.Current.Laws.{after, holding, cleared, enter_at}
use rust_fumio.Pool.Task as PoolTask
use rust_fumio.Pool.Task.{TaskList, Action}
use rust_fumio.Pool.Exec.{Turn, finished, until_turn, run_until}
use rust_fumio.Pool.Exec.Laws.{Waits, run_until_lem}
use rust_fumio.Runtime.{
  Locals, Handle, guarded, handle_enter, ended, runtime_enter, enter_run_until, run_until_end,
}

-- None of the three handles is set.
pub record IsFree {W RH TH SH : Type 0} (k : Locals W RH TH SH) (w : W) : Type 0 where
  pub reactor : (k.reactor).get w ≡ new
  pub timer : k.default_timer w ≡ none
  pub spawner : (k.spawner).get w ≡ new

-- The three handles of `h` are set.
pub record IsEntered {W RH TH SH : Type 0} (k : Locals W RH TH SH) (h : Handle RH TH SH) (w : W)
    : Type 0 where
  pub reactor : (k.reactor).get w ≡ holding k.reactor h.reactor_handle
  pub timer : k.default_timer w ≡ some h.timer_handle
  pub spawner : (k.spawner).get w ≡ holding k.spawner h.local_spawner

module _ {W RH TH SH : Type 0} (k : Locals W RH TH SH) where
  -- The end of the three guards, in the opposite order.
  abbrev pub leave : W → W
  leave w = cleared k.reactor (k.drop_default (cleared k.spawner w))

  pub guarded-on_exit :
      {R : Type 0} (take : W → Option W) (exit : W → W) (f : W → Outcome W R) (w w' : W)
      → take w ≡ some w'
      → guarded take exit f w ≡ on_exit exit (f w')
  unfolding guarded
  guarded-on_exit take exit f w w' e = rw (e, guarded) refl

  -- The cells that the callback leaves can be written.
  abbrev pub IsWritable : W → Type 0
  IsWritable w = (can_write ((k.reactor).get w) ≡ true) × (can_write ((k.spawner).get w) ≡ true)

  on_exit-on_exit :
      {R : Type 0} (g g' : W → W) (o : Outcome W R)
      → on_exit g (on_exit g' o) ≡ on_exit (λ w. g (g' w)) o
  on_exit-on_exit g g' (returned w r) = refl
  on_exit-on_exit g g' (panicked w) = refl

  after-on_exit : {R : Type 0} (g : W → W) (o : Outcome W R) → after (on_exit g o) ≡ g (after o)
  after-on_exit g (returned w r) = refl
  after-on_exit g (panicked w) = refl

  -- None of the three handles is there.
  abbrev pub IsLeft : W → Type 0
  IsLeft w =
      (((k.reactor).get w).value ≡ none)
      × ((k.default_timer w ≡ none) × (((k.spawner).get w).value ≡ none))

  leave-IsLeft : (w : W) → IsLeft (leave w)
  leave-IsLeft w =
      let w1 = cleared k.spawner w in
      let w2 = k.drop_default w1 in
      (
        ap (λ (c : Current RH). c.value) ((k.reactor).get_put _ w2),
        (
          k.timer-reactor _ w2 ∙ k.drop_clears w1,
          ap (λ (c : Current SH). c.value)
              (k.spawner-reactor _ w2 ∙ k.spawner-drop w1 ∙ (k.spawner).get_put _ w),
        ),
      )

  -- What setting the handles keeps holds where the callback runs.
  module _ (P : W → Type 0) (put_reactor : (c : _) (w : W) → P w → P ((k.reactor).put c w))
      (set_timer : (t : TH) (w w' : W) → k.set_default t w ≡ some w' → P w → P w')
      (put_spawner : (c : _) (w : W) → P w → P ((k.spawner).put c w)) where
    pub handle_enter_at :
        {R : Type 0} (h : Handle RH TH SH) (f : W → Outcome W R) (w : W)
        → P w
        → IsFree k w
        → ((w' : W) → IsEntered k h w' → P w' → IsWritable (after (f w')))
        → (inside : W) × (IsEntered k h inside
            × (P inside
                × ((handle_enter k h f w ≡ on_exit leave (f inside))
                    × ((w' : W) → IsLeft (leave w')))))
    unfolding handle_enter
    handle_enter_at h f w p v keeps =
        let w1 = (k.reactor).put (holding k.reactor h.reactor_handle) w in
        let (w2, e, (timer, (reactor, spawner))) =
          k.set_when_free h.timer_handle w1 (k.timer-reactor _ w ∙ v.timer) in
        let w3 = (k.spawner).put (holding k.spawner h.local_spawner) w2 in
        let entered : IsEntered k h w3 = record {
          reactor = k.reactor-spawner _ w2 ∙ reactor ∙ (k.reactor).get_put _ w;
          timer = k.timer-spawner _ w2 ∙ timer;
          spawner = (k.spawner).get_put _ w2;
        } in
        let p3 = put_spawner _ w2 (set_timer _ w1 w2 e (put_reactor _ w p)) in
        let (writable_r, writable_s) = keeps w3 entered p3 in
        let inner =
          enter_at k.spawner h.local_spawner f w2 (spawner ∙ k.spawner-reactor _ w ∙ v.spawner)
            writable_s in
        let middle =
          guarded-on_exit (k.set_default h.timer_handle) k.drop_default
            (enter k.spawner h.local_spawner f) w1 w2 e
          ∙ ap (on_exit k.drop_default) inner
          ∙ on_exit-on_exit _ _ (f w3) in
        let whole =
          enter_at k.reactor h.reactor_handle
            (guarded (k.set_default h.timer_handle) k.drop_default
              (enter k.spawner h.local_spawner f))
            w v.reactor
            (ap (λ o. can_write ((k.reactor).get (after o))) middle
              ∙ ap (λ x. can_write ((k.reactor).get x)) (after-on_exit _ (f w3))
              ∙ ap can_write (k.reactor-drop _ ∙ k.reactor-spawner _ _)
              ∙ writable_r) in
        (
          w3,
          (
            entered,
            (
              p3,
              (
                whole ∙ ap (on_exit (cleared k.reactor)) middle ∙ on_exit-on_exit _ _ (f w3),
                leave-IsLeft,
              ),
            ),
          ),
        )

  -- If no handle is set, and the callback leaves the cells of the reactor and of the spawner free of
  -- borrows wherever the three handles are set: it runs where they are, entering ends as it does, also
  -- if it panics, and no handle is set afterwards.
  pub handle_enter_lem :
      {R : Type 0} (h : Handle RH TH SH) (f : W → Outcome W R) (w : W)
      → IsFree k w
      → ((w' : W) → IsEntered k h w' → IsWritable (after (f w')))
      → (inside : W) × (IsEntered k h inside
          × ((handle_enter k h f w ≡ on_exit leave (f inside)) × ((w' : W) → IsLeft (leave w'))))
  handle_enter_lem h f w v keeps =
      let (inside, (entered, (u, rest))) =
        handle_enter_at (λ _. Unit) (λ _ _ _. tt) (λ _ _ _ _ _. tt) (λ _ _ _. tt) h f w tt v
          (λ w' i _. keeps w' i) in
      (inside, (entered, rest))

module _ {M RH TH SH Cell Fut : Type 0} (k : Locals (M × TaskList Cell Fut) RH TH SH)
    (h : Handle RH TH SH) (aw : AtomicWaker Cell)
    (poll_future : Fut → List (Action Fut) × PoolTask.Outcome Fut)
    (take_enter : M × TaskList Cell Fut → Option (M × TaskList Cell Fut))
    (drop_enter : M × TaskList Cell Fut → M × TaskList Cell Fut) where
  -- The turn after `n` that wait, from `w` on, gives `t` and leaves `last`.
  pub record Completes {T : Type 0}
      (park : M × TaskList Cell Fut → PoolTask.Result (M × TaskList Cell Fut))
      (poll_main : M × TaskList Cell Fut → Turn (M × TaskList Cell Fut) T) (n : ℕ)
      (w : M × TaskList Cell Fut) : Type 0 where
    pub before : M × TaskList Cell Fut
    pub last : M × TaskList Cell Fut
    pub t : T
    pub turns : Waits park (until_turn aw poll_future poll_main) n w before
    pub gives : until_turn aw poll_future poll_main before ≡ finished last t
    pub writable : IsWritable k last

  -- If the thread runs no executor and has no handle set, and the main future is ready in the turn after
  -- `n` that wait, wherever the three handles are set: running the runtime with fuel for more than `n`
  -- turns gives the future's result, and no handle is set afterwards.
  pub run_until_end_lem :
      {T : Type 0} (park : M × TaskList Cell Fut → PoolTask.Result (M × TaskList Cell Fut))
      (poll_main : M × TaskList Cell Fut → Turn (M × TaskList Cell Fut) T) (n fuel : ℕ)
      (w w1 : M × TaskList Cell Fut)
      → take_enter w ≡ some w1
      → IsFree k w1
      → n < fuel
      → (completes : (w' : M × TaskList Cell Fut)
          → IsEntered k h w'
          → Completes park poll_main n w')
      → (inside : M × TaskList Cell Fut) × ((entered : IsEntered k h inside) × ((run_until_end k h
                aw poll_future take_enter drop_enter park poll_main fuel w
              ≡ returned
                  (drop_enter (leave k (completes inside entered).last))
                  (some (completes inside entered).t))
            × IsLeft k (leave k (completes inside entered).last)))
  unfolding run_until_end enter_run_until runtime_enter handle_enter
  run_until_end_lem park poll_main n fuel w w1 e v enough completes =
      let f =
        λ (w' : M × TaskList Cell Fut). ended (run_until aw poll_future park poll_main fuel w') in
      let gives : (w' : M × TaskList Cell Fut) (i : IsEntered k h w')
          → f w' ≡ returned (completes w' i).last (some (completes w' i).t) =
        λ w' i.
          let c = completes w' i in
          ap ended (
            run_until_lem aw poll_future park poll_main n fuel w' c.before c.last c.t c.turns
              c.gives enough) in
      let (inside, (entered, (runs, left))) = handle_enter_lem k h f w1 v (λ w' i.
        subst (λ o. IsWritable k (after o)) (sym (gives w' i)) (completes w' i).writable) in
      (
        inside,
        (
          entered,
          (
            guarded-on_exit k take_enter drop_enter
                  (enter_run_until k h aw poll_future take_enter drop_enter park poll_main fuel) w
                  w1 e
                ∙ ap (on_exit drop_enter) (runs ∙ ap (on_exit (leave k)) (gives inside entered)),
            left _,
          ),
        ),
      )
