-- ===== src/Current/Laws.antt =====
-- The current handle is set while the callback runs, and cleared however it ends.
use rust_fumio.Prelude.{◌≡◌, sym, ap, ◌∙◌, true, false, none, some, arith, ◌-◌}
use rust_fumio.Current.{
  Current, LocalKey, Outcome, on_exit, returned, panicked, new, can_write, reset, enter, enter_from,
  with_from, end_read, with_current, current, bind,
}

-- The thread's state after a run.
abbrev pub after : {W R : Type 0} → Outcome W R → W
after (returned w r) = w
after (panicked w) = w

module _ {W T : Type 0} (key : LocalKey W T) where
  -- The cell with a value in it, and not borrowed.
  abbrev pub holding : T → Current T
  holding value = record { value = some value; readers = 0; writing = false }

  abbrev pub cleared : W → W
  cleared w = key.put (record (key.get w) { value = none }) w

  module _ {R : Type 0} where
    -- A callback gives back the borrows that it takes.
    abbrev pub IsBalanced : (W → Outcome W R) → Type 0
    IsBalanced f =
        (w : W)
        → ((key.get (after (f w))).readers ≡ (key.get w).readers)
          × ((key.get (after (f w))).writing ≡ (key.get w).writing)

    reset-on_exit :
        (o : Outcome W R) → can_write (key.get (after o)) ≡ true → reset key o ≡ on_exit cleared o
    unfolding reset
    reset-on_exit (returned w r) e = ground arith
    reset-on_exit (panicked w) e = ground arith

    -- If the callback leaves the cell free of borrows, `enter` ends as it does, with the cell cleared.
    pub enter_at :
        (value : T) (f : W → Outcome W R) (w : W)
        → key.get w ≡ new
        → can_write (key.get (after (f (key.put (holding value) w)))) ≡ true
        → enter key value f w ≡ on_exit cleared (f (key.put (holding value) w))
    unfolding enter enter_from new
    enter_at value f w e writable =
        ap (enter_from key value f w) e ∙ reset-on_exit (f (key.put (holding value) w)) writable

    -- On an empty cell that is not borrowed, and with a callback that gives its borrows back: `enter`
    -- runs the callback with the value in the cell, ends as the callback does, also if that panics, and
    -- clears the cell.
    pub enter_lem :
        (value : T) (f : W → Outcome W R) (w : W)
        → key.get w ≡ new
        → IsBalanced f
        → let inside = key.put (holding value) w in
          (key.get inside ≡ holding value)
          × (enter key value f w ≡ on_exit cleared (f inside))
          × ((w' : W) → (key.get (cleared w')).value ≡ none)
    unfolding new
    enter_lem value f w e v =
        let inside = key.put (holding value) w in
        let g = key.get_put (holding value) w in
        (
          g,
          enter_at value f w e (ground (arith, v inside, g)),
          λ w'. ap (λ (c : Current T). c.value) (key.get_put _ w'),
        )

    -- If a callback gives back the borrows that it takes, so does entering with it, in any state.
    pub enter-IsBalanced :
        (value : T) (f : W → Outcome W R) → IsBalanced f → IsBalanced (enter key value f)
    unfolding enter enter_from reset
    enter-IsBalanced value f v w =
        let c = key.get w in
        let inside = key.put (record c { value = some value }) w in
        let g = key.get_put (record c { value = some value }) w in
        let o = f inside in
        let done = key.get_put (record (key.get (after o)) { value = none }) (after o) in
        (ground (arith, v inside, g, done), ground (arith, v inside, g, done))

  -- Where the handle `value` is entered, `current` and an unbound `LazyHandle` give it, and a second
  -- `enter` panics without running its callback; neither changes the thread's state.
  pub entered :
      {R : Type 0} (value other : T) (f : W → Outcome W R) (w : W)
      → key.get w ≡ holding value
      → (bind key none w ≡ returned w (some value)) × (enter key other f w ≡ panicked w)
  unfolding enter enter_from bind current with_current with_from end_read
  entered value other f w e =
      let one : Current T = record (holding value) { readers = 1 } in
      let inside = key.put one w in
      let back : key.put (holding value) inside ≡ w =
        key.put_put (holding value) one w ∙ ap (λ c. key.put c w) (sym e) ∙ key.put_get w in
      (
        ap (with_from key (λ v w'. returned w' v) w) e
            ∙ ap
                (λ (c : Current T).
                  returned (key.put (record c { readers = c.readers - 1 }) inside) (some value))
                (key.get_put one w)
            ∙ ap (λ w'. returned w' (some value)) back,
        ap (enter_from key other f w) e,
      )
