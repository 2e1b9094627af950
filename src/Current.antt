-- ===== src/Current.antt =====
-- fumio-utils/src/current.rs: the thread-local "current" handle, a `RefCell<Option<T>>` with its borrow
-- counts, and the uses of it for the reactor (reactor/executor.rs, reactor/lazy_handle.rs).
pub mod Laws
mod Examples
use rust_fumio.Prelude.{ℕ, zero, suc, ◌+◌, ◌-◌, ◌≡◌, Bool, true, false, Option, none, some}

-- `readers` and `writing` are the borrows of the `RefCell` that are alive.
pub record Current (T : Type 0) : Type 0 where
  pub value : Option T
  pub readers : ℕ
  pub writing : Bool

-- `std::thread::LocalKey`: one cell of a thread's state `W`, with the laws of a cell.
pub record LocalKey (W T : Type 0) : Type 0 where
  pub get : W → Current T
  pub put : Current T → W → W
  pub get_put : (c : Current T) (w : W) → get (put c w) ≡ c
  pub put_get : (w : W) → put (get w) w ≡ w
  pub put_put : (c d : Current T) (w : W) → put c (put d w) ≡ put c w

-- A run of code that may unwind, and the thread's state after it.
pub data Outcome (W R : Type 0) : Type 0 where
  returned : (w : W) (r : R) → Outcome W R
  panicked : (w : W) → Outcome W R

-- A run with one more change of the state at the end, however it ends.
abbrev pub on_exit : {W R : Type 0} → (W → W) → Outcome W R → Outcome W R
on_exit g (returned w r) = returned (g w) r
on_exit g (panicked w) = panicked (g w)

unfoldable pub new : {T : Type 0} → Current T
new = record { value = none; readers = 0; writing = false }

-- Whether `borrow_mut` succeeds.
abbrev pub can_write : {T : Type 0} → Current T → Bool
can_write c = elim c.readers [
  | zero ↦ elim c.writing [ true ↦ false | false ↦ true ]
  | suc _ ↦ false
]

module _ {W T R : Type 0} (key : LocalKey W T) where
  -- `Drop for Reset`: `borrow_mut` panics if the cell is borrowed.
  pub reset : Outcome W R → Outcome W R
  reset (returned w r) = elim (can_write (key.get w)) [
    | true ↦ returned (key.put (record (key.get w) { value = none }) w) r
    | false ↦ panicked w
  ]
  reset (panicked w) = elim (can_write (key.get w)) [
    | true ↦ panicked (key.put (record (key.get w) { value = none }) w)
    | false ↦ panicked w
  ]

  -- `Current::enter`, given the cell; `f` is the callback.
  pub enter_from : T → (W → Outcome W R) → W → Current T → Outcome W R
  unfolding reset
  enter_from value f w c = elim (can_write c) [
    | false ↦ panicked w
    | true ↦ elim c.value [
      | some _ ↦ panicked w
      | none ↦ reset (f (key.put (record c { value = some value }) w))
    ]
  ]

  pub enter : T → (W → Outcome W R) → W → Outcome W R
  unfolding enter_from
  enter value f w = enter_from value f w (key.get w)

  -- The end of a shared, and of an exclusive borrow.
  pub end_read : Outcome W R → Outcome W R
  end_read (returned w r) =
      returned (key.put (record (key.get w) { readers = (key.get w).readers - 1 }) w) r
  end_read (panicked w) =
      panicked (key.put (record (key.get w) { readers = (key.get w).readers - 1 }) w)

  pub end_write : Outcome W R → Outcome W R
  end_write (returned w r) = returned (key.put (record (key.get w) { writing = false }) w) r
  end_write (panicked w) = panicked (key.put (record (key.get w) { writing = false }) w)

  -- `Current::with`, given the cell.
  pub with_from : (Option T → W → Outcome W R) → W → Current T → Outcome W R
  unfolding end_read
  with_from f w c = elim c.writing [
    | true ↦ panicked w
    | false ↦ end_read (f c.value (key.put (record c { readers = c.readers + 1 }) w))
  ]

  pub with_current : (Option T → W → Outcome W R) → W → Outcome W R
  unfolding with_from
  with_current f w = with_from f w (key.get w)

  -- `Current::with_mut`; the callback writes the handle in its cell.
  pub with_mut : (Option T → W → Outcome W R) → W → Outcome W R
  unfolding end_write
  with_mut f w =
      let c = key.get w in
      elim (can_write c) [
        | false ↦ panicked w
        | true ↦ end_write (f c.value (key.put (record c { writing = true }) w))
      ]

-- `enter` of executor.rs, through which `Handle::enter` of the reactor goes, and `enter_local` of the
-- pool's current.rs, through which `LocalSpawner::enter` goes; `key` is the cell of that file.
pub enter_reactor : {W T R : Type 0} → LocalKey W T → T → (W → Outcome W R) → W → Outcome W R
enter_reactor key handle f w = enter key handle f w

pub enter_local : {W T R : Type 0} → LocalKey W T → T → (W → Outcome W R) → W → Outcome W R
enter_local key spawner f w = enter key spawner f w

-- `Handle::enter` of the reactor, and `LocalSpawner::enter`.
pub reactor_handle_enter : {W T R : Type 0} → LocalKey W T → T → (W → Outcome W R) → W → Outcome W R
unfolding enter_reactor
reactor_handle_enter key handle f w = enter_reactor key handle f w

pub spawner_enter : {W T R : Type 0} → LocalKey W T → T → (W → Outcome W R) → W → Outcome W R
unfolding enter_local
spawner_enter key spawner f w = enter_local key spawner f w

-- `current` of executor.rs.
pub current : {W T : Type 0} → LocalKey W T → W → Outcome W (Option T)
unfolding with_current
current key w = with_current key (λ value w. returned w value) w

-- `current_local` of the pool's current.rs.
pub current_local : {W T : Type 0} → LocalKey W T → W → Outcome W (Option T)
unfolding with_current
current_local key w = with_current key (λ value w. returned w value) w

-- `LazyHandle::{new, is_bound, from}`: the handle that it was made from, if any.
pub lazy_new : {T : Type 0} → Option T
lazy_new = none

pub is_bound : {T : Type 0} → Option T → Bool
is_bound none = false
is_bound (some handle) = true

pub lazy_from : {T : Type 0} → T → Option T
lazy_from handle = some handle

-- `LazyHandle::bind`
pub bind : {W T : Type 0} → LocalKey W T → Option T → W → Outcome W (Option T)
unfolding current
bind key (some handle) w = returned w (some handle)
bind key none w = current key w
