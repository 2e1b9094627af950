-- ===== src/Reactor/Registration/Laws.antt =====
-- What registering, polling and deregistering do to the word, the queue and the references.
use rust_fumio.Prelude.{
  ℕ, zero, suc, ◌+◌, ◌%◌, ◌≡◌, ◌≢◌, refl, ap, ◌∙◌, Bool, true, false, [], ◌∷◌, some, if◌then◌else◌,
  ◌==◌, update, arith, snoc, Bool-cases, inl, inr,
}
use rust_fumio.Prelude.Flags.{and_not}
use rust_fumio.AtomicWaker.{AtomicWaker}
use rust_fumio.Reactor.Tasks.{
  Tasks, cleanup_tasks, cleanup_all, cleanup_one, local_remove, add_task, deregister_task, release,
}
use rust_fumio.Reactor.Registration.{
  State, done, error, panic, lock, unlock, task_from_state, take, set, register, deregister,
  handle_register, handle_deregister, with_task, registration_poll_read, registration_poll_write,
  drop_registration, into_inner,
}

module _ {Cell : Type 0} (w : AtomicWaker Cell) where
  -- A source that is not registered: its reads fail with an error, its writes panic.
  pub unregistered-polls :
      (s : State Cell)
      → s.word ≡ 0
      → ((registration_poll_read w s).1 ≡ error) × ((registration_poll_write w s).1 ≡ panic)
  unfolding registration_poll_read registration_poll_write with_task lock task_from_state
  unregistered-polls s e = (ground arith, ground arith)

  poll_one :
      (s : State Cell) (t : ℕ)
      → s.word ≡ t
      → t % 2 ≡ 0
      → t ≢ 0
      → let s' = (registration_poll_read w s).0 in
        (s'.word ≡ t) × (s'.tasks.refs t ≡ s.tasks.refs t + 1)
  unfolding registration_poll_read with_task lock unlock task_from_state
  poll_one s t e even full = (ground arith, ground arith)

  -- `n` polls, one after another.
  pub polls : ℕ → State Cell → State Cell
  polls zero s = s
  polls (suc n) s = polls n (registration_poll_read w s).0

  -- If the word holds an even address `t` that is not null, with the lock free, then `n` polls for
  -- reading leave the word as it was and the task with `n` references more.
  pub polls_leak :
      (n : ℕ) (s : State Cell) (t : ℕ)
      → s.word ≡ t
      → t % 2 ≡ 0
      → t ≢ 0
      → ((polls n s).word ≡ t) × ((polls n s).tasks.refs t ≡ s.tasks.refs t + n)
  unfolding polls
  polls_leak zero s t e even full = (e, omega arith)
  polls_leak (suc n) s t e even full =
      let (kept, more) = poll_one s t e even full in
      let (a, b) = polls_leak n (registration_poll_read w s).0 t kept even full in (a, omega arith)

  -- Registering a source that is not registered, at a fresh even address `t`, while the reactor lives:
  -- if mio accepts it the call succeeds, the word holds `t` with the lock given back, and the queue
  -- holds `t` at its end, with one reference for each; if mio refuses it the call fails, the word stays
  -- empty, and yet the queue has taken `t` and keeps a reference to it.
  pub register_lem :
      (mio : Bool) (t : ℕ) (s : State Cell)
      → s.word ≡ 0
      → s.io ≡ true
      → s.alive ≡ true
      → t % 2 ≡ 0
      → let (s', r) = register true mio t w s in
        (r ≡ (if mio then done tt else error))
        × ((s'.word ≡ (if mio then t else 0))
            × ((s'.tasks.list ≡ snoc s.tasks.list t) × (s'.tasks.refs t ≡ (if mio then 2 else 1))))
  unfolding register deregister lock unlock task_from_state set handle_register add_task
  register_lem true t s e io alive even =
      (ground arith, (ground arith, (ground arith, ground arith)))
  register_lem false t s e io alive even =
      (ground arith, (ground arith, (ground arith, ground arith)))

  -- Extracting the source always ends in a panic, from the drop of the registration that has lost its
  -- source, if the word is not locked.
  pub into_inner-panics :
      (mio again : Bool) (s : State Cell) → s.word % 2 ≡ 0 → (into_inner mio again s).1 ≡ panic
  unfolding into_inner drop_registration deregister lock unlock
  into_inner-panics mio again s e = elim (Bool-cases (deregister mio s).0.io) [
    | inl h ↦ ground (arith, h)
    | inr h ↦ ground (arith, h)
  ]

  -- Deregistering a registered source while the reactor lives, if mio accepts it: the word is empty, the
  -- task is marked deregistered and queued, and it has one reference more than before if it was not in
  -- the queue.
  pub deregister_lem :
      (t : ℕ) (s : State Cell)
      → s.word ≡ t
      → t % 2 ≡ 0
      → t ≢ 0
      → s.io ≡ true
      → s.alive ≡ true
      → let (s', r) = deregister true s in
        (r ≡ done tt)
        × ((s'.word ≡ 0)
            × ((s'.tasks.state t ≡ 3)
                × (s'.tasks.refs t
                    ≡ (if s.tasks.state t == 0 then s.tasks.refs t + 1 else s.tasks.refs t))))
  unfolding deregister lock unlock task_from_state take handle_deregister deregister_task
  deregister_lem t s e even full io alive =
      (ground arith, (ground arith, (ground arith, ground arith)))

  record Holds (t state refs : ℕ) (s : Tasks) : Type 0 where
    list : s.list ≡ t ∷ []
    local : s.local_list ≡ []
    state_word : s.state t ≡ state
    count : s.refs t ≡ refs

  registered :
      (t : ℕ) (s : State Cell)
      → s.word ≡ 0
      → s.io ≡ true
      → s.alive ≡ true
      → s.tasks.list ≡ []
      → s.tasks.local_list ≡ []
      → t % 2 ≡ 0
      → let s' = (register true true t w s).0 in
        Holds t 2 2 s'.tasks × ((s'.word ≡ t) × ((s'.io ≡ true) × (s'.alive ≡ true)))
  unfolding register deregister lock unlock task_from_state set handle_register add_task
  registered t s word io alive queue local even = (
    record {
      list = ground arith;
      local = ground arith;
      state_word = ground arith;
      count = ground arith;
    },
    (ground arith, (ground arith, ground arith)),
  )

  deregistered :
      (t : ℕ) (s : State Cell)
      → Holds t 2 2 s.tasks
      → s.word ≡ t
      → s.io ≡ true
      → s.alive ≡ true
      → t % 2 ≡ 0
      → t ≢ 0
      → Holds t 3 2 (deregister true s).0.tasks
  unfolding deregister lock unlock task_from_state take handle_deregister deregister_task
  deregistered t s h word io alive even full = record {
    list = ground (arith, h.list, h.state_word);
    local = ground (arith, h.local);
    state_word = ground arith;
    count = ground (arith, h.count, h.state_word);
  }

  cleaned :
      (t : ℕ) (s : Tasks)
      → Holds t 3 2 s
      → (after : Tasks) × ((cleanup_tasks s ≡ some after)
          × ((after.list ≡ []) × ((after.local_list ≡ []) × (after.refs t ≡ 1))))
  unfolding cleanup_tasks cleanup_all cleanup_one local_remove
  cleaned t s h =
      let opened = record s { list = [] } in
      let after = release t (record opened { state = update s.state t (and_not (s.state t) 2) }) in
      let one : cleanup_one t opened ≡ some after = ground (arith, h.state_word, h.local) in
      (
        after,
        (
          ap (λ l. cleanup_all l (some opened)) h.list ∙ ap (cleanup_all []) one,
          (refl, (h.local, ground (arith, h.count))),
        ),
      )

  -- A source that is registered at a fresh even address, then deregistered, and whose task the reactor
  -- then cleans up, where the reactor lives, mio accepts both calls, and nothing else is on the lists:
  -- the lists are empty again, and one reference to the task is left.
  pub cycle_leak :
      (t : ℕ) (s : State Cell)
      → s.word ≡ 0
      → s.io ≡ true
      → s.alive ≡ true
      → s.tasks.list ≡ []
      → s.tasks.local_list ≡ []
      → t % 2 ≡ 0
      → t ≢ 0
      → (after : Tasks) × ((cleanup_tasks (deregister true (register true true t w s).0).0.tasks
            ≡ some after)
          × ((after.list ≡ []) × ((after.local_list ≡ []) × (after.refs t ≡ 1))))
  cycle_leak t s word io alive queue local even full =
      let (holds, (set_word, (has_io, lives))) = registered t s word io alive queue local even in
      cleaned t (deregister true (register true true t w s).0).0.tasks
        (deregistered t (register true true t w s).0 holds set_word has_io lives even full)
