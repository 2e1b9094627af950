-- ===== src/Reactor/Poll/Laws.antt =====
-- What a turn of the reactor leaves.
use rust_fumio.Prelude.{
  ℕ, ◌≡◌, refl, false, subst, ◌∙◌, sym, ap, Option, none, some, List, [], ◌∷◌, if◌then◌else◌, ◌==◌,
  has, ◌%◌, Bool-cases, inl, inr,
}
use rust_fumio.AtomicWaker.{AtomicWaker}
use rust_fumio.Reactor.Waker.{start_poll}
use rust_fumio.Reactor.Tasks.{Tasks, cleanup_tasks}
use rust_fumio.Reactor.Tasks.Laws.{IsTasks}
use rust_fumio.Reactor.Tasks.Cleanup.{Cleaned, cleanup_tasks-Cleaned}
use rust_fumio.Reactor.Registration.{State, Io, done, error, panic}
use rust_fumio.Reactor.Poll.{
  Event, Timeout, handle_events, poll_timeout, after_cleanup, after_mio, poll, park, unwrap,
}

module _ {Cell : Type 0} (w : AtomicWaker Cell) where
  handle_events-tasks : (es : List Event) (s : State Cell) → (handle_events w es s).tasks ≡ s.tasks
  unfolding handle_events
  handle_events-tasks [] s = refl
  handle_events-tasks (e ∷ es) s = elim (Bool-cases (e.token == 0)) [
    | inl h ↦ rw h (handle_events-tasks es s)
    | inr h ↦ rw h (handle_events-tasks es _)
  ]

  -- What a turn that succeeds does to the tasks `ts`.
  pub record Turned (ts : Tasks) (r : State Cell × Io Unit) : Type 0 where
    pub result : r.1 ≡ done tt
    pub agree : IsTasks r.0.tasks
    pub local :
        (t : ℕ)
        → has t r.0.tasks.local_list
          ≡ (if has t ts.list then ts.state t % 2 == 0 else has t ts.local_list)

  after_cleanup-Turned :
      (ts : Tasks) (s : State Cell)
      → Cleaned ts.list ts (cleanup_tasks ts)
      → s.tasks ≡ ts
      → Turned ts (after_cleanup w (cleanup_tasks s.tasks) s)
  unfolding after_cleanup
  after_cleanup-Turned ts s c e =
      subst (λ x. Turned ts (after_cleanup w x s)) (sym (ap cleanup_tasks e ∙ c.result))
        (record { result = refl; agree = c.agree; local = c.local })

  -- A turn on tasks whose state words, lists and references agree never panics: if mio fails it fails,
  -- and if mio gives events it succeeds. Then the tasks agree again, every task that was queued is on
  -- the local list or, if it was deregistered, is not, and the other tasks stay where they were.
  pub poll-Turned :
      (mio : Timeout → Option (List Event)) (timeout : Timeout) (s : State Cell)
      → IsTasks s.tasks
      → (mio (poll_timeout w timeout s) ≡ none → (poll w mio timeout s).1 ≡ error)
        × ((es : List Event)
            → mio (poll_timeout w timeout s) ≡ some es
            → Turned s.tasks (poll w mio timeout s))
  unfolding poll after_mio
  poll-Turned mio timeout s v =
      let s1 = record s { waker = (start_poll s.waker).0 } in
      (
        λ e. ap (λ x. (after_mio w x s1).1) e,
        λ es e.
            subst (λ x. Turned s.tasks (after_mio w x s1)) (sym e)
              (after_cleanup-Turned s.tasks (handle_events w es s1)
                (cleanup_tasks-Cleaned s.tasks v) (handle_events-tasks es s1)),
      )

  pub poll_timeout-clear :
      (timeout : Timeout) (s : State Cell)
      → (start_poll s.waker).1 ≡ false
      → poll_timeout w timeout s ≡ timeout
  unfolding poll_timeout
  poll_timeout-clear timeout s e = rw e refl

  -- Parking turns an error into a panic, and a turn that succeeds is left as it is.
  pub park-Turned :
      (mio : Timeout → Option (List Event)) (timeout : Timeout) (s : State Cell)
      → IsTasks s.tasks
      → (mio (poll_timeout w timeout s) ≡ none → (park w mio timeout s).1 ≡ panic)
        × ((es : List Event)
            → mio (poll_timeout w timeout s) ≡ some es
            → Turned s.tasks (park w mio timeout s))
  unfolding park unwrap
  park-Turned mio timeout s v =
      let (fails, works) = poll-Turned mio timeout s v in
      (
        λ e. ap unwrap (fails e),
        λ es e.
            let t = works es e in
            record { result = ap unwrap t.result; agree = t.agree; local = t.local },
      )
