-- ===== src/Pool/Progress.antt =====
-- A task that is woken is polled. A wake-up on another thread counts here once it has returned, with no
-- other in progress; Pool/Global has the wake-ups in progress.
use rust_fumio.Prelude.{
  ℕ, ◌<◌, ◌≡◌, ◌∙◌, ap, subst, Bool, true, false, ◌||◌, List, [], ◌∷◌, ◌++◌, arith, ◌∈◌, has,
  has-append, ltb, ◌==◌, if◌then◌else◌,
}
use rust_fumio.AtomicWaker.{AtomicWaker}
use rust_fumio.Pool.Task.{
  TaskList, Action, wake_local, wake_global, Outcome, state_of, ended, is_unlinked, local_notify,
  wake, global_notify, fetch_one, fetch_all, fetch_global_notifies, act,
}
use rust_fumio.Pool.Invariant.{IsPool, aside-IsPool}
use rust_fumio.Pool.Notify.{local_notify-IsPool, global_notify-IsPool, fetch-IsPool}
use rust_fumio.Pool.Round.{poll}
use rust_fumio.Pool.Rounds.{poll_tasks-Round}

module _ {Cell Fut : Type 0} where
  fetch_one-collects :
      (t x : ℕ) (s : TaskList Cell Fut)
      → s.poll_list ≡ []
      → (s.tasks t).alive ≡ true
      → ((fetch_one x s).poll_list ≡ [])
        × (((fetch_one x s).tasks t).alive ≡ true)
        × (((t == x) || has t s.local_pending) ≡ true → has t (fetch_one x s).local_pending ≡ true)
  unfolding fetch_one is_unlinked
  fetch_one-collects t x s idle a = (
    ground (arith, idle),
    ground (arith, idle),
    λ i. ground (arith, idle, has-append t s.local_pending (x ∷ [])),
  )

  fetch_all-collects :
      (t : ℕ) (ts : List ℕ) (s : TaskList Cell Fut)
      → s.poll_list ≡ []
      → (s.tasks t).alive ≡ true
      → (has t ts || has t s.local_pending) ≡ true
      → t ∈ (fetch_all ts s).local_pending
  unfolding fetch_all
  fetch_all-collects t [] s idle a i = i
  fetch_all-collects t (x ∷ ts) s idle a i =
      let (idle', a', here) = fetch_one-collects t x s idle a in
      fetch_all-collects t ts (fetch_one x s) idle' a' (ground (arith, here))

  -- A live task that is queued anywhere is pending after the fetch.
  pub fetch-collects :
      (t : ℕ) (s : TaskList Cell Fut)
      → s.poll_list ≡ []
      → (s.tasks t).alive ≡ true
      → (has t s.global_pending || has t s.local_pending) ≡ true
      → t ∈ (fetch_global_notifies s).local_pending
  unfolding fetch_global_notifies
  fetch-collects t s idle a i =
      fetch_all-collects t s.global_pending (record s { global_pending = [] }) idle a i

-- A wake-up of `t`, on the pool's thread or on another.
abbrev pub wake_up : {Fut : Type 0} → Bool → ℕ → Action Fut
wake_up here t = if here then wake_local t else wake_global t

module _ {Cell Fut : Type 0} (aw : AtomicWaker Cell) where
  -- A wake-up of a live task queues it, and changes nothing that a poll depends on.
  pub record Queued (t : ℕ) (s s' : TaskList Cell Fut) : Type 0 where
    pub formed : IsPool s'
    pub idle : s'.poll_list ≡ []
    pub alive : (s'.tasks t).alive ≡ true
    pub same_log : s'.polled ≡ s.polled
    pub queued : (has t s'.global_pending || has t s'.local_pending) ≡ true

  module _ (t : ℕ) (s : TaskList Cell Fut) (v : IsPool s) (idle : s.poll_list ≡ [])
      (alive : (s.tasks t).alive ≡ true) where
    below : t < s.fresh
    below = ground (arith, v.bounded t)

    local_notify-Queued : Queued t s (local_notify aw t s)
    unfolding local_notify is_unlinked wake
    local_notify-Queued = record {
      formed = local_notify-IsPool aw s t v;
      idle = ground (arith, idle);
      alive = ground (arith, alive);
      same_log = ground arith;
      queued = ground (arith, idle, alive, has-append t s.local_pending (t ∷ []));
    }

    global_notify-Queued : Queued t s (global_notify aw t s)
    unfolding global_notify wake
    global_notify-Queued = record {
      formed = global_notify-IsPool aw s t v below;
      idle = ground (arith, idle);
      alive = ground (arith, alive);
      same_log = ground arith;
      queued = ground (arith, alive, v.queued_global t, has-append t s.global_pending (t ∷ []));
    }

    pub wake_up-Queued : (here : Bool) → Queued t s (act aw (wake_up here t) s)
    unfolding act
    wake_up-Queued true =
        let b : ltb t s.fresh ≡ true = ground (arith, below) in rw b local_notify-Queued
    wake_up-Queued false =
        let b : ltb t s.fresh ≡ true = ground (arith, below) in rw b global_notify-Queued

  module _ (poll_future : Fut → List (Action Fut) × Outcome Fut) where
    -- The next poll of a pool in which `t` is queued.
    pub Queued-poll :
        (t : ℕ) (s s' : TaskList Cell Fut)
        → Queued t s s'
        → (done : List ℕ) × ((state_of (poll aw poll_future s')).polled ≡ s.polled ++ done)
          × ((ended (poll aw poll_future s') ≡ true → t ∈ done)
              × (ended (poll aw poll_future s') ≡ false
                  → (has t done || has t (state_of (poll aw poll_future s')).local_pending) ≡ true))
    unfolding poll
    Queued-poll t s s' q =
        let s1 = record s' { waker = aw.register s'.waker; woken = false } in
        let v1 = aside-IsPool s' q.formed (aw.register s'.waker) false s'.polled in
        let (w, g, r, l, k) = fetch-IsPool s1 v1 in
        let round = poll_tasks-Round aw poll_future (fetch_global_notifies s1) w (r ∙ q.idle) in
        let mem : t ∈ (round.done ++ round.left) =
          subst (λ x. t ∈ x) round.split (fetch-collects t s1 q.idle q.alive q.queued) in
        (
          round.done,
          round.logged ∙ ap (λ x. x ++ round.done) (l ∙ q.same_log),
          (
            λ e. ground (arith, mem, has-append t round.done round.left, round.complete e),
            λ e.
                let (new, back) = round.requeued e in
                ground (
                  arith,
                  mem,
                  back,
                  has-append t round.done round.left,
                  has-append t round.left new,
                ),
          ),
        )

    -- A live task that is woken on the pool's thread between two polls is polled by the next poll of
    -- the pool, whether or not it is queued already. If that unwinds, the task has been polled or is
    -- pending.
    pub woken-polled :
        (t : ℕ) (s : TaskList Cell Fut)
        → IsPool s
        → s.poll_list ≡ []
        → (s.tasks t).alive ≡ true
        → let r = poll aw poll_future (act aw (wake_local t) s) in
          (done : List ℕ) × ((state_of r).polled ≡ s.polled ++ done)
          × ((ended r ≡ true → t ∈ done)
              × (ended r ≡ false → (has t done || has t (state_of r).local_pending) ≡ true))
    woken-polled t s v idle alive =
        Queued-poll t s (act aw (wake_local t) s) (wake_up-Queued t s v idle alive true)
