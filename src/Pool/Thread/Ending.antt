-- ===== src/Pool/Thread/Ending.antt =====
-- On a thread `run` comes to an end with the work of its futures: a wake-up that comes before the
-- thread parks is not lost, since it leaves the token.
use rust_fumio.Prelude.{
  ℕ, zero, suc, ◌+◌, ◌*◌, ◌≤◌, ◌≡◌, ◌≢◌, refl, ◌∙◌, ◌⊎◌, true, false, inl, inr, List, [], none,
  arith, Bool-cases, one_if,
}
use rust_fumio.AtomicWaker.{AtomicWaker}
use rust_fumio.Park.{Thread, park_thread, wake_thread}
use rust_fumio.Pool.Task.{TaskList, Action, Outcome, ok, act_all}
use rust_fumio.Pool.Round.{is_ready}
use rust_fumio.Pool.Invariant.{IsPool}
use rust_fumio.Pool.Notify.{act_all-IsPool}
use rust_fumio.Pool.Polls.{act_all-Keeps}
use rust_fumio.Pool.Work.{work, work-act_all}
use rust_fumio.Pool.Spending.{Spends, Roused, Spent, poll-Spent}
use rust_fumio.Pool.Ending.{Wakes}
use rust_fumio.Pool.Turns.{poll_pool-finished, poll_pool-waiting}
use rust_fumio.Pool.Exec.{finished, waiting, returned, poll_pool}
use rust_fumio.Pool.Exec.Laws.{one_turn, last_turn}
use rust_fumio.Pool.Thread.{notified, thread_turn, thread_park, run_on_thread}

module _ {Cell Fut Token : Type 0} (aw : AtomicWaker Cell) (thread : Thread Token)
    (poll_future : Fut → List (Action Fut) × Outcome Fut)
    (others : TaskList Cell Fut → TaskList Cell Fut) where
  turn-finished :
      (s s' : TaskList Cell Fut) (token : Token)
      → poll_pool aw poll_future s ≡ finished s' tt
      → thread_turn aw thread poll_future others (s, token)
        ≡ finished (s', notified aw thread poll_future others s' token) tt
  unfolding thread_turn
  turn-finished s s' token e = rw (e, thread_turn) refl

  turn-waiting :
      (s s' : TaskList Cell Fut) (token : Token)
      → poll_pool aw poll_future s ≡ waiting s'
      → thread_turn aw thread poll_future others (s, token)
        ≡ waiting (s', notified aw thread poll_future others s' token)
  unfolding thread_turn
  turn-waiting s s' token e = rw (e, thread_turn) refl

  run-last :
      (fuel : ℕ) (s s' : TaskList Cell Fut) (token : Token)
      → poll_pool aw poll_future s ≡ finished s' tt
      → run_on_thread aw thread poll_future others (suc fuel) (s, token)
        ≡ returned (s', notified aw thread poll_future others s' token) tt
  unfolding run_on_thread
  run-last fuel s s' token e =
      last_turn (thread_park aw thread poll_future others)
        (thread_turn aw thread poll_future others) fuel (s, token)
        (s', notified aw thread poll_future others s' token) tt (turn-finished s s' token e)

  run-next :
      (fuel : ℕ) (s s' s2 : TaskList Cell Fut) (token t2 : Token)
      → poll_pool aw poll_future s ≡ waiting s'
      → thread_park aw thread poll_future others
          (s', notified aw thread poll_future others s' token)
        ≡ ok (s2, t2)
      → run_on_thread aw thread poll_future others (suc fuel) (s, token)
        ≡ run_on_thread aw thread poll_future others fuel (s2, t2)
  unfolding run_on_thread
  run-next fuel s s' s2 token t2 e p =
      one_turn (thread_park aw thread poll_future others) (thread_turn aw thread poll_future others)
        fuel (s, token) (s', notified aw thread poll_future others s' token) (s2, t2)
        (turn-waiting s s' token e) p

  -- Parking takes the token if there is one, and otherwise lets the others act.
  park-takes :
      (s : TaskList Cell Fut) (token : Token)
      → thread.available token ≡ true
      → (token' : Token) × (thread_park aw thread poll_future others (s, token) ≡ ok (s, token'))
        × (thread.available token' ≡ false)
  unfolding thread_park park_thread
  park-takes s token a =
      let (t', e, b) = thread.park_takes token a in (t', rw (e, thread_park) refl, b)

  park-suspends :
      (s : TaskList Cell Fut) (token : Token)
      → thread.park token ≡ none
      → thread_park aw thread poll_future others (s, token) ≡ ok (others s, token)
  unfolding thread_park park_thread
  park-suspends s token e = rw (e, thread_park) refl

  -- A turn without a wake-up leaves the token, and one with a wake-up makes it available.
  notified-quiet :
      (s : TaskList Cell Fut) (token : Token)
      → s.woken ≡ false
      → notified aw thread poll_future others s token ≡ token
  unfolding notified
  notified-quiet s token e = rw e refl

  notified-available :
      (s : TaskList Cell Fut) (token : Token)
      → thread.available (notified aw thread poll_future others s token) ≡ false
      → s.woken ≡ false
  unfolding notified wake_thread
  notified-available s token e = ground (arith, thread.unpark_makes token)

  module _ (rank : Fut → ℕ) (spends : (f : Fut) → Spends rank f (poll_future f).0 (poll_future f).1)
      (suspends : (token : Token) → thread.available token ≡ false → thread.park token ≡ none)
      (wakes : (s : TaskList Cell Fut)
        → IsPool s
        → s.poll_list ≡ []
        → s.local_all ≢ []
        → s.woken ≡ false
        → Wakes aw rank s (ok (others s))) where
    abbrev Returns : ℕ → TaskList Cell Fut → Token → Type 0
    Returns fuel s token =
        (after : TaskList Cell Fut × Token) × (run_on_thread aw thread poll_future others fuel
            (s, token)
          ≡ returned after tt)
        × IsPool after.0
        × (after.0.local_all ≡ [])

    -- How many turns at most pass before the next one that takes work away.
    abbrev Owes : ℕ → TaskList Cell Fut → Token → Type 0
    Owes n s token = Roused s ⊎ (((1 ≤ n) × (thread.available token ≡ false)) ⊎ (2 ≤ n))

    -- After a turn that leaves tasks, at most one more turn passes if the token is there.
    owed-le :
        (n k : ℕ) (s : TaskList Cell Fut) (token : Token)
        → (p : Spent aw poll_future rank spends s) → 2 * work rank s + n ≤ k
        → Owes n s token
        → 2 * work rank p.after
            + 1
            + one_if (thread.available (notified aw thread poll_future others p.after token))
          ≤ k
    owed-le n k s token p f (inl q) = ground (arith, p.less q)
    owed-le n k s token p f (inr (inr two)) = ground (arith, p.no_more)
    owed-le n k s token p f (inr (inl (one, a))) = elim p.progress [
      | inl less ↦ ground (arith, less)
      | inr quiet ↦ ground (arith, p.no_more, notified-quiet p.after token quiet)
    ]

    -- One turn, and what follows it if there are tasks left.
    turn-Returns :
        (fuel : ℕ) (s : TaskList Cell Fut) (token : Token)
        → (p : Spent aw poll_future rank spends s)
        → 2 * work rank p.after
            + one_if (thread.available (notified aw thread poll_future others p.after token))
          ≤ fuel
        → ((n : ℕ) (s2 : TaskList Cell Fut) (token2 : Token)
            → IsPool s2
            → s2.poll_list ≡ []
            → 2 * work rank s2 + n ≤ fuel
            → Owes n s2 token2
            → Returns fuel s2 token2)
        → Returns (suc fuel) s token
    turn-Returns fuel s token p f rest = elim (Bool-cases (is_ready p.after)) [
      | inl r ↦
          let (done, no_task) = poll_pool-finished aw poll_future s p.after p.polled r in
          (
            (p.after, notified aw thread poll_future others p.after token),
            run-last fuel s p.after token done,
            p.formed,
            no_task,
          )
      | inr r ↦
          let (waits, tasks) = poll_pool-waiting aw poll_future s p.after p.polled r in
          let t = notified aw thread poll_future others p.after token in
          elim (Bool-cases (thread.available t)) [
            | inl a ↦
                let (t', parked, gone) = park-takes p.after t a in
                let (after, ends, v, no_task) =
                  rest 1 p.after t' p.formed p.idle (ground (arith, a, f))
                    (inr (inl (omega arith, gone))) in
                (after, run-next fuel s p.after p.after token t' waits parked ∙ ends, v, no_task)
            | inr a ↦
                let w = wakes p.after p.formed p.idle tasks (notified-available p.after token a) in
                let parked = park-suspends p.after t (suspends t a) in
                let same : others p.after ≡ act_all aw w.actions p.after =
                  ground (arith, w.acted) in
                let (after, ends, v, no_task) =
                  rest 0 (others p.after) t (rw same (act_all-IsPool aw w.actions p.after p.formed))
                    (rw same ((act_all-Keeps aw w.actions p.after).same_round ∙ p.idle))
                    (rw same (
                      omega
                        (arith, work-act_all rank aw w.actions p.after p.formed, w.unspawned, f)))
                    (inl (rw same w.roused)) in
                (
                  after,
                  run-next fuel s p.after (others p.after) token t waits parked ∙ ends,
                  v,
                  no_task,
                )
          ]
    ]

    loop-Returns :
        (fuel n : ℕ) (s : TaskList Cell Fut) (token : Token)
        → IsPool s
        → s.poll_list ≡ []
        → 2 * work rank s + n ≤ fuel
        → Owes n s token
        → Returns fuel s token
    loop-Returns zero n s token v idle f o =
        let p = poll-Spent aw poll_future rank spends s v idle in
        absurd (omega (arith, owed-le n 0 s token p f o))
    loop-Returns (suc fuel) n s token v idle f o =
        let p = poll-Spent aw poll_future rank spends s v idle in
        turn-Returns fuel s token p (omega (arith, owed-le n (suc fuel) s token p f o))
          (λ m s2 t2 v2 idle2 f2 o2. loop-Returns fuel m s2 t2 v2 idle2 f2 o2)

    -- On a thread that std suspends only without a token, and only then: if every poll of a future ends
    -- without a panic and takes work away, by some rank of the futures, and while the thread is
    -- suspended with tasks left, others queue a live task, spawning nothing: `run` with a
    -- `ParkThread` on a well-formed pool, whatever the token, with fuel for two turns for each unit
    -- of work and two more, returns, and the pool is well formed and has no task left.
    pub run_on_thread-returns :
        (fuel : ℕ) (s : TaskList Cell Fut) (token : Token)
        → IsPool s
        → s.poll_list ≡ []
        → 2 * work rank s + 2 ≤ fuel
        → (after : TaskList Cell Fut × Token) × (run_on_thread aw thread poll_future others fuel
              (s, token)
            ≡ returned after tt)
          × IsPool after.0
          × (after.0.local_all ≡ [])
    run_on_thread-returns fuel s token v idle f =
        loop-Returns fuel 2 s token v idle f (inr (inr (omega arith)))
