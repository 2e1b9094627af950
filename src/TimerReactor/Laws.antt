-- ===== src/TimerReactor/Laws.antt =====
-- How parking on the timer ends.
use rust_fumio.Prelude.{
  ◌≡◌, ◌≢◌, refl, Bool, none, some, List, [], ◌∷◌, Option-cases, arith, inl, inr, ◌⊎◌,
  if◌then◌else◌,
}
use rust_fumio.AtomicWaker.{AtomicWaker}
use rust_fumio.Reactor.Registration.{State}
use rust_fumio.Reactor.Tasks.Laws.{IsTasks}
use rust_fumio.Reactor.Poll.{Timeout, park, poll_timeout}
use rust_fumio.Reactor.Poll.Laws.{park-Turned}
use rust_fumio.TimerReactor.{
  poll_failed, turn_failed, left, unwound, ParkReactor, Call, park_reactor, park_calls, after_turn,
  timer_park,
}

-- One of the calls, made one after the other from the state `s`, is refused by mio at the timeout that
-- the reactor hands it in the state that the call finds.
unfoldable pub IsRefused : {Cell : Type 0} → AtomicWaker Cell → List Call → State Cell → Type 0
IsRefused w [] s = ⊥
IsRefused w (c ∷ cs) s =
    (c.mio (poll_timeout w c.duration s) ≡ none) ⊎ IsRefused w cs (park w c.mio c.duration s).0

module _ {Cell Enter : Type 0} (w : AtomicWaker Cell) where
  abbrev entered : Enter → State Cell → ParkReactor Cell Enter
  entered en s = record { reactor = s; enter = some en }

  -- One call of the timer.
  one_park :
      (c : Call) (en : Enter) (s : State Cell)
      → IsTasks s.tasks
      → ((c.mio (poll_timeout w c.duration s) ≡ none)
          × ((p : ParkReactor Cell Enter) × (park_reactor w c (entered en s)
                ≡ unwound poll_failed p)))
        ⊎ ((c.mio (poll_timeout w c.duration s) ≢ none)
            × (IsTasks (park w c.mio c.duration s).0.tasks
                × (park_reactor w c (entered en s)
                    ≡ left (entered en (park w c.mio c.duration s).0))))
  unfolding park_reactor
  one_park c en s v =
      let (fails, works) = park-Turned w c.mio c.duration s v in
      let s' = (park w c.mio c.duration s).0 in
      elim (Option-cases (c.mio (poll_timeout w c.duration s))) [
        | inl e ↦ inl (e, (entered en s', ground (arith, fails e)))
        | inr (es, e) ↦
            inr
              ((λ z. ground (arith, e)), ((works es e).agree, ground (arith, (works es e).result)))
      ]

  all_parks :
      (cs : List Call) (en : Enter) (s : State Cell)
      → IsTasks s.tasks
      → (IsRefused w cs s
          × ((p : ParkReactor Cell Enter) × (park_calls w cs (entered en s)
                ≡ unwound poll_failed p)))
        ⊎ ((IsRefused w cs s → ⊥)
            × ((s' : State Cell) × (IsTasks s'.tasks
                  × (park_calls w cs (entered en s) ≡ left (entered en s')))))
  unfolding park_calls IsRefused
  all_parks [] en s v = inr (λ z. z, (s, (v, refl)))
  all_parks (c ∷ cs) en s v = elim (one_park c en s v) [
    | inl (h, (p, e)) ↦ inl (inl h, (p, ground (arith, e)))
    | inr (h, (v', e)) ↦ elim (all_parks cs en (park w c.mio c.duration s).0 v') [
      | inl (h', (p, e')) ↦ inl (inr h', (p, ground (arith, e, e')))
      | inr (h', (s2, (v2, e'))) ↦
          inr (λ z. elim z [ inl r ↦ h r | inr r ↦ h' r ], (s2, (v2, ground (arith, e, e'))))
    ]
  ]

  -- Parking on the timer, whatever was left of an earlier park, never panics with `not entered`. If mio
  -- refuses one of the calls of the turn, at the timeout that the reactor hands it then, the park panics
  -- with that error. If mio refuses none of them, the address of `Enter` is taken back, the tasks of the
  -- reactor agree again, and the park panics exactly if the timer's turn fails.
  pub timer_park_lem :
      (turn : Timeout → List Call × Bool) (en : Enter) (duration : Timeout)
      (p : ParkReactor Cell Enter)
      → IsTasks p.reactor.tasks
      → (IsRefused w (turn duration).0 p.reactor
          × ((p' : ParkReactor Cell Enter) × (timer_park w turn en duration p
                ≡ unwound poll_failed p')))
        ⊎ ((IsRefused w (turn duration).0 p.reactor → ⊥)
            × ((s : State Cell) × (IsTasks s.tasks
                  × (timer_park w turn en duration p ≡ (
                      let idle : ParkReactor Cell Enter = record { reactor = s; enter = none } in
                      if (turn duration).1 then left idle else unwound turn_failed idle)))))
  unfolding timer_park after_turn
  timer_park_lem turn en duration p v = elim (all_parks (turn duration).0 en p.reactor v) [
    | inl (h, (p', e)) ↦ inl (h, (p', ground (arith, e)))
    | inr (h, (s, (v', e))) ↦ inr (h, (s, (v', ground (arith, e))))
  ]
