-- ===== src/Reactor/Poll/Calls.antt =====
-- fumio-reactor/src/reactor.rs: which wakers the events of a turn call, through `update_ready`.
use Prim.Native.Nat.{bit_and}
use rust_fumio.Prelude.{
  ℕ, ◌≡◌, ◌≢◌, refl, ◌∙◌, ap, sym, subst, Bool, true, false, not, ◌&&◌, ◌||◌, Option, none, some,
  List, [], ◌∷◌, ◌++◌, if◌then◌else◌, ◌==◌, arith, Bool-cases, inl, inr, update, eq_of_==,
}
use rust_fumio.AtomicWaker.{AtomicWaker}
use rust_fumio.Reactor.Readiness.{
  Side, ReactorTask, Woken, reader, writer, update_side, update_ready,
}
use rust_fumio.Reactor.Registration.{State}
use rust_fumio.Reactor.Poll.{Event, Timeout, poll_timeout}

-- The waker of one side of the task at an address.
pub record Slot : Type 0 where
  pub token : ℕ
  pub side : Woken

abbrev pub at_side : {Cell : Type 0} → Woken → ReactorTask Cell → Side Cell
at_side reader t = t.read
at_side writer t = t.write

abbrev pub same_side : Woken → Woken → Bool
same_side reader reader = true
same_side reader writer = false
same_side writer reader = false
same_side writer writer = true

pub eq_of_same_side : (x y : Woken) → same_side x y ≡ true → y ≡ x
eq_of_same_side reader reader e = refl
eq_of_same_side reader writer e = absurd (cc)
eq_of_same_side writer reader e = absurd (cc)
eq_of_same_side writer writer e = refl

-- Whether the waker of that side is among those that are called.
abbrev pub calls : ℕ → Woken → List Slot → Bool
calls k side [] = false
calls k side (c ∷ cs) = (c.token == k && same_side side c.side) || calls k side cs

-- Whether one of the events is for `k` and of interest to `mask`.
abbrev pub brings : (mask k : ℕ) → List Event → Bool
brings mask k [] = false
brings mask k (e ∷ es) = (e.token == k && not (bit_and mask e.readiness == 0)) || brings mask k es

abbrev pub slots : ℕ → List Woken → List Slot
slots k [] = []
slots k (x ∷ xs) = record { token = k; side = x } ∷ slots k xs

pub calls-append :
    (k : ℕ) (side : Woken) (xs ys : List Slot)
    → calls k side (xs ++ ys) ≡ (calls k side xs || calls k side ys)
calls-append k side [] ys = refl
calls-append k side (x ∷ xs) ys = ground (arith, calls-append k side xs ys)

module _ {Cell : Type 0} (w : AtomicWaker Cell) where
  -- The wakers that the loop over the events calls, in order.
  pub events_woken : List Event → State Cell → List Slot
  unfolding update_ready
  events_woken [] s = []
  events_woken (e ∷ es) s =
      let (task, woken) = update_ready w e.readiness (s.readiness e.token) in
      let updated = record s { readiness = update s.readiness e.token task } in
      if e.token == 0 then events_woken es s else slots e.token woken ++ events_woken es updated

  -- The wakers that one turn of the reactor calls.
  unfoldable pub turn_woken : (Timeout → Option (List Event)) → Timeout → State Cell → List Slot
  unfolding events_woken poll_timeout
  turn_woken mio timeout s = elim (mio (poll_timeout w timeout s)) [
    | none ↦ []
    | some es ↦ events_woken es s
  ]

  side_called :
      (n : ℕ) (s : Side Cell)
      → w.armed s.waker ≡ true
      → (bit_and s.mask n == 0) ≡ false
      → (update_side w n s).1 ≡ true
  unfolding update_side
  side_called n s a b = ground (arith, a, b, w.wake_calls s.waker)

  side-same : (n : ℕ) (s : Side Cell) → (bit_and s.mask n == 0) ≡ true → (update_side w n s).0 ≡ s
  unfolding update_side
  side-same n s b = ground (arith, b)

  ready_called :
      (k n : ℕ) (side : Woken) (t : ReactorTask Cell)
      → w.armed (at_side side t).waker ≡ true
      → (bit_and (at_side side t).mask n == 0) ≡ false
      → calls k side (slots k (update_ready w n t).1) ≡ true
  unfolding update_ready
  ready_called k n reader t a b = ground (arith, side_called n t.read a b)
  ready_called k n writer t a b = ground (arith, side_called n t.write a b)

  ready-same :
      (n : ℕ) (side : Woken) (t : ReactorTask Cell)
      → (bit_and (at_side side t).mask n == 0) ≡ true
      → at_side side (update_ready w n t).0 ≡ at_side side t
  unfolding update_ready
  ready-same n reader t b = side-same n t.read b
  ready-same n writer t b = side-same n t.write b

  abbrev after_event : Event → State Cell → State Cell
  after_event e s = record s {
    readiness = update s.readiness e.token (update_ready w e.readiness (s.readiness e.token)).0;
  }

  after_event-other :
      (k : ℕ) (e : Event) (s : State Cell)
      → (e.token == k) ≡ false
      → (after_event e s).readiness k ≡ s.readiness k
  after_event-other k e s h = rw h refl

  after_event-here :
      (k : ℕ) (e : Event) (s : State Cell)
      → (e.token == k) ≡ true
      → (after_event e s).readiness k ≡ (update_ready w e.readiness (s.readiness k)).0
  after_event-here k e s h =
      let same : e.token ≡ k = eq_of_== e.token k h in
      rw h (ap (λ x. (update_ready w e.readiness (s.readiness x)).0) same)

  -- If the waker of a side is in place, and one of the events is for it, the loop calls that waker.
  pub events_woken-calls :
      (k : ℕ) (side : Woken) (es : List Event) (s : State Cell)
      → k ≢ 0
      → w.armed (at_side side (s.readiness k)).waker ≡ true
      → brings (at_side side (s.readiness k)).mask k es ≡ true
      → calls k side (events_woken es s) ≡ true
  unfolding events_woken
  events_woken-calls k side [] s ne a b = absurd (cc)
  events_woken-calls k side (e ∷ es) s ne a b = elim (Bool-cases (e.token == 0)) [
    | inl z ↦
        let other : (e.token == k) ≡ false = ground (arith, z) in
        rw z (events_woken-calls k side es s ne a (rw other at b))
    | inr nz ↦
        let later =
          calls-append k side (slots e.token (update_ready w e.readiness (s.readiness e.token)).1)
            (events_woken es (after_event e s)) in
        let rest = events_woken-calls k side es (after_event e s) ne in
        rw nz (elim (Bool-cases (e.token == k)) [
          | inr other ↦
              let same = ap (at_side side) (after_event-other k e s other) in
              let found =
                rest (ap (λ x. w.armed x.waker) same ∙ a)
                  (ap (λ x. brings x.mask k es) same ∙ rw other at b) in
              later ∙ ground (arith, found)
          | inl here ↦
              elim (Bool-cases (bit_and (at_side side (s.readiness k)).mask e.readiness == 0)) [
                | inl none_wanted ↦
                    let same =
                      ap (at_side side) (after_event-here k e s here)
                      ∙ ready-same e.readiness side (s.readiness k) none_wanted in
                    let found =
                      rest (ap (λ x. w.armed x.waker) same ∙ a)
                        (ap (λ x. brings x.mask k es) same ∙ rw (here, none_wanted) at b) in
                    later ∙ ground (arith, found)
                | inr wanted ↦
                    let found : calls k side
                          (slots e.token (update_ready w e.readiness (s.readiness e.token)).1)
                        ≡ true =
                      subst
                        (λ x.
                          calls k side (slots x (update_ready w e.readiness (s.readiness x)).1)
                          ≡ true)
                        (sym (eq_of_== e.token k here))
                        (ready_called k e.readiness side (s.readiness k) a wanted) in
                    later ∙ ap (λ x. x || calls k side (events_woken es (after_event e s))) found
              ]
        ])
  ]

  pub turn_woken-some :
      (mio : Timeout → Option (List Event)) (timeout : Timeout) (s : State Cell) (es : List Event)
      → mio (poll_timeout w timeout s) ≡ some es
      → turn_woken mio timeout s ≡ events_woken es s
  unfolding turn_woken
  turn_woken-some mio timeout s es e = rw (e, turn_woken) refl
