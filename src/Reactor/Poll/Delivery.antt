-- ===== src/Reactor/Poll/Delivery.antt =====
-- The way of an event, from mio through a turn of fumio-reactor/src/reactor.rs to the poll of the
-- registration that it is for.
use Prim.Native.Nat.{bit_and, bit_or}
use rust_fumio.Prelude.{
  ℕ, ◌%◌, ◌≡◌, ◌≢◌, refl, ◌∙◌, sym, ap, subst, Bool, true, false, Option, none, some, List, [], ◌∷◌,
  if◌then◌else◌, ◌==◌, arith, Bool-cases, inl, inr, update, eq_of_==,
}
use rust_fumio.AtomicWaker.{AtomicWaker}
use rust_fumio.Reactor.Waker.{start_poll}
use rust_fumio.Reactor.Tasks.{Tasks, cleanup_tasks}
use rust_fumio.Reactor.Readiness.{
  PollReady, Side, ReactorTask, ready, pending, failed, update_side, update_ready, poll_ready,
  poll_read_ready, poll_write_ready,
}
use rust_fumio.Reactor.Readiness.Laws.{poll_ready_lem}
use rust_fumio.Reactor.Registration.{
  State, done, with_task, lock, unlock, task_from_state, registration_poll_read,
  registration_poll_write,
}
use rust_fumio.Reactor.Poll.{
  Event, Timeout, handle_events, poll_timeout, after_cleanup, after_mio, poll,
}

-- What the events for `t` add to the readiness `bits` of a side that is interested in `mask`.
abbrev pub gathered : (mask t : ℕ) → List Event → ℕ → ℕ
gathered mask t [] bits = bits
gathered mask t (e ∷ es) bits =
    let wanted = bit_and mask e.readiness in
    gathered mask t es
      (if e.token == t then (if wanted == 0 then bits else bit_or bits wanted) else bits)

module _ {Cell : Type 0} (w : AtomicWaker Cell) where
  -- The events reach the side, and change nothing else that a poll depends on.
  record Reached (t : ℕ) (es : List Event) (s s' : State Cell) : Type 0 where
    read_bits :
        (s'.readiness t).read.readiness
        ≡ gathered (s.readiness t).read.mask t es (s.readiness t).read.readiness
    write_bits :
        (s'.readiness t).write.readiness
        ≡ gathered (s.readiness t).write.mask t es (s.readiness t).write.readiness
    same_word : s'.word ≡ s.word
    same_alive : s'.alive ≡ s.alive

  update_side-mask : (n : ℕ) (s : Side Cell) → (update_side w n s).0.mask ≡ s.mask
  unfolding update_side
  update_side-mask n s = ground arith

  update_side-readiness :
      (n : ℕ) (s : Side Cell)
      → (update_side w n s).0.readiness
        ≡ (if bit_and s.mask n == 0 then s.readiness else bit_or s.readiness (bit_and s.mask n))
  unfolding update_side
  update_side-readiness n s = ground arith

  -- The effect of one event on the sides of `t`.
  record Noted (t : ℕ) (e : Event) (old new : ReactorTask Cell) : Type 0 where
    read_mask : new.read.mask ≡ old.read.mask
    write_mask : new.write.mask ≡ old.write.mask
    read_bits : new.read.readiness ≡ (
        if bit_and old.read.mask e.readiness == 0
        then old.read.readiness
        else bit_or old.read.readiness (bit_and old.read.mask e.readiness))
    write_bits : new.write.readiness ≡ (
        if bit_and old.write.mask e.readiness == 0
        then old.write.readiness
        else bit_or old.write.readiness (bit_and old.write.mask e.readiness))

  update_ready-Noted :
      (t : ℕ) (e : Event) (old : ReactorTask Cell)
      → Noted t e old (update_ready w e.readiness old).0
  unfolding update_ready
  update_ready-Noted t e old = record {
    read_mask = update_side-mask e.readiness old.read;
    write_mask = update_side-mask e.readiness old.write;
    read_bits = update_side-readiness e.readiness old.read;
    write_bits = update_side-readiness e.readiness old.write;
  }

  abbrev after_event : Event → State Cell → State Cell
  after_event e s = record s {
    readiness = update s.readiness e.token (update_ready w e.readiness (s.readiness e.token)).0;
  }

  here-Noted :
      (t : ℕ) (e : Event) (s : State Cell)
      → (e.token == t) ≡ true
      → Noted t e (s.readiness t) ((after_event e s).readiness t)
  here-Noted t e s h =
      let same : e.token ≡ t = eq_of_== e.token t h in
      rw h (
        subst (λ x. Noted t e (s.readiness t) (update_ready w e.readiness (s.readiness x)).0)
          (sym same) (update_ready-Noted t e (s.readiness t)))

  handle_events-Reached :
      (t : ℕ) (es : List Event) (s : State Cell) → t ≢ 0 → Reached t es s (handle_events w es s)
  unfolding handle_events
  handle_events-Reached t [] s ne = record {
    read_bits = refl;
    write_bits = refl;
    same_word = refl;
    same_alive = refl;
  }
  handle_events-Reached t (e ∷ es) s ne = elim (Bool-cases (e.token == 0)) [
    | inl z ↦
        let other : (e.token == t) ≡ false = ground (arith, z) in
        let r = handle_events-Reached t es s ne in
        rw z (record {
          read_bits = rw other r.read_bits;
          write_bits = rw other r.write_bits;
          same_word = r.same_word;
          same_alive = r.same_alive;
        })
    | inr nz ↦
        let r = handle_events-Reached t es (after_event e s) ne in
        rw nz (elim (Bool-cases (e.token == t)) [
          | inl h ↦
              let n = here-Noted t e s h in
              record {
                read_bits = rw h (rw (n.read_mask, n.read_bits) at r.read_bits);
                write_bits = rw h (rw (n.write_mask, n.write_bits) at r.write_bits);
                same_word = r.same_word;
                same_alive = r.same_alive;
              }
          | inr h ↦ record {
            read_bits = rw h (rw h at r.read_bits);
            write_bits = rw h (rw h at r.write_bits);
            same_word = r.same_word;
            same_alive = r.same_alive;
          }
        ])
  ]

-- What a poll of a side with these bits answers.
abbrev pub answer : Bool → ℕ → PollReady
answer alive bits = if bits == 0 then (if alive then pending else failed) else ready bits

module _ {Cell : Type 0} (w : AtomicWaker Cell) where
  poll_ready-answer :
      (alive : Bool) (s : Side Cell) → (poll_ready w alive s).1 ≡ answer alive s.readiness
  poll_ready-answer alive s =
      let (_, (some_bits, no_bits)) = poll_ready_lem w alive s in
      elim (Bool-cases (s.readiness == 0)) [
        | inl z ↦ ground (arith, z, no_bits)
        | inr nz ↦ ground (arith, nz, some_bits)
      ]

  -- The polls of a registration whose word holds `t` are those of the sides of `t`.
  pub registration-sides :
      (s : State Cell) (t : ℕ)
      → s.word ≡ t
      → t % 2 ≡ 0
      → t ≢ 0
      → ((registration_poll_read w s).1 ≡ done (poll_ready w s.alive (s.readiness t).read).1)
        × ((registration_poll_write w s).1 ≡ done (poll_ready w s.alive (s.readiness t).write).1)
  unfolding registration_poll_read registration_poll_write with_task lock unlock task_from_state
      poll_read_ready poll_write_ready
  registration-sides s t e even full = (ground arith, ground arith)

  after_cleanup-keeps :
      (tasks : Option Tasks) (s : State Cell) (t : ℕ)
      → (((after_cleanup w tasks s).0.readiness t ≡ s.readiness t)
          × ((after_cleanup w tasks s).0.word ≡ s.word))
        × ((after_cleanup w tasks s).0.alive ≡ s.alive)
  unfolding after_cleanup
  after_cleanup-keeps none s t = ((refl, refl), refl)
  after_cleanup-keeps (some tasks) s t = ((refl, refl), refl)

  -- After a turn in which mio gives events, the polls of a source that is registered, at an even address
  -- that is not null and with the lock free, answer exactly what was noted before and what the
  -- events for that address bring of the bits that the reading, and the writing side is interested
  -- in; without any they are pending, or fail if the reactor is gone.
  pub events-delivered :
      (mio : Timeout → Option (List Event)) (timeout : Timeout) (s : State Cell) (t : ℕ)
      (es : List Event)
      → mio (poll_timeout w timeout s) ≡ some es
      → s.word ≡ t
      → t % 2 ≡ 0
      → t ≢ 0
      → let s' = (poll w mio timeout s).0 in
        let side = s.readiness t in
        ((registration_poll_read w s').1
          ≡ done (answer s.alive (gathered side.read.mask t es side.read.readiness)))
        × ((registration_poll_write w s').1
            ≡ done (answer s.alive (gathered side.write.mask t es side.write.readiness)))
  unfolding poll after_mio
  events-delivered mio timeout s t es e word even full =
      let s1 = record s { waker = (start_poll s.waker).0 } in
      let handled = handle_events w es s1 in
      let s' = (after_cleanup w (cleanup_tasks handled.tasks) handled).0 in
      let r = handle_events-Reached w t es s1 full in
      let ((same, same_word), same_alive) =
        after_cleanup-keeps (cleanup_tasks handled.tasks) handled t in
      let (reads, writes) = registration-sides s' t (same_word ∙ r.same_word ∙ word) even full in
      let alive : s'.alive ≡ s.alive = same_alive ∙ r.same_alive in
      rw e (
        reads
            ∙ ap done (
                poll_ready-answer s'.alive (s'.readiness t).read
                ∙ cc (alive, ap (λ x. x.read.readiness) same, r.read_bits)),
        writes
            ∙ ap done (
                poll_ready-answer s'.alive (s'.readiness t).write
                ∙ cc (alive, ap (λ x. x.write.readiness) same, r.write_bits)),
      )
