-- ===== src/Net/Options/Answers.antt =====
-- What a socket answers after operations on its registration.
use rust_fumio.Prelude.{ℕ, ◌≡◌, Bool, some, List, arith}
use rust_fumio.AtomicWaker.{AtomicWaker}
use rust_fumio.Reactor.Registration.{State, registration_io_ref}
use rust_fumio.Reactor.Registration.Unlock.{Op, run}
use rust_fumio.Reactor.Registration.Source.{run-io}
use rust_fumio.Reactor.Evented.{PollEvented, evented_io_ref}
use rust_fumio.Net.{Io, Calls}
use rust_fumio.Net.Construct.{Ready, evented_new, registration_new}
use rust_fumio.Net.Options.{
  asked, listener_local_addr, local_addr, set_broadcast, broadcast, set_multicast_loop_v4,
  multicast_loop_v4, set_multicast_ttl_v4, multicast_ttl_v4, set_multicast_loop_v6,
  multicast_loop_v6, set_ttl, ttl, join_multicast_v4, join_multicast_v6, leave_multicast_v4,
  leave_multicast_v6, take_error,
}

-- A socket made with `io`, after operations on its registration.
abbrev pub used :
    {Cell Mio : Type 0}
    → AtomicWaker Cell
    → Ready
    → State Cell
    → Mio
    → Bool
    → List Op
    → PollEvented Cell Mio
used w m reactor io handle ops =
    let p = evented_new m reactor io handle in
    record p { registration = (run w ops p.registration).0 }

module _ {N Mio Cell : Type 0} (sys : Calls N Mio) (w : AtomicWaker Cell) (m : Ready)
    (reactor : State Cell) (io : Mio) (handle : Bool) (ops : List Op) where
  asked-used :
      {A : Type 0} (call : Mio → Io N A) (n : N)
      → asked call (used w m reactor io handle ops) n ≡ some (call io n)
  unfolding asked evented_io_ref registration_io_ref evented_new registration_new
  asked-used call n =
      let p = evented_new m reactor io handle in
      let kept = run-io w ops p.registration in ground (arith, kept)

  -- On a socket that was made with the source `io`, after any sequence of operations on its
  -- registration, whatever mio answers, its address, each of its options and its error are what the
  -- source gives, and the question does not panic.
  pub options-answered :
      (n : N) (on : Bool) (count multiaddr interface : ℕ)
      → let p = used w m reactor io handle ops in
        (local_addr sys p n ≡ some (sys.local_addr io n))
        × (set_broadcast sys p on n ≡ some (sys.set_broadcast io on n))
        × (broadcast sys p n ≡ some (sys.broadcast io n))
        × (set_multicast_loop_v4 sys p on n ≡ some (sys.set_multicast_loop_v4 io on n))
        × (multicast_loop_v4 sys p n ≡ some (sys.multicast_loop_v4 io n))
        × (set_multicast_ttl_v4 sys p count n ≡ some (sys.set_multicast_ttl_v4 io count n))
        × (multicast_ttl_v4 sys p n ≡ some (sys.multicast_ttl_v4 io n))
        × (set_multicast_loop_v6 sys p on n ≡ some (sys.set_multicast_loop_v6 io on n))
        × (multicast_loop_v6 sys p n ≡ some (sys.multicast_loop_v6 io n))
        × (set_ttl sys p count n ≡ some (sys.set_ttl io count n))
        × (ttl sys p n ≡ some (sys.ttl io n))
        × (join_multicast_v4 sys p multiaddr interface n
            ≡ some (sys.join_multicast_v4 io multiaddr interface n))
        × (join_multicast_v6 sys p multiaddr interface n
            ≡ some (sys.join_multicast_v6 io multiaddr interface n))
        × (leave_multicast_v4 sys p multiaddr interface n
            ≡ some (sys.leave_multicast_v4 io multiaddr interface n))
        × (leave_multicast_v6 sys p multiaddr interface n
            ≡ some (sys.leave_multicast_v6 io multiaddr interface n))
        × (take_error sys p n ≡ some (sys.take_error io n))
        × (listener_local_addr sys p n ≡ some (sys.local_addr io n))
  unfolding listener_local_addr local_addr set_broadcast broadcast set_multicast_loop_v4
      multicast_loop_v4 set_multicast_ttl_v4 multicast_ttl_v4 set_multicast_loop_v6
      multicast_loop_v6 set_ttl ttl join_multicast_v4 join_multicast_v6 leave_multicast_v4
      leave_multicast_v6 take_error
  options-answered n on count multiaddr interface = (
    asked-used sys.local_addr n,
    asked-used (λ s. sys.set_broadcast s on) n,
    asked-used sys.broadcast n,
    asked-used (λ s. sys.set_multicast_loop_v4 s on) n,
    asked-used sys.multicast_loop_v4 n,
    asked-used (λ s. sys.set_multicast_ttl_v4 s count) n,
    asked-used sys.multicast_ttl_v4 n,
    asked-used (λ s. sys.set_multicast_loop_v6 s on) n,
    asked-used sys.multicast_loop_v6 n,
    asked-used (λ s. sys.set_ttl s count) n,
    asked-used sys.ttl n,
    asked-used (λ s. sys.join_multicast_v4 s multiaddr interface) n,
    asked-used (λ s. sys.join_multicast_v6 s multiaddr interface) n,
    asked-used (λ s. sys.leave_multicast_v4 s multiaddr interface) n,
    asked-used (λ s. sys.leave_multicast_v6 s multiaddr interface) n,
    asked-used sys.take_error n,
    asked-used sys.local_addr n,
  )
