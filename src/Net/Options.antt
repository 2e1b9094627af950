-- ===== src/Net/Options.antt =====
-- fumio-reactor/src/net/{udp_socket.rs, tcp_listen.rs}: the address and the options of a socket, which
-- are asked of the source that it keeps.
pub mod Answers
use rust_fumio.Prelude.{ℕ, Bool, Option, none, some}
use rust_fumio.Reactor.Evented.{PollEvented, evented_io_ref}
use rust_fumio.Net.{SocketAddr, IoResult, Io, Calls}

-- `self.mio_socket.io_ref()` and the call on it; `none` is the panic of a socket without a source.
pub asked :
    {N Mio Cell A : Type 0} → (Mio → Io N A) → PollEvented Cell Mio → N → Option (N × IoResult A)
unfolding evented_io_ref
asked call p n = elim (evented_io_ref p) [ none ↦ none | some io ↦ some (call io n) ]

module _ {N Mio Cell : Type 0} (sys : Calls N Mio) (p : PollEvented Cell Mio) where
  pub local_addr : N → Option (N × IoResult SocketAddr)
  unfolding asked
  local_addr = asked sys.local_addr p

  pub set_broadcast : Bool → N → Option (N × IoResult (Unit {0}))
  unfolding asked
  set_broadcast on = asked (λ io. sys.set_broadcast io on) p

  pub broadcast : N → Option (N × IoResult Bool)
  unfolding asked
  broadcast = asked sys.broadcast p

  pub set_multicast_loop_v4 : Bool → N → Option (N × IoResult (Unit {0}))
  unfolding asked
  set_multicast_loop_v4 on = asked (λ io. sys.set_multicast_loop_v4 io on) p

  pub multicast_loop_v4 : N → Option (N × IoResult Bool)
  unfolding asked
  multicast_loop_v4 = asked sys.multicast_loop_v4 p

  pub set_multicast_ttl_v4 : ℕ → N → Option (N × IoResult (Unit {0}))
  unfolding asked
  set_multicast_ttl_v4 count = asked (λ io. sys.set_multicast_ttl_v4 io count) p

  pub multicast_ttl_v4 : N → Option (N × IoResult ℕ)
  unfolding asked
  multicast_ttl_v4 = asked sys.multicast_ttl_v4 p

  pub set_multicast_loop_v6 : Bool → N → Option (N × IoResult (Unit {0}))
  unfolding asked
  set_multicast_loop_v6 on = asked (λ io. sys.set_multicast_loop_v6 io on) p

  pub multicast_loop_v6 : N → Option (N × IoResult Bool)
  unfolding asked
  multicast_loop_v6 = asked sys.multicast_loop_v6 p

  pub set_ttl : ℕ → N → Option (N × IoResult (Unit {0}))
  unfolding asked
  set_ttl count = asked (λ io. sys.set_ttl io count) p

  pub ttl : N → Option (N × IoResult ℕ)
  unfolding asked
  ttl = asked sys.ttl p

  pub join_multicast_v4 : ℕ → ℕ → N → Option (N × IoResult (Unit {0}))
  unfolding asked
  join_multicast_v4 multiaddr interface =
      asked (λ io. sys.join_multicast_v4 io multiaddr interface) p

  pub join_multicast_v6 : ℕ → ℕ → N → Option (N × IoResult (Unit {0}))
  unfolding asked
  join_multicast_v6 multiaddr interface =
      asked (λ io. sys.join_multicast_v6 io multiaddr interface) p

  pub leave_multicast_v4 : ℕ → ℕ → N → Option (N × IoResult (Unit {0}))
  unfolding asked
  leave_multicast_v4 multiaddr interface =
      asked (λ io. sys.leave_multicast_v4 io multiaddr interface) p

  pub leave_multicast_v6 : ℕ → ℕ → N → Option (N × IoResult (Unit {0}))
  unfolding asked
  leave_multicast_v6 multiaddr interface =
      asked (λ io. sys.leave_multicast_v6 io multiaddr interface) p

  pub take_error : N → Option (N × IoResult (Option ℕ))
  unfolding asked
  take_error = asked sys.take_error p

  -- `TcpListener::local_addr`
  pub listener_local_addr : N → Option (N × IoResult SocketAddr)
  unfolding asked
  listener_local_addr = asked sys.local_addr p
