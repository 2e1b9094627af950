-- ===== src/Net/UdpSocket.antt =====
-- fumio-reactor/src/net/udp_socket.rs: making a socket, and the futures of its two operations.
use rust_fumio.Prelude.{ℕ, Bool}
use rust_fumio.AtomicWaker.{AtomicWaker}
use rust_fumio.Reactor.Registration.{State}
use rust_fumio.Reactor.Evented as Evented
use rust_fumio.Reactor.Evented.{PollEvented, Tried}
use rust_fumio.Reactor.Sockets.{Answer, poll_recv_from, poll_send_to}
use rust_fumio.Net.{SocketAddr, v4, v6, unspecified, Io, pure, ◌>>=◌, Sockets}
use rust_fumio.Net.Construct.{Ready, evented_new, default_builder_for}

-- Binding a builder gives a socket of std here.
module _ {N Builder Std Mio Cell : Type 0} (net : Sockets N Builder Std Std Mio) (m : Ready)
    (reactor : State Cell) (current : Bool) where
  unfoldable pub from_std : Std → Bool → Io N (PollEvented Cell Mio)
  from_std socket handle = do mio ← net.from_std socket; pure (evented_new m reactor mio handle)

  pub from_mio : Mio → Bool → Io N (PollEvented Cell Mio)
  from_mio socket handle = pure (evented_new m reactor socket handle)

  unfoldable pub bind_with : SocketAddr → Bool → Io N (PollEvented Cell Mio)
  unfolding from_std
  bind_with local handle = do
    builder ← default_builder_for net local
    socket ← net.bind builder local
    from_std socket handle

  pub bind : SocketAddr → Io N (PollEvented Cell Mio)
  unfolding bind_with
  bind local = bind_with local current

  pub bind_port : ℕ → Io N (PollEvented Cell Mio)
  unfolding bind
  bind_port port = bind (v6 unspecified port)

  pub bind_ipv4_port : ℕ → Io N (PollEvented Cell Mio)
  unfolding bind
  bind_ipv4_port port = bind (v4 unspecified port)

  pub try_clone_with : PollEvented Cell Mio → Bool → Io N (PollEvented Cell Mio)
  try_clone_with p handle = do mio ← net.try_clone p.io; pure (evented_new m reactor mio handle)

  pub try_clone : PollEvented Cell Mio → Io N (PollEvented Cell Mio)
  unfolding try_clone_with
  try_clone p = try_clone_with p current

  -- `TryFrom` for the socket of std, and for that of mio.
  pub try_from_std : Std → Io N (PollEvented Cell Mio)
  unfolding from_std
  try_from_std socket = from_std socket current

  pub try_from_mio : Mio → Io N (PollEvented Cell Mio)
  unfolding from_mio
  try_from_mio socket = from_mio socket current

module _ {Cell S : Type 0} (w : AtomicWaker Cell) (mio : Bool) (t fuel : ℕ) where
  -- `poll` of `UdpRecvFrom` and of `UdpSendTo`.
  pub recv_from_poll :
      {A : Type 0}
      → (S → S × Evented.IoResult A)
      → PollEvented Cell S
      → PollEvented Cell S × Tried (Answer A)
  recv_from_poll recv p = poll_recv_from w mio t fuel recv p

  pub send_to_poll :
      {A : Type 0}
      → (S → S × Evented.IoResult A)
      → PollEvented Cell S
      → PollEvented Cell S × Tried (Answer A)
  send_to_poll send p = poll_send_to w mio t fuel send p
