-- ===== src/Net/TcpStream.antt =====
-- fumio-reactor/src/net/tcp_stream.rs: making a stream, and connecting.
use rust_fumio.Prelude.{ℕ, Bool, Option, some, if◌then◌else◌}
use rust_fumio.AtomicWaker.{AtomicWaker}
use rust_fumio.Reactor.Registration.{State}
use rust_fumio.Reactor.Evented as Evented
use rust_fumio.Reactor.Evented.{PollEvented, Tried}
use rust_fumio.Reactor.Sockets.{Answer, poll_read, poll_write, poll_flush}
use rust_fumio.Net.{SocketAddr, v4, v6, unspecified, Io, pure, ◌>>=◌, ◌>>◌, Sockets}
use rust_fumio.Net.Construct.{Ready, evented_new}

-- `windows` is the configuration of that name.
module _ {N Builder Bound Std Mio Cell : Type 0} (net : Sockets N Builder Bound Std Mio) (m : Ready)
    (reactor : State Cell) (current windows : Bool) where
  pub from_std : Std → Bool → Io N (PollEvented Cell Mio)
  from_std stream handle = do mio ← net.from_std stream; pure (evented_new m reactor mio handle)

  pub from_mio : Mio → Bool → Io N (PollEvented Cell Mio)
  from_mio stream handle = pure (evented_new m reactor stream handle)

  -- `connect_builder` gives the future of a connection, which has the stream.
  unfoldable pub connect_builder :
      Builder → SocketAddr → Bool → Io N (Option (PollEvented Cell Mio))
  connect_builder builder target handle = do
    std ← net.to_tcp_stream builder
    mio ← net.connect_stream std target
    pure (some (evented_new m reactor mio handle))

  -- The bind of the builder that only Windows needs.
  unfoldable pub prepare : Builder → SocketAddr → Io N (Unit {0})
  prepare builder local = if windows then (do bound ← net.bind builder local; pure tt) else pure tt

  unfoldable pub connect_with : SocketAddr → Bool → Io N (Option (PollEvented Cell Mio))
  unfolding connect_builder prepare
  connect_with (v4 ip port) handle = do
    builder ← net.new_v4
    prepare builder (v4 unspecified 0)
    connect_builder builder (v4 ip port) handle
  connect_with (v6 ip port) handle = do
    builder ← net.new_v6
    prepare builder (v6 unspecified 0)
    connect_builder builder (v6 ip port) handle

  pub connect : SocketAddr → Io N (Option (PollEvented Cell Mio))
  unfolding connect_with
  connect target = connect_with target current

  -- `TryFrom` for the socket of std, and for that of mio.
  pub try_from_std : Std → Io N (PollEvented Cell Mio)
  unfolding from_std
  try_from_std socket = from_std socket current

  pub try_from_mio : Mio → Io N (PollEvented Cell Mio)
  unfolding from_mio
  try_from_mio socket = from_mio socket current

-- `AsyncRead` and `AsyncWrite` for `TcpStream`; `poll_close` is in Reactor/Sockets.
module _ {Cell S : Type 0} (w : AtomicWaker Cell) (mio : Bool) (t fuel : ℕ) where
  pub stream_poll_read :
      {A : Type 0}
      → (S → S × Evented.IoResult A)
      → PollEvented Cell S
      → PollEvented Cell S × Tried (Answer A)
  stream_poll_read read p = poll_read w mio t fuel read p

  pub stream_poll_write :
      {A : Type 0}
      → (S → S × Evented.IoResult A)
      → PollEvented Cell S
      → PollEvented Cell S × Tried (Answer A)
  stream_poll_write write p = poll_write w mio t fuel write p

  pub stream_poll_flush :
      (S → S × Evented.IoResult Unit)
      → PollEvented Cell S
      → PollEvented Cell S × Tried (Answer Unit)
  stream_poll_flush flush p = poll_flush w mio t fuel flush p
