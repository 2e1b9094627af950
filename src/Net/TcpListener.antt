-- ===== src/Net/TcpListener.antt =====
-- fumio-reactor/src/net/tcp_listen.rs: making a listener, and the streams of its connections.
use rust_fumio.Prelude.{ℕ, Bool, Option}
use rust_fumio.AtomicWaker.{AtomicWaker}
use rust_fumio.Reactor.Registration.{State}
use rust_fumio.Reactor.Evented as Evented
use rust_fumio.Reactor.Evented.{PollEvented, Tried}
use rust_fumio.Reactor.Sockets.{Answer, map_some, poll_accept, poll_accept_std}
use rust_fumio.Net.{SocketAddr, v4, v6, unspecified, Io, pure, ◌>>=◌, Sockets}
use rust_fumio.Net.Construct.{Ready, evented_new, default_builder_for}

-- `current` says whether `LazyHandle::new()` can be bound, `handle` whether a given handle can.
module _ {N Builder Bound Std Mio Cell : Type 0} (net : Sockets N Builder Bound Std Mio) (m : Ready)
    (reactor : State Cell) (current : Bool) where
  unfoldable pub from_std : Std → Bool → Io N (PollEvented Cell Mio)
  from_std listener handle = do mio ← net.from_std listener; pure (evented_new m reactor mio handle)

  pub from_mio : Mio → Bool → Io N (PollEvented Cell Mio)
  from_mio listener handle = pure (evented_new m reactor listener handle)

  unfoldable pub bind_with : SocketAddr → Bool → Io N (PollEvented Cell Mio)
  unfolding from_std
  bind_with local handle = do
    builder ← default_builder_for net local
    bound ← net.bind builder local
    listener ← net.listen builder 1024
    from_std listener handle

  pub bind : SocketAddr → Io N (PollEvented Cell Mio)
  unfolding bind_with
  bind local = bind_with local current

  pub bind_port : ℕ → Io N (PollEvented Cell Mio)
  unfolding bind
  bind_port port = bind (v6 unspecified port)

  pub bind_ipv4_port : ℕ → Io N (PollEvented Cell Mio)
  unfolding bind
  bind_ipv4_port port = bind (v4 unspecified port)

  pub try_clone_with : PollEvented Cell Mio → Bool → Io N (PollEvented Cell Mio)
  try_clone_with p handle = do mio ← net.try_clone p.io; pure (evented_new m reactor mio handle)

  pub try_clone : PollEvented Cell Mio → Io N (PollEvented Cell Mio)
  unfolding try_clone_with
  try_clone p = try_clone_with p current

  -- `TryFrom` for the socket of std, and for that of mio.
  pub try_from_std : Std → Io N (PollEvented Cell Mio)
  unfolding from_std
  try_from_std socket = from_std socket current

  pub try_from_mio : Mio → Io N (PollEvented Cell Mio)
  unfolding from_mio
  try_from_mio socket = from_mio socket current

module _ {Cell S : Type 0} (w : AtomicWaker Cell) (mio : Bool) (t fuel : ℕ) where
  -- `poll` and `poll_next` of `TcpIncoming`, and of `TcpIncomingStd`.
  pub incoming_poll :
      {A B : Type 0}
      → (A → B)
      → (S → S × Evented.IoResult A)
      → PollEvented Cell S
      → PollEvented Cell S × Tried (Answer B)
  incoming_poll wrap accept p = poll_accept w mio t fuel wrap accept p

  pub incoming_poll_next :
      {A B : Type 0}
      → (A → B)
      → (S → S × Evented.IoResult A)
      → PollEvented Cell S
      → PollEvented Cell S × Tried (Option (Answer B))
  incoming_poll_next wrap accept p =
      let (p', r) = poll_accept w mio t fuel wrap accept p in (p', map_some r)

  pub incoming_std_poll :
      {A : Type 0}
      → (S → S × Evented.IoResult A)
      → PollEvented Cell S
      → PollEvented Cell S × Tried (Answer A)
  incoming_std_poll accept p = poll_accept_std w mio t fuel accept p

  pub incoming_std_poll_next :
      {A : Type 0}
      → (S → S × Evented.IoResult A)
      → PollEvented Cell S
      → PollEvented Cell S × Tried (Option (Answer A))
  incoming_std_poll_next accept p =
      let (p', r) = poll_accept_std w mio t fuel accept p in (p', map_some r)
