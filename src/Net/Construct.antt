-- ===== src/Net/Construct.antt =====
-- What all sockets are made with: `PollEvented::new` of fumio-reactor/src/reactor/evented.rs, and
-- `default_builder_for`, which fumio-reactor/src/net/{tcp_listen.rs, udp_socket.rs} both have.
use rust_fumio.Prelude.{ℕ, Bool, true, false, ◌==◌, if◌then◌else◌}
use rust_fumio.Reactor.Registration.{State}
use rust_fumio.Reactor.Evented.{PollEvented, incomplete}
use rust_fumio.Net.{SocketAddr, v4, v6, unspecified, Io, pure, ◌>>=◌, ◌>>◌, ignored, Sockets}

-- `mio::Ready`, as masks of bits: `all`, `writable`, `platform::hup()`, `-` and `|`.
pub record Ready : Type 0 where
  pub all : ℕ
  pub writable : ℕ
  pub hup : ℕ
  pub minus : ℕ → ℕ → ℕ
  pub both : ℕ → ℕ → ℕ

-- `Registration::new`, next to a reactor that it does not know yet.
unfoldable pub registration_new : {Cell : Type 0} → State Cell → ℕ → ℕ → State Cell
registration_new reactor read_mask write_mask = record reactor {
  word = 0;
  io = true;
  read_mask = read_mask;
  write_mask = write_mask;
}

-- `PollEvented::new`; `handle` says whether the lazy handle can be bound.
unfoldable pub evented_new : {Cell S : Type 0} → Ready → State Cell → S → Bool → PollEvented Cell S
unfolding registration_new
evented_new m reactor io handle = record {
  registration = registration_new reactor (m.minus m.all m.writable) (m.both m.writable m.hup);
  registered = incomplete;
  bound = handle;
  io = io;
  woken = false;
}

module _ {N Builder Bound Std Mio : Type 0} (net : Sockets N Builder Bound Std Mio) where
  -- The `match` of `default_builder_for`, of TCP and of UDP.
  unfoldable pub builder_for : SocketAddr → Io N Builder
  builder_for (v4 ip port) = net.new_v4
  builder_for (v6 ip port) = do
    builder ← net.new_v6
    if ip == unspecified then ignored (net.only_v6 builder false) else pure tt
    pure builder

  -- `TcpListener::default_builder_for` and `UdpSocket::default_builder_for`
  unfoldable pub default_builder_for : SocketAddr → Io N Builder
  unfolding builder_for
  default_builder_for local = do
    builder ← builder_for local
    net.reuse_address builder true
    pure builder
