-- ===== src/Net.antt =====
-- fumio-reactor/src/net: how sockets are made. The crates net2 and mio, and the operating system behind
-- them, are a parameter.
pub mod Construct
pub mod TcpListener
pub mod TcpStream
pub mod UdpSocket
pub mod Options
pub mod Laws
mod Examples
use rust_fumio.Prelude.{ℕ, Bool, true, false, ◌==◌, Option}

-- `std::net::SocketAddr`, with the numbers of the address and of the port.
pub data SocketAddr : Type 0 where
  v4 : (ip port : ℕ) → SocketAddr
  v6 : (ip port : ℕ) → SocketAddr

-- `Ipv4Addr::UNSPECIFIED` and `Ipv6Addr::UNSPECIFIED`
abbrev pub unspecified : ℕ
unspecified = 0

-- `io::Result`
pub data IoResult (A : Type 0) : Type 0 where
  ok : (a : A) → IoResult A
  err : (code : ℕ) → IoResult A

-- A computation on the state `N` of the network that may fail.
abbrev pub Io : Type 0 → Type 0 → Type 0
Io N A = N → N × IoResult A

abbrev pub pure : {N A : Type 0} → A → Io N A
pure a n = (n, ok a)

abbrev pub and_then : {N A B : Type 0} → N × IoResult A → (A → Io N B) → N × IoResult B
and_then (n, ok a) f = f a n
and_then (n, err code) f = (n, err code)

infixl 5 ◌>>=◌ ◌>>◌
abbrev pub ◌>>=◌ : {N A B : Type 0} → Io N A → (A → Io N B) → Io N B
◌>>=◌ m f n = and_then (m n) f

abbrev pub ◌>>◌ : {N B : Type 0} → Io N (Unit {0}) → Io N B → Io N B
◌>>◌ m k n = and_then (m n) (λ _. k)

-- `let _ = …`: a call of which the result is dropped.
abbrev pub ignored : {N A : Type 0} → Io N A → Io N (Unit {0})
ignored m n = ((m n).0, ok tt)

-- What is used of `net2::TcpBuilder` and `net2::UdpBuilder` (`Builder`), of the sockets of std (`Std`),
-- and of those of mio (`Mio`); `Bound` is what `bind` of the builder gives: nothing, or a socket.
pub record Sockets (N Builder Bound Std Mio : Type 0) : Type 0 where
  pub new_v4 : Io N Builder
  pub new_v6 : Io N Builder
  pub only_v6 : Builder → Bool → Io N (Unit {0})
  pub reuse_address : Builder → Bool → Io N (Unit {0})
  pub bind : Builder → SocketAddr → Io N Bound
  pub listen : Builder → ℕ → Io N Std
  pub to_tcp_stream : Builder → Io N Std
  pub from_std : Std → Io N Mio
  pub connect_stream : Std → SocketAddr → Io N Mio
  pub try_clone : Mio → Io N Mio

-- What the sockets of mio are asked without waiting: addresses are numbers, and so are errors.
pub record Calls (N Mio : Type 0) : Type 0 where
  pub local_addr : Mio → Io N SocketAddr
  pub set_broadcast : Mio → Bool → Io N (Unit {0})
  pub broadcast : Mio → Io N Bool
  pub set_multicast_loop_v4 : Mio → Bool → Io N (Unit {0})
  pub multicast_loop_v4 : Mio → Io N Bool
  pub set_multicast_ttl_v4 : Mio → ℕ → Io N (Unit {0})
  pub multicast_ttl_v4 : Mio → Io N ℕ
  pub set_multicast_loop_v6 : Mio → Bool → Io N (Unit {0})
  pub multicast_loop_v6 : Mio → Io N Bool
  pub set_ttl : Mio → ℕ → Io N (Unit {0})
  pub ttl : Mio → Io N ℕ
  pub join_multicast_v4 : Mio → ℕ → ℕ → Io N (Unit {0})
  pub join_multicast_v6 : Mio → ℕ → ℕ → Io N (Unit {0})
  pub leave_multicast_v4 : Mio → ℕ → ℕ → Io N (Unit {0})
  pub leave_multicast_v6 : Mio → ℕ → ℕ → Io N (Unit {0})
  pub take_error : Mio → Io N (Option ℕ)
