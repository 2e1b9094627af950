-- ===== src/Net/Laws.antt =====
-- Which calls making a socket takes, in which order, and which of them may fail.
use rust_fumio.Prelude.{
  ℕ, ◌≡◌, Bool, true, false, Option, none, some, List, [], ◌∷◌, snoc, if◌then◌else◌, ◌==◌, arith,
  inl, inr, Bool-cases,
}
use rust_fumio.Reactor.Registration.{State}
use rust_fumio.Reactor.Evented.{PollEvented}
use rust_fumio.Net.{SocketAddr, v4, v6, unspecified, ok, err, Io, and_then, Sockets}
use rust_fumio.Net.Construct.{Ready, evented_new, default_builder_for, builder_for}
use rust_fumio.Net.TcpListener as TcpListener
use rust_fumio.Net.TcpStream as TcpStream
use rust_fumio.Net.UdpSocket as UdpSocket

pub data Call : Type 0 where
  call_new_v4 : Call
  call_new_v6 : Call
  call_only_v6 : (on : Bool) → Call
  call_reuse_address : (on : Bool) → Call
  call_bind : (local : SocketAddr) → Call
  call_listen : (backlog : ℕ) → Call
  call_to_tcp_stream : Call
  call_from_std : Call
  call_connect : (target : SocketAddr) → Call
  call_try_clone : Call

-- A network that writes down its calls; `fails` says which of them fail, and with which code.
abbrev pub logged : (Call → Option ℕ) → Call → Io (List Call) (Unit {0})
logged fails c log = elim (fails c) [
  | none ↦ (snoc log c, ok tt)
  | some code ↦ (snoc log c, err code)
]

abbrev pub network : (Call → Option ℕ) → Sockets (List Call) Unit Unit Unit Unit
network fails = record {
  new_v4 = logged fails call_new_v4;
  new_v6 = logged fails call_new_v6;
  only_v6 = λ _ on. logged fails (call_only_v6 on);
  reuse_address = λ _ on. logged fails (call_reuse_address on);
  bind = λ _ local. logged fails (call_bind local);
  listen = λ _ backlog. logged fails (call_listen backlog);
  to_tcp_stream = λ _. logged fails call_to_tcp_stream;
  from_std = λ _. logged fails call_from_std;
  connect_stream = λ _ target. logged fails (call_connect target);
  try_clone = λ _. logged fails call_try_clone;
}

-- A sequence of calls that ends at the first required one that fails, with its code.
pub data Step : Type 0 where
  required : (c : Call) → Step
  optional : (c : Call) → Step

abbrev pub attempt : {A : Type 0} → (Call → Option ℕ) → List Step → A → Io (List Call) A
attempt fails [] a log = (log, ok a)
attempt fails (optional c ∷ cs) a log = attempt fails cs a (snoc log c)
attempt fails (required c ∷ cs) a log =
    let rest = attempt fails cs a (snoc log c) in
    elim (fails c) [ none ↦ rest | some code ↦ (snoc log c, err code) ]

abbrev pub builder_steps : SocketAddr → List Step → List Step
builder_steps (v4 ip port) rest = required call_new_v4 ∷ required (call_reuse_address true) ∷ rest
builder_steps (v6 ip port) rest =
    required call_new_v6
    ∷ (if ip == unspecified
        then optional (call_only_v6 false) ∷ required (call_reuse_address true) ∷ rest
        else required (call_reuse_address true) ∷ rest)

module _ {Cell : Type 0} (fails : Call → Option ℕ) (m : Ready) (reactor : State Cell) where
  -- What is made: a source that is not registered, with the lazy handle.
  abbrev pub made : Bool → PollEvented Cell Unit
  made handle = evented_new m reactor tt handle

  default_builder_for-steps :
      {A : Type 0} (local : SocketAddr) (k : Unit → Io (List Call) A) (rest : List Step) (a : A)
      (log : List Call)
      → ((log' : List Call) → k tt log' ≡ attempt fails rest a log')
      → and_then (default_builder_for (network fails) local log) k
        ≡ attempt fails (builder_steps local rest) a log
  unfolding default_builder_for builder_for
  default_builder_for-steps (v4 ip port) k rest a log after =
      ground (arith, after (snoc (snoc log call_new_v4) (call_reuse_address true)))
  default_builder_for-steps (v6 ip port) k rest a log after =
      let made = snoc log call_new_v6 in
      let shared = snoc made (call_only_v6 false) in
      elim (Bool-cases (ip == unspecified)) [
        | inl e ↦ ground (arith, after (snoc shared (call_reuse_address true)), e)
        | inr e ↦ ground (arith, after (snoc made (call_reuse_address true)), e)
      ]

  tcp_bind_with :
      (local : SocketAddr) (current handle : Bool) (log : List Call)
      → TcpListener.bind_with (network fails) m reactor current local handle log
        ≡ attempt fails
            (builder_steps local (
              required (call_bind local)
              ∷ required (call_listen 1024)
              ∷ required call_from_std
              ∷ []))
            (made handle)
            log
  unfolding TcpListener.bind_with TcpListener.from_std
  tcp_bind_with local current handle log =
      default_builder_for-steps local _ _ (made handle) log (λ log'. ground arith)

  udp_bind_with :
      (local : SocketAddr) (current handle : Bool) (log : List Call)
      → UdpSocket.bind_with (network fails) m reactor current local handle log
        ≡ attempt fails
            (builder_steps local (required (call_bind local) ∷ required call_from_std ∷ []))
            (made handle)
            log
  unfolding UdpSocket.bind_with UdpSocket.from_std
  udp_bind_with local current handle log =
      default_builder_for-steps local _ _ (made handle) log (λ log'. ground arith)

  -- On a network where any calls may fail, binding a TCP listener or a UDP socket takes exactly these
  -- calls in this order: a builder of the address's family, for an unspecified IPv6 address the
  -- switching off of IPV6_V6ONLY, the reuse of the address, the bind, for TCP the listening with a
  -- backlog of 1024, and the wrapping. It ends at the first of them that fails, with that error, but the
  -- failure to switch off IPV6_V6ONLY is passed over; otherwise it gives an unregistered socket.
  pub bind_with-attempt :
      (local : SocketAddr) (current handle : Bool) (log : List Call)
      → (TcpListener.bind_with (network fails) m reactor current local handle log
          ≡ attempt fails
              (builder_steps local (
                required (call_bind local)
                ∷ required (call_listen 1024)
                ∷ required call_from_std
                ∷ []))
              (made handle)
              log)
        × (UdpSocket.bind_with (network fails) m reactor current local handle log
            ≡ attempt fails
                (builder_steps local (required (call_bind local) ∷ required call_from_std ∷ []))
                (made handle)
                log)
  bind_with-attempt local current handle log =
      (tcp_bind_with local current handle log, udp_bind_with local current handle log)

  abbrev pub connect_steps : Bool → SocketAddr → List Step
  connect_steps windows target =
      let (family, any) : Call × SocketAddr = elim target [
        | v4 _ _ ↦ (call_new_v4, v4 unspecified 0)
        | v6 _ _ ↦ (call_new_v6, v6 unspecified 0)
      ] in
      let last = required call_to_tcp_stream ∷ required (call_connect target) ∷ [] in
      required family ∷ (if windows then required (call_bind any) ∷ last else last)

  -- Connecting takes a builder of the target's family, on Windows the bind to any address of that
  -- family, the conversion and the connecting; it ends at the first of them that fails, with that error,
  -- and otherwise gives a future that has the unregistered stream.
  pub connect_with-attempt :
      (target : SocketAddr) (current windows handle : Bool) (log : List Call)
      → TcpStream.connect_with (network fails) m reactor current windows target handle log
        ≡ attempt fails (connect_steps windows target) (some (made handle)) log
  unfolding TcpStream.connect_with TcpStream.connect_builder TcpStream.prepare
  connect_with-attempt (v4 ip port) current windows handle log = ground arith
  connect_with-attempt (v6 ip port) current windows handle log = ground arith
