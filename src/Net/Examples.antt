-- ===== src/Net/Examples.antt =====
-- Sockets on a network where IPV6_V6ONLY cannot be switched off.
use rust_fumio.Prelude.{ℕ, ◌+◌, ◌-◌, ◌≡◌, Bool, true, false, Option, none, some, [], ◌∷◌}
use rust_fumio.AtomicWaker.{one_shot}
use rust_fumio.Reactor.Readiness as Readiness
use rust_fumio.Reactor.Registration.{State}
use rust_fumio.Net.{v4, v6}
use rust_fumio.Net.Construct.{Ready}
use rust_fumio.Net.TcpListener as TcpListener
use rust_fumio.Net.TcpStream as TcpStream
use rust_fumio.Net.UdpSocket as UdpSocket
use rust_fumio.Net.Laws.{
  Call, call_only_v6, call_bind, call_listen, call_from_std, network, required, attempt,
  builder_steps, connect_steps, made, bind_with-attempt, connect_with-attempt,
}

abbrev v6_only : Call → Option ℕ
v6_only (call_only_v6 on) = some 22
v6_only _ = none

abbrev bits : Ready
bits = record { all = 15; writable = 2; hup = 16; minus = λ a b. a - b; both = λ a b. a + b }

abbrev reactor : State Bool
reactor = record {
  tasks = record { list = []; local_list = []; state = λ _. 0; refs = λ _. 1 };
  readiness = λ _. Readiness.new one_shot 1 2;
  waker = 0;
  signals = 0;
  alive = true;
  word = 0;
  io = true;
  read_mask = 1;
  write_mask = 2;
}

bind_with_example :
    (TcpListener.bind_with (network v6_only) bits reactor true (v6 0 80) true []
      ≡ attempt v6_only
          (builder_steps (v6 0 80) (
            required (call_bind (v6 0 80))
            ∷ required (call_listen 1024)
            ∷ required call_from_std
            ∷ []))
          (made v6_only bits reactor true)
          [])
    × (UdpSocket.bind_with (network v6_only) bits reactor true (v6 0 80) true []
        ≡ attempt v6_only
            (builder_steps (v6 0 80) (required (call_bind (v6 0 80)) ∷ required call_from_std ∷ []))
            (made v6_only bits reactor true)
            [])
bind_with_example = bind_with-attempt v6_only bits reactor (v6 0 80) true true []

connect_with_example :
    TcpStream.connect_with (network v6_only) bits reactor true false (v4 7 80) true []
    ≡ attempt v6_only
        (connect_steps v6_only bits reactor false (v4 7 80))
        (some (made v6_only bits reactor true))
        []
connect_with_example = connect_with-attempt v6_only bits reactor (v4 7 80) true false true []
