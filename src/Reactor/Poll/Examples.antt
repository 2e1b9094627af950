-- ===== src/Reactor/Poll/Examples.antt =====
-- A turn with events for two sources, of which one is registered at the address 4.
use rust_fumio.Prelude.{◌≡◌, refl, Bool, true, Option, none, some, List, [], ◌∷◌, arith}
use rust_fumio.AtomicWaker.{one_shot}
use rust_fumio.Reactor.Readiness.{new}
use rust_fumio.Reactor.Registration.{State, done, registration_poll_read, registration_poll_write}
use rust_fumio.Reactor.Poll.{Event, Timeout, poll}
use rust_fumio.Reactor.Poll.Delivery.{gathered, answer, events-delivered}

abbrev registered : State Bool
registered = record {
  tasks = record { list = []; local_list = []; state = λ _. 0; refs = λ _. 1 };
  readiness = λ _. new one_shot 5 2;
  waker = 0;
  signals = 0;
  alive = true;
  word = 4;
  io = true;
  read_mask = 5;
  write_mask = 2;
}

abbrev events : List Event
events =
    record { token = 0; readiness = 1 }
    ∷ record { token = 4; readiness = 1 }
    ∷ record { token = 6; readiness = 2 }
    ∷ record { token = 4; readiness = 4 }
    ∷ []

abbrev mio : Timeout → Option (List Event)
mio timeout = some events

delivered_example :
    let s' = (poll one_shot mio none registered).0 in
    ((registration_poll_read one_shot s').1 ≡ done (answer true (gathered 5 4 events 0)))
    × ((registration_poll_write one_shot s').1 ≡ done (answer true (gathered 2 4 events 0)))
unfolding new
delivered_example =
    events-delivered one_shot mio none registered 4 events refl refl refl (omega arith)

gathered_test : (gathered 5 4 events 0 ≡ 5) × (gathered 2 4 events 0 ≡ 0)
gathered_test = (refl, refl)
