-- ===== src/Lib.antt =====
-- fumio, an executor for futures: a pool of tasks, a reactor for IO events, and what both stand on.
--
-- The program's parts, and the files that model them:
--
-- - fumio-utils/src/mpsc.rs: the queue with many pushing threads and one popping thread. Mpsc has
--   `Head`, `PopAll` and their operations as functions on a state, in which every `next` cell of the
--   links is one function of addresses. Mpsc/Threads has the atomic accesses as steps of any number
--   of threads, Mpsc/Chain what the cells stand for, Mpsc/Rounds and Mpsc/Drain one thread's loop,
--   Mpsc/Refine sequences of operations, Mpsc/Pass an iterator with pushes between its calls.
-- - fumio-utils/src/local_dl_list.rs: the intrusive ring. DlList has the operations in a small monad
--   over a heap of `prev` and `next` cells, with failed assertions and null reads as results;
--   DlList/Ring says when a heap holds a list, and Insert, Unlink and Pop follow the operations,
--   and DlList/Deque sequences of them. DlList/Pair has two rings over one kind of link, as the pool
--   uses them, and Pool/Links says that the pool does use them so.
--   Mpsc/Nodes and DlList/Nodes have the types that the two macros make.
-- - fumio-utils/src/current.rs, with fumio-reactor/src/reactor/{executor.rs, lazy_handle.rs} and
--   fumio-pool/src/current.rs: the current handle of a thread. Current.
--   Its cell is one of a thread's state, with `std::thread::LocalKey` as an interface.
-- - src/runtime.rs, src/lib.rs and src/timer_reactor.rs: Runtime has the nesting of the current handles and the
--   runs of the pool under them, TimerReactor the parking on the timer over a turn of the reactor.
--   Runtime/Sleep composes the pool's turns with the reactor's waker and its park, Runtime/Keeping
--   and Runtime/Ending the loop over the pool with the handles that the runtime enters. Runtime/Io has
--   the park with what the events of the reactor's turn do to the pool: whose waker a registered task
--   holds (`owner`) and what mio reports are arguments, and so is what the futures polled before do
--   with their registrations, since the polls of the model act on the pool only; Runtime/Io/Source
--   follows a source from a poll that is pending to the next poll of its task.
--   tokio-timer and the `Enter` of futures_executor are parameters, and where both share the state
--   of a thread, that they are separate is an interface (`Locals`).
-- - fumio-pool/src/pool/task.rs: the task list. Pool/Task has the state and the notifications,
--   Pool/Round one round of polls, its unwinding, and the end of the pool. The rings and the queue
--   stand here as the lists that DlList and Mpsc show them to be. What a future does when it is
--   polled is a parameter: a list of wakes, of clones and drops of wakers, and of spawns, and how
--   the poll ends. Pool/Rounds follows a round, Pool/Progress and Pool/Batch the wake-ups, Pool/Drop the
--   end of the pool, and Pool/Refs the references in every state that a pool reaches. The reference
--   counts of the tasks are fields, and part of the invariant.
--   Pool/Global has the notifications of other threads and the fetch with each atomic access as a step,
--   in any interleaving: the marks, the queue and the waker, without the local lists. In the other
--   files a notification by another thread is one step, and a fetch finds none in progress: what they
--   say of tasks woken elsewhere is said of notifications that have returned, with no other in
--   progress. What the destructor of a future does to the wakers of the pool is no part of the
--   functions that clear tasks, and it does not unwind; in Pool/Refs it may follow as actions after
--   every step.
-- - fumio-pool/src/pool.rs: the loop of polls and parks. Pool/Exec; `park` is a parameter. Pool/Thread
--   has the loop on a thread, over Park. Pool/Work and Pool/Spending follow the work that the futures
--   have left, by a rank of them, and Pool/Turns and Pool/Ending to the end of the loop; Pool/Turns does
--   so on any state that the pool is a part of (`Seat`).
-- - fumio-utils/src/park/park_thread.rs: parking a thread, on the token that std documents. Park.
-- - fumio-reactor/src/reactor/waker.rs: the flag word that interrupts the reactor. Reactor/Waker.
-- - fumio-reactor/src/reactor/task.rs: Reactor/Tasks has the registered tasks with their state words
--   and reference counts, on lists, and Reactor/Tasks/Cells on the cells of the queue and of the ring, with
--   DlList/Guarded for the tests before the ring is changed; Reactor/Readiness has the readiness words
--   and wakers of one task.
-- - fumio-reactor/src/reactor/registration.rs, with the `HandlePriv` operations of reactor.rs:
--   Reactor/Registration. The outcomes of mio are arguments. Reactor/Registration/Lock has the lock
--   bit under any number of threads, Unlock the operations in any order.
-- - fumio-reactor/src/reactor.rs: one turn of the reactor over the events that mio gives, and the
--   handles. Reactor/Poll, and Reactor/Create for `Reactor::new`; Reactor/Poll/Wake follows a wake-up,
--   Reactor/Poll/Delivery an event to the poll that it is for, Reactor/Poll/Waiting the waker that a
--   poll leaves, and Reactor/Poll/Calls an event to the waker that it calls.
-- - fumio-reactor/src/reactor/evented.rs and helper.rs: Reactor/Evented; the operations of sockets
--   over them, with those of fumio-reactor/src/net: Reactor/Sockets, and
--   Reactor/Connect for the future of a connection.
-- - fumio-reactor/src/net/{tcp_listen.rs, tcp_stream.rs, udp_socket.rs}: making sockets. Net has the
--   interface of net2 and mio as a parameter and a monad of calls that may fail, Net/Construct what
--   all sockets share, Net/TcpListener, Net/TcpStream and Net/UdpSocket one type each, and Net/Options
--   what a socket is asked without waiting.
--
-- The pool's tasks hang on two rings and on one queue; the reactor's tasks hang on one ring and one
-- queue; both call an `AtomicWaker`, which is not part of the repository: AtomicWaker has its
-- operations and the two laws that its documentation gives, as a parameter.
--
-- Fuel: `next_item` gets three rounds, since its loop repeats only at the stub, at most once. The
-- loop over `start_pop` gets more than there are links, `poll_loop` the length of the list that it
-- starts from, which no poll makes longer, and `drop_all` the length of the list of all tasks. The
-- loops of `run_executor` and `async_io` may run forever; the results about them say which fuel is
-- enough, for `run` twice the work of the futures and two more.
--
-- Memory orderings are not modelled: every atomic access is one step of a sequentially consistent
-- interleaving. Left out are re-exports,
-- derived formatting, and the constructors of the borrowing futures.
pub mod Prelude
pub mod AtomicWaker
pub mod Current
pub mod DlList
pub mod Mpsc
pub mod Net
pub mod Park
pub mod Pool
pub mod Reactor
pub mod Runtime
pub mod TimerReactor
