-- ===== src/Reactor.antt =====
-- fumio-reactor/src/reactor: the waker, the tasks that are registered, their readiness, and the
-- registrations of event sources.
pub mod Waker
pub mod Tasks
pub mod Readiness
pub mod Registration
pub mod Evented
pub mod Poll
pub mod Create
pub mod Sockets
pub mod Connect
mod Examples
