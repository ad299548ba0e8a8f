-- ===== src/Event.antt =====
-- c/unix/event.c: turning signals and I/O readiness into events.
pub mod Queue
pub mod State
pub mod Ports
pub mod Poll
pub mod Clock
pub mod Next
mod Tests
