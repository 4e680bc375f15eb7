-- ===== src/Session.antt =====
-- src/session.rs: the session manager. State holds its data and the world that it acts on;
-- Lifecycle, Switch and Control are its operations; the other children are proofs about them.
pub mod State
pub mod Lifecycle
pub mod Switch
pub mod Control
pub mod Invariant
pub mod Settled
pub mod Requests
pub mod Lease
pub mod Burning
pub mod Starting
pub mod Leaseholder
pub mod Switching
mod Examples
