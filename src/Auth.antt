-- ===== src/Auth.antt =====
-- src/auth.rs: pairing, controller sessions and tickets. State is the data, Pairing, Access and
-- Tickets are the operations, and the other children are proofs about them.
pub mod State
pub mod Pairing
pub mod Access
pub mod Requests
pub mod Invariant
pub mod OneTime
pub mod Lockout
pub mod Lifetime
pub mod Recovery
pub mod Grouping
mod Examples
