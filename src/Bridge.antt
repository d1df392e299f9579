-- ===== src/Bridge.antt =====
-- packages/core/src/bridge-service.ts: the server's registry of Studio peers and of the requests
-- that agents send them.
pub mod Types
pub mod Failure
pub mod Prune
pub mod Waiters
pub mod Settlement
pub mod Refusals
pub mod Admission
pub mod Replay
pub mod Callers
pub mod Delivery
pub mod Progress
pub mod Invariant
pub mod Roles
pub mod Peers
pub mod Groups
pub mod Registration
pub mod Departure
pub mod Routing
pub mod Events
pub mod Answers
