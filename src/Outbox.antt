-- ===== src/Outbox.antt =====
-- The transactional outbox: src/worker/outbox-dispatcher.ts and src/common/outbox/outbox.service.ts.
pub mod Dispatcher
pub mod Pass
pub mod Tick
pub mod Invariant
pub mod Preservation
pub mod Delivery
pub mod Progress
pub mod Liveness
mod Tests
