-- ===== src/Sla.antt =====
-- The service-level clocks of tickets: src/domain/sla/engine.ts, and its use by the ticket service.
pub mod Engine
pub mod Policy
pub mod Calendars
pub mod Latch
pub mod Runs
pub mod WallClock
pub mod TicketMove
mod Tests
