-- ===== src/Billing.antt =====
-- Billing periods, src/domain/time/billing.ts.
pub mod Period
pub mod Locking
pub mod Handler
pub mod Stamps
mod Tests
