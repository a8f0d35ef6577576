-- ===== src/RateLimit.antt =====
-- src/common/rate-limit/rate-limiter.ts: the fixed-window counters in front of the API.
pub mod Limiter
pub mod Isolation
pub mod Bound
mod Tests
