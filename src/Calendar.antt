-- ===== src/Calendar.antt =====
-- The business calendars, src/domain/calendar.
pub mod Business
pub mod Days
pub mod Spans
pub mod RoundTrip
pub mod Opening
pub mod Next
pub mod Classes
pub mod Hours
pub mod Grouping
pub mod Tidy
mod Tests
