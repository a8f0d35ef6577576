-- ===== src/Sla/Calendars.antt =====
-- src/domain/sla/engine.ts: what the engine relies on in a calendar, and the wall clock as one.
use xms_backend.Prelude.{ℕ, ◌+◌, ◌≤◌, ◌≡◌, arith}
use xms_backend.Sla.Engine.{Calendar, wall_clock}

-- Minutes add up, none of them goes back in time, and nothing lies between an instant and an
-- earlier one.
pub record IsCalendar (c : Calendar) : Type 0 where
  pub add_zero : (t : ℕ) → c.add_minutes t 0 ≡ t
  pub add_add : (t m n : ℕ) → c.add_minutes (c.add_minutes t m) n ≡ c.add_minutes t (m + n)
  pub add_later : (t m : ℕ) → t ≤ c.add_minutes t m
  pub between_none : (a b : ℕ) → b ≤ a → c.minutes_between a b ≡ 0

pub wall_clock-IsCalendar : IsCalendar wall_clock
unfolding wall_clock
wall_clock-IsCalendar = record {
  add_zero = λ t. omega arith;
  add_add = λ t m n. omega arith;
  add_later = λ t m. omega arith;
  between_none = λ a b h. omega arith;
}
