-- ===== src/Calendar/Classes.antt =====
-- src/domain/calendar/business-calendar.ts, `classify` beside `isWorkingTime`.
use xms_backend.Calendar.Business.{
  CalendarHours, standard, BusinessCalendar, weekday_of, or_nil, holds, intervals, is_working_time,
  class_of_day, classify,
}
use xms_backend.Prelude.Maps.{lookup}
use xms_backend.Prelude.{
  ℕ, true, some, List, [], ◌∷◌, any, contains, number_key, ◌≡◌, ◌↔◌, inl, inr, arith, Bool-cases,
}

class_of_day-standard_iff :
    (hs : List CalendarHours) (weekday minute : ℕ)
    → (class_of_day hs weekday (some minute) ≡ standard) ↔ (any (holds minute) hs ≡ true)
class_of_day-standard_iff [] weekday minute = ground arith
class_of_day-standard_iff (h ∷ hs) weekday minute =
    elim (Bool-cases (any (holds minute) (h ∷ hs))) [
      | inl t ↦ rw t (ground arith)
      | inr f ↦ rw f (ground arith)
    ]

-- Where the zone and the calendar agree on the weekdays of dates, a minute of a day is of the standard class exactly
-- where it is working time.
pub classify-is_working_time_iff :
    (c : BusinessCalendar)
    → ((t : ℕ) → (c.zone.local_parts t).weekday ≡ weekday_of (c.zone.local_parts t).day)
    → (at : ℕ)
    → (classify c (c.zone.local_parts at).day (some (c.zone.local_parts at).minute) ≡ standard)
      ↔ (is_working_time c at ≡ true)
unfolding classify is_working_time intervals
classify-is_working_time_iff c weekdays at =
    let parts = c.zone.local_parts at in
    elim (Bool-cases (contains c.holidays parts.day)) [
      | inl t ↦ rw t (ground arith)
      | inr f ↦
          rw (f, weekdays at)
            (class_of_day-standard_iff (or_nil (lookup (weekday_of parts.day) c.by_weekday))
              (weekday_of parts.day) parts.minute)
    ]
