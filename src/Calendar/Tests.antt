-- ===== src/Calendar/Tests.antt =====
-- src/domain/calendar/business-calendar.ts on a calendar of two days in a zone whose clocks never change.
use xms_backend.Calendar.Business.{
  CalendarHours, BusinessCalendarSpec, BusinessCalendar, Zone, weekday_of, group_hours, place, sort,
  sort_groups, new_calendar, intervals, first_open, next_days, next_working_instant,
  is_working_time, spend, add_days, add_minutes, overlap, minutes_between, classify, standard,
}
use xms_backend.Calendar.Hours.{validate_hours, entries_problems, by_day, overlaps, groups_problems}
use xms_backend.Calendar.Tidy.{new_calendar-HasTidyDays}
use xms_backend.Calendar.Spans.{IsZone, HasTidyDays, span}
use xms_backend.Calendar.RoundTrip.{add_minutes_total}
use xms_backend.Calendar.Classes.{classify-is_working_time_iff}
use xms_backend.Calendar.Next.{next_working_instant_total}
use xms_backend.Prelude.Maps.{lookup, insert}
use xms_backend.Prelude.{
  ℕ, ◌+◌, ◌*◌, ◌/◌, ◌%◌, ◌≡◌, ◌↔◌, inl, inr, refl, sym, ◌∙◌, subst, [], ◌∷◌, some, some-injective,
  true, arith,
}

abbrev utc : Zone
utc = record {
  local_parts = λ t. record {
    day = t / 86400000;
    weekday = weekday_of (t / 86400000);
    minute = (t % 86400000) / 60000;
  };
  instant_of = λ day minute. (day * 1440 + minute) * 60000;
}

utc-IsZone : IsZone utc
utc-IsZone = record {
  weekday = λ t. refl;
  day_of = λ d m lt. omega arith;
  minute_of = λ d m lt. omega arith;
  midnight = λ d. omega arith;
  later = λ t d m after. elim after [ inl before ↦ omega arith | inr (same, ahead) ↦ omega arith ];
}

abbrev hours : ℕ → ℕ → ℕ → CalendarHours
hours weekday from to = record { weekday = weekday; start_minute = from; end_minute = to }

-- Thursday from 9 to 5, Friday from 1 to 5 and from 9 to 12; day 8 is a holiday.
abbrev two_days : BusinessCalendarSpec
two_days = record {
  id = "office";
  hours = hours 4 540 1020 ∷ hours 5 780 1020 ∷ hours 5 540 720 ∷ [];
  holidays = 8 ∷ [];
}

abbrev office : BusinessCalendar
office = record {
  id = "office";
  by_weekday = (4, hours 4 540 1020 ∷ []) ∷ (5, hours 5 540 720 ∷ hours 5 780 1020 ∷ []) ∷ [];
  holidays = 8 ∷ [];
  zone = utc;
}

new_calendar-HasTidyDays_example :
    (c : BusinessCalendar) × ((new_calendar utc two_days ≡ some c) × HasTidyDays c)
unfolding validate_hours entries_problems groups_problems by_day overlaps sort place lookup insert
new_calendar-HasTidyDays_example = new_calendar-HasTidyDays utc two_days refl

made_office : new_calendar utc two_days ≡ some office
unfolding new_calendar group_hours sort_groups sort place lookup insert
made_office = refl

office-HasTidyDays : HasTidyDays office
unfolding validate_hours entries_problems groups_problems by_day overlaps sort place lookup insert
office-HasTidyDays =
    let (c, (made, tidy)) = new_calendar-HasTidyDays utc two_days refl in
    subst (λ x. HasTidyDays x) (some-injective c office (sym made ∙ made_office)) tidy

-- Two working hours after four on Thursday there is an instant by the end of Friday.
add_minutes_total_example :
    (t : ℕ) × ((add_minutes office 57600000 120 ≡ some t)
      × (minutes_between office 57600000 t ≡ 120))
unfolding span overlap intervals lookup
add_minutes_total_example =
    add_minutes_total office utc-IsZone office-HasTidyDays 57600000 120 1 (omega arith)
      (omega arith)

two_hours_later : add_minutes office 57600000 120 ≡ some 122400000
unfolding add_minutes add_days spend intervals lookup
two_hours_later = refl

-- After six on Thursday there is a next working instant on Friday.
next_working_instant_total_example :
    (t : ℕ) × ((next_working_instant office 64800000 ≡ some t)
      × (is_working_time office t ≡ true)
      × (minutes_between office 64800000 t ≡ 0))
unfolding span overlap intervals lookup
next_working_instant_total_example =
    next_working_instant_total office utc-IsZone office-HasTidyDays 64800000 1 (omega arith)
      (omega arith)

nine_on_friday : next_working_instant office 64800000 ≡ some 118800000
unfolding next_working_instant next_days first_open intervals lookup
nine_on_friday = refl

-- Ten on Friday.
classify-is_working_time_iff_example :
    (classify office 1 (some 600) ≡ standard) ↔ (is_working_time office 122400000 ≡ true)
classify-is_working_time_iff_example =
    classify-is_working_time_iff office utc-IsZone.weekday 122400000
