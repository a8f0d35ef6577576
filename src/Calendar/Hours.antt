-- ===== src/Calendar/Hours.antt =====
-- src/domain/calendar/business-calendar.ts, `validateHours`, beside the constructor of a calendar. Each number
-- of an entry is a whole one that is not negative.
use xms_backend.Calendar.Business.{CalendarHours, or_nil, sort}
use xms_backend.Prelude.Maps.{lookup, insert}
use xms_backend.Prelude.{ℕ, suc, List, [], ◌∷◌, ◌++◌, is_nil, report, ltb, leb, number_key}

pub data HoursProblem : Type 0 where
  no_intervals : HoursProblem
  bad_weekday bad_start bad_end ends_too_early : ℕ → HoursProblem
  intervals_overlap : ℕ → HoursProblem

abbrev pub hours_entry_problems : ℕ → CalendarHours → List HoursProblem
hours_entry_problems index h =
    report (ltb 6 h.weekday) (bad_weekday index)
    ++ (report (ltb 1440 h.start_minute) (bad_start index)
        ++ (report (ltb 1440 h.end_minute) (bad_end index)
            ++ report (leb h.end_minute h.start_minute) (ends_too_early index)))

unfoldable pub entries_problems : ℕ → List CalendarHours → List HoursProblem
entries_problems index [] = []
entries_problems index (h ∷ hs) = hours_entry_problems index h ++ entries_problems (suc index) hs

-- `byDay.set(entry.weekday, [...(byDay.get(entry.weekday) ?? []), entry])` for each entry
unfoldable pub by_day :
    List CalendarHours → List (ℕ × List CalendarHours) → List (ℕ × List CalendarHours)
by_day [] groups = groups
by_day (h ∷ hs) groups =
    by_day hs (insert h.weekday (or_nil (lookup h.weekday groups) ++ h ∷ []) groups)

unfoldable pub overlaps : ℕ → List CalendarHours → List HoursProblem
overlaps weekday [] = []
overlaps weekday (h ∷ []) = []
overlaps weekday (h ∷ k ∷ hs) =
    report (ltb k.start_minute h.end_minute) (intervals_overlap weekday)
    ++ overlaps weekday (k ∷ hs)

unfoldable pub groups_problems : List (ℕ × List CalendarHours) → List HoursProblem
unfolding overlaps
groups_problems [] = []
groups_problems (g ∷ gs) = overlaps g.0 (sort g.1) ++ groups_problems gs

unfoldable pub validate_hours : List CalendarHours → List HoursProblem
unfolding entries_problems groups_problems by_day
validate_hours hs =
    report (is_nil hs) no_intervals ++ (entries_problems 0 hs ++ groups_problems (by_day hs []))
