-- ===== src/Calendar/Business.antt =====
-- src/domain/calendar/business-calendar.ts: working hours per weekday, holidays, and the arithmetic of working
-- minutes. A local date is its number of days, so that the next day is the next number and dates are
-- compared as numbers; an instant is its milliseconds. What Intl knows of the zone is a parameter:
-- the local parts of an instant, and the instant of a local time. A CalendarError is none.
use xms_backend.Prelude.Maps.{lookup, insert}
use xms_backend.Prelude.{
  ℕ, zero, suc, ◌+◌, ◌-◌, ◌%◌, min, max, String, Bool, true, false, ◌&&◌, ◌||◌, Option, none, some,
  List, [], ◌∷◌, ◌++◌, any, contains, is_nil, ltb, leb, nat_beq, if◌then◌else◌, number_key,
}

pub record CalendarHours : Type 0 where
  pub weekday : ℕ
  pub start_minute : ℕ
  pub end_minute : ℕ

pub data AfterHoursClass : Type 0 where
  standard after_hours weekend holiday : AfterHoursClass

pub record BusinessCalendarSpec : Type 0 where
  pub id : String
  pub hours : List CalendarHours
  pub holidays : List ℕ

pub record LocalParts : Type 0 where
  pub day : ℕ
  pub weekday : ℕ
  pub minute : ℕ

-- `localParts` and `instantOf` for the zone of a calendar.
pub record Zone : Type 0 where
  pub local_parts : ℕ → LocalParts
  pub instant_of : ℕ → ℕ → ℕ

abbrev pub max_days : ℕ
max_days = 5000

-- The weekday of a date: day 0 is 1 January 1970, a Thursday.
abbrev pub weekday_of : ℕ → ℕ
weekday_of day = (day + 4) % 7

pub record BusinessCalendar : Type 0 where
  pub id : String
  pub by_weekday : List (ℕ × List CalendarHours)
  pub holidays : List ℕ
  pub zone : Zone

abbrev pub or_nil : Option (List CalendarHours) → List CalendarHours
or_nil none = []
or_nil (some hs) = hs

-- The loop over `spec.hours`.
unfoldable pub group_hours :
    List CalendarHours → List (ℕ × List CalendarHours) → List (ℕ × List CalendarHours)
group_hours [] groups = groups
group_hours (h ∷ hs) groups =
    let skip = group_hours hs groups in
    let push =
      group_hours hs (insert h.weekday (or_nil (lookup h.weekday groups) ++ h ∷ []) groups) in
    if leb h.end_minute h.start_minute then skip else push

-- `list.sort((a, b) => a.startMinute - b.startMinute)`, which is stable
unfoldable pub place : CalendarHours → List CalendarHours → List CalendarHours
place h [] = h ∷ []
place h (x ∷ xs) =
    let rest = place h xs in if leb h.start_minute x.start_minute then h ∷ x ∷ xs else x ∷ rest

unfoldable pub sort : List CalendarHours → List CalendarHours
unfolding place
sort [] = []
sort (h ∷ hs) = place h (sort hs)

unfoldable pub sort_groups : List (ℕ × List CalendarHours) → List (ℕ × List CalendarHours)
unfolding sort
sort_groups [] = []
sort_groups (g ∷ gs) = (g.0, sort g.1) ∷ sort_groups gs

unfoldable pub new_calendar : Zone → BusinessCalendarSpec → Option BusinessCalendar
unfolding group_hours sort_groups
new_calendar zone spec =
    let groups = sort_groups (group_hours spec.hours []) in
    if is_nil groups
    then none
    else some (record { id = spec.id; by_weekday = groups; holidays = spec.holidays; zone = zone })

unfoldable pub intervals : BusinessCalendar → LocalParts → List CalendarHours
intervals c parts =
    if contains c.holidays parts.day then [] else or_nil (lookup parts.weekday c.by_weekday)

abbrev pub holds : ℕ → CalendarHours → Bool
holds minute h = leb h.start_minute minute && ltb minute h.end_minute

unfoldable pub is_working_time : BusinessCalendar → ℕ → Bool
unfolding intervals
is_working_time c at =
    let parts = c.zone.local_parts at in any (holds parts.minute) (intervals c parts)

abbrev pub in_hours : List CalendarHours → Option ℕ → AfterHoursClass
in_hours hs none = standard
in_hours hs (some minute) = if any (holds minute) hs then standard else after_hours

abbrev pub class_of_day : List CalendarHours → ℕ → Option ℕ → AfterHoursClass
class_of_day hs weekday minute =
    if is_nil hs
    then (if nat_beq weekday 0 || nat_beq weekday 6 then weekend else after_hours)
    else in_hours hs minute

unfoldable pub classify : BusinessCalendar → ℕ → Option ℕ → AfterHoursClass
classify c day minute =
    let weekday = weekday_of day in
    if contains c.holidays day
    then holiday
    else class_of_day (or_nil (lookup weekday c.by_weekday)) weekday minute

-- The first of a day's intervals that is not over at a minute.
unfoldable pub first_open : List CalendarHours → ℕ → Option CalendarHours
first_open [] minute = none
first_open (h ∷ hs) minute =
    let later = first_open hs minute in if leb h.end_minute minute then later else some h

abbrev pub opening : Zone → ℕ → Bool → ℕ → ℕ → Option CalendarHours → Option ℕ → Option ℕ
opening zone at first day minute none next_day = next_day
opening zone at first day minute (some h) next_day =
    if leb h.start_minute minute && first
    then some at
    else some (zone.instant_of day (max h.start_minute minute))

-- The loop of `nextWorkingInstant`.
unfoldable pub next_days : ℕ → BusinessCalendar → ℕ → Bool → ℕ → LocalParts → ℕ → Option ℕ
unfolding first_open intervals
next_days zero c at first day parts minute = none
next_days (suc n) c at first day parts minute =
    opening c.zone at first day minute (first_open (intervals c parts) minute)
      (next_days n c at false (suc day) (c.zone.local_parts (c.zone.instant_of (suc day) 0)) 0)

unfoldable pub next_working_instant : BusinessCalendar → ℕ → Option ℕ
unfolding next_days
next_working_instant c at =
    let parts = c.zone.local_parts at in next_days max_days c at true parts.day parts parts.minute

-- What a day's intervals make of a number of minutes: the minute at which they are over, or those left.
pub data Spent : Type 0 where
  over_at : ℕ → Spent
  left : ℕ → Spent

unfoldable pub spend : List CalendarHours → ℕ → ℕ → Spent
spend [] minute remaining = left remaining
spend (h ∷ hs) minute remaining =
    let start = max h.start_minute minute in
    let available = h.end_minute - start in
    let later = spend hs minute remaining in
    let less = spend hs minute (remaining - available) in
    if leb h.end_minute minute
    then later
    else if leb remaining available
    then over_at (start + remaining)
    else less

abbrev pub take_day : Zone → ℕ → Spent → (ℕ → Option ℕ) → Option ℕ
take_day zone day (over_at at) next_day = some (zone.instant_of day at)
take_day zone day (left rest) next_day = next_day rest

-- The loop of `addMinutes`, from a day and a minute of it on.
unfoldable pub add_days : ℕ → BusinessCalendar → ℕ → LocalParts → ℕ → ℕ → Option ℕ
unfolding spend intervals
add_days zero c day parts minute remaining = none
add_days (suc n) c day parts minute remaining =
    take_day c.zone day (spend (intervals c parts) minute remaining)
      (λ rest. add_days n c (suc day) (c.zone.local_parts (c.zone.instant_of (suc day) 0)) 0 rest)

unfoldable pub add_minutes : BusinessCalendar → ℕ → ℕ → Option ℕ
unfolding add_days
add_minutes c from zero = some from
add_minutes c from (suc minutes) =
    let parts = c.zone.local_parts from in
    add_days max_days c parts.day parts parts.minute (suc minutes)

-- The overlaps of a day's intervals with a part of the day.
unfoldable pub overlap : List CalendarHours → ℕ → ℕ → ℕ
overlap [] from to = 0
overlap (h ∷ hs) from to = (min h.end_minute to - max h.start_minute from) + overlap hs from to

-- The loop of `minutesBetween`; the day after the last is looked at before its turn.
unfoldable pub between_days : ℕ → BusinessCalendar → LocalParts → ℕ → LocalParts → ℕ → ℕ → ℕ
unfolding overlap intervals
between_days zero c end day parts from total = total
between_days (suc n) c end day parts from total =
    let last = nat_beq parts.day end.day in
    let sum = total + overlap (intervals c parts) from (if last then end.minute else 1440) in
    let next = c.zone.local_parts (c.zone.instant_of (suc day) 0) in
    let more = between_days n c end (suc day) next 0 sum in
    if last then sum else if ltb end.day next.day then sum else more

unfoldable pub minutes_between : BusinessCalendar → ℕ → ℕ → ℕ
unfolding between_days
minutes_between c a b =
    let start = c.zone.local_parts a in
    if leb b a
    then 0
    else between_days max_days c (c.zone.local_parts b) start.day start start.minute 0
