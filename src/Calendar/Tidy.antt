-- ===== src/Calendar/Tidy.antt =====
-- src/domain/calendar/business-calendar.ts, `validateHours`: the days that accepted hours make.
use xms_backend.Calendar.Hours.{
  intervals_overlap, no_intervals, entries_problems, by_day, overlaps, groups_problems,
  validate_hours,
}
use xms_backend.Calendar.Business.{
  CalendarHours, BusinessCalendarSpec, BusinessCalendar, Zone, or_nil, group_hours, place, sort,
  sort_groups, new_calendar, intervals,
}
use xms_backend.Calendar.Days.{IsTidy}
use xms_backend.Calendar.Spans.{HasTidyDays}
use xms_backend.Prelude.Maps.{lookup, insert}
use xms_backend.Prelude.{
  ℕ, ◌≤◌, Bool, true, false, some, List, [], ◌∷◌, contains, is_nil, report-append-eq-nil,
  append-eq-nil, ltb, leb, ◌&&◌, ◌==◌, number_key, Memᴰ, ◌≡◌, inl, inr, refl, arith, Bool-cases,
}
use xms_backend.Calendar.Grouping.{
  IsInterval, entries_problems-IsInterval, group_hours-by_day, AllIntervals, by_day-AllIntervals,
}

-- A list of hours that does not overlap is tidy.
overlaps-IsTidy :
    (weekday low : ℕ) (h : CalendarHours) (hs : List CalendarHours)
    → low ≤ h.start_minute
    → ((k : CalendarHours) → Memᴰ k (h ∷ hs) → IsInterval k)
    → overlaps weekday (h ∷ hs) ≡ []
    → IsTidy low (h ∷ hs)
unfolding overlaps IsInterval
overlaps-IsTidy weekday low h [] le each e =
    let (lt, day) = each h (Memᴰ.head refl) in
    IsTidy.then_hours low h [] le lt day (IsTidy.none_left h.end_minute)
overlaps-IsTidy weekday low h (k ∷ hs) le each e =
    let (lt, day) = each h (Memᴰ.head refl) in
    let (apart, rest) =
      (report-append-eq-nil (ltb k.start_minute h.end_minute) (intervals_overlap weekday) _).0 e in
    IsTidy.then_hours low h (k ∷ hs) le lt day
      (overlaps-IsTidy weekday h.end_minute k hs (ground arith) (λ x m. each x (Memᴰ.tail m)) rest)

mem-place :
    (h : CalendarHours) (hs : List CalendarHours) (k : CalendarHours)
    → Memᴰ k (place h hs)
    → Memᴰ k (h ∷ hs)
unfolding place
mem-place h [] k m = m
mem-place h (x ∷ xs) k m = elim (Bool-cases (leb h.start_minute x.start_minute)) [
  | inl t ↦ rw t at m
  | inr f ↦ elim (rw f at m) [
    | Memᴰ.head q ↦ Memᴰ.tail (Memᴰ.head q)
    | Memᴰ.tail n ↦ elim (mem-place h xs k n) [
      | Memᴰ.head q ↦ Memᴰ.head q
      | Memᴰ.tail l ↦ Memᴰ.tail (Memᴰ.tail l)
    ]
  ]
]

mem-sort : (hs : List CalendarHours) (k : CalendarHours) → Memᴰ k (sort hs) → Memᴰ k hs
unfolding sort
mem-sort [] k m = m
mem-sort (h ∷ hs) k m = elim (mem-place h (sort hs) k m) [
  | Memᴰ.head q ↦ Memᴰ.head q
  | Memᴰ.tail n ↦ Memᴰ.tail (mem-sort hs k n)
]

sorted-IsTidy :
    (weekday : ℕ) (hs : List CalendarHours)
    → ((k : CalendarHours) → Memᴰ k hs → IsInterval k)
    → overlaps weekday hs ≡ []
    → IsTidy 0 hs
sorted-IsTidy weekday [] each e = IsTidy.none_left 0
sorted-IsTidy weekday (h ∷ hs) each e = overlaps-IsTidy weekday 0 h hs (omega arith) each e

sort_groups-IsTidy :
    (weekday : ℕ) (groups : List (ℕ × List CalendarHours))
    → AllIntervals groups
    → groups_problems groups ≡ []
    → IsTidy 0 (or_nil (lookup weekday (sort_groups groups)))
unfolding sort_groups groups_problems lookup AllIntervals
sort_groups-IsTidy weekday [] all e = IsTidy.none_left 0
sort_groups-IsTidy weekday (g ∷ gs) all e =
    let (here, rest) = (append-eq-nil (overlaps g.0 (sort g.1)) (groups_problems gs)).0 e in
    elim (Bool-cases (g.0 == weekday)) [
      | inl t ↦
          rw t
            (sorted-IsTidy g.0 (sort g.1) (λ k m. all g (Memᴰ.head refl) k (mem-sort g.1 k m)) here)
      | inr f ↦ rw f (sort_groups-IsTidy weekday gs (λ x m. all x (Memᴰ.tail m)) rest)
    ]

and_false : (b : Bool) {a : Bool} → a ≡ false → (b && a) ≡ false
and_false true e = e
and_false false e = refl

insert-is_nil :
    (w : ℕ) (l : List CalendarHours) (groups : List (ℕ × List CalendarHours))
    → is_nil (insert w l groups) ≡ false
unfolding insert
insert-is_nil w l [] = refl
insert-is_nil w l (g ∷ gs) = elim (Bool-cases (g.0 == w)) [ inl t ↦ rw t refl | inr f ↦ rw f refl ]

by_day-is_nil :
    (hs : List CalendarHours) (groups : List (ℕ × List CalendarHours))
    → (is_nil hs && is_nil groups) ≡ false
    → is_nil (sort_groups (by_day hs groups)) ≡ false
unfolding by_day sort_groups
by_day-is_nil [] [] e = e
by_day-is_nil [] (g ∷ gs) e = refl
by_day-is_nil (h ∷ hs) groups e =
    by_day-is_nil hs _ (and_false (is_nil hs) (insert-is_nil h.weekday _ groups))

-- Hours that `validateHours` has nothing to say about make a calendar, and its constructor groups them
-- into days whose intervals are in order, do not overlap and end within the day.
pub new_calendar-HasTidyDays :
    (zone : Zone) (spec : BusinessCalendarSpec)
    → validate_hours spec.hours ≡ []
    → (c : BusinessCalendar) × ((new_calendar zone spec ≡ some c) × HasTidyDays c)
unfolding validate_hours new_calendar intervals AllIntervals
new_calendar-HasTidyDays zone spec e =
    let (some_hours, rest) = (report-append-eq-nil (is_nil spec.hours) no_intervals _).0 e in
    let (entries, groups) = (append-eq-nil (entries_problems 0 spec.hours) _).0 rest in
    let each = entries_problems-IsInterval spec.hours 0 entries in
    let grouped = group_hours-by_day spec.hours [] each in
    let all = by_day-AllIntervals spec.hours [] each (λ g m. elim m [ ]) in
    let c : BusinessCalendar = record {
      id = spec.id;
      by_weekday = sort_groups (group_hours spec.hours []);
      holidays = spec.holidays;
      zone = zone;
    } in
    let made : is_nil (sort_groups (group_hours spec.hours [])) ≡ false =
      rw grouped (by_day-is_nil spec.hours [] (rw some_hours refl)) in
    (
      c,
      (
        rw made refl,
        λ parts. elim (Bool-cases (contains spec.holidays parts.day)) [
          | inl t ↦ rw t (IsTidy.none_left 0)
          | inr f ↦
              rw f (rw grouped (sort_groups-IsTidy parts.weekday (by_day spec.hours []) all groups))
        ],
      ),
    )
