-- ===== src/Calendar/Next.antt =====
-- src/domain/calendar/business-calendar.ts, `nextWorkingInstant`.
use xms_backend.Calendar.Business.{
  LocalParts, BusinessCalendar, CalendarHours, max_days, weekday_of, intervals, first_open, opening,
  next_days, next_working_instant, is_working_time, holds, overlap, minutes_between,
}
use xms_backend.Prelude.{
  ℕ, zero, suc, ◌+◌, ◌<◌, max, Bool, true, false, Option, none, some, leb, number_key, ◌≡◌, ◌⊎◌,
  inl, inr, refl, sym, ap, subst, ◌∙◌, arith, Bool-cases,
}
use xms_backend.Calendar.Spans.{
  IsZone, HasTidyDays, hours_on-parts, span, next_parts, reached-minutes_between,
}
use xms_backend.Prelude.{any, ◌&&◌}
use xms_backend.Calendar.Opening.{OpensAt, first_open-OpensAt, IsNext, IsHere, opening-IsNext}

leb_same : {a b : ℕ} → a ≡ b → leb a b ≡ true
leb_same e = ground arith

module _ (c : BusinessCalendar) (zone : IsZone c.zone) where
  next_days-IsNext :
      HasTidyDays c
      → (n day : ℕ) (parts : LocalParts) (at minute t : ℕ) (first : Bool) → parts.day ≡ day
      → parts.weekday ≡ weekday_of day
      → next_days n c at first day parts minute ≡ some t
      → IsHere c first at parts minute t ⊎ IsNext c n first day minute t
  unfolding next_days IsHere
  next_days-IsNext tidy zero day parts at minute t first d w e = cc
  next_days-IsNext tidy (suc n) day parts at minute t first d w e =
      let (nd, nw) = next_parts c zone day in
      opening-IsNext c n day parts at minute t first d w (first_open (intervals c parts) minute)
        (next_days n c at false (suc day) (c.zone.local_parts (c.zone.instant_of (suc day) 0)) 0)
        (first_open-OpensAt 0 (intervals c parts) minute (tidy parts))
        (λ found. elim (next_days-IsNext tidy n (suc day) _ at 0 t false nd nw found) [
          | inl (same, never, held) ↦ cc
          | inr r ↦ r
        ])
        e

  IsNext-is_working_time :
      (n day minute t : ℕ) (first : Bool)
      → IsNext c n first day minute t
      → is_working_time c t ≡ true
  unfolding is_working_time
  IsNext-is_working_time n day minute t first r =
      let d =
        ap (λ z. (c.zone.local_parts z).day) r.instant ∙ zone.day_of (day + r.days) r.at r.within in
      let m =
        ap (λ z. (c.zone.local_parts z).minute) r.instant
        ∙ zone.minute_of (day + r.days) r.at r.within in
      let hours =
        hours_on-parts c (c.zone.local_parts t) (day + r.days) d
          (zone.weekday t ∙ ap weekday_of d) in
      subst (λ z. any (holds z) (intervals c (c.zone.local_parts t)) ≡ true) (sym m)
        (subst (λ z. any (holds r.at) z ≡ true) (sym hours) r.working)

  -- In a zone whose clocks never change, where the intervals of each day are in order and apart, the next working instant, if the calendar finds one within its 5000 days, is in working hours,
  -- and there is no working minute between the instant it was asked from and it.
  pub next_working_instant-IsWorking :
      HasTidyDays c
      → (at t : ℕ) → next_working_instant c at ≡ some t
      → (is_working_time c t ≡ true) × (minutes_between c at t ≡ 0)
  unfolding next_working_instant minutes_between IsHere is_working_time
  next_working_instant-IsWorking tidy at t e =
      let start = c.zone.local_parts at in
      elim (next_days-IsNext tidy max_days start.day start at start.minute t true refl
        (zone.weekday at) e) [
          | inl (same, z, held) ↦
              let none_between = leb_same same in
              (subst (λ z. is_working_time c z ≡ true) (sym same) held, rw none_between refl)
          | inr r ↦ (
            IsNext-is_working_time max_days start.day start.minute t true r,
            reached-minutes_between c zone at 0 t record {
              days = r.days;
              at = r.at;
              instant = r.instant;
              sum = r.sum;
              soon = r.soon;
              within = let within = r.within in omega arith;
              ahead = r.ahead refl;
            },
          )
        ]

  opening-finds :
      (k day at minute : ℕ) (first : Bool) (parts : LocalParts)
      → parts.day ≡ day
      → parts.weekday ≡ weekday_of day
      → 0 < span c k day minute 1440
      → (found : Option CalendarHours) (next_day : Option ℕ)
      → ((j : ℕ) → k ≡ suc j → 0 < span c j (suc day) 0 1440 → (t : ℕ) × (next_day ≡ some t))
      → OpensAt (intervals c parts) minute found
      → (t : ℕ) × (opening c.zone at first day minute found next_day ≡ some t)
  unfolding span OpensAt
  opening-finds zero day at minute first parts d w ahead none next_day later shut =
      let today = ap (λ z. overlap z minute 1440) (hours_on-parts c parts day d w) in
      absurd (omega arith)
  opening-finds (suc j) day at minute first parts d w ahead none next_day later shut =
      let today = ap (λ z. overlap z minute 1440) (hours_on-parts c parts day d w) in
      later j refl (omega arith)
  opening-finds k day at minute first parts d w ahead (some h) next_day later opens =
      elim (Bool-cases (leb h.start_minute minute && first)) [
        | inl here ↦ (at, rw here refl)
        | inr f ↦ (c.zone.instant_of day (max h.start_minute minute), rw f refl)
      ]

  next_days-finds :
      HasTidyDays c
      → (n k day at minute : ℕ) (first : Bool) (parts : LocalParts) → parts.day ≡ day
      → parts.weekday ≡ weekday_of day
      → 0 < span c k day minute 1440
      → k < n
      → (t : ℕ) × (next_days n c at first day parts minute ≡ some t)
  unfolding next_days
  next_days-finds tidy zero k day at minute first parts d w ahead lt = absurd (omega arith)
  next_days-finds tidy (suc n) k day at minute first parts d w ahead lt =
      let (nd, nw) = next_parts c zone day in
      opening-finds k day at minute first parts d w ahead (first_open (intervals c parts) minute)
        (next_days n c at false (suc day) (c.zone.local_parts (c.zone.instant_of (suc day) 0)) 0)
        (λ j e rest. next_days-finds tidy n j (suc day) at 0 false _ nd nw rest (omega arith))
        (first_open-OpensAt 0 (intervals c parts) minute (tidy parts))

  -- In a zone whose clocks never change, where the intervals of each day are in order and apart, and a
  -- working minute lies between an instant and the end of a day that is less than 5000 days later, there is a
  -- next working instant; it is in working hours, and no working minute lies before it.
  pub next_working_instant_total :
      HasTidyDays c
      → (at k : ℕ) → k < max_days
      → 0 < span c k (c.zone.local_parts at).day (c.zone.local_parts at).minute 1440
      → (t : ℕ) × ((next_working_instant c at ≡ some t)
          × (is_working_time c t ≡ true)
          × (minutes_between c at t ≡ 0))
  unfolding next_working_instant
  next_working_instant_total tidy at k lt ahead =
      let start = c.zone.local_parts at in
      let (t, found) =
        next_days-finds tidy max_days k start.day at start.minute true start refl (zone.weekday at)
          ahead lt in
      let (working, none_between) = next_working_instant-IsWorking tidy at t found in
      (t, (found, working, none_between))
