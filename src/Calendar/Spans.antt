-- ===== src/Calendar/Spans.antt =====
-- src/domain/calendar/business-calendar.ts: the working minutes `minutesBetween` counts, day by day.
use xms_backend.Calendar.Business.{
  LocalParts, Zone, BusinessCalendar, CalendarHours, max_days, weekday_of, intervals, overlap,
  between_days, minutes_between,
}
use xms_backend.Calendar.Days.{IsTidy}
use xms_backend.Prelude.{
  ℕ, zero, suc, ◌+◌, ◌≤◌, ◌<◌, true, false, List, [], ◌∷◌, ltb, leb, nat_beq, nat_beq_iff,
  number_key, ◌≡◌, ◌⊎◌, inl, inr, refl, sym, ap, subst, ◌∙◌, arith, Bool-cases,
}

-- What the arithmetic relies on in a zone: each local time within a day is the local time of its instant,
-- a day ends where the next one begins, and instants are in the order of their local times. A
-- zone whose clocks never change is one.
pub record IsZone (zone : Zone) : Type 0 where
  pub weekday : (t : ℕ) → (zone.local_parts t).weekday ≡ weekday_of (zone.local_parts t).day
  pub day_of : (d m : ℕ) → m < 1440 → (zone.local_parts (zone.instant_of d m)).day ≡ d
  pub minute_of : (d m : ℕ) → m < 1440 → (zone.local_parts (zone.instant_of d m)).minute ≡ m
  pub midnight : (d : ℕ) → zone.instant_of d 1440 ≡ zone.instant_of (suc d) 0
  pub later :
      (t d m : ℕ)
      → ((zone.local_parts t).day < d)
        ⊎ (((zone.local_parts t).day ≡ d) × ((zone.local_parts t).minute < m))
      → t < zone.instant_of d m

-- The intervals of each day are in order and apart.
abbrev pub HasTidyDays : BusinessCalendar → Type 0
HasTidyDays c = (parts : LocalParts) → IsTidy 0 (intervals c parts)

module _ (c : BusinessCalendar) where
  abbrev pub hours_on : ℕ → List CalendarHours
  hours_on day = intervals c (record { day = day; weekday = weekday_of day; minute = 0 })

  pub hours_on-parts :
      (parts : LocalParts) (day : ℕ)
      → parts.day ≡ day
      → parts.weekday ≡ weekday_of day
      → intervals c parts ≡ hours_on day
  unfolding intervals
  hours_on-parts parts day d w = rw (d, w) refl

  -- The working minutes from a minute of a day to a minute of the day that is so many days later.
  unfoldable pub span : ℕ → ℕ → ℕ → ℕ → ℕ
  span zero day from to = overlap (hours_on day) from to
  span (suc k) day from to = overlap (hours_on day) from 1440 + span k (suc day) 0 to

  overlap_nothing : (hs : List CalendarHours) (from : ℕ) → overlap hs from 0 ≡ 0
  unfolding overlap
  overlap_nothing [] from = refl
  overlap_nothing (h ∷ hs) from = let ih = overlap_nothing hs from in omega arith

  -- A span to the end of a day is one to the beginning of the next.
  span_midnight : (k day from : ℕ) → span (suc k) day from 0 ≡ span k day from 1440
  unfolding span
  span_midnight zero day from = let z = overlap_nothing (hours_on (suc day)) 0 in omega arith
  span_midnight (suc k) day from = let ih = span_midnight k (suc day) 0 in omega arith

  -- An instant that is reached from a minute of a day within so many days and after so many working minutes.
  pub record IsReached (n day minute remaining t : ℕ) : Type 0 where
    pub days : ℕ
    pub at : ℕ
    pub instant : t ≡ c.zone.instant_of (day + days) at
    pub sum : span days day minute at ≡ remaining
    pub soon : days < n
    pub within : at ≤ 1440
    pub ahead : (0 < days) ⊎ (minute < at)

zero_add : {a b : ℕ} → a ≡ b → 0 + a ≡ b
zero_add e = omega arith

module _ (c : BusinessCalendar) (zone : IsZone c.zone) where
  pub next_parts :
      (day : ℕ)
      → ((c.zone.local_parts (c.zone.instant_of (suc day) 0)).day ≡ suc day)
        × ((c.zone.local_parts (c.zone.instant_of (suc day) 0)).weekday ≡ weekday_of (suc day))
  next_parts day =
      let d = zone.day_of (suc day) 0 (omega arith) in (d, zone.weekday _ ∙ ap weekday_of d)

  between_days-span :
      (n k day : ℕ) (end parts : LocalParts) (from total : ℕ)
      → parts.day ≡ day
      → parts.weekday ≡ weekday_of day
      → end.day ≡ day + k
      → k < n
      → between_days n c end day parts from total ≡ total + span c k day from end.minute
  unfolding between_days span
  between_days-span zero k day end parts from total d w e lt = absurd (omega arith)
  between_days-span (suc n) zero day end parts from total d w e lt =
      let last : nat_beq parts.day end.day ≡ true = ground arith in
      rw last (ap (λ z. total + overlap z from end.minute) (hours_on-parts c parts day d w))
  between_days-span (suc n) (suc k) day end parts from total d w e lt =
      let (nd, nw) = next_parts day in
      let not_last : nat_beq parts.day end.day ≡ false = ground arith in
      let not_past : ltb end.day (c.zone.local_parts (c.zone.instant_of (suc day) 0)).day ≡ false =
        ground arith in
      let today = ap (λ z. overlap z from 1440) (hours_on-parts c parts day d w) in
      let ih =
        between_days-span n k (suc day) end (c.zone.local_parts (c.zone.instant_of (suc day) 0)) 0
          (total + overlap (intervals c parts) from 1440) nd nw (omega arith) (omega arith) in
      rw (not_last, not_past) (omega arith)

  -- Where the days run out, the loop has summed all of them.
  between_days_spent :
      (n day : ℕ) (end parts : LocalParts) (from total : ℕ)
      → parts.day ≡ day
      → parts.weekday ≡ weekday_of day
      → end.day ≡ day + suc n
      → between_days (suc n) c end day parts from total ≡ total + span c n day from 1440
  unfolding between_days span
  between_days_spent zero day end parts from total d w e =
      let (nd, nw) = next_parts day in
      let not_last : nat_beq parts.day end.day ≡ false = ground arith in
      let not_past : ltb end.day (c.zone.local_parts (c.zone.instant_of (suc day) 0)).day ≡ false =
        ground arith in
      rw (not_last, not_past)
        (ap (λ z. total + overlap z from 1440) (hours_on-parts c parts day d w))
  between_days_spent (suc n) day end parts from total d w e =
      let (nd, nw) = next_parts day in
      let not_last : nat_beq parts.day end.day ≡ false = ground arith in
      let not_past : ltb end.day (c.zone.local_parts (c.zone.instant_of (suc day) 0)).day ≡ false =
        ground arith in
      let today = ap (λ z. overlap z from 1440) (hours_on-parts c parts day d w) in
      let ih =
        between_days_spent n (suc day) end (c.zone.local_parts (c.zone.instant_of (suc day) 0)) 0
          (total + overlap (intervals c parts) from 1440) nd nw (omega arith) in
      rw (not_last, not_past) (omega arith)

  -- An end at midnight is the end of the day before it.
  between_days_midnight :
      (n k day : ℕ) (end parts : LocalParts) (from total : ℕ)
      → parts.day ≡ day
      → parts.weekday ≡ weekday_of day
      → end.day ≡ day + suc k
      → end.minute ≡ 0
      → k < n
      → between_days n c end day parts from total ≡ total + span c k day from 1440
  between_days_midnight n k day end parts from total d w e midnight lt =
      elim (Bool-cases (ltb (suc k) n)) [
        | inl t ↦
            let in_time : suc k < n = ground arith in
            between_days-span n (suc k) day end parts from total d w e in_time
            ∙ ap (λ z. total + span c (suc k) day from z) midnight
            ∙ ap (λ z. total + z) (span_midnight c k day from)
        | inr f ↦
            let run_out : n ≡ suc k = ground arith in
            subst (λ z. between_days z c end day parts from total ≡ total + span c k day from 1440)
              (sym run_out) (between_days_spent k day end parts from total d w e)
      ]

  pub reached-minutes_between :
      (from minutes t : ℕ)
      → IsReached c max_days
          (c.zone.local_parts from).day
          (c.zone.local_parts from).minute
          minutes
          t
      → minutes_between c from t ≡ minutes
  unfolding minutes_between span
  reached-minutes_between from minutes t r =
      let start = c.zone.local_parts from in
      let after : from < t =
        subst (λ z. from < z) (sym r.instant)
          (zone.later from (start.day + r.days) r.at (elim r.ahead [
            | inl some_days ↦ inl (omega arith)
            | inr ahead ↦ elim (Bool-cases (nat_beq r.days 0)) [
              | inl none_passed ↦
                  let z = (nat_beq_iff r.days 0).0 none_passed in inr (omega arith, ahead)
              | inr some_passed ↦ inl (ground arith)
            ]
          ])) in
      let open_span : leb t from ≡ false = ground arith in
      rw open_span (elim (Bool-cases (ltb r.at 1440)) [
        | inl inside ↦
            let lt : r.at < 1440 = ground arith in
            let day =
              ap (λ z. (c.zone.local_parts z).day) r.instant
              ∙ zone.day_of (start.day + r.days) r.at lt in
            let minute =
              ap (λ z. (c.zone.local_parts z).minute) r.instant
              ∙ zone.minute_of (start.day + r.days) r.at lt in
            between_days-span max_days r.days start.day (c.zone.local_parts t) start start.minute 0
              refl (zone.weekday from) day r.soon
            ∙ ap (λ z. 0 + span c r.days start.day start.minute z) minute
            ∙ zero_add r.sum
        | inr outside ↦
            let full : r.at ≡ 1440 = let within = r.within in ground arith in
            let next =
              r.instant
              ∙ ap (λ z. c.zone.instant_of (start.day + r.days) z) full
              ∙ zone.midnight (start.day + r.days) in
            let day =
              ap (λ z. (c.zone.local_parts z).day) next
              ∙ zone.day_of (suc (start.day + r.days)) 0 (omega arith) in
            let minute =
              ap (λ z. (c.zone.local_parts z).minute) next
              ∙ zone.minute_of (suc (start.day + r.days)) 0 (omega arith) in
            let later : (c.zone.local_parts t).day ≡ start.day + suc r.days = omega arith in
            between_days_midnight max_days r.days start.day (c.zone.local_parts t) start
              start.minute 0 refl (zone.weekday from) later minute r.soon
            ∙ ap (λ z. 0 + span c r.days start.day start.minute z) (sym full)
            ∙ zero_add r.sum
      ])
