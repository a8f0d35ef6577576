-- ===== src/Calendar/RoundTrip.antt =====
-- src/domain/calendar/business-calendar.ts: `addMinutes` and `minutesBetween` beside each other.
use xms_backend.Calendar.Business.{
  LocalParts, BusinessCalendar, max_days, weekday_of, intervals, Spent, over_at, left, spend,
  take_day, add_days, add_minutes, overlap, minutes_between,
}
use xms_backend.Calendar.Days.{IsSpent, spend-IsSpent}
use xms_backend.Prelude.{
  ℕ, zero, suc, ◌<◌, ◌≤◌, true, Option, some, some-injective, leb, number_key, ◌≡◌, inl, inr, refl,
  sym, ap, ◌∙◌, arith,
}
use xms_backend.Calendar.Spans.{
  IsZone, HasTidyDays, hours_on-parts, span, IsReached, next_parts, reached-minutes_between,
}

module _ (c : BusinessCalendar) (zone : IsZone c.zone) where
  -- One turn of the loop, where the rest of it ends as it should.
  take_day-IsReached :
      (n day : ℕ) (parts : LocalParts) (minute remaining t : ℕ)
      → parts.day ≡ day
      → parts.weekday ≡ weekday_of day
      → (s : Spent) (next_day : ℕ → Option ℕ)
      → ((rest : ℕ) → 0 < rest → next_day rest ≡ some t → IsReached c n (suc day) 0 rest t)
      → IsSpent (intervals c parts) 0 minute remaining s
      → take_day c.zone day s next_day ≡ some t
      → IsReached c (suc n) day minute remaining t
  unfolding span
  take_day-IsReached n day parts minute remaining t d w (over_at at) next_day later
        (sum, ahead, low, within) e =
      record {
        days = 0;
        at = at;
        instant = sym (some-injective _ t e) ∙ ap (λ z. c.zone.instant_of z at) (omega arith);
        sum = ap (λ z. overlap z minute at) (sym (hours_on-parts c parts day d w)) ∙ sum;
        soon = omega arith;
        within = within;
        ahead = inr ahead;
      }
  take_day-IsReached n day parts minute remaining t d w (left rest) next_day later (sum, more) e =
      let r = later rest more e in
      let today = ap (λ z. overlap z minute 1440) (hours_on-parts c parts day d w) in
      record {
        days = suc r.days;
        at = r.at;
        instant = r.instant ∙ ap (λ z. c.zone.instant_of z r.at) (omega arith);
        sum = let after = r.sum in omega arith;
        soon = let soon = r.soon in omega arith;
        within = r.within;
        ahead = inl (omega arith);
      }

  add_days-IsReached :
      HasTidyDays c
      → (n day : ℕ) (parts : LocalParts) (minute remaining t : ℕ) → parts.day ≡ day
      → parts.weekday ≡ weekday_of day
      → 0 < remaining
      → add_days n c day parts minute remaining ≡ some t
      → IsReached c n day minute remaining t
  unfolding add_days
  add_days-IsReached tidy zero day parts minute remaining t d w some_left e = cc
  add_days-IsReached tidy (suc n) day parts minute remaining t d w some_left e =
      let (nd, nw) = next_parts c zone day in
      take_day-IsReached n day parts minute remaining t d w
        (spend (intervals c parts) minute remaining)
        (λ rest. add_days n c (suc day) (c.zone.local_parts (c.zone.instant_of (suc day) 0)) 0 rest)
        (λ rest more found. add_days-IsReached tidy n (suc day) _ 0 rest t nd nw more found)
        (spend-IsSpent 0 (intervals c parts) minute remaining (tidy parts) some_left) e

  -- Where so many working minutes lie ahead, the loop ends before its days run out.
  take_day-finds :
      (k day minute remaining : ℕ) (parts : LocalParts)
      → parts.day ≡ day
      → parts.weekday ≡ weekday_of day
      → remaining ≤ span c k day minute 1440
      → (s : Spent) (next_day : ℕ → Option ℕ)
      → ((j rest : ℕ)
          → k ≡ suc j
          → rest ≤ span c j (suc day) 0 1440
          → 0 < rest
          → (t : ℕ) × (next_day rest ≡ some t))
      → IsSpent (intervals c parts) 0 minute remaining s
      → (t : ℕ) × (take_day c.zone day s next_day ≡ some t)
  unfolding span
  take_day-finds k day minute remaining parts d w enough (over_at at) next_day later spent =
      (c.zone.instant_of day at, refl)
  take_day-finds zero day minute remaining parts d w enough (left rest) next_day later (sum, more) =
      let today = ap (λ z. overlap z minute 1440) (hours_on-parts c parts day d w) in
      absurd (omega arith)
  take_day-finds (suc j) day minute remaining parts d w enough (left rest) next_day later
        (sum, more) =
      let today = ap (λ z. overlap z minute 1440) (hours_on-parts c parts day d w) in
      later j rest refl (omega arith) more

  add_days-finds :
      HasTidyDays c
      → (n k day minute remaining : ℕ) (parts : LocalParts) → parts.day ≡ day
      → parts.weekday ≡ weekday_of day
      → remaining ≤ span c k day minute 1440
      → k < n
      → 0 < remaining
      → (t : ℕ) × (add_days n c day parts minute remaining ≡ some t)
  unfolding add_days
  add_days-finds tidy zero k day minute remaining parts d w enough lt some_left =
      absurd (omega arith)
  add_days-finds tidy (suc n) k day minute remaining parts d w enough lt some_left =
      let (nd, nw) = next_parts c zone day in
      take_day-finds k day minute remaining parts d w enough
        (spend (intervals c parts) minute remaining)
        (λ rest. add_days n c (suc day) (c.zone.local_parts (c.zone.instant_of (suc day) 0)) 0 rest)
        (λ j rest e fits more.
          add_days-finds tidy n j (suc day) 0 rest _ nd nw fits (omega arith) more)
        (spend-IsSpent 0 (intervals c parts) minute remaining (tidy parts) some_left)

  add_minutes-finds :
      HasTidyDays c
      → (from minutes k : ℕ) → k < max_days
      → minutes ≤ span c k (c.zone.local_parts from).day (c.zone.local_parts from).minute 1440
      → (t : ℕ) × (add_minutes c from minutes ≡ some t)
  unfolding add_minutes
  add_minutes-finds tidy from zero k lt enough = (from, refl)
  add_minutes-finds tidy from (suc minutes) k lt enough =
      let start = c.zone.local_parts from in
      add_days-finds tidy max_days k start.day start.minute (suc minutes) start refl
        (zone.weekday from) enough lt (omega arith)

  -- In a zone whose clocks never change, where the intervals of each day are in order and apart, the working minutes between an instant and the one that so many working minutes after it
  -- are that many, if the calendar finds that instant within its 5000 days.
  pub minutes_between-add_minutes :
      HasTidyDays c
      → (from minutes t : ℕ) → add_minutes c from minutes ≡ some t
      → minutes_between c from t ≡ minutes
  unfolding add_minutes minutes_between
  minutes_between-add_minutes tidy from zero t e =
      let same : from ≡ t = some-injective from t e in
      let none_between : leb t from ≡ true = ground arith in rw none_between refl
  minutes_between-add_minutes tidy from (suc minutes) t e =
      reached-minutes_between c zone from (suc minutes) t (
        add_days-IsReached tidy max_days (c.zone.local_parts from).day (c.zone.local_parts from)
          (c.zone.local_parts from).minute (suc minutes) t refl (zone.weekday from) (omega arith) e)

  -- In a zone whose clocks never change, where the intervals of each day are in order and apart, and so
  -- many working minutes lie between an instant and the end of a day that is less than 5000 days later,
  -- `addMinutes` finds an instant, and `minutesBetween` counts just these minutes up to it.
  pub add_minutes_total :
      HasTidyDays c
      → (from minutes k : ℕ) → k < max_days
      → minutes ≤ span c k (c.zone.local_parts from).day (c.zone.local_parts from).minute 1440
      → (t : ℕ) × ((add_minutes c from minutes ≡ some t) × (minutes_between c from t ≡ minutes))
  add_minutes_total tidy from minutes k lt enough =
      let (t, found) = add_minutes-finds tidy from minutes k lt enough in
      (t, (found, minutes_between-add_minutes tidy from minutes t found))
