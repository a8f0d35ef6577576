-- ===== src/Calendar/Opening.antt =====
-- src/domain/calendar/business-calendar.ts: what one day means for `nextWorkingInstant`.
use xms_backend.Calendar.Business.{
  LocalParts, BusinessCalendar, CalendarHours, weekday_of, intervals, first_open, opening, holds,
  overlap,
}
use xms_backend.Calendar.Days.{IsTidy, overlap_before}
use xms_backend.Prelude.{
  ℕ, suc, ◌+◌, ◌≤◌, ◌<◌, max, Bool, true, false, Option, none, some, some-injective, List, ◌∷◌, ltb,
  leb, leb→le, number_key, ◌≡◌, ◌⊎◌, inl, inr, refl, sym, ap, subst, ◌∙◌, arith, Bool-cases,
}
use xms_backend.Calendar.Spans.{hours_on, hours_on-parts, span}
use xms_backend.Prelude.{any, ◌&&◌, ◌||◌}

-- What the first interval that is not over means for the day.
unfoldable pub OpensAt : List CalendarHours → ℕ → Option CalendarHours → Type 0
OpensAt hs minute none = overlap hs minute 1440 ≡ 0
OpensAt hs minute (some h) =
    (overlap hs minute (max h.start_minute minute) ≡ 0)
    × (any (holds (max h.start_minute minute)) hs ≡ true)
    × (max h.start_minute minute < h.end_minute)
    × (h.end_minute ≤ 1440)

or_true : (b : Bool) {a : Bool} → a ≡ true → (b || a) ≡ true
or_true true e = refl
or_true false e = e

OpensAt-cons :
    (h : CalendarHours) (hs : List CalendarHours) (minute : ℕ) (found : Option CalendarHours)
    → h.end_minute ≤ minute
    → OpensAt hs minute found
    → OpensAt (h ∷ hs) minute found
unfolding OpensAt overlap
OpensAt-cons h hs minute none over e = omega arith
OpensAt-cons h hs minute (some k) over (e, held, lt, le) =
    (omega arith, or_true (holds (max k.start_minute minute) h) held, lt, le)

pub first_open-OpensAt :
    (low : ℕ) (hs : List CalendarHours) (minute : ℕ)
    → IsTidy low hs
    → OpensAt hs minute (first_open hs minute)
unfolding OpensAt first_open overlap
first_open-OpensAt _ _ minute (IsTidy.none_left low) = refl
first_open-OpensAt _ _ minute (IsTidy.then_hours low h hs a b d rest) =
    elim (Bool-cases (leb h.end_minute minute)) [
      | inl t ↦ rw t (
          OpensAt-cons h hs minute (first_open hs minute) (leb→le _ _ t)
            (first_open-OpensAt h.end_minute hs minute rest))
      | inr f ↦
          let here : minute < h.end_minute = ground arith in
          let later =
            overlap_before h.end_minute hs minute (max h.start_minute minute) rest (omega arith) in
          let begun : leb h.start_minute (max h.start_minute minute) ≡ true = ground arith in
          let not_over : ltb (max h.start_minute minute) h.end_minute ≡ true = ground arith in
          rw f (omega arith, rw (begun, not_over) refl, omega arith, d)
    ]

module _ (c : BusinessCalendar) where
  -- An instant that opens a day, with no working minute before it.
  pub record IsNext (n : ℕ) (first : Bool) (day minute t : ℕ) : Type 0 where
    pub days : ℕ
    pub at : ℕ
    pub instant : t ≡ c.zone.instant_of (day + days) at
    pub sum : span c days day minute at ≡ 0
    pub soon : days < n
    pub within : at < 1440
    pub working : any (holds at) (hours_on c (day + days)) ≡ true
    pub ahead : first ≡ true → (0 < days) ⊎ (minute < at)

  -- The instant the search starts from, where it is in working hours.
  unfoldable pub IsHere : Bool → ℕ → LocalParts → ℕ → ℕ → Type 0
  IsHere first at parts minute t =
      (t ≡ at) × (first ≡ true) × (any (holds minute) (intervals c parts) ≡ true)

  pub opening-IsNext :
      (n day : ℕ) (parts : LocalParts) (at minute t : ℕ) (first : Bool)
      → parts.day ≡ day
      → parts.weekday ≡ weekday_of day
      → (found : Option CalendarHours) (next_day : Option ℕ)
      → OpensAt (intervals c parts) minute found
      → (next_day ≡ some t → IsNext n false (suc day) 0 t)
      → opening c.zone at first day minute found next_day ≡ some t
      → IsHere first at parts minute t ⊎ IsNext (suc n) first day minute t
  unfolding OpensAt IsHere span
  opening-IsNext n day parts at minute t first d w none next_day shut later e =
      let r = later e in
      let today = ap (λ z. overlap z minute 1440) (hours_on-parts c parts day d w) in
      inr record {
        days = suc r.days;
        at = r.at;
        instant = r.instant ∙ ap (λ z. c.zone.instant_of z r.at) (omega arith);
        sum = let after = r.sum in omega arith;
        soon = let soon = r.soon in omega arith;
        within = r.within;
        working = subst (λ z. any (holds r.at) (hours_on c z) ≡ true) (omega arith) r.working;
        ahead = λ z. inl (omega arith);
      }
  opening-IsNext n day parts at minute t first d w (some h) next_day (sum, held, lt, le) later e =
      let start = max h.start_minute minute in
      let hours = hours_on-parts c parts day d w in
      elim (Bool-cases (leb h.start_minute minute && first)) [
        | inl here ↦
            let now : start ≡ minute = ground arith in
            inl (
              sym (some-injective at t (rw here at e)),
              ground arith,
              subst (λ z. any (holds z) (intervals c parts) ≡ true) now held,
            )
        | inr f ↦ inr record {
          days = 0;
          at = start;
          instant =
              sym (some-injective _ t (rw f at e))
              ∙ ap (λ z. c.zone.instant_of z start) (omega arith);
          sum = ap (λ z. overlap z minute start) (sym hours) ∙ sum;
          soon = omega arith;
          within = omega arith;
          working =
              subst (λ z. any (holds start) (hours_on c z) ≡ true) (omega arith)
                (subst (λ z. any (holds start) z ≡ true) hours held);
          ahead = λ yes. inr (ground arith);
        }
      ]
