-- ===== src/Calendar/Days.antt =====
-- src/domain/calendar/business-calendar.ts: the working minutes of one day.
use xms_backend.Calendar.Business.{CalendarHours, Spent, over_at, left, spend, overlap}
use xms_backend.Prelude.{
  ℕ, ◌+◌, ◌-◌, ◌≤◌, ◌<◌, max, List, [], ◌∷◌, leb, leb→le, ◌≡◌, inl, inr, refl, arith, Bool-cases,
}

-- The intervals of a day are in order, do not overlap, and end within the day.
pub data IsTidy : ℕ → List CalendarHours → Type 0 where
  none_left : (low : ℕ) → IsTidy low []
  then_hours :
      (low : ℕ) (h : CalendarHours) (hs : List CalendarHours)
      → low ≤ h.start_minute
      → h.start_minute < h.end_minute
      → h.end_minute ≤ 1440
      → IsTidy h.end_minute hs
      → IsTidy low (h ∷ hs)

-- Nothing of intervals that start later lies before a minute.
pub overlap_before :
    (low : ℕ) (hs : List CalendarHours) (from to : ℕ)
    → IsTidy low hs
    → to ≤ low
    → overlap hs from to ≡ 0
unfolding overlap
overlap_before _ _ from to (IsTidy.none_left low) le = refl
overlap_before _ _ from to (IsTidy.then_hours low h hs a b c rest) le =
    let later = overlap_before h.end_minute hs from to rest (omega arith) in omega arith

-- What spending some minutes on a day comes to.
abbrev pub IsSpent : List CalendarHours → ℕ → ℕ → ℕ → Spent → Type 0
IsSpent hs low minute remaining (over_at at) =
    (overlap hs minute at ≡ remaining) × (minute < at) × (low ≤ at) × (at ≤ 1440)
IsSpent hs low minute remaining (left rest) =
    (remaining ≡ overlap hs minute 1440 + rest) × (0 < rest)

nothing-IsSpent :
    (minute remaining low : ℕ) → 0 < remaining → IsSpent [] low minute remaining (left remaining)
unfolding overlap
nothing-IsSpent minute remaining low some_left = (omega arith, some_left)

-- Hours that are over before a minute add nothing.
IsSpent-cons_over :
    (low minute remaining : ℕ) (h : CalendarHours) (hs : List CalendarHours) (s : Spent)
    → low ≤ h.end_minute
    → h.end_minute ≤ minute
    → IsSpent hs h.end_minute minute remaining s
    → IsSpent (h ∷ hs) low minute remaining s
unfolding overlap
IsSpent-cons_over low minute remaining h hs (over_at at) above over (sum, later, bound, within) =
    (omega arith, later, omega arith, within)
IsSpent-cons_over low minute remaining h hs (left rest) above over (sum, some_left) =
    (omega arith, some_left)

-- Hours that are used up add what is left of them from a minute on.
IsSpent-cons_used :
    (low minute remaining : ℕ) (h : CalendarHours) (hs : List CalendarHours) (s : Spent)
    → low ≤ h.end_minute
    → h.end_minute ≤ 1440
    → h.end_minute - max h.start_minute minute < remaining
    → IsSpent hs h.end_minute minute (remaining - (h.end_minute - max h.start_minute minute)) s
    → IsSpent (h ∷ hs) low minute remaining s
unfolding overlap
IsSpent-cons_used low minute remaining h hs (over_at at) above day more
      (sum, later, bound, within) =
    (omega arith, later, omega arith, within)
IsSpent-cons_used low minute remaining h hs (left rest) above day more (sum, some_left) =
    (omega arith, some_left)

-- Minutes that are over within an interval lie in it alone.
IsSpent-cons_within :
    (low minute remaining : ℕ) (h : CalendarHours) (hs : List CalendarHours)
    → low ≤ h.start_minute
    → h.end_minute ≤ 1440
    → 0 < remaining
    → minute < h.end_minute
    → remaining ≤ h.end_minute - max h.start_minute minute
    → IsTidy h.end_minute hs
    → IsSpent (h ∷ hs) low minute remaining (over_at (max h.start_minute minute + remaining))
unfolding overlap
IsSpent-cons_within low minute remaining h hs above day some_left here fits rest =
    let later =
      overlap_before h.end_minute hs minute (max h.start_minute minute + remaining) rest
        (omega arith) in
    (omega arith, omega arith, omega arith, omega arith)

pub spend-IsSpent :
    (low : ℕ) (hs : List CalendarHours) (minute remaining : ℕ)
    → IsTidy low hs
    → 0 < remaining
    → IsSpent hs low minute remaining (spend hs minute remaining)
unfolding spend
spend-IsSpent _ _ minute remaining (IsTidy.none_left low) some_left =
    nothing-IsSpent minute remaining low some_left
spend-IsSpent _ _ minute remaining (IsTidy.then_hours low h hs a b c rest) some_left =
    let start = max h.start_minute minute in
    elim (Bool-cases (leb h.end_minute minute)) [
      | inl t ↦ rw t (
          IsSpent-cons_over low minute remaining h hs _ (omega arith) (leb→le _ _ t)
            (spend-IsSpent h.end_minute hs minute remaining rest some_left))
      | inr f ↦
          let here : minute < h.end_minute = ground arith in
          elim (Bool-cases (leb remaining (h.end_minute - start))) [
            | inl t ↦
                rw (f, t)
                  (IsSpent-cons_within low minute remaining h hs a c some_left here (leb→le _ _ t)
                    rest)
            | inr g ↦
                let more : h.end_minute - start < remaining = ground arith in
                rw (f, g)
                  (IsSpent-cons_used low minute remaining h hs _ (omega arith) c more (
                    spend-IsSpent h.end_minute hs minute (remaining - (h.end_minute - start)) rest
                      (omega arith)))
          ]
    ]
