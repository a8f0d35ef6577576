-- ===== src/Calendar/Grouping.antt =====
-- src/domain/calendar/business-calendar.ts, `validateHours`: accepted entries, and their groups.
use xms_backend.Calendar.Hours.{
  bad_weekday, bad_start, bad_end, ends_too_early, hours_entry_problems, entries_problems, by_day,
}
use xms_backend.Calendar.Business.{CalendarHours, or_nil, group_hours}
use xms_backend.Prelude.Maps.{lookup, insert}
use xms_backend.Prelude.{
  ℕ, suc, ◌≤◌, ◌<◌, false, List, [], ◌∷◌, report-append-eq-nil, report-eq-nil, append-eq-nil, ltb,
  leb, ◌==◌, number_key, Memᴰ, mem-append_cases, ◌≡◌, inl, inr, refl, sym, subst, arith, Bool-cases,
}

-- An entry that is an interval of a day.
unfoldable pub IsInterval : CalendarHours → Type 0
IsInterval h = (h.start_minute < h.end_minute) × (h.end_minute ≤ 1440)

pub entries_problems-IsInterval :
    (hs : List CalendarHours) (index : ℕ)
    → entries_problems index hs ≡ []
    → (h : CalendarHours) → Memᴰ h hs
    → IsInterval h
unfolding entries_problems IsInterval
entries_problems-IsInterval [] index e h m = elim m [ ]
entries_problems-IsInterval (x ∷ hs) index e h m =
    let (here, rest) =
      (append-eq-nil (hours_entry_problems index x) (entries_problems (suc index) hs)).0 e in
    elim m [
      | Memᴰ.tail l ↦ entries_problems-IsInterval hs (suc index) rest h l
      | Memᴰ.head q ↦
          let (_, a) = (report-append-eq-nil (ltb 6 x.weekday) (bad_weekday index) _).0 here in
          let (_, b) = (report-append-eq-nil (ltb 1440 x.start_minute) (bad_start index) _).0 a in
          let (low, c) = (report-append-eq-nil (ltb 1440 x.end_minute) (bad_end index) _).0 b in
          let d = (report-eq-nil (leb x.end_minute x.start_minute) (ends_too_early index)).0 c in
          subst IsInterval (sym q) (ground arith, ground arith)
    ]

-- Where every entry is an interval, the constructor groups them as the validator does.
pub group_hours-by_day :
    (hs : List CalendarHours) (groups : List (ℕ × List CalendarHours))
    → ((h : CalendarHours) → Memᴰ h hs → IsInterval h)
    → group_hours hs groups ≡ by_day hs groups
unfolding group_hours by_day IsInterval
group_hours-by_day [] groups each = refl
group_hours-by_day (h ∷ hs) groups each =
    let (lt, le) = each h (Memᴰ.head refl) in
    let goes_in : leb h.end_minute h.start_minute ≡ false = ground arith in
    rw goes_in (group_hours-by_day hs _ (λ k m. each k (Memᴰ.tail m)))

-- Every member of a group is an interval.
unfoldable pub AllIntervals : List (ℕ × List CalendarHours) → Type 0
AllIntervals groups =
    (g : ℕ × List CalendarHours) → Memᴰ g groups → (h : CalendarHours) → Memᴰ h g.1 → IsInterval h

AllIntervals-or_nil :
    (w : ℕ) (groups : List (ℕ × List CalendarHours))
    → AllIntervals groups
    → (h : CalendarHours) → Memᴰ h (or_nil (lookup w groups))
    → IsInterval h
unfolding AllIntervals lookup
AllIntervals-or_nil w [] each h m = elim m [ ]
AllIntervals-or_nil w (g ∷ gs) each h m = elim (Bool-cases (g.0 == w)) [
  | inl t ↦ each g (Memᴰ.head refl) h (rw t at m)
  | inr f ↦ AllIntervals-or_nil w gs (λ k l. each k (Memᴰ.tail l)) h (rw f at m)
]

AllIntervals-insert :
    (w : ℕ) (l : List CalendarHours) (groups : List (ℕ × List CalendarHours))
    → AllIntervals groups
    → ((h : CalendarHours) → Memᴰ h l → IsInterval h)
    → AllIntervals (insert w l groups)
unfolding AllIntervals insert
AllIntervals-insert w l [] each own g (Memᴰ.head q) h n =
    own h (subst (λ (z : ℕ × List CalendarHours). Memᴰ h z.1) q n)
AllIntervals-insert w l [] each own g (Memᴰ.tail m) h n = elim m [ ]
AllIntervals-insert w l (x ∷ groups) each own g m h n = elim (Bool-cases (x.0 == w)) [
  | inl t ↦ elim (rw t at m) [
    | Memᴰ.head q ↦ own h (subst (λ (z : ℕ × List CalendarHours). Memᴰ h z.1) q n)
    | Memᴰ.tail k ↦ each g (Memᴰ.tail k) h n
  ]
  | inr f ↦ elim (rw f at m) [
    | Memᴰ.head q ↦ each g (Memᴰ.head q) h n
    | Memᴰ.tail k ↦ AllIntervals-insert w l groups (λ z y. each z (Memᴰ.tail y)) own g k h n
  ]
]

pub by_day-AllIntervals :
    (hs : List CalendarHours) (groups : List (ℕ × List CalendarHours))
    → ((h : CalendarHours) → Memᴰ h hs → IsInterval h)
    → AllIntervals groups
    → AllIntervals (by_day hs groups)
unfolding by_day
by_day-AllIntervals [] groups each all = all
by_day-AllIntervals (h ∷ hs) groups each all =
    by_day-AllIntervals hs _ (λ k m. each k (Memᴰ.tail m))
      (AllIntervals-insert h.weekday _ groups all (λ k m.
        elim (mem-append_cases (or_nil (lookup h.weekday groups)) {ys = h ∷ []} m) [
          | inl l ↦ AllIntervals-or_nil h.weekday groups all k l
          | inr (Memᴰ.head q) ↦ each k (Memᴰ.head q)
          | inr (Memᴰ.tail t) ↦ elim t [ ]
        ]))
