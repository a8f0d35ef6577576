-- ===== src/Tickets/ChangeWindow.antt =====
-- src/domain/tickets/change-window.ts: change windows and the freezes inside them. An instant is its
-- number of milliseconds; a date that cannot be read (NaN) is none. `date_parse` is what `Date.parse`
-- and `new Date` make of a text.
mod Overlap
mod Schedule
mod Tests
use xms_backend.Prelude.{
  ℕ, ◌<◌, String, Bool, true, false, ◌&&◌, Option, none, some, List, [], ◌∷◌, ◌++◌, suc, ltb, leb,
  find, report, if◌then◌else◌,
}

pub record Span : Type 0 where
  pub starts_at : ℕ
  pub ends_at : ℕ

pub record FreezeWindow : Type 0 where
  pub starts_at : String
  pub ends_at : String
  pub reason : Option String

pub record ChangeWindow : Type 0 where
  pub id : String
  pub name : String
  pub starts_at : Option ℕ
  pub ends_at : Option ℕ
  pub freeze_windows : List FreezeWindow
  pub status : String

abbrev pub within_span : Span → ℕ → Bool
within_span s at = leb s.starts_at at && ltb at s.ends_at

abbrev pub spans_overlap : Span → Span → Bool
spans_overlap a b = ltb a.starts_at b.ends_at && ltb b.starts_at a.ends_at

-- The span of two ends that are both there.
abbrev pub both_ends : Option ℕ → Option ℕ → Option Span
both_ends (some s) (some e) = some (record { starts_at = s; ends_at = e })
both_ends (some s) none = none
both_ends none e = none

abbrev pub span_of : ChangeWindow → Option Span
span_of w = both_ends w.starts_at w.ends_at

-- `span !== null && test(span)`, and the same for undefined
abbrev pub holds : Option Span → (Span → Bool) → Bool
holds none test = false
holds (some s) test = test s

abbrev pub inside_window : ChangeWindow → ℕ → Bool
inside_window w at = holds (span_of w) (λ s. within_span s at)

abbrev pub keep : Option Span → List Span → List Span
keep none ss = ss
keep (some s) ss = s ∷ ss

abbrev pub head : List Span → Option Span
head [] = none
head (s ∷ ss) = some s

pub data FreezeProblem : Type 0 where
  starts_at_no_date : ℕ → FreezeProblem
  ends_at_no_date : ℕ → FreezeProblem
  ends_not_after_start : ℕ → FreezeProblem

module _ (date_parse : String → Option ℕ) where
  -- The dates of each freeze, and the filter that leaves out those with an invalid one.
  unfoldable pub to_spans : List FreezeWindow → List Span
  to_spans [] = []
  to_spans (f ∷ fs) = keep (both_ends (date_parse f.starts_at) (date_parse f.ends_at)) (to_spans fs)

  unfoldable pub freeze_at : ChangeWindow → ℕ → Option FreezeWindow
  unfolding to_spans
  freeze_at w at =
      find (λ f. holds (head (to_spans (f ∷ []))) (λ s. within_span s at)) w.freeze_windows

  unfoldable pub freeze_overlapping : ChangeWindow → Span → Option FreezeWindow
  unfolding to_spans
  freeze_overlapping w span =
      find (λ f. holds (head (to_spans (f ∷ []))) (λ frozen. spans_overlap frozen span))
        w.freeze_windows

  abbrev pub one_freeze_problems : ℕ → Option ℕ → Option ℕ → List FreezeProblem
  one_freeze_problems i none none = starts_at_no_date i ∷ ends_at_no_date i ∷ []
  one_freeze_problems i none (some e) = starts_at_no_date i ∷ []
  one_freeze_problems i (some s) none = ends_at_no_date i ∷ []
  one_freeze_problems i (some s) (some e) = report (leb e s) (ends_not_after_start i)

  unfoldable pub freeze_problems_from : ℕ → List FreezeWindow → List FreezeProblem
  freeze_problems_from i [] = []
  freeze_problems_from i (f ∷ fs) =
      one_freeze_problems i (date_parse f.starts_at) (date_parse f.ends_at)
      ++ freeze_problems_from (suc i) fs

  unfoldable pub freeze_problems : List FreezeWindow → List FreezeProblem
  unfolding freeze_problems_from
  freeze_problems fs = freeze_problems_from 0 fs
