-- ===== src/Tickets/ChangeWindow/Tests.antt =====
-- Change windows at small inputs. The dates of the tests are the texts "10", "20", "30" and "40".
use xms_backend.Prelude.{
  ℕ, ◌≢◌, String, true, Option, none, some, [], ◌∷◌, ◌≡◌, ◌↔◌, refl, arith, Memᴰ, ◌==◌,
  if◌then◌else◌, string_key,
}
use xms_backend.Tickets.ChangeWindow.{
  Span, FreezeWindow, ChangeWindow, within_span, freeze_at, freeze_overlapping, freeze_problems,
  freeze_problems_from, to_spans, starts_at_no_date, ends_not_after_start,
}
use xms_backend.Tickets.ChangeWindow.Schedule.{freeze_overlapping_iff}

abbrev parse_date : String → Option ℕ
parse_date s =
    if s == "10"
    then some 10
    else if s == "20"
    then some 20
    else if s == "30"
    then some 30
    else if s == "40"
    then some 40
    else none

abbrev freeze : String → String → FreezeWindow
freeze a b = record { starts_at = a; ends_at = b; reason = none }

abbrev window : ℕ → ℕ → ChangeWindow
window a b = record {
  id = "w1";
  name = "Release";
  starts_at = some a;
  ends_at = some b;
  freeze_windows = freeze "20" "30" ∷ [];
  status = "planned";
}

abbrev span : ℕ → ℕ → Span
span a b = record { starts_at = a; ends_at = b }

freeze_tests :
    (freeze_problems parse_date (freeze "soon" "20" ∷ freeze "30" "20" ∷ [])
      ≡ starts_at_no_date 0 ∷ ends_not_after_start 1 ∷ [])
    × (freeze_at parse_date (window 10 40) 29 ≡ some (freeze "20" "30"))
    × (freeze_at parse_date (window 10 40) 30 ≡ none)
    × (freeze_overlapping parse_date (window 10 40) (span 10 20) ≡ none)
    × (freeze_overlapping parse_date (window 10 40) (span 10 21) ≡ some (freeze "20" "30"))
unfolding freeze_problems freeze_problems_from freeze_at freeze_overlapping to_spans
freeze_tests = (refl, refl, refl, refl, refl)

clean : freeze_problems parse_date (window 10 40).freeze_windows ≡ []
unfolding freeze_problems freeze_problems_from
clean = refl

freeze_overlapping_iff_example :
    ((freeze_overlapping parse_date (window 10 40) (span 10 21) ≡ none) ↔ (
      (at : ℕ)
      → within_span (span 10 21) at ≡ true
      → freeze_at parse_date (window 10 40) at ≡ none))
    × ((f : FreezeWindow)
        → freeze_overlapping parse_date (window 10 40) (span 10 21) ≡ some f
        → Memᴰ f (window 10 40).freeze_windows
          × ((at : ℕ) × (within_span (span 10 21) at ≡ true)
              × (freeze_at parse_date (window 10 40) at ≢ none)))
freeze_overlapping_iff_example =
    freeze_overlapping_iff parse_date (window 10 40) (span 10 21) clean (omega arith)
