-- ===== src/Tickets/ChangeWindow/Schedule.antt =====
-- src/domain/tickets/change-window.ts: the freeze check of a whole span beside that of its instants,
-- and windows that meet.
use xms_backend.Prelude.{
  ℕ, ◌<◌, ◌≤◌, ◌≢◌, String, Bool, true, false, Option, none, some, [], ◌∷◌, ◌≡◌, ◌↔◌, ◌⊎◌, inl, inr,
  arith, Bool-cases, Memᴰ, find_sound, find-eq-none,
}
use xms_backend.Tickets.ChangeWindow.{
  Span, FreezeWindow, ChangeWindow, within_span, spans_overlap, holds, inside_window, head,
  to_spans, freeze_at, freeze_overlapping, freeze_problems,
}
use xms_backend.Tickets.ChangeWindow.Overlap.{
  IsProper, spans_overlap_iff, IsFreeze, freeze_problems_iff, head-to_spans,
}

-- Of two windows of which the second starts when the first ends, exactly one holds each instant
-- from the start of the first to the end of the second.
pub back_to_back :
    (a b : ChangeWindow) (start meet end at : ℕ)
    → a.starts_at ≡ some start
    → a.ends_at ≡ some meet
    → b.starts_at ≡ some meet
    → b.ends_at ≡ some end
    → start ≤ at
    → at < end
    → ((inside_window a at ≡ true) × (inside_window b at ≡ false))
      ⊎ ((inside_window a at ≡ false) × (inside_window b at ≡ true))
back_to_back a b start meet end at sa ea sb eb low high = rw (sa, ea, sb, eb) (ground arith)

module _ (date_parse : String → Option ℕ) where
  frozen_at : FreezeWindow → ℕ → Bool
  frozen_at f at = holds (head (to_spans date_parse (f ∷ []))) (λ s. within_span s at)

  abbrev frozen_in : FreezeWindow → Span → Bool
  frozen_in f span = holds (head (to_spans date_parse (f ∷ []))) (λ s. spans_overlap s span)

  frozen_in_iff :
      (f : FreezeWindow) (span : Span)
      → IsFreeze date_parse f
      → IsProper span
      → (frozen_in f span ≡ true)
        ↔ ((at : ℕ) × (within_span span at ≡ true) × (frozen_at f at ≡ true))
  unfolding frozen_at
  frozen_in_iff f span h p =
      let step = spans_overlap_iff h.0 span h.2 p in
      rw (head-to_spans date_parse f h)
        (λ o. let (at, i, j) = step.0 o in (at, j, i), λ w. let (at, i, j) = w in step.1 (at, j, i))

  -- Where the freezes have no problems and the span ends after it starts, `freezeOverlapping` finds
  -- nothing exactly when `freezeAt` finds nothing at every instant of the span, and a freeze that
  -- it finds is one of the window's, with an instant of the span at which `freezeAt` finds one.
  pub freeze_overlapping_iff :
      (w : ChangeWindow) (span : Span)
      → freeze_problems date_parse w.freeze_windows ≡ []
      → IsProper span
      → ((freeze_overlapping date_parse w span ≡ none)
          ↔ ((at : ℕ) → within_span span at ≡ true → freeze_at date_parse w at ≡ none))
        × ((f : FreezeWindow)
            → freeze_overlapping date_parse w span ≡ some f
            → Memᴰ f w.freeze_windows
              × ((at : ℕ) × (within_span span at ≡ true) × (freeze_at date_parse w at ≢ none)))
  unfolding freeze_overlapping freeze_at frozen_at
  freeze_overlapping_iff w span clean p =
      let each = (freeze_problems_iff date_parse w.freeze_windows).0 clean in
      let found : (f : FreezeWindow)
          → Memᴰ f w.freeze_windows
          → frozen_in f span ≡ true
          → (at : ℕ) × (within_span span at ≡ true) × (freeze_at date_parse w at ≢ none) =
        λ f m t.
          let (at, i, z) = (frozen_in_iff f span (each f m) p).0 t in
          (
            at,
            i,
            λ n. let clear = (find-eq-none (λ g. frozen_at g at) w.freeze_windows).0 n f m in cc,
          ) in
      (
        (
          λ n at i. (find-eq-none (λ g. frozen_at g at) w.freeze_windows).1 (λ f m.
              elim (Bool-cases (frozen_at f at)) [
                | inl t ↦ absurd (
                    let there = (frozen_in_iff f span (each f m) p).1 (at, i, t) in
                    let clear = (find-eq-none (λ g. frozen_in g span) w.freeze_windows).0 n f m in
                    cc)
                | inr clear ↦ clear
              ]),
          λ h. (find-eq-none (λ g. frozen_in g span) w.freeze_windows).1 (λ f m.
              elim (Bool-cases (frozen_in f span)) [
                | inl t ↦ absurd (let (at, i, some_freeze) = found f m t in some_freeze (h at i))
                | inr clear ↦ clear
              ]),
        ),
        λ f e.
            let (m, t) = find_sound (λ g. frozen_in g span) w.freeze_windows e in (m, found f m t),
      )
