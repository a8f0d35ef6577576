-- ===== src/Tickets/ChangeWindow/Overlap.antt =====
-- src/domain/tickets/change-window.ts: spans, the instants in them and the freezes they meet.
use xms_backend.Prelude.{
  ℕ, ◌<◌, String, true, Option, none, some, List, [], ◌∷◌, suc, leb, ◌≡◌, ◌↔◌, refl, ap, sym, subst,
  arith, Memᴰ, append-eq-nil, report-eq-nil, max, All, All-iff,
}
use xms_backend.Tickets.ChangeWindow.{
  ends_not_after_start, Span, FreezeWindow, within_span, spans_overlap, both_ends, head, keep,
  to_spans, one_freeze_problems, freeze_problems_from, freeze_problems,
}

abbrev pub IsProper : Span → Type 0
IsProper s = s.starts_at < s.ends_at

-- Two spans, each of which ends after it starts, overlap exactly when some instant is in both, so
-- that spans one of which ends where the other starts do not.
pub spans_overlap_iff :
    (a b : Span)
    → IsProper a
    → IsProper b
    → (spans_overlap a b ≡ true)
      ↔ ((at : ℕ) × (within_span a at ≡ true) × (within_span b at ≡ true))
spans_overlap_iff a b p q = (
  λ h. (max a.starts_at b.starts_at, ground arith, ground arith),
  λ w. let (at, i, j) = w in ground arith,
)

abbrev starts_or_zero : Option Span → ℕ
starts_or_zero none = 0
starts_or_zero (some s) = s.starts_at

abbrev ends_or_zero : Option Span → ℕ
ends_or_zero none = 0
ends_or_zero (some s) = s.ends_at

module _ (date_parse : String → Option ℕ) where
  -- A freeze that has both its dates, and the second after the first.
  abbrev pub IsFreeze : FreezeWindow → Type 0
  IsFreeze f =
      (s : Span) × (both_ends (date_parse f.starts_at) (date_parse f.ends_at) ≡ some s) × IsProper s

  one_freeze_iff :
      (i : ℕ) (s e : Option ℕ)
      → (one_freeze_problems date_parse i s e ≡ [])
        ↔ ((span : Span) × (both_ends s e ≡ some span) × IsProper span)
  one_freeze_iff i none none = (λ h. cc, λ h. cc)
  one_freeze_iff i none (some e) = (λ h. cc, λ h. cc)
  one_freeze_iff i (some s) none = (λ h. cc, λ h. cc)
  one_freeze_iff i (some s) (some e) =
      let split = report-eq-nil (leb e s) (ends_not_after_start i) in
      (
        λ h. let f = split.0 h in (record { starts_at = s; ends_at = e }, refl, ground arith),
        λ h.
            let (span, same, p) = h in
            let starts : s ≡ span.starts_at = ap starts_or_zero same in
            let ends : e ≡ span.ends_at = ap ends_or_zero same in split.1 (ground arith),
      )

  freeze_problems_from_iff :
      (i : ℕ) (fs : List FreezeWindow)
      → (freeze_problems_from date_parse i fs ≡ []) ↔ All IsFreeze fs
  unfolding freeze_problems_from
  freeze_problems_from_iff i [] = (λ _. tt, λ _. refl)
  freeze_problems_from_iff i (f ∷ fs) =
      let split =
        append-eq-nil
          (one_freeze_problems date_parse i (date_parse f.starts_at) (date_parse f.ends_at))
          (freeze_problems_from date_parse (suc i) fs) in
      let here = one_freeze_iff i (date_parse f.starts_at) (date_parse f.ends_at) in
      let ih = freeze_problems_from_iff (suc i) fs in
      (λ h. let (f, r) = split.0 h in (here.0 f, ih.0 r), λ h. split.1 (here.1 h.0, ih.1 h.1))

  -- `freezeProblems` finds nothing exactly when every freeze has both its dates in order.
  pub freeze_problems_iff :
      (fs : List FreezeWindow)
      → (freeze_problems date_parse fs ≡ []) ↔ ((f : FreezeWindow) → Memᴰ f fs → IsFreeze f)
  unfolding freeze_problems
  freeze_problems_iff fs =
      let step = freeze_problems_from_iff 0 fs in
      let each = All-iff IsFreeze fs in (λ h. each.0 (step.0 h), λ h. step.1 (each.1 h))

  -- The span under which the code tests a freeze that has one.
  pub head-to_spans :
      (f : FreezeWindow) (h : IsFreeze f) → head (to_spans date_parse (f ∷ [])) ≡ some h.0
  unfolding to_spans
  head-to_spans f (s, e, p) = subst (λ o. head (keep o []) ≡ some s) (sym e) refl
