-- ===== src/Tickets/CloseDiscipline/Requirements.antt =====
-- src/domain/tickets/close-discipline.ts: `checkRequirements` beside what the requirements of a
-- transition ask for.
use xms_backend.Prelude.Texts.{is_empty}
use xms_backend.Prelude.{
  Bool, true, false, not, ◌&&◌, List, [], Memᴰ, string_key, ◌≡◌, ◌↔◌, ◌⊎◌, inl, inr, refl, arith,
  Bool-cases, append-eq-nil, report-eq-nil, report-append-eq-nil, not-eq-false,
}
use xms_backend.Tickets.StateMachine.Machine.{
  TransitionRequirement, pause_reason, resolution, solution_link, time_logged, change_window,
}
use xms_backend.Tickets.CloseDiscipline.{
  ResolutionInput, CloseDisciplineFacts, TransitionInput, no_pause_reason, no_solution_link,
  no_change_window, includes, or_blank, or_no_resolution, resolution_missing, exemption_missing,
  is_no_solution, is_positive, under, check_requirements,
}
use xms_backend.Tickets.CloseDiscipline.Gate.{
  IsSolved, IsAccounted, IsDisciplined, Given-iff, coded_iff, under-eq-nil, resolution_missing_iff,
  exemption_missing_iff, includes_iff,
}

unsolved_iff :
    (asked : Bool) (r : ResolutionInput) (facts : CloseDisciplineFacts)
    → ((asked
          && not (is_no_solution r facts)
          && is_empty (or_blank r.solution_article_id)
          && not r.solution_candidate)
        ≡ false)
      ↔ (asked ≡ true → IsSolved r facts)
unsolved_iff asked r facts = (to, from)
  where
    choices :
        (asked
            && not (is_no_solution r facts)
            && is_empty (or_blank r.solution_article_id)
            && not r.solution_candidate)
          ≡ false
        → asked ≡ true
        → (is_no_solution r facts ≡ true)
          ⊎ (is_empty (or_blank r.solution_article_id) ≡ false)
          ⊎ (r.solution_candidate ≡ true)
    choices h a = ground arith

    to :
        (asked
            && not (is_no_solution r facts)
            && is_empty (or_blank r.solution_article_id)
            && not r.solution_candidate)
          ≡ false
        → asked ≡ true
        → IsSolved r facts
    to h a = elim (choices h a) [
      | inl n ↦ inl ((coded_iff r.code facts.no_solution_codes).0 (ground arith, ground arith))
      | inr (inl g) ↦ inr (inl ((Given-iff r.solution_article_id).0 g))
      | inr (inr c) ↦ inr (inr c)
    ]

    from :
        (asked ≡ true → IsSolved r facts)
        → (asked
            && not (is_no_solution r facts)
            && is_empty (or_blank r.solution_article_id)
            && not r.solution_candidate)
          ≡ false
    from h = elim (Bool-cases asked) [
      | inr n ↦ rw n refl
      | inl a ↦ elim (h a) [
        | inl n ↦ let (g, k) = (coded_iff r.code facts.no_solution_codes).1 n in ground arith
        | inr (inl g) ↦ let e = (Given-iff r.solution_article_id).1 g in ground arith
        | inr (inr c) ↦ ground arith
      ]
    ]

and-eq-false : (a b : Bool) → ((a && b) ≡ false) ↔ (a ≡ true → b ≡ false)
and-eq-false a b = ground arith

IsAccounted-iff :
    (r : ResolutionInput) (facts : CloseDisciplineFacts) (asked : Bool)
    → ((asked && not (is_positive facts.logged_minutes)) ≡ true → exemption_missing r facts ≡ [])
      ↔ (asked ≡ true → IsAccounted r facts)
IsAccounted-iff r facts asked =
    let exemption = exemption_missing_iff r facts in
    (
      λ h a. elim (Bool-cases (is_positive facts.logged_minutes)) [
        | inl y ↦ inl y
        | inr n ↦ inr (exemption.0 (h (ground arith)))
      ],
      λ h b. elim (h (ground arith)) [
        | inl y ↦ absurd (ground arith)
        | inr given ↦ exemption.1 given
      ],
    )

-- The gate lets a transition through exactly when it has all that its requirements ask for: a pause
-- reason; a known code and notes of the required length; a solution, a candidate or a code that needs
-- none; logged time or a reason that the account allows; a change window.
pub check_requirements_iff :
    (rs : List TransitionRequirement) (input : TransitionInput) (facts : CloseDisciplineFacts)
    → (check_requirements rs input facts ≡ []) ↔ IsDisciplined rs input facts
unfolding check_requirements
check_requirements_iff rs input facts =
    let r = or_no_resolution input.resolution in
    let asks : (q : TransitionRequirement) → (includes q rs ≡ true) ↔ Memᴰ q rs =
      λ q. includes_iff q rs in
    let reason =
      report-append-eq-nil (includes pause_reason rs && is_empty (or_blank input.pause_reason))
        no_pause_reason _ in
    let resolved = append-eq-nil (under (includes resolution rs) (resolution_missing r facts)) _ in
    let solved =
      report-append-eq-nil
        (includes solution_link rs
          && not (is_no_solution r facts)
          && is_empty (or_blank r.solution_article_id)
          && not r.solution_candidate)
        no_solution_link _ in
    let logged = includes time_logged rs && not (is_positive facts.logged_minutes) in
    let accounted = append-eq-nil (under logged (exemption_missing r facts)) _ in
    let scheduled =
      report-eq-nil (includes change_window rs && not facts.in_change_window) no_change_window in
    let given = Given-iff input.pause_reason in
    let reason_asked =
      and-eq-false (includes pause_reason rs) (is_empty (or_blank input.pause_reason)) in
    let resolve = under-eq-nil (includes resolution rs) (resolution_missing r facts) in
    let resolve_met = resolution_missing_iff r facts in
    let solve = unsolved_iff (includes solution_link rs) r facts in
    let account = under-eq-nil logged (exemption_missing r facts) in
    let account_met = IsAccounted-iff r facts (includes time_logged rs) in
    let window = and-eq-false (includes change_window rs) (not facts.in_change_window) in
    (
      λ h.
          let (a, h1) = reason.0 h in
          let (b, h2) = resolved.0 h1 in
          let (c, h3) = solved.0 h2 in
          let (d, e) = accounted.0 h3 in
          record {
            explained = λ m. given.0 (reason_asked.0 a ((asks pause_reason).1 m));
            resolved = λ m. resolve_met.0 (resolve.0 b ((asks resolution).1 m));
            solved = λ m. solve.0 c ((asks solution_link).1 m);
            accounted = λ m. account_met.0 (account.0 d) ((asks time_logged).1 m);
            scheduled =
                λ m. (not-eq-false _).0 (window.0 (scheduled.0 e) ((asks change_window).1 m));
          },
      λ w. reason.1 (
        reason_asked.1 (λ y. given.1 (w.explained ((asks pause_reason).0 y))),
        resolved.1 (
          resolve.1 (λ y. resolve_met.1 (w.resolved ((asks resolution).0 y))),
          solved.1 (
            solve.1 (λ y. w.solved ((asks solution_link).0 y)),
            accounted.1 (
              account.1 (account_met.1 (λ y. w.accounted ((asks time_logged).0 y))),
              scheduled.1
                  (window.1 (λ y. (not-eq-false _).1 (w.scheduled ((asks change_window).0 y)))),
            ),
          ),
        ),
      ),
    )
