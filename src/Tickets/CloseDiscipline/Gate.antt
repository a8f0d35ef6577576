-- ===== src/Tickets/CloseDiscipline/Gate.antt =====
-- src/domain/tickets/close-discipline.ts: what `checkRequirements` lets through, said without its
-- branches.
use xms_backend.Prelude.Texts.{is_empty, trim, length, is_empty-trim}
use xms_backend.Prelude.{
  ℕ, ◌≤◌, String, Bool, true, false, not, Option, none, some, List, [], ◌∷◌, Memᴰ, contains, report,
  ltb, nat_beq, if◌then◌else◌, string_key, ◌≡◌, ◌↔◌, ◌⊎◌, refl, sym, arith, subst, append-eq-nil,
  contains→mem, mem→contains, any→some, some→any, not-eq-false,
}
use xms_backend.Tickets.StateMachine.Machine.{
  TransitionRequirement, pause_reason, resolution, solution_link, time_logged, change_window,
}
use xms_backend.Tickets.CloseDiscipline.{
  ResolutionInput, CloseDisciplineFacts, TransitionInput, resolution_code, unknown_resolution_code,
  resolution_notes, resolution_notes_too_short, no_time_logged, unknown_exemption_reason,
  min_notes_chars, allowed_exemptions, includes, or_blank, or_no_resolution, resolution_missing,
  exemption_missing, is_positive, under, requirement_code,
}

-- A text was given, and is not empty.
abbrev pub Given : Option String → Type 0
Given o = (s : String) × (o ≡ some s) × (is_empty s ≡ false)

-- A known code, and notes that hold the bar once the white space around them is gone.
pub record IsResolved (r : ResolutionInput) (facts : CloseDisciplineFacts) : Type 0 where
  pub coded :
      (code : String) × (r.code ≡ some code) × (is_empty code ≡ false) × Memᴰ code facts.known_codes
  pub noted :
      (notes : String) × (r.notes ≡ some notes)
      × (is_empty (trim notes) ≡ false)
      × (min_notes_chars facts ≤ length (trim notes))

-- The code is one that needs no solution, or a solution or a candidate is named.
abbrev pub IsSolved : ResolutionInput → CloseDisciplineFacts → Type 0
IsSolved r facts =
    ((code : String) × (r.code ≡ some code)
      × (is_empty code ≡ false)
      × Memᴰ code facts.no_solution_codes)
    ⊎ Given r.solution_article_id
    ⊎ (r.solution_candidate ≡ true)

-- Time is logged, or a reason is given that the account allows.
abbrev pub IsAccounted : ResolutionInput → CloseDisciplineFacts → Type 0
IsAccounted r facts =
    (is_positive facts.logged_minutes ≡ true)
    ⊎ ((reason : String) × (r.time_exemption_reason ≡ some reason)
        × (is_empty (trim reason) ≡ false)
        × Memᴰ (trim reason) (allowed_exemptions facts))

pub Given-iff : (o : Option String) → (is_empty (or_blank o) ≡ false) ↔ Given o
Given-iff none = (λ h. absurd (cc), λ g. absurd (let e = g.1 in cc))
Given-iff (some s) = (
  λ h. (s, refl, h),
  λ g. let e : s ≡ g.0 = cc (g.1) in subst (λ z. is_empty z ≡ false) (sym e) g.2,
)

pub coded_iff :
    (o : Option String) (codes : List String)
    → ((is_empty (or_blank o) ≡ false) × (contains codes (or_blank o) ≡ true))
      ↔ ((code : String) × (o ≡ some code) × (is_empty code ≡ false) × Memᴰ code codes)
coded_iff none codes = (λ h. absurd (let e = h.0 in cc), λ g. absurd (let e = g.1 in cc))
coded_iff (some s) codes = (
  λ h. (s, refl, h.0, contains→mem codes s h.1),
  λ g.
      let e : g.0 ≡ s = cc (g.1) in
      (subst (λ z. is_empty z ≡ false) e g.2, mem→contains codes (subst (λ z. Memᴰ z codes) e g.3)),
)

-- A report under a first test that fails, or under a second one.
if_report-eq-nil :
    (b : Bool) {A : Type 0} (x : A) (c : Bool) (y : A)
    → ((if b then x ∷ [] else report c y) ≡ []) ↔ ((b ≡ false) × (c ≡ false))
if_report-eq-nil true x c y = (λ h. cc, λ h. cc (h.0))
if_report-eq-nil false x true y = (λ h. cc, λ h. cc (h.1))
if_report-eq-nil false x false y = (λ h. (refl, refl), λ h. refl)

pub under-eq-nil : (b : Bool) {A : Type 0} (xs : List A) → (under b xs ≡ []) ↔ (b ≡ true → xs ≡ [])
under-eq-nil true xs = (λ h _. h, λ h. h refl)
under-eq-nil false xs = (λ h e. cc, λ h. refl)

noted_iff :
    (o : Option String) (bar : ℕ)
    → ((is_empty (trim (or_blank o)) ≡ false) × (ltb (length (trim (or_blank o))) bar ≡ false)) ↔ (
        (notes : String) × (o ≡ some notes)
        × (is_empty (trim notes) ≡ false)
        × (bar ≤ length (trim notes)))
noted_iff none bar =
    (λ h. absurd (let e = is_empty-trim "" in cc (h.0)), λ g. absurd (let e = g.1 in cc))
noted_iff (some s) bar = (
  λ h. (s, refl, h.0, ground (arith, h.1)),
  λ g.
      let e : g.0 ≡ s = cc (g.1) in
      (
        subst (λ z. is_empty (trim z) ≡ false) e g.2,
        let le : bar ≤ length (trim s) = subst (λ z. bar ≤ length (trim z)) e g.3 in ground arith,
      ),
)

allowed_iff :
    (o : Option String) (reasons : List String)
    → ((is_empty (trim (or_blank o)) ≡ false) × (contains reasons (trim (or_blank o)) ≡ true)) ↔ (
        (reason : String) × (o ≡ some reason)
        × (is_empty (trim reason) ≡ false)
        × Memᴰ (trim reason) reasons)
allowed_iff none reasons =
    (λ h. absurd (let e = is_empty-trim "" in cc (h.0)), λ g. absurd (let e = g.1 in cc))
allowed_iff (some s) reasons = (
  λ h. (s, refl, h.0, contains→mem reasons (trim s) h.1),
  λ g.
      let e : g.0 ≡ s = cc (g.1) in
      (
        subst (λ z. is_empty (trim z) ≡ false) e g.2,
        mem→contains reasons (subst (λ z. Memᴰ (trim z) reasons) e g.3),
      ),
)

pub resolution_missing_iff :
    (r : ResolutionInput) (facts : CloseDisciplineFacts)
    → (resolution_missing r facts ≡ []) ↔ IsResolved r facts
unfolding resolution_missing
resolution_missing_iff r facts =
    let code = or_blank r.code in
    let notes = trim (or_blank r.notes) in
    let parts =
      append-eq-nil
        (if is_empty code
          then resolution_code ∷ []
          else report (not (contains facts.known_codes code)) unknown_resolution_code)
        _ in
    let first =
      if_report-eq-nil (is_empty code) resolution_code (not (contains facts.known_codes code))
        unknown_resolution_code in
    let second =
      if_report-eq-nil (is_empty notes) resolution_notes
        (ltb (length notes) (min_notes_chars facts)) resolution_notes_too_short in
    let coded = coded_iff r.code facts.known_codes in
    let noted = noted_iff r.notes (min_notes_chars facts) in
    (
      λ h.
          let (a, b) = parts.0 h in
          let (given, known) = first.0 a in
          record {
            coded = coded.0 (given, (not-eq-false _).0 known);
            noted = noted.0 (second.0 b);
          },
      λ w.
          let (given, known) = coded.1 w.coded in
          parts.1 (first.1 (given, (not-eq-false _).1 known), second.1 (noted.1 w.noted)),
    )

pub exemption_missing_iff :
    (r : ResolutionInput) (facts : CloseDisciplineFacts)
    → (exemption_missing r facts ≡ []) ↔ (
        (reason : String) × (r.time_exemption_reason ≡ some reason)
        × (is_empty (trim reason) ≡ false)
        × Memᴰ (trim reason) (allowed_exemptions facts))
unfolding exemption_missing
exemption_missing_iff r facts =
    let reason = trim (or_blank r.time_exemption_reason) in
    let check =
      if_report-eq-nil (is_empty reason) no_time_logged
        (not (contains (allowed_exemptions facts) reason)) unknown_exemption_reason in
    let allowed = allowed_iff r.time_exemption_reason (allowed_exemptions facts) in
    (
      λ h. let (a, b) = check.0 h in allowed.0 (a, (not-eq-false _).0 b),
      λ g. let (a, b) = allowed.1 g in check.1 (a, (not-eq-false _).1 b),
    )

requirement-eq :
    (r q : TransitionRequirement) → nat_beq (requirement_code r) (requirement_code q) ≡ true → r ≡ q
requirement-eq r q h = ground arith

requirement_self :
    (r : TransitionRequirement) → nat_beq (requirement_code r) (requirement_code r) ≡ true
requirement_self r = ground arith

pub includes_iff :
    (r : TransitionRequirement) (rs : List TransitionRequirement)
    → (includes r rs ≡ true) ↔ Memᴰ r rs
includes_iff r rs =
    let test : TransitionRequirement → Bool =
      λ q. nat_beq (requirement_code r) (requirement_code q) in
    (
      λ h.
          let (q, m, e) = any→some test rs h in
          subst (λ z. Memᴰ z rs) (sym (requirement-eq r q e)) m,
      λ m. some→any test rs m (requirement_self r),
    )

-- Everything that the requirements of a transition ask for is there. The other requirements (plans,
-- notes, a workaround, an approval) ask for nothing here.
pub record IsDisciplined (requirements : List TransitionRequirement) (input : TransitionInput)
    (facts : CloseDisciplineFacts) : Type 0 where
  pub explained : Memᴰ pause_reason requirements → Given input.pause_reason
  pub resolved : Memᴰ resolution requirements → IsResolved (or_no_resolution input.resolution) facts
  pub solved : Memᴰ solution_link requirements → IsSolved (or_no_resolution input.resolution) facts
  pub accounted :
      Memᴰ time_logged requirements → IsAccounted (or_no_resolution input.resolution) facts
  pub scheduled : Memᴰ change_window requirements → facts.in_change_window ≡ true
