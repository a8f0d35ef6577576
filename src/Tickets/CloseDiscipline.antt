-- ===== src/Tickets/CloseDiscipline.antt =====
-- src/domain/tickets/close-discipline.ts: what a ticket needs before it may reach a resolving state,
-- and the check of the catalog that an account configures. A set is the list of its members.
pub mod Gate
pub mod Requirements
pub mod Catalog
pub mod CatalogLaws
pub mod TimeGate
mod Tests
use xms_backend.Prelude.Int.{ℤ, pos, negsuc}
use xms_backend.Prelude.Json.{
  Number, whole, broken, not_finite, Value, undefined, string, array, object, property,
  is_undefined, is_whole_within, Items, items, nil,
}
use xms_backend.Prelude.Texts.{is_empty, trim, length, is_snake_case}
use xms_backend.Prelude.{
  ℕ, zero, suc, ◌+◌, String, Bool, true, false, not, ◌&&◌, ◌||◌, Option, none, some, List, [], ◌∷◌,
  ◌++◌, any, map, contains, report, ltb, leb, nat_beq, is_nil, if◌then◌else◌, string_key,
}
use xms_backend.Tickets.StateMachine.Machine.{
  TransitionRequirement, pause_reason, resolution, solution_link, time_logged, implementation_plan,
  backout_plan, validation_notes, change_window, workaround_article, approval,
}

pub record ResolutionInput : Type 0 where
  pub code : Option String
  pub notes : Option String
  pub solution_article_id : Option String
  pub solution_candidate : Bool
  pub time_exemption_reason : Option String

pub record CloseDisciplineFacts : Type 0 where
  pub logged_minutes : ℤ
  pub in_change_window : Bool
  pub no_solution_codes : List String
  pub known_codes : List String
  pub allowed_exemptions : Option (List String)
  pub min_notes_chars : Option Number

pub data MissingItem : Type 0 where
  resolution_code unknown_resolution_code resolution_notes resolution_notes_too_short : MissingItem
  no_solution_link no_time_logged unknown_exemption_reason no_pause_reason : MissingItem
  no_change_window : MissingItem

pub record TransitionInput : Type 0 where
  pub pause_reason : Option String
  pub resolution : Option ResolutionInput

abbrev pub default_time_exemption_reasons : List (String × String)
default_time_exemption_reasons =
    ("duplicate", "Duplicate of another ticket")
    ∷ ("cancelled_by_client", "Cancelled by the client")
    ∷ ("resolved_by_client", "Resolved by the client")
    ∷ ("administrative_close", "Administrative close")
    ∷ ("merged", "Merged into another ticket")
    ∷ []

abbrev pub default_min_notes_chars : ℕ
default_min_notes_chars = 40

-- `Math.floor` of a finite number that is not negative; anything else falls back to the default.
abbrev pub bar_of : Option Number → ℕ
bar_of (some (whole (pos n))) = n
bar_of (some (broken (pos n))) = n
bar_of _ = default_min_notes_chars

unfoldable pub min_notes_chars : CloseDisciplineFacts → ℕ
min_notes_chars facts = bar_of facts.min_notes_chars

abbrev pub exemptions_of : Option (List String) → List String
exemptions_of none = map (λ r. r.0) default_time_exemption_reasons
exemptions_of (some []) = map (λ r. r.0) default_time_exemption_reasons
exemptions_of (some (r ∷ rs)) = r ∷ rs

unfoldable pub allowed_exemptions : CloseDisciplineFacts → List String
allowed_exemptions facts = exemptions_of facts.allowed_exemptions

abbrev pub requirement_code : TransitionRequirement → ℕ
requirement_code pause_reason = 0
requirement_code resolution = 1
requirement_code solution_link = 2
requirement_code time_logged = 3
requirement_code implementation_plan = 4
requirement_code backout_plan = 5
requirement_code validation_notes = 6
requirement_code change_window = 7
requirement_code workaround_article = 8
requirement_code approval = 9

-- `requirements.includes(r)`
abbrev pub includes : TransitionRequirement → List TransitionRequirement → Bool
includes r rs = any (λ q. nat_beq (requirement_code r) (requirement_code q)) rs

-- A text that is null, undefined or empty is false under `!`.
abbrev pub or_blank : Option String → String
or_blank none = ""
or_blank (some s) = s

abbrev no_resolution : ResolutionInput
no_resolution = record {
  code = none;
  notes = none;
  solution_article_id = none;
  solution_candidate = false;
  time_exemption_reason = none;
}

abbrev pub or_no_resolution : Option ResolutionInput → ResolutionInput
or_no_resolution none = no_resolution
or_no_resolution (some r) = r

-- The two checks under the requirement `resolution`.
unfoldable pub resolution_missing : ResolutionInput → CloseDisciplineFacts → List MissingItem
resolution_missing r facts =
    let code = or_blank r.code in
    let notes = trim (or_blank r.notes) in
    (if is_empty code
      then resolution_code ∷ []
      else report (not (contains facts.known_codes code)) unknown_resolution_code)
    ++ (if is_empty notes
        then resolution_notes ∷ []
        else report (ltb (length notes) (min_notes_chars facts)) resolution_notes_too_short)

abbrev pub is_no_solution : ResolutionInput → CloseDisciplineFacts → Bool
is_no_solution r facts =
    not (is_empty (or_blank r.code)) && contains facts.no_solution_codes (or_blank r.code)

abbrev pub is_positive : ℤ → Bool
is_positive (pos n) = ltb 0 n
is_positive (negsuc n) = false

-- The check under the requirement `time_logged` when nothing is logged.
unfoldable pub exemption_missing : ResolutionInput → CloseDisciplineFacts → List MissingItem
exemption_missing r facts =
    let reason = trim (or_blank r.time_exemption_reason) in
    if is_empty reason
    then no_time_logged ∷ []
    else report (not (contains (allowed_exemptions facts) reason)) unknown_exemption_reason

abbrev pub under {ℓ} : {A : Type ℓ} → Bool → List A → List A
under b xs = if b then xs else []

unfoldable pub check_requirements :
    List TransitionRequirement → TransitionInput → CloseDisciplineFacts → List MissingItem
check_requirements requirements input facts =
    let r = or_no_resolution input.resolution in
    report (includes pause_reason requirements && is_empty (or_blank input.pause_reason))
      no_pause_reason
    ++ (under (includes resolution requirements) (resolution_missing r facts)
        ++ (report
              (includes solution_link requirements
                && not (is_no_solution r facts)
                && is_empty (or_blank r.solution_article_id)
                && not r.solution_candidate)
              no_solution_link
            ++ (under (includes time_logged requirements && not (is_positive facts.logged_minutes))
                  (exemption_missing r facts)
                ++ report (includes change_window requirements && not facts.in_change_window)
                    no_change_window)))
