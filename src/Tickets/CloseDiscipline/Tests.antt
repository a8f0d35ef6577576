-- ===== src/Tickets/CloseDiscipline/Tests.antt =====
-- The close discipline at small inputs.
use xms_backend.Prelude.Int.{pos}
use xms_backend.Prelude.Json.{
  whole, Value, undefined, string, number, array, object, cons, nil, field, end, property, items,
  get, Items,
}
use xms_backend.Prelude.Texts.{is_empty, trim, length, is_snake_case}
use xms_backend.Prelude.{
  ℕ, ◌≤◌, String, true, false, Option, none, some, List, [], ◌∷◌, ◌≡◌, ◌↔◌, ◌⊎◌, refl, Distinct,
  Memᴰ,
}
use xms_backend.Tickets.StateMachine.Machine.{
  TransitionRequirement, pause_reason, resolution, solution_link, time_logged,
}
use xms_backend.Tickets.CloseDiscipline.{
  CloseDisciplineFacts, TransitionInput, resolution_notes_too_short, no_time_logged,
  no_pause_reason, unknown_exemption_reason, default_time_exemption_reasons, check_requirements,
  is_positive, or_no_resolution, resolution_missing, exemption_missing, min_notes_chars,
  allowed_exemptions,
}
use xms_backend.Tickets.CloseDiscipline.Gate.{IsDisciplined}
use xms_backend.Tickets.CloseDiscipline.Requirements.{check_requirements_iff}
use xms_backend.Tickets.CloseDiscipline.Catalog.{
  validate_close_discipline, close_discipline, readable, bar_key, reasons_key,
}
use xms_backend.Tickets.CloseDiscipline.CatalogLaws.{Reads, keys_of, catalog_in_force}
use xms_backend.Tickets.CloseDiscipline.TimeGate.{IsOffered, gate_stays_shut}

abbrev facts : CloseDisciplineFacts
facts = record {
  logged_minutes = pos 0;
  in_change_window = false;
  no_solution_codes = "duplicate" ∷ [];
  known_codes = "fixed" ∷ "duplicate" ∷ [];
  allowed_exemptions = none;
  min_notes_chars = none;
}

abbrev input : Option String → String → TransitionInput
input exemption notes = record {
  pause_reason = none;
  resolution = some (record {
    code = some "fixed";
    notes = some notes;
    solution_article_id = none;
    solution_candidate = true;
    time_exemption_reason = exemption;
  });
}

abbrev closing : List TransitionRequirement
closing = resolution ∷ solution_link ∷ time_logged ∷ []

gate_tests :
    (check_requirements closing (input none " Fixed ") facts
      ≡ resolution_notes_too_short ∷ no_time_logged ∷ [])
    × (check_requirements closing
          (input (some " merged ") "The certificate had expired and was renewed.")
          facts
        ≡ [])
    × (check_requirements (time_logged ∷ []) (input (some ".") "x") facts
        ≡ unknown_exemption_reason ∷ [])
    × (check_requirements (pause_reason ∷ []) (input none "x") facts ≡ no_pause_reason ∷ [])
unfolding check_requirements resolution_missing exemption_missing min_notes_chars allowed_exemptions
    trim length
gate_tests = (refl, refl, refl, refl)

check_requirements_iff_example :
    (check_requirements closing
        (input (some " merged ") "The certificate had expired and was renewed.")
        facts
      ≡ [])
    ↔ IsDisciplined closing
        (input (some " merged ") "The certificate had expired and was renewed.")
        facts
check_requirements_iff_example =
    check_requirements_iff closing
      (input (some " merged ") "The certificate had expired and was renewed.") facts

abbrev catalog : Value
catalog = object (
    field "min_resolution_notes_chars" (number (whole (pos 10))) (
      field "time_exemption_reasons"
        (array (
          cons
            (object
              (field "key" (string "no_work") (field "label" (string "No work was done") end)))
            nil))
        end))

catalog_valid : validate_close_discipline catalog ≡ []
unfolding validate_close_discipline get trim is_snake_case
catalog_valid = refl

-- What the account of the catalog has in force.
abbrev own_facts : CloseDisciplineFacts
own_facts = record facts { allowed_exemptions = some ("no_work" ∷ []) }

own_in_force : own_facts.allowed_exemptions ≡ some (close_discipline catalog).allowed_exemptions
unfolding close_discipline readable get
own_in_force = refl

no_work_passes : check_requirements (time_logged ∷ []) (input (some " no_work ") "x") own_facts ≡ []
unfolding check_requirements exemption_missing allowed_exemptions trim
no_work_passes = refl

merged_refused :
    check_requirements (time_logged ∷ []) (input (some "merged") "x") own_facts
    ≡ unknown_exemption_reason ∷ []
unfolding check_requirements exemption_missing allowed_exemptions trim
merged_refused = refl

gate_stays_shut_example :
    (is_positive own_facts.logged_minutes ≡ true)
    ⊎ ((reason : String) × ((or_no_resolution
            (input (some " no_work ") "x").resolution).time_exemption_reason
          ≡ some reason)
        × (is_empty (trim reason) ≡ false)
        × IsOffered catalog (trim reason))
gate_stays_shut_example =
    gate_stays_shut catalog (time_logged ∷ []) (input (some " no_work ") "x") own_facts own_in_force
      (Memᴰ.head refl) no_work_passes

catalog_in_force_example :
    let bar = property bar_key catalog in
    let reasons = property reasons_key catalog in
    let d = close_discipline catalog in
    (((bar ≡ undefined) × (d.min_notes_chars ≡ 40))
      ⊎ ((n : ℕ) × (bar ≡ number (whole (pos n))) × (n ≤ 4000) × (d.min_notes_chars ≡ n)))
    × (((reasons ≡ undefined) × (d.reasons ≡ default_time_exemption_reasons))
        ⊎ ((xs : Items) × (reasons ≡ array xs)
            × Reads (items xs) d.reasons
            × Distinct (keys_of d.reasons)))
catalog_in_force_example = catalog_in_force catalog catalog_valid
