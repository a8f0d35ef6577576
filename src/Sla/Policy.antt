-- ===== src/Sla/Policy.antt =====
-- src/domain/sla/policy.ts: the check of a policy body before an account may use it. A problem is a
-- value with the ticket type and the priority that its message names.
mod Accepted
mod Tests
use xms_backend.Prelude.Int.{ℤ, pos, negsuc}
use xms_backend.Prelude.Json.{
  Number, whole, broken, not_finite, Value, undefined, null, number, string, object, Fields,
  entries, get, has, property, is_record, is_undefined, is_whole_within,
}
use xms_backend.Prelude.Texts.{is_empty, is_snake_case}
use xms_backend.Prelude.{
  ℕ, ◌*◌, String, Bool, true, false, not, ◌&&◌, ◌||◌, List, [], ◌∷◌, ◌++◌, report, is_nil, contains,
  ltb, if◌then◌else◌, string_key,
}

pub data PolicyProblem : Type 0 where
  body_no_object bad_calendar no_targets no_types : PolicyProblem
  bad_type no_priorities_object no_priorities : String → PolicyProblem
  unknown_priority no_target_object bad_response bad_resolution response_after_resolution :
      String → String → PolicyProblem

abbrev pub priority_keys : List String
priority_keys = "p1" ∷ "p2" ∷ "p3" ∷ "p4" ∷ []

abbrev pub max_minutes : ℕ
max_minutes = 60 * 24 * 365

abbrev pub is_null : Value → Bool
is_null null = true
is_null _ = false

-- `isMinutes`
abbrev pub is_minutes : Value → Bool
is_minutes v = is_null v || is_whole_within 1 max_minutes v

-- `calendar !== undefined` and not a string with something in it
abbrev pub is_bad_calendar : Value → Bool
is_bad_calendar undefined = false
is_bad_calendar (string s) = is_empty s
is_bad_calendar _ = true

abbrev pub fields_of : Value → Fields
fields_of (object fs) = fs
fields_of _ = Fields.end

-- `exceeds` is `>` on two numbers.
module _ (exceeds : Number → Number → Bool) where
  abbrev pub is_later : Value → Value → Bool
  is_later (number a) (number b) = exceeds a b
  is_later _ _ = false

  -- The checks of one target.
  unfoldable pub target_problems : String → String → Value → List PolicyProblem
  target_problems type priority target =
      let fs = fields_of target in
      let response = get "response_minutes" fs in
      let resolution = get "resolution_minutes" fs in
      let problems =
        report (not (has "response_minutes" fs) || not (is_minutes response))
          (bad_response type priority)
        ++ (report (not (has "resolution_minutes" fs) || not (is_minutes resolution))
              (bad_resolution type priority)
            ++ report (is_later response resolution) (response_after_resolution type priority)) in
      report (not (contains priority_keys priority)) (unknown_priority type priority)
      ++ (if is_record target then problems else no_target_object type priority ∷ [])

  unfoldable pub priority_problems : String → List (String × Value) → List PolicyProblem
  unfolding target_problems
  priority_problems type [] = []
  priority_problems type (e ∷ es) = target_problems type e.0 e.1 ++ priority_problems type es

  -- The checks of what stands under one ticket type.
  unfoldable pub type_problems : String → Value → List PolicyProblem
  unfolding priority_problems
  type_problems type by_priority =
      let es = entries (fields_of by_priority) in
      let problems = report (is_nil es) (no_priorities type) ++ priority_problems type es in
      report (not (is_snake_case type)) (bad_type type)
      ++ (if is_record by_priority then problems else no_priorities_object type ∷ [])

  unfoldable pub types_problems : List (String × Value) → List PolicyProblem
  unfolding type_problems
  types_problems [] = []
  types_problems (e ∷ es) = type_problems e.0 e.1 ++ types_problems es

  unfoldable pub validate_sla_policy : Value → List PolicyProblem
  unfolding types_problems
  validate_sla_policy body =
      let targets = property "targets" body in
      let types = entries (fields_of targets) in
      let inner =
        if is_record targets
        then report (is_nil types) no_types ++ types_problems types
        else no_targets ∷ [] in
      if is_record body
      then report (is_bad_calendar (property "calendar" body)) bad_calendar ++ inner
      else body_no_object ∷ []
