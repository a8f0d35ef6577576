-- ===== src/Sla/Policy/Tests.antt =====
-- Policies at small inputs.
use xms_backend.Prelude.Int.{pos}
use xms_backend.Prelude.Json.{Number, whole, Value, null, number, object, field, end, get, has}
use xms_backend.Prelude.Texts.{is_snake_case}
use xms_backend.Prelude.{ℕ, String, Bool, false, [], ◌∷◌, ◌≡◌, ◌↔◌, refl, ltb}
use xms_backend.Sla.Policy.{
  validate_sla_policy, types_problems, type_problems, priority_problems, target_problems,
  unknown_priority, response_after_resolution, bad_resolution,
}
use xms_backend.Sla.Policy.Accepted.{IsPolicy, validate_sla_policy_iff}

-- `>` on the numbers of the tests, which are whole and not below zero
abbrev exceeds : Number → Number → Bool
exceeds (whole (pos a)) (whole (pos b)) = ltb b a
exceeds _ _ = false

abbrev policy : String → Value → Value → Value
policy priority response resolution = object (
    field "targets"
      (object (
        field "incident"
          (object (
            field priority
              (object
                (field "response_minutes" response (field "resolution_minutes" resolution end)))
              end))
          end))
      end)

abbrev minutes : ℕ → Value
minutes n = number (whole (pos n))

policy_tests :
    (validate_sla_policy exceeds (policy "p1" (minutes 15) (minutes 240)) ≡ [])
    × (validate_sla_policy exceeds (policy "p1" (minutes 15) null) ≡ [])
    × (validate_sla_policy exceeds (policy "p5" (minutes 15) (minutes 0))
        ≡ unknown_priority "incident" "p5"
          ∷ bad_resolution "incident" "p5"
          ∷ response_after_resolution "incident" "p5"
          ∷ [])
unfolding validate_sla_policy types_problems type_problems priority_problems target_problems get has
    is_snake_case
policy_tests = (refl, refl, refl)

validate_sla_policy_iff_example :
    (validate_sla_policy exceeds (policy "p1" (minutes 15) (minutes 240)) ≡ [])
    ↔ IsPolicy exceeds (policy "p1" (minutes 15) (minutes 240))
validate_sla_policy_iff_example =
    validate_sla_policy_iff exceeds (λ a b. refl) (policy "p1" (minutes 15) (minutes 240))
