-- ===== src/Tickets/PriorityMatrix/Tests.antt =====
-- The priority matrix at small inputs.
use xms_backend.Prelude.Json.{Value, string, object, field, end, get}
use xms_backend.Prelude.{String, none, some, [], ◌∷◌, ◌≡◌, ◌≢◌, ◌↔◌, ◌⊎◌, inl, inr, refl}
use xms_backend.Tickets.PriorityMatrix.{
  high, low, bad_cell, validate_matrix, derive, new_matrix, read_priority, cell, row_problems,
  cell_problems,
}
use xms_backend.Tickets.PriorityMatrix.Laws.{Answers, new_matrix_iff}

abbrev row : String → String → String → Value
row a b c =
    object (field "high" (string a) (field "medium" (string b) (field "low" (string c) end)))

abbrev matrix : String → Value
matrix corner = object (
    field "cells"
      (object (
        field "high" (row "p1" "p2" "p3")
          (field "medium" (row "p2" "p3" "p4") (field "low" (row "p3" "p4" corner) end))))
      (field "default" (string "p3") end))

matrix_tests :
    (validate_matrix (matrix "p4") ≡ [])
    × (validate_matrix (matrix "p5") ≡ bad_cell low low ∷ [])
    × (derive (matrix "p4") (some high) (some low) ≡ string "p3")
    × (derive (matrix "p4") none (some low) ≡ string "p3")
unfolding validate_matrix derive read_priority cell row_problems cell_problems get
matrix_tests = (refl, refl, refl, refl)

new_matrix_iff_example :
    ((new_matrix (matrix "p4") ≡ inr (matrix "p4")) ↔ Answers (matrix "p4"))
    × ((new_matrix (matrix "p4") ≡ inr (matrix "p4"))
        ⊎ ((validate_matrix (matrix "p4") ≢ [])
            × (new_matrix (matrix "p4") ≡ inl (validate_matrix (matrix "p4")))))
new_matrix_iff_example = new_matrix_iff (matrix "p4")
