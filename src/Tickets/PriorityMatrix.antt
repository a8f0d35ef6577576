-- ===== src/Tickets/PriorityMatrix.antt =====
-- src/domain/tickets/priority-matrix.ts: the priority that impact and urgency give.
mod Laws
mod Tests
use xms_backend.Prelude.Int.{pos, negsuc}
use xms_backend.Prelude.Json.{
  undefined, null, boolean, number, array, Number, whole, broken, not_finite, Value, string, object,
  property, get,
}
use xms_backend.Prelude.{
  ltb, String, Bool, true, false, not, ◌&&◌, ◌||◌, Option, none, some, List, [], ◌∷◌, ◌++◌, report,
  ◌==◌, if◌then◌else◌, string_key, ◌⊎◌, inl, inr, is_nil,
}

pub data Level : Type 0 where
  high medium low : Level

pub data Priority : Type 0 where
  p1 p2 p3 p4 : Priority

-- The keys and values of a body are the texts of the levels and priorities.
abbrev pub level_key : Level → String
level_key high = "high"
level_key medium = "medium"
level_key low = "low"

abbrev pub priority_key : Priority → String
priority_key p1 = "p1"
priority_key p2 = "p2"
priority_key p3 = "p3"
priority_key p4 = "p4"

abbrev pub levels : List Level
levels = high ∷ medium ∷ low ∷ []

-- `PRIORITIES.includes(value)`, with the priority that the value is.
abbrev read_key : String → Option Priority
read_key s =
    if s == "p1"
    then some p1
    else if s == "p2"
    then some p2
    else if s == "p3"
    then some p3
    else if s == "p4"
    then some p4
    else none

unfoldable pub read_priority : Value → Option Priority
read_priority (string s) = read_key s
read_priority _ = none

abbrev pub is_priority : Option Priority → Bool
is_priority none = false
is_priority (some p) = true

pub data MatrixProblem : Type 0 where
  no_cells bad_default : MatrixProblem
  bad_cell : Level → Level → MatrixProblem

-- `body.cells[impact]?.[urgency]`
unfoldable pub cell : Value → Level → Level → Value
cell body impact urgency =
    property (level_key urgency) (property (level_key impact) (property "cells" body))

unfoldable pub row_problems : Value → Level → List Level → List MatrixProblem
unfolding cell read_priority
row_problems body impact [] = []
row_problems body impact (urgency ∷ us) =
    report (not (is_priority (read_priority (cell body impact urgency)))) (bad_cell impact urgency)
    ++ row_problems body impact us

unfoldable pub cell_problems : Value → List Level → List MatrixProblem
unfolding row_problems
cell_problems body [] = []
cell_problems body (impact ∷ is) = row_problems body impact levels ++ cell_problems body is

-- `body?.cells` counts as true. A number that is not finite is infinite here, since no body has NaN.
abbrev pub has_cells : Value → Bool
has_cells undefined = false
has_cells null = false
has_cells (boolean b) = b
has_cells (number (whole (pos n))) = ltb 0 n
has_cells (number (whole (negsuc n))) = true
has_cells (number (broken z)) = true
has_cells (number not_finite) = true
has_cells (string s) = not (s == "")
has_cells (array xs) = true
has_cells (object fs) = true

unfoldable pub validate_matrix : Value → List MatrixProblem
unfolding cell_problems
validate_matrix body =
    let problems =
      cell_problems body levels
      ++ report (not (is_priority (read_priority (property "default" body)))) bad_default in
    if has_cells (property "cells" body) then problems else no_cells ∷ []

-- `derive`, as the text that the code returns.
unfoldable pub derive : Value → Option Level → Option Level → Value
unfolding cell
derive body none urgency = property "default" body
derive body (some impact) none = property "default" body
derive body (some impact) (some urgency) = cell body impact urgency

-- The constructor throws the problems of the body, or keeps it.
unfoldable pub new_matrix : Value → List MatrixProblem ⊎ Value
unfolding validate_matrix
new_matrix body =
    let problems = validate_matrix body in if is_nil problems then inr body else inl problems
