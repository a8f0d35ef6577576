-- ===== src/Tickets/CloseDiscipline/Catalog.antt =====
-- src/domain/tickets/close-discipline.ts, `validateCloseDiscipline`, and its reader in
-- src/modules/tickets/tickets.service.ts, `closeDiscipline`. A problem is a value with the index and
-- the key that its message names.
use xms_backend.Prelude.Json.{
  Number, Value, undefined, string, number, array, object, property, is_undefined, is_whole_within,
  items,
}
use xms_backend.Prelude.Texts.{is_empty, trim, is_snake_case}
use xms_backend.Prelude.{
  ℕ, suc, String, Bool, true, false, not, ◌&&◌, Option, none, some, List, [], ◌∷◌, ◌++◌, map,
  contains, report, is_nil, if◌then◌else◌, string_key,
}
use xms_backend.Tickets.CloseDiscipline.{default_time_exemption_reasons, bar_of}

pub data CatalogProblem : Type 0 where
  no_object bad_bar no_reasons : CatalogProblem
  bad_key bad_label : ℕ → CatalogProblem
  duplicate_key : ℕ → String → CatalogProblem

abbrev pub is_good_label : Value → Bool
is_good_label (string s) = not (is_empty (trim s))
is_good_label _ = false

-- The test of a key, its problems and the keys seen after it.
unfoldable pub key_problems : ℕ → List String → Value → List CatalogProblem
key_problems index seen (string key) =
    if not (is_snake_case key)
    then bad_key index ∷ []
    else report (contains seen key) (duplicate_key index key)
key_problems index seen _ = bad_key index ∷ []

unfoldable pub seen_after : List String → Value → List String
seen_after seen (string key) =
    if is_snake_case key && not (contains seen key) then seen ++ key ∷ [] else seen
seen_after seen _ = seen

unfoldable pub reason_problems : ℕ → List String → List Value → List CatalogProblem
unfolding key_problems seen_after
reason_problems index seen [] = []
reason_problems index seen (reason ∷ reasons) =
    key_problems index seen (property "key" reason)
    ++ (report (not (is_good_label (property "label" reason))) (bad_label index)
        ++ reason_problems (suc index) (seen_after seen (property "key" reason)) reasons)

unfoldable pub list_problems : Value → List CatalogProblem
unfolding reason_problems
list_problems undefined = []
list_problems (array xs) =
    if is_nil (items xs) then no_reasons ∷ [] else reason_problems 0 [] (items xs)
list_problems _ = no_reasons ∷ []

abbrev pub bar_key : String
bar_key = "min_resolution_notes_chars"

abbrev pub reasons_key : String
reasons_key = "time_exemption_reasons"

-- `body` and `typeof body === 'object'`: an array passes, and has none of the two properties.
abbrev pub is_object : Value → Bool
is_object (object fs) = true
is_object (array xs) = true
is_object _ = false

unfoldable pub validate_close_discipline : Value → List CatalogProblem
unfolding list_problems
validate_close_discipline body =
    let bar = property bar_key body in
    let problems =
      report (not (is_undefined bar) && not (is_whole_within 0 4000 bar)) bad_bar
      ++ list_problems (property reasons_key body) in
    if is_object body then problems else no_object ∷ []

-- The reasons with a key and a label that are strings.
abbrev pub reason_of : Value → Value → List (String × String)
reason_of (string key) (string label) = (key, label) ∷ []
reason_of _ _ = []

unfoldable pub readable : List Value → List (String × String)
readable [] = []
readable (reason ∷ reasons) =
    reason_of (property "key" reason) (property "label" reason) ++ readable reasons

abbrev pub listed : Value → List Value
listed (array xs) = items xs
listed _ = []

abbrev pub number_of : Value → Option Number
number_of (number n) = some n
number_of _ = none

pub record Discipline : Type 0 where
  pub allowed_exemptions : List String
  pub min_notes_chars : ℕ
  pub reasons : List (String × String)

abbrev pub or_default : List (String × String) → List (String × String)
or_default [] = default_time_exemption_reasons
or_default (r ∷ rs) = r ∷ rs

-- `closeDiscipline`: a catalog that is missing has no properties, and no body is `undefined`.
unfoldable pub close_discipline : Value → Discipline
unfolding readable
close_discipline body =
    let reasons = or_default (readable (listed (property reasons_key body))) in
    record {
      allowed_exemptions = map (λ r. r.0) reasons;
      min_notes_chars = bar_of (number_of (property bar_key body));
      reasons = reasons;
    }
