-- ===== src/Sync/FieldReport.antt =====
-- src/domain/sync/maps.ts, `validateFieldMap`: the problems and warnings of a version of a field map.
-- A number in a message is written by `to_text`.
use Prim.Native.String.{◌++◌ as ◌^^◌}
use xms_backend.Prelude.Int.{pos}
use xms_backend.Prelude.Json.{Value, number, whole, Fields}
use xms_backend.Prelude.Maps.{lookup, insert}
use xms_backend.Prelude.{
  ℕ, suc, zero, ◌+◌, String, Bool, true, false, not, ◌&&◌, ◌||◌, contains, Option, none, some, List,
  [], ◌∷◌, ◌++◌, map, filter, any, report, add, is_nil, is_none, length, ltb, ◌==◌, if◌then◌else◌,
  string_key,
}
use xms_backend.Sync.FieldMap.{
  FieldMapEntry, Direction, unlisted, is_inward, is_outward, Transform, table, truncate, FieldSpec,
  xms_fields, pick, nullish, text_of,
}
use xms_backend.Sync.Translate.{translate_inbound}

pub record DictionaryField : Type 0 where
  pub name : String
  pub mandatory : Bool

pub record ValidationReport : Type 0 where
  pub ok : Bool
  pub problems : List String
  pub warnings : List String
  pub checked_samples : ℕ

-- The properties of Object.prototype, which every object inherits.
unfoldable pub inherited_names : List String
inherited_names =
    "constructor" ∷ "hasOwnProperty" ∷ "isPrototypeOf" ∷ "propertyIsEnumerable" ∷ "toLocaleString"
    ∷ "toString" ∷ "valueOf" ∷ "__proto__" ∷ "__defineGetter__" ∷ "__defineSetter__"
    ∷ "__lookupGetter__" ∷ "__lookupSetter__" ∷ []

-- `name in entries` for an object with these entries.
unfoldable pub is_in : {A : Type 0} → String → List (String × A) → Bool
is_in name entries = not (is_none (lookup name entries)) || contains inherited_names name

abbrev pub is_listed : Direction → Bool
is_listed (unlisted d) = false
is_listed _ = true

abbrev pub is_unbounded : Transform → Bool
is_unbounded (truncate zero) = true
is_unbounded _ = false

-- `[...new Set(items)]`, after the items seen so far
unfoldable pub unique_after : List String → List String → List String
unique_after seen [] = seen
unique_after seen (i ∷ is) = unique_after (add seen i) is

abbrev pub unique : List String → List String
unique is = unique_after [] is

-- `items.join(', ')`
abbrev pub join : List String → String
join [] = ""
join (s ∷ []) = s
join (s ∷ t ∷ ss) = s ^^ ", " ^^ join (t ∷ ss)

abbrev pub or_zero : Option ℕ → ℕ
or_zero none = 0
or_zero (some n) = n

-- `targets.set(name, (targets.get(name) ?? 0) + 1)` for each name
unfoldable pub count_targets : List String → List (String × ℕ) → List (String × ℕ)
count_targets [] targets = targets
count_targets (n ∷ ns) targets =
    count_targets ns (insert n (or_zero (lookup n targets) + 1) targets)

-- `for (const [field, count] of targets) if (count > 1) ...`
unfoldable pub repeated : String → List (String × ℕ) → List String
repeated message [] = []
repeated message (t ∷ ts) = report (ltb 1 t.1) (t.0 ^^ message) ++ repeated message ts

abbrev pub targets_of : (Direction → Bool) → List FieldMapEntry → List String
targets_of skipped es = map (λ e. e.xms) (filter (λ e. not (skipped e.direction)) es)

-- `spec.required && !inboundTargets.has(field)` for each field
unfoldable pub uncovered : List (String × FieldSpec) → List (String × ℕ) → List String
uncovered [] targets = []
uncovered (f ∷ fs) targets =
    report (f.1.required && is_none (lookup f.0 targets))
      ("required field " ^^ f.0 ^^ " has no inbound entry")
    ++ uncovered fs targets

unfoldable pub unwritten : List FieldMapEntry → List DictionaryField → List String
unwritten es [] = []
unwritten es (d ∷ ds) =
    report (d.mandatory && not (any (λ e. e.external == d.name && not (is_inward e.direction)) es))
      ("mandatory external field " ^^ d.name
        ^^ " has no outbound entry (creation outbound will fail)")
    ++ unwritten es ds

module _ (to_text : Value → String) where
  abbrev pub place_of : ℕ → String
  place_of index = "entry " ^^ to_text (number (whole (pos index))) ^^ ": "

  -- `if (value !== undefined && value !== null) seen.add(String(value))`
  abbrev pub see : String → List String → Fields → List String
  see external seen sample =
      let value = pick sample external in
      if nullish value then seen else add seen (text_of to_text value)

  -- The values of the samples at an external field, each once.
  unfoldable pub seen_values : String → List String → List Fields → List String
  seen_values external seen [] = seen
  seen_values external seen (s ∷ ss) = seen_values external (see external seen s) ss

  abbrev pub gaps : String → List (String × String) → List Fields → List String
  gaps external values samples =
      filter (λ v. not (is_in v values)) (seen_values external [] samples)

  unfoldable pub lookup_problems : ℕ → String → Transform → List Fields → List String
  unfolding seen_values
  lookup_problems index external (table values fallback) samples =
      let missing = gaps external values samples in
      report (not (is_nil missing) && is_none fallback) (
        place_of index
        ^^ "lookup has no value for "
        ^^ join missing
        ^^ " seen in the samples and no fallback")
  lookup_problems index external _ samples = []

  unfoldable pub entry_problems :
      ℕ → FieldMapEntry → List DictionaryField → List Fields → List String
  unfolding lookup_problems
  entry_problems index e dictionary samples =
      report (not (is_in e.xms xms_fields)) (place_of index ^^ "unknown XMS field " ^^ e.xms)
      ++ (report (not (is_listed e.direction)) (place_of index ^^ "bad direction")
          ++ (report (not (is_nil dictionary) && not (any (λ d. d.name == e.external) dictionary))
                (place_of index ^^ e.external ^^ " is not in the dictionary")
              ++ (report (is_unbounded e.transform)
                    (place_of index ^^ "truncate length must be positive")
                  ++ lookup_problems index e.external e.transform samples)))

  -- The loop over the entries, from an index on.
  unfoldable pub entries_problems :
      ℕ → List FieldMapEntry → List DictionaryField → List Fields → List String
  unfolding entry_problems
  entries_problems index [] dictionary samples = []
  entries_problems index (e ∷ es) dictionary samples =
      entry_problems index e dictionary samples
      ++ entries_problems (suc index) es dictionary samples

  unfoldable pub sample_warnings : List FieldMapEntry → List Fields → List String
  sample_warnings es [] = []
  sample_warnings es (s ∷ ss) =
      map (λ f. "sample without " ^^ f) (translate_inbound to_text es s).missing
      ++ sample_warnings es ss

  unfoldable pub problems_of : List FieldMapEntry → List DictionaryField → List Fields → List String
  unfolding entries_problems uncovered repeated
  problems_of es dictionary samples =
      let inbound_targets = count_targets (targets_of is_outward es) [] in
      let outbound_targets = count_targets (targets_of is_inward es) [] in
      entries_problems 0 es dictionary samples
      ++ (uncovered xms_fields inbound_targets
          ++ (repeated " is mapped inbound more than once" inbound_targets
              ++ repeated " is mapped outbound more than once" outbound_targets))

  unfoldable pub validate_field_map :
      List FieldMapEntry → List DictionaryField → List Fields → ValidationReport
  unfolding problems_of unwritten sample_warnings
  validate_field_map es dictionary samples =
      let problems = problems_of es dictionary samples in
      record {
        ok = is_nil problems;
        problems = unique problems;
        warnings = unique (unwritten es dictionary ++ sample_warnings es samples);
        checked_samples = length samples;
      }
