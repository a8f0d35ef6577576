-- ===== src/Sync/FieldMap.antt =====
-- src/domain/sync/maps.ts: the fields of the two sides of a link, and the transforms of their values.
-- `to_text` is what `String` makes of a value that is neither a text, null nor undefined. An object
-- that is used as a dictionary is the list of its entries. Where `slice` would cut a character of two
-- units in half, the model leaves it out.
use Prim.Native.Char.{code, Char}
use Prim.Native.String.{◌++◌}
use xms_backend.Prelude.Json.{Value, undefined, null, string, object, Fields, get}
use xms_backend.Prelude.Maps.{lookup}
use xms_backend.Prelude.Texts.{is_space}
use xms_backend.Prelude.{
  ℕ, zero, suc, ◌+◌, ◌-◌, String, Bool, true, false, ◌&&◌, ◌||◌, Option, none, some, List, [], ◌∷◌,
  map, filter, ltb, leb, nat_beq, ◌==◌, if◌then◌else◌, string_key,
}
use xms_backend.Sync.Order.{sort}
use xms_backend.Sync.Rules.{SystemOfRecord, external_at_create_then_xms, xms, external, newest}

-- The directions 'in', 'out' and 'both', or a text of a map from outside that is none of them.
pub data Direction : Type 0 where
  inward outward both : Direction
  unlisted : String → Direction

pub data Transform : Type 0 where
  identity : Transform
  table : List (String × String) → Option String → Transform
  template : String → Transform
  truncate : ℕ → Transform

-- `XMS_FIELDS` and `LEVELS`. The fields are kept by their names.
pub record FieldSpec : Type 0 where
  pub required : Bool
  pub sor : SystemOfRecord

abbrev spec : Bool → SystemOfRecord → FieldSpec
spec required sor = record { required = required; sor = sor }

abbrev pub xms_fields : List (String × FieldSpec)
xms_fields =
    ("short_description", spec true external_at_create_then_xms)
    ∷ ("description", spec false external_at_create_then_xms)
    ∷ ("requester_email", spec true external_at_create_then_xms)
    ∷ ("requester_name", spec false external_at_create_then_xms)
    ∷ ("category", spec false xms)
    ∷ ("impact", spec false external_at_create_then_xms)
    ∷ ("urgency", spec false external_at_create_then_xms)
    ∷ ("external_ref", spec false external)
    ∷ ("client_reference", spec false external)
    ∷ ("client_notes", spec false newest)
    ∷ []

abbrev pub levels : List String
levels = "high" ∷ "medium" ∷ "low" ∷ []

-- `XMS_FIELDS[field].sor`
unfoldable pub default_sor : String → Option SystemOfRecord
default_sor name = elim (lookup name xms_fields) [ none ↦ none | some found ↦ some found.sor ]

pub record FieldMapEntry : Type 0 where
  pub external : String
  pub xms : String
  pub direction : Direction
  pub transform : Transform
  pub sor : Option SystemOfRecord

abbrev pub is_inward : Direction → Bool
is_inward inward = true
is_inward _ = false

abbrev pub is_outward : Direction → Bool
is_outward outward = true
is_outward _ = false

abbrev pub is_name_char : ℕ → Bool
is_name_char c =
    (leb b'a' c && leb c b'z')
    || (leb b'A' c && leb c b'Z')
    || (leb b'0' c && leb c b'9')
    || nat_beq c b'_'
    || nat_beq c b'.'

-- Units of a text as UTF-16.
abbrev pub units : Char → ℕ
units c = if ltb (code c) 0x10000 then 1 else 2

-- `text.length > length ? text.slice(0, length) : text`
unfoldable pub cut : ℕ → String → String
cut room String.[] = String.[]
cut room (String.◌∷◌ c s) =
    let rest = cut (room - units c) s in if leb (units c) room then String.◌∷◌ c rest else String.[]

-- A name and the number of characters that a placeholder takes after its first.
pub record Placeholder : Type 0 where
  pub name : String
  pub taken : ℕ

-- `\s*\}\}` after a name
abbrev pub closing : String → ℕ → String → Option Placeholder
closing name n String.[] = none
closing name n (String.◌∷◌ c s) =
    let later = closing name (suc n) s in
    if is_space (code c)
    then later
    else if nat_beq (code c) b'}'
    then elim s [
      | String.[] ↦ none
      | String.◌∷◌ d t ↦
          if nat_beq (code d) b'}' then some (record { name = name; taken = n + 2 }) else none
    ]
    else none

-- `([A-Za-z0-9_.]+)` with the characters before it, and what stands behind it
abbrev pub naming : String → ℕ → String → Option Placeholder
naming name n String.[] = none
naming name n (String.◌∷◌ c s) =
    let longer = naming (name ++ String.◌∷◌ c String.[]) (suc n) s in
    if is_name_char (code c)
    then longer
    else if name == ""
    then none
    else closing name n (String.◌∷◌ c s)

abbrev pub opening : ℕ → String → Option Placeholder
opening n String.[] = none
opening n (String.◌∷◌ c s) =
    let later = opening (suc n) s in
    if is_space (code c) then later else naming "" n (String.◌∷◌ c s)

-- `/\{\{\s*([A-Za-z0-9_.]+)\s*\}\}/` at a character and the text behind it
abbrev pub placeholder : Char → String → Option Placeholder
placeholder c String.[] = none
placeholder c (String.◌∷◌ d s) =
    if nat_beq (code c) b'{' && nat_beq (code d) b'{' then opening 1 s else none

-- `template.replace(..., fill)`; the number counts the characters of a placeholder still to pass.
unfoldable pub replace : (String → String) → ℕ → String → String
replace fill n String.[] = String.[]
replace fill (suc n) (String.◌∷◌ c s) = replace fill n s
replace fill zero (String.◌∷◌ c s) =
    let plain = String.◌∷◌ c (replace fill zero s) in
    elim (placeholder c s) [ none ↦ plain | some p ↦ fill p.name ++ replace fill p.taken s ]

-- The keys that a lookup gives a text for, `Object.keys(values).filter(...)`.
abbrev pub keys_for : String → List (String × String) → List String
keys_for text values = map (λ e. e.0) (filter (λ e. e.1 == text) values)

abbrev pub string_or_undefined : Option String → Value
string_or_undefined none = undefined
string_or_undefined (some s) = string s

abbrev pub first : List String → Value
first [] = undefined
first (k ∷ ks) = string k

abbrev pub nullish : Value → Bool
nullish undefined = true
nullish null = true
nullish _ = false

-- `display_value ?? value` of a reference, or the value itself
abbrev pub reference : Value → Value → Value
reference shown stored = if nullish shown then stored else shown

abbrev pub picked : Value → Value
picked (object fs) = reference (get "display_value" fs) (get "value" fs)
picked v = v

unfoldable pub pick : Fields → String → Value
pick fields name = picked (get name fields)

module _ (to_text : Value → String) where
  -- `value === null || value === undefined ? '' : String(value)`
  abbrev pub text_of : Value → String
  text_of undefined = ""
  text_of null = ""
  text_of (string s) = s
  text_of v = to_text v

  abbrev pub cut_value : ℕ → Value → Value
  cut_value n undefined = undefined
  cut_value n null = null
  cut_value n v = string (cut n (text_of v))

  abbrev pub found_or : Option String → Option String → Value
  found_or none fallback = string_or_undefined fallback
  found_or (some s) fallback = string s

  unfoldable pub apply_transform : Value → Transform → Fields → Value
  apply_transform value identity fields = value
  apply_transform value (table values fallback) fields =
      found_or (lookup (text_of value) values) fallback
  apply_transform value (template t) fields =
      string (replace (λ name. text_of (get name fields)) zero t)
  apply_transform value (truncate n) fields = cut_value n value

  unfoldable pub reverse_transform : Value → Transform → Value
  reverse_transform value identity = value
  reverse_transform value (table values fallback) = first (sort (keys_for (text_of value) values))
  reverse_transform value (template t) = undefined
  reverse_transform value (truncate n) = cut_value n value
