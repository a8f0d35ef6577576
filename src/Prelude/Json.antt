-- ===== src/Prelude/Json.antt =====
-- Values of unknown shape, as the validators get them from a parsed body. An object's keys are taken
-- to be distinct, as JSON.parse leaves them.
use Prim.Native.Nat.{ℕ}
use Prim.Native.String.{String}
use mathlib.Core.Bool.{Bool, true, false, ◌||◌}
use mathlib.Core.List.{List, [], ◌∷◌}
use xms_backend.Prelude.Tests.{if◌then◌else◌, leb, ◌==◌, string_key}
use xms_backend.Prelude.Int.{ℤ, pos}

-- A number: a whole one, a finite one that is not whole, by its floor, or one that is not finite.
pub data Number : Type 0 where
  whole : ℤ → Number
  broken : ℤ → Number
  not_finite : Number

mutual
  pub data Value : Type 0 where
    undefined null : Value
    boolean : Bool → Value
    number : Number → Value
    string : String → Value
    array : Items → Value
    object : Fields → Value

  pub data Items : Type 0 where
    nil : Items
    cons : Value → Items → Items

  pub data Fields : Type 0 where
    end : Fields
    field : String → Value → Fields → Fields

abbrev pub items : Items → List Value
items nil = []
items (cons v vs) = v ∷ items vs

-- `Object.entries`
abbrev pub entries : Fields → List (String × Value)
entries end = []
entries (field k v fs) = (k, v) ∷ entries fs

-- `fields.key`, which is undefined where the key is missing
unfoldable pub get : String → Fields → Value
get k end = undefined
get k (field j v fs) = if j == k then v else get k fs

-- `key in fields`
unfoldable pub has : String → Fields → Bool
has k end = false
has k (field j v fs) = j == k || has k fs

-- A property of any value: of what is no object it is undefined.
abbrev pub property : String → Value → Value
property k (object fs) = get k fs
property k _ = undefined

-- `typeof value === 'object' && !Array.isArray(value)`, and not null
abbrev pub is_record : Value → Bool
is_record (object fs) = true
is_record _ = false

abbrev pub is_undefined : Value → Bool
is_undefined undefined = true
is_undefined _ = false

-- `Number.isInteger(value) && value >= low && value <= high`
abbrev pub is_whole_within : ℕ → ℕ → Value → Bool
is_whole_within low high (number (whole (pos n))) = if leb low n then leb n high else false
is_whole_within low high _ = false
