-- ===== src/Prelude/Texts.antt =====
-- Texts: the pattern /^[a-z][a-z0-9_]*$/ of catalog keys, `trim` and `length`. A text is the list
-- of its code points; `length` counts UTF-16 units, as JavaScript does.
use Prim.Native.Char.{code}
use Prim.Native.String.{String}
use Prim.Native.Nat.{ℕ, ◌+◌}
use mathlib.Core.Path.{◌≡◌, refl}
use mathlib.Core.Bool.{Bool, true, false, ◌&&◌, ◌||◌}
use native.Mathlib.Omega.{arith}
use xms_backend.Prelude.Tests.{if◌then◌else◌, leb, ltb, nat_beq}

abbrev pub is_empty : String → Bool
is_empty String.[] = true
is_empty (String.◌∷◌ c s) = false

abbrev is_key_start : ℕ → Bool
is_key_start c = leb b'a' c && leb c b'z'

abbrev is_key_char : ℕ → Bool
is_key_char c = is_key_start c || (leb b'0' c && leb c b'9') || nat_beq c b'_'

abbrev all_key_chars : String → Bool
all_key_chars String.[] = true
all_key_chars (String.◌∷◌ c s) = is_key_char (code c) && all_key_chars s

-- /^[a-z][a-z0-9_]*$/
unfoldable pub is_snake_case : String → Bool
is_snake_case String.[] = false
is_snake_case (String.◌∷◌ c s) = is_key_start (code c) && all_key_chars s

-- The white space and line terminators that `trim` strips.
unfoldable pub is_space : ℕ → Bool
is_space c =
    (leb 9 c && leb c 13)
    || nat_beq c 32
    || nat_beq c 0xa0
    || nat_beq c 0x1680
    || (leb 0x2000 c && leb c 0x200a)
    || nat_beq c 0x2028
    || nat_beq c 0x2029
    || nat_beq c 0x202f
    || nat_beq c 0x205f
    || nat_beq c 0x3000
    || nat_beq c 0xfeff

trim_start : String → String
trim_start String.[] = String.[]
trim_start (String.◌∷◌ c s) = if is_space (code c) then trim_start s else String.◌∷◌ c s

trim_end : String → String
trim_end String.[] = String.[]
trim_end (String.◌∷◌ c s) =
    let rest = trim_end s in
    if is_space (code c) && is_empty rest then String.[] else String.◌∷◌ c rest

unfoldable pub trim : String → String
unfolding trim_start trim_end is_space
trim s = trim_end (trim_start s)

unfoldable pub length : String → ℕ
length String.[] = 0
length (String.◌∷◌ c s) = (if ltb (code c) 0x10000 then 1 else 2) + length s

abbrev pub is_blank : String → Bool
is_blank String.[] = true
is_blank (String.◌∷◌ c s) = is_space (code c) && is_blank s

trim_end_blank : (s : String) → is_empty (trim_end s) ≡ is_blank s
unfolding trim_end
trim_end_blank String.[] = refl
trim_end_blank (String.◌∷◌ c s) = let ih = trim_end_blank s in ground arith

trim_start_blank : (s : String) → is_blank (trim_start s) ≡ is_blank s
unfolding trim_start
trim_start_blank String.[] = refl
trim_start_blank (String.◌∷◌ c s) = let ih = trim_start_blank s in ground arith

-- What is left of a text is empty exactly when the text holds nothing but white space.
pub is_empty-trim : (s : String) → is_empty (trim s) ≡ is_blank s
unfolding trim
is_empty-trim s = rw (trim_end_blank (trim_start s)) (trim_start_blank s)
