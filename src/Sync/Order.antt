-- ===== src/Sync/Order.antt =====
-- The order of texts in which `sort` puts them: by UTF-16 units.
use Prim.Native.Char.{code}
use xms_backend.Prelude.{
  ℕ, ◌+◌, String, Bool, true, false, ◌&&◌, List, [], ◌∷◌, ltb, leb, nat_beq, if◌then◌else◌, Memᴰ,
  ◌⊎◌, inl, inr, ◌≡◌, Bool-cases,
}

-- Characters of two units come before those from 0xe000 to 0xffff.
abbrev pub rank : ℕ → ℕ
rank c = if leb 0xe000 c && leb c 0xffff then c + 0x110000 else c

-- Whether a text stands before another or is equal to it.
unfoldable pub before : String → String → Bool
before String.[] t = true
before (String.◌∷◌ c s) String.[] = false
before (String.◌∷◌ c s) (String.◌∷◌ d t) =
    let rest = before s t in
    if ltb (rank (code c)) (rank (code d))
    then true
    else nat_beq (rank (code c)) (rank (code d)) && rest

unfoldable pub place : String → List String → List String
place s [] = s ∷ []
place s (t ∷ ts) = let rest = place s ts in if before s t then s ∷ t ∷ ts else t ∷ rest

unfoldable pub sort : List String → List String
sort [] = []
sort (s ∷ ss) = place s (sort ss)

mem-place_cases :
    (s : String) (ts : List String) {x : String} → Memᴰ x (place s ts) → (x ≡ s) ⊎ Memᴰ x ts
unfolding place
mem-place_cases s [] (Memᴰ.head e) = inl e
mem-place_cases s [] (Memᴰ.tail m) = elim m [ ]
mem-place_cases s (t ∷ ts) m = elim (Bool-cases (before s t)) [
  | inl y ↦ elim (rw y at m) [ Memᴰ.head e ↦ inl e | Memᴰ.tail l ↦ inr l ]
  | inr n ↦ elim (rw n at m) [
    | Memᴰ.head e ↦ inr (Memᴰ.head e)
    | Memᴰ.tail l ↦ elim (mem-place_cases s ts l) [ inl e ↦ inl e | inr k ↦ inr (Memᴰ.tail k) ]
  ]
]

-- Sorting adds no member.
pub mem_of_mem-sort : (ss : List String) {x : String} → Memᴰ x (sort ss) → Memᴰ x ss
unfolding sort
mem_of_mem-sort [] m = m
mem_of_mem-sort (s ∷ ss) m = elim (mem-place_cases s (sort ss) m) [
  | inl e ↦ Memᴰ.head e
  | inr l ↦ Memᴰ.tail (mem_of_mem-sort ss l)
]
