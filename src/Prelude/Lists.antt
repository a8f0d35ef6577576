-- ===== src/Prelude/Lists.antt =====
-- Lists measured by native numbers and searched by Boolean tests (`filter`, `some`, `every`,
-- `find`, `includes`), and the lists of problems that the validators report.
use Prim.Native.Nat.{ℕ, zero, suc, ◌+◌}
use mathlib.Core.Path.{◌≡◌, refl}
use mathlib.Core.Logic.{◌↔◌, ◌≢◌}
use mathlib.Core.Bool.{Bool, true, false, ◌&&◌, ◌||◌}
use mathlib.Core.Option.{Option, none, some}
use mathlib.Core.List.{List, [], ◌∷◌, ◌++◌, Memᴰ}
use native.Mathlib.Omega.{arith}
use xms_backend.Prelude.Tests.{if◌then◌else◌}

module _ {ℓ} {A : Type ℓ} where
  abbrev pub is_none : Option A → Bool
  is_none none = true
  is_none (some a) = false

  pub is_none-eq-true : (o : Option A) → is_none o ≡ true → o ≡ none
  is_none-eq-true none h = refl
  is_none-eq-true (some a) h = cc

  abbrev pub length : List A → ℕ
  length [] = 0
  length (x ∷ xs) = suc (length xs)

  abbrev pub is_nil : List A → Bool
  is_nil [] = true
  is_nil (x ∷ xs) = false

  pub is_nil-eq-false : (xs : List A) → (is_nil xs ≡ false) ↔ (xs ≢ [])
  is_nil-eq-false [] = (λ h. absurd (cc), λ h. absurd (h refl))
  is_nil-eq-false (x ∷ xs) = (λ _ h. cc, λ _. refl)

  pub is_nil-eq-true : (xs : List A) → is_nil xs ≡ true → xs ≡ []
  is_nil-eq-true [] h = refl
  is_nil-eq-true (x ∷ xs) h = cc

  abbrev pub filter : (A → Bool) → List A → List A
  filter p [] = []
  filter p (x ∷ xs) = let rest = filter p xs in if p x then x ∷ rest else rest

  abbrev pub take : ℕ → List A → List A
  take zero xs = []
  take (suc n) [] = []
  take (suc n) (x ∷ xs) = x ∷ take n xs

  abbrev pub any : (A → Bool) → List A → Bool
  any p [] = false
  any p (x ∷ xs) = p x || any p xs

  abbrev pub all : (A → Bool) → List A → Bool
  all p [] = true
  all p (x ∷ xs) = p x && all p xs

  abbrev pub find : (A → Bool) → List A → Option A
  find p [] = none
  find p (x ∷ xs) = if p x then some x else find p xs

  -- `if (test) problems.push(p)`
  abbrev pub report : Bool → A → List A
  report true p = p ∷ []
  report false p = []

  pub mem_of_mem-take : (n : ℕ) {x : A} (xs : List A) → Memᴰ x (take n xs) → Memᴰ x xs
  mem_of_mem-take zero xs m = elim m [ ]
  mem_of_mem-take (suc n) [] m = elim m [ ]
  mem_of_mem-take (suc n) (y ∷ ys) (Memᴰ.head e) = Memᴰ.head e
  mem_of_mem-take (suc n) (y ∷ ys) (Memᴰ.tail m) = Memᴰ.tail (mem_of_mem-take n ys m)

  pub length-append : (xs ys : List A) → length (xs ++ ys) ≡ length xs + length ys
  length-append [] ys = omega arith
  length-append (x ∷ xs) ys = omega (arith, length-append xs ys)

  pub report-eq-nil : (b : Bool) (p : A) → (report b p ≡ []) ↔ (b ≡ false)
  report-eq-nil true p = (λ h. cc, λ h. cc)
  report-eq-nil false p = (λ _. refl, λ _. refl)

  pub append-eq-nil : (xs ys : List A) → ((xs ++ ys) ≡ []) ↔ ((xs ≡ []) × (ys ≡ []))
  append-eq-nil [] ys = (λ h. (refl, h), λ h. h.1)
  append-eq-nil (x ∷ xs) ys = (λ h. cc, λ h. cc)

  pub report-append-eq-nil :
      (b : Bool) (p : A) (rest : List A) → ((report b p ++ rest) ≡ []) ↔ ((b ≡ false) × (rest ≡ []))
  report-append-eq-nil true p rest = (λ h. cc, λ h. cc)
  report-append-eq-nil false p rest = (λ h. (refl, h), λ h. h.1)
