-- ===== src/Prelude/Members.antt =====
-- The members of a list: what appending, filtering and searching do to them, and sets kept as the
-- list of their members.
use mathlib.Core.Path.{◌≡◌, refl, sym, subst}
use mathlib.Core.Logic.{◌↔◌, ◌⊎◌, inl, inr}
use mathlib.Core.Bool.{Bool, true, false, ◌||◌}
use mathlib.Core.Option.{none, some}
use mathlib.Core.List.{List, [], ◌∷◌, ◌++◌, Memᴰ}
use native.Mathlib.Omega.{arith}
use xms_backend.Prelude.Tests.{if◌then◌else◌, Key, ◌==◌, ==_iff, Bool-cases}
use xms_backend.Prelude.Lists.{filter, any, all, find}

module _ {ℓ} {A : Type ℓ} where
  pub mem-append_left : {a : A} {xs : List A} (ys : List A) → Memᴰ a xs → Memᴰ a (xs ++ ys)
  mem-append_left ys (Memᴰ.head e) = Memᴰ.head e
  mem-append_left ys (Memᴰ.tail m) = Memᴰ.tail (mem-append_left ys m)

  pub mem-append_right : {a : A} (xs : List A) {ys : List A} → Memᴰ a ys → Memᴰ a (xs ++ ys)
  mem-append_right [] m = m
  mem-append_right (x ∷ xs) m = Memᴰ.tail (mem-append_right xs m)

  pub mem-append_cases :
      {a : A} (xs : List A) {ys : List A} → Memᴰ a (xs ++ ys) → Memᴰ a xs ⊎ Memᴰ a ys
  mem-append_cases [] m = inr m
  mem-append_cases (x ∷ xs) (Memᴰ.head e) = inl (Memᴰ.head e)
  mem-append_cases (x ∷ xs) (Memᴰ.tail m) = elim (mem-append_cases xs m) [
    | inl l ↦ inl (Memᴰ.tail l)
    | inr r ↦ inr r
  ]

  pub all→each : (p : A → Bool) (xs : List A) → all p xs ≡ true → {x : A} → Memᴰ x xs → p x ≡ true
  all→each p [] h m = elim m [ ]
  all→each p (y ∷ ys) h (Memᴰ.head e) = rw e (ground arith)
  all→each p (y ∷ ys) h (Memᴰ.tail m) = all→each p ys (ground arith) m

  pub each→all : (p : A → Bool) (xs : List A) → ((x : A) → Memᴰ x xs → p x ≡ true) → all p xs ≡ true
  each→all p [] h = refl
  each→all p (y ∷ ys) h = rw (h y (Memᴰ.head refl)) (each→all p ys (λ x m. h x (Memᴰ.tail m)))

  pub any→some : (p : A → Bool) (xs : List A) → any p xs ≡ true → (x : A) × Memᴰ x xs × (p x ≡ true)
  any→some p [] h = cc
  any→some p (y ∷ ys) h = elim (Bool-cases (p y)) [
    | inl t ↦ (y, Memᴰ.head refl, t)
    | inr f ↦ let (x, m, t) = any→some p ys (ground arith) in (x, Memᴰ.tail m, t)
  ]

  pub some→any : (p : A → Bool) {x : A} (xs : List A) → Memᴰ x xs → p x ≡ true → any p xs ≡ true
  some→any p [] m h = elim m [ ]
  some→any p (y ∷ ys) (Memᴰ.head e) h = let t : p y ≡ true = rw (← e) h in rw t
  some→any p (y ∷ ys) (Memᴰ.tail m) h = let t = some→any p ys m h in ground arith

  pub find_sound :
      (p : A → Bool) (xs : List A) {x : A} → find p xs ≡ some x → Memᴰ x xs × (p x ≡ true)
  find_sound p [] e = cc
  find_sound p (y ∷ ys) {x} e = elim (Bool-cases (p y)) [
    | inl t ↦
        let s : y ≡ x = let g = rw t at e in cc in (Memᴰ.head (sym s), subst (λ z. p z ≡ true) s t)
    | inr n ↦ let (m, t) = find_sound p ys (rw n at e) in (Memᴰ.tail m, t)
  ]

  pub find-eq-none :
      (p : A → Bool) (xs : List A) → (find p xs ≡ none) ↔ ((x : A) → Memᴰ x xs → p x ≡ false)
  find-eq-none p [] = (λ h x m. elim m [ ], λ h. refl)
  find-eq-none p (y ∷ ys) =
      let ih = find-eq-none p ys in
      elim (Bool-cases (p y)) [
        | inl t ↦ rw t (λ h. cc, λ h. absurd (let f = h y (Memᴰ.head refl) in cc))
        | inr f ↦ rw f (
          λ h x m. elim m [
            | Memᴰ.head e ↦ subst (λ z. p z ≡ false) (sym e) f
            | Memᴰ.tail l ↦ ih.0 h x l
          ],
          λ h. ih.1 (λ x m. h x (Memᴰ.tail m)),
        )
      ]

  pub any-eq-false :
      (p : A → Bool) (xs : List A) → (any p xs ≡ false) ↔ ((x : A) → Memᴰ x xs → p x ≡ false)
  any-eq-false p xs = elim (Bool-cases (any p xs)) [
    | inl t ↦
        let (x, m, y) = any→some p xs t in (λ f. absurd (cc), λ h. absurd (let n = h x m in cc))
    | inr f ↦ (
      λ _ x m. elim (Bool-cases (p x)) [
        | inl y ↦ absurd (let t = some→any p xs m y in cc)
        | inr n ↦ n
      ],
      λ _. f,
    )
  ]

  mem-filter_cons :
      (b : Bool) {x y : A} (p : A → Bool) (ys : List A)
      → p y ≡ b
      → Memᴰ x (if b then y ∷ filter p ys else filter p ys)
      → (x ≡ y) × (p y ≡ true) ⊎ Memᴰ x (filter p ys)
  mem-filter_cons true p ys t (Memᴰ.head e) = inl (e, t)
  mem-filter_cons true p ys t (Memᴰ.tail m) = inr m
  mem-filter_cons false p ys t m = inr m

  pub mem_of_mem-filter :
      (p : A → Bool) {x : A} (xs : List A) → Memᴰ x (filter p xs) → Memᴰ x xs × (p x ≡ true)
  mem_of_mem-filter p [] m = elim m [ ]
  mem_of_mem-filter p (y ∷ ys) m = elim (mem-filter_cons (p y) p ys refl m) [
    | inl (e, t) ↦ (Memᴰ.head e, rw e t)
    | inr later ↦ let (m', t) = mem_of_mem-filter p ys later in (Memᴰ.tail m', t)
  ]

  pub mem-filter_of_mem :
      (p : A → Bool) {x : A} (xs : List A) → Memᴰ x xs → p x ≡ true → Memᴰ x (filter p xs)
  mem-filter_of_mem p [] m h = elim m [ ]
  mem-filter_of_mem p (y ∷ ys) (Memᴰ.head e) h =
      let t : p y ≡ true = rw (← e) h in rw t (Memᴰ.head e)
  mem-filter_of_mem p (y ∷ ys) (Memᴰ.tail m) h =
      let rest = mem-filter_of_mem p ys m h in
      elim (Bool-cases (p y)) [ inl t ↦ rw t (Memᴰ.tail rest) | inr f ↦ rw f rest ]

module _ {ℓ} {A : Type ℓ} ⦃key : Key A⦄ where
  -- `includes`, and `has` of a set kept as the list of its members
  abbrev pub contains : List A → A → Bool
  contains [] a = false
  contains (x ∷ xs) a = x == a || contains xs a

  -- `add` of a set, which keeps the order of insertion
  abbrev pub add : List A → A → List A
  add xs a = if contains xs a then xs else xs ++ a ∷ []

  pub contains→mem : (xs : List A) (a : A) → contains xs a ≡ true → Memᴰ a xs
  contains→mem [] a h = cc
  contains→mem (x ∷ xs) a h = elim (Bool-cases (x == a)) [
    | inl t ↦ Memᴰ.head (sym ((==_iff x a).0 t))
    | inr f ↦ Memᴰ.tail (contains→mem xs a (ground arith))
  ]

  pub mem→contains : (xs : List A) {a : A} → Memᴰ a xs → contains xs a ≡ true
  mem→contains [] m = elim m [ ]
  mem→contains (x ∷ xs) {a} (Memᴰ.head h) = let t = (==_iff x a).1 (sym h) in rw t
  mem→contains (x ∷ xs) {a} (Memᴰ.tail m) = let t = mem→contains xs m in ground arith

  pub mem-add_self : (xs : List A) (a : A) → Memᴰ a (add xs a)
  mem-add_self xs a = elim (Bool-cases (contains xs a)) [
    | inl t ↦ rw t (contains→mem xs a t)
    | inr f ↦ rw f (mem-append_right xs (Memᴰ.head refl))
  ]

  pub mem-add_of_mem : (xs : List A) {a : A} (b : A) → Memᴰ a xs → Memᴰ a (add xs b)
  mem-add_of_mem xs b m = elim (Bool-cases (contains xs b)) [
    | inl t ↦ rw t m
    | inr f ↦ rw f (mem-append_left (b ∷ []) m)
  ]

  pub mem-add_cases : (xs : List A) {a : A} (b : A) → Memᴰ a (add xs b) → Memᴰ a xs ⊎ (a ≡ b)
  mem-add_cases xs {a} b m = elim (Bool-cases (contains xs b)) [
    | inl t ↦ inl (rw t at m)
    | inr f ↦ elim (mem-append_cases xs (rw f at m)) [
      | inl l ↦ inl l
      | inr (Memᴰ.head e) ↦ inr e
      | inr (Memᴰ.tail t) ↦ elim t [ ]
    ]
  ]
