-- ===== src/Prelude/Distinctness.antt =====
-- Lists whose members, or their keys, are distinct.
use Prim.Native.Nat.{ℕ, zero, suc}
use mathlib.Core.Path.{◌≡◌, refl, sym, ap, subst, ◌∙◌}
use mathlib.Core.Logic.{◌↔◌, inl, inr}
use mathlib.Core.Bool.{Bool, false}
use mathlib.Core.List.{List, [], ◌∷◌, ◌++◌, map, Memᴰ}
use xms_backend.Prelude.Tests.{Key, Bool-cases}
use xms_backend.Prelude.Lists.{filter, take, mem_of_mem-take}
use xms_backend.Prelude.Members.{
  mem-append_cases, mem_of_mem-filter, contains, add, contains→mem, mem→contains, mem-add_self,
  mem-add_of_mem, mem-add_cases,
}

module _ {ℓ} {A : Type ℓ} where
  abbrev pub All {κ} : (A → Type κ) → List A → Type κ
  All P [] = Unit
  All P (x ∷ xs) = P x × All P xs

  pub All-iff {κ} : (P : A → Type κ) (xs : List A) → All P xs ↔ ((x : A) → Memᴰ x xs → P x)
  All-iff P [] = (λ h x m. elim m [ ], λ h. tt)
  All-iff P (y ∷ ys) =
      let ih = All-iff P ys in
      (
        λ h x m. elim m [ Memᴰ.head e ↦ subst P (sym e) h.0 | Memᴰ.tail n ↦ ih.0 h.1 x n ],
        λ h. (h y (Memᴰ.head refl), ih.1 (λ x m. h x (Memᴰ.tail m))),
      )

  -- No member stands in the list twice.
  abbrev pub Distinct : List A → Type ℓ
  Distinct [] = Unit
  Distinct (x ∷ xs) = (¬ Memᴰ x xs) × Distinct xs

  -- The names that a loop meets are new: not among those seen before, and no two of them equal.
  abbrev pub Fresh : List A → List A → Type ℓ
  Fresh seen names = ((k : A) → Memᴰ k names → ¬ Memᴰ k seen) × Distinct names

module _ {ℓ} {A : Type ℓ} where
  pub Distinct-append :
      (xs ys : List A)
      → Distinct xs
      → Distinct ys
      → ((x : A) → Memᴰ x xs → ¬ Memᴰ x ys)
      → Distinct (xs ++ ys)
  Distinct-append [] ys dx dy apart = dy
  Distinct-append (x ∷ xs) ys dx dy apart = (
    (λ m. elim (mem-append_cases xs m) [ inl l ↦ dx.0 l | inr r ↦ apart x (Memᴰ.head refl) r ]),
    Distinct-append xs ys dx.1 dy (λ y m. apart y (Memᴰ.tail m)),
  )

module _ {ℓ} {A : Type ℓ} ⦃key : Key A⦄ where
  pub not-mem_iff : (xs : List A) (a : A) → (contains xs a ≡ false) ↔ (¬ Memᴰ a xs)
  not-mem_iff xs a = elim (Bool-cases (contains xs a)) [
    | inl t ↦ (λ f. absurd (cc), λ n. absurd (n (contains→mem xs a t)))
    | inr f ↦ (λ _ m. cc (mem→contains xs m), λ _. f)
  ]

  pub Fresh-cons :
      (seen : List A) (n : A) (names : List A)
      → Fresh seen (n ∷ names) ↔ ((contains seen n ≡ false) × Fresh (add seen n) names)
  Fresh-cons seen n names = (
    λ h. (
      (not-mem_iff seen n).1 (h.0 n (Memᴰ.head refl)),
      (
        λ k m b. elim (mem-add_cases seen n b) [
          | inl l ↦ h.0 k (Memᴰ.tail m) l
          | inr q ↦ h.1.0 (subst (λ z. Memᴰ z names) q m)
        ],
        h.1.1,
      ),
    ),
    λ h. (
      λ k m b. elim m [
        | Memᴰ.head q ↦ (not-mem_iff seen n).0 h.0 (subst (λ z. Memᴰ z seen) q b)
        | Memᴰ.tail l ↦ h.1.0 k l (mem-add_of_mem seen n b)
      ],
      (λ m. h.1.0 n m (mem-add_self seen n), h.1.1),
    ),
  )

module _ {ℓ κ} {A : Type ℓ} {B : Type κ} (f : A → B) where
  pub mem-map : {x : A} {xs : List A} → Memᴰ x xs → Memᴰ (f x) (map f xs)
  mem-map (Memᴰ.head h) = Memᴰ.head (ap f h)
  mem-map (Memᴰ.tail m) = Memᴰ.tail (mem-map m)

  pub mem_of_mem-map : {y : B} (xs : List A) → Memᴰ y (map f xs) → (x : A) × Memᴰ x xs × (y ≡ f x)
  mem_of_mem-map [] m = elim m [ ]
  mem_of_mem-map (x ∷ xs) (Memᴰ.head h) = (x, Memᴰ.head refl, h)
  mem_of_mem-map (x ∷ xs) (Memᴰ.tail m) =
      let (z, mz, h) = mem_of_mem-map xs m in (z, Memᴰ.tail mz, h)

  pub Distinct-filter :
      (p : A → Bool) (xs : List A) → Distinct (map f xs) → Distinct (map f (filter p xs))
  Distinct-filter p [] d = tt
  Distinct-filter p (x ∷ xs) d =
      let ih = Distinct-filter p xs d.1 in
      elim (Bool-cases (p x)) [
        | inl t ↦ rw t (
          (λ m.
              let (y, my, e) = mem_of_mem-map (filter p xs) m in
              d.0 (subst (λ z. Memᴰ z (map f xs)) (sym e) (mem-map (mem_of_mem-filter p xs my).0))),
          ih,
        )
        | inr n ↦ rw n ih
      ]

  pub Distinct-take : (n : ℕ) (xs : List A) → Distinct (map f xs) → Distinct (map f (take n xs))
  Distinct-take zero xs d = tt
  Distinct-take (suc n) [] d = tt
  Distinct-take (suc n) (x ∷ xs) d = (
    (λ m.
        let (y, my, e) = mem_of_mem-map (take n xs) m in
        d.0 (subst (λ z. Memᴰ z (map f xs)) (sym e) (mem-map (mem_of_mem-take n xs my)))),
    Distinct-take n xs d.1,
  )

  -- Members with the same key, where the keys are distinct, are the same.
  pub eq_of_same_key :
      {x y : A} (xs : List A) → Distinct (map f xs) → Memᴰ x xs → Memᴰ y xs → f x ≡ f y → x ≡ y
  eq_of_same_key (z ∷ xs) d (Memᴰ.head a) (Memᴰ.head b) e = a ∙ sym b
  eq_of_same_key (z ∷ xs) d (Memᴰ.head a) (Memᴰ.tail n) e =
      absurd (d.0 (subst (λ k. Memᴰ k (map f xs)) (sym e ∙ ap f a) (mem-map n)))
  eq_of_same_key (z ∷ xs) d (Memᴰ.tail m) (Memᴰ.head b) e =
      absurd (d.0 (subst (λ k. Memᴰ k (map f xs)) (e ∙ ap f b) (mem-map m)))
  eq_of_same_key (z ∷ xs) d (Memᴰ.tail m) (Memᴰ.tail n) e = eq_of_same_key xs d.1 m n e
  eq_of_same_key [] d m n e = elim m [ ]
