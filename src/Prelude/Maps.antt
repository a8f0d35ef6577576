-- ===== src/Prelude/Maps.antt =====
-- A JavaScript `Map`, as the list of its entries in the order of insertion: `set` on a key that
-- the map has keeps the entry's place.
use mathlib.Core.Path.{◌≡◌, refl, sym, subst}
use mathlib.Core.Option.{Option, none, some}
use mathlib.Core.List.{List, [], ◌∷◌, map, Memᴰ}
use mathlib.Core.Bool.{Bool, false}
use mathlib.Core.Logic.{◌⊎◌, inl, inr}
use native.Mathlib.Omega.{arith}
use xms_backend.Prelude.Tests.{if◌then◌else◌, Key, ◌==◌, ==_iff, ==_false_iff, Bool-cases}
use xms_backend.Prelude.Lists.{filter}
use xms_backend.Prelude.Members.{mem_of_mem-filter}
use xms_backend.Prelude.Distinctness.{Distinct, mem-map, mem_of_mem-map}

abbrev pub kept {κ} : {V : Type κ} → (V → Bool) → Option V → Option V
kept p none = none
kept p (some v) = if p v then some v else none

module _ {ℓ κ} {K : Type ℓ} {V : Type κ} ⦃key : Key K⦄ where
  -- `map.get(key)`
  unfoldable pub lookup : K → List (K × V) → Option V
  lookup sought [] = none
  lookup sought (entry ∷ rest) = if entry.0 == sought then some entry.1 else lookup sought rest

  -- `map.set(key, value)`
  unfoldable pub insert : K → V → List (K × V) → List (K × V)
  insert written value [] = (written, value) ∷ []
  insert written value (entry ∷ rest) =
      if entry.0 == written then (written, value) ∷ rest else entry ∷ insert written value rest

  -- `map.delete(key)`
  unfoldable pub remove : K → List (K × V) → List (K × V)
  remove gone [] = []
  remove gone (entry ∷ rest) =
      let kept = remove gone rest in if entry.0 == gone then kept else entry ∷ kept

  pub lookup-insert :
      (written sought : K) (value : V) (entries : List (K × V))
      → lookup sought (insert written value entries)
        ≡ (if written == sought then some value else lookup sought entries)
  unfolding lookup insert
  lookup-insert written sought value [] = refl
  lookup-insert written sought value (entry ∷ rest) =
      let ih = lookup-insert written sought value rest in
      let both = ==_iff entry.0 sought in
      ground (arith, ==_iff entry.0 written, both, ==_iff written sought, ih)

  -- The keys of the entries: a `Map` has each of its keys once.
  abbrev pub keys_of : List (K × V) → List K
  keys_of m = map (λ e. e.0) m

  lookup_missing : (k : K) (m : List (K × V)) → ¬ Memᴰ k (keys_of m) → lookup k m ≡ none
  unfolding lookup
  lookup_missing k [] n = refl
  lookup_missing k (e ∷ m) n =
      let other : (e.0 == k) ≡ false = (==_false_iff e.0 k).1 (λ q. n (Memᴰ.head (sym q))) in
      rw other (lookup_missing k m (λ mem. n (Memᴰ.tail mem)))

  mem-keys_of-filter :
      (p : V → Bool) (k : K) (m : List (K × V))
      → Memᴰ k (keys_of (filter (λ e. p e.1) m))
      → Memᴰ k (keys_of m)
  mem-keys_of-filter p k m mem =
      let (e, me, q) = mem_of_mem-map (λ (e : K × V). e.0) _ mem in
      let (listed, t) = mem_of_mem-filter (λ (e : K × V). p e.1) m me in
      subst (λ z. Memᴰ z (keys_of m)) (sym q) (mem-map (λ (e : K × V). e.0) listed)

  -- `map.delete` of the entries whose value fails a test
  pub lookup-filter :
      (p : V → Bool) (k : K) (m : List (K × V))
      → Distinct (keys_of m)
      → lookup k (filter (λ e. p e.1) m) ≡ kept p (lookup k m)
  unfolding lookup
  lookup-filter p k [] d = refl
  lookup-filter p k (e ∷ m) d =
      let ih = lookup-filter p k m d.1 in
      elim (Bool-cases (e.0 == k)) [
        | inr n ↦ rw n (elim (Bool-cases (p e.1)) [ inl y ↦ rw y (rw n ih) | inr z ↦ rw z ih ])
        | inl y ↦ rw y (elim (Bool-cases (p e.1)) [
          | inl t ↦ rw t (rw y)
          | inr z ↦
              let gone : lookup k (filter (λ e. p e.1) m) ≡ none = lookup_missing k _ (λ mem. d.0 (
                subst (λ j. Memᴰ j (keys_of m)) (sym ((==_iff e.0 k).0 y))
                  (mem-keys_of-filter p k m mem))) in
              rw z gone
        ])
      ]

  pub filter-Distinct :
      (p : V → Bool) (m : List (K × V))
      → Distinct (keys_of m)
      → Distinct (keys_of (filter (λ e. p e.1) m))
  filter-Distinct p [] d = tt
  filter-Distinct p (e ∷ m) d =
      let ih = filter-Distinct p m d.1 in
      elim (Bool-cases (p e.1)) [
        | inl y ↦ rw y ((λ mem. d.0 (mem-keys_of-filter p e.0 m mem)), ih)
        | inr n ↦ rw n ih
      ]

  mem-insert_cases :
      (k : K) (v : V) (m : List (K × V)) {j : K}
      → Memᴰ j (keys_of (insert k v m))
      → (j ≡ k) ⊎ Memᴰ j (keys_of m)
  unfolding insert
  mem-insert_cases k v [] (Memᴰ.head e) = inl e
  mem-insert_cases k v [] (Memᴰ.tail t) = elim t [ ]
  mem-insert_cases k v (e ∷ m) mem = elim (Bool-cases (e.0 == k)) [
    | inl y ↦ elim (rw y at mem) [ Memᴰ.head q ↦ inl q | Memᴰ.tail t ↦ inr (Memᴰ.tail t) ]
    | inr n ↦ elim (rw n at mem) [
      | Memᴰ.head q ↦ inr (Memᴰ.head q)
      | Memᴰ.tail t ↦ elim (mem-insert_cases k v m t) [ inl q ↦ inl q | inr l ↦ inr (Memᴰ.tail l) ]
    ]
  ]

  pub insert-Distinct :
      (k : K) (v : V) (m : List (K × V)) → Distinct (keys_of m) → Distinct (keys_of (insert k v m))
  unfolding insert
  insert-Distinct k v [] d = ((λ mem. elim mem [ ]), tt)
  insert-Distinct k v (e ∷ m) d = elim (Bool-cases (e.0 == k)) [
    | inl y ↦
        rw y ((λ mem. d.0 (subst (λ j. Memᴰ j (keys_of m)) (sym ((==_iff _ _).0 y)) mem)), d.1)
    | inr n ↦ rw n (
      λ mem. elim (mem-insert_cases k v m mem) [
        | inl q ↦ (==_false_iff e.0 k).0 n q
        | inr l ↦ d.0 l
      ],
      insert-Distinct k v m d.1,
    )
  ]
