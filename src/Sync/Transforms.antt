-- ===== src/Sync/Transforms.antt =====
-- src/domain/sync/maps.ts: values that leave through a field map and come back.
use xms_backend.Prelude.Json.{
  Value, undefined, null, boolean, number, string, array, object, string, Fields,
}
use xms_backend.Prelude.Maps.{lookup, keys_of}
use xms_backend.Prelude.{
  ℕ, ◌-◌, String, true, false, some, List, [], ◌∷◌, leb, ◌==◌, ==_iff, ==_false_iff, string_key,
  Memᴰ, Distinct, mem-map, mem_of_mem-map, mem_of_mem-filter, ◌≡◌, ◌≢◌, refl, sym, ap, subst, ◌∙◌,
  inl, inr, Bool-cases,
}
use xms_backend.Sync.Order.{mem_of_mem-sort}
use xms_backend.Sync.FieldMap.{
  Transform, identity, table, template, truncate, cut, units, keys_for, first, text_of, cut_value,
  apply_transform, reverse_transform,
}

cut-cut : (n : ℕ) (s : String) → cut n (cut n s) ≡ cut n s
unfolding cut
cut-cut n String.[] = refl
cut-cut n (String.◌∷◌ c s) = elim (Bool-cases (leb (units c) n)) [
  | inl t ↦ rw t (rw t (ap (String.◌∷◌ c) (cut-cut (n - units c) s)))
  | inr f ↦ rw f refl
]

-- The entry of a key, where the keys are distinct.
lookup-mem :
    (k v : String) (m : List (String × String))
    → Distinct (keys_of m)
    → Memᴰ (k, v) m
    → lookup k m ≡ some v
unfolding lookup
lookup-mem k v [] d m = elim m [ ]
lookup-mem k v (e ∷ es) d (Memᴰ.head q) =
    let t : (e.0 == k) ≡ true = (==_iff e.0 k).1 (sym (ap (λ (x : String × String). x.0) q)) in
    rw t (ap some (sym (ap (λ (x : String × String). x.1) q)))
lookup-mem k v (e ∷ es) d (Memᴰ.tail m) =
    let other : (e.0 == k) ≡ false = (==_false_iff e.0 k).1 (λ q.
      d.0 (subst (λ z. Memᴰ z (keys_of es)) (sym q) (mem-map (λ (x : String × String). x.0) m))) in
    rw other (lookup-mem k v es d.1 m)

lookup-keys_for :
    (text k : String) (m : List (String × String))
    → Distinct (keys_of m)
    → Memᴰ k (keys_for text m)
    → lookup k m ≡ some text
lookup-keys_for text k m d mem =
    let (e, listed, q) = mem_of_mem-map (λ (x : String × String). x.0) _ mem in
    let (stands, t) = mem_of_mem-filter (λ (x : String × String). x.1 == text) m listed in
    rw q (lookup-mem e.0 e.1 m d stands ∙ ap some ((==_iff e.1 text).0 t))

first_cases :
    (ks : List String) → first ks ≢ undefined → (k : String) × Memᴰ k ks × (first ks ≡ string k)
first_cases [] n = absurd (n refl)
first_cases (k ∷ ks) n = (k, Memᴰ.head refl, refl)

-- A lookup table is an object: a key stands in it once.
abbrev pub HasKeysOnce : Transform → Type 0
HasKeysOnce (table values fallback) = Distinct (keys_of values)
HasKeysOnce _ = Unit

module _ (to_text : Value → String) where
  -- The text of a value as the external side has room for it.
  unfoldable pub carried : Value → Transform → String
  unfolding cut
  carried value (truncate n) = cut n (text_of to_text value)
  carried value _ = text_of to_text value

  text_of-cut_value :
      (n : ℕ) (v : Value) → text_of to_text (cut_value to_text n v) ≡ cut n (text_of to_text v)
  unfolding cut
  text_of-cut_value n undefined = refl
  text_of-cut_value n null = refl
  text_of-cut_value n (boolean b) = refl
  text_of-cut_value n (number k) = refl
  text_of-cut_value n (string s) = refl
  text_of-cut_value n (array xs) = refl
  text_of-cut_value n (object fs) = refl

  pub apply_transform-reverse_transform :
      (v : Value) (t : Transform) (fields : Fields)
      → HasKeysOnce t
      → reverse_transform to_text v t ≢ undefined
      → text_of to_text (
          apply_transform to_text
            (string (text_of to_text (reverse_transform to_text v t)))
            t
            fields)
        ≡ carried v t
  unfolding apply_transform reverse_transform carried
  apply_transform-reverse_transform v identity fields once leaves = refl
  apply_transform-reverse_transform v (template t) fields once leaves = absurd (leaves refl)
  apply_transform-reverse_transform v (truncate n) fields once leaves =
      ap (cut n) (text_of-cut_value n v) ∙ cut-cut n (text_of to_text v)
  apply_transform-reverse_transform v (table values fallback) fields once leaves =
      let (k, m, e) = first_cases _ leaves in
      let l = lookup-keys_for (text_of to_text v) k values once (mem_of_mem-sort _ m) in
      rw (e, l) refl
