-- ===== src/Sync/Samples.antt =====
-- src/domain/sync/maps.ts, `validateFieldMap`: the values that the samples show.
use xms_backend.Prelude.Json.{Value, Fields}
use xms_backend.Prelude.{
  String, true, false, none, List, [], ◌∷◌, add, mem-add_self, mem-add_of_mem, mem-add_cases,
  mem-filter_of_mem, mem_of_mem-filter, string_key, Memᴰ, ◌≡◌, ◌↔◌, ◌⊎◌, inl, inr, refl, sym, ap,
  subst, not, Bool-cases,
}
use xms_backend.Sync.FieldMap.{Transform, table, pick, nullish, text_of}
use xms_backend.Sync.FieldReport.{see, seen_values, gaps, is_in}

module _ (to_text : Value → String) where
  -- The table of an entry has each value that the samples show, where it has no fallback; `in` finds the
  -- inherited names in any table.
  abbrev pub Covers : String → Transform → List Fields → Type 0
  Covers external (table values none) samples =
      (s : Fields)
      → Memᴰ s samples
      → nullish (pick s external) ≡ false
      → is_in (text_of to_text (pick s external)) values ≡ true
  Covers external _ samples = Unit

  mem-seen_values :
      (external : String) (samples : List Fields) (seen : List String) (v : String)
      → Memᴰ v (seen_values to_text external seen samples)
      → Memᴰ v seen
        ⊎ ((s : Fields) × Memᴰ s samples
            × (nullish (pick s external) ≡ false)
            × (text_of to_text (pick s external) ≡ v))
  unfolding seen_values
  mem-seen_values external [] seen v m = inl m
  mem-seen_values external (s ∷ ss) seen v m =
      elim (mem-seen_values external ss (see to_text external seen s) v m) [
        | inr (t, l, n, e) ↦ inr (t, Memᴰ.tail l, n, e)
        | inl l ↦ elim (Bool-cases (nullish (pick s external))) [
          | inl y ↦ inl (rw y at l)
          | inr n ↦ elim (mem-add_cases seen (text_of to_text (pick s external)) (rw n at l)) [
            | inl k ↦ inl k
            | inr e ↦ inr (s, Memᴰ.head refl, n, sym e)
          ]
        ]
      ]

  seen_values_kept :
      (external : String) (samples : List Fields) (seen : List String) (v : String)
      → Memᴰ v seen
      → Memᴰ v (seen_values to_text external seen samples)
  unfolding seen_values
  seen_values_kept external [] seen v m = m
  seen_values_kept external (s ∷ ss) seen v m =
      seen_values_kept external ss (see to_text external seen s) v
        (elim (Bool-cases (nullish (pick s external))) [
          | inl y ↦ rw y m
          | inr n ↦ rw n (mem-add_of_mem seen _ m)
        ])

  seen_values-mem :
      (external : String) (samples : List Fields) (seen : List String) (s : Fields)
      → Memᴰ s samples
      → nullish (pick s external) ≡ false
      → Memᴰ (text_of to_text (pick s external)) (seen_values to_text external seen samples)
  unfolding seen_values
  seen_values-mem external [] seen s m n = elim m [ ]
  seen_values-mem external (t ∷ ss) seen s (Memᴰ.head q) n =
      let n' : nullish (pick t external) ≡ false =
        subst (λ z. nullish (pick z external) ≡ false) q n in
      subst
        (λ z. Memᴰ (text_of to_text (pick z external)) (seen_values to_text external seen (t ∷ ss)))
        (sym q)
        (rw n' (
          seen_values_kept external ss (add seen (text_of to_text (pick t external))) _
            (mem-add_self seen (text_of to_text (pick t external)))))
  seen_values-mem external (t ∷ ss) seen s (Memᴰ.tail m) n =
      seen_values-mem external ss (see to_text external seen t) s m n

  pub gaps_iff :
      (external : String) (values : List (String × String)) (samples : List Fields)
      → (gaps to_text external values samples ≡ []) ↔ Covers external (table values none) samples
  gaps_iff external values samples = (
    λ h s m n. elim (Bool-cases (is_in (text_of to_text (pick s external)) values)) [
      | inl t ↦ t
      | inr f ↦ absurd (
          let stands : Memᴰ (text_of to_text (pick s external)) [] =
            subst (λ z. Memᴰ (text_of to_text (pick s external)) z) h
              (mem-filter_of_mem (λ v. not (is_in v values)) _
                (seen_values-mem external samples [] s m n) (ap not f)) in
          elim stands [ ])
    ],
    λ c. no_members (gaps to_text external values samples) (λ v m.
        let (l, t) = mem_of_mem-filter (λ v. not (is_in v values)) _ m in
        elim (mem-seen_values external samples [] v l) [
          | inl k ↦ elim k [ ]
          | inr (s, k, n, e) ↦
              let f = c s k n in
              let t' : not (is_in (text_of to_text (pick s external)) values) ≡ true =
                subst (λ z. not (is_in z values) ≡ true) (sym e) t in
              let never : not true ≡ true = subst (λ z. not z ≡ true) f t' in cc
        ]),
  )
    where
      no_members : (vs : List String) → ((v : String) → ¬ Memᴰ v vs) → vs ≡ []
      no_members [] h = refl
      no_members (v ∷ vs) h = absurd (h v (Memᴰ.head refl))
