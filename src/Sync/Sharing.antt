-- ===== src/Sync/Sharing.antt =====
-- src/domain/sync/maps.ts, `resolveOutboundState`: the states that leave as one external state.
use xms_backend.Prelude.Maps.{lookup}
use xms_backend.Prelude.{
  ◌⊎◌, String, true, false, not, ◌&&◌, some, List, [], ◌∷◌, ◌==◌, ==_iff, string_key, Memᴰ, is_nil,
  ◌≡◌, ◌≢◌, ◌↔◌, inl, inr, refl, sym, ap, ap₂, subst, ==_false_iff, is_nil-eq-true, is_nil-eq-false,
  arith, Bool-cases,
}
use xms_backend.Sync.StateMap.{
  StateMapForType, SharedState, alone, tied, sharing, fallback_of, resolve_outbound_state, present,
}

mem-sharing_iff :
    (value xms_state other : String) (entries : List (String × String))
    → Memᴰ other (sharing value xms_state entries)
      ↔ (Memᴰ (other, value) entries × (other ≢ xms_state))
unfolding sharing
mem-sharing_iff value xms_state other [] = (λ m. elim m [ ], λ h. elim h.0 [ ])
mem-sharing_iff value xms_state other (e ∷ es) =
    let ih = mem-sharing_iff value xms_state other es in
    elim (Bool-cases (e.1 == value && not (e.0 == xms_state))) [
      | inl y ↦
          let v = (==_iff e.1 value).0 (ground arith) in
          let apart = (==_false_iff e.0 xms_state).0 (ground arith) in
          rw y (
            λ m. elim m [
              | Memᴰ.head q ↦ (
                Memᴰ.head (ap₂ (λ a b. (a, b)) q (sym v)),
                subst (λ z. z ≢ xms_state) (sym q) apart,
              )
              | Memᴰ.tail l ↦ let (k, d) = ih.0 l in (Memᴰ.tail k, d)
            ],
            λ h. elim h.0 [
              | Memᴰ.head q ↦ Memᴰ.head (ap (λ z. z.0) q)
              | Memᴰ.tail l ↦ Memᴰ.tail (ih.1 (l, h.1))
            ],
          )
      | inr n ↦ rw n (
        λ m. let (k, d) = ih.0 m in (Memᴰ.tail k, d),
        λ h. elim h.0 [
          | Memᴰ.head q ↦ absurd (
              let v : (e.1 == value) ≡ true = (==_iff e.1 value).1 (ap (λ z. z.1) (sym q)) in
              let d : (e.0 == xms_state) ≡ false =
                (==_false_iff e.0 xms_state).1 (subst (λ z. z ≢ xms_state) (ap (λ z. z.0) q) h.1) in
              ground arith)
          | Memᴰ.tail l ↦ ih.1 (l, h.1)
        ],
      )
    ]

first_of : (xs : List String) → is_nil xs ≡ false → (x : String) × Memᴰ x xs
first_of [] h = cc
first_of (x ∷ xs) h = (x, Memᴰ.head refl)

-- A state leaves alone exactly when no other state of the map leaves as the same external state.
pub resolve_outbound_state-alone :
    (entry : StateMapForType) (xms_state value : String)
    → lookup xms_state entry.outbound ≡ some value
    → (resolve_outbound_state entry xms_state ≡ alone value)
      ↔ ((other : String) → Memᴰ (other, value) entry.outbound → other ≡ xms_state)
unfolding resolve_outbound_state
resolve_outbound_state-alone entry xms_state value e =
    elim (Bool-cases (is_nil (sharing value xms_state entry.outbound))) [
      | inl t ↦
          let empty = is_nil-eq-true _ t in
          rw (e, t)
            (
              λ _ other m. elim (Bool-cases (other == xms_state)) [
                | inl y ↦ (==_iff other xms_state).0 y
                | inr n ↦ absurd (
                    elim (subst (λ z. Memᴰ other z) empty
                      ((mem-sharing_iff value xms_state other entry.outbound).1
                        (m, (==_false_iff other xms_state).0 n))) [ ])
              ],
              λ _. refl,
            )
      | inr f ↦
          let (other, m) = first_of (sharing value xms_state entry.outbound) f in
          let (listed, apart) = (mem-sharing_iff value xms_state other entry.outbound).0 m in
          rw (e, f) (λ h. cc, λ h. absurd (apart (h other listed)))
    ]

-- A state that the map sends leaves alone where no other state of the map leaves as the same external
-- state. Otherwise the result says so: it holds the external state, and lists exactly the other states
-- that leave as it.
pub resolve_outbound_state_cases :
    (entry : StateMapForType) (xms_state value : String)
    → lookup xms_state entry.outbound ≡ some value
    → ((resolve_outbound_state entry xms_state ≡ alone value)
        × ((other : String) → Memᴰ (other, value) entry.outbound → other ≡ xms_state))
      ⊎ ((t : SharedState) × (resolve_outbound_state entry xms_state ≡ tied t)
          × (t.value ≡ value)
          × (t.shared ≢ [])
          × ((other : String)
              → Memᴰ other t.shared ↔ (Memᴰ (other, value) entry.outbound × (other ≢ xms_state))))
unfolding resolve_outbound_state
resolve_outbound_state_cases entry xms_state value e =
    let others = sharing value xms_state entry.outbound in
    elim (Bool-cases (is_nil others)) [
      | inl t ↦
          let single : resolve_outbound_state entry xms_state ≡ alone value = rw (e, t) refl in
          inl (single, (resolve_outbound_state-alone entry xms_state value e).0 single)
      | inr f ↦ inr (
        record {
          value = value;
          shared = others;
          canonical = present (fallback_of entry.fallback value);
        },
        rw (e, f) refl,
        refl,
        (is_nil-eq-false others).0 f,
        λ other. mem-sharing_iff value xms_state other entry.outbound,
      )
    ]
