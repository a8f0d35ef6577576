-- ===== src/Sync/Records.antt =====
-- src/domain/sync/maps.ts: what the loops of the two translations leave in the body and in the patch.
use xms_backend.Prelude.Json.{Value, is_undefined}
use xms_backend.Prelude.Maps.{lookup, insert, lookup-insert}
use xms_backend.Prelude.{
  String, true, false, not, ◌||◌, Option, none, some, List, [], ◌∷◌, map, filter, ◌==◌, ==_refl,
  ==_false_iff, string_key, Memᴰ, Distinct, mem-map, mem-filter_of_mem, ◌≡◌, ◌≢◌, ◌⊎◌, refl, sym,
  ap, subst, ◌∙◌, some-injective, inl, inr, Bool-cases,
}
use xms_backend.Sync.FieldMap.{FieldMapEntry, is_inward, is_outward, text_of, reverse_transform}
use xms_backend.Sync.Translate.{
  OutboundTranslation, is_wanted, value_or_undefined, write_value, write_entry, outbound_entries,
}

abbrev pub leaving : List FieldMapEntry → List FieldMapEntry
leaving es = filter (λ e. not (is_inward e.direction)) es

abbrev pub arriving : List FieldMapEntry → List FieldMapEntry
arriving es = filter (λ e. not (is_outward e.direction)) es

abbrev pub xms_of : List FieldMapEntry → List String
xms_of es = map (λ e. e.xms) es

abbrev pub external_of : List FieldMapEntry → List String
external_of es = map (λ e. e.external) es

module _ {κ} {V : Type κ} where
  pub lookup-insert_other :
      (k j : String) (v : V) (m : List (String × V)) → k ≢ j → lookup j (insert k v m) ≡ lookup j m
  lookup-insert_other k j v m n =
      let f : (k == j) ≡ false = (==_false_iff k j).1 n in rw (lookup-insert k j v m, f) refl

  pub lookup-insert_same :
      (k : String) (v : V) (m : List (String × V)) → lookup k (insert k v m) ≡ some v
  lookup-insert_same k v m =
      let t : (k == k) ≡ true = ==_refl k in rw (lookup-insert k k v m, t) refl

module _ (to_text : Value → String) where
  module _ (only : Option (List String)) (values : List (String × Value)) where
    -- What an entry writes, if it writes.
    record HasWritten (e : FieldMapEntry) (done next : OutboundTranslation) : Type 0 where
      pub value : Value
      pub owned : value_or_undefined (lookup e.xms values) ≡ value
      pub leaves : is_undefined (reverse_transform to_text value e.transform) ≡ false
      pub sent : next.sent ≡ insert e.xms value done.sent
      pub body :
          next.body
          ≡ insert e.external
              (text_of to_text (reverse_transform to_text value e.transform))
              done.body

    HasKept : OutboundTranslation → OutboundTranslation → Type 0
    HasKept done next = (next.sent ≡ done.sent) × (next.body ≡ done.body)

    write_entry_cases :
        (e : FieldMapEntry) (done : OutboundTranslation)
        → HasKept done (write_entry to_text only values e done)
          ⊎ HasWritten e done (write_entry to_text only values e done)
    unfolding write_entry write_value HasKept
    write_entry_cases e done =
        let value = value_or_undefined (lookup e.xms values) in
        elim (Bool-cases
          (is_inward e.direction || not (is_wanted only e.xms) || is_undefined value)) [
            | inl t ↦ rw t (inl (refl, refl))
            | inr f ↦
                elim (Bool-cases (is_undefined (reverse_transform to_text value e.transform))) [
                  | inl u ↦ rw (f, u) (inl (refl, refl))
                  | inr d ↦
                      rw (f, d)
                        (inr (record {
                          value = value;
                          owned = refl;
                          leaves = d;
                          sent = refl;
                          body = refl;
                        }))
                ]
          ]

    write_entry-inward :
        (e : FieldMapEntry) (done : OutboundTranslation)
        → is_inward e.direction ≡ true
        → write_entry to_text only values e done ≡ done
    unfolding write_entry
    write_entry-inward e done t = rw t refl

    -- What another entry writes is not touched by an entry for another field.
    write_entry_other :
        (e : FieldMapEntry) (done : OutboundTranslation) (name external : String)
        → e.xms ≢ name
        → e.external ≢ external
        → (lookup name (write_entry to_text only values e done).sent ≡ lookup name done.sent)
          × (lookup external (write_entry to_text only values e done).body
              ≡ lookup external done.body)
    unfolding HasKept
    write_entry_other e done name external n m = elim (write_entry_cases e done) [
      | inl k ↦ (ap (lookup name) k.0, ap (lookup external) k.1)
      | inr w ↦ (
        ap (lookup name) w.sent ∙ lookup-insert_other e.xms name _ done.sent n,
        ap (lookup external) w.body ∙ lookup-insert_other e.external external _ done.body m,
      )
    ]

    outbound_entries_other :
        (es : List FieldMapEntry) (done : OutboundTranslation) (name external : String)
        → (¬ Memᴰ name (xms_of (leaving es)))
        → (¬ Memᴰ external (external_of (leaving es)))
        → (lookup name (outbound_entries to_text es only values done).sent ≡ lookup name done.sent)
          × (lookup external (outbound_entries to_text es only values done).body
              ≡ lookup external done.body)
    unfolding outbound_entries
    outbound_entries_other [] done name external n m = (refl, refl)
    outbound_entries_other (e ∷ es) done name external n m =
        let next = write_entry to_text only values e done in
        elim (Bool-cases (is_inward e.direction)) [
          | inl t ↦
              let same = write_entry-inward e done t in
              let rest = outbound_entries_other es next name external (rw t at n) (rw t at m) in
              (
                rest.0 ∙ ap (λ (d : OutboundTranslation). lookup name d.sent) same,
                rest.1 ∙ ap (λ (d : OutboundTranslation). lookup external d.body) same,
              )
          | inr f ↦
              let n' : ¬ Memᴰ name (e.xms ∷ xms_of (leaving es)) = rw f at n in
              let m' : ¬ Memᴰ external (e.external ∷ external_of (leaving es)) = rw f at m in
              let here =
                write_entry_other e done name external (λ q. n' (Memᴰ.head (sym q)))
                  (λ q. m' (Memᴰ.head (sym q))) in
              let rest =
                outbound_entries_other es next name external (λ l. n' (Memᴰ.tail l))
                  (λ l. m' (Memᴰ.tail l)) in
              (rest.0 ∙ here.0, rest.1 ∙ here.1)
        ]

    -- What stands in the body for a field that was sent.
    pub record IsInBody (e : FieldMapEntry) (value : Value) (done : OutboundTranslation)
        : Type 0 where
      pub owned : value_or_undefined (lookup e.xms values) ≡ value
      pub leaves : is_undefined (reverse_transform to_text value e.transform) ≡ false
      pub written :
          lookup e.external done.body
          ≡ some (text_of to_text (reverse_transform to_text value e.transform))

    write_entry-IsInBody :
        (e : FieldMapEntry) (done : OutboundTranslation) (value : Value)
        → lookup e.xms done.sent ≡ none
        → lookup e.xms (write_entry to_text only values e done).sent ≡ some value
        → IsInBody e value (write_entry to_text only values e done)
    unfolding HasKept
    write_entry-IsInBody e done value before after = elim (write_entry_cases e done) [
      | inl k ↦ absurd (let q = sym after ∙ ap (lookup e.xms) k.0 ∙ before in cc)
      | inr w ↦
          let q : some w.value ≡ some value =
            sym (ap (lookup e.xms) w.sent ∙ lookup-insert_same e.xms w.value done.sent) ∙ after in
          let v : w.value ≡ value = some-injective w.value value q in
          record {
            owned = w.owned ∙ v;
            leaves =
                subst (λ z. is_undefined (reverse_transform to_text z e.transform) ≡ false) v
                  w.leaves;
            written =
                ap (lookup e.external) w.body
                ∙ lookup-insert_same e.external _ done.body
                ∙ ap (λ z. some (text_of to_text (reverse_transform to_text z e.transform))) v;
          }
    ]

    pub outbound_entries-IsInBody :
        (es : List FieldMapEntry) (done : OutboundTranslation) (e : FieldMapEntry) (value : Value)
        → Memᴰ e es
        → is_inward e.direction ≡ false
        → Distinct (xms_of (leaving es))
        → Distinct (external_of (leaving es))
        → lookup e.xms done.sent ≡ none
        → lookup e.xms (outbound_entries to_text es only values done).sent ≡ some value
        → IsInBody e value (outbound_entries to_text es only values done)
    unfolding outbound_entries HasKept
    outbound_entries-IsInBody [] done e value m out dx de before after = elim m [ ]
    outbound_entries-IsInBody (x ∷ es) done e value (Memᴰ.head q) out dx de before after =
        let out' : is_inward x.direction ≡ false =
          subst (λ (z : FieldMapEntry). is_inward z.direction ≡ false) q out in
        let dx' : Distinct (x.xms ∷ xms_of (leaving es)) = rw out' at dx in
        let de' : Distinct (x.external ∷ external_of (leaving es)) = rw out' at de in
        let next = write_entry to_text only values x done in
        let rest = outbound_entries_other es next x.xms x.external dx'.0 de'.0 in
        let here =
          write_entry-IsInBody x done value
            (subst (λ (z : FieldMapEntry). lookup z.xms done.sent ≡ none) q before)
            (sym rest.0
              ∙ subst
                  (λ (z : FieldMapEntry).
                    lookup z.xms (outbound_entries to_text es only values next).sent ≡ some value)
                  q after) in
        subst (λ z. IsInBody z value (outbound_entries to_text es only values next)) (sym q)
          (record { owned = here.owned; leaves = here.leaves; written = rest.1 ∙ here.written })
    outbound_entries-IsInBody (x ∷ es) done e value (Memᴰ.tail m) out dx de before after =
        let next = write_entry to_text only values x done in
        elim (Bool-cases (is_inward x.direction)) [
          | inl t ↦
              outbound_entries-IsInBody es next e value m out (rw t at dx) (rw t at de)
                (ap (λ (d : OutboundTranslation). lookup e.xms d.sent) (write_entry-inward x done t)
                  ∙ before)
                after
          | inr f ↦
              let dx' : Distinct (x.xms ∷ xms_of (leaving es)) = rw f at dx in
              let de' : Distinct (x.external ∷ external_of (leaving es)) = rw f at de in
              let listed : Memᴰ e (leaving es) =
                mem-filter_of_mem (λ z. not (is_inward z.direction)) es m (ap not out) in
              let other =
                write_entry_other x done e.xms e.external
                  (λ q. dx'.0 (
                    subst (λ k. Memᴰ k (xms_of (leaving es))) (sym q)
                      (mem-map (λ z. z.xms) listed)))
                  (λ q. de'.0 (
                    subst (λ k. Memᴰ k (external_of (leaving es))) (sym q)
                      (mem-map (λ z. z.external) listed))) in
              outbound_entries-IsInBody es next e value m out dx'.1 de'.1 (other.0 ∙ before) after
        ]
