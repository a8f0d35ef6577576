-- ===== src/Sync/Arrivals.antt =====
-- src/domain/sync/maps.ts: what the loop of the inbound translation leaves in the patch.
use xms_backend.Prelude.Json.{Value, string, Fields, is_undefined}
use xms_backend.Prelude.Maps.{lookup}
use xms_backend.Prelude.{
  String, false, Option, none, some, List, [], ◌∷◌, string_key, Memᴰ, Distinct, ◌≡◌, ◌≢◌, refl, sym,
  subst, ◌∙◌, inl, inr, Bool-cases,
}
use xms_backend.Sync.FieldMap.{FieldMapEntry, is_outward, pick, text_of, apply_transform}
use xms_backend.Sync.Translate.{
  is_level_field, set_field, set_level, level_of, read_value, inbound_entries,
}
use xms_backend.Sync.Records.{arriving, xms_of, lookup-insert_other, lookup-insert_same}

module _ (to_text : Value → String) (fields : Fields) where
  set_field_other :
      (k j : String) (v : Value) (patch : List (String × Value))
      → k ≢ j
      → lookup j (set_field to_text k v patch) ≡ lookup j patch
  unfolding set_field
  set_field_other k j v patch n = elim (Bool-cases (is_level_field k)) [
    | inl t ↦ rw t (set_level_other (level_of (text_of to_text v)))
    | inr f ↦ rw f (lookup-insert_other k j v patch n)
  ]
    where
      set_level_other : (o : Option String) → lookup j (set_level k o patch) ≡ lookup j patch
      set_level_other none = refl
      set_level_other (some l) = lookup-insert_other k j (string l) patch n

  read_value_other :
      (e : FieldMapEntry) (name : String) (patch : List (String × Value)) (missing : List String)
      → e.xms ≢ name
      → lookup name (read_value to_text e fields patch missing).0 ≡ lookup name patch
  unfolding read_value
  read_value_other e name patch missing n =
      elim (Bool-cases (is_undefined (pick fields e.external))) [
        | inl t ↦ rw t refl
        | inr f ↦ rw f (set_field_other e.xms name _ patch n)
      ]

  inbound_entries_other :
      (es : List FieldMapEntry) (name : String) (patch : List (String × Value))
      (missing : List String)
      → (¬ Memᴰ name (xms_of (arriving es)))
      → lookup name (inbound_entries to_text es fields patch missing).0 ≡ lookup name patch
  unfolding inbound_entries
  inbound_entries_other [] name patch missing n = refl
  inbound_entries_other (e ∷ es) name patch missing n = elim (Bool-cases (is_outward e.direction)) [
    | inl t ↦ rw t (inbound_entries_other es name patch missing (rw t at n))
    | inr f ↦
        let n' : ¬ Memᴰ name (e.xms ∷ xms_of (arriving es)) = rw f at n in
        rw f (
          inbound_entries_other es name _ _ (λ l. n' (Memᴰ.tail l))
          ∙ read_value_other e name patch missing (λ q. n' (Memᴰ.head (sym q))))
  ]

  read_value-patch :
      (e : FieldMapEntry) (patch : List (String × Value)) (missing : List String)
      → is_level_field e.xms ≡ false
      → is_undefined (pick fields e.external) ≡ false
      → lookup e.xms (read_value to_text e fields patch missing).0
        ≡ some (apply_transform to_text (pick fields e.external) e.transform fields)
  unfolding read_value set_field
  read_value-patch e patch missing plain present =
      rw (present, plain) (lookup-insert_same e.xms _ patch)

  pub inbound_entries-patch :
      (es : List FieldMapEntry) (e : FieldMapEntry) (patch : List (String × Value))
      (missing : List String)
      → Memᴰ e es
      → is_outward e.direction ≡ false
      → is_level_field e.xms ≡ false
      → is_undefined (pick fields e.external) ≡ false
      → Distinct (xms_of (arriving es))
      → lookup e.xms (inbound_entries to_text es fields patch missing).0
        ≡ some (apply_transform to_text (pick fields e.external) e.transform fields)
  unfolding inbound_entries
  inbound_entries-patch [] e patch missing m into plain present d = elim m [ ]
  inbound_entries-patch (x ∷ es) e patch missing (Memᴰ.head q) into plain present d =
      let into' : is_outward x.direction ≡ false =
        subst (λ (z : FieldMapEntry). is_outward z.direction ≡ false) q into in
      let plain' : is_level_field x.xms ≡ false =
        subst (λ (z : FieldMapEntry). is_level_field z.xms ≡ false) q plain in
      let present' : is_undefined (pick fields x.external) ≡ false =
        subst (λ (z : FieldMapEntry). is_undefined (pick fields z.external) ≡ false) q present in
      let d' : Distinct (x.xms ∷ xms_of (arriving es)) = rw into' at d in
      let at_head : lookup x.xms (inbound_entries to_text (x ∷ es) fields patch missing).0
          ≡ some (apply_transform to_text (pick fields x.external) x.transform fields) =
        rw into' (
          inbound_entries_other es x.xms _ _ d'.0
          ∙ read_value-patch x patch missing plain' present') in
      subst
        (λ (z : FieldMapEntry).
          lookup z.xms (inbound_entries to_text (x ∷ es) fields patch missing).0
          ≡ some (apply_transform to_text (pick fields z.external) z.transform fields))
        (sym q) at_head
  inbound_entries-patch (x ∷ es) e patch missing (Memᴰ.tail m) into plain present d =
      elim (Bool-cases (is_outward x.direction)) [
        | inl t ↦ rw t (inbound_entries-patch es e patch missing m into plain present (rw t at d))
        | inr f ↦
            let d' : Distinct (x.xms ∷ xms_of (arriving es)) = rw f at d in
            rw f (inbound_entries-patch es e _ _ m into plain present d'.1)
      ]
