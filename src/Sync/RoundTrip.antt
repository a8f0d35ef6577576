-- ===== src/Sync/RoundTrip.antt =====
-- src/domain/sync/maps.ts: fields that leave through a map and are read back through it.
use xms_backend.Prelude.Json.{Value, undefined, string, Fields, get, is_undefined}
use xms_backend.Prelude.Maps.{lookup}
use xms_backend.Prelude.{
  String, true, false, Option, none, some, List, [], string_key, Memᴰ, Distinct, ◌≡◌, ◌≢◌, refl,
  sym, ap, ◌∙◌,
}
use xms_backend.Sync.FieldMap.{
  FieldMapEntry, both, is_inward, is_outward, Transform, pick, picked, text_of, apply_transform,
  reverse_transform,
}
use xms_backend.Sync.Translate.{
  is_level_field, translate_inbound, translate_outbound, value_or_undefined,
}
use xms_backend.Sync.Transforms.{HasKeysOnce, carried, apply_transform-reverse_transform}
use xms_backend.Sync.Arrivals.{inbound_entries-patch}
use xms_backend.Sync.Records.{leaving, arriving, xms_of, external_of, outbound_entries-IsInBody}

-- No ticket field leaves or arrives through two entries, no external field is written by two, and a
-- table has each of its keys once.
pub record IsOneToOne (es : List FieldMapEntry) : Type 0 where
  pub leaves_once : Distinct (xms_of (leaving es))
  pub written_once : Distinct (external_of (leaving es))
  pub arrives_once : Distinct (xms_of (arriving es))
  pub keys_once : (e : FieldMapEntry) → Memᴰ e es → HasKeysOnce e.transform

-- The external record holds what a body writes.
abbrev pub Holds : Fields → List (String × String) → Type 0
Holds fields body =
    (name text : String) → lookup name body ≡ some text → get name fields ≡ string text

lookup_nil : (k : String) → lookup {V = Value} k [] ≡ none
unfolding lookup
lookup_nil k = refl

shown_text :
    (fields : Fields) (name text : String)
    → get name fields ≡ string text
    → pick fields name ≡ string text
unfolding pick
shown_text fields name text e = ap picked e

module _ (to_text : Value → String) where
  leaves-eq_false :
      (v : Value) (t : Transform)
      → is_undefined (reverse_transform to_text v t) ≡ false
      → reverse_transform to_text v t ≢ undefined
  leaves-eq_false v t h q = let g : true ≡ false = sym (ap is_undefined q) ∙ h in cc

  -- Where a map is one-to-one, a field other than impact and urgency that both directions carry and that a
  -- change sends out comes back: once the external record holds what was written, the inbound
  -- translation of that record puts into the patch a value whose text is that of the ticket's
  -- value, cut to the length that a truncating entry leaves.
  pub translate_inbound-translate_outbound :
      (es : List FieldMapEntry) (values : List (String × Value)) (only : Option (List String))
      (fields : Fields) (e : FieldMapEntry) (value : Value)
      → IsOneToOne es
      → Memᴰ e es
      → e.direction ≡ both
      → is_level_field e.xms ≡ false
      → lookup e.xms (translate_outbound to_text es values only).sent ≡ some value
      → Holds fields (translate_outbound to_text es values only).body
      → (value_or_undefined (lookup e.xms values) ≡ value)
        × ((read : Value) × (lookup e.xms (translate_inbound to_text es fields).patch ≡ some read)
            × (text_of to_text read ≡ carried to_text value e.transform))
  unfolding translate_inbound translate_outbound
  translate_inbound-translate_outbound es values only fields e value once m two plain sent held =
      let out =
        outbound_entries-IsInBody to_text only values es
          (record { body = []; sent = []; unmapped = [] }) e value m (ap is_inward two)
          once.leaves_once once.written_once (lookup_nil e.xms) sent in
      let text = text_of to_text (reverse_transform to_text value e.transform) in
      let shown = shown_text fields e.external text (held e.external text out.written) in
      let there =
        inbound_entries-patch to_text fields es e [] [] m (ap is_outward two) plain
          (ap is_undefined shown) once.arrives_once in
      (
        out.owned,
        (
          apply_transform to_text (string text) e.transform fields,
          there ∙ ap (λ raw. some (apply_transform to_text raw e.transform fields)) shown,
          apply_transform-reverse_transform to_text value e.transform fields (once.keys_once e m)
              (leaves-eq_false value e.transform out.leaves),
        ),
      )
