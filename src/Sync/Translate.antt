-- ===== src/Sync/Translate.antt =====
-- src/domain/sync/maps.ts: whole records through a field map, in both directions.
use Prim.Native.Char.{code}
use xms_backend.Prelude.Json.{Value, undefined, string, Fields, entries, is_undefined}
use xms_backend.Prelude.Maps.{lookup, insert}
use xms_backend.Prelude.{
  ℕ, ◌+◌, String, Bool, true, false, not, ◌&&◌, ◌||◌, Option, none, some, List, [], ◌∷◌, ◌++◌, map,
  filter, find, contains, leb, nat_beq, ◌==◌, if◌then◌else◌, string_key,
}
use xms_backend.Sync.FieldMap.{
  FieldMapEntry, is_inward, is_outward, levels, pick, text_of, apply_transform, reverse_transform,
}

pub record InboundTranslation : Type 0 where
  pub patch : List (String × Value)
  pub unmapped : List String
  pub missing : List String

pub record OutboundTranslation : Type 0 where
  pub body : List (String × String)
  pub sent : List (String × Value)
  pub unmapped : List String

abbrev pub system_fields : List String
system_fields =
    "sys_id" ∷ "sys_updated_on" ∷ "sys_created_on" ∷ "sys_updated_by" ∷ "sys_created_by"
    ∷ "sys_mod_count" ∷ []

-- `key.startsWith('sys_')`
abbrev pub starts_with : String → String → Bool
starts_with String.[] s = true
starts_with (String.◌∷◌ c p) String.[] = false
starts_with (String.◌∷◌ c p) (String.◌∷◌ d s) =
    let rest = starts_with p s in nat_beq (code c) (code d) && rest

-- `text.toLowerCase() === level`, for a level, which has only small letters from a to z
abbrev pub lower_code : ℕ → ℕ
lower_code c = if leb b'A' c && leb c b'Z' then c + 32 else c

abbrev pub is_lowered : String → String → Bool
is_lowered String.[] String.[] = true
is_lowered String.[] (String.◌∷◌ d t) = false
is_lowered (String.◌∷◌ c s) String.[] = false
is_lowered (String.◌∷◌ c s) (String.◌∷◌ d t) =
    let rest = is_lowered s t in nat_beq (lower_code (code c)) (code d) && rest

-- The level of `LEVELS` that a text is in small letters.
unfoldable pub level_of : String → Option String
level_of text = find (is_lowered text) levels

abbrev pub is_level_field : String → Bool
is_level_field name = name == "impact" || name == "urgency"

-- `external` for each entry that the loop reaches, in the order of the map
abbrev pub mapped_external : List FieldMapEntry → List String
mapped_external es = map (λ e. e.external) (filter (λ e. not (is_outward e.direction)) es)

abbrev pub is_unmapped : List FieldMapEntry → String → Bool
is_unmapped es key =
    not (contains (mapped_external es) key)
    && not (contains system_fields key)
    && not (starts_with "sys_" key)

abbrev pub set_level : String → Option String → List (String × Value) → List (String × Value)
set_level name none patch = patch
set_level name (some level) patch = insert name (string level) patch

abbrev pub value_or_undefined : Option Value → Value
value_or_undefined none = undefined
value_or_undefined (some v) = v

-- `only && !only.includes(name)` is false
abbrev pub is_wanted : Option (List String) → String → Bool
is_wanted none name = true
is_wanted (some only) name = contains only name

module _ (to_text : Value → String) where
  -- The assignment to `patch[entry.xms]`.
  unfoldable pub set_field : String → Value → List (String × Value) → List (String × Value)
  set_field name value patch =
      if is_level_field name
      then set_level name (level_of (text_of to_text value)) patch
      else insert name value patch

  -- The body of the loop of `translateInbound`, with the patch and the missing fields so far.
  unfoldable pub read_value :
      FieldMapEntry
      → Fields
      → List (String × Value)
      → List String
      → List (String × Value) × List String
  read_value e fields patch missing =
      let raw = pick fields e.external in
      if is_undefined raw
      then (patch, missing ++ e.external ∷ [])
      else (set_field e.xms (apply_transform to_text raw e.transform fields) patch, missing)

  unfoldable pub inbound_entries :
      List FieldMapEntry
      → Fields
      → List (String × Value)
      → List String
      → List (String × Value) × List String
  unfolding read_value
  inbound_entries [] fields patch missing = (patch, missing)
  inbound_entries (e ∷ es) fields patch missing =
      let next = read_value e fields patch missing in
      let skip = inbound_entries es fields patch missing in
      let read = inbound_entries es fields next.0 next.1 in
      if is_outward e.direction then skip else read

  unfoldable pub translate_inbound : List FieldMapEntry → Fields → InboundTranslation
  unfolding inbound_entries
  translate_inbound es fields =
      let done = inbound_entries es fields [] [] in
      record {
        patch = done.0;
        unmapped = filter (is_unmapped es) (map (λ e. e.0) (entries fields));
        missing = done.1;
      }

  -- The body of the loop of `translateOutbound` for a value that the ticket has.
  unfoldable pub write_value : FieldMapEntry → Value → OutboundTranslation → OutboundTranslation
  write_value e value done =
      let reversed = reverse_transform to_text value e.transform in
      if is_undefined reversed
      then record done { unmapped = done.unmapped ++ e.xms ∷ [] }
      else record {
        body = insert e.external (text_of to_text reversed) done.body;
        sent = insert e.xms value done.sent;
        unmapped = done.unmapped;
      }

  unfoldable pub write_entry :
      Option (List String)
      → List (String × Value)
      → FieldMapEntry
      → OutboundTranslation
      → OutboundTranslation
  unfolding write_value
  write_entry only values e done =
      let value = value_or_undefined (lookup e.xms values) in
      if is_inward e.direction || not (is_wanted only e.xms) || is_undefined value
      then done
      else write_value e value done

  unfoldable pub outbound_entries :
      List FieldMapEntry
      → Option (List String)
      → List (String × Value)
      → OutboundTranslation
      → OutboundTranslation
  unfolding write_entry
  outbound_entries [] only values done = done
  outbound_entries (e ∷ es) only values done =
      outbound_entries es only values (write_entry only values e done)

  unfoldable pub translate_outbound :
      List FieldMapEntry → List (String × Value) → Option (List String) → OutboundTranslation
  unfolding outbound_entries
  translate_outbound es values only =
      outbound_entries es only values (record { body = []; sent = []; unmapped = [] })
