-- ===== src/Sync/Changes.antt =====
-- src/modules/connectors/sync.worker.ts, `push`: the fields and the state of a ticket on their way to
-- a record.
use xms_backend.Prelude.Json.{
  Value, string, array, Items, nil, cons, Fields, property, get, is_undefined,
}
use xms_backend.Prelude.Maps.{lookup}
use xms_backend.Prelude.{
  ℕ, String, Bool, true, false, not, ◌||◌, Option, none, some, List, [], ◌∷◌, any, is_nil, ◌==◌,
  if◌then◌else◌, string_key,
}
use xms_backend.Sync.Calls.{
  update_record, unexpected, Push, pure, raise, call, ◌>>=◌, Ticket, Client, World,
}
use xms_backend.Sync.FieldMap.{FieldMapEntry, is_inward, default_sor}
use xms_backend.Sync.Outbound.{
  Store, Instance, OutboundRow, Link, in_conflict, Conflict, noop, skipped_policy,
}
use xms_backend.Sync.Repository.{touch_link}
use xms_backend.Sync.Rules.{
  SystemOfRecord, OutboundDecision, send, hold, hold_same, external_changed_since, decide_outbound,
}
use xms_backend.Sync.Settle.{Pushed, settle_sent, settle_skip, echo_guard}
use xms_backend.Sync.StateMap.{
  StateMapForType, OutboundState, no_outbound, alone, tied, resolve_outbound_state,
}
use xms_backend.Sync.Translate.{
  is_wanted, translate_inbound, translate_outbound, value_or_undefined,
}

-- `(fields).filter((field) => typeof field === 'string')`, and undefined where it is empty
abbrev pub texts : Items → List String
texts nil = []
texts (cons (string s) vs) = s ∷ texts vs
texts (cons _ vs) = texts vs

abbrev pub some_texts : List String → Option (List String)
some_texts [] = none
some_texts (s ∷ ss) = some (s ∷ ss)

abbrev pub changed_fields : Value → Option (List String)
changed_fields (array vs) = some_texts (texts vs)
changed_fields _ = none

-- What an entry of the loop over the map comes to.
pub data Verdict : Type 0 where
  passed_over lets_through drops crashes : Verdict

abbrev pub is_allowed : Verdict → Bool
is_allowed lets_through = true
is_allowed _ = false

abbrev pub is_dropped : Verdict → Bool
is_dropped drops = true
is_dropped _ = false

abbrev pub is_crash : Verdict → Bool
is_crash crashes = true
is_crash _ = false

abbrev pub verdict_of : OutboundDecision → Verdict
verdict_of (send r) = lets_through
verdict_of (hold hold_same) = passed_over
verdict_of (hold _) = drops

-- `link.field_sor_overrides?.[entry.xms] ?? entry.sor ?? defaultSor(entry.xms)`, where defaultSor throws on
-- a field that it does not know
abbrev pub first_policy :
    Option SystemOfRecord → Option SystemOfRecord → Option SystemOfRecord → Option SystemOfRecord
first_policy (some p) sor default = some p
first_policy none (some p) default = some p
first_policy none none default = default

abbrev pub policy_of : Link → FieldMapEntry → Option SystemOfRecord
policy_of link e = first_policy (lookup e.xms link.field_sor_overrides) e.sor (default_sor e.xms)

module _ (to_text : Value → String) (world : World) (now : ℕ) (instance : Instance)
    (row : OutboundRow) where
  -- `record.sys_updated_on` as an instant
  abbrev pub updated_on : Fields → ℕ
  updated_on fields = world.from_snow_time (get "sys_updated_on" fields)

  abbrev pub moved : Link → Fields → Bool
  moved link fields =
      external_changed_since link.last_inbound_sys_updated_on (updated_on fields)
        instance.clock_tolerance_seconds

  abbrev pub after_update : Link → List FieldMapEntry → Option Conflict → Store → Fields → Pushed
  after_update link es conflict s updated =
      settle_sent now instance row conflict (echo_guard to_text world now link.id es updated s)

  -- The update of the record, once there is a body, and what follows it.
  unfoldable pub write_body :
      Client
      → Link
      → List FieldMapEntry
      → List (String × String)
      → Option Conflict
      → Store
      → Push Pushed
  write_body client link es body conflict s =
      call (update_record body) (client.update instance.table_name link.external_sys_id body)
      >>= λ updated. pure (after_update link es conflict s updated)

  abbrev pub outbound_state : Option (List (String × StateMapForType)) → Ticket → OutboundState
  outbound_state none ticket = no_outbound
  outbound_state (some maps) ticket = elim (lookup ticket.type maps) [
    | none ↦ no_outbound
    | some entry ↦ resolve_outbound_state entry ticket.state
  ]

  -- `!resolved.value`, which an empty text is too
  abbrev pub state_value : OutboundState → String
  state_value no_outbound = ""
  state_value (alone value) = value
  state_value (tied t) = t.value

  -- A transition.
  unfoldable pub push_state :
      Client
      → Link
      → List FieldMapEntry
      → Option (List (String × StateMapForType))
      → Ticket
      → Store
      → Push Pushed
  unfolding write_body
  push_state client link es maps ticket s =
      let value = state_value (outbound_state maps ticket) in
      if value == ""
      then pure (settle_skip instance row skipped_policy "no_outbound" none s)
      else write_body client link es (("state", value) ∷ []) none s

  abbrev pub under_policy :
      Link
      → Fields
      → List (String × Value)
      → Ticket
      → FieldMapEntry
      → Value
      → Option SystemOfRecord
      → Verdict
  under_policy link fields external ticket e value none = crashes
  under_policy link fields external ticket e value (some policy) = verdict_of (
      decide_outbound to_text (record {
        policy = policy;
        external_changed = moved link fields;
        xms_value = value;
        external_value = value_or_undefined (lookup e.xms external);
        xms_updated_at = some ticket.updated_at;
        external_updated_at = some (updated_on fields);
      }))

  -- The tests of the loop over the map for one entry.
  unfoldable pub judge : Link → Fields → List (String × Value) → Ticket → FieldMapEntry → Verdict
  judge link fields external ticket e =
      let value = value_or_undefined (lookup e.xms ticket.values) in
      if is_inward e.direction
        || not (is_wanted (changed_fields (property "fields" row.payload)) e.xms)
        || is_undefined value
      then passed_over
      else under_policy link fields external ticket e value (policy_of link e)

  -- The fields that the loop puts into `allowed`, or those that it puts into `dropped`.
  unfoldable pub judged :
      (Verdict → Bool) → (FieldMapEntry → Verdict) → List FieldMapEntry → List String
  judged wanted verdict [] = []
  judged wanted verdict (e ∷ es) =
      let rest = judged wanted verdict es in if wanted (verdict e) then e.xms ∷ rest else rest

  abbrev pub conflict_of : Bool → List String → List String → Option Conflict
  conflict_of changed kept dropped =
      if changed || not (is_nil dropped)
      then some (record { external_changed = changed; kept = kept; dropped = dropped })
      else none

  abbrev pub mark_conflict : Link → List String → Store → Store
  mark_conflict link dropped s =
      if is_nil dropped then s else touch_link link.id (λ l. record l { state = in_conflict }) s

  -- What is left to do once the fields are judged.
  unfoldable pub send_fields :
      Client
      → Link
      → List FieldMapEntry
      → Ticket
      → Bool
      → List String
      → List String
      → Store
      → Push Pushed
  unfolding write_body
  send_fields client link es ticket changed kept dropped s =
      let body = (translate_outbound to_text es ticket.values (some kept)).body in
      let conflict = conflict_of changed kept dropped in
      let marked = mark_conflict link dropped s in
      if is_nil body
      then pure (
          if is_nil dropped
          then settle_skip instance row noop "nothing_to_send" conflict marked
          else settle_skip instance row skipped_policy "policy" conflict marked)
      else write_body client link es body conflict marked

  -- The verdict of each entry for a record.
  unfoldable pub verdict_for : Link → List FieldMapEntry → Fields → Ticket → FieldMapEntry → Verdict
  unfolding judge
  verdict_for link es fields ticket =
      judge link fields (translate_inbound to_text es fields).patch ticket

  -- A change of the ticket's fields.
  unfoldable pub push_fields :
      Client → Link → List FieldMapEntry → Ticket → Fields → Store → Push Pushed
  unfolding verdict_for judged send_fields
  push_fields client link es ticket fields s =
      let verdict = verdict_for link es fields ticket in
      if any (λ e. is_crash (verdict e)) es
      then raise (unexpected "Cannot read properties of undefined (reading 'sor')")
      else send_fields client link es ticket (moved link fields) (judged is_allowed verdict es)
          (judged is_dropped verdict es) s
