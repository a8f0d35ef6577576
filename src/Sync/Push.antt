-- ===== src/Sync/Push.antt =====
-- src/modules/connectors/sync.worker.ts, `push`: a queued change on its way to an instance, from its
-- link to its settlement.
use xms_backend.Prelude.Json.{Value, Fields}
use xms_backend.Prelude.{
  ℕ, String, Bool, true, false, Option, none, some, List, [], ◌==◌, if◌then◌else◌, string_key,
}
use xms_backend.Sync.Calls.{
  conflicting, Result, read_record, Push, pure, call, or_raise, ◌>>=◌, Ticket, Client, World,
}
use xms_backend.Sync.Changes.{push_state, push_fields}
use xms_backend.Sync.FieldMap.{FieldMapEntry}
use xms_backend.Sync.Files.{push_file}
use xms_backend.Sync.Messages.{push_message}
use xms_backend.Sync.Outbound.{
  Store, Instance, OutboundRow, Link, LinkState, unlinked, comment, work_note, noop,
}
use xms_backend.Sync.Repository.{link_by_ticket, touch_link}
use xms_backend.Sync.Settle.{Pushed, settle_skip}
use xms_backend.Sync.StateMap.{StateMapForType}

abbrev pub is_unlinked : LinkState → Bool
is_unlinked unlinked = true
is_unlinked _ = false

-- A map whose id the instance has.
abbrev pub loaded : {A : Type 0} → Option String → (String → Result A) → Push (Option A)
loaded none load = pure none
loaded (some id) load = ([], load id) >>= λ a. pure (some a)

module _ (to_text : Value → String) (world : World) (now : ℕ) (instance : Instance)
    (row : OutboundRow) where
  -- The branches by the kind of the event.
  unfoldable pub push_event :
      Client
      → Link
      → List FieldMapEntry
      → Option (List (String × StateMapForType))
      → Ticket
      → Fields
      → Store
      → Push Pushed
  push_event client link es maps ticket fields s =
      if row.event == "comment.created"
      then push_message to_text world now instance row client link es ticket comment s
      else if row.event == "work_note.created"
      then push_message to_text world now instance row client link es ticket work_note s
      else if row.event == "attachment.scanned"
      then push_file to_text world now instance row client link ticket s
      else if row.event == "ticket.transitioned"
      then push_state to_text world now instance row client link es maps ticket s
      else push_fields to_text world now instance row client link es ticket fields s

  -- What follows the read of the record, which may be gone.
  unfoldable pub push_read :
      Client
      → Link
      → List FieldMapEntry
      → Option (List (String × StateMapForType))
      → Ticket
      → Option Fields
      → Store
      → Push Pushed
  unfolding push_event
  push_read client link es maps ticket none s = pure (
      settle_skip instance row noop "external_record_gone" none
        (touch_link link.id (λ l. record l { state = unlinked }) s))
  push_read client link es maps ticket (some fields) s =
      push_event client link es maps ticket fields s

  unfoldable pub push_linked : Link → Store → Push Pushed
  unfolding push_read
  push_linked link s = loaded instance.active_field_map_id world.field_map >>= λ map.
      or_raise map (conflicting "no_active_field_map") >>= λ es.
      loaded instance.active_state_map_id world.state_map >>= λ maps.
      ([], world.ticket row.ticket_id) >>= λ ticket. ([], world.client instance) >>= λ client.
      call read_record (client.get_record instance.table_name link.external_sys_id) >>= λ fields.
      push_read client link es maps ticket fields s

  unfoldable pub by_link : Option Link → Store → Push Pushed
  unfolding push_linked
  by_link none s = pure (settle_skip instance row noop "no_link" none s)
  by_link (some link) s =
      if is_unlinked link.state
      then pure (settle_skip instance row noop "no_link" none s)
      else push_linked link s

  unfoldable pub push : Store → Push Pushed
  unfolding by_link
  push s = by_link (link_by_ticket instance.id row.ticket_id s.links) s
