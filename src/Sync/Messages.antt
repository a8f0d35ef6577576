-- ===== src/Sync/Messages.antt =====
-- src/modules/connectors/sync.worker.ts, `push`: a comment or a work note on its way to the journal
-- of a record.
use Prim.Native.Char.{code}
use Prim.Native.String.{◌++◌ as ◌^^◌}
use xms_backend.Prelude.Json.{Value, property}
use xms_backend.Prelude.{
  ℕ, String, Option, none, some, List, nat_beq, ◌==◌, if◌then◌else◌, string_key,
}
use xms_backend.Sync.Calls.{
  bad_request, not_found, write_journal, Push, pure, raise, call, ◌>>=◌, Ticket, Message, Written,
  Client, World,
}
use xms_backend.Sync.FieldMap.{FieldMapEntry, reference, text_of, cut}
use xms_backend.Sync.Outbound.{
  Store, Instance, OutboundRow, Link, Kind, comment, work_note, noop, skipped_reflection,
}
use xms_backend.Sync.Repository.{journal_link_exists_for_xms, insert_journal_link}
use xms_backend.Sync.Settle.{Pushed, settle_sent, settle_skip, echo_guard}

-- `commentId.replace(/-/g, '')`
abbrev pub without_dashes : String → String
without_dashes String.[] = String.[]
without_dashes (String.◌∷◌ c s) =
    let rest = without_dashes s in if nat_beq (code c) b'-' then rest else String.◌∷◌ c rest

abbrev pub journal_marker : String → String
journal_marker id = "[XMS:" ^^ cut 8 (without_dashes id) ^^ "]"

abbrev pub journal_element : String → String
journal_element configured = if configured == "work_notes" then "work_notes" else "comments"

abbrev pub element_of : Kind → String → String
element_of comment configured = journal_element configured
element_of work_note configured = "work_notes"

abbrev pub entity_of : Kind → String
entity_of comment = "comment"
entity_of work_note = "work_note"

-- The payload's value at a key, or at another where it is nullish.
abbrev pub message_value : Value → Value
message_value payload = reference (property "comment_id" payload) (property "work_note_id" payload)

abbrev pub journal_text : String → Ticket → String → String → String
journal_text id ticket author body =
    journal_marker id ^^ " " ^^ ticket.key ^^ " " ^^ author ^^ ": " ^^ body

module _ (to_text : Value → String) (world : World) (now : ℕ) (instance : Instance)
    (row : OutboundRow) where
  abbrev pub message_id : String
  message_id = text_of to_text (message_value row.payload)

  -- What is written down once the entry stands in the journal.
  abbrev pub after_journal : Link → List FieldMapEntry → Kind → Message → Store → Written → Pushed
  after_journal link es kind message s written = settle_sent now instance row none (
      echo_guard to_text world now link.id es written.after_write (
        insert_journal_link
          (record {
            instance_id = instance.id;
            kind = kind;
            xms_id = message.id;
            external_sys_id = written.entry;
          })
          s))

  unfoldable pub write_message :
      Client → Link → List FieldMapEntry → Ticket → Kind → Message → Store → Push Pushed
  write_message client link es ticket kind message s =
      let element = element_of kind instance.journal_public in
      let text = journal_text message.id ticket message.author_name message.body in
      call (write_journal element text)
        (client.create_journal instance.table_name link.external_sys_id element text)
      >>= λ written. pure (after_journal link es kind message s written)

  unfoldable pub found_message :
      Client → Link → List FieldMapEntry → Ticket → Kind → Option Message → Store → Push Pushed
  unfolding write_message
  found_message client link es ticket kind none s = raise (not_found (entity_of kind))
  found_message client link es ticket kind (some message) s =
      if message.source == "sync"
      then pure (settle_skip instance row skipped_reflection "arrived_from_sync" none s)
      else write_message client link es ticket kind message s

  -- A comment or a work note.
  unfoldable pub push_message :
      Client → Link → List FieldMapEntry → Ticket → Kind → Store → Push Pushed
  unfolding found_message
  push_message client link es ticket kind s =
      if message_id == ""
      then raise (bad_request "message_missing")
      else if journal_link_exists_for_xms instance.id kind message_id s.journal_links
      then pure (settle_skip instance row noop "already_sent" none s)
      else found_message client link es ticket kind (world.message kind message_id) s
