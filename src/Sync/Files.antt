-- ===== src/Sync/Files.antt =====
-- src/modules/connectors/sync.worker.ts, `push`: a file on its way to an instance.
use Prim.Native.String.{◌++◌ as ◌^^◌}
use xms_backend.Prelude.Int.{pos}
use xms_backend.Prelude.Json.{Value, number, whole, property}
use xms_backend.Prelude.{
  ℕ, String, Bool, true, false, not, ◌||◌, Option, none, some, [], ltb, ◌==◌, if◌then◌else◌,
  string_key,
}
use xms_backend.Sync.Calls.{
  not_found, write_journal, upload_file, Push, pure, raise, call, ◌>>=◌, Ticket, Attachment, Client,
  World,
}
use xms_backend.Sync.FieldMap.{text_of}
use xms_backend.Sync.Messages.{journal_marker, journal_element}
use xms_backend.Sync.Outbound.{
  Store, Instance, OutboundRow, Link, noop, skipped_policy, copied, as_link, left_out,
}
use xms_backend.Sync.Repository.{attachment_link_exists_for_xms, insert_attachment_link}
use xms_backend.Sync.Settle.{Pushed, settle_sent, settle_skip}

module _ (to_text : Value → String) (world : World) (now : ℕ) (instance : Instance)
    (row : OutboundRow) where
  abbrev pub attachment_id : String
  attachment_id = text_of to_text (property "attachment_id" row.payload)

  abbrev pub over_limit_text : Ticket → Attachment → String
  over_limit_text ticket file =
      journal_marker file.id
      ^^ " "
      ^^ ticket.key
      ^^ ": "
      ^^ file.file_name
      ^^ " ("
      ^^ to_text (number (whole (pos file.size_bytes)))
      ^^ " bytes) is over the "
      ^^ to_text (number (whole (pos instance.attachment_limit_bytes)))
      ^^ " byte copy limit and stays in XMS."

  abbrev pub keep_file : Attachment → Store → Pushed
  keep_file file s = settle_skip instance row skipped_policy "over_limit" none (
      insert_attachment_link
        (record {
          instance_id = instance.id;
          attachment_id = file.id;
          external_sys_id = "over-limit:" ^^ file.id;
          outcome = if instance.links_over_limit then as_link else left_out;
        })
        s)

  -- A file over the limit of the instance, and whether the instance is told of it.
  unfoldable pub tell_of_file : Bool → Client → Link → Ticket → Attachment → Store → Push Pushed
  tell_of_file false client link ticket file s = pure (keep_file file s)
  tell_of_file true client link ticket file s =
      call (write_journal (journal_element instance.journal_public) (over_limit_text ticket file)) (
        client.create_journal instance.table_name link.external_sys_id
          (journal_element instance.journal_public) (over_limit_text ticket file))
      >>= λ written. pure (keep_file file s)

  abbrev pub after_upload : Attachment → Store → String → Pushed
  after_upload file s uploaded = settle_sent now instance row none (
      insert_attachment_link
        (record {
          instance_id = instance.id;
          attachment_id = file.id;
          external_sys_id = uploaded;
          outcome = copied;
        })
        s)

  unfoldable pub upload : Client → Link → Attachment → Store → Push Pushed
  upload client link file s = ([], world.object_body file.s3_key) >>= λ body.
      call (upload_file file.id) (
        client.upload_attachment instance.table_name link.external_sys_id file.file_name
          file.content_type body)
      >>= λ uploaded. pure (after_upload file s uploaded)

  unfoldable pub found_file : Client → Link → Ticket → Option Attachment → Store → Push Pushed
  unfolding tell_of_file upload
  found_file client link ticket none s = raise (not_found "attachment")
  found_file client link ticket (some file) s =
      if not (file.scan_state == "clean") || not (file.visibility == "public")
      then pure (
          settle_skip instance row skipped_policy
            (if not (file.scan_state == "clean")
              then "not_scanned_clean"
              else "internal_attachment")
            none s)
      else if attachment_link_exists_for_xms instance.id file.id s.attachment_links
      then pure (settle_skip instance row noop "already_sent" none s)
      else if ltb instance.attachment_limit_bytes file.size_bytes
      then tell_of_file instance.links_over_limit client link ticket file s
      else upload client link file s

  abbrev pub attachment_of : String → Option Attachment
  attachment_of id = if id == "" then none else world.attachment id

  unfoldable pub push_file : Client → Link → Ticket → Store → Push Pushed
  unfolding found_file
  push_file client link ticket s = found_file client link ticket (attachment_of attachment_id) s
