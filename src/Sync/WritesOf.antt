-- ===== src/Sync/WritesOf.antt =====
-- src/modules/connectors/sync.worker.ts, `push`: the writes for a message or a file.
use xms_backend.Prelude.Json.{Value}
use xms_backend.Prelude.{
  ℕ, ◌≤◌, ◌<◌, String, Bool, true, false, Option, none, some, List, ltb, ◌==◌, ==_iff, ==_false_iff,
  string_key, ◌≡◌, inl, inr, refl, arith, Bool-cases,
}
use xms_backend.Sync.Calls.{write_journal, upload_file, Ticket, Message, Attachment, Client, World}
use xms_backend.Sync.FieldMap.{FieldMapEntry}
use xms_backend.Sync.Files.{attachment_id, attachment_of, tell_of_file, upload, found_file}
use xms_backend.Sync.Messages.{
  element_of, journal_text, message_id, write_message, found_message, push_message,
}
use xms_backend.Sync.Outbound.{Store, Instance, OutboundRow, Link, Kind}
use xms_backend.Sync.Repository.{journal_link_exists_for_xms, attachment_link_exists_for_xms}
use xms_backend.Sync.Writes.{IsOpenFile, event_of, WritesOnce, then_silent, call-pure}

module _ (to_text : Value → String) (world : World) (now : ℕ) (instance : Instance)
    (row : OutboundRow) where
  found_message-WritesOnce :
      (client : Client) (link : Link) (es : List FieldMapEntry) (ticket : Ticket) (kind : Kind)
      (o : Option Message) (s : Store)
      → row.event ≡ event_of kind
      → world.message kind (message_id to_text world now instance row) ≡ o
      → journal_link_exists_for_xms instance.id kind
          (message_id to_text world now instance row)
          s.journal_links
        ≡ false
      → WritesOnce to_text world now instance row s
          (found_message to_text world now instance row client link es ticket kind o s).0
  unfolding write_message found_message
  found_message-WritesOnce client link es ticket kind none s event named fresh = inl refl
  found_message-WritesOnce client link es ticket kind (some m) s event named fresh =
      elim (Bool-cases (m.source == "sync")) [
        | inl t ↦ rw t (inl refl)
        | inr f ↦ rw f (
            inr (
              write_journal (element_of kind instance.journal_public)
                  (journal_text m.id ticket m.author_name m.body),
              call-pure _ _ _,
              inl (
                kind,
                m,
                ticket,
                record {
                  event = event;
                  named = named;
                  own = (==_false_iff m.source "sync").0 f;
                  not_sent = fresh;
                },
                refl,
                refl,
              ),
            ))
      ]

  pub push_message-WritesOnce :
      (client : Client) (link : Link) (es : List FieldMapEntry) (ticket : Ticket) (kind : Kind)
      (s : Store)
      → row.event ≡ event_of kind
      → WritesOnce to_text world now instance row s
          (push_message to_text world now instance row client link es ticket kind s).0
  unfolding push_message found_message
  push_message-WritesOnce client link es ticket kind s event =
      let id = message_id to_text world now instance row in
      elim (Bool-cases (id == "")) [
        | inl t ↦ rw t (inl refl)
        | inr f ↦
            elim (Bool-cases (journal_link_exists_for_xms instance.id kind id s.journal_links)) [
              | inl t ↦ rw (f, t) (inl refl)
              | inr g ↦
                  rw (f, g)
                    (found_message-WritesOnce client link es ticket kind (world.message kind id) s
                      event refl g)
            ]
      ]

  tell_of_file-WritesOnce :
      (links : Bool) (client : Client) (link : Link) (ticket : Ticket) (file : Attachment)
      (s : Store)
      → instance.links_over_limit ≡ links
      → IsOpenFile to_text world now instance row s file
      → instance.attachment_limit_bytes < file.size_bytes
      → WritesOnce to_text world now instance row s
          (tell_of_file to_text world now instance row links client link ticket file s).0
  unfolding tell_of_file
  tell_of_file-WritesOnce false client link ticket file s told o over = inl refl
  tell_of_file-WritesOnce true client link ticket file s told o over =
      inr (_, call-pure _ _ _, inr (file, o, over, told, refl))

  upload-WritesOnce :
      (client : Client) (link : Link) (file : Attachment) (s : Store)
      → IsOpenFile to_text world now instance row s file
      → file.size_bytes ≤ instance.attachment_limit_bytes
      → WritesOnce to_text world now instance row s
          (upload to_text world now instance row client link file s).0
  unfolding upload
  upload-WritesOnce client link file s o fits =
      then_silent (world.object_body file.s3_key) _ (WritesOnce to_text world now instance row s)
        (inl refl) (λ body. inr (upload_file file.id, call-pure _ _ _, (file, o, fits, refl)))

  pub found_file-WritesOnce :
      (client : Client) (link : Link) (ticket : Ticket) (o : Option Attachment) (s : Store)
      → row.event ≡ "attachment.scanned"
      → attachment_of to_text world now instance row (attachment_id to_text world now instance row)
        ≡ o
      → WritesOnce to_text world now instance row s
          (found_file to_text world now instance row client link ticket o s).0
  unfolding found_file
  found_file-WritesOnce client link ticket none s event named = inl refl
  found_file-WritesOnce client link ticket (some file) s event named =
      elim (Bool-cases (file.scan_state == "clean")) [
        | inr n ↦ rw n (inl refl)
        | inl clean ↦ elim (Bool-cases (file.visibility == "public")) [
          | inr n ↦ rw (clean, n) (inl refl)
          | inl public ↦
              elim (Bool-cases
                (attachment_link_exists_for_xms instance.id file.id s.attachment_links)) [
                  | inl t ↦ rw (clean, public, t) (inl refl)
                  | inr fresh ↦
                      let free : IsOpenFile to_text world now instance row s file = record {
                        event = event;
                        named = named;
                        clean = (==_iff file.scan_state "clean").0 clean;
                        public = (==_iff file.visibility "public").0 public;
                        not_sent = fresh;
                      } in
                      elim (Bool-cases (ltb instance.attachment_limit_bytes file.size_bytes)) [
                        | inl t ↦
                            let over : instance.attachment_limit_bytes < file.size_bytes =
                              ground arith in
                            rw (clean, public, fresh, t)
                              (tell_of_file-WritesOnce instance.links_over_limit client link ticket
                                file s refl free over)
                        | inr f ↦
                            let fits : file.size_bytes ≤ instance.attachment_limit_bytes =
                              ground arith in
                            rw (clean, public, fresh, f)
                              (upload-WritesOnce client link file s free fits)
                      ]
                ]
        ]
      ]
