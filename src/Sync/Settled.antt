-- ===== src/Sync/Settled.antt =====
-- src/modules/connectors/sync.worker.ts, `push`: the row that a push has settled.
use xms_backend.Prelude.Json.{Value, Fields}
use xms_backend.Prelude.{
  ℕ, suc, String, Bool, true, false, not, ◌||◌, Option, none, some, List, [], any, ltb, ◌==◌,
  string_key, ◌≡◌, inl, inr, refl, ap, subst, Bool-cases,
}
use xms_backend.Sync.Calls.{
  Failure, Call, write_journal, upload_file, Result, ok, throws, Push, pure, call, then_push, ◌>>=◌,
  Ticket, Message, Attachment, Written, Client, World,
}
use xms_backend.Sync.FieldMap.{FieldMapEntry}
use xms_backend.Sync.Files.{
  keep_file, over_limit_text, after_upload, tell_of_file, upload, found_file,
}
use xms_backend.Sync.Messages.{
  element_of, journal_element, journal_text, after_journal, message_id, write_message,
  found_message, push_message,
}
use xms_backend.Sync.Outbound.{
  Store, Instance, OutboundRow, is_pending, Link, Conflict, Kind, JournalLink, AttachmentLink,
  RunOutcome,
}
use xms_backend.Sync.Repository.{
  journal_link_exists_for_xms, attachment_link_exists_for_xms, insert_journal_link,
  journal_conflicts, attachment_conflicts, insert_attachment_link, touch_link, touch_instance,
  settle_outbound, update_rows,
}
use xms_backend.Sync.Settle.{Pushed, set_sent, set_skipped, settle_sent, settle_skip, echo_guard}

-- A change of a row that leaves its identity alone.
pub record KeepsIdentity (set : OutboundRow → OutboundRow) : Type 0 where
  pub id : (r : OutboundRow) → (set r).id ≡ r.id
  pub instance_id : (r : OutboundRow) → (set r).instance_id ≡ r.instance_id
  pub outbox_id : (r : OutboundRow) → (set r).outbox_id ≡ r.outbox_id

-- The rows are those from before, but that the pushed one is out of the queue with an attempt more.
pub record IsSettled (row : OutboundRow) (before after : Store) : Type 0 where
  pub set : OutboundRow → OutboundRow
  pub keeps : KeepsIdentity set
  pub attempts : (r : OutboundRow) → (set r).attempts ≡ suc row.attempts
  pub out : (r : OutboundRow) → is_pending (set r).status ≡ false
  pub rows : after.rows ≡ update_rows row.id set before.rows
  pub next_id : after.next_id ≡ before.next_id

-- A change of the store that is not one of the queue.
pub record HasSameQueue (before after : Store) : Type 0 where
  pub rows : after.rows ≡ before.rows
  pub next_id : after.next_id ≡ before.next_id

-- What holds of a push if it ends without an error.
abbrev pub Settles : (Pushed → Type 0) → Result Pushed → Type 0
Settles P r = (p : Pushed) → r ≡ ok p → P p

pub Settles-ok : (P : Pushed → Type 0) (q : Pushed) → P q → Settles P (ok q)
Settles-ok P q h p e = subst P (ok-injective e) h
  where
    pushed : Result Pushed → Pushed
    pushed (ok a) = a
    pushed (throws f) = q

    ok-injective : {p : Pushed} → ok q ≡ ok p → q ≡ p
    ok-injective e = ap pushed e

pub Settles-throws : (P : Pushed → Type 0) (f : Failure) → Settles P (throws f)
Settles-throws P f p e = cc

module _ {A : Type 0} where
  pub Settles->>= :
      (P : Pushed → Type 0) (calls : List Call) (r : Result A) (f : A → Push Pushed)
      → ((a : A) → Settles P (f a).1)
      → Settles P (then_push calls r f).1
  Settles->>= P calls (ok a) f next = next a
  Settles->>= P calls (throws e) f next = Settles-throws P e

  pub Settles-call :
      (P : Pushed → Type 0) (c : Call) (r : Result A) (f : A → Pushed)
      → ((a : A) → P (f a))
      → Settles P (call c r >>= λ a. pure (f a)).1
  Settles-call P c (ok a) f next = Settles-ok P (f a) (next a)
  Settles-call P c (throws e) f next = Settles-throws P e

pub same_queue : (s : Store) → HasSameQueue s s
same_queue s = record { rows = refl; next_id = refl }

after_journal_link :
    (before s : Store) (l : JournalLink)
    → HasSameQueue before s
    → HasSameQueue before (insert_journal_link l s)
unfolding insert_journal_link
after_journal_link before s l same = elim (Bool-cases (any (journal_conflicts l) s.journal_links)) [
  | inl t ↦ rw t same
  | inr f ↦ rw f (record { rows = same.rows; next_id = same.next_id })
]

after_attachment_link :
    (before s : Store) (l : AttachmentLink)
    → HasSameQueue before s
    → HasSameQueue before (insert_attachment_link l s)
unfolding insert_attachment_link
after_attachment_link before s l same =
    elim (Bool-cases (any (attachment_conflicts l) s.attachment_links)) [
      | inl t ↦ rw t same
      | inr f ↦ rw f (record { rows = same.rows; next_id = same.next_id })
    ]

pub after_touch :
    (before s : Store) (id : String) (set : Link → Link)
    → HasSameQueue before s
    → HasSameQueue before (touch_link id set s)
unfolding touch_link
after_touch before s id set same = record { rows = same.rows; next_id = same.next_id }

module _ (to_text : Value → String) (world : World) (now : ℕ) (instance : Instance)
    (row : OutboundRow) where
  pub settle_sent-IsSettled :
      (conflict : Option Conflict) (before s : Store)
      → HasSameQueue before s
      → IsSettled row before (settle_sent now instance row conflict s).store
  unfolding settle_sent settle_outbound touch_instance
  settle_sent-IsSettled conflict before s same = record {
    set = set_sent now (suc row.attempts) conflict;
    keeps = record { id = λ r. refl; instance_id = λ r. refl; outbox_id = λ r. refl };
    attempts = λ r. refl;
    out = λ r. refl;
    rows = ap (update_rows row.id (set_sent now (suc row.attempts) conflict)) same.rows;
    next_id = same.next_id;
  }

  pub settle_skip-IsSettled :
      (outcome : RunOutcome) (reason : String) (conflict : Option Conflict) (before s : Store)
      → HasSameQueue before s
      → IsSettled row before (settle_skip instance row outcome reason conflict s).store
  unfolding settle_skip settle_outbound
  settle_skip-IsSettled outcome reason conflict before s same = record {
    set = set_skipped (suc row.attempts) conflict;
    keeps = record { id = λ r. refl; instance_id = λ r. refl; outbox_id = λ r. refl };
    attempts = λ r. refl;
    out = λ r. refl;
    rows = ap (update_rows row.id (set_skipped (suc row.attempts) conflict)) same.rows;
    next_id = same.next_id;
  }

  pub after_echo :
      (before s : Store) (id : String) (es : List FieldMapEntry) (fields : Fields)
      → HasSameQueue before s
      → HasSameQueue before (echo_guard to_text world now id es fields s)
  unfolding echo_guard
  after_echo before s id es fields same = after_touch before s id _ same

  abbrev pub Ends : Store → Result Pushed → Type 0
  Ends s r = Settles (λ p. IsSettled row s p.store) r

  pub ended : (s : Store) (q : Pushed) → IsSettled row s q.store → Ends s (ok q)
  ended s q h = Settles-ok (λ p. IsSettled row s p.store) q h

  write_message-Ends :
      (client : Client) (link : Link) (es : List FieldMapEntry) (ticket : Ticket) (kind : Kind)
      (m : Message) (s : Store)
      → Ends s (write_message to_text world now instance row client link es ticket kind m s).1
  unfolding write_message
  write_message-Ends client link es ticket kind m s =
      Settles-call (λ p. IsSettled row s p.store)
        (write_journal (element_of kind instance.journal_public)
          (journal_text m.id ticket m.author_name m.body))
        _ (after_journal to_text world now instance row link es kind m s)
        (λ (written : Written).
          settle_sent-IsSettled none s _ (
            after_echo s _ link.id es written.after_write
              (after_journal_link s s _ (same_queue s))))

  found_message-Ends :
      (client : Client) (link : Link) (es : List FieldMapEntry) (ticket : Ticket) (kind : Kind)
      (o : Option Message) (s : Store)
      → Ends s (found_message to_text world now instance row client link es ticket kind o s).1
  unfolding found_message
  found_message-Ends client link es ticket kind none s = Settles-throws _ _
  found_message-Ends client link es ticket kind (some m) s =
      elim (Bool-cases (m.source == "sync")) [
        | inl t ↦ rw t (ended s _ (settle_skip-IsSettled _ _ none s s (same_queue s)))
        | inr f ↦ rw f (write_message-Ends client link es ticket kind m s)
      ]

  pub push_message-Ends :
      (client : Client) (link : Link) (es : List FieldMapEntry) (ticket : Ticket) (kind : Kind)
      (s : Store)
      → Ends s (push_message to_text world now instance row client link es ticket kind s).1
  unfolding push_message
  push_message-Ends client link es ticket kind s =
      let id = message_id to_text world now instance row in
      elim (Bool-cases (id == "")) [
        | inl t ↦ rw t (Settles-throws _ _)
        | inr f ↦
            elim (Bool-cases (journal_link_exists_for_xms instance.id kind id s.journal_links)) [
              | inl t ↦ rw (f, t) (ended s _ (settle_skip-IsSettled _ _ none s s (same_queue s)))
              | inr g ↦
                  rw (f, g)
                    (found_message-Ends client link es ticket kind (world.message kind id) s)
            ]
      ]

  keep_file-IsSettled :
      (file : Attachment) (s : Store)
      → IsSettled row s (keep_file to_text world now instance row file s).store
  keep_file-IsSettled file s =
      settle_skip-IsSettled _ _ none s _ (after_attachment_link s s _ (same_queue s))

  tell_of_file-Ends :
      (links : Bool) (client : Client) (link : Link) (ticket : Ticket) (file : Attachment)
      (s : Store)
      → Ends s (tell_of_file to_text world now instance row links client link ticket file s).1
  unfolding tell_of_file
  tell_of_file-Ends false client link ticket file s = ended s _ (keep_file-IsSettled file s)
  tell_of_file-Ends true client link ticket file s =
      Settles-call (λ p. IsSettled row s p.store)
        (write_journal (journal_element instance.journal_public)
          (over_limit_text to_text world now instance row ticket file))
        _ (λ written. keep_file to_text world now instance row file s)
        (λ written. keep_file-IsSettled file s)

  upload-Ends :
      (client : Client) (link : Link) (file : Attachment) (s : Store)
      → Ends s (upload to_text world now instance row client link file s).1
  unfolding upload
  upload-Ends client link file s =
      let P : Pushed → Type 0 = λ p. IsSettled row s p.store in
      Settles->>= P [] (world.object_body file.s3_key) _ (λ body.
        Settles-call P (upload_file file.id) _ (after_upload to_text world now instance row file s)
          (λ uploaded. settle_sent-IsSettled none s _ (after_attachment_link s s _ (same_queue s))))

  pub found_file-Ends :
      (client : Client) (link : Link) (ticket : Ticket) (o : Option Attachment) (s : Store)
      → Ends s (found_file to_text world now instance row client link ticket o s).1
  unfolding found_file
  found_file-Ends client link ticket none s = Settles-throws _ _
  found_file-Ends client link ticket (some file) s =
      elim (Bool-cases (not (file.scan_state == "clean") || not (file.visibility == "public"))) [
        | inl t ↦ rw t (ended s _ (settle_skip-IsSettled _ _ none s s (same_queue s)))
        | inr a ↦
            elim (Bool-cases
              (attachment_link_exists_for_xms instance.id file.id s.attachment_links)) [
                | inl t ↦ rw (a, t) (ended s _ (settle_skip-IsSettled _ _ none s s (same_queue s)))
                | inr b ↦ elim (Bool-cases (ltb instance.attachment_limit_bytes file.size_bytes)) [
                  | inl t ↦
                      rw (a, b, t)
                        (tell_of_file-Ends instance.links_over_limit client link ticket file s)
                  | inr c ↦ rw (a, b, c) (upload-Ends client link file s)
                ]
              ]
      ]
