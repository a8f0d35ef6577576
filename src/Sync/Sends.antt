-- ===== src/Sync/Sends.antt =====
-- src/modules/connectors/sync.worker.ts, `push`: the calls that a push makes of an instance.
use xms_backend.Prelude.Json.{Value, Fields}
use xms_backend.Prelude.{
  ℕ, String, Bool, Option, none, some, List, [], ◌∷◌, any, is_nil, is_nil-eq-false, ◌==◌, ==_iff,
  ==_false_iff, string_key, ◌≡◌, ◌≢◌, ◌⊎◌, inl, inr, refl, Bool-cases,
}
use xms_backend.Sync.Calls.{
  conflicting, Result, ok, throws, Call, read_record, update_record, Push, call, or_raise, ◌>>=◌,
  Ticket, Client, World,
}
use xms_backend.Sync.Changes.{
  write_body, push_state, send_fields, push_fields, verdict_for, is_crash, outbound_state,
  state_value,
}
use xms_backend.Sync.FieldMap.{FieldMapEntry}
use xms_backend.Sync.Files.{push_file}
use xms_backend.Sync.Outbound.{Store, Instance, OutboundRow, Link, Conflict, comment, work_note}
use xms_backend.Sync.Repository.{link_by_ticket}
use xms_backend.Sync.Push.{is_unlinked, loaded, push_event, push_read, push_linked, by_link, push}
use xms_backend.Sync.Settle.{Pushed}
use xms_backend.Sync.StateMap.{StateMapForType}
use xms_backend.Sync.Translate.{translate_outbound}
use xms_backend.Sync.Writes.{
  WritesOnce, then_silent, silent->>=, call-pure, or_raise-silent, loaded-silent,
}
use xms_backend.Sync.WritesOf.{push_message-WritesOnce, found_file-WritesOnce}

module _ (to_text : Value → String) (world : World) (now : ℕ) (instance : Instance)
    (row : OutboundRow) where
  -- The events that are not of messages or files.
  record IsChange : Type 0 where
    pub no_comment : row.event ≢ "comment.created"
    pub no_note : row.event ≢ "work_note.created"
    pub no_file : row.event ≢ "attachment.scanned"

  write_body-WritesOnce :
      (client : Client) (link : Link) (es : List FieldMapEntry) (body : List (String × String))
      (conflict : Option Conflict) (s before : Store)
      → IsChange
      → body ≢ []
      → WritesOnce to_text world now instance row before
          (write_body to_text world now instance row client link es body conflict s).0
  unfolding write_body
  write_body-WritesOnce client link es body conflict s before change some_body = inr (
    update_record body,
    call-pure _ _ _,
    (some_body, change.no_comment, change.no_note, change.no_file),
  )

  push_state-WritesOnce :
      (client : Client) (link : Link) (es : List FieldMapEntry)
      (maps : Option (List (String × StateMapForType))) (ticket : Ticket) (s : Store)
      → IsChange
      → WritesOnce to_text world now instance row s
          (push_state to_text world now instance row client link es maps ticket s).0
  unfolding push_state
  push_state-WritesOnce client link es maps ticket s change =
      let value =
        state_value to_text world now instance row
          (outbound_state to_text world now instance row maps ticket) in
      elim (Bool-cases (value == "")) [
        | inl t ↦ rw t (inl refl)
        | inr f ↦ rw f (write_body-WritesOnce client link es _ none s s change (λ e. cc))
      ]

  send_fields-WritesOnce :
      (client : Client) (link : Link) (es : List FieldMapEntry) (ticket : Ticket) (changed : Bool)
      (kept dropped : List String) (s : Store)
      → IsChange
      → WritesOnce to_text world now instance row s
          (send_fields to_text world now instance row client link es ticket changed kept dropped
            s).0
  unfolding send_fields
  send_fields-WritesOnce client link es ticket changed kept dropped s change =
      let body = (translate_outbound to_text es ticket.values (some kept)).body in
      elim (Bool-cases (is_nil body)) [
        | inl t ↦ rw t (inl refl)
        | inr f ↦
            rw f
              (write_body-WritesOnce client link es body _ _ s change ((is_nil-eq-false body).0 f))
      ]

  push_fields-WritesOnce :
      (client : Client) (link : Link) (es : List FieldMapEntry) (ticket : Ticket) (fields : Fields)
      (s : Store)
      → IsChange
      → WritesOnce to_text world now instance row s
          (push_fields to_text world now instance row client link es ticket fields s).0
  unfolding push_fields
  push_fields-WritesOnce client link es ticket fields s change =
      let verdict = verdict_for to_text world now instance row link es fields ticket in
      elim (Bool-cases (any (λ e. is_crash (verdict e)) es)) [
        | inl t ↦ rw t (inl refl)
        | inr f ↦ rw f (send_fields-WritesOnce client link es ticket _ _ _ s change)
      ]

  push_event-WritesOnce :
      (client : Client) (link : Link) (es : List FieldMapEntry)
      (maps : Option (List (String × StateMapForType))) (ticket : Ticket) (fields : Fields)
      (s : Store)
      → WritesOnce to_text world now instance row s
          (push_event to_text world now instance row client link es maps ticket fields s).0
  unfolding push_event push_file
  push_event-WritesOnce client link es maps ticket fields s =
      elim (Bool-cases (row.event == "comment.created")) [
        | inl t ↦ rw t (
            push_message-WritesOnce to_text world now instance row client link es ticket comment s
              ((==_iff row.event _).0 t))
        | inr a ↦ elim (Bool-cases (row.event == "work_note.created")) [
          | inl t ↦
              rw (a, t)
                (push_message-WritesOnce to_text world now instance row client link es ticket
                  work_note s ((==_iff row.event _).0 t))
          | inr b ↦ elim (Bool-cases (row.event == "attachment.scanned")) [
            | inl t ↦
                rw (a, b, t)
                  (found_file-WritesOnce to_text world now instance row client link ticket _ s
                    ((==_iff row.event _).0 t) refl)
            | inr c ↦
                let change : IsChange = record {
                  no_comment = (==_false_iff row.event _).0 a;
                  no_note = (==_false_iff row.event _).0 b;
                  no_file = (==_false_iff row.event _).0 c;
                } in
                elim (Bool-cases (row.event == "ticket.transitioned")) [
                  | inl t ↦
                      rw (a, b, c, t) (push_state-WritesOnce client link es maps ticket s change)
                  | inr d ↦
                      rw (a, b, c, d) (push_fields-WritesOnce client link es ticket fields s change)
                ]
          ]
        ]
      ]

  -- The calls of a push: none, or the read of the record and then at most one write.
  abbrev pub ReadsThenWrites : Store → List Call → Type 0
  ReadsThenWrites s calls =
      (calls ≡ [])
      ⊎ ((rest : List Call) × (calls ≡ read_record ∷ rest)
          × WritesOnce to_text world now instance row s rest)

  push_read-WritesOnce :
      (client : Client) (link : Link) (es : List FieldMapEntry)
      (maps : Option (List (String × StateMapForType))) (ticket : Ticket) (o : Option Fields)
      (s : Store)
      → WritesOnce to_text world now instance row s
          (push_read to_text world now instance row client link es maps ticket o s).0
  unfolding push_read
  push_read-WritesOnce client link es maps ticket none s = inl refl
  push_read-WritesOnce client link es maps ticket (some fields) s =
      push_event-WritesOnce client link es maps ticket fields s

  reads :
      {A : Type 0} (r : Result A) (f : A → Push Pushed) (s : Store)
      → ((a : A) → WritesOnce to_text world now instance row s (f a).0)
      → ReadsThenWrites s (call read_record r >>= f).0
  reads (throws e) f s next = inr ([], refl, inl refl)
  reads (ok a) f s next = inr ((f a).0, refl, next a)

  push_linked-ReadsThenWrites :
      (link : Link) (s : Store)
      → ReadsThenWrites s (push_linked to_text world now instance row link s).0
  unfolding push_linked
  push_linked-ReadsThenWrites link s =
      let P = ReadsThenWrites s in
      let none_made : P [] = inl refl in
      silent->>= (loaded instance.active_field_map_id world.field_map) _ P
        (loaded-silent instance.active_field_map_id world.field_map) none_made
        (λ map.
          silent->>= (or_raise map (conflicting "no_active_field_map")) _ P (or_raise-silent map _)
            none_made
            (λ es.
              silent->>= (loaded instance.active_state_map_id world.state_map) _ P
                (loaded-silent instance.active_state_map_id world.state_map) none_made
                (λ maps. then_silent (world.ticket row.ticket_id) _ P none_made (λ ticket.
                  then_silent (world.client instance) _ P none_made (λ client.
                    reads (client.get_record instance.table_name link.external_sys_id) _ s
                      (λ fields. push_read-WritesOnce client link es maps ticket fields s))))))

  by_link-ReadsThenWrites :
      (o : Option Link) (s : Store)
      → ReadsThenWrites s (by_link to_text world now instance row o s).0
  unfolding by_link
  by_link-ReadsThenWrites none s = inl refl
  by_link-ReadsThenWrites (some link) s = elim (Bool-cases (is_unlinked link.state)) [
    | inl t ↦ rw t (inl refl)
    | inr f ↦ rw f (push_linked-ReadsThenWrites link s)
  ]

  -- A push makes no call, or reads the record and then writes to the instance at most once, whatever the
  -- instance answers. It uploads a file only for a row of a scanned attachment that is clean, public,
  -- within the limit of the instance and not sent to it before; a file over the limit is named in a
  -- journal entry only, and only where the instance asks for that. Any other journal entry is a message
  -- of XMS itself, not one that arrived by sync or was sent before, and a work note goes to the work
  -- notes. An update of the record has some field, and comes of none of these events.
  pub push-ReadsThenWrites :
      (s : Store) → ReadsThenWrites s (push to_text world now instance row s).0
  unfolding push by_link
  push-ReadsThenWrites s =
      by_link-ReadsThenWrites (link_by_ticket instance.id row.ticket_id s.links) s
