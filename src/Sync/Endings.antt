-- ===== src/Sync/Endings.antt =====
-- src/modules/connectors/sync.worker.ts, `push`: every push that does not throw settles its row.
use xms_backend.Prelude.Json.{Value, Fields}
use xms_backend.Prelude.{
  ℕ, String, Bool, Option, none, some, List, [], ◌∷◌, any, is_nil, ◌==◌, string_key, ◌≡◌, inl, inr,
  Bool-cases,
}
use xms_backend.Sync.Calls.{
  update_record, read_record, conflicting, ok, or_raise, Ticket, Client, World,
}
use xms_backend.Sync.Changes.{
  after_update, write_body, push_state, send_fields, push_fields, verdict_for, is_crash,
  outbound_state, state_value, mark_conflict,
}
use xms_backend.Sync.FieldMap.{FieldMapEntry}
use xms_backend.Sync.Files.{attachment_id, attachment_of, push_file}
use xms_backend.Sync.Outbound.{Store, Instance, OutboundRow, Link, Conflict, comment, work_note}
use xms_backend.Sync.Push.{is_unlinked, loaded, push_event, push_read, push_linked, by_link, push}
use xms_backend.Sync.Repository.{link_by_ticket}
use xms_backend.Sync.Settle.{Pushed}
use xms_backend.Sync.StateMap.{StateMapForType}
use xms_backend.Sync.Translate.{translate_outbound}
use xms_backend.Sync.Settled.{
  IsSettled, HasSameQueue, Settles->>=, Settles-call, Settles-throws, settle_sent-IsSettled,
  settle_skip-IsSettled, same_queue, after_touch, after_echo, Ends, ended, push_message-Ends,
  found_file-Ends,
}

module _ (to_text : Value → String) (world : World) (now : ℕ) (instance : Instance)
    (row : OutboundRow) where
  write_body-Ends :
      (client : Client) (link : Link) (es : List FieldMapEntry) (body : List (String × String))
      (conflict : Option Conflict) (before s : Store)
      → HasSameQueue before s
      → Ends to_text world now instance row before
          (write_body to_text world now instance row client link es body conflict s).1
  unfolding write_body
  write_body-Ends client link es body conflict before s same =
      Settles-call (λ p. IsSettled row before p.store) (update_record body) _
        (after_update to_text world now instance row link es conflict s)
        (λ updated.
          settle_sent-IsSettled to_text world now instance row conflict before _
            (after_echo to_text world now instance row before s link.id es updated same))

  push_state-Ends :
      (client : Client) (link : Link) (es : List FieldMapEntry)
      (maps : Option (List (String × StateMapForType))) (ticket : Ticket) (s : Store)
      → Ends to_text world now instance row s
          (push_state to_text world now instance row client link es maps ticket s).1
  unfolding push_state
  push_state-Ends client link es maps ticket s =
      let value =
        state_value to_text world now instance row
          (outbound_state to_text world now instance row maps ticket) in
      elim (Bool-cases (value == "")) [
        | inl t ↦ rw t (
            ended to_text world now instance row s _
              (settle_skip-IsSettled to_text world now instance row _ _ none s s (same_queue s)))
        | inr f ↦ rw f (write_body-Ends client link es _ none s s (same_queue s))
      ]

  mark_conflict-same :
      (link : Link) (dropped : List String) (s : Store)
      → HasSameQueue s (mark_conflict to_text world now instance row link dropped s)
  mark_conflict-same link dropped s = elim (Bool-cases (is_nil dropped)) [
    | inl t ↦ rw t (same_queue s)
    | inr f ↦ rw f (after_touch s s link.id _ (same_queue s))
  ]

  send_fields-Ends :
      (client : Client) (link : Link) (es : List FieldMapEntry) (ticket : Ticket) (changed : Bool)
      (kept dropped : List String) (s : Store)
      → Ends to_text world now instance row s
          (send_fields to_text world now instance row client link es ticket changed kept dropped
            s).1
  unfolding send_fields
  send_fields-Ends client link es ticket changed kept dropped s =
      let body = (translate_outbound to_text es ticket.values (some kept)).body in
      let same = mark_conflict-same link dropped s in
      elim (Bool-cases (is_nil body)) [
        | inr f ↦ rw f (write_body-Ends client link es body _ s _ same)
        | inl t ↦ rw t (elim (Bool-cases (is_nil dropped)) [
          | inl u ↦ rw u (
              ended to_text world now instance row s _
                (settle_skip-IsSettled to_text world now instance row _ _ _ s s (same_queue s)))
          | inr u ↦ rw u (
              ended to_text world now instance row s _ (
                settle_skip-IsSettled to_text world now instance row _ _ _ s _
                  (after_touch s s link.id _ (same_queue s))))
        ])
      ]

  push_fields-Ends :
      (client : Client) (link : Link) (es : List FieldMapEntry) (ticket : Ticket) (fields : Fields)
      (s : Store)
      → Ends to_text world now instance row s
          (push_fields to_text world now instance row client link es ticket fields s).1
  unfolding push_fields
  push_fields-Ends client link es ticket fields s =
      let verdict = verdict_for to_text world now instance row link es fields ticket in
      elim (Bool-cases (any (λ e. is_crash (verdict e)) es)) [
        | inl t ↦ rw t (Settles-throws _ _)
        | inr f ↦ rw f (send_fields-Ends client link es ticket _ _ _ s)
      ]

  push_event-Ends :
      (client : Client) (link : Link) (es : List FieldMapEntry)
      (maps : Option (List (String × StateMapForType))) (ticket : Ticket) (fields : Fields)
      (s : Store)
      → Ends to_text world now instance row s
          (push_event to_text world now instance row client link es maps ticket fields s).1
  unfolding push_event push_file
  push_event-Ends client link es maps ticket fields s =
      elim (Bool-cases (row.event == "comment.created")) [
        | inl t ↦
            rw t (push_message-Ends to_text world now instance row client link es ticket comment s)
        | inr a ↦ elim (Bool-cases (row.event == "work_note.created")) [
          | inl t ↦
              rw (a, t)
                (push_message-Ends to_text world now instance row client link es ticket work_note s)
          | inr b ↦ elim (Bool-cases (row.event == "attachment.scanned")) [
            | inl t ↦
                rw (a, b, t)
                  (found_file-Ends to_text world now instance row client link ticket
                    (attachment_of to_text world now instance row
                      (attachment_id to_text world now instance row))
                    s)
            | inr c ↦ elim (Bool-cases (row.event == "ticket.transitioned")) [
              | inl t ↦ rw (a, b, c, t) (push_state-Ends client link es maps ticket s)
              | inr d ↦ rw (a, b, c, d) (push_fields-Ends client link es ticket fields s)
            ]
          ]
        ]
      ]

  push_read-Ends :
      (client : Client) (link : Link) (es : List FieldMapEntry)
      (maps : Option (List (String × StateMapForType))) (ticket : Ticket) (o : Option Fields)
      (s : Store)
      → Ends to_text world now instance row s
          (push_read to_text world now instance row client link es maps ticket o s).1
  unfolding push_read
  push_read-Ends client link es maps ticket none s = ended to_text world now instance row s _ (
      settle_skip-IsSettled to_text world now instance row _ _ none s _
        (after_touch s s link.id _ (same_queue s)))
  push_read-Ends client link es maps ticket (some fields) s =
      push_event-Ends client link es maps ticket fields s

  push_linked-Ends :
      (link : Link) (s : Store)
      → Ends to_text world now instance row s (push_linked to_text world now instance row link s).1
  unfolding push_linked
  push_linked-Ends link s =
      let P : Pushed → Type 0 = λ p. IsSettled row s p.store in
      let maps_of = loaded instance.active_state_map_id world.state_map in
      let map_of = loaded instance.active_field_map_id world.field_map in
      Settles->>= P map_of.0 map_of.1 _ (λ map.
        let found = or_raise map (conflicting "no_active_field_map") in
        Settles->>= P found.0 found.1 _ (λ es. Settles->>= P maps_of.0 maps_of.1 _ (λ maps.
          Settles->>= P [] (world.ticket row.ticket_id) _ (λ ticket.
            Settles->>= P [] (world.client instance) _ (λ client.
              Settles->>= P (read_record ∷ [])
                (client.get_record instance.table_name link.external_sys_id) _
                (λ fields. push_read-Ends client link es maps ticket fields s))))))

  by_link-Ends :
      (o : Option Link) (s : Store)
      → Ends to_text world now instance row s (by_link to_text world now instance row o s).1
  unfolding by_link
  by_link-Ends none s =
      ended to_text world now instance row s _
        (settle_skip-IsSettled to_text world now instance row _ _ none s s (same_queue s))
  by_link-Ends (some link) s = elim (Bool-cases (is_unlinked link.state)) [
    | inl t ↦ rw t (
        ended to_text world now instance row s _
          (settle_skip-IsSettled to_text world now instance row _ _ none s s (same_queue s)))
    | inr f ↦ rw f (push_linked-Ends link s)
  ]

  -- A push that ends without an error has settled its row: the rows are those from before, but that the row
  -- is no longer pending and has one attempt more.
  pub push-Ends :
      (s : Store) (p : Pushed)
      → (push to_text world now instance row s).1 ≡ ok p
      → IsSettled row s p.store
  unfolding push
  push-Ends s = by_link-Ends (link_by_ticket instance.id row.ticket_id s.links) s
