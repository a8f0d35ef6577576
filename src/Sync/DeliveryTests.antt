-- ===== src/Sync/DeliveryTests.antt =====
-- Tests of the translation of records and of the queue of the outbound half.
use xms_backend.Outbox.Dispatcher.{OutboxRow}
use xms_backend.Prelude.Json.{Value, string, object, Fields, field, end, get}
use xms_backend.Prelude.Maps.{lookup, insert}
use xms_backend.Prelude.{
  ◌≤◌, ◌<◌, String, true, false, none, some, some-injective, List, [], ◌∷◌, ◌==◌, ==_false_iff,
  string_key, Memᴰ, Distinct, contains, ◌≡◌, ◌↔◌, ◌⊎◌, inl, inr, refl, sym, ap, subst, Bool-cases,
}
use xms_backend.Sync.Calls.{not_found, snow_error, ok, throws, read_record, Client, World}
use xms_backend.Sync.Advance.{HasAdvanced, deliver_one-HasAdvanced}
use xms_backend.Sync.Delivery.{deliver_one}
use xms_backend.Sync.Failures.{IsFinal, IsGivenUp, IsRetried, deliver_one-throws}
use xms_backend.Sync.Push.{push, by_link, push_linked}
use xms_backend.Sync.Queue.{
  on_outbox, queue_all, queue_for, carry_out, is_outbound_event, instances_of,
}
use xms_backend.Sync.Sends.{ReadsThenWrites, push-ReadsThenWrites}
use xms_backend.Sync.SoundQueue.{HasSoundQueue}
use xms_backend.Sync.Steps.{Moment, Step, Reachable, reachable-HasSoundQueue}
use xms_backend.Sync.Told.{HasQueuedAll, on_outbox_tells}
use xms_backend.Sync.FieldMap.{FieldMapEntry, xms_fields, both, table, reverse_transform, text_of}
use xms_backend.Sync.FieldReport.{validate_field_map, inherited_names, is_in}
use xms_backend.Sync.Order.{before, place, sort}
use xms_backend.Sync.Outbound.{Store, Instance, untested, Link, linked, OutboundRow, pending}
use xms_backend.Sync.Repository.{new_row, insert_outbound, link_by_ticket}
use xms_backend.Sync.RoundTrip.{IsOneToOne, Holds, translate_inbound-translate_outbound}
use xms_backend.Sync.Rules.{bidirectional, decide_enqueue}
use xms_backend.Sync.Transforms.{carried, HasKeysOnce}
use xms_backend.Sync.Translate.{
  translate_outbound, outbound_entries, write_entry, write_value, translate_inbound,
  value_or_undefined,
}
use xms_backend.Sync.Validated.{IsValidMap, validate_field_map_iff}

abbrev text : Value → String
text v = "?"

abbrev category : FieldMapEntry
category = record {
  external = "u_category";
  xms = "category";
  direction = both;
  transform = table (("2", "network") ∷ ("1", "network") ∷ ("3", "software") ∷ []) none;
  sor = none;
}

abbrev network : List (String × Value)
network = ("category", string "network") ∷ []

abbrev case_fields : Fields
case_fields = field "u_category" (string "1") end

category-IsOneToOne : IsOneToOne (category ∷ [])
category-IsOneToOne = record {
  leaves_once = ((λ m. elim m [ ]), tt);
  written_once = ((λ m. elim m [ ]), tt);
  arrives_once = ((λ m. elim m [ ]), tt);
  keys_once = λ e m. elim m [
    | Memᴰ.head q ↦ subst (λ (z : FieldMapEntry). HasKeysOnce z.transform) (sym q) apart
    | Memᴰ.tail t ↦ elim t [ ]
  ];
}
  where
    apart : Distinct {A = String} ("2" ∷ "1" ∷ "3" ∷ [])
    apart = (two, (one, ((λ m. elim m [ ]), tt)))
      where
        two : ¬ Memᴰ {A = String} "2" ("1" ∷ "3" ∷ [])
        two (Memᴰ.head e) = (==_false_iff "2" "1").0 refl e
        two (Memᴰ.tail (Memᴰ.head e)) = (==_false_iff "2" "3").0 refl e
        two (Memᴰ.tail (Memᴰ.tail t)) = elim t [ ]

        one : ¬ Memᴰ {A = String} "1" ("3" ∷ [])
        one (Memᴰ.head e) = (==_false_iff "1" "3").0 refl e
        one (Memᴰ.tail t) = elim t [ ]

category-sent :
    lookup "category" (translate_outbound text (category ∷ []) network none).sent
    ≡ some (string "network")
unfolding translate_outbound outbound_entries write_entry write_value reverse_transform lookup
    insert sort place before
category-sent = refl

category-held : Holds case_fields (translate_outbound text (category ∷ []) network none).body
unfolding translate_outbound outbound_entries write_entry write_value reverse_transform lookup
    insert sort place before get
category-held name written e = elim (Bool-cases ("u_category" == name)) [
  | inl t ↦
      rw t (let q : some "1" ≡ some written = rw t at e in ap string (some-injective "1" written q))
  | inr f ↦ absurd (let q : none ≡ some written = rw f at e in cc)
]

translate_inbound-translate_outbound_example :
    (value_or_undefined (lookup "category" network) ≡ string "network")
    × ((read : Value) × (lookup "category"
            (translate_inbound text (category ∷ []) case_fields).patch
          ≡ some read)
        × (text_of text read ≡ carried text (string "network") category.transform))
translate_inbound-translate_outbound_example =
    translate_inbound-translate_outbound text (category ∷ []) network none case_fields category
      (string "network") category-IsOneToOne (Memᴰ.head refl) refl refl category-sent category-held

category_plain :
    (e : FieldMapEntry) → Memᴰ e (category ∷ []) → contains inherited_names e.external ≡ false
unfolding inherited_names
category_plain e (Memᴰ.head q) =
    subst (λ (z : FieldMapEntry). contains inherited_names z.external ≡ false) (sym q) refl
category_plain e (Memᴰ.tail m) = elim m [ ]

-- A version whose entry names no field passes under an inherited name.
inherited_passes : (is_in "toString" xms_fields ≡ true) × (is_in "to_string" xms_fields ≡ false)
unfolding is_in inherited_names lookup
inherited_passes = (refl, refl)

validate_field_map_iff_example :
    ((validate_field_map text (category ∷ []) [] (case_fields ∷ [])).ok ≡ true)
    ↔ IsValidMap text (category ∷ []) [] (case_fields ∷ [])
validate_field_map_iff_example =
    validate_field_map_iff text (category ∷ []) [] (case_fields ∷ []) category_plain

abbrev i1 : Instance
i1 = record {
  id = "i1";
  account_id = "a1";
  connector_type = "servicenow";
  mode = bidirectional;
  is_tripped = false;
  credential_state = untested;
  table_name = "sn_customerservice_case";
  active_field_map_id = some "m1";
  active_state_map_id = none;
  journal_public = "comments";
  sync_work_notes = false;
  attachment_limit_bytes = 1000;
  links_over_limit = true;
  clock_tolerance_seconds = 5;
  last_success_at = none;
  last_error_at = none;
  last_error = none;
}

abbrev l1 : Link
l1 = record {
  id = "l1";
  instance_id = "i1";
  ticket_id = "t1";
  external_sys_id = "s1";
  state = linked;
  last_outbound_at = none;
  last_outbound_hash = none;
  last_inbound_sys_updated_on = none;
  field_sor_overrides = [];
}

abbrev r1 : OutboundRow
r1 = record {
  id = 0;
  account_id = "a1";
  instance_id = "i1";
  ticket_id = "t1";
  link_id = "l1";
  event = "ticket.updated";
  outbox_id = some 7;
  payload = object end;
  origin = "user";
  correlation_id = "c1";
  status = pending;
  attempts = 4;
  next_attempt_at = 0;
  last_error = none;
  conflict = none;
  sent_at = none;
  created_at = 0;
}

abbrev one_row : Store
one_row = record {
  rows = r1 ∷ [];
  instances = i1 ∷ [];
  links = l1 ∷ [];
  journal_links = [];
  attachment_links = [];
  runs = [];
  dead_letters = [];
  next_id = 1;
}

-- An instance that is down.
abbrev down : Client
down = record {
  get_record = λ table sys_id. throws (snow_error 503 "unavailable");
  create_journal = λ table sys_id element text. throws (snow_error 503 "unavailable");
  upload_attachment = λ table sys_id name type body. throws (snow_error 503 "unavailable");
  update = λ table sys_id body. throws (snow_error 503 "unavailable");
}

abbrev outage : World
outage = record {
  field_map = λ id. ok (category ∷ []);
  state_map = λ id. ok [];
  ticket = λ id. ok (record {
    id = id;
    key = "CS0000001";
    type = "incident";
    state = "open";
    updated_at = 5;
    values = network;
  });
  message = λ kind id. none;
  attachment = λ id. none;
  object_body = λ key. throws (not_found "object");
  client = λ instance. ok down;
  from_snow_time = λ v. 0;
  sha256 = λ s. s;
}

push_down :
    push text outage 100 i1 r1 one_row ≡ (read_record ∷ [], throws (snow_error 503 "unavailable"))
unfolding push by_link push_linked link_by_ticket
push_down = refl

deliver_one-throws_example :
    ((deliver_one text outage 100 i1 r1 one_row).0 ≡ read_record ∷ [])
    × ((IsFinal (snow_error 503 "unavailable") ⊎ (4 ≤ r1.attempts))
          × IsGivenUp r1
              (snow_error 503 "unavailable")
              one_row
              (deliver_one text outage 100 i1 r1 one_row).1
        ⊎ ((¬ IsFinal (snow_error 503 "unavailable"))
            × (r1.attempts < 4)
            × IsRetried 100 r1
                (snow_error 503 "unavailable")
                one_row
                (deliver_one text outage 100 i1 r1 one_row).1))
deliver_one-throws_example =
    deliver_one-throws text outage 100 i1 i1 r1 one_row (read_record ∷ [])
      (snow_error 503 "unavailable") refl refl push_down

deliver_one-HasAdvanced_example : HasAdvanced r1 (deliver_one text outage 100 i1 r1 one_row).1.store
deliver_one-HasAdvanced_example =
    deliver_one-HasAdvanced text outage 100 i1 r1 one_row i1 refl refl (Memᴰ.head refl)

push-ReadsThenWrites_example :
    ReadsThenWrites text outage 100 i1 r1 one_row (push text outage 100 i1 r1 one_row).0
push-ReadsThenWrites_example = push-ReadsThenWrites text outage 100 i1 r1 one_row

abbrev no_rows : Store
no_rows = record one_row { rows = []; next_id = 0 }

abbrev updated : OutboxRow
updated = record {
  id = 7;
  account_id = "a1";
  aggregate = "ticket";
  aggregate_id = "t1";
  event_type = "ticket.updated";
  payload = object end;
  correlation_id = "c1";
  origin = "user";
  created_at = "2026-01-01T00:00:00Z";
  attempts = 0;
}

abbrev catalog : List (String × List String)
catalog = ("servicenow", "ticket.updated" ∷ []) ∷ []

-- An event queues one row, and the same event handed over again queues no other.
queued_once :
    (on_outbox text catalog 50 updated (on_outbox text catalog 40 updated no_rows)).rows
    ≡ new_row 40 0 (record {
      account_id = "a1";
      instance_id = "i1";
      ticket_id = "t1";
      link_id = "l1";
      event = "ticket.updated";
      outbox_id = some 7;
      payload = object end;
      origin = "user";
      correlation_id = "c1";
    })
      ∷ []
unfolding on_outbox queue_all queue_for carry_out is_outbound_event decide_enqueue insert_outbound
    link_by_ticket lookup
queued_once = refl

on_outbox_tells_example :
    (is_outbound_event updated.event_type ≡ true
      → HasQueuedAll text catalog 40 updated
          (instances_of updated no_rows.instances)
          no_rows
          (on_outbox text catalog 40 updated no_rows))
    × (is_outbound_event updated.event_type ≡ false
        → on_outbox text catalog 40 updated no_rows ≡ no_rows)
on_outbox_tells_example = on_outbox_tells text catalog 40 updated no_rows

abbrev quiet : Moment
quiet = record { store = no_rows; in_flight = [] }

reachable-HasSoundQueue_example : HasSoundQueue (on_outbox text catalog 40 updated no_rows)
reachable-HasSoundQueue_example =
    reachable-HasSoundQueue text
      (record { store = on_outbox text catalog 40 updated no_rows; in_flight = [] })
      (Reachable.step (Reachable.start quiet refl refl refl) (Step.queues catalog 40 updated quiet))
