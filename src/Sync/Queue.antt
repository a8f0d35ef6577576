-- ===== src/Sync/Queue.antt =====
-- src/modules/connectors/sync.worker.ts, `onOutbox`: an event of the outbox becomes a row for each instance
-- that is to be told of it.
use xms_backend.Prelude.Json.{Value, property}
use xms_backend.Prelude.Maps.{lookup}
use xms_backend.Prelude.{
  ℕ, String, Bool, not, Option, none, some, List, [], ◌∷◌, filter, is_none, contains, ◌==◌,
  if◌then◌else◌, string_key,
}
use xms_backend.Outbox.Dispatcher.{OutboxRow}
use xms_backend.Sync.FieldMap.{nullish}
use xms_backend.Sync.Outbound.{
  Store, Instance, Link, Run, RunOutcome, skipped_reflection, skipped_policy,
}
use xms_backend.Sync.Repository.{insert_run, insert_outbound, link_by_ticket}
use xms_backend.Sync.Rules.{
  EnqueueInput, EnqueueDecision, enqueue, own_origin, wrong_mode, unsubscribed, work_notes_off,
  internal_attachment, no_link, decide_enqueue,
}

abbrev pub outbound_events : List String
outbound_events =
    "ticket.updated" ∷ "ticket.transitioned" ∷ "comment.created" ∷ "work_note.created"
    ∷ "attachment.scanned" ∷ []

unfoldable pub is_outbound_event : String → Bool
is_outbound_event event = contains outbound_events event

abbrev pub listed : Option (List String) → List String
listed none = []
listed (some events) = events

abbrev pub instances_of : OutboxRow → List Instance → List Instance
instances_of row instances = filter (λ (i : Instance). i.account_id == row.account_id) instances

module _ (to_text : Value → String) where
  -- `String(row.payload.visibility ?? '')`
  abbrev pub visibility_of : Value → String
  visibility_of payload =
      let v = property "visibility" payload in if nullish v then "" else to_text v

  abbrev pub enqueue_input :
      List (String × List String) → OutboxRow → Instance → Option Link → EnqueueInput
  enqueue_input subscriptions row instance link = record {
    event = row.event_type;
    origin = some row.origin;
    instance_id = instance.id;
    mode = instance.mode;
    subscribed_events = listed (lookup instance.connector_type subscriptions);
    has_link = not (is_none link);
    sync_work_notes = instance.sync_work_notes;
    attachment_visibility = some (visibility_of row.payload);
  }

  abbrev pub refused_run : OutboxRow → Instance → RunOutcome → String → Run
  refused_run row instance outcome reason = record {
    instance_id = instance.id;
    ticket_id = row.aggregate_id;
    outbox_id = some row.id;
    attempt = 1;
    outcome = outcome;
    error_text = none;
    reason = some reason;
  }

  -- What a decision does for one instance; `link!` is there where the decision is to enqueue.
  unfoldable pub carry_out :
      ℕ → OutboxRow → Instance → Option Link → EnqueueDecision → Store → Store
  carry_out now row instance link own_origin s =
      insert_run (refused_run row instance skipped_reflection "own_origin") s
  carry_out now row instance link work_notes_off s =
      insert_run (refused_run row instance skipped_policy "work_notes_off") s
  carry_out now row instance link internal_attachment s =
      insert_run (refused_run row instance skipped_policy "internal_attachment") s
  carry_out now row instance link wrong_mode s = s
  carry_out now row instance link unsubscribed s = s
  carry_out now row instance link no_link s = s
  carry_out now row instance none enqueue s = s
  carry_out now row instance (some l) enqueue s =
      insert_outbound now
        (record {
          account_id = row.account_id;
          instance_id = instance.id;
          ticket_id = row.aggregate_id;
          link_id = l.id;
          event = row.event_type;
          outbox_id = some row.id;
          payload = row.payload;
          origin = row.origin;
          correlation_id = row.correlation_id;
        })
        s

  unfoldable pub queue_for : List (String × List String) → ℕ → OutboxRow → Instance → Store → Store
  unfolding carry_out
  queue_for subscriptions now row instance s =
      let link = link_by_ticket instance.id row.aggregate_id s.links in
      carry_out now row instance link
        (decide_enqueue (enqueue_input subscriptions row instance link)) s

  unfoldable pub queue_all :
      List (String × List String) → ℕ → OutboxRow → List Instance → Store → Store
  unfolding queue_for
  queue_all subscriptions now row [] s = s
  queue_all subscriptions now row (i ∷ is) s =
      queue_all subscriptions now row is (queue_for subscriptions now row i s)

  unfoldable pub on_outbox : List (String × List String) → ℕ → OutboxRow → Store → Store
  unfolding queue_all
  on_outbox subscriptions now row s =
      if is_outbound_event row.event_type
      then queue_all subscriptions now row (instances_of row s.instances) s
      else s
