-- ===== src/Sync/Settle.antt =====
-- src/modules/connectors/sync.worker.ts, `settleSent`, `settleSkip` and `echoGuard`: how a push ends. The
-- instants that one push takes are one instant. The audit entry of a sent row is not kept.
use Prim.Native.String.{◌++◌ as ◌^^◌}
use xms_backend.Prelude.Json.{Value, Fields, get}
use xms_backend.Prelude.Maps.{lookup}
use xms_backend.Prelude.{
  ℕ, suc, String, not, Option, none, some, List, [], ◌∷◌, map, filter, string_key,
}
use xms_backend.Sync.Calls.{World}
use xms_backend.Sync.FieldMap.{FieldMapEntry, is_inward, text_of}
use xms_backend.Sync.Order.{sort}
use xms_backend.Sync.Outbound.{
  Store, Instance, OutboundRow, Conflict, Run, RunOutcome, success, sent, skipped,
}
use xms_backend.Sync.Repository.{settle_outbound, insert_run, touch_instance, touch_link}
use xms_backend.Sync.Translate.{translate_inbound, value_or_undefined}

pub data Outcome : Type 0 where
  was_sent was_skipped : Outcome

pub record Pushed : Type 0 where
  pub outcome : Outcome
  pub store : Store

abbrev pub run_of : Instance → OutboundRow → RunOutcome → Option String → Run
run_of instance row outcome reason = record {
  instance_id = instance.id;
  ticket_id = row.ticket_id;
  outbox_id = row.outbox_id;
  attempt = suc row.attempts;
  outcome = outcome;
  error_text = none;
  reason = reason;
}

abbrev pub set_sent : ℕ → ℕ → Option Conflict → OutboundRow → OutboundRow
set_sent now attempts conflict r = record r {
  status = sent;
  attempts = attempts;
  sent_at = some now;
  last_error = none;
  conflict = conflict;
}

abbrev pub set_skipped : ℕ → Option Conflict → OutboundRow → OutboundRow
set_skipped attempts conflict r = record r {
  status = skipped;
  attempts = attempts;
  conflict = conflict;
}

unfoldable pub settle_sent : ℕ → Instance → OutboundRow → Option Conflict → Store → Pushed
settle_sent now instance row conflict s = record {
  outcome = was_sent;
  store =
      touch_instance instance.id (λ i. record i { last_success_at = some now; last_error = none })
        (insert_run (run_of instance row success none)
          (settle_outbound row.id (set_sent now (suc row.attempts) conflict) s));
}

unfoldable pub settle_skip :
    Instance → OutboundRow → RunOutcome → String → Option Conflict → Store → Pushed
settle_skip instance row outcome reason conflict s = record {
  outcome = was_skipped;
  store =
      insert_run (run_of instance row outcome (some reason))
        (settle_outbound row.id (set_skipped (suc row.attempts) conflict) s);
}

module _ (to_text : Value → String) where
  -- `${key}=${...}` for each of the sorted keys, joined by line feeds
  abbrev pub canonical : List String → List (String × Value) → String
  canonical [] fields = ""
  canonical (k ∷ []) fields = k ^^ "=" ^^ text_of to_text (value_or_undefined (lookup k fields))
  canonical (k ∷ l ∷ ks) fields =
      k
      ^^ "="
      ^^ text_of to_text (value_or_undefined (lookup k fields))
      ^^ "\n"
      ^^ canonical (l ∷ ks) fields

  unfoldable pub outbound_hash : (String → String) → List (String × Value) → String
  outbound_hash sha256 fields = sha256 (canonical (sort (map (λ f. f.0) fields)) fields)

  -- The fields that the map writes, as the record reads after the write.
  unfoldable pub echo_of : List FieldMapEntry → Fields → List (String × Value)
  echo_of es after_write =
      map
        (λ (e : FieldMapEntry). (
          e.xms,
          value_or_undefined (lookup e.xms (translate_inbound to_text es after_write).patch),
        ))
        (filter (λ (e : FieldMapEntry). not (is_inward e.direction)) es)

  unfoldable pub echo_guard : World → ℕ → String → List FieldMapEntry → Fields → Store → Store
  echo_guard world now link_id es after_write s =
      touch_link link_id
        (λ l. record l {
          last_outbound_at = some now;
          last_outbound_hash = some (outbound_hash world.sha256 (echo_of es after_write));
          last_inbound_sys_updated_on =
              some (world.from_snow_time (get "sys_updated_on" after_write));
        })
        s
