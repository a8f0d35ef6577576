-- ===== src/Sync/Delivery.antt =====
-- src/modules/connectors/sync.worker.ts, `deliverOne` and `deliverPending`: the queued rows on their way out.
-- A delivery takes one instant. When it throws, its transaction is undone and a second one settles the
-- row. The counts of the text that a pass returns are a record.
use xms_backend.Prelude.Json.{Value}
use xms_backend.Prelude.{
  ℕ, suc, String, Option, none, some, List, [], ◌∷◌, ◌++◌, filter, find, contains, ◌==◌,
  if◌then◌else◌, string_key,
}
use xms_backend.Sync.Calls.{
  Failure, not_found, describe, is_terminal, is_unauthorised, Result, ok, throws, Call, World,
}
use xms_backend.Sync.Outbound.{
  Store, Instance, invalid, OutboundRow, pending, dead_lettered, Run, RunOutcome, retried,
  run_dead_lettered, DeadLetter,
}
use xms_backend.Sync.Repository.{
  insert_run, insert_dead_letter, settle_outbound, touch_instance, is_armed, claim_outbound,
}
use xms_backend.Sync.Push.{push}
use xms_backend.Sync.Rules.{NextAttempt, due, given_up, invalid_date, outbound_next_attempt}
use xms_backend.Sync.Settle.{Outcome, was_sent, was_skipped, Pushed}

-- How a delivery ends.
pub data Delivered : Type 0 where
  delivered skips fails retries deferred : Delivered

pub record Delivery : Type 0 where
  pub result : Delivered
  pub store : Store

abbrev pub as_delivered : Outcome → Delivered
as_delivered was_sent = delivered
as_delivered was_skipped = skips

abbrev pub set_given_up : ℕ → String → OutboundRow → OutboundRow
set_given_up attempts text r = record r {
  status = dead_lettered;
  attempts = attempts;
  last_error = some text;
}

abbrev pub set_retry : ℕ → ℕ → String → OutboundRow → OutboundRow
set_retry attempts next text r = record r {
  status = pending;
  attempts = attempts;
  next_attempt_at = next;
  last_error = some text;
}

abbrev pub failed_run : Instance → OutboundRow → RunOutcome → String → Run
failed_run instance row outcome text = record {
  instance_id = instance.id;
  ticket_id = row.ticket_id;
  outbox_id = row.outbox_id;
  attempt = suc row.attempts;
  outcome = outcome;
  error_text = some text;
  reason = none;
}

-- The credential of an instance that answers 401 or 403 is invalid.
unfoldable pub doubt_credential : Instance → Failure → Store → Store
doubt_credential instance e s =
    if is_unauthorised e
    then touch_instance instance.id (λ i. record i { credential_state = invalid }) s
    else s

abbrev pub dead_letter_of : Instance → OutboundRow → Failure → DeadLetter
dead_letter_of instance row e = record {
  account_id = instance.account_id;
  correlation_id = row.correlation_id;
  outbound_id = row.id;
  outbox_id = row.outbox_id;
  error = describe e;
  attempts = suc row.attempts;
}

unfoldable pub give_up : ℕ → Instance → OutboundRow → Failure → Store → Delivery
give_up now instance row e s = record {
  result = fails;
  store =
      touch_instance instance.id
        (λ i. record i { last_error = some (describe e); last_error_at = some now })
        (insert_run (failed_run instance row run_dead_lettered (describe e)) (
          settle_outbound row.id (set_given_up (suc row.attempts) (describe e))
            (insert_dead_letter (dead_letter_of instance row e) s)));
}

unfoldable pub try_later : ℕ → Instance → OutboundRow → Failure → Store → Delivery
try_later next instance row e s = record {
  result = retries;
  store =
      insert_run (failed_run instance row retried (describe e))
        (settle_outbound row.id (set_retry (suc row.attempts) next (describe e)) s);
}

-- The second transaction. A date that is not valid does not come up: `attempts` is at least one.
unfoldable pub settle_failure :
    ℕ → Instance → OutboundRow → Failure → NextAttempt → Store → Delivery
unfolding give_up try_later
settle_failure now instance row e given_up s = give_up now instance row e s
settle_failure now instance row e invalid_date s = record { result = fails; store = s }
settle_failure now instance row e (due next) s = try_later next instance row e s

abbrev pub next_attempt : Failure → ℕ → ℕ → NextAttempt
next_attempt e attempts now = if is_terminal e then given_up else outbound_next_attempt attempts now

unfoldable pub on_failure : ℕ → Instance → OutboundRow → Failure → Store → Delivery
unfolding settle_failure doubt_credential
on_failure now instance row e s =
    settle_failure now instance row e (next_attempt e (suc row.attempts) now)
      (doubt_credential instance e s)

-- What comes of the first transaction, over the store from before it.
unfoldable pub conclude : ℕ → Instance → OutboundRow → Store → Result Pushed → Delivery
unfolding on_failure
conclude now instance row s (ok p) = record { result = as_delivered p.outcome; store = p.store }
conclude now instance row s (throws e) = on_failure now instance row e s

-- What a pass has counted, and the calls that it has made.
pub record Tally : Type 0 where
  pub sent : ℕ
  pub skipped : ℕ
  pub retried : ℕ
  pub failed : ℕ

abbrev pub count_in : Delivered → Tally → Tally
count_in delivered t = record t { sent = suc t.sent }
count_in skips t = record t { skipped = suc t.skipped }
count_in retries t = record t { retried = suc t.retried }
count_in fails t = record t { failed = suc t.failed }
count_in deferred t = t

pub record Pass : Type 0 where
  pub calls : List Call
  pub tally : Tally
  pub store : Store

abbrev pub find_instance : String → List Instance → Option Instance
find_instance id instances = find (λ (i : Instance). i.id == id) instances

module _ (to_text : Value → String) (world : World) (now : ℕ) where
  -- The first transaction, which reads the instance again.
  unfoldable pub deliver_fresh :
      Instance → OutboundRow → Store → Option Instance → List Call × Delivery
  unfolding conclude on_failure
  deliver_fresh instance row s none =
      ([], on_failure now instance row (not_found "connector_instance") s)
  deliver_fresh instance row s (some fresh) =
      let p = push to_text world now fresh row s in
      if is_armed fresh
      then (p.0, conclude now instance row s p.1)
      else ([], record { result = deferred; store = s })

  unfoldable pub deliver_one : Instance → OutboundRow → Store → List Call × Delivery
  unfolding deliver_fresh
  deliver_one instance row s = deliver_fresh instance row s (find_instance instance.id s.instances)

  unfoldable pub deliver_rows : Instance → List OutboundRow → Pass → Pass
  unfolding deliver_one
  deliver_rows instance [] p = p
  deliver_rows instance (r ∷ rs) p =
      let d = deliver_one instance r p.store in
      deliver_rows instance rs
        (record { calls = p.calls ++ d.0; tally = count_in d.1.result p.tally; store = d.1.store })

  unfoldable pub deliver_instances : List Instance → Pass → Pass
  unfolding deliver_rows
  deliver_instances [] p = p
  deliver_instances (i ∷ is) p =
      let skip = deliver_instances is p in
      let next = deliver_instances is (deliver_rows i (claim_outbound i.id now p.store) p) in
      if is_armed i then next else skip

  -- A pass over the instances of the accounts that are live.
  unfoldable pub deliver_pending : List String → Store → Pass
  unfolding deliver_instances
  deliver_pending accounts s =
      deliver_instances (filter (λ (i : Instance). contains accounts i.account_id) s.instances)
        (record {
          calls = [];
          tally = record { sent = 0; skipped = 0; retried = 0; failed = 0 };
          store = s;
        })
