-- ===== src/Outbox/Dispatcher.antt =====
-- src/worker/outbox-dispatcher.ts: one pass of the dispatcher over the rows of sys.outbox. The table
-- is the list of its rows in the order of their ids, and what the database does is written out: the
-- claim, the updates by id, and the rollback that undoes them. The instant of a pass is an argument.
-- What a handler does is a parameter, since handlers are registered from outside: at an instant it
-- returns nothing, or the message of the error that it throws.
use xms_backend.Prelude.Json.{Value, object, end}
use xms_backend.Prelude.{
  ℕ, ◌+◌, String, Bool, true, false, not, ◌&&◌, Option, none, some, List, [], ◌∷◌, ◌++◌, map,
  filter, leb, ◌==◌, number_key, if◌then◌else◌, take, is_none,
}

pub record OutboxRow : Type 0 where
  pub id : ℕ
  pub account_id : String
  pub aggregate : String
  pub aggregate_id : String
  pub event_type : String
  pub payload : Value
  pub correlation_id : String
  pub origin : String
  pub created_at : String
  pub attempts : ℕ

-- An error as `last_error` and a dead letter keep it: the text `name: message`.
pub record HandlerError : Type 0 where
  pub name : String
  pub message : String

-- A row of the table: the claimed columns and the two that a pass writes besides `attempts`.
pub record StoredRow : Type 0 where
  pub row : OutboxRow
  pub dispatched_at : Option ℕ
  pub last_error : Option HandlerError

pub record Handler : Type 0 where
  pub name : String
  pub matches : String → Bool
  pub handle : ℕ → OutboxRow → Option String

-- Handlers are asked in the order in which they subscribed.
abbrev pub subscribe : Handler → List Handler → List Handler
subscribe handler handlers = handlers ++ handler ∷ []

-- What `insert into sys.dead_letters` writes; the queue is 'outbox' in each.
pub record DeadLetter : Type 0 where
  pub account_id : String
  pub correlation_id : String
  pub outbox_id : ℕ
  pub event_type : String
  pub payload : Value
  pub error : HandlerError
  pub attempts : ℕ

abbrev pub max_attempts : ℕ
max_attempts = 5

-- The loop of `dispatch`. 'ok' is none, and the text `name: message` is its two parts. The names
-- are those of the handlers that it calls, in order.
unfoldable pub dispatch : List Handler → ℕ → OutboxRow → List String × Option HandlerError
dispatch [] now row = ([], none)
dispatch (h ∷ hs) now row =
    let rest = dispatch hs now row in
    if h.matches row.event_type
    then elim (h.handle now row) [
      | none ↦ (h.name ∷ rest.0, rest.1)
      | some message ↦ (h.name ∷ [], some (record { name = h.name; message = message }))
    ]
    else rest

-- `update sys.outbox set ... where id = $1`
unfoldable pub update_row : ℕ → (StoredRow → StoredRow) → List StoredRow → List StoredRow
update_row id set rows = map (λ r. if r.row.id == id then set r else r) rows

abbrev pub set_dispatched : ℕ → StoredRow → StoredRow
set_dispatched now r = record {
  row = record r.row { attempts = r.row.attempts + 1 };
  dispatched_at = some now;
  last_error = r.last_error;
}

abbrev pub set_dead : ℕ → ℕ → HandlerError → StoredRow → StoredRow
set_dead now attempts error r = record {
  row = record r.row { attempts = attempts };
  dispatched_at = some now;
  last_error = some error;
}

abbrev pub set_failed : ℕ → HandlerError → StoredRow → StoredRow
set_failed attempts error r = record {
  row = record r.row { attempts = attempts };
  dispatched_at = r.dispatched_at;
  last_error = some error;
}

abbrev pub dead_letter : OutboxRow → HandlerError → ℕ → DeadLetter
dead_letter row error attempts = record {
  account_id = row.account_id;
  correlation_id = row.correlation_id;
  outbox_id = row.id;
  event_type = row.event_type;
  payload = row.payload;
  error = error;
  attempts = attempts;
}

-- A pass over the claimed rows: the table and the dead letters inside the transaction, the handlers
-- called for each row, the number of rows done, and whether a query threw.
pub record Pass : Type 0 where
  pub rows : List StoredRow
  pub dead_letters : List DeadLetter
  pub calls : List (ℕ × List String)
  pub processed : ℕ
  pub threw : Bool

module _ (handlers : List Handler) (now : ℕ) where
  -- The queries for one claimed row, by the outcome of its dispatch.
  unfoldable pub settle : OutboxRow → Option HandlerError → Pass → Pass
  settle row none p = record p { rows = update_row row.id (set_dispatched now) p.rows }
  settle row (some error) p =
      let attempts = row.attempts + 1 in
      if leb max_attempts attempts
      then record p {
        rows = update_row row.id (set_dead now attempts error) p.rows;
        dead_letters = p.dead_letters ++ dead_letter row error attempts ∷ [];
      }
      else record p { rows = update_row row.id (set_failed attempts error) p.rows }

  -- `for (const row of claimed.rows)`; a query for a row of `fails` throws, which ends the loop.
  unfoldable pub process : (ℕ → Bool) → List OutboxRow → Pass → Pass
  unfolding dispatch settle
  process fails [] p = p
  process fails (row ∷ rest) p =
      let d = dispatch handlers now row in
      let called = record p { calls = p.calls ++ (row.id, d.0) ∷ [] } in
      let settled = settle row d.1 called in
      let done = process fails rest (record settled { processed = settled.processed + 1 }) in
      if fails row.id then record called { threw = true } else done

-- The claim: undispatched rows in id order, less those that another dispatcher has locked.
unfoldable pub claim : (ℕ → Bool) → ℕ → List StoredRow → List OutboxRow
claim locked limit rows =
    take limit
      (map (λ r. r.row) (filter (λ r. is_none r.dispatched_at && not (locked r.row.id)) rows))

-- Where the database fails a pass, if it does.
pub data Fault : Type 0 where
  no_fault connect_fails claim_fails commit_fails : Fault
  row_fails : ℕ → Fault

pub record Outbox : Type 0 where
  pub rows : List StoredRow
  pub dead_letters : List DeadLetter
  pub running : Bool

-- What `tick` leaves and returns: a rejected promise has no number.
pub record Ticked : Type 0 where
  pub outbox : Outbox
  pub processed : Option ℕ
  pub calls : List (ℕ × List String)

abbrev pub start : Outbox → Pass
start o = record {
  rows = o.rows;
  dead_letters = o.dead_letters;
  calls = [];
  processed = 0;
  threw = false;
}

abbrev pub fails_at : Fault → ℕ → Bool
fails_at (row_fails id) at = id == at
fails_at _ at = false

-- `commit`, or `rollback` where a query threw; `finally` resets `running` either way.
abbrev pub finish : Bool → Outbox → Pass → Ticked
finish commits o p = record {
  outbox =
      if commits && not p.threw
      then record { rows = p.rows; dead_letters = p.dead_letters; running = false }
      else record o { running = false };
  processed = some p.processed;
  calls = p.calls;
}

module _ (handlers : List Handler) (now : ℕ) (locked : ℕ → Bool) (limit : ℕ) where
  -- The body of `tick` after its guard. `connect` is called before the `try`.
  unfoldable pub run_pass : Fault → Outbox → Ticked
  unfolding process claim
  run_pass connect_fails o = record {
    outbox = record o { running = true };
    processed = none;
    calls = [];
  }
  run_pass claim_fails o = finish false o (start o)
  run_pass commit_fails o =
      finish false o
        (process handlers now (fails_at commit_fails) (claim locked limit o.rows) (start o))
  run_pass (row_fails id) o =
      finish true o
        (process handlers now (fails_at (row_fails id)) (claim locked limit o.rows) (start o))
  run_pass no_fault o =
      finish true o (process handlers now (fails_at no_fault) (claim locked limit o.rows) (start o))

  unfoldable pub tick : Fault → Outbox → Ticked
  unfolding run_pass
  tick fault o =
      let pass = run_pass fault o in
      if o.running then record { outbox = o; processed = some 0; calls = [] } else pass

-- src/common/outbox/outbox.service.ts: the event of a domain change, and the row that `write` inserts for
-- it under the id that the identity column gives. The columns of a row that no pass reads, such as
-- the causation id, are left out.
pub record OutboxEvent : Type 0 where
  pub account_id : String
  pub aggregate : String
  pub aggregate_id : String
  pub event_type : String
  pub payload : Option Value
  pub correlation_id : String
  pub origin : Option String

abbrev pub payload_of : Option Value → Value
payload_of none = object end
payload_of (some v) = v

abbrev pub origin_of : Option String → String
origin_of none = "user"
origin_of (some s) = s

abbrev pub new_row : ℕ → String → OutboxEvent → StoredRow
new_row id created_at event = record {
  row = record {
    id = id;
    account_id = event.account_id;
    aggregate = event.aggregate;
    aggregate_id = event.aggregate_id;
    event_type = event.event_type;
    payload = payload_of event.payload;
    correlation_id = event.correlation_id;
    origin = origin_of event.origin;
    created_at = created_at;
    attempts = 0;
  };
  dispatched_at = none;
  last_error = none;
}

unfoldable pub write : ℕ → String → OutboxEvent → Outbox → Outbox
write id created_at event o = record o { rows = o.rows ++ new_row id created_at event ∷ [] }
