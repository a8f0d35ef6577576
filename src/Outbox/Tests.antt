-- ===== src/Outbox/Tests.antt =====
-- The outbox at small inputs.
use xms_backend.Prelude.{
  String, true, false, none, some, List, [], ◌∷◌, ◌≡◌, ◌≢◌, ◌⊎◌, refl, arith, Memᴰ, map, ◌==◌,
  string_key,
}
use xms_backend.Outbox.Dispatcher.{
  StoredRow, Handler, DeadLetter, dispatch, update_row, subscribe, settle, process, claim, no_fault,
  connect_fails, commit_fails, row_fails, Outbox, tick, run_pass, OutboxEvent, write, new_row,
}
use xms_backend.Outbox.Delivery.{IsSettled, tick_keeps_events}
use xms_backend.Outbox.Tick.{commits}
use xms_backend.Outbox.Invariant.{IsSound}
use xms_backend.Outbox.Preservation.{tick-IsSound, write-IsSound}
use xms_backend.Outbox.Progress.{no_lock}
use xms_backend.Outbox.Liveness.{Schedule, run, every_row_dispatched, connect_failure_is_final}

abbrev event : String → OutboxEvent
event type = record {
  account_id = "a1";
  aggregate = "ticket";
  aggregate_id = "t1";
  event_type = type;
  payload = none;
  correlation_id = "c1";
  origin = none;
}

abbrev mailer : Handler
mailer = record {
  name = "mailer";
  matches = λ type. type == "sla.breached";
  handle = λ now row. some "no route";
}

abbrev indexer : Handler
indexer = record { name = "indexer"; matches = λ type. true; handle = λ now row. none }

abbrev handlers : List Handler
handlers = subscribe mailer (subscribe indexer [])

abbrev empty : Outbox
empty = record { rows = []; dead_letters = []; running = false }

abbrev breached : StoredRow
breached = new_row 1 "t0" (event "sla.breached")

abbrev created : StoredRow
created = new_row 2 "t0" (event "ticket.created")

abbrev two_rows : Outbox
two_rows = record { rows = breached ∷ created ∷ []; dead_letters = []; running = false }

abbrev five_ticks : Schedule
five_ticks =
    (no_fault, 1)
    ∷ (commit_fails, 2)
    ∷ (no_fault, 3)
    ∷ (no_fault, 4)
    ∷ (no_fault, 5)
    ∷ (no_fault, 6)
    ∷ []

tick_tests :
    ((dispatch handlers 1 breached.row).0 ≡ "indexer" ∷ "mailer" ∷ [])
    × ((dispatch handlers 1 created.row) ≡ ("indexer" ∷ [], none))
    × (map (λ r. r.row.attempts) (tick handlers 1 no_lock 100 no_fault two_rows).outbox.rows
        ≡ 1 ∷ 1 ∷ [])
    × (map (λ r. r.dispatched_at) (tick handlers 1 no_lock 100 no_fault two_rows).outbox.rows
        ≡ none ∷ some 1 ∷ [])
    × ((tick handlers 1 no_lock 100 (row_fails 2) two_rows).outbox ≡ two_rows)
    × ((tick handlers 1 no_lock 100 (row_fails 2) two_rows).processed ≡ some 1)
    × (map (λ l. l.attempts) (run handlers 99 five_ticks two_rows).dead_letters ≡ 5 ∷ [])
unfolding dispatch tick run_pass process settle update_row claim run
tick_tests = (refl, refl, refl, refl, refl, refl, refl)

empty-IsSound : IsSound empty
empty-IsSound = record {
  keys = tt;
  waiting = λ r m. elim m [ ];
  once = tt;
  given_up = λ l m. elim m [ ];
}

breached-IsSound : IsSound (write 1 "t0" (event "sla.breached") empty)
breached-IsSound = write-IsSound 1 "t0" (event "sla.breached") empty empty-IsSound (λ m. elim m [ ])

two_rows-IsSound : IsSound two_rows
unfolding write
two_rows-IsSound =
    write-IsSound 2 "t0" (event "ticket.created") (write 1 "t0" (event "sla.breached") empty)
      breached-IsSound (λ m. elim m [ Memᴰ.head q ↦ omega (arith, q) | Memᴰ.tail n ↦ elim n [ ] ])

tick-IsSound_example : IsSound (tick handlers 1 no_lock 100 no_fault two_rows).outbox
tick-IsSound_example = tick-IsSound handlers 1 no_lock 100 two_rows two_rows-IsSound no_fault

tick_keeps_events_example :
    let after = (tick handlers 1 no_lock 100 no_fault two_rows).outbox in
    let claimed = claim no_lock 100 two_rows.rows in
    ((l : DeadLetter) → Memᴰ l two_rows.dead_letters → Memᴰ l after.dead_letters)
    × (commits no_fault claimed ≡ true
        → Memᴰ breached.row claimed
        → (s : StoredRow) × Memᴰ s after.rows
          × IsSettled 1 (dispatch handlers 1 breached.row).1 breached s after.dead_letters)
    × (((commits no_fault claimed ≡ false) ⊎ (¬ Memᴰ breached.row claimed))
        → Memᴰ breached after.rows)
tick_keeps_events_example =
    tick_keeps_events handlers 1 no_lock 100 no_fault two_rows breached two_rows-IsSound.keys refl
      (Memᴰ.head refl)

every_row_dispatched_example :
    (map
        (λ r. r.row.id)
        (run handlers 99 five_ticks (record two_rows { rows = breached ∷ [] })).rows
      ≡ map (λ r. r.row.id) (breached ∷ []))
    × ((r : StoredRow)
        → Memᴰ r (run handlers 99 five_ticks (record two_rows { rows = breached ∷ [] })).rows
        → r.dispatched_at ≢ none)
unfolding write
every_row_dispatched_example =
    every_row_dispatched handlers 99 five_ticks (record two_rows { rows = breached ∷ [] })
      breached-IsSound refl (refl, (refl, (refl, (refl, (refl, (refl, tt)))))) (omega arith)

connect_failure_is_final_example :
    run handlers 99 ((connect_fails, 0) ∷ five_ticks) two_rows ≡ record two_rows { running = true }
connect_failure_is_final_example = connect_failure_is_final handlers 99 0 two_rows five_ticks refl
