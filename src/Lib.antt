-- ===== src/Lib.antt =====
-- The rules of xms-backend, a service desk backend: the tickets of client accounts, the clocks
-- of their service levels, the billing of the time spent on them, and their sync with external
-- systems of record. The repository is a NestJS application. Its rules are pure functions under
-- src/domain, which the services under src/modules and the jobs under src/worker call inside
-- database transactions; a change of state writes an event into the outbox table in the same
-- transaction, and the dispatcher of the worker hands each event to its handlers afterwards.
--
-- What stands where, with the paths of the repository:
--   Tickets.StateMachine    src/domain/tickets/state-machine.ts: the catalog of states and
--                           transitions (Machine), its validation with the search for unreachable
--                           states (Validate), and laws (Search, Loops, WellFormed, Queries, Safety)
--   Tickets.CloseDiscipline src/domain/tickets/close-discipline.ts, and closeDiscipline of
--                           src/modules/tickets/tickets.service.ts (Catalog; laws in Requirements,
--                           CatalogLaws and TimeGate)
--   Tickets.PriorityMatrix  src/domain/tickets/priority-matrix.ts
--   Tickets.ChangeWindow    src/domain/tickets/change-window.ts
--   Sla.Engine              src/domain/sla/engine.ts: the clocks (laws in Latch, Runs, WallClock)
--   Sla.Policy              src/domain/sla/policy.ts: the check of a policy body
--   Sla.TicketMove          src/modules/tickets/tickets.service.ts, transition: what a transition of
--                           a ticket does to its clocks (PerClock, Guarantees)
--   RateLimit.Limiter       src/common/rate-limit/rate-limiter.ts
--   Outbox.Dispatcher       src/worker/outbox-dispatcher.ts and src/common/outbox/outbox.service.ts
--                           (the loop as a map in Pass, tick in Tick, laws in Delivery, Invariant,
--                           Preservation and Liveness)
--   Calendar.Business       src/domain/calendar/business-calendar.ts: the constructor, isWorkingTime,
--                           classify, nextWorkingInstant, addMinutes and minutesBetween (laws in Days,
--                           Spans, RoundTrip, Opening, Next and Classes)
--   Calendar.Hours          validateHours of the same file (laws in Grouping and Tidy)
--   Sync.Rules, StateMap    src/domain/sync/rules.ts and the state maps of src/domain/sync/maps.ts (laws
--                           in Ownership, Enqueue and Sharing)
--   Sync.FieldMap           the transforms of src/domain/sync/maps.ts; whole records in Translate, the
--                           report on a map in FieldReport (laws in Transforms, Records, Arrivals,
--                           RoundTrip, Targets, Samples and Validated)
--   Sync.Outbound           the tables of src/modules/connectors/connectors.repository.ts for the
--                           outbound half, and their statements in Repository
--   Sync.Push               src/modules/connectors/sync.worker.ts, push, with its branches in Messages,
--                           Files and Changes, its ends in Settle and what it reads in Calls (laws in
--                           Writes, WritesOf, Sends, Settled and Endings)
--   Sync.Queue, Delivery    onOutbox, deliverOne and deliverPending of the same file (laws in Told,
--                           Failures, Advance, SoundQueue, Insertion and Steps)
--   Billing.Period          src/domain/time/billing.ts: the states of a billing period
--   Billing.Handler         src/modules/time/time.module.ts, transitionBillingPeriod, with the
--                           versioned update of src/db/repository.base.ts and the job of
--                           src/worker/period-jobs.ts
--   Prelude                 what these share: tests and keys, lists, maps, texts, signed numbers
--                           and JSON values
--
-- How they meet: the effects of the states of Tickets.StateMachine are what Sla.TicketMove acts on,
-- and its requirements are what Tickets.CloseDiscipline checks; the events that Sla.TicketMove and
-- Billing.Handler give are written to the outbox. A row of Outbox.Dispatcher is what Sync.Queue takes,
-- with the decisions of Sync.Rules; Sync.Push sends through the maps of Sync.FieldMap. The clocks of
-- Sla.Engine run on a calendar, which is the wall clock or, in the program, a business calendar.
--
-- How the source becomes definitions. A function of src/domain is a function by clauses; a class is a
-- record of its fields with a function for each method; a handler is a function from the rows that its
-- transaction reads to the rows that it writes, the events and the error that it throws. A problem
-- message is a constructor with the values that the message names. An instant is its number of
-- milliseconds, a natural number, and the clock is an argument. A Map is the list of its entries, a Set
-- the list of its members. A validator of an untyped body takes a JSON value. A text is the list of its
-- code points, and its length counts UTF-16 units.
--
-- Loops are structural recursion. The one loop on fuel is the search of validateMachine: a state
-- is pushed at most once for each transition besides the first, so the number of transitions and one
-- more is enough. The loops of a business calendar stop after 5000 days, as in the
-- source: the search for an instant gives none there, where the source throws a CalendarError. Dates are
-- numbers of days, so that the next date is the next number.
--
-- Parameters: the ServiceNow client and what a push reads (a record of operations that may throw), SHA-256,
-- the zone of a business calendar (local times and their instants, from Intl),
-- the calendar of the clocks (a record of operations; the wall clock is an instance), the
-- handlers of the outbox, Date.parse, String of a JSON value, the order of numbers in a policy,
-- the identifier that a job draws, and the summary of a billing period.
--
-- Not modelled: the HTTP controllers and their authentication, the SQL of the repositories beyond the
-- statements written out in Outbox and Billing, the audit rows, and pure input and output (mail, object storage, images,
-- logging, PDF and ICS files). Amounts of money, which the source computes in floating point, are left out of
-- Billing. The functions that every JavaScript object inherits, such as toString, are no values here: a
-- table, a record or a set of fields is not read under their names, and only the test `in` of
-- validateFieldMap knows these. The inbound half of src/modules/connectors/sync.worker.ts, the report of validateStateMap,
-- src/domain/calendar/after-hours.ts and the budget rules of src/domain/time/budget.ts are not modelled.
pub mod Prelude
pub mod Billing
pub mod Calendar
pub mod Outbox
pub mod RateLimit
pub mod Sla
pub mod Sync
pub mod Tickets
