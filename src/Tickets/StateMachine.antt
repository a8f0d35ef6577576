-- ===== src/Tickets/StateMachine.antt =====
-- src/domain/tickets/state-machine.ts: a state machine as data, the check of a machine's body, and
-- the questions that the ticket service asks of a machine. An optional flag that is absent is
-- `false`, since the code only tests it. The two `Map`s are the lists of their entries.
pub mod Machine
pub mod Validate
pub mod Search
mod Loops
pub mod WellFormed
pub mod Queries
pub mod Safety
mod Tests
