-- ===== src/Tickets.antt =====
-- The rules of tickets, src/domain/tickets.
pub mod StateMachine
pub mod CloseDiscipline
pub mod PriorityMatrix
pub mod ChangeWindow
