-- ===== src/Sla/TicketMove.antt =====
-- src/modules/tickets/tickets.service.ts, `transition`: what a move of a ticket from one state to
-- another does to the ticket's clocks, and the events that it writes about them. The clocks of the
-- `Map` are the list of its values; `calendar_of` stands for the calendars that the service loads.
pub mod PerClock
pub mod Guarantees
use xms_backend.Prelude.{
  ℕ, String, Bool, true, false, not, ◌&&◌, ◌||◌, Option, none, some, List, [], ◌∷◌, ◌++◌, max, map,
  any, if◌then◌else◌,
}
use xms_backend.Tickets.StateMachine.Machine.{StateEffects}
use xms_backend.Sla.Engine.{
  Calendar, ClockKind, response, resolution, Clock, is_none, latch, pause, resume, mark_met,
}

pub data ClockEvent : Type 0 where
  breached : ClockKind → ClockEvent
  resumed : ℕ → ClockEvent
  paused : ClockEvent

-- The loop that latches every clock; a clock that newly latches is an `sla.breached` event.
unfoldable pub latch_pass : ℕ → List Clock → List Clock × List ClockEvent
latch_pass now [] = ([], [])
latch_pass now (c ∷ cs) =
    let (c', latched) = latch c now in
    let (cs', events) = latch_pass now cs in
    (c' ∷ cs', if latched then breached c.kind ∷ events else events)

-- The loop that resumes every clock, with the largest number of excluded minutes.
unfoldable pub resume_pass : (String → Calendar) → ℕ → ℕ → List Clock → List Clock × ℕ
resume_pass calendar_of now excluded [] = ([], excluded)
resume_pass calendar_of now excluded (c ∷ cs) =
    let (c', minutes) = resume c (calendar_of c.calendar_id) now in
    let (cs', most) = resume_pass calendar_of now (max excluded minutes) cs in (c' ∷ cs', most)

abbrev pub is_response : ClockKind → Bool
is_response response = true
is_response resolution = false

abbrev pub meet_response : ℕ → Clock → Clock
meet_response now c = if is_response c.kind then mark_met c now else c

abbrev pub meet_resolution : ℕ → Clock → Clock
meet_resolution now c = if is_response c.kind then c else mark_met c now

pub record Move : Type 0 where
  pub from_effects : StateEffects
  pub to_effects : StateEffects
  -- `before.first_response_at` is set
  pub responded : Bool
  -- `actor.kind === 'internal'`
  pub by_internal : Bool
  pub at : ℕ

-- The step that leaves a pausing state: resume, then latch again.
unfoldable pub leave_pause :
    (String → Calendar) → Move → List Clock × List ClockEvent → List Clock × List ClockEvent
unfolding latch_pass resume_pass
leave_pause calendar_of m (clocks, events) =
    let (running, excluded) = resume_pass calendar_of m.at 0 clocks in
    let (latched, more) = latch_pass m.at running in
    if m.from_effects.pause && not m.to_effects.pause
    then (latched, events ++ resumed excluded ∷ more)
    else (clocks, events)

-- The step that enters a pausing state.
unfoldable pub enter_pause : Move → List Clock × List ClockEvent → List Clock × List ClockEvent
enter_pause m (clocks, events) =
    if m.to_effects.pause && not m.from_effects.pause
    then (map (λ c. pause c m.at) clocks, events ++ paused ∷ [])
    else (clocks, events)

-- The two steps that mark clocks met.
unfoldable pub meet : Move → List Clock → List Clock
meet m clocks =
    let answered =
      if m.to_effects.response_met && not m.responded && m.by_internal
      then map (meet_response m.at) clocks
      else clocks in
    if m.to_effects.resolve then map (meet_resolution m.at) answered else answered

unfoldable pub move_clocks : (String → Calendar) → Move → List Clock → List Clock × List ClockEvent
unfolding latch_pass leave_pause enter_pause meet
move_clocks calendar_of m clocks =
    let (settled, events) = enter_pause m (leave_pause calendar_of m (latch_pass m.at clocks)) in
    (meet m settled, events)

-- `assignments.sla_response_breached` and `assignments.sla_resolution_breached`
unfoldable pub response_breached : List Clock → Bool
response_breached clocks = any (λ c. is_response c.kind && not (is_none c.breached_at)) clocks

unfoldable pub resolution_breached : List Clock → Bool
resolution_breached clocks =
    any (λ c. not (is_response c.kind) && not (is_none c.breached_at)) clocks
