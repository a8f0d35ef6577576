-- ===== src/Tickets/StateMachine/Tests.antt =====
-- A small incident machine, and the theorems of state machines at it.
use xms_backend.Prelude.{
  String, Bool, true, false, Option, none, some, List, [], ◌∷◌, filter, Memᴰ, ◌≡◌, refl, ◌↔◌, inr,
}
use xms_backend.Tickets.StateMachine.Machine.{
  TransitionDefinition, StateMachine, ActorKind, is_offered, or_empty, StateMachineBody,
  StateDefinition, StateKind, no_effects, intake, active, paused, resolved, terminal, machine_of,
  internal, portal, state, is_terminal, can_transition, available, requirements, pause_reason,
  resolution, transition, TransitionRequirement, effects,
}
use xms_backend.Tickets.StateMachine.Validate.{
  validate_machine, new_machine, reachable, unreachable, terminal_outgoing,
}
use xms_backend.Tickets.StateMachine.Search.{Reach, reachable_iff}
use xms_backend.Tickets.StateMachine.WellFormed.{IsWellFormed, validate_machine_iff}
use xms_backend.Tickets.StateMachine.Queries.{leaves, new_machine_answers}
use xms_backend.Tickets.StateMachine.Safety.{terminal_absorbs, paused_needs_reason}

abbrev plain : String → StateKind → StateDefinition
plain key kind = record { key = key; label = key; kind = kind; effects = none }

abbrev on_hold : StateDefinition
on_hold = record {
  key = "on_hold";
  label = "On hold";
  kind = paused;
  effects = some (record no_effects { pause = true });
}

abbrev move : String → String → Option (List TransitionRequirement) → Bool → TransitionDefinition
move from to requires by_portal = record {
  from = from;
  to = to;
  label = none;
  requires = requires;
  portal = by_portal;
  reopen = false;
}

abbrev hold : TransitionDefinition
hold = move "in_progress" "on_hold" (some (pause_reason ∷ [])) false

abbrev incident : StateMachineBody
incident = record {
  type = "incident";
  initial = "new";
  states =
      plain "new" intake
      ∷ plain "in_progress" active
      ∷ on_hold
      ∷ plain "resolved" resolved
      ∷ plain "closed" terminal
      ∷ [];
  transitions =
      move "new" "in_progress" none false
      ∷ hold
      ∷ move "on_hold" "in_progress" none false
      ∷ move "in_progress" "resolved" (some (resolution ∷ [])) false
      ∷ move "resolved" "in_progress" none true
      ∷ move "resolved" "closed" none true
      ∷ [];
}

incident_valid : validate_machine incident ≡ []
unfolding validate_machine
incident_valid = refl

-- The same machine with a way out of `closed`, and without the way to `on_hold`.
broken_problems :
    validate_machine (record incident {
      transitions =
          move "new" "in_progress" none false
          ∷ move "in_progress" "resolved" none false
          ∷ move "resolved" "closed" none true
          ∷ move "closed" "new" none true
          ∷ [];
    })
    ≡ terminal_outgoing "closed" ∷ unreachable "on_hold" ∷ []
unfolding validate_machine
broken_problems = refl

incident-IsWellFormed : IsWellFormed incident
incident-IsWellFormed = (validate_machine_iff incident).0 incident_valid

queries :
    (can_transition (machine_of incident) "resolved" "closed" portal ≡ true)
    × (can_transition (machine_of incident) "in_progress" "on_hold" portal ≡ false)
    × (can_transition (machine_of incident) "new" "closed" internal ≡ false)
    × (requirements (machine_of incident) "in_progress" "on_hold" ≡ pause_reason ∷ [])
    × ((effects (machine_of incident) "on_hold").pause ≡ true)
    × ((effects (machine_of incident) "gone").pause ≡ false)
unfolding can_transition requirements transition machine_of effects
queries = (refl, refl, refl, refl, refl, refl)

reachable_iff_example :
    Memᴰ "closed" (reachable incident) ↔ Reach incident.transitions incident.initial "closed"
reachable_iff_example = reachable_iff incident "closed"

validate_machine_iff_example : (validate_machine incident ≡ []) ↔ IsWellFormed incident
validate_machine_iff_example = validate_machine_iff incident

new_machine_answers_example :
    (IsWellFormed incident → (m : StateMachine) × (new_machine incident ≡ inr m))
    × ((m : StateMachine)
        → new_machine incident ≡ inr m
        → IsWellFormed incident
          × ((from : String) (actor : ActorKind)
              → available m from actor
                ≡ filter (is_offered actor) (filter (leaves from) incident.transitions))
          × ((from to : String) (actor : ActorKind)
              → (can_transition m from to actor ≡ true)
                ↔ ((t : TransitionDefinition) × Memᴰ t (available m from actor) × (t.to ≡ to)))
          × ((t : TransitionDefinition)
              → Memᴰ t incident.transitions
              → requirements m t.from t.to ≡ or_empty t.requires))
new_machine_answers_example = new_machine_answers incident

closed_is_terminal : is_terminal (machine_of incident) "closed" ≡ true
unfolding is_terminal machine_of
closed_is_terminal = refl

terminal_absorbs_example :
    (available (machine_of incident) "closed" internal ≡ [])
    × (can_transition (machine_of incident) "closed" "new" internal ≡ false)
terminal_absorbs_example =
    terminal_absorbs incident incident-IsWellFormed "closed" closed_is_terminal internal "new"

may_hold : can_transition (machine_of incident) "in_progress" "on_hold" internal ≡ true
unfolding can_transition transition machine_of
may_hold = refl

hold_state : state (machine_of incident) "on_hold" ≡ some on_hold
unfolding state machine_of
hold_state = refl

paused_needs_reason_example :
    Memᴰ pause_reason (requirements (machine_of incident) "in_progress" "on_hold")
paused_needs_reason_example =
    paused_needs_reason incident incident-IsWellFormed "in_progress" "on_hold" internal
      {s = on_hold} may_hold hold_state refl
