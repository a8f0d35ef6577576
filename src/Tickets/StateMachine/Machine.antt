-- ===== src/Tickets/StateMachine/Machine.antt =====
-- src/domain/tickets/state-machine.ts: the types and the class `StateMachine`.
use xms_backend.Prelude.Maps.{lookup, insert}
use xms_backend.Prelude.{
  String, Bool, true, false, not, ◌||◌, Option, none, some, List, [], ◌∷◌, ◌++◌, filter, find, ◌==◌,
  if◌then◌else◌, string_key,
}

pub data StateKind : Type 0 where
  intake active paused resolved terminal : StateKind

pub record StateEffects : Type 0 where
  pub pause : Bool
  pub response_met : Bool
  pub resolve : Bool
  pub deploy : Bool
  pub close : Bool
  pub cancel : Bool

pub record StateDefinition : Type 0 where
  pub key : String
  pub label : String
  pub kind : StateKind
  pub effects : Option StateEffects

pub data TransitionRequirement : Type 0 where
  pause_reason resolution solution_link time_logged implementation_plan : TransitionRequirement
  backout_plan validation_notes change_window workaround_article approval : TransitionRequirement

pub record TransitionDefinition : Type 0 where
  pub from : String
  pub to : String
  pub label : Option String
  pub requires : Option (List TransitionRequirement)
  pub portal : Bool
  pub reopen : Bool

pub record StateMachineBody : Type 0 where
  pub type : String
  pub initial : String
  pub states : List StateDefinition
  pub transitions : List TransitionDefinition

-- `TransitionActor.kind`
pub data ActorKind : Type 0 where
  internal portal system : ActorKind

-- The fields that the constructor fills; `state_map` and `by_from` are `Map`s.
pub record StateMachine : Type 0 where
  pub body : StateMachineBody
  pub state_map : List (String × StateDefinition)
  pub by_from : List (String × List TransitionDefinition)

abbrev pub is_terminal_kind : StateKind → Bool
is_terminal_kind terminal = true
is_terminal_kind _ = false

abbrev pub is_paused_kind : StateKind → Bool
is_paused_kind paused = true
is_paused_kind _ = false

abbrev pub is_portal : ActorKind → Bool
is_portal portal = true
is_portal _ = false

abbrev pub or_empty {ℓ} : {A : Type ℓ} → Option (List A) → List A
or_empty none = []
or_empty (some xs) = xs

-- `new Map(body.states.map((state) => [state.key, state]))`: a later entry replaces an earlier one.
unfoldable pub state_entries :
    List (String × StateDefinition) → List StateDefinition → List (String × StateDefinition)
unfolding insert
state_entries m [] = m
state_entries m (s ∷ ss) = state_entries (insert s.key s m) ss

-- The loop that fills `byFrom`.
unfoldable pub group_by_from :
    List (String × List TransitionDefinition)
    → List TransitionDefinition
    → List (String × List TransitionDefinition)
unfolding insert lookup
group_by_from m [] = m
group_by_from m (t ∷ ts) = group_by_from (insert t.from (or_empty (lookup t.from m) ++ t ∷ []) m) ts

-- What the constructor makes of a body that `validateMachine` accepts.
unfoldable pub machine_of : StateMachineBody → StateMachine
unfolding state_entries group_by_from
machine_of body = record {
  body = body;
  state_map = state_entries [] body.states;
  by_from = group_by_from [] body.transitions;
}

unfoldable pub state : StateMachine → String → Option StateDefinition
unfolding lookup
state m key = lookup key m.state_map

abbrev pub kind_is_terminal : Option StateDefinition → Bool
kind_is_terminal none = false
kind_is_terminal (some s) = is_terminal_kind s.kind

unfoldable pub is_terminal : StateMachine → String → Bool
unfolding state
is_terminal m key = kind_is_terminal (state m key)

abbrev pub outgoing : StateMachine → String → List TransitionDefinition
outgoing m from = or_empty (lookup from m.by_from)

unfoldable pub transition : StateMachine → String → String → Option TransitionDefinition
unfolding lookup
transition m from to = find (λ t. t.to == to) (outgoing m from)

abbrev pub may_take : ActorKind → Option TransitionDefinition → Bool
may_take actor none = false
may_take actor (some t) = if is_portal actor then t.portal else true

unfoldable pub can_transition : StateMachine → String → String → ActorKind → Bool
can_transition m from to actor = may_take actor (transition m from to)

-- The test of `available`: `actor.kind !== 'portal' || candidate.portal`.
abbrev pub is_offered : ActorKind → TransitionDefinition → Bool
is_offered actor t = not (is_portal actor) || t.portal

unfoldable pub available : StateMachine → String → ActorKind → List TransitionDefinition
unfolding lookup
available m from actor = filter (is_offered actor) (outgoing m from)

abbrev pub requires_of : Option TransitionDefinition → List TransitionRequirement
requires_of none = []
requires_of (some t) = or_empty t.requires

unfoldable pub requirements : StateMachine → String → String → List TransitionRequirement
requirements m from to = requires_of (transition m from to)

abbrev pub no_effects : StateEffects
no_effects = record {
  pause = false;
  response_met = false;
  resolve = false;
  deploy = false;
  close = false;
  cancel = false;
}

abbrev effects_of : Option StateDefinition → StateEffects
effects_of none = no_effects
effects_of (some s) = elim s.effects [ none ↦ no_effects | some e ↦ e ]

unfoldable pub effects : StateMachine → String → StateEffects
unfolding state
effects m to = effects_of (state m to)
