-- ===== src/Tickets/StateMachine/Validate.antt =====
-- src/domain/tickets/state-machine.ts: `validateMachine`, and the constructor's use of it. A
-- problem is a value with the keys that its message names, in place of the message.
use Prim.Native.String
use xms_backend.Prelude.Texts.{is_snake_case}
use xms_backend.Prelude.{
  ℕ, zero, suc, String, Bool, true, false, not, ◌&&◌, none, some, List, [], ◌∷◌, ◌++◌, map, filter,
  any, all, contains, add, report, length, is_nil, ◌==◌, if◌then◌else◌, ◌⊎◌, inl, inr, string_key,
}
use xms_backend.Tickets.StateMachine.Machine.{
  StateDefinition, TransitionRequirement, pause_reason, TransitionDefinition, StateMachineBody,
  StateMachine, is_terminal_kind, is_paused_kind, machine_of,
}

pub data Problem : Type 0 where
  no_states no_terminal : Problem
  not_snake_case duplicate_state initial_undefined unknown_source unknown_target : String → Problem
  self_transition terminal_outgoing paused_without_reason : String → Problem
  unreachable terminal_unreachable : String → Problem
  duplicate_transition : String → Problem

-- `${transition.from}>${transition.to}`
abbrev pub pair : TransitionDefinition → String
pair t = String.◌++◌ t.from (String.◌++◌ ">" t.to)

-- The loop over the states: `keys` holds the keys seen.
unfoldable pub state_problems : List String → List StateDefinition → List Problem
unfolding is_snake_case
state_problems keys [] = []
state_problems keys (s ∷ ss) =
    report (not (is_snake_case s.key)) (not_snake_case s.key)
    ++ (report (contains keys s.key) (duplicate_state s.key) ++ state_problems (add keys s.key) ss)

-- `keys` after the loop
unfoldable pub state_keys : List String → List StateDefinition → List String
state_keys keys [] = keys
state_keys keys (s ∷ ss) = state_keys (add keys s.key) ss

-- The loop over the transitions: `seen` holds the pairs seen.
unfoldable pub transition_problems :
    List String → List String → List TransitionDefinition → List Problem
transition_problems keys seen [] = []
transition_problems keys seen (t ∷ ts) =
    report (not (contains keys t.from)) (unknown_source t.from)
    ++ (report (not (contains keys t.to)) (unknown_target t.to)
        ++ (report (t.from == t.to) (self_transition t.from)
            ++ (report (contains seen (pair t)) (duplicate_transition (pair t))
                ++ transition_problems keys (add seen (pair t)) ts)))

abbrev pub is_pause_reason : TransitionRequirement → Bool
is_pause_reason pause_reason = true
is_pause_reason _ = false

-- `t.requires?.includes('pause_reason')`
abbrev pub asks_reason : TransitionDefinition → Bool
asks_reason t = elim t.requires [ none ↦ false | some rs ↦ any is_pause_reason rs ]

-- The loop over the states that looks at the transitions out of and into each.
unfoldable pub kind_problems : List TransitionDefinition → List StateDefinition → List Problem
kind_problems ts [] = []
kind_problems ts (s ∷ ss) =
    report (is_terminal_kind s.kind && any (λ t. t.from == s.key) ts) (terminal_outgoing s.key)
    ++ (report (is_paused_kind s.kind && not (all asks_reason (filter (λ t. t.to == s.key) ts)))
          (paused_without_reason s.key)
        ++ kind_problems ts ss)

-- The inner loop of the search: the targets of the transitions from `current` are pushed.
unfoldable pub push_targets : List TransitionDefinition → String → List String → List String
push_targets [] current stack = stack
push_targets (t ∷ ts) current stack =
    push_targets ts current (if t.from == current then t.to ∷ stack else stack)

-- The search from the initial state, with the top of `stack` at its head. The fuel bounds the
-- rounds of the `while` loop.
unfoldable pub search_from : List TransitionDefinition → ℕ → List String → List String → List String
unfolding push_targets
search_from ts fuel reached [] = reached
search_from ts zero reached (current ∷ stack) = reached
search_from ts (suc fuel) reached (current ∷ stack) = elim (contains reached current) [
  | true ↦ search_from ts fuel reached stack
  | false ↦ search_from ts fuel (add reached current) (push_targets ts current stack)
]

-- A round pops one entry, and a transition is pushed once, when its source is first reached.
unfoldable pub reachable : StateMachineBody → List String
unfolding search_from
reachable body = search_from body.transitions (suc (length body.transitions)) [] (body.initial ∷ [])

unfoldable pub unreached : List String → (String → Problem) → List String → List Problem
unreached reached problem [] = []
unreached reached problem (k ∷ ks) =
    report (not (contains reached k)) (problem k) ++ unreached reached problem ks

abbrev pub terminal_keys : List StateDefinition → List String
terminal_keys ss = map (λ s. s.key) (filter (λ s. is_terminal_kind s.kind) ss)

-- What the loops report on a body with states.
unfoldable pub all_problems : StateMachineBody → List Problem
unfolding state_problems state_keys transition_problems kind_problems reachable unreached
all_problems body =
    let keys = state_keys [] body.states in
    state_problems [] body.states
    ++ (report (not (contains keys body.initial)) (initial_undefined body.initial)
        ++ (transition_problems keys [] body.transitions
            ++ (report (is_nil (terminal_keys body.states)) no_terminal
                ++ (kind_problems body.transitions body.states
                    ++ (unreached (reachable body) unreachable keys
                        ++ unreached (reachable body) terminal_unreachable
                            (terminal_keys body.states))))))

unfoldable pub validate_machine : StateMachineBody → List Problem
unfolding all_problems
validate_machine body = if is_nil body.states then no_states ∷ [] else all_problems body

-- The constructor: a body with problems throws a `StateMachineError` that holds them.
unfoldable pub new_machine : StateMachineBody → List Problem ⊎ StateMachine
unfolding validate_machine machine_of
new_machine body =
    let problems = validate_machine body in
    if is_nil problems then inr (machine_of body) else inl problems
