-- ===== src/Billing/Period.antt =====
-- src/domain/time/billing.ts: the states that an account's month moves through, and
-- the actions that move it.
use xms_backend.Prelude.{ℕ, Bool, List, [], ◌∷◌, filter, any, nat_beq, if◌then◌else◌}

pub data BillingState : Type 0 where
  opened submitted approved locked exported : BillingState

pub data BillingAction : Type 0 where
  submit reopen approve lock mark_exported : BillingAction

pub record BillingRule : Type 0 where
  pub from : List BillingState
  pub to : BillingState

-- `BILLING_TRANSITIONS`, and its keys in their order
abbrev pub billing_transitions : BillingAction → BillingRule
billing_transitions submit = record { from = opened ∷ []; to = submitted }
billing_transitions reopen = record { from = submitted ∷ []; to = opened }
billing_transitions approve = record { from = submitted ∷ []; to = approved }
billing_transitions lock = record { from = opened ∷ submitted ∷ approved ∷ []; to = locked }
billing_transitions mark_exported = record { from = locked ∷ []; to = exported }

abbrev pub billing_actions : List BillingAction
billing_actions = submit ∷ reopen ∷ approve ∷ lock ∷ mark_exported ∷ []

abbrev pub state_code : BillingState → ℕ
state_code opened = 0
state_code submitted = 1
state_code approved = 2
state_code locked = 3
state_code exported = 4

-- `rule.from.includes(state)`
abbrev pub leaves : BillingState → BillingAction → Bool
leaves state action =
    any (λ s. nat_beq (state_code s) (state_code state)) (billing_transitions action).from

pub data TransitionResult : Type 0 where
  moved : BillingState → TransitionResult
  invalid_transition : List BillingAction → TransitionResult

unfoldable pub billing_transition : BillingState → BillingAction → TransitionResult
billing_transition state action =
    if leaves state action
    then moved (billing_transitions action).to
    else invalid_transition (filter (leaves state) billing_actions)
