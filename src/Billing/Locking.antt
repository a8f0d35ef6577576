-- ===== src/Billing/Locking.antt =====
-- src/domain/time/billing.ts: the actions that a refusal names, and the states after a lock.
use xms_backend.Prelude.{
  true, false, List, [], ◌∷◌, filter, ◌≡◌, ◌≢◌, ◌↔◌, ◌⊎◌, inl, inr, refl, sym, subst, Bool-cases,
  Memᴰ, mem_of_mem-filter, mem-filter_of_mem,
}
use xms_backend.Billing.Period.{
  BillingState, opened, submitted, approved, locked, exported, BillingAction, submit, reopen,
  approve, lock, mark_exported, billing_transitions, billing_actions, leaves, TransitionResult,
  moved, invalid_transition, billing_transition,
}

mem-billing_actions : (a : BillingAction) → Memᴰ a billing_actions
mem-billing_actions submit = Memᴰ.head refl
mem-billing_actions reopen = Memᴰ.tail (Memᴰ.head refl)
mem-billing_actions approve = Memᴰ.tail (Memᴰ.tail (Memᴰ.head refl))
mem-billing_actions lock = Memᴰ.tail (Memᴰ.tail (Memᴰ.tail (Memᴰ.head refl)))
mem-billing_actions mark_exported = Memᴰ.tail (Memᴰ.tail (Memᴰ.tail (Memᴰ.tail (Memᴰ.head refl))))

abbrev pub Succeeds : BillingState → BillingAction → Type 0
Succeeds state action = (to : BillingState) × (billing_transition state action ≡ moved to)

Succeeds-of_leaves :
    (state : BillingState) (a : BillingAction) → leaves state a ≡ true → Succeeds state a
unfolding billing_transition
Succeeds-of_leaves state a h = ((billing_transitions a).to, rw h refl)

leaves_of_Succeeds :
    (state : BillingState) (a : BillingAction) → Succeeds state a → leaves state a ≡ true
unfolding billing_transition
leaves_of_Succeeds state a w = elim (Bool-cases (leaves state a)) [
  | inl t ↦ t
  | inr f ↦ absurd (let (to, h) = w in let g = rw f at h in cc)
]

-- Every action either works in a state or is refused with a list of actions, and that list holds
-- exactly the actions that work in the state.
pub refusal_lists_what_works :
    (state : BillingState) (action : BillingAction)
    → Succeeds state action
      ⊎ ((allowed : List BillingAction) × (billing_transition state action
            ≡ invalid_transition allowed)
          × ((a : BillingAction) → Memᴰ a allowed ↔ Succeeds state a))
unfolding billing_transition
refusal_lists_what_works state action = elim (Bool-cases (leaves state action)) [
  | inl t ↦ inl (Succeeds-of_leaves state action t)
  | inr f ↦ inr (
    filter (leaves state) billing_actions,
    refused state action f,
    λ a. (
      λ m. Succeeds-of_leaves state a (mem_of_mem-filter (leaves state) billing_actions m).1,
      λ w.
          mem-filter_of_mem (leaves state) billing_actions (mem-billing_actions a)
            (leaves_of_Succeeds state a w),
    ),
  )
]
  where
    refused :
        (state : BillingState) (action : BillingAction)
        → leaves state action ≡ false
        → billing_transition state action
          ≡ invalid_transition (filter (leaves state) billing_actions)
    refused state action f = rw f refl

-- The state of a period after an action: a refused action leaves it as it is.
abbrev pub state_after : BillingState → TransitionResult → BillingState
state_after state (moved to) = to
state_after state (invalid_transition allowed) = state

unfoldable pub perform : BillingState → List BillingAction → BillingState
unfolding billing_transition
perform state [] = state
perform state (a ∷ rest) = perform (state_after state (billing_transition state a)) rest

exported_stays : (actions : List BillingAction) → perform exported actions ≡ exported
unfolding perform billing_transition
exported_stays [] = refl
exported_stays (submit ∷ rest) = exported_stays rest
exported_stays (reopen ∷ rest) = exported_stays rest
exported_stays (approve ∷ rest) = exported_stays rest
exported_stays (lock ∷ rest) = exported_stays rest
exported_stays (mark_exported ∷ rest) = exported_stays rest

locked_stays :
    (actions : List BillingAction)
    → (perform locked actions ≡ locked) ⊎ (perform locked actions ≡ exported)
unfolding perform billing_transition
locked_stays [] = inl refl
locked_stays (submit ∷ rest) = locked_stays rest
locked_stays (reopen ∷ rest) = locked_stays rest
locked_stays (approve ∷ rest) = locked_stays rest
locked_stays (lock ∷ rest) = locked_stays rest
locked_stays (mark_exported ∷ rest) = inr (exported_stays rest)

-- Whatever is asked of a period once it is locked, it stays locked or becomes exported, and an
-- exported period stays exported; from each of the other states some action locks it.
pub lock_is_final :
    (state : BillingState) (actions : List BillingAction)
    → ((state ≡ locked → (perform state actions ≡ locked) ⊎ (perform state actions ≡ exported))
        × (state ≡ exported → perform state actions ≡ exported))
      × (state ≢ locked → state ≢ exported → billing_transition state lock ≡ moved locked)
unfolding billing_transition
lock_is_final state actions = (
  (
    λ e.
        subst (λ s. (perform s actions ≡ locked) ⊎ (perform s actions ≡ exported)) (sym e)
          (locked_stays actions),
    λ e. subst (λ s. perform s actions ≡ exported) (sym e) (exported_stays actions),
  ),
  locks state,
)
  where
    locks :
        (state : BillingState)
        → state ≢ locked
        → state ≢ exported
        → billing_transition state lock ≡ moved locked
    locks opened n x = refl
    locks submitted n x = refl
    locks approved n x = refl
    locks locked n x = absurd (n refl)
    locks exported n x = absurd (x refl)
