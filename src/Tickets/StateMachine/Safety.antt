-- ===== src/Tickets/StateMachine/Safety.antt =====
-- src/domain/tickets/state-machine.ts: what the checks of a body guarantee to the ticket service
-- that works with its machine.
use xms_backend.Prelude.Maps.{lookup, insert, lookup-insert}
use xms_backend.Prelude.{
  String, true, false, some, List, [], ◌∷◌, Memᴰ, ◌≡◌, refl, sym, subst, subst₂, ap, ◌∙◌, arith,
  filter, Bool-cases, Option-cases, ==_iff, ◌==◌, string_key, inl, inr, ◌⊎◌, mem_of_mem-filter,
}
use xms_backend.Tickets.StateMachine.Machine.{
  TransitionDefinition, StateMachineBody, StateDefinition, StateKind, paused, terminal, machine_of,
  ActorKind, is_offered, state_entries, state, is_terminal, can_transition, available, requirements,
  pause_reason, or_empty, is_terminal_kind,
}
use xms_backend.Tickets.StateMachine.WellFormed.{IsWellFormed}
use xms_backend.Tickets.StateMachine.Queries.{
  leaves, available-machine_of, requirements-machine_of, can_transition_iff,
}

state_entries-cases :
    (k : String) (m : List (String × StateDefinition)) (ss : List StateDefinition)
    {s : StateDefinition}
    → lookup k (state_entries m ss) ≡ some s
    → (Memᴰ s ss × (s.key ≡ k)) ⊎ (lookup k m ≡ some s)
unfolding state_entries
state_entries-cases k m [] h = inr h
state_entries-cases k m (u ∷ ss) {s} h = elim (state_entries-cases k (insert u.key u m) ss h) [
  | inl (mem, e) ↦ inl (Memᴰ.tail mem, e)
  | inr old ↦
      let step = rw (lookup-insert u.key k u m) at old in
      elim (Bool-cases (u.key == k)) [
        | inl y ↦
            let e : u ≡ s = let g = rw y at step in cc in
            inl (Memᴰ.head (sym e), subst (λ z. z.key ≡ k) e ((==_iff _ _).0 y))
        | inr n ↦ inr (rw n at step)
      ]
]

state-machine_of :
    (body : StateMachineBody) (k : String) {s : StateDefinition}
    → state (machine_of body) k ≡ some s
    → Memᴰ s body.states × (s.key ≡ k)
unfolding state machine_of lookup
state-machine_of body k h = elim (state_entries-cases k [] body.states h) [
  | inl found ↦ found
  | inr missing ↦ absurd (cc)
]

terminal_state :
    (body : StateMachineBody) (k : String)
    → is_terminal (machine_of body) k ≡ true
    → (s : StateDefinition) × Memᴰ s body.states × (s.key ≡ k) × (s.kind ≡ terminal)
unfolding is_terminal
terminal_state body k h = elim (Option-cases (state (machine_of body) k)) [
  | inl missing ↦ absurd (let none_found = rw missing at h in cc)
  | inr (s, found) ↦
      let (m, e) = state-machine_of body k found in (s, m, e, kind_of s.kind (rw found at h))
]
  where
    kind_of : (kind : StateKind) → is_terminal_kind kind ≡ true → kind ≡ terminal
    kind_of kind t = ground arith

nil_of_no_member :
    (ts : List TransitionDefinition) → ((t : TransitionDefinition) → ¬ Memᴰ t ts) → ts ≡ []
nil_of_no_member [] h = refl
nil_of_no_member (t ∷ ts) h = absurd (h t (Memᴰ.head refl))

-- On a machine of a well-formed body, no actor is offered a transition out of a terminal state, and
-- none may take one.
pub terminal_absorbs :
    (body : StateMachineBody)
    → IsWellFormed body
    → (k : String) → is_terminal (machine_of body) k ≡ true
    → (actor : ActorKind) (to : String)
    → (available (machine_of body) k actor ≡ [])
      × (can_transition (machine_of body) k to actor ≡ false)
terminal_absorbs body w k h actor to =
    let (s, ms, e, kind) = terminal_state body k h in
    let offers : (t : TransitionDefinition) → ¬ Memᴰ t (available (machine_of body) k actor) =
      λ t m.
        let (m', o) =
          mem_of_mem-filter (is_offered actor) (filter (leaves k) body.transitions)
            (rw (available-machine_of body k actor) at m) in
        let (mt, leaving) = mem_of_mem-filter (leaves k) body.transitions m' in
        (w.keeps s ms).0 kind t mt (let f = (==_iff t.from k).0 leaving in cc) in
    (
      nil_of_no_member _ offers,
      elim (Bool-cases (can_transition (machine_of body) k to actor)) [
        | inl y ↦ let (t, m, q) = (can_transition_iff body w k to actor).0 y in absurd (offers t m)
        | inr n ↦ n
      ],
    )

-- On a machine of a well-formed body, a transition that an actor may take into a paused state asks
-- for a pause reason.
pub paused_needs_reason :
    (body : StateMachineBody)
    → IsWellFormed body
    → (from to : String) (actor : ActorKind) {s : StateDefinition}
    → can_transition (machine_of body) from to actor ≡ true
    → state (machine_of body) to ≡ some s
    → s.kind ≡ paused
    → Memᴰ pause_reason (requirements (machine_of body) from to)
paused_needs_reason body w from to actor {s} h found kind =
    let (t, m, e) = (can_transition_iff body w from to actor).0 h in
    let (m', o) =
      mem_of_mem-filter (is_offered actor) (filter (leaves from) body.transitions)
        (rw (available-machine_of body from actor) at m) in
    let (mt, leaving) = mem_of_mem-filter (leaves from) body.transitions m' in
    let (ms, key) = state-machine_of body to found in
    let (rs, asks, listed) = (w.keeps s ms).1 kind t mt (cc) in
    let written : requirements (machine_of body) t.from t.to ≡ rs =
      requirements-machine_of body w t mt ∙ ap or_empty asks in
    subst₂ (λ a b. Memᴰ pause_reason (requirements (machine_of body) a b)) ((==_iff _ _).0 leaving)
      e (subst (λ z. Memᴰ pause_reason z) (sym written) listed)
