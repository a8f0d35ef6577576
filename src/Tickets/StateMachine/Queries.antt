-- ===== src/Tickets/StateMachine/Queries.antt =====
-- src/domain/tickets/state-machine.ts: the questions that a machine answers, in terms of the body
-- that it was made of. The two maps disappear.
use Prim.Native.String
use xms_backend.Prelude.Maps.{lookup, insert, lookup-insert}
use xms_backend.Prelude.{
  String, Bool, true, some, refl, List, [], ◌∷◌, ◌++◌, Memᴰ, ◌≡◌, sym, ◌↔◌, filter, find, map,
  ==_refl, subst, subst₂, ap₂, Option-cases, find_sound, Bool-cases, ==_iff, ◌==◌, string_key,
  arith, inl, ◌∙◌, inr, append_assoc, append-nil, ap, mem-filter_of_mem, mem_of_mem-filter,
  Distinct, mem-map,
}
use xms_backend.Tickets.StateMachine.Machine.{
  TransitionDefinition, StateMachineBody, StateMachine, machine_of, ActorKind, or_empty,
  group_by_from, transition, can_transition, available, is_offered, requirements, outgoing,
  may_take,
}
use xms_backend.Tickets.StateMachine.Validate.{pair, new_machine}
use xms_backend.Tickets.StateMachine.WellFormed.{IsWellFormed, new_machine-IsWellFormed}

abbrev pub leaves : String → TransitionDefinition → Bool
leaves from t = t.from == from

group_by_from-lookup :
    (from : String) (m : List (String × List TransitionDefinition)) (ts : List TransitionDefinition)
    → or_empty (lookup from (group_by_from m ts))
      ≡ or_empty (lookup from m) ++ filter (leaves from) ts
unfolding group_by_from
group_by_from-lookup from m [] = sym (append-nil _)
group_by_from-lookup from m (t ∷ ts) =
    rw (group_by_from-lookup from (insert t.from (or_empty (lookup t.from m) ++ t ∷ []) m) ts) (
      rw (lookup-insert t.from from) (elim (Bool-cases (t.from == from)) [
        | inl y ↦
            let e : t.from ≡ from = (==_iff _ _).0 y in
            rw y
              (simp e (append_assoc (or_empty (lookup from m)) (t ∷ []) (filter (leaves from) ts)))
        | inr n ↦ rw n
      ]))

-- `byFrom.get(from) ?? []` is the list of the transitions out of `from`, in catalog order.
outgoing-machine_of :
    (body : StateMachineBody) (from : String)
    → outgoing (machine_of body) from ≡ filter (leaves from) body.transitions
unfolding machine_of lookup
outgoing-machine_of body from = group_by_from-lookup from [] body.transitions

-- The actor is offered the body's transitions out of the state, in the body's order, less those that
-- are not marked for the portal where the actor is a portal user.
pub available-machine_of :
    (body : StateMachineBody) (from : String) (actor : ActorKind)
    → available (machine_of body) from actor
      ≡ filter (is_offered actor) (filter (leaves from) body.transitions)
unfolding available
available-machine_of body from actor =
    ap (filter (is_offered actor)) (outgoing-machine_of body from)

find-eq-some :
    (ts : List TransitionDefinition) (t : TransitionDefinition)
    → Distinct (map pair ts)
    → Memᴰ t ts
    → find (λ u. u.to == t.to) (filter (leaves t.from) ts) ≡ some t
find-eq-some [] t d m = elim m [ ]
find-eq-some (u ∷ ts) t d (Memᴰ.head e) = rw e (rw (==_refl u.from) (rw (==_refl u.to)))
find-eq-some (u ∷ ts) t d (Memᴰ.tail m) =
    let ih = find-eq-some ts t d.1 m in
    let other : (u.from ≡ t.from) → (u.to ≡ t.to) → ⊥ =
      λ f g. d.0 (subst (λ p. Memᴰ p (map pair ts)) (sym (same f g)) (mem-map pair m)) in
    elim (Bool-cases (u.from == t.from)) [
      | inr n ↦ rw n ih
      | inl y ↦ rw y (elim (Bool-cases (u.to == t.to)) [
        | inr n ↦ rw n ih
        | inl z ↦ absurd (other ((==_iff _ _).0 y) ((==_iff _ _).0 z))
      ])
    ]
  where
    same : u.from ≡ t.from → u.to ≡ t.to → pair u ≡ pair t
    same f g = ap₂ (λ a b. String.◌++◌ a (String.◌++◌ ">" b)) f g

transition_sound :
    (m : StateMachine) (from to : String) {t : TransitionDefinition}
    → transition m from to ≡ some t
    → Memᴰ t (outgoing m from) × (t.to ≡ to)
unfolding transition
transition_sound m from to h =
    let (mem, e) = find_sound (λ u. u.to == to) (outgoing m from) h in (mem, (==_iff _ _).0 e)

module _ (body : StateMachineBody) (w : IsWellFormed body) where
  -- A machine of a well-formed body finds each of the body's transitions by its two ends.
  transition-machine_of :
      (t : TransitionDefinition)
      → Memᴰ t body.transitions
      → transition (machine_of body) t.from t.to ≡ some t
  unfolding transition
  transition-machine_of t m =
      rw (outgoing-machine_of body t.from) (find-eq-some body.transitions t w.distinct_pairs m)

  -- What the machine asks for on a transition is what the body writes on it.
  pub requirements-machine_of :
      (t : TransitionDefinition)
      → Memᴰ t body.transitions
      → requirements (machine_of body) t.from t.to ≡ or_empty t.requires
  unfolding requirements
  requirements-machine_of t m = rw (transition-machine_of t m)

  Offer : String → String → ActorKind → Type 0
  Offer from to actor =
      (t : TransitionDefinition) × Memᴰ t (available (machine_of body) from actor) × (t.to ≡ to)

  may_take-offered :
      (actor : ActorKind) (t : TransitionDefinition)
      → (may_take actor (some t) ≡ true) ↔ (is_offered actor t ≡ true)
  may_take-offered actor t = ground arith

  can_transition_sound :
      (from to : String) (actor : ActorKind)
      → can_transition (machine_of body) from to actor ≡ true
      → Offer from to actor
  unfolding Offer can_transition
  can_transition_sound from to actor h =
      elim (Option-cases (transition (machine_of body) from to)) [
        | inl missing ↦ absurd (let no_offer = rw missing at h in cc)
        | inr (t, found) ↦
            let (m, e) = transition_sound (machine_of body) from to found in
            (
              t,
              unfold available in
                  mem-filter_of_mem (is_offered actor) (outgoing (machine_of body) from) m
                    ((may_take-offered actor t).0 (rw found at h)),
              e,
            )
      ]

  can_transition_listed :
      (t : TransitionDefinition) (actor : ActorKind)
      → Memᴰ t body.transitions
      → is_offered actor t ≡ true
      → can_transition (machine_of body) t.from t.to actor ≡ true
  unfolding can_transition
  can_transition_listed t actor m offered =
      rw (transition-machine_of t m) ((may_take-offered actor t).1 offered)

  can_transition_complete :
      (from to : String) (actor : ActorKind)
      → Offer from to actor
      → can_transition (machine_of body) from to actor ≡ true
  unfolding Offer
  can_transition_complete from to actor (t, m, e) =
      let (m', offered) =
        mem_of_mem-filter (is_offered actor) (filter (leaves from) body.transitions)
          (rw (available-machine_of body from actor) at m) in
      let (listed, leaving) = mem_of_mem-filter (leaves from) body.transitions m' in
      subst₂ (λ a b. can_transition (machine_of body) a b actor ≡ true) ((==_iff _ _).0 leaving) e
        (can_transition_listed t actor listed offered)

-- On a machine of a well-formed body the gate and the list agree: the actor may go from one state to
-- another exactly when a transition to it is among those that `available` offers the actor.
pub can_transition_iff :
    (body : StateMachineBody)
    → IsWellFormed body
    → (from to : String) (actor : ActorKind)
    → (can_transition (machine_of body) from to actor ≡ true)
      ↔ ((t : TransitionDefinition) × Memᴰ t (available (machine_of body) from actor) × (t.to ≡ to))
unfolding Offer
can_transition_iff body w from to actor =
    (can_transition_sound body w from to actor, can_transition_complete body w from to actor)

-- Where the constructor makes a machine, the body is well-formed, and the machine answers for it: it
-- offers an actor the body's transitions out of a state, in the body's order, less those that are not
-- marked for the portal where the actor is a portal user; it lets the actor go from one state to another
-- exactly when one of these leads there; and it asks for what the body writes on the transition. Of a
-- well-formed body the constructor does make a machine.
pub new_machine_answers :
    (body : StateMachineBody)
    → (IsWellFormed body → (m : StateMachine) × (new_machine body ≡ inr m))
      × ((m : StateMachine)
          → new_machine body ≡ inr m
          → IsWellFormed body
            × ((from : String) (actor : ActorKind)
                → available m from actor
                  ≡ filter (is_offered actor) (filter (leaves from) body.transitions))
            × ((from to : String) (actor : ActorKind)
                → (can_transition m from to actor ≡ true)
                  ↔ ((t : TransitionDefinition) × Memᴰ t (available m from actor) × (t.to ≡ to)))
            × ((t : TransitionDefinition)
                → Memᴰ t body.transitions
                → requirements m t.from t.to ≡ or_empty t.requires))
new_machine_answers body = (
  λ w. (machine_of body, (new_machine-IsWellFormed body (machine_of body)).1 (w, refl)),
  λ m made.
      let (w, same) = (new_machine-IsWellFormed body m).0 made in
      (
        w,
        λ from actor. ap (λ n. available n from actor) same ∙ available-machine_of body from actor,
        λ from to actor.
            subst
              (λ n.
                (can_transition n from to actor ≡ true)
                ↔ ((t : TransitionDefinition) × Memᴰ t (available n from actor) × (t.to ≡ to)))
              (sym same) (can_transition_iff body w from to actor),
        λ t listed.
            ap (λ n. requirements n t.from t.to) same ∙ requirements-machine_of body w t listed,
      ),
)
