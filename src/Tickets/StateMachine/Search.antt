-- ===== src/Tickets/StateMachine/Search.antt =====
-- src/domain/tickets/state-machine.ts: the reachability search of `validateMachine`, against the
-- relation that a chain of transitions leads to a state.
use xms_backend.Prelude.{
  ℕ, zero, suc, ◌+◌, ◌≤◌, String, true, false, ◌||◌, List, [], ◌∷◌, ◌++◌, Memᴰ, contains, add,
  length, ◌==◌, if◌then◌else◌, ◌⊎◌, inl, inr, string_key, ◌≡◌, refl, sym, arith, ◌↔◌, Bool-cases,
  ==_iff, contains→mem, mem-add_self, mem-add_of_mem, mem-add_cases,
}
use xms_backend.Tickets.StateMachine.Machine.{TransitionDefinition, StateMachineBody}
use xms_backend.Tickets.StateMachine.Validate.{push_targets, search_from, reachable}

-- A chain of the transitions leads from `start` to the state.
pub data Reach (ts : List TransitionDefinition) (start : String) : String → Type 0 where
  here : {k : String} → k ≡ start → Reach ts start k
  along :
      {k : String} (t : TransitionDefinition)
      → Memᴰ t ts
      → Reach ts start t.from
      → t.to ≡ k
      → Reach ts start k

push_targets-mem_stack :
    (ts : List TransitionDefinition) (c : String) {k : String} (stack : List String)
    → Memᴰ k stack
    → Memᴰ k (push_targets ts c stack)
unfolding push_targets
push_targets-mem_stack [] c stack m = m
push_targets-mem_stack (t ∷ ts) c stack m = elim (Bool-cases (t.from == c)) [
  | inl y ↦ rw y (push_targets-mem_stack ts c (t.to ∷ stack) (Memᴰ.tail m))
  | inr n ↦ rw n (push_targets-mem_stack ts c stack m)
]

push_targets-mem_target :
    (ts : List TransitionDefinition) (c : String) {t : TransitionDefinition} (stack : List String)
    → Memᴰ t ts
    → t.from ≡ c
    → Memᴰ t.to (push_targets ts c stack)
unfolding push_targets
push_targets-mem_target [] c stack m e = elim m [ ]
push_targets-mem_target (u ∷ ts) c {t} stack (Memᴰ.head h) e =
    let y : (u.from == c) ≡ true = (==_iff u.from c).1 (cc) in
    rw y (push_targets-mem_stack ts c (u.to ∷ stack) (Memᴰ.head (cc)))
push_targets-mem_target (u ∷ ts) c {t} stack (Memᴰ.tail m) e =
    push_targets-mem_target ts c (if u.from == c then u.to ∷ stack else stack) m e

push_targets_cases :
    (ts : List TransitionDefinition) (c : String) {k : String} (stack : List String)
    → Memᴰ k (push_targets ts c stack)
    → Memᴰ k stack ⊎ ((t : TransitionDefinition) × Memᴰ t ts × (t.from ≡ c) × (t.to ≡ k))
unfolding push_targets
push_targets_cases [] c stack m = inl m
push_targets_cases (t ∷ ts) c stack m = elim (Bool-cases (t.from == c)) [
  | inl y ↦ elim (push_targets_cases ts c (t.to ∷ stack) (rw y at m)) [
    | inl (Memᴰ.head e) ↦ inr (t, Memᴰ.head refl, (==_iff _ _).0 y, sym e)
    | inl (Memᴰ.tail l) ↦ inl l
    | inr (u, mu, f, e) ↦ inr (u, Memᴰ.tail mu, f, e)
  ]
  | inr n ↦ elim (push_targets_cases ts c stack (rw n at m)) [
    | inl l ↦ inl l
    | inr (u, mu, f, e) ↦ inr (u, Memᴰ.tail mu, f, e)
  ]
]

module _ (ts : List TransitionDefinition) (start : String) where
  Reached : List String → Type 0
  Reached ks = (k : String) → Memᴰ k ks → Reach ts start k

  -- Every key that the search returns is reached by a chain.
  search_from_sound :
      (fuel : ℕ) (reached stack : List String)
      → Reached reached
      → Reached stack
      → Reached (search_from ts fuel reached stack)
  unfolding search_from Reached
  search_from_sound fuel reached [] hr hs = hr
  search_from_sound zero reached (c ∷ stack) hr hs = hr
  search_from_sound (suc fuel) reached (c ∷ stack) hr hs =
      let later : Reached stack = λ k m. hs k (Memᴰ.tail m) in
      let found : Reached (add reached c) = λ k m. elim (mem-add_cases reached c m) [
        | inl l ↦ hr k l
        | inr e ↦ rw e (hs c (Memᴰ.head refl))
      ] in
      let pushed : Reached (push_targets ts c stack) = λ k m.
        elim (push_targets_cases ts c stack m) [
          | inl l ↦ later k l
          | inr (t, mt, f, e) ↦ along t mt (rw f (hs c (Memᴰ.head refl))) e
        ] in
      elim (Bool-cases (contains reached c)) [
        | inl y ↦ rw (y, search_from) (search_from_sound fuel reached stack hr later)
        | inr n ↦
            rw (n, search_from)
              (search_from_sound fuel (add reached c) (push_targets ts c stack) found pushed)
      ]

-- The transitions whose source is not yet reached: each is still to be pushed.
pending : List String → List TransitionDefinition → ℕ
pending reached [] = 0
pending reached (t ∷ ts) = (if contains reached t.from then 0 else 1) + pending reached ts

leaving : String → List TransitionDefinition → ℕ
leaving c [] = 0
leaving c (t ∷ ts) = (if t.from == c then 1 else 0) + leaving c ts

length-push_targets :
    (ts : List TransitionDefinition) (c : String) (stack : List String)
    → length (push_targets ts c stack) ≡ length stack + leaving c ts
unfolding push_targets leaving
length-push_targets [] c stack = omega arith
length-push_targets (t ∷ ts) c stack =
    ground (arith, length-push_targets ts c (if t.from == c then t.to ∷ stack else stack))

contains-concat :
    (xs : List String) (c k : String) → contains (xs ++ c ∷ []) k ≡ (contains xs k || c == k)
contains-concat [] c k = ground arith
contains-concat (x ∷ xs) c k = ground (arith, contains-concat xs c k)

pending-add :
    (reached : List String) (c : String) (ts : List TransitionDefinition)
    → contains reached c ≡ false
    → pending (reached ++ c ∷ []) ts + leaving c ts ≡ pending reached ts
unfolding pending leaving
pending-add reached c [] n = omega arith
pending-add reached c (t ∷ ts) n = ground (
  arith,
  pending-add reached c ts n,
  contains-concat reached c t.from,
  ==_iff c t.from,
  ==_iff t.from c,
)

module _ (ts : List TransitionDefinition) where
  -- The transitions out of `reached` lead into `reached` or onto the stack.
  Closed : List String → List String → Type 0
  Closed reached stack =
      (t : TransitionDefinition)
      → Memᴰ t ts
      → Memᴰ t.from reached
      → Memᴰ t.to reached ⊎ Memᴰ t.to stack

  Closed-skip :
      (reached : List String) (c : String) (stack : List String)
      → contains reached c ≡ true
      → Closed reached (c ∷ stack)
      → Closed reached stack
  unfolding Closed
  Closed-skip reached c stack y h t mt mf = elim (h t mt mf) [
    | inl l ↦ inl l
    | inr (Memᴰ.head e) ↦ inl (rw e (contains→mem reached c y))
    | inr (Memᴰ.tail m) ↦ inr m
  ]

  Closed-visit :
      (reached : List String) (c : String) (stack : List String)
      → Closed reached (c ∷ stack)
      → Closed (add reached c) (push_targets ts c stack)
  unfolding Closed
  Closed-visit reached c stack h t mt mf = elim (mem-add_cases reached c mf) [
    | inl old ↦ elim (h t mt old) [
      | inl l ↦ inl (mem-add_of_mem reached c l)
      | inr (Memᴰ.head e) ↦ inl (rw e (mem-add_self reached c))
      | inr (Memᴰ.tail m) ↦ inr (push_targets-mem_stack ts c stack m)
    ]
    | inr e ↦ inr (push_targets-mem_target ts c stack mt e)
  ]

  record IsExplored (reached stack found : List String) : Type 0 where
    keeps : (k : String) → Memᴰ k reached → Memᴰ k found
    visits : (k : String) → Memᴰ k stack → Memᴰ k found
    follows : (t : TransitionDefinition) → Memᴰ t ts → Memᴰ t.from found → Memᴰ t.to found

  IsExplored-skip :
      (reached : List String) (c : String) (stack found : List String)
      → contains reached c ≡ true
      → IsExplored reached stack found
      → IsExplored reached (c ∷ stack) found
  IsExplored-skip reached c stack found y h = record {
    keeps = h.keeps;
    visits = λ k m. elim m [
      | Memᴰ.head e ↦ h.keeps k (rw e (contains→mem reached c y))
      | Memᴰ.tail l ↦ h.visits k l
    ];
    follows = h.follows;
  }

  IsExplored-visit :
      (reached : List String) (c : String) (stack found : List String)
      → IsExplored (add reached c) (push_targets ts c stack) found
      → IsExplored reached (c ∷ stack) found
  IsExplored-visit reached c stack found h = record {
    keeps = λ k m. h.keeps k (mem-add_of_mem reached c m);
    visits = λ k m. elim m [
      | Memᴰ.head e ↦ h.keeps k (rw e (mem-add_self reached c))
      | Memᴰ.tail l ↦ h.visits k (push_targets-mem_stack ts c stack l)
    ];
    follows = h.follows;
  }

  visit_measure :
      (reached : List String) (c : String) (stack : List String)
      → contains reached c ≡ false
      → length (push_targets ts c stack) + pending (add reached c) ts
        ≡ length stack + pending reached ts
  visit_measure reached c stack n =
      rw n (omega (arith, length-push_targets ts c stack, pending-add reached c ts n))

  -- With fuel for what is on the stack and still to be pushed, the search leaves nothing out.
  search_from-IsExplored :
      (fuel : ℕ) (reached stack : List String)
      → Closed reached stack
      → length stack + pending reached ts ≤ fuel
      → IsExplored reached stack (search_from ts fuel reached stack)
  unfolding search_from
  search_from-IsExplored fuel reached [] h le = record {
    keeps = λ k m. m;
    visits = λ k m. elim m [ ];
    follows = λ t mt mf. unfold Closed in elim (h t mt mf) [ inl l ↦ l | inr m ↦ elim m [ ] ];
  }
  search_from-IsExplored zero reached (c ∷ stack) h le = absurd (omega arith)
  search_from-IsExplored (suc fuel) reached (c ∷ stack) h le =
      elim (Bool-cases (contains reached c)) [
        | inl y ↦
            rw (y, search_from)
              (IsExplored-skip reached c stack _ y (
                search_from-IsExplored fuel reached stack (Closed-skip reached c stack y h)
                  (omega arith)))
        | inr n ↦
            rw (n, search_from)
              (IsExplored-visit reached c stack _ (
                search_from-IsExplored fuel (add reached c) (push_targets ts c stack)
                  (Closed-visit reached c stack h)
                  (omega (arith, visit_measure reached c stack n))))
      ]

pending-nil : (ts : List TransitionDefinition) → pending [] ts ≡ length ts
unfolding pending
pending-nil [] = refl
pending-nil (t ∷ ts) = omega (arith, pending-nil ts)

Reach-mem :
    {ts : List TransitionDefinition} {start : String} (found : List String) {k : String}
    → Memᴰ start found
    → ((t : TransitionDefinition) → Memᴰ t ts → Memᴰ t.from found → Memᴰ t.to found)
    → Reach ts start k
    → Memᴰ k found
Reach-mem found m follows (here e) = rw e m
Reach-mem found m follows (along t mt r e) = rw (← e) (follows t mt (Reach-mem found m follows r))

pub reachable_sound :
    (body : StateMachineBody) {k : String}
    → Memᴰ k (reachable body)
    → Reach body.transitions body.initial k
unfolding reachable Reached
reachable_sound body {k} m =
    search_from_sound body.transitions body.initial (suc (length body.transitions)) []
      (body.initial ∷ []) (λ j n. elim n [ ])
      (λ j n. elim n [ Memᴰ.head e ↦ here e | Memᴰ.tail l ↦ elim l [ ] ]) k m

pub reachable_complete :
    (body : StateMachineBody) {k : String}
    → Reach body.transitions body.initial k
    → Memᴰ k (reachable body)
unfolding reachable Closed
reachable_complete body r =
    let h =
      search_from-IsExplored body.transitions (suc (length body.transitions)) [] (body.initial ∷ [])
        (λ t mt n. elim n [ ]) (omega (arith, pending-nil body.transitions)) in
    Reach-mem _ (h.visits body.initial (Memᴰ.head refl)) h.follows r

-- The search of `validateMachine` holds a state exactly when a chain of the body's transitions leads to
-- the state from the initial one.
pub reachable_iff :
    (body : StateMachineBody) (k : String)
    → Memᴰ k (reachable body) ↔ Reach body.transitions body.initial k
reachable_iff body k = (reachable_sound body, reachable_complete body)
