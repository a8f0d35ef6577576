-- ===== src/Tickets/StateMachine/WellFormed.antt =====
-- src/domain/tickets/state-machine.ts: what `validateMachine` demands of a body, said without its
-- loops, and the bodies that meet it.
use xms_backend.Prelude.{
  not-eq-false, String, true, false, not, List, [], ◌∷◌, Memᴰ, contains, ◌≡◌, ◌≢◌, refl, ◌↔◌, map,
  is_nil, is_nil-eq-false, Bool-cases, contains→mem, mem→contains, All, All-iff, Distinct, mem-map,
  mem_of_mem-map, report-append-eq-nil, append-eq-nil, mem_of_mem-filter, mem-filter_of_mem, subst,
  string_key, arith, inl, inr,
}
use xms_backend.Tickets.StateMachine.Machine.{
  TransitionDefinition, StateMachineBody, StateDefinition, StateKind, terminal, is_terminal_kind,
  StateMachine, machine_of,
}
use xms_backend.Tickets.StateMachine.Validate.{
  Problem, unreachable, terminal_unreachable, pair, state_problems, state_keys, transition_problems,
  kind_problems, unreached, reachable, validate_machine, terminal_keys, all_problems, new_machine,
}
use xms_backend.Tickets.StateMachine.Search.{Reach, reachable_iff}
use xms_backend.Tickets.StateMachine.Loops.{
  keys_of, Named, Connects, Keeps, state_problems_iff, transition_problems_iff, kind_problems_iff,
  unreached_iff, state_keys_iff,
}

-- A body that a machine can be made of.
pub record IsWellFormed (body : StateMachineBody) : Type 0 where
  pub nonempty : body.states ≢ []
  pub named : (s : StateDefinition) → Memᴰ s body.states → Named s
  pub distinct_keys : Distinct (keys_of body.states)
  pub starts : Memᴰ body.initial (keys_of body.states)
  pub connects :
      (t : TransitionDefinition) → Memᴰ t body.transitions → Connects (keys_of body.states) t
  pub distinct_pairs : Distinct (map pair body.transitions)
  pub ends : (s : StateDefinition) × Memᴰ s body.states × (s.kind ≡ terminal)
  pub keeps : (s : StateDefinition) → Memᴰ s body.states → Keeps body.transitions s
  pub reaches :
      (s : StateDefinition) → Memᴰ s body.states → Reach body.transitions body.initial s.key

abbrev Terminals : List StateDefinition → Type 0
Terminals ss = (s : StateDefinition) × Memᴰ s ss × (s.kind ≡ terminal)

terminal_of_kind : (k : StateKind) → (is_terminal_kind k ≡ true) ↔ (k ≡ terminal)
terminal_of_kind k = ground arith

terminal_exists : (ss : List StateDefinition) → is_nil (terminal_keys ss) ≡ false → Terminals ss
terminal_exists [] h = absurd (cc)
terminal_exists (s ∷ ss) h = elim (Bool-cases (is_terminal_kind s.kind)) [
  | inl t ↦ (s, Memᴰ.head refl, (terminal_of_kind s.kind).0 t)
  | inr n ↦ let (u, m, e) = terminal_exists ss (rw n at h) in (u, Memᴰ.tail m, e)
]

terminal_listed : (ss : List StateDefinition) → Terminals ss → is_nil (terminal_keys ss) ≡ false
terminal_listed ss (s, m, e) =
    (is_nil-eq-false (terminal_keys ss)).1 (λ nil. elim (subst (λ z. Memᴰ s.key z) nil listed) [ ])
  where
    listed : Memᴰ s.key (terminal_keys ss)
    listed =
        mem-map (λ (u : StateDefinition). u.key)
          (mem-filter_of_mem (λ (u : StateDefinition). is_terminal_kind u.kind) ss m
            ((terminal_of_kind s.kind).1 e))

terminal_keys-mem :
    (ss : List StateDefinition) {k : String} → Memᴰ k (terminal_keys ss) → Memᴰ k (keys_of ss)
terminal_keys-mem ss m =
    let (s, ms, e) = mem_of_mem-map (λ (s : StateDefinition). s.key) _ m in
    let (mem, t) = mem_of_mem-filter (λ (s : StateDefinition). is_terminal_kind s.kind) _ ms in
    rw e (mem-map (λ (s : StateDefinition). s.key) mem)

module _ (body : StateMachineBody) where
  loop_keys : List String
  loop_keys = state_keys [] body.states

  Connects-iff :
      All (Connects loop_keys) body.transitions
      ↔ ((t : TransitionDefinition) → Memᴰ t body.transitions → Connects (keys_of body.states) t)
  unfolding loop_keys
  Connects-iff =
      let each = All-iff (Connects (state_keys [] body.states)) body.transitions in
      let key = state_keys_iff body.states in
      (
        λ h t m. let (a, b, ne) = each.0 h t m in ((key t.from).0 a, (key t.to).0 b, ne),
        λ h. each.1 (λ t m. let (a, b, ne) = h t m in ((key t.from).1 a, (key t.to).1 b, ne)),
      )

  -- The parts of the list of problems, each empty.
  record HasNone : Type 0 where
    states : state_problems [] body.states ≡ []
    initial : (not (contains loop_keys body.initial)) ≡ false
    transitions : transition_problems loop_keys [] body.transitions ≡ []
    terminals : is_nil (terminal_keys body.states) ≡ false
    kinds : kind_problems body.transitions body.states ≡ []
    keys : unreached (reachable body) unreachable loop_keys ≡ []
    last : unreached (reachable body) terminal_unreachable (terminal_keys body.states) ≡ []

  all_problems_iff : (all_problems body ≡ []) ↔ HasNone
  unfolding all_problems loop_keys
  all_problems_iff =
      let states = append-eq-nil (state_problems [] body.states) _ in
      let start =
        report-append-eq-nil (not (contains (state_keys [] body.states) body.initial)) _ _ in
      let moves =
        append-eq-nil (transition_problems (state_keys [] body.states) [] body.transitions) _ in
      let ends = report-append-eq-nil (is_nil (terminal_keys body.states)) _ _ in
      let kinds = append-eq-nil (kind_problems body.transitions body.states) _ in
      let keys =
        append-eq-nil (unreached (reachable body) unreachable (state_keys [] body.states)) _ in
      (
        λ h.
            let (a, h1) = states.0 h in
            let (b, h2) = start.0 h1 in
            let (c, h3) = moves.0 h2 in
            let (d, h4) = ends.0 h3 in
            let (e, h5) = kinds.0 h4 in
            let (f, g) = keys.0 h5 in
            record {
              states = a;
              initial = b;
              transitions = c;
              terminals = d;
              kinds = e;
              keys = f;
              last = g;
            },
        λ h. states.1 (
          h.states,
          start.1 (
            h.initial,
            moves.1
                (h.transitions, ends.1 (h.terminals, kinds.1 (h.kinds, keys.1 (h.keys, h.last)))),
          ),
        ),
      )

  HasNone→IsWellFormed : body.states ≢ [] → HasNone → IsWellFormed body
  unfolding loop_keys
  HasNone→IsWellFormed full h =
      let (named, fresh) = (state_problems_iff [] body.states).0 h.states in
      let (ends, pairs) = (transition_problems_iff _ [] body.transitions).0 h.transitions in
      let key = state_keys_iff body.states in
      let found =
        (All-iff (λ k. Memᴰ k (reachable body)) (state_keys [] body.states)).0
          ((unreached_iff _ _ _).0 h.keys) in
      record {
        nonempty = full;
        named = (All-iff Named body.states).0 named;
        distinct_keys = fresh.1;
        starts = (key body.initial).0 (contains→mem _ _ ((not-eq-false _).0 h.initial));
        connects = Connects-iff.0 ends;
        distinct_pairs = pairs.1;
        ends = terminal_exists body.states h.terminals;
        keeps =
            (All-iff (Keeps body.transitions) body.states).0
              ((kind_problems_iff body.transitions body.states).0 h.kinds);
        reaches = λ s m.
            (reachable_iff body s.key).0
              (found s.key ((key s.key).1 (mem-map (λ (u : StateDefinition). u.key) m)));
      }

  IsWellFormed→HasNone : IsWellFormed body → HasNone
  unfolding loop_keys
  IsWellFormed→HasNone w =
      let key = state_keys_iff body.states in
      let found : (k : String) → Memᴰ k (keys_of body.states) → Memᴰ k (reachable body) = λ k m.
        let (s, ms, e) = mem_of_mem-map (λ (u : StateDefinition). u.key) body.states m in
        rw e ((reachable_iff body s.key).1 (w.reaches s ms)) in
      record {
        states =
            (state_problems_iff [] body.states).1
              ((All-iff Named body.states).1 w.named, (λ k m n. elim n [ ], w.distinct_keys));
        initial = (not-eq-false _).1 (mem→contains _ ((key body.initial).1 w.starts));
        transitions =
            (transition_problems_iff _ [] body.transitions).1
              (Connects-iff.1 w.connects, (λ k m n. elim n [ ], w.distinct_pairs));
        terminals = terminal_listed body.states w.ends;
        kinds =
            (kind_problems_iff body.transitions body.states).1
              ((All-iff (Keeps body.transitions) body.states).1 w.keeps);
        keys = (unreached_iff (reachable body) unreachable (state_keys [] body.states)).1 (
            (All-iff (λ k. Memᴰ k (reachable body)) (state_keys [] body.states)).1
              (λ k m. found k ((key k).0 m)));
        last = (unreached_iff (reachable body) terminal_unreachable (terminal_keys body.states)).1 (
            (All-iff (λ k. Memᴰ k (reachable body)) (terminal_keys body.states)).1
              (λ k m. found k (terminal_keys-mem body.states m)));
      }

-- `validateMachine` reports no problem exactly on the well-formed bodies: there is a state, keys are
-- snake_case and distinct, the initial state is one of them, each transition joins two different
-- states and no pair is repeated, there is a terminal state and nothing leaves one, what enters a
-- paused state asks for a pause reason, and a chain of transitions leads to each state.
pub validate_machine_iff :
    (body : StateMachineBody) → (validate_machine body ≡ []) ↔ IsWellFormed body
unfolding validate_machine
validate_machine_iff body = elim (Bool-cases (is_nil body.states)) [
  | inl empty ↦ (
    λ h. absurd (let impossible = rw empty at h in cc),
    λ w. absurd (let full = (is_nil-eq-false body.states).1 w.nonempty in cc),
  )
  | inr full ↦ rw full (
    λ h.
        HasNone→IsWellFormed body ((is_nil-eq-false body.states).0 full)
          ((all_problems_iff body).0 h),
    λ w. (all_problems_iff body).1 (IsWellFormed→HasNone body w),
  )
]

-- The constructor makes a machine of a well-formed body, and of no other.
pub new_machine-IsWellFormed :
    (body : StateMachineBody) (m : StateMachine)
    → (new_machine body ≡ inr m) ↔ (IsWellFormed body × (m ≡ machine_of body))
unfolding new_machine
new_machine-IsWellFormed body m = elim (Bool-cases (is_nil (validate_machine body))) [
  | inl clean ↦ rw clean (
    λ h. ((validate_machine_iff body).0 (nil_of (validate_machine body) clean), cc),
    λ h. cc (h.1),
  )
  | inr bad ↦ rw bad (
    λ h. absurd (cc),
    λ h.
        absurd
          ((is_nil-eq-false (validate_machine body)).0 bad ((validate_machine_iff body).1 h.0)),
  )
]
  where
    nil_of : (ps : List Problem) → is_nil ps ≡ true → ps ≡ []
    nil_of [] h = refl
    nil_of (p ∷ ps) h = cc
