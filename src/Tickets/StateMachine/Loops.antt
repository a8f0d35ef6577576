-- ===== src/Tickets/StateMachine/Loops.antt =====
-- src/domain/tickets/state-machine.ts: each loop of `validateMachine`, and what it demands of the
-- states and transitions that it reads.
use xms_backend.Prelude.Texts.{is_snake_case}
use xms_backend.Prelude.{
  not-eq-false, String, Bool, true, false, not, ◌&&◌, Option, none, some, List, [], ◌∷◌, Memᴰ,
  contains, add, ◌==◌, ◌⊎◌, inl, inr, string_key, ◌≡◌, ◌≢◌, refl, arith, ◌↔◌, map, any, all, filter,
  ==_iff, contains→mem, mem→contains, mem-add_self, mem-add_of_mem, mem-add_cases, All, Fresh,
  Fresh-cons, report-append-eq-nil, all→each, each→all, any→some, some→any, any-eq-false, subst,
  mem_of_mem-filter, mem-filter_of_mem, ==_false_iff,
}
use xms_backend.Tickets.StateMachine.Machine.{
  TransitionDefinition, StateDefinition, StateKind, terminal, paused, is_terminal_kind,
  is_paused_kind, pause_reason, TransitionRequirement,
}
use xms_backend.Tickets.StateMachine.Validate.{
  Problem, pair, state_problems, state_keys, transition_problems, kind_problems, unreached,
  asks_reason, is_pause_reason,
}

abbrev pub keys_of : List StateDefinition → List String
keys_of ss = map (λ s. s.key) ss

abbrev pub Named : StateDefinition → Type 0
Named s = is_snake_case s.key ≡ true

pub state_problems_iff :
    (keys : List String) (ss : List StateDefinition)
    → (state_problems keys ss ≡ []) ↔ (All Named ss × Fresh keys (keys_of ss))
unfolding state_problems
state_problems_iff keys [] = (λ _. (tt, (λ k m. elim m [ ], tt)), λ _. refl)
state_problems_iff keys (s ∷ ss) =
    let ih = state_problems_iff (add keys s.key) ss in
    let fresh = Fresh-cons keys s.key (keys_of ss) in
    let key = report-append-eq-nil (not (is_snake_case s.key)) _ _ in
    let seen = report-append-eq-nil (contains keys s.key) _ _ in
    (
      λ h.
          let (a, h1) = key.0 h in
          let (b, h2) = seen.0 h1 in
          let (names, rest) = ih.0 h2 in (((not-eq-false _).0 a, names), fresh.1 (b, rest)),
      λ h.
          let (b, rest) = fresh.0 h.1 in
          key.1 ((not-eq-false _).1 h.0.0, seen.1 (b, ih.1 (h.0.1, rest))),
    )

-- The ends of a transition are states, and are not the same.
abbrev pub Connects : List String → TransitionDefinition → Type 0
Connects keys t = Memᴰ t.from keys × Memᴰ t.to keys × (t.from ≢ t.to)

pub transition_problems_iff :
    (keys seen : List String) (ts : List TransitionDefinition)
    → (transition_problems keys seen ts ≡ []) ↔ (All (Connects keys) ts × Fresh seen (map pair ts))
unfolding transition_problems
transition_problems_iff keys seen [] = (λ _. (tt, (λ k m. elim m [ ], tt)), λ _. refl)
transition_problems_iff keys seen (t ∷ ts) =
    let ih = transition_problems_iff keys (add seen (pair t)) ts in
    let fresh = Fresh-cons seen (pair t) (map pair ts) in
    let source = report-append-eq-nil (not (contains keys t.from)) _ _ in
    let target = report-append-eq-nil (not (contains keys t.to)) _ _ in
    let self = report-append-eq-nil (t.from == t.to) _ _ in
    let again = report-append-eq-nil (contains seen (pair t)) _ _ in
    (
      λ h.
          let (a, h1) = source.0 h in
          let (b, h2) = target.0 h1 in
          let (c, h3) = self.0 h2 in
          let (d, h4) = again.0 h3 in
          let (ends, rest) = ih.0 h4 in
          (
            (
              (
                contains→mem keys t.from ((not-eq-false _).0 a),
                contains→mem keys t.to ((not-eq-false _).0 b),
                (==_false_iff t.from t.to).0 c,
              ),
              ends,
            ),
            fresh.1 (d, rest),
          ),
      λ h.
          let (d, rest) = fresh.0 h.1 in
          let (mf, mt, ne) = h.0.0 in
          source.1 (
            (not-eq-false _).1 (mem→contains keys mf),
            target.1 (
              (not-eq-false _).1 (mem→contains keys mt),
              self.1 ((==_false_iff _ _).1 ne, again.1 (d, ih.1 (h.0.1, rest))),
            ),
          ),
    )

-- A transition that asks for a pause reason.
abbrev pub AsksReason : TransitionDefinition → Type 0
AsksReason t = (rs : List TransitionRequirement) × (t.requires ≡ some rs) × Memᴰ pause_reason rs

-- Nothing leaves a terminal state, and what enters a paused state asks for a pause reason.
abbrev pub Keeps : List TransitionDefinition → StateDefinition → Type 0
Keeps ts s =
    (s.kind ≡ terminal → (t : TransitionDefinition) → Memᴰ t ts → t.from ≢ s.key)
    × (s.kind ≡ paused → (t : TransitionDefinition) → Memᴰ t ts → t.to ≡ s.key → AsksReason t)

pause_reason-mem :
    (rs : List TransitionRequirement) → (any is_pause_reason rs ≡ true) ↔ Memᴰ pause_reason rs
pause_reason-mem rs = (
  λ h. let (r, m, e) = any→some is_pause_reason rs h in subst (λ z. Memᴰ z rs) (only r e) m,
  λ m. some→any is_pause_reason rs m refl,
)
  where
    only : (r : TransitionRequirement) → is_pause_reason r ≡ true → r ≡ pause_reason
    only r e = ground arith

reason_in_iff :
    (o : Option (List TransitionRequirement))
    → ((elim o [ none ↦ false | some rs ↦ any is_pause_reason rs ]) ≡ true)
      ↔ ((rs : List TransitionRequirement) × (o ≡ some rs) × Memᴰ pause_reason rs)
reason_in_iff none = (λ h. cc, λ h. cc (h.1))
reason_in_iff (some rs) = (
  λ h. (rs, refl, (pause_reason-mem rs).0 h),
  λ h.
      let e : h.0 ≡ rs = cc (h.1) in
      (pause_reason-mem rs).1 (subst (λ z. Memᴰ pause_reason z) e h.2),
)

asks_reason_iff : (t : TransitionDefinition) → (asks_reason t ≡ true) ↔ AsksReason t
asks_reason_iff t = reason_in_iff t.requires

terminal-and :
    (k : StateKind) (b : Bool) → ((is_terminal_kind k && b) ≡ false) ↔ (k ≡ terminal → b ≡ false)
terminal-and k b = ground arith

paused-and :
    (k : StateKind) (b : Bool) → ((is_paused_kind k && not b) ≡ false) ↔ (k ≡ paused → b ≡ true)
paused-and k b = ground arith

terminal_closed_iff :
    (ts : List TransitionDefinition) (s : StateDefinition)
    → ((is_terminal_kind s.kind && any (λ t. t.from == s.key) ts) ≡ false)
      ↔ (s.kind ≡ terminal → (t : TransitionDefinition) → Memᴰ t ts → t.from ≢ s.key)
terminal_closed_iff ts s =
    let kind = terminal-and s.kind (any (λ t. t.from == s.key) ts) in
    let none_leaves = any-eq-false (λ (t : TransitionDefinition). t.from == s.key) ts in
    (
      λ h k t m. (==_false_iff t.from s.key).0 (none_leaves.0 (kind.0 h k) t m),
      λ h. kind.1 (λ k. none_leaves.1 (λ t m. (==_false_iff t.from s.key).1 (h k t m))),
    )

paused_reason_iff :
    (ts : List TransitionDefinition) (s : StateDefinition)
    → ((is_paused_kind s.kind && not (all asks_reason (filter (λ t. t.to == s.key) ts))) ≡ false)
      ↔ (s.kind ≡ paused → (t : TransitionDefinition) → Memᴰ t ts → t.to ≡ s.key → AsksReason t)
paused_reason_iff ts s =
    let into : TransitionDefinition → Bool = λ t. t.to == s.key in
    let kind = paused-and s.kind (all asks_reason (filter into ts)) in
    (
      λ h k t m e. (asks_reason_iff t).0 (
          all→each asks_reason (filter into ts) (kind.0 h k)
            (mem-filter_of_mem into ts m ((==_iff t.to s.key).1 e))),
      λ h. kind.1 (λ k. each→all asks_reason (filter into ts) (λ t m.
          let (mt, e) = mem_of_mem-filter into ts m in
          (asks_reason_iff t).1 (h k t mt ((==_iff t.to s.key).0 e)))),
    )

pub kind_problems_iff :
    (ts : List TransitionDefinition) (ss : List StateDefinition)
    → (kind_problems ts ss ≡ []) ↔ All (Keeps ts) ss
unfolding kind_problems
kind_problems_iff ts [] = (λ _. tt, λ _. refl)
kind_problems_iff ts (s ∷ ss) =
    let ih = kind_problems_iff ts ss in
    let leaving =
      report-append-eq-nil (is_terminal_kind s.kind && any (λ t. t.from == s.key) ts) _ _ in
    let entering =
      report-append-eq-nil
        (is_paused_kind s.kind && not (all asks_reason (filter (λ t. t.to == s.key) ts))) _ _ in
    (
      λ h.
          let (a, h1) = leaving.0 h in
          let (b, h2) = entering.0 h1 in
          (((terminal_closed_iff ts s).0 a, (paused_reason_iff ts s).0 b), ih.0 h2),
      λ h. leaving.1 (
        (terminal_closed_iff ts s).1 h.0.0,
        entering.1 ((paused_reason_iff ts s).1 h.0.1, ih.1 h.1),
      ),
    )

pub unreached_iff :
    (reached : List String) (problem : String → Problem) (ks : List String)
    → (unreached reached problem ks ≡ []) ↔ All (λ k. Memᴰ k reached) ks
unfolding unreached
unreached_iff reached problem [] = (λ _. tt, λ _. refl)
unreached_iff reached problem (k ∷ ks) =
    let ih = unreached_iff reached problem ks in
    let this =
      report-append-eq-nil (not (contains reached k)) (problem k) (unreached reached problem ks) in
    (
      λ h. let (a, h1) = this.0 h in (contains→mem reached k ((not-eq-false _).0 a), ih.0 h1),
      λ h. this.1 ((not-eq-false _).1 (mem→contains reached h.0), ih.1 h.1),
    )

state_keys_cases :
    (keys : List String) (ss : List StateDefinition) {k : String}
    → Memᴰ k (state_keys keys ss)
    → Memᴰ k keys ⊎ Memᴰ k (keys_of ss)
unfolding state_keys
state_keys_cases keys [] m = inl m
state_keys_cases keys (s ∷ ss) m = elim (state_keys_cases (add keys s.key) ss m) [
  | inl l ↦ elim (mem-add_cases keys s.key l) [ inl a ↦ inl a | inr e ↦ inr (Memᴰ.head e) ]
  | inr r ↦ inr (Memᴰ.tail r)
]

state_keys-mem_keys :
    (keys : List String) (ss : List StateDefinition) {k : String}
    → Memᴰ k keys
    → Memᴰ k (state_keys keys ss)
unfolding state_keys
state_keys-mem_keys keys [] m = m
state_keys-mem_keys keys (s ∷ ss) m =
    state_keys-mem_keys (add keys s.key) ss (mem-add_of_mem keys s.key m)

state_keys-mem :
    (keys : List String) (ss : List StateDefinition) {k : String}
    → Memᴰ k (keys_of ss)
    → Memᴰ k (state_keys keys ss)
unfolding state_keys
state_keys-mem keys [] m = elim m [ ]
state_keys-mem keys (s ∷ ss) (Memᴰ.head e) =
    state_keys-mem_keys (add keys s.key) ss (rw e (mem-add_self keys s.key))
state_keys-mem keys (s ∷ ss) (Memᴰ.tail m) = state_keys-mem (add keys s.key) ss m

pub state_keys_iff :
    (ss : List StateDefinition) (k : String) → Memᴰ k (state_keys [] ss) ↔ Memᴰ k (keys_of ss)
state_keys_iff ss k =
    (λ m. elim (state_keys_cases [] ss m) [ inl a ↦ elim a [ ] | inr r ↦ r ], state_keys-mem [] ss)
