-- ===== src/Sync/StateMap.antt =====
-- src/domain/sync/maps.ts: the states of the two sides of a link. A JavaScript object that is used as
-- a dictionary is the list of its entries.
use xms_backend.Prelude.Maps.{lookup}
use xms_backend.Prelude.{
  String, Bool, true, not, ◌&&◌, Option, none, some, List, [], ◌∷◌, contains, contains→mem, ◌==◌,
  if◌then◌else◌, string_key, Memᴰ, is_nil, ◌≡◌, ◌≢◌, inl, inr, subst, some-injective, ==_false_iff,
  Bool-cases, Option-cases,
}

pub record StateMapForType : Type 0 where
  pub inbound : List (String × String)
  pub outbound : List (String × String)
  pub accept_inbound : Option (List String)
  pub fallback : Option (List (String × String))

pub data Refusal : Type 0 where
  unmapped not_accepted unreachable same : Refusal

pub data InboundState : Type 0 where
  direct : String → InboundState
  by_fallback : String → InboundState
  refused : Refusal → InboundState

abbrev pub accepts : Option (List String) → String → Bool
accepts none state = true
accepts (some states) state = contains states state

-- `entry.fallback?.[key]`; a text that is empty is false, as where it is missing.
abbrev pub fallback_of : Option (List (String × String)) → String → Option String
fallback_of none key = none
fallback_of (some entries) key = lookup key entries

abbrev pub present : Option String → Option String
present none = none
present (some s) = if s == "" then none else some s

abbrev pub try_fallback : Option String → List String → InboundState
try_fallback none allowed = refused unreachable
try_fallback (some state) allowed =
    if contains allowed state then by_fallback state else refused unreachable

-- The tests of `resolveInboundState` for a state that is mapped.
unfoldable pub resolve_mapped : StateMapForType → String → String → List String → InboundState
resolve_mapped entry mapped current allowed =
    if mapped == current
    then refused same
    else if not (accepts entry.accept_inbound mapped)
    then refused not_accepted
    else if contains allowed mapped
    then direct mapped
    else try_fallback (present (fallback_of entry.fallback mapped)) allowed

unfoldable pub resolve_found : StateMapForType → String → List String → Option String → InboundState
unfolding resolve_mapped
resolve_found entry current allowed none = refused unmapped
resolve_found entry current allowed (some mapped) = resolve_mapped entry mapped current allowed

unfoldable pub resolve_inbound_state :
    StateMapForType → String → String → List String → InboundState
unfolding resolve_found
resolve_inbound_state entry external_state current allowed =
    resolve_found entry current allowed (present (lookup external_state entry.inbound))

pub record SharedState : Type 0 where
  pub value : String
  pub shared : List String
  pub canonical : Option String

pub data OutboundState : Type 0 where
  no_outbound : OutboundState
  alone : String → OutboundState
  tied : SharedState → OutboundState

-- The other states that leave as the same external state.
unfoldable pub sharing : String → String → List (String × String) → List String
sharing value xms_state [] = []
sharing value xms_state (e ∷ es) =
    let rest = sharing value xms_state es in
    if e.1 == value && not (e.0 == xms_state) then e.0 ∷ rest else rest

abbrev pub leave_as : String → List String → Option String → OutboundState
leave_as value shared canonical =
    if is_nil shared
    then alone value
    else tied (record { value = value; shared = shared; canonical = canonical })

abbrev pub outbound_found : StateMapForType → String → Option String → OutboundState
outbound_found entry xms_state none = no_outbound
outbound_found entry xms_state (some value) =
    leave_as value (sharing value xms_state entry.outbound)
      (present (fallback_of entry.fallback value))

unfoldable pub resolve_outbound_state : StateMapForType → String → OutboundState
unfolding sharing
resolve_outbound_state entry xms_state =
    outbound_found entry xms_state (lookup xms_state entry.outbound)

-- The state that a resolution moves the ticket to.
abbrev pub target : InboundState → Option String
target (direct s) = some s
target (by_fallback s) = some s
target (refused r) = none

fallback_allowed :
    (o : Option String) (allowed : List String) (s : String)
    → target (try_fallback o allowed) ≡ some s
    → Memᴰ s allowed
fallback_allowed none allowed s h = cc
fallback_allowed (some f) allowed s h = elim (Bool-cases (contains allowed f)) [
  | inr n ↦ cc (rw n at h)
  | inl t ↦
      let same : f ≡ s = some-injective f s (rw t at h) in
      subst (λ z. Memᴰ z allowed) same (contains→mem allowed f t)
]

present-eq_some : (o : Option String) (s : String) → present o ≡ some s → o ≡ some s
present-eq_some none s h = cc
present-eq_some (some t) s h = elim (Bool-cases (t == "")) [
  | inl y ↦ cc (rw y at h)
  | inr n ↦ rw n at h
]

-- What a target says of the state that is mapped.
resolve_mapped-target :
    (entry : StateMapForType) (mapped current : String) (allowed : List String) (s : String)
    → target (resolve_mapped entry mapped current allowed) ≡ some s
    → Memᴰ s allowed × (mapped ≢ current) × (accepts entry.accept_inbound mapped ≡ true)
unfolding resolve_mapped
resolve_mapped-target entry mapped current allowed s h = elim (Bool-cases (mapped == current)) [
  | inl y ↦ cc (rw y at h)
  | inr differs ↦ elim (Bool-cases (accepts entry.accept_inbound mapped)) [
    | inr n ↦ cc (rw (differs, n) at h)
    | inl accepted ↦
        let apart = (==_false_iff mapped current).0 differs in
        elim (Bool-cases (contains allowed mapped)) [
          | inl y ↦
              let same : mapped ≡ s = some-injective mapped s (rw (differs, accepted, y) at h) in
              (subst (λ z. Memᴰ z allowed) same (contains→mem allowed mapped y), apart, accepted)
          | inr n ↦ (
            fallback_allowed (present (fallback_of entry.fallback mapped)) allowed s
                (rw (differs, accepted, n) at h),
            apart,
            accepted,
          )
        ]
  ]
]

-- An inbound state moves the ticket only where the state machine allows it to move, and only where
-- it is mapped to a state that is another than the current one and that the map accepts.
pub resolve_inbound_state-allowed :
    (entry : StateMapForType) (external_state current : String) (allowed : List String) (s : String)
    → target (resolve_inbound_state entry external_state current allowed) ≡ some s
    → Memᴰ s allowed
      × ((mapped : String) × (lookup external_state entry.inbound ≡ some mapped)
          × (mapped ≢ current)
          × (accepts entry.accept_inbound mapped ≡ true))
unfolding resolve_inbound_state resolve_found
resolve_inbound_state-allowed entry external_state current allowed s h =
    elim (Option-cases (present (lookup external_state entry.inbound))) [
      | inl n ↦ cc (rw n at h)
      | inr (mapped, e) ↦
          let (m, apart, accepted) =
            resolve_mapped-target entry mapped current allowed s (rw e at h) in
          (m, (mapped, present-eq_some _ mapped e, apart, accepted))
    ]
