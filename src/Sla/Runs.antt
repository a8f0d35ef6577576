-- ===== src/Sla/Runs.antt =====
-- src/domain/sla/engine.ts: what holds of a clock after any sequence of the engine's operations.
use native.Mathlib.Nat.{add_assoc, add-zero}
use xms_backend.Prelude.{
  ℕ, ◌+◌, ◌≤◌, ◌<◌, ◌≡◌, inl, inr, refl, arith, Option, none, some, List, [], ◌∷◌, ltb, Memᴰ, ◌++◌,
  ◌∙◌, mem-append_cases, Bool-cases, Option-cases, String, subst, sym, ap, All,
}
use xms_backend.Sla.Engine.{
  Calendar, Clock, SlaTargets, ClockKind, make, when_positive, response, resolution, start_clocks,
  latch, pause, resume, mark_met, restamp_for_priority,
}
use xms_backend.Sla.Calendars.{IsCalendar}

-- An operation and the instant at which it is made.
pub data Op : Type 0 where
  latches pauses resumes meets : ℕ → Op
  restamps : ℕ → ℕ → Op

-- An operation that is no change of priority.
abbrev pub KeepsTarget : Op → Type 0
KeepsTarget (restamps target now) = ⊥
KeepsTarget _ = Unit

module _ (calendar : Calendar) where
  unfoldable pub apply : Clock → Op → Clock
  apply c (latches now) = (latch c now).0
  apply c (pauses now) = pause c now
  apply c (resumes now) = (resume c calendar now).0
  apply c (meets now) = mark_met c now
  apply c (restamps target now) = restamp_for_priority c target calendar now

  unfoldable pub run : Clock → List Op → Clock
  unfolding apply
  run c [] = c
  run c (op ∷ ops) = run (apply c op) ops

  -- A breach is no earlier than the due time, and a breached clock is not paused.
  abbrev BreachFits : Option ℕ → Option ℕ → ℕ → Type 0
  BreachFits none paused due = Unit
  BreachFits (some t) paused due = (paused ≡ none) × (due ≤ t)

  abbrev IsSound : Clock → Type 0
  IsSound c = BreachFits c.breached_at c.paused_at c.due_at

  apply-IsSound : (c : Clock) (op : Op) → IsSound c → IsSound (apply c op)
  unfolding apply latch pause resume mark_met restamp_for_priority
  apply-IsSound c (latches now) h = ground arith
  apply-IsSound c (pauses now) h = ground arith
  apply-IsSound c (resumes now) h = ground arith
  apply-IsSound c (meets now) h = ground arith
  apply-IsSound c (restamps target now) h = ground arith

  run-IsSound : (c : Clock) (ops : List Op) → IsSound c → IsSound (run c ops)
  unfolding run
  run-IsSound c [] h = h
  run-IsSound c (op ∷ ops) h = run-IsSound (apply c op) ops (apply-IsSound c op h)

  apply-breached :
      (c : Clock) (op : Op) {t : ℕ}
      → IsSound c
      → c.breached_at ≡ some t
      → ((apply c op).breached_at ≡ some t)
        × ((apply c op).due_at ≡ c.due_at)
        × ((apply c op).target_minutes ≡ c.target_minutes)
  unfolding apply latch pause resume mark_met restamp_for_priority
  apply-breached c (latches now) h e = ground arith
  apply-breached c (pauses now) h e = ground arith
  apply-breached c (resumes now) h e = ground arith
  apply-breached c (meets now) h e = ground arith
  apply-breached c (restamps target now) h e = ground arith

  run-breached :
      (c : Clock) (ops : List Op) {t : ℕ}
      → IsSound c
      → c.breached_at ≡ some t
      → ((run c ops).breached_at ≡ some t)
        × ((run c ops).due_at ≡ c.due_at)
        × ((run c ops).target_minutes ≡ c.target_minutes)
  unfolding run
  run-breached c [] h e = (e, refl, refl)
  run-breached c (op ∷ ops) h e =
      let (b, d, g) = apply-breached c op h e in
      let (b', d', g') = run-breached (apply c op) ops (apply-IsSound c op h) b in
      (b', d' ∙ d, g' ∙ g)

  -- Every clock that the engine makes is one of these.
  abbrev pub Made : SlaTargets → String → ℕ → Clock → Type 0
  Made targets policy_ref now c = Memᴰ c (start_clocks targets policy_ref calendar now)

  when_positive-mem :
      (target : Option ℕ) (policy_ref : String) (now : ℕ) (kind : ClockKind) {c : Clock}
      → Memᴰ c (when_positive target (make policy_ref calendar now kind))
      → (minutes : ℕ) × (target ≡ some minutes)
        × (0 < minutes)
        × (c ≡ make policy_ref calendar now kind minutes)
  when_positive-mem none policy_ref now kind m = elim m [ ]
  when_positive-mem (some minutes) policy_ref now kind m = elim (Bool-cases (ltb 0 minutes)) [
    | inl y ↦ elim (rw y at m) [
      | Memᴰ.head e ↦ (minutes, refl, ground arith, e)
      | Memᴰ.tail t ↦ elim t [ ]
    ]
    | inr n ↦ elim (rw n at m) [ ]
  ]

  started_by_make :
      (targets : SlaTargets) (policy_ref : String) (now : ℕ) {c : Clock}
      → Made targets policy_ref now c
      → (kind : ClockKind) × (minutes : ℕ) × (0 < minutes)
        × (c ≡ make policy_ref calendar now kind minutes)
  unfolding start_clocks
  started_by_make targets policy_ref now m =
      elim (mem-append_cases
        (when_positive targets.response_minutes (make policy_ref calendar now response)) m) [
          | inl l ↦
              let (minutes, e, p, q) =
                when_positive-mem targets.response_minutes policy_ref now response l in
              (response, minutes, p, q)
          | inr r ↦
              let (minutes, e, p, q) =
                when_positive-mem targets.resolution_minutes policy_ref now resolution r in
              (resolution, minutes, p, q)
        ]

  start-IsSound :
      (targets : SlaTargets) (policy_ref : String) (now : ℕ) {c : Clock}
      → Made targets policy_ref now c
      → IsSound c
  unfolding make
  start-IsSound targets policy_ref now m =
      let (kind, minutes, p, e) = started_by_make targets policy_ref now m in rw e tt

  run-append : (c : Clock) (ops later : List Op) → run c (ops ++ later) ≡ run (run c ops) later
  unfolding run
  run-append c [] later = refl
  run-append c (op ∷ ops) later = run-append (apply c op) ops later

  -- Take a clock that the engine started and any sequence of its operations, after which the clock is
  -- breached. The breach is no earlier than the due time and the clock is not paused, and whatever
  -- operations follow, the instant of the breach, the due time and the target stay as they are.
  pub breach_is_final :
      (targets : SlaTargets) (policy_ref : String) (now : ℕ) {c : Clock}
      → Made targets policy_ref now c
      → (ops later : List Op) {t : ℕ} → (run c ops).breached_at ≡ some t
      → ((run c ops).due_at ≤ t)
        × ((run c ops).paused_at ≡ none)
        × ((run c (ops ++ later)).breached_at ≡ some t)
        × ((run c (ops ++ later)).due_at ≡ (run c ops).due_at)
        × ((run c (ops ++ later)).target_minutes ≡ (run c ops).target_minutes)
  breach_is_final targets policy_ref now {c} m ops later e =
      let sound = run-IsSound c ops (start-IsSound targets policy_ref now m) in
      let (paused, due) =
        subst (λ b. BreachFits b (run c ops).paused_at (run c ops).due_at) e sound in
      let (b, d, g) = run-breached (run c ops) later sound e in
      rw (run-append c ops later) (due, paused, b, d, g)

  module _ (laws : IsCalendar calendar) where
    -- The due time is the start, the target and the excluded minutes, on the calendar.
    abbrev DueFits : Clock → Type 0
    DueFits c =
        c.due_at ≡ calendar.add_minutes c.started_at (c.target_minutes + c.paused_total_minutes)

    resume-DueFits : (c : Clock) (now : ℕ) → DueFits c → DueFits (resume c calendar now).0
    unfolding resume
    resume-DueFits c now h = elim (Option-cases c.paused_at) [
      | inl running ↦ rw running h
      | inr (p, paused) ↦
          let excluded = calendar.minutes_between p now in
          rw paused (
            rw h (
              laws.add_add c.started_at (c.target_minutes + c.paused_total_minutes) excluded
              ∙ ap (calendar.add_minutes c.started_at) (add_assoc c.target_minutes _ _)))
    ]

    apply-DueFits : (c : Clock) (op : Op) → KeepsTarget op → DueFits c → DueFits (apply c op)
    unfolding apply latch pause mark_met
    apply-DueFits c (latches now) k h = ground arith
    apply-DueFits c (pauses now) k h = ground arith
    apply-DueFits c (resumes now) k h = resume-DueFits c now h
    apply-DueFits c (meets now) k h = ground arith
    apply-DueFits c (restamps target now) k h = absurd k

    run-DueFits :
        (c : Clock) (ops : List Op) → All KeepsTarget ops → DueFits c → DueFits (run c ops)
    unfolding run
    run-DueFits c [] k h = h
    run-DueFits c (op ∷ ops) k h = run-DueFits (apply c op) ops k.1 (apply-DueFits c op k.0 h)

    -- On a calendar whose minutes add up: a clock that the engine started, after any latches, pauses,
    -- resumes and marks in any order, is due the target and the minutes excluded so far after its
    -- start.
    pub due_is_target_and_pauses :
        (targets : SlaTargets) (policy_ref : String) (now : ℕ) {c : Clock}
        → Made targets policy_ref now c
        → (ops : List Op) → All KeepsTarget ops
        → (run c ops).due_at
          ≡ calendar.add_minutes
              (run c ops).started_at
              ((run c ops).target_minutes + (run c ops).paused_total_minutes)
    unfolding make
    due_is_target_and_pauses targets policy_ref now {c} m ops k =
        let (kind, minutes, p, e) = started_by_make targets policy_ref now m in
        run-DueFits c ops k (rw e (ap (calendar.add_minutes now) (sym (add-zero minutes))))
