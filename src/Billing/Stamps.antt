-- ===== src/Billing/Stamps.antt =====
-- src/modules/time/time.module.ts and src/worker/period-jobs.ts: what is recorded on a period, and
-- the lock by the job beside the lock by a person.
use xms_backend.Prelude.{
  ℕ, ◌+◌, String, true, none, some, List, [], ◌∷◌, nat_beq, nat_beq_iff, ◌==◌, ==_refl, ==_iff,
  string_key, ◌≡◌, ◌≢◌, ◌⊎◌, inl, inr, refl, sym, ap, ◌∙◌, subst, arith, Bool-cases,
}
use xms_backend.Billing.Period.{
  BillingState, opened, submitted, approved, locked, exported, BillingAction, submit, reopen,
  approve, lock, mark_exported, moved, billing_transition, state_code, leaves, billing_transitions,
}
use xms_backend.Billing.Locking.{state_after}
use xms_backend.Billing.Handler.{
  BillingPeriod, LockedEvent, RequestContext, Outcome, locked_event, failed, done, five_days,
  assign, events_of, update, transition_billing_period, is_lock_due, lock_due,
}

approved_of_code :
    (s : BillingState) → nat_beq (state_code s) (state_code approved) ≡ true → s ≡ approved
approved_of_code opened h = cc
approved_of_code submitted h = cc
approved_of_code approved h = refl
approved_of_code locked h = cc
approved_of_code exported h = cc

moved_to :
    (s : BillingState) (a : BillingAction) (to : BillingState)
    → billing_transition s a ≡ moved to
    → (to ≡ (billing_transitions a).to) × (leaves s a ≡ true)
unfolding billing_transition
moved_to s a to h = elim (Bool-cases (leaves s a)) [
  | inl t ↦
      let same : (billing_transitions a).to ≡ to = ap (state_after to) (rw t at h) in (sym same, t)
  | inr f ↦ absurd (let g = rw f at h in cc)
]

locked_of_export : (s : BillingState) → leaves s mark_exported ≡ true → s ≡ locked
locked_of_export opened h = cc
locked_of_export submitted h = cc
locked_of_export approved h = cc
locked_of_export locked h = refl
locked_of_export exported h = cc

module _ {Summary : Type 0} (period_summary : String → String → String → Summary) where
  -- What the job makes of the event of a handler: its own mark, origin and identifier.
  abbrev pub marked_auto : String → LockedEvent Summary → LockedEvent Summary
  marked_auto fresh e = record e { correlation_id = fresh; origin = some "system"; auto = true }

  -- For a period that the job claims, the handler does not refuse the lock that the user "system" asks for
  -- with the version of the row. The job writes the row that the handler writes, and sends the one event
  -- that the handler sends, but for the mark `auto`, the origin "system" and its own correlation id.
  pub lock_due-transition_billing_period :
      (ctx : RequestContext) (fresh : String) (now : ℕ) (p : BillingPeriod Summary)
      → is_lock_due period_summary now p ≡ true
      → (after : BillingPeriod Summary) × (event : LockedEvent Summary) × (transition_billing_period
            period_summary ctx now "system" p.account_id lock p.version p
          ≡ done after (event ∷ []))
        × (lock_due period_summary fresh now p ≡ done after (marked_auto fresh event ∷ []))
  unfolding is_lock_due lock_due transition_billing_period update assign billing_transition
  lock_due-transition_billing_period ctx fresh now p due =
      let at_approved = approved_of_code p.status (ground arith) in
      let own : (p.account_id == p.account_id) ≡ true = ==_refl p.account_id in
      let current : nat_beq p.version p.version ≡ true = (nat_beq_iff p.version p.version).1 refl in
      let step : billing_transition p.status lock ≡ moved locked =
        ap (λ s. billing_transition s lock) at_approved in
      let after = record (assign period_summary now "system" lock p) {
        status = locked;
        version = p.version + 1;
      } in
      (
        after,
        locked_event period_summary ctx p.account_id after,
        rw (own, step, current) refl,
        refl,
      )

  -- What a period records: once it is locked, who locked it, when, and the summary; and while it is approved,
  -- the approval and the instant five days later at which the job locks it.
  pub record IsStamped (p : BillingPeriod Summary) : Type 0 where
    pub lock_stamp :
        (p.status ≡ locked) ⊎ (p.status ≡ exported)
        → (p.locked_at ≢ none) × (p.locked_by ≢ none) × (p.summary ≢ none)
    pub approval_stamp :
        p.status ≡ approved
        → (at : ℕ) × (p.approved_at ≡ some at) × (p.auto_lock_at ≡ some (at + five_days))

  -- The row that an action writes.
  abbrev pub written : ℕ → String → BillingAction → BillingPeriod Summary → BillingPeriod Summary
  written now user action p = record (assign period_summary now user action p) {
    status = (billing_transitions action).to;
    version = p.version + 1;
  }

  written-IsStamped :
      (now : ℕ) (user : String) (action : BillingAction) (p : BillingPeriod Summary)
      → IsStamped p
      → leaves p.status action ≡ true
      → IsStamped (written now user action p)
  unfolding assign
  written-IsStamped now user submit p stamped l = record {
    lock_stamp = λ h. absurd (elim h [ inl e ↦ cc | inr e ↦ cc ]);
    approval_stamp = λ h. cc;
  }
  written-IsStamped now user reopen p stamped l = record {
    lock_stamp = λ h. absurd (elim h [ inl e ↦ cc | inr e ↦ cc ]);
    approval_stamp = λ h. cc;
  }
  written-IsStamped now user approve p stamped l = record {
    lock_stamp = λ h. absurd (elim h [ inl e ↦ cc | inr e ↦ cc ]);
    approval_stamp = λ h. (now, refl, refl);
  }
  written-IsStamped now user lock p stamped l = record {
    lock_stamp = λ h. (λ e. cc, λ e. cc, λ e. cc);
    approval_stamp = λ h. cc;
  }
  written-IsStamped now user mark_exported p stamped l = record {
    lock_stamp = λ h. stamped.lock_stamp (inl (locked_of_export p.status l));
    approval_stamp = λ h. cc;
  }

  row_of : BillingPeriod Summary → Outcome Summary → BillingPeriod Summary
  row_of p (failed e) = p
  row_of p (done after events) = after

  events_in : Outcome Summary → List (LockedEvent Summary)
  events_in (failed e) = []
  events_in (done after events) = events

  updated :
      (ctx : RequestContext) (now : ℕ) (user account_id : String) (action : BillingAction)
      (version : ℕ) (to : BillingState) (p after : BillingPeriod Summary)
      (events : List (LockedEvent Summary))
      → update period_summary ctx now user account_id action version to p ≡ done after events
      → (p.version ≡ version)
        × (after ≡ record (assign period_summary now user action p) {
          status = to;
          version = p.version + 1;
        })
        × (events
            ≡ events_of period_summary ctx account_id action
                (record (assign period_summary now user action p) {
                  status = to;
                  version = p.version + 1;
                }))
  unfolding update row_of events_in
  updated ctx now user account_id action version to p after events h =
      elim (Bool-cases (nat_beq p.version version)) [
        | inr n ↦ absurd (let g = rw n at h in cc)
        | inl t ↦
            let g : done
                  (record (assign period_summary now user action p) {
                    status = to;
                    version = p.version + 1;
                  })
                  (events_of period_summary ctx account_id action
                    (record (assign period_summary now user action p) {
                      status = to;
                      version = p.version + 1;
                    }))
                ≡ done after events =
              rw t at h in
            ((nat_beq_iff p.version version).0 t, sym (ap (row_of p) g), sym (ap events_in g))
      ]

  -- What the handler comes to when it is done.
  done-written :
      (ctx : RequestContext) (now : ℕ) (user account_id : String) (action : BillingAction)
      (version : ℕ) (p after : BillingPeriod Summary) (events : List (LockedEvent Summary))
      → transition_billing_period period_summary ctx now user account_id action version p
        ≡ done after events
      → (leaves p.status action ≡ true)
        × (p.account_id ≡ account_id)
        × (p.version ≡ version)
        × (after ≡ written now user action p)
        × (events ≡ events_of period_summary ctx account_id action (written now user action p))
  unfolding transition_billing_period billing_transition
  done-written ctx now user account_id action version p after events h =
      elim (Bool-cases (p.account_id == account_id)) [
        | inr n ↦ absurd (let g = rw n at h in cc)
        | inl own ↦ elim (Bool-cases (leaves p.status action)) [
          | inr n ↦ absurd (let g = rw (own, n) at h in cc)
          | inl l ↦
              let g : update period_summary ctx now user account_id action version
                    (billing_transitions action).to p
                  ≡ done after events =
                rw (own, l) at h in
              let (current, row, sent) =
                updated ctx now user account_id action version (billing_transitions action).to p
                  after events g in
              (l, (==_iff p.account_id account_id).0 own, current, row, sent)
        ]
      ]

  -- An action that is done was asked with the account and the version of the row, raises the version,
  -- so that no second action with the old one is done, and keeps the stamps: a locked or exported
  -- period has who locked it, when, and its summary, and an approved one the instant of its lock.
  pub transition_billing_period-IsStamped :
      (ctx : RequestContext) (now : ℕ) (user account_id : String) (action : BillingAction)
      (version : ℕ) (p after : BillingPeriod Summary) (events : List (LockedEvent Summary))
      → IsStamped p
      → transition_billing_period period_summary ctx now user account_id action version p
        ≡ done after events
      → IsStamped after
        × (p.account_id ≡ account_id)
        × (p.version ≡ version)
        × (after.version ≡ version + 1)
  transition_billing_period-IsStamped ctx now user account_id action version p after events stamped
        h =
      let (l, own, current, same, raised) =
        done-written ctx now user account_id action version p after events h in
      (
        subst IsStamped (sym same) (written-IsStamped now user action p stamped l),
        own,
        current,
        ap (λ z. z.version) same ∙ ap (λ n. n + 1) current,
      )
