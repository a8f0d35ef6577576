-- ===== src/Billing/Tests.antt =====
-- Billing periods at small inputs.
use xms_backend.Prelude.{
  ◌+◌, String, none, some, true, string_key, [], ◌∷◌, ◌≡◌, ◌≢◌, ◌⊎◌, inl, inr, refl,
}
use xms_backend.Billing.Period.{
  opened, submitted, approved, locked, exported, submit, reopen, approve, lock, mark_exported,
  moved, invalid_transition, billing_transition,
}
use xms_backend.Billing.Handler.{
  BillingPeriod, LockedEvent, RequestContext, failed, done, conflict, stale_version,
  transition_billing_period, update, assign, lock_due, is_lock_due, events_of,
}
use xms_backend.Billing.Stamps.{
  IsStamped, marked_auto, lock_due-transition_billing_period, transition_billing_period-IsStamped,
  written,
}
use xms_backend.Billing.Locking.{perform, lock_is_final}

billing_tests :
    (billing_transition opened submit ≡ moved submitted)
    × (billing_transition submitted submit ≡ invalid_transition (reopen ∷ approve ∷ lock ∷ []))
    × (perform opened (submit ∷ approve ∷ lock ∷ reopen ∷ mark_exported ∷ []) ≡ exported)
unfolding billing_transition perform
billing_tests = (refl, refl, refl)

lock_is_final_example :
    ((locked ≡ locked
        → (perform locked (reopen ∷ mark_exported ∷ []) ≡ locked)
          ⊎ (perform locked (reopen ∷ mark_exported ∷ []) ≡ exported))
      × (locked ≡ exported → perform locked (reopen ∷ mark_exported ∷ []) ≡ exported))
    × (locked ≢ locked → locked ≢ exported → billing_transition locked lock ≡ moved locked)
lock_is_final_example = lock_is_final locked (reopen ∷ mark_exported ∷ [])

abbrev days : String → String → String → String
days account_id starts_on ends_on = starts_on

abbrev may : BillingPeriod String
may = record {
  id = "p1";
  account_id = "a1";
  starts_on = "2026-05-01";
  ends_on = "2026-05-31";
  status = approved;
  submitted_at = some 5;
  submitted_by = some "u1";
  approved_at = some 10;
  approved_by = some "u2";
  locked_at = none;
  locked_by = none;
  auto_lock_at = some 432000010;
  summary = some "2026-05-01";
  version = 3;
}

abbrev by_user : RequestContext
by_user = record { request_id = "r1"; origin = some "user" }

may_locked :
    transition_billing_period days by_user 20 "u2" "a1" lock 3 may
    ≡ done
        (written days 20 "u2" lock may)
        (events_of days by_user "a1" lock (written days 20 "u2" lock may))
unfolding transition_billing_period update assign billing_transition
may_locked = refl

may_refused :
    (transition_billing_period days by_user 20 "u2" "a1" submit 3 may
      ≡ failed (conflict approved (lock ∷ [])))
    × (transition_billing_period days by_user 20 "u2" "a1" lock 2 may ≡ failed stale_version)
unfolding transition_billing_period update billing_transition
may_refused = (refl, refl)

may_due : is_lock_due days 432000010 may ≡ true
unfolding is_lock_due
may_due = refl

may-IsStamped : IsStamped days may
may-IsStamped = record {
  lock_stamp = λ h. absurd (elim h [ inl e ↦ cc | inr e ↦ cc ]);
  approval_stamp = λ e. (10, refl, refl);
}

lock_due-transition_billing_period_example :
    (after : BillingPeriod String) × (event : LockedEvent String) × (transition_billing_period days
        by_user 432000010 "system" "a1" lock 3 may
      ≡ done after (event ∷ []))
    × (lock_due days "u9" 432000010 may ≡ done after (marked_auto days "u9" event ∷ []))
lock_due-transition_billing_period_example =
    lock_due-transition_billing_period days by_user "u9" 432000010 may may_due

transition_billing_period-IsStamped_example :
    IsStamped days (written days 20 "u2" lock may)
    × (may.account_id ≡ "a1")
    × (may.version ≡ 3)
    × ((written days 20 "u2" lock may).version ≡ 3 + 1)
transition_billing_period-IsStamped_example =
    transition_billing_period-IsStamped days by_user 20 "u2" "a1" lock 3 may
      (written days 20 "u2" lock may)
      (events_of days by_user "a1" lock (written days 20 "u2" lock may)) may-IsStamped may_locked
