-- ===== src/Billing/Handler.antt =====
-- src/modules/time/time.module.ts, `transitionBillingPeriod`, with the versioned update of
-- src/db/repository.base.ts, and src/worker/period-jobs.ts, the job that locks periods. A call is one
-- transaction on the row of the period. What `periodSummary` makes of the lines that the database
-- returns for the days of an account is a parameter, and so is the identifier that the job draws. The
-- audit rows are left out.
use xms_backend.Prelude.{
  ℕ, ◌+◌, ◌*◌, String, Bool, true, false, not, ◌&&◌, Option, none, some, List, [], ◌∷◌, leb,
  nat_beq, ◌==◌, string_key, if◌then◌else◌,
}
use xms_backend.Billing.Period.{
  BillingState, approved, locked, BillingAction, submit, reopen, approve, lock, mark_exported,
  TransitionResult, moved, invalid_transition, billing_transition, state_code,
}

pub record BillingPeriod (Summary : Type 0) : Type 0 where
  pub id : String
  pub account_id : String
  pub starts_on : String
  pub ends_on : String
  pub status : BillingState
  pub submitted_at : Option ℕ
  pub submitted_by : Option String
  pub approved_at : Option ℕ
  pub approved_by : Option String
  pub locked_at : Option ℕ
  pub locked_by : Option String
  pub auto_lock_at : Option ℕ
  pub summary : Option Summary
  pub version : ℕ

pub data HandlerError : Type 0 where
  not_found stale_version : HandlerError
  conflict : BillingState → List BillingAction → HandlerError

-- The outbox event `billing_period.locked` of the aggregate `billing_period`. In the payload, `auto`
-- is there only where it is true.
pub record LockedEvent (Summary : Type 0) : Type 0 where
  pub account_id : String
  pub period_id : String
  pub correlation_id : String
  pub origin : Option String
  pub auto : Bool
  pub starts_on : String
  pub ends_on : String
  pub summary : Option Summary

pub data Outcome (Summary : Type 0) : Type 0 where
  failed : HandlerError → Outcome Summary
  done : BillingPeriod Summary → List (LockedEvent Summary) → Outcome Summary

-- What the handler reads of the request.
pub record RequestContext : Type 0 where
  pub request_id : String
  pub origin : Option String

abbrev pub five_days : ℕ
five_days = 5 * 86400000

module _ {Summary : Type 0} (period_summary : String → String → String → Summary) where
  abbrev pub summary_of : BillingPeriod Summary → Summary
  summary_of p = period_summary p.account_id p.starts_on p.ends_on

  -- The assignments of an action besides the status.
  unfoldable pub assign : ℕ → String → BillingAction → BillingPeriod Summary → BillingPeriod Summary
  assign now user submit p = record p {
    submitted_at = some now;
    submitted_by = some user;
    summary = some (summary_of p);
  }
  assign now user approve p = record p {
    approved_at = some now;
    approved_by = some user;
    auto_lock_at = some (now + five_days);
  }
  assign now user lock p = record p {
    locked_at = some now;
    locked_by = some user;
    summary = some (summary_of p);
  }
  assign now user reopen p = p
  assign now user mark_exported p = p

  -- The event of a lock by a request.
  abbrev pub locked_event : RequestContext → String → BillingPeriod Summary → LockedEvent Summary
  locked_event ctx account_id p = record {
    account_id = account_id;
    period_id = p.id;
    correlation_id = ctx.request_id;
    origin = ctx.origin;
    auto = false;
    starts_on = p.starts_on;
    ends_on = p.ends_on;
    summary = p.summary;
  }

  abbrev pub events_of :
      RequestContext → String → BillingAction → BillingPeriod Summary → List (LockedEvent Summary)
  events_of ctx account_id lock p = locked_event ctx account_id p ∷ []
  events_of ctx account_id _ p = []

  -- The update where the version is the expected one, and the event that follows it.
  unfoldable pub update :
      RequestContext
      → ℕ
      → String
      → String
      → BillingAction
      → ℕ
      → BillingState
      → BillingPeriod Summary
      → Outcome Summary
  unfolding assign
  update ctx now user account_id action version to p =
      let after = record (assign now user action p) { status = to; version = p.version + 1 } in
      if nat_beq p.version version
      then done after (events_of ctx account_id action after)
      else failed stale_version

  abbrev pub take_step :
      RequestContext
      → ℕ
      → String
      → String
      → BillingAction
      → ℕ
      → BillingPeriod Summary
      → TransitionResult
      → Outcome Summary
  take_step ctx now user account_id action version p (moved to) =
      update ctx now user account_id action version to p
  take_step ctx now user account_id action version p (invalid_transition allowed) =
      failed (conflict p.status allowed)

  unfoldable pub transition_billing_period :
      RequestContext
      → ℕ
      → String
      → String
      → BillingAction
      → ℕ
      → BillingPeriod Summary
      → Outcome Summary
  unfolding update
  transition_billing_period ctx now user account_id action version p =
      if not (p.account_id == account_id)
      then failed not_found
      else take_step ctx now user account_id action version p (billing_transition p.status action)

  abbrev pub is_due_at : ℕ → Option ℕ → Bool
  is_due_at now none = false
  is_due_at now (some at) = leb at now

  -- The claim of the job and what it does to a period that it claims.
  unfoldable pub is_lock_due : ℕ → BillingPeriod Summary → Bool
  is_lock_due now p =
      nat_beq (state_code p.status) (state_code approved) && is_due_at now p.auto_lock_at

  -- The event of a lock by the job, with a fresh identifier.
  abbrev pub auto_event : String → BillingPeriod Summary → LockedEvent Summary
  auto_event fresh p = record {
    account_id = p.account_id;
    period_id = p.id;
    correlation_id = fresh;
    origin = some "system";
    auto = true;
    starts_on = p.starts_on;
    ends_on = p.ends_on;
    summary = p.summary;
  }

  unfoldable pub lock_due : String → ℕ → BillingPeriod Summary → Outcome Summary
  lock_due fresh now p =
      let after = record p {
        status = locked;
        locked_at = some now;
        locked_by = some "system";
        summary = some (summary_of p);
        version = p.version + 1;
      } in
      done after (auto_event fresh after ∷ [])
