-- ===== src/Sync/Advance.antt =====
-- src/modules/connectors/sync.worker.ts, `deliverOne`: each delivery brings its row closer to an end.
use xms_backend.Prelude.Json.{Value}
use xms_backend.Prelude.{
  ℕ, suc, ◌<◌, String, true, some, List, map, ◌==◌, ==_refl, if◌then◌else◌, number_key, Memᴰ,
  mem-map, ◌≡◌, inl, inr, refl, sym, subst, arith,
}
use xms_backend.Sync.Calls.{Failure, describe, Result, ok, throws, World}
use xms_backend.Sync.Delivery.{
  set_given_up, set_retry, conclude, on_failure, deliver_fresh, deliver_one, find_instance,
}
use xms_backend.Sync.Endings.{push-Ends}
use xms_backend.Sync.Failures.{on_failure_cases}
use xms_backend.Sync.Outbound.{Store, Instance, OutboundRow, is_pending}
use xms_backend.Sync.Push.{push}
use xms_backend.Sync.Repository.{update_rows, is_armed}
use xms_backend.Sync.Settle.{Pushed}
use xms_backend.Sync.Settled.{IsSettled}

mem-update_rows_set :
    (row : OutboundRow) (set : OutboundRow → OutboundRow) (rows : List OutboundRow)
    → Memᴰ row rows
    → Memᴰ (set row) (update_rows row.id set rows)
unfolding update_rows
mem-update_rows_set row set rows m =
    let t : (row.id == row.id) ≡ true = ==_refl row.id in
    let moved = mem-map (λ (r : OutboundRow). if r.id == row.id then set r else r) m in
    subst
      (λ (z : OutboundRow).
        Memᴰ z (map (λ (r : OutboundRow). if r.id == row.id then set r else r) rows))
      (rw t refl) moved

-- The row as it then stands has an attempt more, and waits only with attempts left.
pub record HasAdvanced (row : OutboundRow) (after : Store) : Type 0 where
  pub then_row : OutboundRow
  pub stands : Memᴰ then_row after.rows
  pub same : then_row.id ≡ row.id
  pub attempts : then_row.attempts ≡ suc row.attempts
  pub waits : is_pending then_row.status ≡ true → suc row.attempts < 5

module _ (to_text : Value → String) (world : World) (now : ℕ) (instance : Instance)
    (row : OutboundRow) (s : Store) where
  on_failure-HasAdvanced :
      (e : Failure) → Memᴰ row s.rows → HasAdvanced row (on_failure now instance row e s).store
  on_failure-HasAdvanced e m = elim (on_failure_cases now instance row e s) [
    | inl (why, g) ↦ record {
      then_row = set_given_up (suc row.attempts) (describe e) row;
      stands =
          subst (λ rs. Memᴰ (set_given_up (suc row.attempts) (describe e) row) rs) (sym g.rows)
            (mem-update_rows_set row _ s.rows m);
      same = refl;
      attempts = refl;
      waits = λ h. absurd (cc);
    }
    | inr (retryable, few, t) ↦ record {
      then_row = set_retry (suc row.attempts) t.next (describe e) row;
      stands =
          subst (λ rs. Memᴰ (set_retry (suc row.attempts) t.next (describe e) row) rs) (sym t.rows)
            (mem-update_rows_set row _ s.rows m);
      same = refl;
      attempts = refl;
      waits = λ h. omega arith;
    }
  ]

  conclude-HasAdvanced :
      (r : Result Pushed)
      → ((p : Pushed) → r ≡ ok p → IsSettled row s p.store)
      → Memᴰ row s.rows
      → HasAdvanced row (conclude now instance row s r).store
  unfolding conclude
  conclude-HasAdvanced (throws e) settled m = on_failure-HasAdvanced e m
  conclude-HasAdvanced (ok p) settled m =
      let done = settled p refl in
      record {
        then_row = done.set row;
        stands =
            subst (λ rs. Memᴰ (done.set row) rs) (sym done.rows)
              (mem-update_rows_set row done.set s.rows m);
        same = done.keeps.id row;
        attempts = done.attempts row;
        waits = λ h. let gone = done.out row in absurd (cc);
      }

  -- A delivery of a row of the table to an armed instance, whatever the instance answers, leaves the row in
  -- the table with one attempt more than it had, and waiting only if that is less than five: the
  -- fifth delivery at the latest takes it out of the queue.
  pub deliver_one-HasAdvanced :
      (fresh : Instance)
      → find_instance instance.id s.instances ≡ some fresh
      → is_armed fresh ≡ true
      → Memᴰ row s.rows
      → HasAdvanced row (deliver_one to_text world now instance row s).1.store
  unfolding deliver_one deliver_fresh
  deliver_one-HasAdvanced fresh found armed m =
      rw (found, armed)
        (conclude-HasAdvanced (push to_text world now fresh row s).1
          (push-Ends to_text world now fresh row s) m)
