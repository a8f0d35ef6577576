-- ===== src/Sync/Steps.antt =====
-- src/modules/connectors/sync.worker.ts and connectors.service.ts: the queue of the outbound half over
-- time. Events of the outbox, claims, deliveries and operators interleave, so a delivery may work on a
-- row that was claimed long before it.
use xms_backend.Outbox.Dispatcher.{OutboxRow}
use xms_backend.Prelude.Json.{Value}
use xms_backend.Prelude.{
  ℕ, ◌<◌, String, true, ◌&&◌, Option, none, some, List, [], ◌∷◌, ◌++◌, any, filter, ◌==◌,
  string_key, Memᴰ, mem-append_cases, mem_of_mem-take, mem_of_mem-filter, ◌≡◌, ◌⊎◌, inl, inr, refl,
  sym, subst, subst₂, arith, Bool-cases,
}
use xms_backend.Sync.Calls.{Failure, Result, ok, throws, World}
use xms_backend.Sync.Delivery.{conclude, on_failure, deliver_fresh, deliver_one, find_instance}
use xms_backend.Sync.Endings.{push-Ends}
use xms_backend.Sync.Failures.{on_failure_cases}
use xms_backend.Sync.Insertion.{on_outbox-HasSoundQueue}
use xms_backend.Sync.Outbound.{Store, Instance, OutboundRow, is_pending}
use xms_backend.Sync.Push.{push}
use xms_backend.Sync.Queue.{on_outbox}
use xms_backend.Sync.Repository.{
  reopen_outbound, goes_before, line_up, by_age, is_armed, is_due, claim_outbound,
}
use xms_backend.Sync.Settle.{Pushed}
use xms_backend.Sync.Settled.{IsSettled}
use xms_backend.Sync.SoundQueue.{
  IsSoundQueue, HasSoundQueue, empty_queue, update_rows-IsSoundQueue, reopen_outbound-IsSoundQueue,
}

mem-line_up :
    (r : OutboundRow) (xs : List OutboundRow) {y : OutboundRow}
    → Memᴰ y (line_up r xs)
    → (y ≡ r) ⊎ Memᴰ y xs
unfolding line_up
mem-line_up r [] (Memᴰ.head e) = inl e
mem-line_up r [] (Memᴰ.tail t) = elim t [ ]
mem-line_up r (x ∷ xs) m = elim (Bool-cases (goes_before r x)) [
  | inl y ↦ elim (rw y at m) [ Memᴰ.head e ↦ inl e | Memᴰ.tail t ↦ inr t ]
  | inr n ↦ elim (rw n at m) [
    | Memᴰ.head e ↦ inr (Memᴰ.head e)
    | Memᴰ.tail t ↦ elim (mem-line_up r xs t) [ inl e ↦ inl e | inr l ↦ inr (Memᴰ.tail l) ]
  ]
]

mem_of_mem-by_age : (rs : List OutboundRow) {y : OutboundRow} → Memᴰ y (by_age rs) → Memᴰ y rs
unfolding by_age
mem_of_mem-by_age [] m = m
mem_of_mem-by_age (r ∷ rs) m = elim (mem-line_up r (by_age rs) m) [
  | inl e ↦ Memᴰ.head e
  | inr l ↦ Memᴰ.tail (mem_of_mem-by_age rs l)
]

-- A claimed row stands in the table and is due.
pub claimed_row :
    (instance_id : String) (now : ℕ) (s : Store) {r : OutboundRow}
    → Memᴰ r (claim_outbound instance_id now s)
    → Memᴰ r s.rows × (is_due now instance_id r ≡ true)
unfolding claim_outbound
claimed_row instance_id now s m =
    elim (Bool-cases (any (λ (i : Instance). i.id == instance_id && is_armed i) s.instances)) [
      | inl t ↦
          let due = filter (is_due now instance_id) s.rows in
          mem_of_mem-filter (is_due now instance_id) s.rows
            (mem_of_mem-by_age due (mem_of_mem-take 50 (by_age due) (rw t at m)))
      | inr f ↦ elim (rw f at m) [ ]
    ]

module _ (to_text : Value → String) (world : World) (now : ℕ) (instance : Instance)
    (row : OutboundRow) where
  on_failure-HasSoundQueue :
      (e : Failure) (s : Store)
      → row.attempts < 5
      → HasSoundQueue s
      → HasSoundQueue (on_failure now instance row e s).store
  on_failure-HasSoundQueue e s few q = elim (on_failure_cases now instance row e s) [
    | inl (why, g) ↦ subst₂ IsSoundQueue (sym g.rows) (sym g.undone.next_id) (
        update_rows-IsSoundQueue row.id s.next_id _ s.rows
          (record { id = λ r. refl; instance_id = λ r. refl; outbox_id = λ r. refl })
          (λ r. record { bounded = omega arith; waiting = λ h. cc }) q)
    | inr (retryable, lt, t) ↦ subst₂ IsSoundQueue (sym t.rows) (sym t.undone.next_id) (
        update_rows-IsSoundQueue row.id s.next_id _ s.rows
          (record { id = λ r. refl; instance_id = λ r. refl; outbox_id = λ r. refl })
          (λ r. record { bounded = omega arith; waiting = λ h. omega arith }) q)
  ]

  conclude-HasSoundQueue :
      (s : Store) (r : Result Pushed)
      → ((p : Pushed) → r ≡ ok p → IsSettled row s p.store)
      → row.attempts < 5
      → HasSoundQueue s
      → HasSoundQueue (conclude now instance row s r).store
  unfolding conclude
  conclude-HasSoundQueue s (throws e) settled few q = on_failure-HasSoundQueue e s few q
  conclude-HasSoundQueue s (ok p) settled few q =
      let done = settled p refl in
      subst₂ IsSoundQueue (sym done.rows) (sym done.next_id) (
        update_rows-IsSoundQueue row.id s.next_id done.set s.rows done.keeps
          (λ r.
            let more = done.attempts r in
            let gone = done.out r in record { bounded = omega arith; waiting = λ h. absurd (cc) })
          q)

  deliver_fresh-HasSoundQueue :
      (o : Option Instance) (s : Store)
      → row.attempts < 5
      → HasSoundQueue s
      → HasSoundQueue (deliver_fresh to_text world now instance row s o).1.store
  unfolding deliver_fresh
  deliver_fresh-HasSoundQueue none s few q = on_failure-HasSoundQueue _ s few q
  deliver_fresh-HasSoundQueue (some fresh) s few q = elim (Bool-cases (is_armed fresh)) [
    | inl t ↦ rw t (
        conclude-HasSoundQueue s (push to_text world now fresh row s).1
          (push-Ends to_text world now fresh row s) few q)
    | inr f ↦ rw f q
  ]

  pub deliver_one-HasSoundQueue :
      (s : Store)
      → row.attempts < 5
      → HasSoundQueue s
      → HasSoundQueue (deliver_one to_text world now instance row s).1.store
  unfolding deliver_one
  deliver_one-HasSoundQueue s few q =
      deliver_fresh-HasSoundQueue (find_instance instance.id s.instances) s few q

-- The store and the rows that the worker has claimed and not forgotten.
pub record Moment : Type 0 where
  pub store : Store
  pub in_flight : List OutboundRow

-- What happens to the queue. The rest of the program changes instances, links and the other tables.
pub data Step (to_text : Value → String) : Moment → Moment → Type 0 where
  queues :
      (subscriptions : List (String × List String)) (now : ℕ) (row : OutboxRow) (m : Moment)
      → Step to_text m (record m { store = on_outbox to_text subscriptions now row m.store })
  claims :
      (instance_id : String) (now : ℕ) (m : Moment)
      → Step to_text m
          (record m { in_flight = claim_outbound instance_id now m.store ++ m.in_flight })
  delivers :
      (world : World) (now : ℕ) (instance : Instance) (row : OutboundRow) (m : Moment)
      → Memᴰ row m.in_flight
      → Step to_text m
          (record m { store = (deliver_one to_text world now instance row m.store).1.store })
  reopens :
      (now id : ℕ) (m : Moment)
      → Step to_text m (record m { store = reopen_outbound now id m.store })
  elsewhere :
      (m n : Moment)
      → n.store.rows ≡ m.store.rows
      → n.store.next_id ≡ m.store.next_id
      → n.in_flight ≡ m.in_flight
      → Step to_text m n

-- The moments that come of an empty queue.
pub data Reachable (to_text : Value → String) : Moment → Type 0 where
  start :
      (m : Moment)
      → m.store.rows ≡ []
      → m.store.next_id ≡ 0
      → m.in_flight ≡ []
      → Reachable to_text m
  step : {m n : Moment} → Reachable to_text m → Step to_text m n → Reachable to_text n

-- The table is sound, and every row in flight was claimed with an attempt left.
record IsSoundMoment (m : Moment) : Type 0 where
  pub queue : HasSoundQueue m.store
  pub claimed : (r : OutboundRow) → Memᴰ r m.in_flight → r.attempts < 5

module _ (to_text : Value → String) where
  IsSoundMoment-Step : (m n : Moment) → Step to_text m n → IsSoundMoment m → IsSoundMoment n
  IsSoundMoment-Step _ _ (Step.queues subscriptions now row m) h = record {
    queue = on_outbox-HasSoundQueue to_text subscriptions now row m.store h.queue;
    claimed = h.claimed;
  }
  IsSoundMoment-Step _ _ (Step.claims instance_id now m) h = record {
    queue = h.queue;
    claimed = λ r l. elim (mem-append_cases (claim_outbound instance_id now m.store) l) [
      | inr k ↦ h.claimed r k
      | inl k ↦
          let (listed, due) = claimed_row instance_id now m.store k in
          let waits : is_pending r.status ≡ true = ground arith in
          (h.queue.tries r listed).waiting waits
    ];
  }
  IsSoundMoment-Step _ _ (Step.delivers world now instance row m l) h = record {
    queue =
        deliver_one-HasSoundQueue to_text world now instance row m.store (h.claimed row l) h.queue;
    claimed = h.claimed;
  }
  IsSoundMoment-Step _ _ (Step.reopens now id m) h = record {
    queue = reopen_outbound-IsSoundQueue now id m.store h.queue;
    claimed = h.claimed;
  }
  IsSoundMoment-Step _ _ (Step.elsewhere m n rows next flight) h = record {
    queue = subst₂ IsSoundQueue (sym rows) (sym next) h.queue;
    claimed = λ r l. h.claimed r (subst (λ rs. Memᴰ r rs) flight l);
  }

  IsSoundMoment-Reachable : (m : Moment) → Reachable to_text m → IsSoundMoment m
  IsSoundMoment-Reachable _ (Reachable.start m rows next flight) = record {
    queue = subst₂ IsSoundQueue (sym rows) (sym next) empty_queue;
    claimed = λ r l. elim (subst (λ rs. Memᴰ r rs) flight l) [ ];
  }
  IsSoundMoment-Reachable _ (Reachable.step {m} {n} before s) =
      IsSoundMoment-Step m n s (IsSoundMoment-Reachable m before)

  -- However events, claims, deliveries, retries by an operator and the rest of the program follow one
  -- another, two rows of the queue are never of the same instance and the same event of the outbox, so
  -- that an event that is handed over again adds none. The attempts that a row counts, which a retry by
  -- an operator sets back to none, are never more than five, and fewer than that while the row waits.
  pub reachable-HasSoundQueue : (m : Moment) → Reachable to_text m → HasSoundQueue m.store
  reachable-HasSoundQueue m r = (IsSoundMoment-Reachable m r).queue
