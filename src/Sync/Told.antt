-- ===== src/Sync/Told.antt =====
-- src/modules/connectors/sync.worker.ts, `onOutbox`: for which instances an event has a row.
use xms_backend.Outbox.Dispatcher.{OutboxRow}
use xms_backend.Prelude.{
  ℕ, String, true, false, not, Option, none, some, List, [], ◌∷◌, any, any→some, is_none, ◌==◌,
  ==_iff, string_key, number_key, Memᴰ, mem-append_cases, mem-append_left, mem-append_right, ◌≡◌,
  ◌⊎◌, inl, inr, refl, sym, ap, subst, ◌∙◌, arith, Bool-cases,
}
use xms_backend.Prelude.Json.{Value}
use xms_backend.Sync.Enqueue.{decide_enqueue_iff}
use xms_backend.Sync.Outbound.{Store, Instance, Link, OutboundRow, pending}
use xms_backend.Sync.Queue.{
  is_outbound_event, enqueue_input, carry_out, queue_for, queue_all, instances_of, on_outbox,
}
use xms_backend.Sync.Repository.{
  OutboundInput, same_outbox, conflicts, new_row, insert_outbound, link_by_ticket,
}
use xms_backend.Sync.Rules.{
  EnqueueDecision, enqueue, own_origin, wrong_mode, unsubscribed, work_notes_off,
  internal_attachment, no_link, decide_enqueue,
}

-- A row of an instance for an event.
pub record IsRowFor (row : OutboxRow) (instance_id : String) (r : OutboundRow) : Type 0 where
  pub instance : r.instance_id ≡ instance_id
  pub event : r.outbox_id ≡ some row.id

-- The rows of an instance for an event are new, and wait.
pub record IsNewFor (row : OutboxRow) (instance_id : String) (r : OutboundRow) : Type 0 where
  pub for_event : IsRowFor row instance_id r
  pub waits : r.status ≡ pending
  pub untried : r.attempts ≡ 0

same_outbox-some : (o : Option ℕ) (n : ℕ) → same_outbox o (some n) ≡ true → o ≡ some n
same_outbox-some none n h = cc
same_outbox-some (some m) n h = ap some ((==_iff m n).0 h)

module _ (to_text : Value → String) (subscriptions : List (String × List String)) (now : ℕ)
    (row : OutboxRow) where
  abbrev pub decision_of : Store → Instance → EnqueueDecision
  decision_of s i =
      decide_enqueue
        (enqueue_input to_text subscriptions row i (link_by_ticket i.id row.aggregate_id s.links))

  -- What queueing for one instance does to the rows.
  record HasQueued (i : Instance) (before after : Store) (d : EnqueueDecision) : Type 0 where
    pub kept : (r : OutboundRow) → Memᴰ r before.rows → Memᴰ r after.rows
    pub added :
        (r : OutboundRow)
        → Memᴰ r after.rows
        → Memᴰ r before.rows ⊎ ((d ≡ enqueue) × IsNewFor row i.id r)
    pub told : d ≡ enqueue → (r : OutboundRow) × Memᴰ r after.rows × IsRowFor row i.id r
    pub links : after.links ≡ before.links

  idle :
      (i : Instance) (s t : Store) (d : EnqueueDecision)
      → t.rows ≡ s.rows
      → t.links ≡ s.links
      → (¬ (d ≡ enqueue))
      → HasQueued i s t d
  idle i s t d rows links other = record {
    kept = λ r m. subst (λ rs. Memᴰ r rs) (sym rows) m;
    added = λ r m. inl (subst (λ rs. Memᴰ r rs) rows m);
    told = λ e. absurd (other e);
    links = links;
  }

  insert_outbound-HasQueued :
      (i : Instance) (input : OutboundInput) (s : Store)
      → input.instance_id ≡ i.id
      → input.outbox_id ≡ some row.id
      → HasQueued i s (insert_outbound now input s) enqueue
  unfolding insert_outbound
  insert_outbound-HasQueued i input s own box = elim (Bool-cases (any (conflicts input) s.rows)) [
    | inl t ↦
        let (r, m, c) = any→some (conflicts input) s.rows t in
        let same : (r.instance_id == input.instance_id) ≡ true = ground arith in
        let boxed : same_outbox r.outbox_id input.outbox_id ≡ true = ground arith in
        let there : IsRowFor row i.id r = record {
          instance = (==_iff r.instance_id input.instance_id).0 same ∙ own;
          event =
              same_outbox-some r.outbox_id row.id
                (subst (λ o. same_outbox r.outbox_id o ≡ true) box boxed);
        } in
        rw t (record {
          kept = λ x l. l;
          added = λ x l. inl l;
          told = λ e. (r, m, there);
          links = refl;
        })
    | inr f ↦
        let new = new_row now s.next_id input in
        let fits : IsRowFor row i.id new = record { instance = own; event = box } in
        rw f (record {
          kept = λ x l. mem-append_left (new ∷ []) l;
          added = λ x l. elim (mem-append_cases s.rows l) [
            | inl k ↦ inl k
            | inr (Memᴰ.head e) ↦ inr (
              refl,
              subst (IsNewFor row i.id) (sym e)
                  (record { for_event = fits; waits = refl; untried = refl }),
            )
            | inr (Memᴰ.tail k) ↦ elim k [ ]
          ];
          told = λ e. (new, mem-append_right s.rows (Memᴰ.head refl), fits);
          links = refl;
        })
  ]

  carry_out-HasQueued :
      (i : Instance) (o : Option Link) (d : EnqueueDecision) (s : Store)
      → (d ≡ enqueue → is_none o ≡ false)
      → HasQueued i s (carry_out to_text now row i o d s) d
  unfolding carry_out
  carry_out-HasQueued i o own_origin s linked = idle i s _ own_origin refl refl (λ e. cc)
  carry_out-HasQueued i o work_notes_off s linked = idle i s _ work_notes_off refl refl (λ e. cc)
  carry_out-HasQueued i o internal_attachment s linked =
      idle i s _ internal_attachment refl refl (λ e. cc)
  carry_out-HasQueued i o wrong_mode s linked = idle i s _ wrong_mode refl refl (λ e. cc)
  carry_out-HasQueued i o unsubscribed s linked = idle i s _ unsubscribed refl refl (λ e. cc)
  carry_out-HasQueued i o no_link s linked = idle i s _ no_link refl refl (λ e. cc)
  carry_out-HasQueued i none enqueue s linked = absurd (let f = linked refl in cc)
  carry_out-HasQueued i (some l) enqueue s linked = insert_outbound-HasQueued i _ s refl refl

  queue_for-HasQueued :
      (i : Instance) (s : Store)
      → HasQueued i s (queue_for to_text subscriptions now row i s) (decision_of s i)
  unfolding queue_for
  queue_for-HasQueued i s =
      let link = link_by_ticket i.id row.aggregate_id s.links in
      let input = enqueue_input to_text subscriptions row i link in
      carry_out-HasQueued i link (decide_enqueue input) s (λ e.
        let t : not (is_none link) ≡ true = ((decide_enqueue_iff input).0 e).linked in ground arith)

  -- What queueing for some instances does to the rows.
  pub record HasQueuedAll (is : List Instance) (before after : Store) : Type 0 where
    pub kept : (r : OutboundRow) → Memᴰ r before.rows → Memᴰ r after.rows
    pub added :
        (r : OutboundRow)
        → Memᴰ r after.rows
        → Memᴰ r before.rows
          ⊎ ((i : Instance) × Memᴰ i is × (decision_of before i ≡ enqueue) × IsNewFor row i.id r)
    pub told :
        (i : Instance)
        → Memᴰ i is
        → decision_of before i ≡ enqueue
        → (r : OutboundRow) × Memᴰ r after.rows × IsRowFor row i.id r

  decision_of-links :
      (i : Instance) (s t : Store) → t.links ≡ s.links → decision_of t i ≡ decision_of s i
  decision_of-links i s t e =
      ap
        (λ links.
          decide_enqueue (
            enqueue_input to_text subscriptions row i (link_by_ticket i.id row.aggregate_id links)))
        e

  queue_all-HasQueuedAll :
      (is : List Instance) (s : Store)
      → HasQueuedAll is s (queue_all to_text subscriptions now row is s)
  unfolding queue_all
  queue_all-HasQueuedAll [] s = record {
    kept = λ r m. m;
    added = λ r m. inl m;
    told = λ i m e. elim m [ ];
  }
  queue_all-HasQueuedAll (x ∷ is) s =
      let t = queue_for to_text subscriptions now row x s in
      let here = queue_for-HasQueued x s in
      let rest = queue_all-HasQueuedAll is t in
      let same : (i : Instance) → decision_of t i ≡ decision_of s i =
        λ i. decision_of-links i s t here.links in
      record {
        kept = λ r m. rest.kept r (here.kept r m);
        added = λ r m. elim (rest.added r m) [
          | inr (i, l, e, n) ↦ inr (i, Memᴰ.tail l, sym (same i) ∙ e, n)
          | inl l ↦ elim (here.added r l) [
            | inl k ↦ inl k
            | inr (e, n) ↦ inr (x, Memᴰ.head refl, e, n)
          ]
        ];
        told = λ i m e. elim m [
          | Memᴰ.head q ↦
              let (r, l, f) = here.told (ap (decision_of s) (sym q) ∙ e) in
              (r, rest.kept r l, subst (λ (z : Instance). IsRowFor row z.id r) (sym q) f)
          | Memᴰ.tail l ↦ rest.told i l (same i ∙ e)
        ];
      }

  -- After an event that can reach a connector, no row is gone; each new row is of the event and of an
  -- instance of its account that is to be told of it, waits and is untried; and each instance of the
  -- account that is to be told of it has a row for it. What an instance is to be told of is the
  -- decision of `decideEnqueue`. An event that cannot reach a connector changes nothing.
  pub on_outbox_tells :
      (s : Store)
      → (is_outbound_event row.event_type ≡ true
          → HasQueuedAll
              (instances_of row s.instances)
              s
              (on_outbox to_text subscriptions now row s))
        × (is_outbound_event row.event_type ≡ false → on_outbox to_text subscriptions now row s ≡ s)
  unfolding on_outbox
  on_outbox_tells s =
      (λ t. rw t (queue_all-HasQueuedAll (instances_of row s.instances) s), λ f. rw f refl)
