-- ===== src/Sync/Insertion.antt =====
-- src/modules/connectors/connectors.repository.ts, `insertOutbound`, and `onOutbox` of sync.worker.ts: the rows
-- that an event of the outbox adds to the queue.
use mathlib.Core.List.{map-append}
use xms_backend.Outbox.Dispatcher.{OutboxRow}
use xms_backend.Prelude.Json.{Value}
use xms_backend.Prelude.{
  ℕ, suc, ◌<◌, String, true, false, Option, none, some, List, [], ◌∷◌, ◌++◌, map, any, any-eq-false,
  ◌==◌, ==_iff, string_key, number_key, Memᴰ, Distinct, Distinct-append, mem-append_cases,
  mem_of_mem-map, ◌≡◌, inl, inr, sym, ap, subst, ◌∙◌, arith, Bool-cases,
}
use xms_backend.Sync.Outbound.{Store, Instance, Link, OutboundRow}
use xms_backend.Sync.Queue.{
  instances_of, is_outbound_event, carry_out, queue_for, queue_all, on_outbox,
}
use xms_backend.Sync.Repository.{
  OutboundInput, same_outbox, conflicts, new_row, insert_outbound, link_by_ticket,
}
use xms_backend.Sync.Rules.{
  EnqueueDecision, enqueue, own_origin, wrong_mode, unsubscribed, work_notes_off,
  internal_attachment, no_link,
}
use xms_backend.Sync.SoundQueue.{IsSoundRow, IsSoundQueue, HasSoundQueue, same_outbox_sym}

suc_lt : {a b : ℕ} → a < b → a < suc b
suc_lt lt = omega arith

appended :
    (now id : ℕ) (input : OutboundInput) (rows : List OutboundRow)
    → any (conflicts input) rows ≡ false
    → IsSoundQueue rows id
    → IsSoundQueue (rows ++ new_row now id input ∷ []) (suc id)
appended now id input rows free q =
    let new = new_row now id input in
    let apart : (x : OutboundRow)
        → Memᴰ x rows
        → x.instance_id ≡ input.instance_id
        → same_outbox x.outbox_id input.outbox_id ≡ true
        → ⊥ =
      λ x m same box.
        let c : conflicts input x ≡ false = (any-eq-false (conflicts input) rows).0 free x m in
        let t : (x.instance_id == input.instance_id) ≡ true =
          (==_iff x.instance_id input.instance_id).1 same in
        absurd (ground arith) in
    record {
      ids = subst Distinct (sym (map-append (λ (r : OutboundRow). r.id) rows (new ∷ []))) (
          Distinct-append (map (λ (r : OutboundRow). r.id) rows) (id ∷ []) q.ids
            ((λ m. elim m [ ]), tt)
            (λ x m n.
              let (r, listed, e) = mem_of_mem-map (λ (r : OutboundRow). r.id) rows m in
              let lt : r.id < id = q.below r listed in
              elim n [
                | Memᴰ.head h ↦ let same : r.id ≡ id = sym e ∙ h in omega arith
                | Memᴰ.tail t ↦ elim t [ ]
              ]));
      below = λ r m. elim (mem-append_cases rows m) [
        | inl l ↦ suc_lt (q.below r l)
        | inr (Memᴰ.head e) ↦ let same : r.id ≡ id = ap (λ (z : OutboundRow). z.id) e in omega arith
        | inr (Memᴰ.tail t) ↦ elim t [ ]
      ];
      tries = λ r m. elim (mem-append_cases rows m) [
        | inl l ↦ q.tries r l
        | inr (Memᴰ.head e) ↦
            subst IsSoundRow (sym e) (record { bounded = omega arith; waiting = λ h. omega arith })
        | inr (Memᴰ.tail t) ↦ elim t [ ]
      ];
      once = λ x y m n same box. elim (mem-append_cases rows m) [
        | inl l ↦ elim (mem-append_cases rows n) [
          | inl k ↦ q.once x y l k same box
          | inr (Memᴰ.head e) ↦ absurd (
              apart x l (same ∙ ap (λ (z : OutboundRow). z.instance_id) e)
                (subst (λ (z : OutboundRow). same_outbox x.outbox_id z.outbox_id ≡ true) e box))
          | inr (Memᴰ.tail t) ↦ elim t [ ]
        ]
        | inr (Memᴰ.head d) ↦ elim (mem-append_cases rows n) [
          | inl k ↦ absurd (
              apart y k (sym same ∙ ap (λ (z : OutboundRow). z.instance_id) d) (
                same_outbox_sym input.outbox_id y.outbox_id
                  (subst (λ (z : OutboundRow). same_outbox z.outbox_id y.outbox_id ≡ true) d box)))
          | inr (Memᴰ.head e) ↦ ap (λ (z : OutboundRow). z.id) (d ∙ sym e)
          | inr (Memᴰ.tail t) ↦ elim t [ ]
        ]
        | inr (Memᴰ.tail t) ↦ elim t [ ]
      ];
    }

insert_outbound-HasSoundQueue :
    (now : ℕ) (input : OutboundInput) (s : Store)
    → HasSoundQueue s
    → HasSoundQueue (insert_outbound now input s)
unfolding insert_outbound
insert_outbound-HasSoundQueue now input s q = elim (Bool-cases (any (conflicts input) s.rows)) [
  | inl t ↦ rw t q
  | inr f ↦ rw f (appended now s.next_id input s.rows f q)
]

module _ (to_text : Value → String) (subscriptions : List (String × List String)) (now : ℕ)
    (row : OutboxRow) where
  carry_out-HasSoundQueue :
      (instance : Instance) (o : Option Link) (d : EnqueueDecision) (s : Store)
      → HasSoundQueue s
      → HasSoundQueue (carry_out to_text now row instance o d s)
  unfolding carry_out
  carry_out-HasSoundQueue instance o own_origin s q = q
  carry_out-HasSoundQueue instance o work_notes_off s q = q
  carry_out-HasSoundQueue instance o internal_attachment s q = q
  carry_out-HasSoundQueue instance o wrong_mode s q = q
  carry_out-HasSoundQueue instance o unsubscribed s q = q
  carry_out-HasSoundQueue instance o no_link s q = q
  carry_out-HasSoundQueue instance none enqueue s q = q
  carry_out-HasSoundQueue instance (some l) enqueue s q = insert_outbound-HasSoundQueue now _ s q

  queue_all-HasSoundQueue :
      (is : List Instance) (s : Store)
      → HasSoundQueue s
      → HasSoundQueue (queue_all to_text subscriptions now row is s)
  unfolding queue_all queue_for
  queue_all-HasSoundQueue [] s q = q
  queue_all-HasSoundQueue (i ∷ is) s q =
      queue_all-HasSoundQueue is _
        (carry_out-HasSoundQueue i (link_by_ticket i.id row.aggregate_id s.links) _ s q)

  pub on_outbox-HasSoundQueue :
      (s : Store) → HasSoundQueue s → HasSoundQueue (on_outbox to_text subscriptions now row s)
  unfolding on_outbox
  on_outbox-HasSoundQueue s q = elim (Bool-cases (is_outbound_event row.event_type)) [
    | inl t ↦ rw t (queue_all-HasSoundQueue (instances_of row s.instances) s q)
    | inr f ↦ rw f q
  ]
