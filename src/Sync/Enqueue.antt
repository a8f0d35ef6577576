-- ===== src/Sync/Enqueue.antt =====
-- src/domain/sync/rules.ts, `decideEnqueue`: which changes are queued for an instance.
use xms_backend.Prelude.{
  String, Bool, true, false, not, ◌&&◌, Option, none, some, contains, contains→mem, mem→contains,
  ◌==◌, ==_iff, if◌then◌else◌, string_key, Memᴰ, ◌≡◌, ◌≢◌, ◌↔◌, inl, inr, refl, ap, some-injective,
  arith, Bool-cases,
}
use xms_backend.Sync.Rules.{
  Mode, bidirectional, is_bidirectional, off, ingest_only, EnqueueInput, enqueue, own_origin,
  wrong_mode, unsubscribed, work_notes_off, internal_attachment, no_link, sync_origin, is_text,
  decide_enqueue,
}

is_text_iff : (o : Option String) (t : String) → (is_text o t ≡ true) ↔ (o ≡ some t)
is_text_iff none t = (λ h. cc, λ h. cc)
is_text_iff (some s) t =
    (λ h. ap some ((==_iff s t).0 h), λ h. (==_iff s t).1 (some-injective s t h))

is_text-false_iff : (o : Option String) (t : String) → (is_text o t ≡ false) ↔ (o ≢ some t)
is_text-false_iff o t = elim (Bool-cases (is_text o t)) [
  | inl y ↦ (λ f. absurd (cc), λ n. absurd (n ((is_text_iff o t).0 y)))
  | inr f ↦ (λ _ e. let y = (is_text_iff o t).1 e in cc, λ _. f)
]

is_bidirectional_iff : (m : Mode) → (is_bidirectional m ≡ true) ↔ (m ≡ bidirectional)
is_bidirectional_iff bidirectional = (λ _. refl, λ _. refl)
is_bidirectional_iff off = (λ h. cc, λ h. cc)
is_bidirectional_iff ingest_only = (λ h. cc, λ h. cc)

-- What a change must be for the instance to be told of it.
pub record IsQueued (i : EnqueueInput) : Type 0 where
  pub foreign : i.origin ≢ some (sync_origin i.instance_id)
  pub mode : i.mode ≡ bidirectional
  pub subscribed : Memᴰ i.event i.subscribed_events
  pub notes : i.event ≡ "work_note.created" → i.sync_work_notes ≡ true
  pub visible : i.event ≡ "attachment.scanned" → i.attachment_visibility ≡ some "public"
  pub linked : i.has_link ≡ true

-- The tests of `decideEnqueue` in their order, over their results.
chain_iff :
    (own bi sub note sync att pub_ok link : Bool)
    → ((if own
          then own_origin
          else if not bi
          then wrong_mode
          else if not sub
          then unsubscribed
          else if note && not sync
          then work_notes_off
          else if att && not pub_ok
          then internal_attachment
          else if not link
          then no_link
          else enqueue)
        ≡ enqueue)
      ↔ ((own ≡ false)
          × (bi ≡ true)
          × (sub ≡ true)
          × (note ≡ true → sync ≡ true)
          × (att ≡ true → pub_ok ≡ true)
          × (link ≡ true))
chain_iff own bi sub note sync att pub_ok link = ground arith

-- A change is queued for an instance exactly when the instance's own apply handler did not write
-- it, the instance is bidirectional and subscribes to the event, a work note only where those are
-- synced, an attachment only where it is public, and the ticket is linked.
pub decide_enqueue_iff : (i : EnqueueInput) → (decide_enqueue i ≡ enqueue) ↔ IsQueued i
unfolding decide_enqueue
decide_enqueue_iff i =
    let step =
      chain_iff (is_text i.origin (sync_origin i.instance_id)) (is_bidirectional i.mode)
        (contains i.subscribed_events i.event) (i.event == "work_note.created") i.sync_work_notes
        (i.event == "attachment.scanned") (is_text i.attachment_visibility "public") i.has_link in
    (
      λ h.
          let (own, bi, sub, note, att, link) = step.0 h in
          record {
            foreign = (is_text-false_iff i.origin (sync_origin i.instance_id)).0 own;
            mode = (is_bidirectional_iff i.mode).0 bi;
            subscribed = contains→mem i.subscribed_events i.event sub;
            notes = λ e. note ((==_iff i.event "work_note.created").1 e);
            visible = λ e.
                (is_text_iff i.attachment_visibility "public").0
                  (att ((==_iff i.event "attachment.scanned").1 e));
            linked = link;
          },
      λ q. step.1 (
        (is_text-false_iff i.origin (sync_origin i.instance_id)).1 q.foreign,
        (is_bidirectional_iff i.mode).1 q.mode,
        mem→contains i.subscribed_events q.subscribed,
        λ t. q.notes ((==_iff i.event "work_note.created").0 t),
        λ t.
            (is_text_iff i.attachment_visibility "public").1
              (q.visible ((==_iff i.event "attachment.scanned").0 t)),
        q.linked,
      ),
    )
