-- ===== src/Outbox/Preservation.antt =====
-- src/worker/outbox-dispatcher.ts and src/common/outbox/outbox.service.ts: the ticks and the writes, and
-- the invariant of the outbox.
use mathlib.Core.List.{map-append}
use xms_backend.Prelude.{
  ℕ, ◌<◌, String, Bool, none, some, List, [], ◌∷◌, ◌++◌, map, number_key, if◌then◌else◌, ◌≡◌, ◌≢◌,
  inl, inr, sym, ap, ◌∙◌, subst, arith, Bool-cases, Memᴰ, contains, Distinct, mem-map,
  mem_of_mem-map, mem→contains, mem-append_cases, mem-append_left, not-mem_iff, eq_of_same_key,
  Distinct-append,
}
use xms_backend.Outbox.Dispatcher.{
  OutboxRow, StoredRow, Handler, DeadLetter, max_attempts, dispatch, claim, Fault, Outbox, tick,
  run_pass, OutboxEvent, write, new_row,
}
use xms_backend.Outbox.Pass.{ids, by_outcome, by_outcome_id, letters_of, becomes, letters, settled}
use xms_backend.Outbox.Tick.{commits, outbox_after, tick_outbox, mem_of_mem-claim, claim-Distinct}
use xms_backend.Outbox.Delivery.{mem-settled, mem-settled_other}
use xms_backend.Outbox.Invariant.{
  IsSound, by_outcome-waiting, letter_given_up, letters_of_id, mem_of_mem-letters, letters-Distinct,
  settled_keys,
}

module _ (handlers : List Handler) (now : ℕ) (locked : ℕ → Bool) (limit : ℕ) (o : Outbox)
    (sound : IsSound o) where
  abbrev claimed : List OutboxRow
  claimed = claim locked limit o.rows

  -- A row with the id of a claimed row waits.
  claimed_waits :
      (r : StoredRow) → Memᴰ r o.rows → Memᴰ r.row.id (ids claimed) → r.dispatched_at ≡ none
  claimed_waits r m i =
      let (c, mc, q) = mem_of_mem-map (λ (c : OutboxRow). c.id) claimed i in
      let (x, mx, e, waits, free) = mem_of_mem-claim locked limit o.rows mc in
      let same =
        eq_of_same_key (λ (z : StoredRow). z.row.id) o.rows sound.keys m mx
          (q ∙ ap (λ z. z.id) e) in
      ap (λ z. z.dispatched_at) same ∙ waits

  settled_waiting :
      (r : StoredRow)
      → Memᴰ r (settled handlers now (ids claimed) o.rows)
      → r.dispatched_at ≡ none
      → r.row.attempts < max_attempts
  unfolding settled becomes
  settled_waiting r m waits =
      let (x, mx, q) =
        mem_of_mem-map
          (λ (r : StoredRow). if contains (ids claimed) r.row.id then becomes handlers now r else r)
          o.rows m in
      elim (Bool-cases (contains (ids claimed) x.row.id)) [
        | inr f ↦
            let same : r ≡ x = rw f at q in
            subst (λ z. z.row.attempts < max_attempts) (sym same)
              (sound.waiting x mx (ap (λ z. z.dispatched_at) (sym same) ∙ waits))
        | inl t ↦
            let same : r ≡ by_outcome now (dispatch handlers now x.row).1 x = rw t at q in
            subst (λ z. z.row.attempts < max_attempts) (sym same)
              (by_outcome-waiting now _ x (ap (λ z. z.dispatched_at) (sym same) ∙ waits))
      ]

  once_each : Distinct (map (λ l. l.outbox_id) (o.dead_letters ++ letters handlers now claimed))
  once_each =
      let oid = λ (l : DeadLetter). l.outbox_id in
      subst Distinct (sym (map-append oid o.dead_letters (letters handlers now claimed))) (
        Distinct-append _ _ sound.once
          (letters-Distinct handlers now claimed (claim-Distinct locked limit o.rows sound.keys))
          (λ k mk mn.
            let (l, ml, q) = mem_of_mem-map oid o.dead_letters mk in
            let (n, mn', e) = mem_of_mem-map oid (letters handlers now claimed) mn in
            let (c, mc, mcn) = mem_of_mem-letters handlers now claimed mn' in
            let (full, (r, mr, rid, gone)) = sound.given_up l ml in
            let at : c.id ≡ r.row.id = sym (letters_of_id _ c mcn) ∙ sym e ∙ q ∙ sym rid in
            gone (
              claimed_waits r mr
                (subst (λ z. Memᴰ z (ids claimed)) at (mem-map (λ (z : OutboxRow). z.id) mc)))))

  still_given_up :
      (l : DeadLetter)
      → Memᴰ l (o.dead_letters ++ letters handlers now claimed)
      → (l.attempts ≡ max_attempts)
        × ((r : StoredRow) × Memᴰ r (settled handlers now (ids claimed) o.rows)
            × (r.row.id ≡ l.outbox_id)
            × (r.dispatched_at ≢ none))
  unfolding becomes
  still_given_up l m = elim (mem-append_cases o.dead_letters m) [
    | inl old ↦
        let (full, (r, mr, rid, gone)) = sound.given_up l old in
        let other = (not-mem_iff (ids claimed) r.row.id).1 (λ i. gone (claimed_waits r mr i)) in
        (full, (r, mem-settled_other handlers now (ids claimed) o.rows mr other, rid, gone))
    | inr new ↦
        let (c, mc, ml) = mem_of_mem-letters handlers now claimed new in
        let (x, mx, e, waits, free) = mem_of_mem-claim locked limit o.rows mc in
        let mlx : Memᴰ l (letters_of x.row (dispatch handlers now x.row).1) =
          subst (λ z. Memᴰ l (letters_of z (dispatch handlers now z).1)) e ml in
        let known = mem→contains (ids claimed) (
          subst (λ z. Memᴰ z (ids claimed)) (ap (λ z. z.id) e)
            (mem-map (λ (z : OutboxRow). z.id) mc)) in
        let (full, gone) =
          letter_given_up now (dispatch handlers now x.row).1 x l mlx (sound.waiting x mx waits) in
        (
          full,
          (
            becomes handlers now x,
            mem-settled handlers now (ids claimed) o.rows mx known,
            by_outcome_id now _ x ∙ sym (letters_of_id _ x.row mlx),
            gone,
          ),
        )
  ]

  outbox_after-IsSound : (fault : Fault) → IsSound (outbox_after handlers now locked limit fault o)
  outbox_after-IsSound fault = elim (Bool-cases (commits fault claimed)) [
    | inl t ↦ rw t (record {
      keys = subst Distinct (sym (settled_keys handlers now (ids claimed) o.rows)) sound.keys;
      waiting = settled_waiting;
      once = once_each;
      given_up = still_given_up;
    })
    | inr f ↦ rw f (record {
      keys = sound.keys;
      waiting = sound.waiting;
      once = sound.once;
      given_up = sound.given_up;
    })
  ]

  -- A tick keeps the outbox sound, whatever the handlers do, whichever rows are locked, wherever the
  -- database fails it and whether or not the dispatcher is running: ids stay distinct, a row that
  -- waits has attempts left, and no event has two dead letters or is given up early.
  pub tick-IsSound : (fault : Fault) → IsSound (tick handlers now locked limit fault o).outbox
  unfolding tick
  tick-IsSound fault = elim (Bool-cases o.running) [
    | inl busy ↦
        subst
          (λ b.
            IsSound
              (if b
                then record { outbox = o; processed = some 0; calls = [] }
                else run_pass handlers now locked limit fault o).outbox)
          (sym busy) sound
    | inr idle ↦
        subst IsSound (sym (tick_outbox handlers now locked limit fault o sound.keys idle))
          (outbox_after-IsSound fault)
  ]

-- A write under a new id keeps the outbox sound.
pub write-IsSound :
    (id : ℕ) (created_at : String) (event : OutboxEvent) (o : Outbox)
    → IsSound o
    → ¬ Memᴰ id (map (λ r. r.row.id) o.rows)
    → IsSound (write id created_at event o)
unfolding write
write-IsSound id created_at event o sound new = record {
  keys =
      subst Distinct
        (sym (map-append (λ (r : StoredRow). r.row.id) o.rows (new_row id created_at event ∷ [])))
        (Distinct-append _ _ sound.keys ((λ m. elim m [ ]), tt)
          (λ k mk m. elim m [
            | Memᴰ.head q ↦ new (subst (λ z. Memᴰ z (map (λ r. r.row.id) o.rows)) q mk)
            | Memᴰ.tail n ↦ elim n [ ]
          ]));
  waiting = λ r m waits. elim (mem-append_cases o.rows m) [
    | inl old ↦ sound.waiting r old waits
    | inr (Memᴰ.head q) ↦ subst (λ z. z.row.attempts < max_attempts) (sym q) (omega arith)
    | inr (Memᴰ.tail n) ↦ elim n [ ]
  ];
  once = sound.once;
  given_up = λ l m.
      let (full, (r, mr, rid, gone)) = sound.given_up l m in
      (full, (r, mem-append_left (new_row id created_at event ∷ []) mr, rid, gone));
}
