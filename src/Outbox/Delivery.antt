-- ===== src/Outbox/Delivery.antt =====
-- src/worker/outbox-dispatcher.ts: what a pass makes of each row that it claims, and what it
-- leaves of the others.
use xms_backend.Prelude.{
  ℕ, ◌+◌, ◌<◌, ◌≤◌, Bool, true, false, Option, none, some, List, [], ◌∷◌, map, filter, leb,
  number_key, if◌then◌else◌, ◌≡◌, ◌↔◌, ◌⊎◌, inl, inr, refl, sym, ap, subst, arith, Bool-cases,
  Option-cases, Memᴰ, contains, mem-map, mem_of_mem-map, mem→contains, mem-append_left,
  mem-append_right, not-mem_iff,
}
use xms_backend.Outbox.Dispatcher.{
  OutboxRow, StoredRow, HandlerError, Handler, DeadLetter, max_attempts, dispatch, set_dispatched,
  set_dead, set_failed, dead_letter, claim, Fault, Outbox, tick,
}
use xms_backend.Outbox.Pass.{ids, by_outcome, letters_of, becomes, letters, settled, Snapshot}
use xms_backend.Outbox.Tick.{HasKeys, commits, tick_outbox, claim-Snapshot}

abbrev pub matching : List Handler → OutboxRow → List Handler
matching handlers row = filter (λ h. h.matches row.event_type) handlers

-- `dispatch` comes out without an error exactly when every handler whose filter takes the event
-- returns without one, and it has then called those handlers in their order.
pub dispatch_iff :
    (handlers : List Handler) (now : ℕ) (row : OutboxRow)
    → (((dispatch handlers now row).1 ≡ none)
        ↔ ((h : Handler) → Memᴰ h (matching handlers row) → h.handle now row ≡ none))
      × ((dispatch handlers now row).1 ≡ none
          → (dispatch handlers now row).0 ≡ map (λ h. h.name) (matching handlers row))
unfolding dispatch
dispatch_iff [] now row = ((λ h x m. elim m [ ], λ h. refl), λ h. refl)
dispatch_iff (h ∷ hs) now row =
    let ih = dispatch_iff hs now row in
    elim (Bool-cases (h.matches row.event_type)) [
      | inr n ↦ rw n ih
      | inl y ↦ elim (Option-cases (h.handle now row)) [
        | inl ok ↦
            rw (y, ok)
              (
                (
                  λ e x m. elim m [
                    | Memᴰ.head q ↦ subst (λ z. z.handle now row ≡ none) (sym q) ok
                    | Memᴰ.tail l ↦ ih.0.0 e x l
                  ],
                  λ g. ih.0.1 (λ x l. g x (Memᴰ.tail l)),
                ),
                λ e. ap (λ ns. h.name ∷ ns) (ih.1 e),
              )
        | inr (message, threw) ↦
            rw (y, threw) ((λ e. cc, λ g. absurd (let ok = g h (Memᴰ.head refl) in cc)), λ e. cc)
      ]
    ]

-- What a row that is settled has become, by the outcome of its dispatch.
abbrev pub IsSettled : ℕ → Option HandlerError → StoredRow → StoredRow → List DeadLetter → Type 0
IsSettled now outcome r after dead =
    ((outcome ≡ none) × (after ≡ set_dispatched now r))
    ⊎ ((e : HandlerError) × (outcome ≡ some e)
        × (((r.row.attempts + 1 < max_attempts) × (after ≡ set_failed (r.row.attempts + 1) e r))
            ⊎ ((max_attempts ≤ r.row.attempts + 1)
                × (after ≡ set_dead now (r.row.attempts + 1) e r)
                × Memᴰ (dead_letter r.row e (r.row.attempts + 1)) dead)))

mem-letters :
    (handlers : List Handler) (now : ℕ) {c : OutboxRow} {l : DeadLetter} (cs : List OutboxRow)
    → Memᴰ c cs
    → Memᴰ l (letters_of c (dispatch handlers now c).1)
    → Memᴰ l (letters handlers now cs)
unfolding letters
mem-letters handlers now {l = l} (b ∷ cs) (Memᴰ.head q) m =
    mem-append_left (letters handlers now cs)
      (subst (λ z. Memᴰ l (letters_of z (dispatch handlers now z).1)) q m)
mem-letters handlers now (b ∷ cs) (Memᴰ.tail n) m =
    mem-append_right (letters_of b (dispatch handlers now b).1) (mem-letters handlers now cs n m)
mem-letters handlers now [] n m = elim n [ ]

settles :
    (now : ℕ) (outcome : Option HandlerError) (r : StoredRow) (dead : List DeadLetter)
    → ((l : DeadLetter) → Memᴰ l (letters_of r.row outcome) → Memᴰ l dead)
    → IsSettled now outcome r (by_outcome now outcome r) dead
settles now none r dead kept = inl (refl, refl)
settles now (some e) r dead kept = elim (Bool-cases (leb max_attempts (r.row.attempts + 1))) [
  | inl t ↦ rw t (inr (e, refl, inr (ground arith, refl, kept _ (rw t (Memᴰ.head refl)))))
  | inr f ↦ rw f (inr (e, refl, inl (ground arith, refl)))
]

pub mem-settled :
    (handlers : List Handler) (now : ℕ) (done : List ℕ) (rows : List StoredRow) {r : StoredRow}
    → Memᴰ r rows
    → contains done r.row.id ≡ true
    → Memᴰ (becomes handlers now r) (settled handlers now done rows)
unfolding settled
mem-settled handlers now done rows {r} m known =
    subst (λ b. Memᴰ (if b then becomes handlers now r else r) (settled handlers now done rows))
      known
      (mem-map (λ (r : StoredRow). if contains done r.row.id then becomes handlers now r else r) m)

pub mem-settled_other :
    (handlers : List Handler) (now : ℕ) (done : List ℕ) (rows : List StoredRow) {r : StoredRow}
    → Memᴰ r rows
    → contains done r.row.id ≡ false
    → Memᴰ r (settled handlers now done rows)
unfolding settled
mem-settled_other handlers now done rows {r} m other =
    subst (λ b. Memᴰ (if b then becomes handlers now r else r) (settled handlers now done rows))
      other
      (mem-map (λ (r : StoredRow). if contains done r.row.id then becomes handlers now r else r) m)

module _ (handlers : List Handler) (now : ℕ) (locked : ℕ → Bool) (limit : ℕ) where
  unclaimed :
      (rows : List StoredRow) (r : StoredRow)
      → HasKeys rows
      → Memᴰ r rows
      → ¬ Memᴰ r.row (claim locked limit rows)
      → contains (ids (claim locked limit rows)) r.row.id ≡ false
  unfolding Snapshot
  unclaimed rows r keys m free = (not-mem_iff (ids (claim locked limit rows)) r.row.id).1 (λ i.
      let (c, mc, q) = mem_of_mem-map (λ (c : OutboxRow). c.id) (claim locked limit rows) i in
      free (
        subst (λ z. Memᴰ z (claim locked limit rows))
          (sym (claim-Snapshot locked limit rows keys c r mc m q)) mc))

  -- A tick of an idle dispatcher keeps every dead letter and every row of the table. Where the pass
  -- commits, a claimed row is settled: dispatched if its handlers returned, tried again later if one threw
  -- and attempts are left, and otherwise a dead letter with the error. Any other row is as it was,
  -- and so is every row where the pass does not commit.
  pub tick_keeps_events :
      (fault : Fault) (o : Outbox) (r : StoredRow)
      → HasKeys o.rows
      → o.running ≡ false
      → Memᴰ r o.rows
      → let after = (tick handlers now locked limit fault o).outbox in
        let claimed = claim locked limit o.rows in
        ((l : DeadLetter) → Memᴰ l o.dead_letters → Memᴰ l after.dead_letters)
        × (commits fault claimed ≡ true
            → Memᴰ r.row claimed
            → (s : StoredRow) × Memᴰ s after.rows
              × IsSettled now (dispatch handlers now r.row).1 r s after.dead_letters)
        × (((commits fault claimed ≡ false) ⊎ (¬ Memᴰ r.row claimed)) → Memᴰ r after.rows)
  unfolding settled becomes
  tick_keeps_events fault o r keys idle m =
      let cs = claim locked limit o.rows in
      rw (tick_outbox handlers now locked limit fault o keys idle)
        (elim (Bool-cases (commits fault cs)) [
          | inr f ↦ rw f (λ l ml. ml, λ c. cc, λ _. m)
          | inl t ↦ rw t (
            λ l ml. mem-append_left (letters handlers now cs) ml,
            λ _ mc.
                let known = mem→contains (ids cs) (mem-map (λ (c : OutboxRow). c.id) mc) in
                (
                  becomes handlers now r,
                  mem-settled handlers now (ids cs) o.rows m known,
                  settles now (dispatch handlers now r.row).1 r _
                      (λ l ml. mem-append_right o.dead_letters (mem-letters handlers now cs mc ml)),
                ),
            λ h. elim h [
              | inl n ↦ cc
              | inr free ↦
                  mem-settled_other handlers now (ids cs) o.rows m (unclaimed o.rows r keys m free)
            ],
          )
        ])
