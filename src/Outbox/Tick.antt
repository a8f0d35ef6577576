-- ===== src/Outbox/Tick.antt =====
-- src/worker/outbox-dispatcher.ts: what `tick` does to the table on every way that it can end.
use mathlib.Core.List.{map-map}
use xms_backend.Prelude.{
  ℕ, Bool, true, false, not, ◌&&◌, none, List, [], ◌∷◌, ◌++◌, map, filter, number_key,
  if◌then◌else◌, is_none, ◌≡◌, inl, inr, refl, sym, ap, ap₂, ◌∙◌, subst, arith, Bool-cases, Memᴰ,
  Distinct, any, is_none-eq-true, Distinct-filter, Distinct-take, eq_of_same_key, mem_of_mem-take,
  mem_of_mem-map, mem_of_mem-filter,
}
use xms_backend.Outbox.Dispatcher.{
  OutboxRow, StoredRow, Handler, process, claim, Fault, no_fault, connect_fails, claim_fails,
  commit_fails, row_fails, Outbox, start, fails_at, finish, run_pass, tick,
}
use xms_backend.Outbox.Pass.{ids, letters, settled, Snapshot, process-settled, process-threw}

-- The ids of the table are distinct: they are its primary key.
abbrev pub HasKeys : List StoredRow → Type 0
HasKeys rows = Distinct (map (λ r. r.row.id) rows)

map_row : (rows : List StoredRow) → ids (map (λ r. r.row) rows) ≡ map (λ r. r.row.id) rows
map_row rows = map-map (λ (c : OutboxRow). c.id) (λ (r : StoredRow). r.row) rows

module _ (locked : ℕ → Bool) (limit : ℕ) where
  pub claim-Distinct :
      (rows : List StoredRow) → HasKeys rows → Distinct (ids (claim locked limit rows))
  unfolding claim
  claim-Distinct rows keys =
      let pending = λ (r : StoredRow). is_none r.dispatched_at && not (locked r.row.id) in
      Distinct-take (λ (c : OutboxRow). c.id) limit _
        (subst Distinct (sym (map_row (filter pending rows)))
          (Distinct-filter (λ (r : StoredRow). r.row.id) pending rows keys))

  -- A claimed row is a row of the table that is not dispatched and not locked.
  pub mem_of_mem-claim :
      {c : OutboxRow} (rows : List StoredRow)
      → Memᴰ c (claim locked limit rows)
      → (r : StoredRow) × Memᴰ r rows
        × (c ≡ r.row)
        × (r.dispatched_at ≡ none)
        × (locked r.row.id ≡ false)
  unfolding claim
  mem_of_mem-claim rows m =
      let pending = λ (r : StoredRow). is_none r.dispatched_at && not (locked r.row.id) in
      let (r, mr, e) =
        mem_of_mem-map (λ (r : StoredRow). r.row) (filter pending rows)
          (mem_of_mem-take limit _ m) in
      let (listed, t) = mem_of_mem-filter pending rows mr in
      (r, listed, e, is_none-eq-true r.dispatched_at (ground arith), ground arith)

  pub claim-Snapshot :
      (rows : List StoredRow) → HasKeys rows → Snapshot (claim locked limit rows) rows
  unfolding Snapshot
  claim-Snapshot rows keys c r m mr e =
      let (x, mx, q, waiting, free) = mem_of_mem-claim rows m in
      ap (λ z. z.row)
        (eq_of_same_key (λ (z : StoredRow). z.row.id) rows keys mr mx (e ∙ ap (λ z. z.id) q))
      ∙ sym q

-- Whether a pass with this fault reaches its commit.
abbrev pub commits : Fault → List OutboxRow → Bool
commits connect_fails cs = false
commits claim_fails cs = false
commits commit_fails cs = false
commits (row_fails id) cs = not (any (λ c. fails_at (row_fails id) c.id) cs)
commits no_fault cs = true

abbrev pub is_connect_fails : Fault → Bool
is_connect_fails connect_fails = true
is_connect_fails _ = false

any_no_fault :
    (f : Fault)
    → ((id : ℕ) → fails_at f id ≡ false)
    → (cs : List OutboxRow) → any (λ c. fails_at f c.id) cs ≡ false
any_no_fault f h [] = refl
any_no_fault f h (c ∷ cs) = rw (h c.id) (any_no_fault f h cs)

module _ (handlers : List Handler) (now : ℕ) (locked : ℕ → Bool) (limit : ℕ) where
  abbrev pub outbox_after : Fault → Outbox → Outbox
  outbox_after fault o =
      let cs = claim locked limit o.rows in
      if commits fault cs
      then record {
        rows = settled handlers now (ids cs) o.rows;
        dead_letters = o.dead_letters ++ letters handlers now cs;
        running = false;
      }
      else record o { running = is_connect_fails fault }

  finish-settled :
      (fails : ℕ → Bool) (o : Outbox)
      → HasKeys o.rows
      → any (λ c. fails c.id) (claim locked limit o.rows) ≡ false
      → (finish true o (process handlers now fails (claim locked limit o.rows) (start o))).outbox
        ≡ record {
          rows = settled handlers now (ids (claim locked limit o.rows)) o.rows;
          dead_letters = o.dead_letters ++ letters handlers now (claim locked limit o.rows);
          running = false;
        }
  finish-settled fails o keys clear =
      let (rows, dead, threw, count) =
        process-settled handlers now fails (claim locked limit o.rows) (start o) clear
          (claim-Distinct locked limit o.rows keys) (claim-Snapshot locked limit o.rows keys) in
      rw threw (ap₂ (λ rs ls. record { rows = rs; dead_letters = ls; running = false }) rows dead)

  finish-threw :
      (fails : ℕ → Bool) (o : Outbox)
      → any (λ c. fails c.id) (claim locked limit o.rows) ≡ true
      → (finish true o (process handlers now fails (claim locked limit o.rows) (start o))).outbox
        ≡ record o { running = false }
  finish-threw fails o hit =
      let threw = process-threw handlers now fails (claim locked limit o.rows) (start o) hit in
      rw threw refl

  -- On a table with distinct ids a tick of a dispatcher that is not running settles the claimed rows
  -- each by itself and adds their dead letters, all or nothing: where the database fails the pass the
  -- table and the dead letters are as they were.
  pub tick_outbox :
      (fault : Fault) (o : Outbox)
      → HasKeys o.rows
      → o.running ≡ false
      → (tick handlers now locked limit fault o).outbox ≡ outbox_after fault o
  unfolding tick run_pass
  tick_outbox connect_fails o keys idle = rw idle refl
  tick_outbox claim_fails o keys idle = rw idle refl
  tick_outbox commit_fails o keys idle = rw idle refl
  tick_outbox no_fault o keys idle = rw idle (
      finish-settled (fails_at no_fault) o keys
        (any_no_fault no_fault (λ id. refl) (claim locked limit o.rows)))
  tick_outbox (row_fails id) o keys idle =
      let cs = claim locked limit o.rows in
      elim (Bool-cases (any (λ c. fails_at (row_fails id) c.id) cs)) [
        | inl t ↦ rw (idle, t) (finish-threw (fails_at (row_fails id)) o t)
        | inr f ↦ rw (idle, f) (finish-settled (fails_at (row_fails id)) o keys f)
      ]
