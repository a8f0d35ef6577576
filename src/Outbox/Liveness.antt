-- ===== src/Outbox/Liveness.antt =====
-- src/worker/outbox-dispatcher.ts: what a schedule of ticks comes to, and what stops the dispatcher.
use xms_backend.Prelude.{
  ℕ, ◌+◌, ◌-◌, ◌<◌, ◌≤◌, suc, Bool, true, false, none, some, List, [], ◌∷◌, map, leb, number_key,
  if◌then◌else◌, ◌≡◌, ◌≢◌, inl, inr, refl, sym, ap, ◌∙◌, subst, arith, Bool-cases, Memᴰ, mem-map,
  mem→contains, All,
}
use xms_backend.Outbox.Dispatcher.{
  OutboxRow, StoredRow, Handler, claim, Fault, no_fault, connect_fails, claim_fails, commit_fails,
  row_fails, Outbox, tick, run_pass,
}
use xms_backend.Outbox.Pass.{ids}
use xms_backend.Outbox.Tick.{commits, is_connect_fails, outbox_after, tick_outbox}
use xms_backend.Outbox.Invariant.{IsSound, settled_keys}
use xms_backend.Outbox.Preservation.{tick-IsSound}
use xms_backend.Outbox.Progress.{
  left, left-settled, left-eq-zero, waiting_of_left, no_lock, claim_first,
}

-- A tick of a schedule: how the database fails it, if it does, and its instant.
abbrev pub Schedule : Type 0
Schedule = List (Fault × ℕ)

abbrev pub is_no_fault : Fault → Bool
is_no_fault no_fault = true
is_no_fault _ = false

-- How many ticks of a schedule the database does not fail.
abbrev pub undisturbed : Schedule → ℕ
undisturbed [] = 0
undisturbed (t ∷ ts) = (if is_no_fault t.0 then 1 else 0) + undisturbed ts

module _ (handlers : List Handler) (n : ℕ) where
  -- The ticks of one dispatcher, one after another, when no other holds a lock.
  unfoldable pub run : Schedule → Outbox → Outbox
  run [] o = o
  run (t ∷ ts) o = run ts (tick handlers t.1 no_lock (suc n) t.0 o).outbox

  outbox_after-idle :
      (fault : Fault) (now : ℕ) (o : Outbox)
      → is_connect_fails fault ≡ false
      → (outbox_after handlers now no_lock (suc n) fault o).running ≡ false
  outbox_after-idle fault now o h =
      elim (Bool-cases (commits fault (claim no_lock (suc n) o.rows))) [
        | inl t ↦ rw t refl
        | inr f ↦ rw f h
      ]

  left-outbox_after :
      (fault : Fault) (now : ℕ) (o : Outbox)
      → left (outbox_after handlers now no_lock (suc n) fault o).rows ≤ left o.rows
  left-outbox_after fault now o = elim (Bool-cases (commits fault (claim no_lock (suc n) o.rows))) [
    | inl t ↦ rw t (left-settled handlers now (ids (claim no_lock (suc n) o.rows)) o.rows).0
    | inr f ↦ rw f (omega arith)
  ]

  left-no_fault :
      (now : ℕ) (o : Outbox)
      → IsSound o
      → 0 < left o.rows
      → left (outbox_after handlers now no_lock (suc n) no_fault o).rows < left o.rows
  left-no_fault now o sound h =
      let (r, m, w) = waiting_of_left o.rows h in
      let (s, ms, mc, v) = claim_first n o.rows r m w in
      (left-settled handlers now (ids (claim no_lock (suc n) o.rows)) o.rows).1 s ms
        (mem→contains _ (mem-map (λ (c : OutboxRow). c.id) mc)) v (sound.waiting s ms v)

  left-step :
      (fault : Fault) (now : ℕ) (o : Outbox)
      → IsSound o
      → left (outbox_after handlers now no_lock (suc n) fault o).rows
        ≤ left o.rows - (if is_no_fault fault then 1 else 0)
  left-step no_fault now o sound =
      let le = left-outbox_after no_fault now o in
      elim (Bool-cases (leb (left o.rows) 0)) [
        | inl t ↦ let none_left : left o.rows ≤ 0 = ground arith in omega (arith, le, none_left)
        | inr f ↦ let fewer = left-no_fault now o sound (ground arith) in omega (arith, fewer)
      ]
  left-step connect_fails now o sound =
      let le = left-outbox_after connect_fails now o in omega (arith, le)
  left-step claim_fails now o sound =
      let le = left-outbox_after claim_fails now o in omega (arith, le)
  left-step commit_fails now o sound =
      let le = left-outbox_after commit_fails now o in omega (arith, le)
  left-step (row_fails id) now o sound =
      let le = left-outbox_after (row_fails id) now o in omega (arith, le)

  left-run :
      (schedule : Schedule) (o : Outbox)
      → IsSound o
      → o.running ≡ false
      → All (λ t. is_connect_fails t.0 ≡ false) schedule
      → left o.rows ≤ undisturbed schedule
      → IsSound (run schedule o) × (left (run schedule o).rows ≡ 0)
  unfolding run
  left-run [] o sound idle up enough = (sound, omega arith)
  left-run ((fault, now) ∷ ts) o sound idle up enough =
      let same = tick_outbox handlers now no_lock (suc n) fault o sound.keys idle in
      let fewer = left-step fault now o sound in
      let rest =
        left-run ts (outbox_after handlers now no_lock (suc n) fault o)
          (subst IsSound same (tick-IsSound handlers now no_lock (suc n) o sound fault))
          (outbox_after-idle fault now o up.0) up.1 (omega (arith, fewer, enough)) in
      subst (λ z. IsSound (run ts z) × (left (run ts z).rows ≡ 0)) (sym same) rest

  outbox_after_keys :
      (fault : Fault) (now : ℕ) (o : Outbox)
      → map (λ r. r.row.id) (outbox_after handlers now no_lock (suc n) fault o).rows
        ≡ map (λ r. r.row.id) o.rows
  outbox_after_keys fault now o = elim (Bool-cases (commits fault (claim no_lock (suc n) o.rows))) [
    | inl t ↦ rw t (settled_keys handlers now (ids (claim no_lock (suc n) o.rows)) o.rows)
    | inr f ↦ rw f refl
  ]

  run_keys :
      (schedule : Schedule) (o : Outbox)
      → IsSound o
      → o.running ≡ false
      → All (λ t. is_connect_fails t.0 ≡ false) schedule
      → map (λ r. r.row.id) (run schedule o).rows ≡ map (λ r. r.row.id) o.rows
  unfolding run
  run_keys [] o sound idle up = refl
  run_keys ((fault, now) ∷ ts) o sound idle up =
      let same = tick_outbox handlers now no_lock (suc n) fault o sound.keys idle in
      let rest =
        run_keys ts (outbox_after handlers now no_lock (suc n) fault o)
          (subst IsSound same (tick-IsSound handlers now no_lock (suc n) o sound fault))
          (outbox_after-idle fault now o up.0) up.1 in
      ap (λ z. map (λ r. r.row.id) (run ts z).rows) same ∙ rest ∙ outbox_after_keys fault now o

  -- However the handlers fail, every row of the table stays in it and is dispatched in the end, to its handlers or as
  -- a dead letter: after as many undisturbed ticks as there are attempts left, at most five for each
  -- waiting row, with any number of ticks among them that the database fails after `connect`, no row
  -- waits. The outbox is sound and idle at first, the limit is positive and no other dispatcher
  -- holds a lock.
  pub every_row_dispatched :
      (schedule : Schedule) (o : Outbox)
      → IsSound o
      → o.running ≡ false
      → All (λ t. is_connect_fails t.0 ≡ false) schedule
      → left o.rows ≤ undisturbed schedule
      → (map (λ r. r.row.id) (run schedule o).rows ≡ map (λ r. r.row.id) o.rows)
        × ((r : StoredRow) → Memᴰ r (run schedule o).rows → r.dispatched_at ≢ none)
  every_row_dispatched schedule o sound idle up enough =
      let (still, zero_left) = left-run schedule o sound idle up enough in
      (
        run_keys schedule o sound idle up,
        left-eq-zero (run schedule o).rows still.waiting zero_left,
      )

  run-busy : (schedule : Schedule) (o : Outbox) → o.running ≡ true → run schedule o ≡ o
  unfolding run tick
  run-busy [] o busy = refl
  run-busy (t ∷ ts) o busy =
      let same : (tick handlers t.1 no_lock (suc n) t.0 o).outbox ≡ o =
        subst
          (λ b.
            (if b
              then record { outbox = o; processed = some 0; calls = [] }
              else run_pass handlers t.1 no_lock (suc n) t.0 o).outbox
            ≡ o)
          (sym busy) refl in
      ap (λ z. run ts z) same ∙ run-busy ts o busy

  -- A `connect` that fails leaves `running` set, since it is called before the `try` whose `finally`
  -- resets it: no later tick of the dispatcher does anything, whatever its schedule.
  pub connect_failure_is_final :
      (now : ℕ) (o : Outbox) (schedule : Schedule)
      → o.running ≡ false
      → run ((connect_fails, now) ∷ schedule) o ≡ record o { running = true }
  unfolding run tick run_pass
  connect_failure_is_final now o schedule idle =
      let failed : (tick handlers now no_lock (suc n) connect_fails o).outbox
          ≡ record o { running = true } =
        rw idle refl in
      ap (λ z. run schedule z) failed ∙ run-busy schedule (record o { running = true }) refl
