-- ===== src/Outbox/Pass.antt =====
-- src/worker/outbox-dispatcher.ts: a pass as one map over the table. The loop settles the claimed rows one
-- after another by updates of the whole table, and the map settles each
-- claimed row by itself.
use xms_backend.Prelude.{
  ℕ, ◌+◌, Bool, true, false, Option, none, some, List, [], ◌∷◌, ◌++◌, map, leb, ◌==◌, ==_iff,
  ==_false_iff, number_key, if◌then◌else◌, ◌≡◌, inl, inr, refl, sym, ap, ◌∙◌, subst, arith,
  Bool-cases, Memᴰ, contains, Distinct, not-mem_iff, mem-map, mem_of_mem-map, any, length,
  append_assoc, append-nil,
}
use mathlib.Core.List.{map-map}
use xms_backend.Outbox.Dispatcher.{
  OutboxRow, StoredRow, HandlerError, Handler, DeadLetter, max_attempts, dispatch, update_row,
  set_dispatched, set_dead, set_failed, dead_letter, Pass, settle, process,
}

abbrev pub ids : List OutboxRow → List ℕ
ids rows = map (λ c. c.id) rows

module _ {ℓ κ} {A : Type ℓ} {B : Type κ} where
  pub map-each :
      (f g : A → B) (xs : List A) → ((x : A) → Memᴰ x xs → f x ≡ g x) → map f xs ≡ map g xs
  map-each f g [] h = refl
  map-each f g (x ∷ xs) h =
      let here = h x (Memᴰ.head refl) in let rest = map-each f g xs (λ y m. h y (Memᴰ.tail m)) in cc

-- What a pass makes of one row, by the outcome of its dispatch.
abbrev pub by_outcome : ℕ → Option HandlerError → StoredRow → StoredRow
by_outcome now none r = set_dispatched now r
by_outcome now (some e) r =
    let attempts = r.row.attempts + 1 in
    if leb max_attempts attempts then set_dead now attempts e r else set_failed attempts e r

abbrev pub letters_of : OutboxRow → Option HandlerError → List DeadLetter
letters_of row none = []
letters_of row (some e) =
    let attempts = row.attempts + 1 in
    if leb max_attempts attempts then dead_letter row e attempts ∷ [] else []

pub by_outcome_id :
    (now : ℕ) (o : Option HandlerError) (r : StoredRow) → (by_outcome now o r).row.id ≡ r.row.id
by_outcome_id now none r = refl
by_outcome_id now (some e) r = elim (Bool-cases (leb max_attempts (r.row.attempts + 1))) [
  | inl t ↦ rw t refl
  | inr f ↦ rw f refl
]

by_outcome-some :
    (now : ℕ) (r : StoredRow) (n : ℕ) (e : HandlerError)
    → r.row.attempts ≡ n
    → by_outcome now (some e) r
      ≡ (if leb max_attempts (n + 1) then set_dead now (n + 1) e r else set_failed (n + 1) e r)
by_outcome-some now r n e h =
    ap (λ n. if leb max_attempts (n + 1) then set_dead now (n + 1) e r else set_failed (n + 1) e r)
      h

-- Every row of the table with the id of a claimed row is that row.
unfoldable pub Snapshot : List OutboxRow → List StoredRow → Type 0
Snapshot cs rows =
    (c : OutboxRow) (r : StoredRow) → Memᴰ c cs → Memᴰ r rows → r.row.id ≡ c.id → r.row ≡ c

module _ (handlers : List Handler) (now : ℕ) where
  unfoldable pub becomes : StoredRow → StoredRow
  becomes r = by_outcome now (dispatch handlers now r.row).1 r

  unfoldable pub letters : List OutboxRow → List DeadLetter
  letters [] = []
  letters (c ∷ cs) = letters_of c (dispatch handlers now c).1 ++ letters cs

  -- The table after the rows with these ids are settled.
  unfoldable pub settled : List ℕ → List StoredRow → List StoredRow
  settled done rows = map (λ r. if contains done r.row.id then becomes r else r) rows

  settle-rows :
      (c : OutboxRow) (o : Option HandlerError) (p : Pass)
      → ((r : StoredRow) → Memᴰ r p.rows → r.row.id ≡ c.id → r.row ≡ c)
      → ((settle handlers now c o p).rows
          ≡ map (λ r. if r.row.id == c.id then by_outcome now o r else r) p.rows)
        × ((settle handlers now c o p).dead_letters ≡ p.dead_letters ++ letters_of c o)
        × ((settle handlers now c o p).threw ≡ p.threw)
        × ((settle handlers now c o p).processed ≡ p.processed)
        × ((settle handlers now c o p).calls ≡ p.calls)
  unfolding settle update_row
  settle-rows c none p same = (refl, sym (append-nil p.dead_letters), refl, refl, refl)
  settle-rows c (some e) p same = elim (Bool-cases (leb max_attempts (c.attempts + 1))) [
    | inl t ↦ rw t (
      map-each _ _ p.rows (λ r m. elim (Bool-cases (r.row.id == c.id)) [
        | inl y ↦ rw y (
            sym (
              by_outcome-some now r c.attempts e
                (ap (λ x. x.attempts) (same r m ((==_iff _ _).0 y)))
              ∙ rw t refl))
        | inr n ↦ rw n refl
      ]),
      refl,
      refl,
      refl,
      refl,
    )
    | inr f ↦ rw f (
      map-each _ _ p.rows (λ r m. elim (Bool-cases (r.row.id == c.id)) [
        | inl y ↦ rw y (
            sym (
              by_outcome-some now r c.attempts e
                (ap (λ x. x.attempts) (same r m ((==_iff _ _).0 y)))
              ∙ rw f refl))
        | inr n ↦ rw n refl
      ]),
      sym (append-nil p.dead_letters),
      refl,
      refl,
      refl,
    )
  ]

  Snapshot-settle :
      (c : OutboxRow) (cs : List OutboxRow) (o : Option HandlerError) (rows : List StoredRow)
      → Distinct (ids (c ∷ cs))
      → Snapshot (c ∷ cs) rows
      → Snapshot cs (map (λ r. if r.row.id == c.id then by_outcome now o r else r) rows)
  unfolding Snapshot
  Snapshot-settle c cs o rows d snap b r m mr e =
      let (x, mx, q) =
        mem_of_mem-map (λ (r : StoredRow). if r.row.id == c.id then by_outcome now o r else r) rows
          mr in
      elim (Bool-cases (x.row.id == c.id)) [
        | inl y ↦ absurd (
            let r_is : r ≡ by_outcome now o x = rw y at q in
            let same_id : b.id ≡ c.id =
              sym e ∙ ap (λ z. z.row.id) r_is ∙ by_outcome_id now o x ∙ (==_iff _ _).0 y in
            d.0 (subst (λ z. Memᴰ z (ids cs)) same_id (mem-map (λ (z : OutboxRow). z.id) m)))
        | inr n ↦
            let r_is : r ≡ x = rw n at q in
            ap (λ z. z.row) r_is ∙ snap b x (Memᴰ.tail m) mx (ap (λ z. z.row.id) (sym r_is) ∙ e)
      ]

  -- Settling one row and then the others is settling them all.
  settled-cons :
      (c : OutboxRow) (cs : List OutboxRow) (rows : List StoredRow)
      → Distinct (ids (c ∷ cs))
      → Snapshot (c ∷ cs) rows
      → settled (ids cs) (
          map
            (λ r. if r.row.id == c.id then by_outcome now (dispatch handlers now c).1 r else r)
            rows)
        ≡ settled (ids (c ∷ cs)) rows
  unfolding settled becomes Snapshot
  settled-cons c cs rows d snap =
      map-map (λ r. if contains (ids cs) r.row.id then becomes r else r)
        (λ r. if r.row.id == c.id then by_outcome now (dispatch handlers now c).1 r else r) rows
      ∙ map-each _ _ rows (λ r m. elim (Bool-cases (r.row.id == c.id)) [
        | inl y ↦
            let same = (==_iff r.row.id c.id).0 y in
            let back = (==_iff c.id r.row.id).1 (sym same) in
            let o = (dispatch handlers now c).1 in
            let gone : contains (ids cs) (by_outcome now o r).row.id ≡ false =
              (not-mem_iff (ids cs) (by_outcome now o r).row.id).1
                (subst (λ z. ¬ Memᴰ z (ids cs)) (sym (by_outcome_id now o r ∙ same)) d.0) in
            rw y (
              rw back (
                rw gone (
                  ap (λ x. by_outcome now (dispatch handlers now x).1 r)
                    (sym (snap c r (Memᴰ.head refl) m same)))))
        | inr n ↦
            let back =
              (==_false_iff c.id r.row.id).1 (λ q. (==_false_iff r.row.id c.id).0 n (sym q)) in
            rw n (rw back refl)
      ])

  settled-nil : (rows : List StoredRow) → settled [] rows ≡ rows
  unfolding settled
  settled-nil [] = refl
  settled-nil (r ∷ rows) = ap (λ rs. r ∷ rs) (settled-nil rows)

  -- The pass after the first claimed row.
  abbrev next_pass : OutboxRow → Pass → Pass
  next_pass c p =
      let d = dispatch handlers now c in
      let s = settle handlers now c d.1 (record p { calls = p.calls ++ (c.id, d.0) ∷ [] }) in
      record s { processed = s.processed + 1 }

  -- Where no query throws, the loop settles the claimed rows, keeps one letter for each that is
  -- dead, and counts them all.
  pub process-settled :
      (fails : ℕ → Bool) (cs : List OutboxRow) (p : Pass)
      → any (λ c. fails c.id) cs ≡ false
      → Distinct (ids cs)
      → Snapshot cs p.rows
      → ((process handlers now fails cs p).rows ≡ settled (ids cs) p.rows)
        × ((process handlers now fails cs p).dead_letters ≡ p.dead_letters ++ letters cs)
        × ((process handlers now fails cs p).threw ≡ p.threw)
        × ((process handlers now fails cs p).processed ≡ p.processed + length cs)
  unfolding process letters settled Snapshot
  process-settled fails [] p h d snap =
      (sym (settled-nil p.rows), sym (append-nil p.dead_letters), refl, omega arith)
  process-settled fails (c ∷ cs) p h d snap =
      let o = (dispatch handlers now c).1 in
      let (rows, dead, threw, count, calls) =
        settle-rows c o (record p { calls = p.calls ++ (c.id, (dispatch handlers now c).0) ∷ [] })
          (λ r m. snap c r (Memᴰ.head refl) m) in
      let clear : fails c.id ≡ false = ground arith in
      let others : any (λ c. fails c.id) cs ≡ false = ground arith in
      let (ih_rows, ih_dead, ih_threw, ih_count) =
        process-settled fails cs (next_pass c p) others d.1
          (subst (λ rs. Snapshot cs rs) (sym rows) (Snapshot-settle c cs o p.rows d snap)) in
      rw clear (
        ih_rows ∙ ap (λ rs. settled (ids cs) rs) rows ∙ settled-cons c cs p.rows d snap,
        ih_dead
            ∙ ap (λ ls. ls ++ letters cs) dead
            ∙ append_assoc p.dead_letters (letters_of c o) (letters cs),
        ih_threw ∙ threw,
        ih_count ∙ ap (λ n. n + 1 + length cs) count ∙ omega arith,
      )

  -- A query for one of the claimed rows that throws ends the pass.
  pub process-threw :
      (fails : ℕ → Bool) (cs : List OutboxRow) (p : Pass)
      → any (λ c. fails c.id) cs ≡ true
      → (process handlers now fails cs p).threw ≡ true
  unfolding process
  process-threw fails (c ∷ cs) p h = elim (Bool-cases (fails c.id)) [
    | inl t ↦ rw t refl
    | inr f ↦ rw f (process-threw fails cs (next_pass c p) (rw f at h))
  ]
  process-threw fails [] p h = cc
