-- ===== src/Outbox/Invariant.antt =====
-- src/worker/outbox-dispatcher.ts and src/common/outbox/outbox.service.ts: what stays true of the outbox.
use mathlib.Core.List.{map-map, map-append}
use xms_backend.Prelude.{
  ℕ, ◌+◌, ◌<◌, Option, none, some, List, [], ◌∷◌, map, leb, number_key, if◌then◌else◌, ◌≡◌, ◌≢◌,
  inl, inr, refl, sym, ap, ◌∙◌, subst, arith, Bool-cases, Memᴰ, contains, Distinct, mem-map,
  mem_of_mem-map, mem-append_cases, Distinct-append,
}
use xms_backend.Outbox.Dispatcher.{
  OutboxRow, StoredRow, HandlerError, Handler, DeadLetter, max_attempts, dispatch, Outbox,
}
use xms_backend.Outbox.Pass.{
  ids, by_outcome, by_outcome_id, letters_of, becomes, letters, settled, map-each,
}
use xms_backend.Outbox.Tick.{HasKeys}

-- Ids are distinct, a row that waits has attempts left, no event has two dead letters, and the event
-- of each was given up after its last attempt.
pub record IsSound (o : Outbox) : Type 0 where
  pub keys : HasKeys o.rows
  pub waiting :
      (r : StoredRow) → Memᴰ r o.rows → r.dispatched_at ≡ none → r.row.attempts < max_attempts
  pub once : Distinct (map (λ l. l.outbox_id) o.dead_letters)
  pub given_up :
      (l : DeadLetter)
      → Memᴰ l o.dead_letters
      → (l.attempts ≡ max_attempts)
        × ((r : StoredRow) × Memᴰ r o.rows × (r.row.id ≡ l.outbox_id) × (r.dispatched_at ≢ none))

pub by_outcome-waiting :
    (now : ℕ) (o : Option HandlerError) (r : StoredRow)
    → (by_outcome now o r).dispatched_at ≡ none
    → (by_outcome now o r).row.attempts < max_attempts
by_outcome-waiting now none r h = cc
by_outcome-waiting now (some e) r h = elim (Bool-cases (leb max_attempts (r.row.attempts + 1))) [
  | inl t ↦ absurd (let g = rw t at h in cc)
  | inr f ↦ rw f (ground arith)
]

-- The letters of one row: at most one, with the row's id, and then the row is given up.
pub letter_given_up :
    (now : ℕ) (o : Option HandlerError) (r : StoredRow) (l : DeadLetter)
    → Memᴰ l (letters_of r.row o)
    → r.row.attempts < max_attempts
    → (l.attempts ≡ max_attempts) × ((by_outcome now o r).dispatched_at ≢ none)
letter_given_up now none r l m left = elim m [ ]
letter_given_up now (some e) r l m left =
    elim (Bool-cases (leb max_attempts (r.row.attempts + 1))) [
      | inr f ↦ elim (rw f at m) [ ]
      | inl t ↦ elim (rw t at m) [
        | Memᴰ.head q ↦ rw t (ap (λ z. z.attempts) q ∙ ground arith, λ h. cc)
        | Memᴰ.tail n ↦ elim n [ ]
      ]
    ]

pub letters_of_id :
    (o : Option HandlerError) (c : OutboxRow) {l : DeadLetter}
    → Memᴰ l (letters_of c o)
    → l.outbox_id ≡ c.id
letters_of_id none c m = elim m [ ]
letters_of_id (some e) c m = elim (Bool-cases (leb max_attempts (c.attempts + 1))) [
  | inr f ↦ elim (rw f at m) [ ]
  | inl t ↦ elim (rw t at m) [ Memᴰ.head q ↦ ap (λ z. z.outbox_id) q | Memᴰ.tail n ↦ elim n [ ] ]
]

letters_of-Distinct :
    (o : Option HandlerError) (c : OutboxRow) → Distinct (map (λ l. l.outbox_id) (letters_of c o))
letters_of-Distinct none c = tt
letters_of-Distinct (some e) c = elim (Bool-cases (leb max_attempts (c.attempts + 1))) [
  | inl t ↦ rw t ((λ m. elim m [ ]), tt)
  | inr f ↦ rw f tt
]

module _ (handlers : List Handler) (now : ℕ) where
  pub mem_of_mem-letters :
      {l : DeadLetter} (cs : List OutboxRow)
      → Memᴰ l (letters handlers now cs)
      → (c : OutboxRow) × Memᴰ c cs × Memᴰ l (letters_of c (dispatch handlers now c).1)
  unfolding letters
  mem_of_mem-letters [] m = elim m [ ]
  mem_of_mem-letters (c ∷ cs) m =
      elim (mem-append_cases (letters_of c (dispatch handlers now c).1) m) [
        | inl here ↦ (c, Memᴰ.head refl, here)
        | inr later ↦ let (b, mb, ml) = mem_of_mem-letters cs later in (b, Memᴰ.tail mb, ml)
      ]

  pub letters-Distinct :
      (cs : List OutboxRow)
      → Distinct (ids cs)
      → Distinct (map (λ l. l.outbox_id) (letters handlers now cs))
  unfolding letters
  letters-Distinct [] d = tt
  letters-Distinct (c ∷ cs) d =
      let o = (dispatch handlers now c).1 in
      let oid = λ (l : DeadLetter). l.outbox_id in
      subst Distinct (sym (map-append oid (letters_of c o) (letters handlers now cs))) (
        Distinct-append _ _ (letters_of-Distinct o c) (letters-Distinct cs d.1) (λ k mk mr.
          let (l, ml, q) = mem_of_mem-map oid (letters_of c o) mk in
          let (n, mn, r) = mem_of_mem-map oid (letters handlers now cs) mr in
          let (b, mb, mbl) = mem_of_mem-letters cs mn in
          let same : b.id ≡ c.id = sym (letters_of_id _ b mbl) ∙ sym r ∙ q ∙ letters_of_id o c ml in
          d.0 (subst (λ z. Memᴰ z (ids cs)) same (mem-map (λ (z : OutboxRow). z.id) mb))))

  pub settled_keys :
      (done : List ℕ) (rows : List StoredRow)
      → map (λ r. r.row.id) (settled handlers now done rows) ≡ map (λ r. r.row.id) rows
  unfolding settled becomes
  settled_keys done rows =
      map-map (λ (r : StoredRow). r.row.id)
        (λ (r : StoredRow). if contains done r.row.id then becomes handlers now r else r) rows
      ∙ map-each _ _ rows (λ r m. elim (Bool-cases (contains done r.row.id)) [
        | inl t ↦ rw t (by_outcome_id now (dispatch handlers now r.row).1 r)
        | inr f ↦ rw f refl
      ])
