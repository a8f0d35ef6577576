-- ===== src/Outbox/Progress.antt =====
-- src/worker/outbox-dispatcher.ts: the attempts that the rows of the table have left, which a pass uses up.
use xms_backend.Prelude.{
  ℕ, ◌+◌, ◌-◌, ◌<◌, ◌≤◌, suc, Bool, true, false, Option, none, some, List, [], ◌∷◌, leb, number_key,
  ◌≡◌, ◌≢◌, inl, inr, refl, sym, ap, ◌∙◌, subst, arith, Bool-cases, Option-cases, Memᴰ, contains,
}
use xms_backend.Outbox.Dispatcher.{StoredRow, HandlerError, Handler, max_attempts, dispatch, claim}
use xms_backend.Outbox.Pass.{by_outcome, becomes, settled}

-- The attempts that a row has left while it waits.
abbrev pub left_of : Option ℕ → ℕ → ℕ
left_of none attempts = max_attempts - attempts
left_of (some at) attempts = 0

abbrev pub left : List StoredRow → ℕ
left [] = 0
left (r ∷ rs) = left_of r.dispatched_at r.row.attempts + left rs

pub left_of_outcome :
    (now : ℕ) (o : Option HandlerError) (r : StoredRow)
    → (left_of (by_outcome now o r).dispatched_at (by_outcome now o r).row.attempts
        ≤ left_of r.dispatched_at r.row.attempts)
      × (r.dispatched_at ≡ none
          → r.row.attempts < max_attempts
          → left_of (by_outcome now o r).dispatched_at (by_outcome now o r).row.attempts
            < left_of r.dispatched_at r.row.attempts)
left_of_outcome now none r = (omega arith, λ w l. rw w (omega arith))
left_of_outcome now (some e) r = elim (Bool-cases (leb max_attempts (r.row.attempts + 1))) [
  | inl t ↦ rw t (omega arith, λ w l. rw w (omega arith))
  | inr f ↦ rw f (elim (Option-cases r.dispatched_at) [
    | inl w ↦ rw w (omega arith, λ _ l. omega arith)
    | inr (at, w) ↦ rw w (omega arith, λ none_is. cc)
  ])
]

module _ (handlers : List Handler) (now : ℕ) where
  pub left-settled :
      (done : List ℕ) (rows : List StoredRow)
      → (left (settled handlers now done rows) ≤ left rows)
        × ((r : StoredRow)
            → Memᴰ r rows
            → contains done r.row.id ≡ true
            → r.dispatched_at ≡ none
            → r.row.attempts < max_attempts
            → left (settled handlers now done rows) < left rows)
  unfolding settled becomes
  left-settled done [] = (omega arith, λ r m. elim m [ ])
  left-settled done (x ∷ rows) =
      let (le, lt) = left-settled done rows in
      let (here_le, here_lt) = left_of_outcome now (dispatch handlers now x.row).1 x in
      elim (Bool-cases (contains done x.row.id)) [
        | inl t ↦ rw t (
          omega (arith, le, here_le),
          λ r m k w l. elim m [
            | Memᴰ.head q ↦
                let fewer =
                  here_lt (ap (λ z. z.dispatched_at) (sym q) ∙ w)
                    (subst (λ z. z.row.attempts < max_attempts) q l) in
                omega (arith, le, fewer)
            | Memᴰ.tail n ↦ let fewer = lt r n k w l in omega (arith, here_le, fewer)
          ],
        )
        | inr f ↦ rw f (
          omega (arith, le),
          λ r m k w l. elim m [
            | Memᴰ.head q ↦
                absurd (let other = subst (λ z. contains done z.row.id ≡ true) q k in cc)
            | Memᴰ.tail n ↦ let fewer = lt r n k w l in omega (arith, fewer)
          ],
        )
      ]

-- Attempts are left exactly while some row of a sound outbox waits.
pub left-eq-zero :
    (rows : List StoredRow)
    → ((r : StoredRow) → Memᴰ r rows → r.dispatched_at ≡ none → r.row.attempts < max_attempts)
    → left rows ≡ 0
    → (r : StoredRow) → Memᴰ r rows
    → r.dispatched_at ≢ none
left-eq-zero (x ∷ rows) bound h r (Memᴰ.head q) waits =
    let w : x.dispatched_at ≡ none = ap (λ z. z.dispatched_at) (sym q) ∙ waits in
    let l = bound x (Memᴰ.head refl) w in
    let some_left : left_of x.dispatched_at x.row.attempts ≡ max_attempts - x.row.attempts =
      rw w refl in
    omega (arith, some_left, l)
left-eq-zero (x ∷ rows) bound h r (Memᴰ.tail m) waits =
    left-eq-zero rows (λ z n. bound z (Memᴰ.tail n)) (omega arith) r m waits
left-eq-zero [] bound h r m waits = elim m [ ]

pub waiting_of_left :
    (rows : List StoredRow)
    → 0 < left rows
    → (r : StoredRow) × Memᴰ r rows × (r.dispatched_at ≡ none)
waiting_of_left [] h = absurd (omega arith)
waiting_of_left (x ∷ rows) h = elim (Option-cases x.dispatched_at) [
  | inl w ↦ (x, Memᴰ.head refl, w)
  | inr (at, w) ↦
      let (r, m, v) = waiting_of_left rows (let g = rw w at h in omega (arith, g)) in
      (r, Memᴰ.tail m, v)
]

abbrev pub no_lock : ℕ → Bool
no_lock id = false

-- With a positive limit, some row is claimed where any waits and none is locked.
pub claim_first :
    (n : ℕ) (rows : List StoredRow) (r : StoredRow)
    → Memᴰ r rows
    → r.dispatched_at ≡ none
    → (s : StoredRow) × Memᴰ s rows
      × Memᴰ s.row (claim no_lock (suc n) rows)
      × (s.dispatched_at ≡ none)
unfolding claim
claim_first n (x ∷ rows) r m w = elim (Option-cases x.dispatched_at) [
  | inl v ↦ (x, Memᴰ.head refl, rw v (Memᴰ.head refl), v)
  | inr (at, v) ↦ elim m [
    | Memᴰ.head q ↦ absurd (let other = ap (λ z. z.dispatched_at) q in cc)
    | Memᴰ.tail t ↦
        let (s, ms, mc, waits) = claim_first n rows r t w in (s, Memᴰ.tail ms, rw v mc, waits)
  ]
]
claim_first n [] r m w = elim m [ ]
