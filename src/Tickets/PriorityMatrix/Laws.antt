-- ===== src/Tickets/PriorityMatrix/Laws.antt =====
-- src/domain/tickets/priority-matrix.ts: which matrices are accepted.
use xms_backend.Prelude.Json.{
  Value, string, object, property, undefined, null, boolean, number, array,
}
use xms_backend.Prelude.{
  String, Bool, true, false, not, Option, none, some, List, [], ◌∷◌, ◌++◌, report, ◌==◌, ==_iff,
  string_key, ◌⊎◌, inl, inr, is_nil, ◌≡◌, ◌↔◌, refl, sym, ap, Memᴰ, Bool-cases, append-eq-nil,
  report-append-eq-nil, report-eq-nil, not-eq-false, All, All-iff, ◌∙◌, subst, ◌≢◌, is_nil-eq-false,
  is_nil-eq-true,
}
use xms_backend.Tickets.PriorityMatrix.{
  Level, high, medium, low, Priority, p1, p2, p3, p4, priority_key, levels, read_priority,
  is_priority, cell, row_problems, cell_problems, validate_matrix, derive, new_matrix, bad_cell,
  bad_default, has_cells, read_key,
}

abbrev pub IsPriority : Value → Type 0
IsPriority v = (p : Priority) × (v ≡ string (priority_key p))

read_key-cases :
    (s : String) → is_priority (read_key s) ≡ true → (p : Priority) × (s ≡ priority_key p)
read_key-cases s h = elim (Bool-cases (s == "p1")) [
  | inl t ↦ (p1, (==_iff s "p1").0 t)
  | inr n1 ↦ elim (Bool-cases (s == "p2")) [
    | inl t ↦ (p2, (==_iff s "p2").0 t)
    | inr n2 ↦ elim (Bool-cases (s == "p3")) [
      | inl t ↦ (p3, (==_iff s "p3").0 t)
      | inr n3 ↦ elim (Bool-cases (s == "p4")) [
        | inl t ↦ (p4, (==_iff s "p4").0 t)
        | inr n4 ↦ absurd (let g = (simp (n1, n2, n3, n4) at h) in cc)
      ]
    ]
  ]
]

read_key-priority_key : (p : Priority) → read_key (priority_key p) ≡ some p
read_key-priority_key p1 = refl
read_key-priority_key p2 = refl
read_key-priority_key p3 = refl
read_key-priority_key p4 = refl

reads : (v : Value) → is_priority (read_priority v) ≡ true → IsPriority v
unfolding read_priority
reads (string s) h = let (p, e) = read_key-cases s h in (p, ap string e)
reads undefined h = cc
reads null h = cc
reads (boolean b) h = cc
reads (number n) h = cc
reads (array xs) h = cc
reads (object fs) h = cc

pub is_priority_iff : (v : Value) → (is_priority (read_priority v) ≡ true) ↔ IsPriority v
unfolding read_priority
is_priority_iff v = (
  reads v,
  λ q. ap (λ w. is_priority (read_priority w)) q.1 ∙ ap is_priority (read_key-priority_key q.0),
)

-- A check of one member and then of the rest passes iff every member passes.
each_of_cons :
    (P : Level → Type 0) {x : Level} {xs : List Level} {b : Bool}
    → (not b ≡ false) ↔ (b ≡ true)
    → (b ≡ true) ↔ P x
    → (((u : Level) → Memᴰ u xs → P u) × P x) ↔ ((u : Level) → Memᴰ u (x ∷ xs) → P u)
each_of_cons P n e = (
  λ h u m. elim m [ Memᴰ.head q ↦ subst P (sym q) h.1 | Memᴰ.tail l ↦ h.0 u l ],
  λ h. (λ u m. h u (Memᴰ.tail m), h _ (Memᴰ.head refl)),
)

pub row_problems-eq-nil :
    (body : Value) (impact : Level) (us : List Level)
    → (row_problems body impact us ≡ []) ↔ All (λ u. IsPriority (cell body impact u)) us
unfolding row_problems
row_problems-eq-nil body impact [] = (λ _. tt, λ _. refl)
row_problems-eq-nil body impact (u ∷ us) =
    let step =
      report-append-eq-nil (not (is_priority (read_priority (cell body impact u))))
        (bad_cell impact u) (row_problems body impact us) in
    let here = is_priority_iff (cell body impact u) in
    let flag = not-eq-false (is_priority (read_priority (cell body impact u))) in
    let ih = row_problems-eq-nil body impact us in
    (
      λ h. let (f, r) = step.0 h in (here.0 (flag.0 f), ih.0 r),
      λ h. step.1 (flag.1 (here.1 h.0), ih.1 h.1),
    )

pub cell_problems-eq-nil :
    (body : Value) (is : List Level)
    → (cell_problems body is ≡ []) ↔ All (λ i. All (λ u. IsPriority (cell body i u)) levels) is
unfolding cell_problems
cell_problems-eq-nil body [] = (λ _. tt, λ _. refl)
cell_problems-eq-nil body (i ∷ is) =
    let step = append-eq-nil (row_problems body i levels) (cell_problems body is) in
    let here = row_problems-eq-nil body i levels in
    let ih = cell_problems-eq-nil body is in
    (λ h. let (f, r) = step.0 h in (here.0 f, ih.0 r), λ h. step.1 (here.1 h.0, ih.1 h.1))

mem-levels : (l : Level) → Memᴰ l levels
mem-levels high = Memᴰ.head refl
mem-levels medium = Memᴰ.tail (Memᴰ.head refl)
mem-levels low = Memᴰ.tail (Memᴰ.tail (Memᴰ.head refl))

-- A body with a priority in a cell has cells.
cells_of_cell :
    (c : Value) (i u : String) (p : Priority)
    → property u (property i c) ≡ string (priority_key p)
    → has_cells c ≡ true
cells_of_cell (object fs) i u p h = refl
cells_of_cell undefined i u p h = cc
cells_of_cell null i u p h = cc
cells_of_cell (boolean b) i u p h = cc
cells_of_cell (number n) i u p h = cc
cells_of_cell (string s) i u p h = cc
cells_of_cell (array xs) i u p h = cc

abbrev pub Answers : Value → Type 0
Answers body = (impact urgency : Option Level) → IsPriority (derive body impact urgency)

-- The cells and the default are priorities, which is what the loops of `validateMatrix` check.
AllCells : Value → Type 0
AllCells body =
    All (λ i. All (λ u. IsPriority (cell body i u)) levels) levels
    × IsPriority (property "default" body)

Answers-iff : (body : Value) → AllCells body ↔ Answers body
unfolding AllCells derive
Answers-iff body = (to, from)
  where
    to : AllCells body → Answers body
    to h none u = h.1
    to h (some i) none = h.1
    to h (some i) (some u) =
        let row =
          (All-iff (λ i. All (λ u. IsPriority (cell body i u)) levels) levels).0 h.0 i
            (mem-levels i) in
        (All-iff (λ u. IsPriority (cell body i u)) levels).0 row u (mem-levels u)

    from : Answers body → AllCells body
    from h = (
      (All-iff (λ i. All (λ u. IsPriority (cell body i u)) levels) levels).1 (λ i _.
          (All-iff (λ u. IsPriority (cell body i u)) levels).1 (λ u _. h (some i) (some u))),
      h none none,
    )

problems_iff :
    (body : Value)
    → ((cell_problems body levels
          ++ report (not (is_priority (read_priority (property "default" body)))) bad_default)
        ≡ [])
      ↔ AllCells body
unfolding AllCells
problems_iff body =
    let split =
      append-eq-nil (cell_problems body levels)
        (report (not (is_priority (read_priority (property "default" body)))) bad_default) in
    let cells = cell_problems-eq-nil body levels in
    let base =
      report-eq-nil (not (is_priority (read_priority (property "default" body)))) bad_default in
    let flag = not-eq-false (is_priority (read_priority (property "default" body))) in
    let here = is_priority_iff (property "default" body) in
    (
      λ h. let (c, d) = split.0 h in (cells.0 c, here.0 (flag.0 (base.0 d))),
      λ h. split.1 (cells.1 h.0, base.1 (flag.1 (here.1 h.1))),
    )

-- A body that answers has cells, so the first guard of `validateMatrix` lets it through.
has_cells_of_answers : (body : Value) → AllCells body → has_cells (property "cells" body) ≡ true
unfolding AllCells cell
has_cells_of_answers body h =
    let (p, e) = h.0.0.0 in cells_of_cell (property "cells" body) "high" "high" p e

pub validate_matrix_iff : (body : Value) → (validate_matrix body ≡ []) ↔ Answers body
unfolding validate_matrix
validate_matrix_iff body = elim (Bool-cases (has_cells (property "cells" body))) [
  | inl t ↦ rw t (
    λ h. (Answers-iff body).0 ((problems_iff body).0 h),
    λ h. (problems_iff body).1 ((Answers-iff body).1 h),
  )
  | inr f ↦
      rw f (λ h. cc, λ h. absurd (let c = has_cells_of_answers body ((Answers-iff body).1 h) in cc))
]

-- The constructor keeps a body exactly when `derive` then returns one of the four priorities
-- whatever impact and urgency are given, and also when either of them is missing. It throws
-- the problems found, of which there is at least one, in every other case.
pub new_matrix_iff :
    (body : Value)
    → ((new_matrix body ≡ inr body) ↔ Answers body)
      × ((new_matrix body ≡ inr body)
          ⊎ ((validate_matrix body ≢ []) × (new_matrix body ≡ inl (validate_matrix body))))
unfolding new_matrix
new_matrix_iff body = elim (Bool-cases (is_nil (validate_matrix body))) [
  | inl t ↦ rw t (
    (λ h. (validate_matrix_iff body).0 (is_nil-eq-true (validate_matrix body) t), λ h. refl),
    inl refl,
  )
  | inr f ↦
      let n = (is_nil-eq-false (validate_matrix body)).0 f in
      rw f ((λ h. cc, λ h. absurd (n ((validate_matrix_iff body).1 h))), inr (n, refl))
]
