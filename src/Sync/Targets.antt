-- ===== src/Sync/Targets.antt =====
-- src/domain/sync/maps.ts, `validateFieldMap`: the counts of the fields that the entries name.
use Prim.Native.String.{◌++◌ as ◌^^◌}
use xms_backend.Prelude.Maps.{lookup, insert, lookup-insert, keys_of, insert-Distinct}
use xms_backend.Prelude.{
  ℕ, suc, ◌+◌, ◌≤◌, String, true, false, List, [], ◌∷◌, report-append-eq-nil, ltb, leb, leb→le,
  is_none, is_none-eq-true, ◌==◌, ==_iff, ==_refl, ==_false_iff, if◌then◌else◌, string_key, Memᴰ,
  Distinct, mem-map, ◌≡◌, ◌↔◌, ◌⊎◌, inl, inr, refl, sym, ap, subst, ◌∙◌, arith, Bool-cases,
}
use xms_backend.Sync.FieldReport.{or_zero, count_targets, repeated}

-- How often a name stands in a list.
abbrev occurrences : String → List String → ℕ
occurrences k [] = 0
occurrences k (n ∷ ns) = let rest = occurrences k ns in if n == k then suc rest else rest

abbrev counted : List (String × ℕ) → String → ℕ
counted m k = or_zero (lookup k m)

counted-insert :
    (n k : String) (c : ℕ) (m : List (String × ℕ))
    → counted (insert n c m) k ≡ (if n == k then c else counted m k)
counted-insert n k c m = elim (Bool-cases (n == k)) [
  | inl t ↦ rw (lookup-insert n k c m, t) refl
  | inr f ↦ rw (lookup-insert n k c m, f) refl
]

count_step : {x y z w : ℕ} (o : ℕ) → x ≡ o + y → y ≡ z + 1 → z ≡ w → x ≡ suc o + w
count_step o a b c = omega arith

counted-count_targets :
    (ns : List String) (m : List (String × ℕ)) (k : String)
    → counted (count_targets ns m) k ≡ occurrences k ns + counted m k
unfolding count_targets
counted-count_targets [] m k = omega arith
counted-count_targets (n ∷ ns) m k =
    let ih = counted-count_targets ns (insert n (counted m n + 1) m) k in
    let here = counted-insert n k (counted m n + 1) m in
    elim (Bool-cases (n == k)) [
      | inl t ↦
          let same : counted m n ≡ counted m k = ap (counted m) ((==_iff n k).0 t) in
          let h : counted (insert n (counted m n + 1) m) k ≡ counted m n + 1 = rw t at here in
          rw t (count_step (occurrences k ns) ih h same)
      | inr f ↦
          let h : counted (insert n (counted m n + 1) m) k ≡ counted m k = rw f at here in
          rw f (ih ∙ ap (λ z. occurrences k ns + z) h)
    ]

occurrences_mem : (k : String) (ns : List String) → 1 ≤ occurrences k ns → Memᴰ k ns
occurrences_mem k [] h = absurd (omega arith)
occurrences_mem k (n ∷ ns) h = elim (Bool-cases (n == k)) [
  | inl t ↦ Memᴰ.head (sym ((==_iff n k).0 t))
  | inr f ↦ Memᴰ.tail (occurrences_mem k ns (rw f at h))
]

mem_occurrences : (k : String) (ns : List String) → Memᴰ k ns → 1 ≤ occurrences k ns
mem_occurrences k [] m = elim m [ ]
mem_occurrences k (n ∷ ns) m = elim (Bool-cases (n == k)) [
  | inl t ↦ rw t (omega arith)
  | inr f ↦ rw f (elim m [
    | Memᴰ.head q ↦ absurd ((==_false_iff n k).0 f (sym q))
    | Memᴰ.tail l ↦ mem_occurrences k ns l
  ])
]

-- Each name stands at most once.
AtMostOnce : List String → Type 0
AtMostOnce ns = (k : String) → occurrences k ns ≤ 1

AtMostOnce-Distinct : (ns : List String) → AtMostOnce ns → Distinct ns
unfolding AtMostOnce
AtMostOnce-Distinct [] h = tt
AtMostOnce-Distinct (n ∷ ns) h = (
  (λ m. absurd (
      let one = mem_occurrences n ns m in
      let t : (n == n) ≡ true = ==_refl n in
      let two : suc (occurrences n ns) ≤ 1 = rw t at (h n) in omega arith)),
  AtMostOnce-Distinct ns (λ k. elim (Bool-cases (n == k)) [
    | inl t ↦ let two : suc (occurrences k ns) ≤ 1 = rw t at (h k) in omega arith
    | inr f ↦ rw f at (h k)
  ]),
)

Distinct-AtMostOnce : (ns : List String) → Distinct ns → AtMostOnce ns
unfolding AtMostOnce
Distinct-AtMostOnce [] d k = omega arith
Distinct-AtMostOnce (n ∷ ns) d k = elim (Bool-cases (n == k)) [
  | inl t ↦ rw t (
      no_more (Distinct-AtMostOnce ns d.1 k)
        (λ one. d.0 (subst (λ z. Memᴰ z ns) (sym ((==_iff n k).0 t)) (occurrences_mem k ns one))))
  | inr f ↦ rw f (Distinct-AtMostOnce ns d.1 k)
]
  where
    no_more : {o : ℕ} → o ≤ 1 → ¬ (1 ≤ o) → suc o ≤ 1
    no_more {o} small none_there = elim (Bool-cases (leb 1 o)) [
      | inl t ↦ absurd (none_there (leb→le 1 o t))
      | inr f ↦ ground arith
    ]

entry_count :
    (n : String) (c : ℕ) (m : List (String × ℕ))
    → Distinct (keys_of m)
    → Memᴰ (n, c) m
    → counted m n ≡ c
unfolding lookup
entry_count n c [] d m = elim m [ ]
entry_count n c (e ∷ m) d (Memᴰ.head q) =
    let t : (e.0 == n) ≡ true = (==_iff e.0 n).1 (sym (ap (λ (x : String × ℕ). x.0) q)) in
    rw t (sym (ap (λ (x : String × ℕ). x.1) q))
entry_count n c (e ∷ m) d (Memᴰ.tail l) =
    let f : (e.0 == n) ≡ false =
      (==_false_iff e.0 n).1 (λ q.
        d.0 (subst (λ z. Memᴰ z (keys_of m)) (sym q) (mem-map (λ (x : String × ℕ). x.0) l))) in
    rw f (entry_count n c m d.1 l)

none_repeated :
    (message : String) (m : List (String × ℕ))
    → (repeated message m ≡ []) ↔ ((n : String) (c : ℕ) → Memᴰ (n, c) m → c ≤ 1)
unfolding repeated
none_repeated message [] = (λ h n c m. elim m [ ], λ h. refl)
none_repeated message (t ∷ ts) =
    let ih = none_repeated message ts in
    let here = report-append-eq-nil (ltb 1 t.1) (t.0 ^^ message) (repeated message ts) in
    (
      λ h n c m.
          let (small, rest) = here.0 h in
          elim m [
            | Memᴰ.head q ↦ let e : c ≡ t.1 = ap (λ (x : String × ℕ). x.1) q in ground arith
            | Memᴰ.tail l ↦ ih.0 rest n c l
          ],
      λ h.
          here.1
            (small_enough t.1 (h t.0 t.1 (Memᴰ.head refl)), ih.1 (λ n c l. h n c (Memᴰ.tail l))),
    )
  where
    small_enough : (c : ℕ) → c ≤ 1 → ltb 1 c ≡ false
    small_enough c le = ground arith

counted_entry :
    (m : List (String × ℕ)) (k : String)
    → (counted m k ≡ 0) ⊎ ((c : ℕ) × Memᴰ (k, c) m × (counted m k ≡ c))
unfolding lookup
counted_entry [] k = inl refl
counted_entry (e ∷ m) k = elim (Bool-cases (e.0 == k)) [
  | inl t ↦
      rw t (inr (e.1, Memᴰ.head (ap (λ (z : String). (z, e.1)) (sym ((==_iff e.0 k).0 t))), refl))
  | inr f ↦
      rw f (elim (counted_entry m k) [ inl z ↦ inl z | inr (c, l, q) ↦ inr (c, Memᴰ.tail l, q) ])
]

count_targets-Distinct :
    (ns : List String) (m : List (String × ℕ))
    → Distinct (keys_of m)
    → Distinct (keys_of (count_targets ns m))
unfolding count_targets
count_targets-Distinct [] m d = d
count_targets-Distinct (n ∷ ns) m d =
    count_targets-Distinct ns (insert n (counted m n + 1) m)
      (insert-Distinct n (counted m n + 1) m d)

counted_nil : (k : String) → counted [] k ≡ 0
unfolding lookup
counted_nil k = refl

counted_names : (ns : List String) (k : String) → counted (count_targets ns []) k ≡ occurrences k ns
counted_names ns k = let e = counted-count_targets ns [] k in let z = counted_nil k in omega arith

-- No count is reported exactly when no name stands twice.
pub repeated-count_targets :
    (message : String) (ns : List String)
    → (repeated message (count_targets ns []) ≡ []) ↔ Distinct ns
unfolding AtMostOnce
repeated-count_targets message ns =
    let m = count_targets ns [] in
    (
      λ h. AtMostOnce-Distinct ns (λ k.
          let total = counted_names ns k in
          elim (counted_entry m k) [
            | inl z ↦ omega arith
            | inr (c, l, q) ↦ let small = (none_repeated message m).0 h k c l in omega arith
          ]),
      λ d. (none_repeated message m).1 (λ n c l.
          let total = counted_names ns n in
          let entry = entry_count n c m (count_targets-Distinct ns [] tt) l in
          let few = Distinct-AtMostOnce ns d n in omega arith),
    )

lookup_count : (m : List (String × ℕ)) (k : String) → is_none (lookup k m) ≡ true → counted m k ≡ 0
lookup_count m k h = ap or_zero (is_none-eq-true (lookup k m) h)

named :
    (ns : List String) (m : List (String × ℕ)) (k : String)
    → is_none (lookup k (count_targets ns m)) ≡ false
    → Memᴰ k ns ⊎ (is_none (lookup k m) ≡ false)
unfolding count_targets
named [] m k h = inr h
named (n ∷ ns) m k h = elim (named ns (insert n (counted m n + 1) m) k h) [
  | inl l ↦ inl (Memᴰ.tail l)
  | inr g ↦ elim (Bool-cases (n == k)) [
    | inl t ↦ inl (Memᴰ.head (sym ((==_iff n k).0 t)))
    | inr f ↦ inr (rw (lookup-insert n k (counted m n + 1) m, f) at g)
  ]
]

-- The names that have a count are those that stand in the list.
pub mem_of_count :
    (ns : List String) (k : String) → is_none (lookup k (count_targets ns [])) ≡ false → Memᴰ k ns
unfolding lookup
mem_of_count ns k h = elim (named ns [] k h) [ inl l ↦ l | inr g ↦ cc ]

pub count_of_mem :
    (ns : List String) (k : String) → Memᴰ k ns → is_none (lookup k (count_targets ns [])) ≡ false
count_of_mem ns k m = elim (Bool-cases (is_none (lookup k (count_targets ns [])))) [
  | inr f ↦ f
  | inl t ↦ absurd (
      let z = lookup_count (count_targets ns []) k t in
      let total = counted_names ns k in let one = mem_occurrences k ns m in omega arith)
]
