-- ===== src/Sync/Validated.antt =====
-- src/domain/sync/maps.ts, `validateFieldMap`: which versions of a field map it takes. What a
-- record inherits is a function, which is no value here: an entry that would read one is left out.
use xms_backend.Prelude.Json.{Value, Fields}
use xms_backend.Prelude.Maps.{lookup}
use xms_backend.Prelude.{
  ℕ, suc, String, Bool, true, false, not, ◌&&◌, none, some, List, [], ◌∷◌, any, contains, any→some,
  some→any, report-append-eq-nil, report-eq-nil, append-eq-nil, is_nil, is_nil-eq-true, is_none,
  not-eq-false, ◌==◌, ==_iff, string_key, Memᴰ, Distinct, ◌≡◌, ◌↔◌, ◌⊎◌, inl, inr, refl, sym, ap,
  subst, arith, Bool-cases,
}
use xms_backend.Sync.FieldMap.{
  FieldMapEntry, FieldSpec, is_inward, is_outward, Transform, identity, table, template, truncate,
  xms_fields,
}
use xms_backend.Sync.FieldReport.{
  DictionaryField, inherited_names, is_in, is_listed, is_unbounded, count_targets, targets_of,
  uncovered, gaps, lookup_problems, entry_problems, entries_problems, problems_of,
  validate_field_map,
}
use xms_backend.Sync.Records.{leaving, arriving, xms_of}
use xms_backend.Sync.Samples.{Covers, gaps_iff}
use xms_backend.Sync.Targets.{repeated-count_targets, mem_of_count, count_of_mem}

module _ (to_text : Value → String) where
  -- What a valid entry is.
  pub record IsSoundEntry (e : FieldMapEntry) (dictionary : List DictionaryField)
      (samples : List Fields) : Type 0 where
    pub known : is_in e.xms xms_fields ≡ true
    pub listed : is_listed e.direction ≡ true
    pub in_dictionary :
        (dictionary ≡ []) ⊎ ((d : DictionaryField) × Memᴰ d dictionary × (d.name ≡ e.external))
    pub bounded : is_unbounded e.transform ≡ false
    pub covers : Covers to_text e.external e.transform samples

  -- What a version must be to be taken.
  pub record IsValidMap (es : List FieldMapEntry) (dictionary : List DictionaryField)
      (samples : List Fields) : Type 0 where
    pub entries : (e : FieldMapEntry) → Memᴰ e es → IsSoundEntry e dictionary samples
    pub required :
        (name : String) (spec : FieldSpec)
        → Memᴰ (name, spec) xms_fields
        → spec.required ≡ true
        → Memᴰ name (xms_of (arriving es))
    pub arrives_once : Distinct (xms_of (arriving es))
    pub leaves_once : Distinct (xms_of (leaving es))

  lookup_problems-eq-nil :
      (index : ℕ) (external : String) (t : Transform) (samples : List Fields)
      → (lookup_problems to_text index external t samples ≡ []) ↔ Covers to_text external t samples
  unfolding lookup_problems
  lookup_problems-eq-nil index external identity samples = (λ _. tt, λ _. refl)
  lookup_problems-eq-nil index external (template t) samples = (λ _. tt, λ _. refl)
  lookup_problems-eq-nil index external (truncate n) samples = (λ _. tt, λ _. refl)
  lookup_problems-eq-nil index external (table values (some f)) samples =
      (λ _. tt, λ _. (report-eq-nil _ _).1 (never (is_nil (gaps to_text external values samples))))
    where
      never : (b : Bool) → (not b && false) ≡ false
      never b = ground arith
  lookup_problems-eq-nil index external (table values none) samples =
      let g = gaps_iff to_text external values samples in
      let missing = gaps to_text external values samples in
      (
        λ h. g.0 (is_nil-eq-true missing (always (is_nil missing) ((report-eq-nil _ _).0 h))),
        λ c. (report-eq-nil _ _).1 (ap (λ vs. not (is_nil vs) && true) (g.1 c)),
      )
    where
      always : (b : Bool) → (not b && true) ≡ false → b ≡ true
      always b h = ground arith

  in_dictionary_iff :
      (external : String) (dictionary : List DictionaryField)
      → ((not (is_nil dictionary)
            && not (any (λ (d : DictionaryField). d.name == external) dictionary))
          ≡ false)
        ↔ ((dictionary ≡ []) ⊎ ((d : DictionaryField) × Memᴰ d dictionary × (d.name ≡ external)))
  in_dictionary_iff external dictionary =
      let named : DictionaryField → Bool = λ (d : DictionaryField). d.name == external in
      (
        λ h. elim (Bool-cases (is_nil dictionary)) [
          | inl t ↦ inl (is_nil-eq-true dictionary t)
          | inr f ↦
              let t : any named dictionary ≡ true = ground arith in
              let (d, m, e) = any→some named dictionary t in
              inr (d, m, (==_iff d.name external).0 e)
        ],
        λ s. elim s [
          | inl n ↦ let t : is_nil dictionary ≡ true = ap is_nil n in rw t refl
          | inr (d, m, e) ↦
              let t : any named dictionary ≡ true =
                some→any named dictionary m ((==_iff d.name external).1 e) in
              rw t (not_both (is_nil dictionary))
        ],
      )
    where
      not_both : (b : Bool) → (not b && false) ≡ false
      not_both b = ground arith

  entry_problems-eq-nil :
      (index : ℕ) (e : FieldMapEntry) (dictionary : List DictionaryField) (samples : List Fields)
      → (entry_problems to_text index e dictionary samples ≡ []) ↔ IsSoundEntry e dictionary samples
  unfolding entry_problems
  entry_problems-eq-nil index e dictionary samples = (
    λ h.
        let (known, h1) = (report-append-eq-nil _ _ _).0 h in
        let (listed, h2) = (report-append-eq-nil _ _ _).0 h1 in
        let (named, h3) = (report-append-eq-nil _ _ _).0 h2 in
        let (bounded, h4) = (report-append-eq-nil _ _ _).0 h3 in
        record {
          known = (not-eq-false (is_in e.xms xms_fields)).0 known;
          listed = (not-eq-false (is_listed e.direction)).0 listed;
          in_dictionary = (in_dictionary_iff e.external dictionary).0 named;
          bounded = bounded;
          covers = (lookup_problems-eq-nil index e.external e.transform samples).0 h4;
        },
    λ q. (report-append-eq-nil _ _ _).1 (
      (not-eq-false (is_in e.xms xms_fields)).1 q.known,
      (report-append-eq-nil _ _ _).1 (
        (not-eq-false (is_listed e.direction)).1 q.listed,
        (report-append-eq-nil _ _ _).1 (
          (in_dictionary_iff e.external dictionary).1 q.in_dictionary,
          (report-append-eq-nil _ _ _).1
              (q.bounded, (lookup_problems-eq-nil index e.external e.transform samples).1 q.covers),
        ),
      ),
    ),
  )

  entries_problems-eq-nil :
      (es : List FieldMapEntry) (index : ℕ) (dictionary : List DictionaryField)
      (samples : List Fields)
      → (entries_problems to_text index es dictionary samples ≡ [])
        ↔ ((e : FieldMapEntry) → Memᴰ e es → IsSoundEntry e dictionary samples)
  unfolding entries_problems
  entries_problems-eq-nil [] index dictionary samples = (λ h e m. elim m [ ], λ h. refl)
  entries_problems-eq-nil (x ∷ es) index dictionary samples =
      let here = entry_problems-eq-nil index x dictionary samples in
      let rest = entries_problems-eq-nil es (suc index) dictionary samples in
      let both =
        append-eq-nil (entry_problems to_text index x dictionary samples)
          (entries_problems to_text (suc index) es dictionary samples) in
      (
        λ h e m. elim m [
          | Memᴰ.head q ↦
              subst (λ z. IsSoundEntry z dictionary samples) (sym q) (here.0 (both.0 h).0)
          | Memᴰ.tail l ↦ rest.0 (both.0 h).1 e l
        ],
        λ h. both.1 (here.1 (h x (Memᴰ.head refl)), rest.1 (λ e m. h e (Memᴰ.tail m))),
      )

  uncovered-eq-nil :
      (fs : List (String × FieldSpec)) (ns : List String)
      → (uncovered fs (count_targets ns []) ≡ []) ↔ (
          (name : String) (spec : FieldSpec)
          → Memᴰ (name, spec) fs
          → spec.required ≡ true
          → Memᴰ name ns)
  unfolding uncovered
  uncovered-eq-nil [] ns = (λ h name spec m. elim m [ ], λ h. refl)
  uncovered-eq-nil (f ∷ fs) ns =
      let rest = uncovered-eq-nil fs ns in
      (
        λ h name spec m r.
            let split =
              report-append-eq-nil (f.1.required && is_none (lookup f.0 (count_targets ns []))) _
                (uncovered fs (count_targets ns [])) in
            let (met, later) = split.0 h in
            elim m [
              | Memᴰ.tail l ↦ rest.0 later name spec l r
              | Memᴰ.head q ↦
                  let n : name ≡ f.0 = ap (λ (x : String × FieldSpec). x.0) q in
                  let r' : f.1.required ≡ true =
                    subst (λ (x : String × FieldSpec). x.1.required ≡ true) q r in
                  subst (λ z. Memᴰ z ns) (sym n) (mem_of_count ns f.0 (ground arith))
            ],
        λ h. (report-append-eq-nil _ _ _).1 (
          elim (Bool-cases f.1.required) [
            | inl t ↦ let c = count_of_mem ns f.0 (h f.0 f.1 (Memᴰ.head refl) t) in ground arith
            | inr n ↦ ground arith
          ],
          rest.1 (λ name spec m. h name spec (Memᴰ.tail m)),
        ),
      )

  -- Where no entry reads an external field under a name that every object inherits, such as toString, a
  -- version of a field map is reported to be ok exactly when each of its entries names a known field or
  -- an inherited name, has a direction and, if there is a dictionary, an external field of it, truncates
  -- to no length of zero, and has a fallback or a table in which each value of the samples is a key or an
  -- inherited name; each required field arrives through an entry; and no field arrives or leaves through
  -- two.
  pub validate_field_map_iff :
      (es : List FieldMapEntry) (dictionary : List DictionaryField) (samples : List Fields)
      → ((e : FieldMapEntry) → Memᴰ e es → contains inherited_names e.external ≡ false)
      → ((validate_field_map to_text es dictionary samples).ok ≡ true)
        ↔ IsValidMap es dictionary samples
  unfolding validate_field_map problems_of
  validate_field_map_iff es dictionary samples plain =
      let into = targets_of is_outward es in
      let out = targets_of is_inward es in
      let entries = entries_problems-eq-nil es 0 dictionary samples in
      let required = uncovered-eq-nil xms_fields into in
      let twice_in = repeated-count_targets " is mapped inbound more than once" into in
      let twice_out = repeated-count_targets " is mapped outbound more than once" out in
      (
        λ h.
            let (h0, h1) =
              (append-eq-nil _ _).0
                (is_nil-eq-true (problems_of to_text es dictionary samples) h) in
            let (h2, h3) = (append-eq-nil _ _).0 h1 in
            let (h4, h5) = (append-eq-nil _ _).0 h3 in
            record {
              entries = entries.0 h0;
              required = required.0 h2;
              arrives_once = twice_in.0 h4;
              leaves_once = twice_out.0 h5;
            },
        λ q. ap is_nil (
            (append-eq-nil _ _).1 (
              entries.1 q.entries,
              (append-eq-nil _ _).1 (
                required.1 q.required,
                (append-eq-nil _ _).1 (twice_in.1 q.arrives_once, twice_out.1 q.leaves_once),
              ),
            )),
      )
