-- ===== src/Tickets/CloseDiscipline/CatalogLaws.antt =====
-- src/domain/tickets/close-discipline.ts and src/modules/tickets/tickets.service.ts: which catalogs
-- pass, and what is in force under them.
use xms_backend.Prelude.Int.{pos}
use xms_backend.Prelude.Json.{
  whole, Value, undefined, string, number, array, property, is_undefined, is_whole_within, Items,
  items,
}
use xms_backend.Prelude.Texts.{is_empty, trim, is_snake_case}
use xms_backend.Prelude.{
  ℕ, suc, ◌≤◌, String, true, false, not, ◌&&◌, List, [], ◌∷◌, map, contains, add, is_nil,
  string_key, ◌≡◌, ◌⊎◌, inl, inr, refl, arith, ap, subst, Fresh, Fresh-cons, Distinct, Bool-cases,
  append-eq-nil, report-append-eq-nil, not-eq-false, ◌∙◌,
}
use xms_backend.Tickets.CloseDiscipline.{default_time_exemption_reasons, bar_of}
use xms_backend.Tickets.CloseDiscipline.Catalog.{
  key_problems, seen_after, reason_problems, list_problems, is_good_label, readable, listed,
  number_of, or_default, bar_key, reasons_key, is_object, validate_close_discipline,
  close_discipline, bad_label, bad_bar,
}

-- The reasons of a catalog, read as keys and labels: keys in snake_case, labels that are not blank.
abbrev pub Reads : List Value → List (String × String) → Type 0
Reads [] [] = Unit
Reads [] (r ∷ rs) = ⊥
Reads (v ∷ vs) [] = ⊥
Reads (v ∷ vs) (r ∷ rs) =
    (property "key" v ≡ string r.0)
    × (property "label" v ≡ string r.1)
    × (is_snake_case r.0 ≡ true)
    × (is_empty (trim r.1) ≡ false)
    × Reads vs rs

abbrev pub keys_of : List (String × String) → List String
keys_of rs = map (λ r. r.0) rs

-- A key without problems is a snake_case string that was not seen.
key_problems-nil :
    (index : ℕ) (seen : List String) (v : Value)
    → key_problems index seen v ≡ []
    → (key : String) × (v ≡ string key) × (is_snake_case key ≡ true) × (contains seen key ≡ false)
unfolding key_problems
key_problems-nil index seen (string key) h = (key, refl, ground arith, ground arith)
key_problems-nil index seen _ h = cc

label-good :
    (v : Value)
    → is_good_label v ≡ true
    → (s : String) × (v ≡ string s) × (is_empty (trim s) ≡ false)
label-good (string s) h = (s, refl, ground arith)
label-good _ h = cc

seen_after-string :
    (seen : List String) (key : String)
    → is_snake_case key ≡ true
    → contains seen key ≡ false
    → seen_after seen (string key) ≡ add seen key
unfolding seen_after
seen_after-string seen key s f = rw s (rw f refl)

reason_problems-nil :
    (index : ℕ) (seen : List String) (vs : List Value)
    → reason_problems index seen vs ≡ []
    → (rs : List (String × String)) × Reads vs rs × Fresh seen (keys_of rs)
unfolding reason_problems
reason_problems-nil index seen [] h = ([], tt, ((λ k m. elim m [ ]), tt))
reason_problems-nil index seen (v ∷ vs) h =
    let (a, h1) = (append-eq-nil (key_problems index seen (property "key" v)) _).0 h in
    let (b, h2) =
      (report-append-eq-nil (not (is_good_label (property "label" v))) (bad_label index) _).0 h1 in
    let (key, k, snake, new) = key_problems-nil index seen (property "key" v) a in
    let (label, l, shown) = label-good (property "label" v) ((not-eq-false _).0 b) in
    let after : seen_after seen (property "key" v) ≡ add seen key =
      ap (seen_after seen) k ∙ seen_after-string seen key snake new in
    let (rs, reads, fresh) =
      reason_problems-nil (suc index) (add seen key) vs
        (subst (λ z. reason_problems (suc index) z vs ≡ []) after h2) in
    (
      (key, label) ∷ rs,
      (k, l, snake, shown, reads),
      (Fresh-cons seen key (keys_of rs)).1 (new, fresh),
    )

readable-Reads : (vs : List Value) (rs : List (String × String)) → Reads vs rs → readable vs ≡ rs
unfolding readable
readable-Reads [] [] h = refl
readable-Reads [] (r ∷ rs) h = absurd h
readable-Reads (v ∷ vs) [] h = absurd h
readable-Reads (v ∷ vs) (r ∷ rs) (k, l, snake, shown, h) =
    rw (k, l) (ap (λ z. r ∷ z) (readable-Reads vs rs h))

or_default-Reads :
    (vs : List Value) (rs : List (String × String))
    → Reads vs rs
    → is_nil vs ≡ false
    → or_default rs ≡ rs
or_default-Reads [] rs h f = cc
or_default-Reads (v ∷ vs) [] h f = absurd h
or_default-Reads (v ∷ vs) (r ∷ rs) h f = refl

bar_in_force :
    (v : Value)
    → (not (is_undefined v) && not (is_whole_within 0 4000 v)) ≡ false
    → ((v ≡ undefined) × (bar_of (number_of v) ≡ 40))
      ⊎ ((n : ℕ) × (v ≡ number (whole (pos n))) × (n ≤ 4000) × (bar_of (number_of v) ≡ n))
bar_in_force undefined h = inl (refl, refl)
bar_in_force (number (whole (pos n))) h = inr (n, refl, ground arith, refl)
bar_in_force _ h = cc

list_in_force :
    (v : Value)
    → list_problems v ≡ []
    → ((v ≡ undefined) × (or_default (readable (listed v)) ≡ default_time_exemption_reasons))
      ⊎ ((xs : Items) × (v ≡ array xs)
          × Reads (items xs) (or_default (readable (listed v)))
          × Distinct (keys_of (or_default (readable (listed v)))))
unfolding list_problems
list_in_force undefined h = inl (unfold readable in refl, unfold readable in refl)
list_in_force (array xs) h = elim (Bool-cases (is_nil (items xs))) [
  | inl empty ↦ absurd (let e = rw empty at h in cc)
  | inr full ↦
      let (rs, reads, fresh) = reason_problems-nil 0 [] (items xs) (rw full at h) in
      let offered : or_default (readable (items xs)) ≡ rs =
        ap or_default (readable-Reads (items xs) rs reads)
        ∙ or_default-Reads (items xs) rs reads full in
      inr (xs, refl, rw offered reads, rw offered fresh.1)
]
list_in_force _ h = cc

-- A catalog that passes the check is in force as it is written: the bar is the number given, from 0 to
-- 4000, or 40 where none is given; the reasons are exactly those listed, in their order, each with a
-- snake_case key that no other has and a label that is not blank, or the built-in ones where no list is
-- given.
pub catalog_in_force :
    (body : Value)
    → validate_close_discipline body ≡ []
    → let bar = property bar_key body in
      let reasons = property reasons_key body in
      let d = close_discipline body in
      (((bar ≡ undefined) × (d.min_notes_chars ≡ 40))
        ⊎ ((n : ℕ) × (bar ≡ number (whole (pos n))) × (n ≤ 4000) × (d.min_notes_chars ≡ n)))
      × (((reasons ≡ undefined) × (d.reasons ≡ default_time_exemption_reasons))
          ⊎ ((xs : Items) × (reasons ≡ array xs)
              × Reads (items xs) d.reasons
              × Distinct (keys_of d.reasons)))
unfolding validate_close_discipline close_discipline
catalog_in_force body h = elim (Bool-cases (is_object body)) [
  | inr n ↦ absurd (let e = rw n at h in cc)
  | inl y ↦
      let bar = property bar_key body in
      let (a, b) =
        (report-append-eq-nil (not (is_undefined bar) && not (is_whole_within 0 4000 bar)) bad_bar
            _).0
          (rw y at h) in
      (bar_in_force bar a, list_in_force (property reasons_key body) b)
]
