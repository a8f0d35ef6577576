-- ===== src/Tickets/CloseDiscipline/TimeGate.antt =====
-- src/domain/tickets/close-discipline.ts, the requirement `time_logged`, under the catalog that
-- `closeDiscipline` of src/modules/tickets/tickets.service.ts reads.
use xms_backend.Prelude.Json.{Value, string, property}
use xms_backend.Prelude.Texts.{is_empty, trim}
use xms_backend.Prelude.{
  String, true, false, some, List, [], ◌∷◌, ◌++◌, append-eq-nil, map, Memᴰ, ◌≡◌, ◌⊎◌, inl, inr,
  refl, sym, ap, subst,
}
use xms_backend.Tickets.StateMachine.Machine.{TransitionRequirement, time_logged}
use xms_backend.Tickets.CloseDiscipline.{
  TransitionInput, CloseDisciplineFacts, default_time_exemption_reasons, exemptions_of,
  allowed_exemptions, is_positive, or_no_resolution, check_requirements,
}
use xms_backend.Tickets.CloseDiscipline.Requirements.{check_requirements_iff}
use xms_backend.Tickets.CloseDiscipline.Catalog.{
  reason_of, readable, listed, or_default, reasons_key, close_discipline,
}

-- An item of a list that has a key and a label that are texts.
abbrev pub Names : Value → String → Type 0
Names v key =
    (label : String) × (property "key" v ≡ string key) × (property "label" v ≡ string label)

-- A reason is on offer: the list of the catalog names it, or names none and the reason is built in.
pub data IsOffered (body : Value) (key : String) : Type 0 where
  by_catalog :
      (v : Value) → Memᴰ v (listed (property reasons_key body)) → Names v key → IsOffered body key
  built_in :
      ((v : Value) (other : String)
        → Memᴰ v (listed (property reasons_key body))
        → Names v other
        → ⊥)
      → Memᴰ key (map (λ (r : String × String). r.0) default_time_exemption_reasons)
      → IsOffered body key

-- What a reading of an item holds, the item names.
Names-reason_of :
    (k l : Value) (key : String) (rest : List (String × String))
    → Memᴰ key (map (λ (r : String × String). r.0) (reason_of k l ++ rest))
    → ((label : String) × (k ≡ string key) × (l ≡ string label))
      ⊎ Memᴰ key (map (λ (r : String × String). r.0) rest)
Names-reason_of (string k) (string l) key rest (Memᴰ.head q) =
    inl (l, ap (λ z. string z) (sym q), refl)
Names-reason_of (string k) (string l) key rest (Memᴰ.tail m) = inr m
Names-reason_of _ _ key rest m = inr m

mem-readable :
    (vs : List Value) (key : String)
    → Memᴰ key (map (λ (r : String × String). r.0) (readable vs))
    → (v : Value) × Memᴰ v vs × Names v key
unfolding readable
mem-readable [] key m = elim m [ ]
mem-readable (v ∷ vs) key m =
    elim (Names-reason_of (property "key" v) (property "label" v) key (readable vs) m) [
      | inl named ↦ (v, Memᴰ.head refl, named)
      | inr l ↦ let (w, k, named) = mem-readable vs key l in (w, Memᴰ.tail k, named)
    ]

-- A list of which nothing can be read names nothing.
readable-eq-nil :
    (vs : List Value) → readable vs ≡ [] → (v : Value) (key : String) → Memᴰ v vs → Names v key → ⊥
unfolding readable
readable-eq-nil [] e v key m named = elim m [ ]
readable-eq-nil (x ∷ vs) e v key (Memᴰ.head q) (label, k, l) =
    let k' : property "key" x ≡ string key = subst (λ z. property "key" z ≡ string key) q k in
    let l' : property "label" x ≡ string label =
      subst (λ z. property "label" z ≡ string label) q l in
    let full = rw (k', l') at e in cc
readable-eq-nil (x ∷ vs) e v key (Memᴰ.tail m) named =
    readable-eq-nil vs
      (rest_nil (reason_of (property "key" x) (property "label" x)) (readable vs) e) v key m named
  where
    rest_nil : (xs ys : List (String × String)) → (xs ++ ys) ≡ [] → ys ≡ []
    rest_nil xs ys e = ((append-eq-nil xs ys).0 e).1

IsOffered-allowed :
    (body : Value) (key : String)
    → (rs : List (String × String)) → readable (listed (property reasons_key body)) ≡ rs
    → Memᴰ key (exemptions_of (some (map (λ (r : String × String). r.0) (or_default rs))))
    → IsOffered body key
IsOffered-allowed body key [] e m =
    IsOffered.built_in (readable-eq-nil (listed (property reasons_key body)) e) m
IsOffered-allowed body key (r ∷ rs) e m =
    let (v, l, named) =
      mem-readable (listed (property reasons_key body)) key
        (subst (λ z. Memᴰ key (map (λ (r : String × String). r.0) z)) (sym e) m) in
    IsOffered.by_catalog v l named

-- Whatever the catalog of the account says, and however malformed it is, a transition that asks for
-- logged time passes the gate only with logged time, or with a reason, white space around it aside,
-- that the list of the catalog names by texts for key and label, or that is built in where the list
-- names none.
pub gate_stays_shut :
    (body : Value) (rs : List TransitionRequirement) (input : TransitionInput)
    (facts : CloseDisciplineFacts)
    → facts.allowed_exemptions ≡ some (close_discipline body).allowed_exemptions
    → Memᴰ time_logged rs
    → check_requirements rs input facts ≡ []
    → (is_positive facts.logged_minutes ≡ true)
      ⊎ ((reason : String) × ((or_no_resolution input.resolution).time_exemption_reason
            ≡ some reason)
          × (is_empty (trim reason) ≡ false)
          × IsOffered body (trim reason))
unfolding close_discipline allowed_exemptions
gate_stays_shut body rs input facts in_force asked passed =
    elim (((check_requirements_iff rs input facts).0 passed).accounted asked) [
      | inl worked ↦ inl worked
      | inr (reason, given, shown, m) ↦ inr (
        reason,
        given,
        shown,
        IsOffered-allowed body (trim reason) (readable (listed (property reasons_key body))) refl
            (subst (λ z. Memᴰ (trim reason) (exemptions_of z)) in_force m),
      )
    ]
