-- ===== src/Sla/Policy/Accepted.antt =====
-- src/domain/sla/policy.ts: which policies are accepted, said without the loops.
use xms_backend.Prelude.Int.{pos, negsuc}
use xms_backend.Prelude.Json.{
  Number, whole, broken, not_finite, Value, undefined, null, boolean, number, string, array, object,
  entries, get, has, property, is_record,
}
use xms_backend.Prelude.Texts.{is_snake_case}
use xms_backend.Prelude.{
  ℕ, ◌≤◌, String, Bool, true, false, not, ◌||◌, List, [], ◌∷◌, ◌++◌, report, is_nil, contains, ltb,
  if◌then◌else◌, string_key, ◌≡◌, ◌↔◌, ◌⊎◌, inl, inr, refl, ap, arith, All, Memᴰ, append-eq-nil,
  report-eq-nil, report-append-eq-nil, not-eq-false, contains→mem, mem→contains,
}
use xms_backend.Sla.Policy.{
  PolicyProblem, no_priorities, no_priorities_object, bad_type, no_types, no_targets, bad_calendar,
  body_no_object, unknown_priority, no_target_object, bad_response, bad_resolution,
  response_after_resolution, priority_keys, max_minutes, is_minutes, is_bad_calendar, fields_of,
  is_later, target_problems, priority_problems, type_problems, types_problems, validate_sla_policy,
}

-- What is under a key of a target: null, or a number of minutes of up to a year.
abbrev pub IsMinutes : Value → Type 0
IsMinutes v = (v ≡ null) ⊎ ((n : ℕ) × (v ≡ number (whole (pos n))) × (1 ≤ n) × (n ≤ max_minutes))

abbrev floor_of : Value → ℕ
floor_of (number (whole (pos n))) = n
floor_of _ = 0

is_minutes_iff : (v : Value) → (is_minutes v ≡ true) ↔ IsMinutes v
is_minutes_iff null = (λ _. inl refl, λ _. refl)
is_minutes_iff (number (whole (pos n))) = (
  λ h. inr (n, refl, ground arith, ground arith),
  λ h. elim h [
    | inl e ↦ cc
    | inr (m, e, low, high) ↦ let same : n ≡ m = ap floor_of e in ground arith
  ],
)
is_minutes_iff (number (whole (negsuc n))) = (λ h. cc, λ h. elim h [ inl e ↦ cc | inr m ↦ cc ])
is_minutes_iff (number (broken z)) = (λ h. cc, λ h. elim h [ inl e ↦ cc | inr m ↦ cc ])
is_minutes_iff (number not_finite) = (λ h. cc, λ h. elim h [ inl e ↦ cc | inr m ↦ cc ])
is_minutes_iff undefined = (λ h. cc, λ h. elim h [ inl e ↦ cc | inr m ↦ cc ])
is_minutes_iff (boolean b) = (λ h. cc, λ h. elim h [ inl e ↦ cc | inr m ↦ cc ])
is_minutes_iff (string t) = (λ h. cc, λ h. elim h [ inl e ↦ cc | inr m ↦ cc ])
is_minutes_iff (array xs) = (λ h. cc, λ h. elim h [ inl e ↦ cc | inr m ↦ cc ])
is_minutes_iff (object fs) = (λ h. cc, λ h. elim h [ inl e ↦ cc | inr m ↦ cc ])

-- Everything under a test passes, or the one problem of the test is reported.
guarded-eq-nil :
    (b : Bool) (p : PolicyProblem) (rest : List PolicyProblem)
    → ((if b then rest else p ∷ []) ≡ []) ↔ ((b ≡ true) × (rest ≡ []))
guarded-eq-nil true p rest = (λ h. (refl, h), λ h. h.1)
guarded-eq-nil false p rest = (λ h. cc, λ h. cc)

both_iff : (a b : Bool) → ((not a || not b) ≡ false) ↔ ((a ≡ true) × (b ≡ true))
both_iff a b = ground arith

module _ (exceeds : Number → Number → Bool) where
  -- One target: a known priority, an object with both keys, and the response no later than the
  -- resolution where both are minutes.
  pub record IsTarget (e : String × Value) : Type 0 where
    pub known : Memᴰ e.0 priority_keys
    pub is_object : is_record e.1 ≡ true
    pub has_response : has "response_minutes" (fields_of e.1) ≡ true
    pub response : IsMinutes (get "response_minutes" (fields_of e.1))
    pub has_resolution : has "resolution_minutes" (fields_of e.1) ≡ true
    pub resolution : IsMinutes (get "resolution_minutes" (fields_of e.1))
    pub ordered :
        (a b : ℕ)
        → get "response_minutes" (fields_of e.1) ≡ number (whole (pos a))
        → get "resolution_minutes" (fields_of e.1) ≡ number (whole (pos b))
        → a ≤ b

  pub record IsType (e : String × Value) : Type 0 where
    pub is_key : is_snake_case e.0 ≡ true
    pub is_object : is_record e.1 ≡ true
    pub some_priority : is_nil (entries (fields_of e.1)) ≡ false
    pub each : All IsTarget (entries (fields_of e.1))

  pub record IsPolicy (body : Value) : Type 0 where
    pub is_object : is_record body ≡ true
    pub calendar : is_bad_calendar (property "calendar" body) ≡ false
    pub has_targets : is_record (property "targets" body) ≡ true
    pub some_type : is_nil (entries (fields_of (property "targets" body))) ≡ false
    pub each : All IsType (entries (fields_of (property "targets" body)))

  module _ (exceeds_whole : (a b : ℕ) → exceeds (whole (pos a)) (whole (pos b)) ≡ ltb b a) where
    is_later_iff :
        (v w : Value)
        → IsMinutes v
        → IsMinutes w
        → (is_later exceeds v w ≡ false)
          ↔ ((a b : ℕ) → v ≡ number (whole (pos a)) → w ≡ number (whole (pos b)) → a ≤ b)
    is_later_iff v w (inl n) mw = rw n (λ _ a b p q. cc, λ _. refl)
    is_later_iff v w (inr (a, e, low, high)) (inl n) = rw (n, e) (λ _ a b p q. cc, λ _. refl)
    is_later_iff v w (inr (a, e, low, high)) (inr (b, f, least, most)) =
        let step = exceeds_whole a b in
        rw (e, f)
          (
            λ h c d p q.
                let sa : a ≡ c = ap floor_of p in
                let sb : b ≡ d = ap floor_of q in
                let g : ltb b a ≡ false = rw step at h in ground arith,
            λ h. let le = h a b refl refl in rw step (ground arith),
          )

    target_problems_iff :
        (type : String) (e : String × Value)
        → (target_problems exceeds type e.0 e.1 ≡ []) ↔ IsTarget e
    unfolding target_problems
    target_problems_iff type e =
        let fs = fields_of e.1 in
        let response = get "response_minutes" fs in
        let resolution = get "resolution_minutes" fs in
        let early = not (has "response_minutes" fs) || not (is_minutes response) in
        let late = not (has "resolution_minutes" fs) || not (is_minutes resolution) in
        let order =
          report (is_later exceeds response resolution) (response_after_resolution type e.0) in
        let third =
          report-eq-nil (is_later exceeds response resolution)
            (response_after_resolution type e.0) in
        let second = report-append-eq-nil late (bad_resolution type e.0) order in
        let first =
          report-append-eq-nil early (bad_response type e.0)
            (report late (bad_resolution type e.0) ++ order) in
        let inner = guarded-eq-nil (is_record e.1) (no_target_object type e.0) (
          report early (bad_response type e.0)
          ++ (report late (bad_resolution type e.0) ++ order)) in
        let outer =
          report-append-eq-nil (not (contains priority_keys e.0)) (unknown_priority type e.0) (
            if is_record e.1
            then report early (bad_response type e.0)
              ++ (report late (bad_resolution type e.0) ++ order)
            else no_target_object type e.0 ∷ []) in
        let first_given = both_iff (has "response_minutes" fs) (is_minutes response) in
        let second_given = both_iff (has "resolution_minutes" fs) (is_minutes resolution) in
        (
          λ h.
              let (k, g) = outer.0 h in
              let (o, l) = inner.0 g in
              let (a, m) = first.0 l in
              let (b, n) = second.0 m in
              let (ha, ma) = first_given.0 a in
              let (hb, mb) = second_given.0 b in
              let good = (is_minutes_iff response).0 ma in
              let sound = (is_minutes_iff resolution).0 mb in
              record {
                known = contains→mem priority_keys e.0 ((not-eq-false _).0 k);
                is_object = o;
                has_response = ha;
                response = good;
                has_resolution = hb;
                resolution = sound;
                ordered = (is_later_iff response resolution good sound).0 (third.0 n);
              },
          λ t. outer.1 (
            (not-eq-false _).1 (mem→contains priority_keys t.known),
            inner.1 (
              t.is_object,
              first.1 (
                first_given.1 (t.has_response, (is_minutes_iff response).1 t.response),
                second.1 (
                  second_given.1 (t.has_resolution, (is_minutes_iff resolution).1 t.resolution),
                  third.1 ((is_later_iff response resolution t.response t.resolution).1 t.ordered),
                ),
              ),
            ),
          ),
        )

    priority_problems_iff :
        (type : String) (es : List (String × Value))
        → (priority_problems exceeds type es ≡ []) ↔ All IsTarget es
    unfolding priority_problems
    priority_problems_iff type [] = (λ _. tt, λ _. refl)
    priority_problems_iff type (e ∷ es) =
        let split =
          append-eq-nil (target_problems exceeds type e.0 e.1)
            (priority_problems exceeds type es) in
        let here = target_problems_iff type e in
        let ih = priority_problems_iff type es in
        (λ h. let (f, r) = split.0 h in (here.0 f, ih.0 r), λ h. split.1 (here.1 h.0, ih.1 h.1))

    type_problems_iff : (e : String × Value) → (type_problems exceeds e.0 e.1 ≡ []) ↔ IsType e
    unfolding type_problems
    type_problems_iff e =
        let es = entries (fields_of e.1) in
        let rest = report (is_nil es) (no_priorities e.0) ++ priority_problems exceeds e.0 es in
        let outer =
          report-append-eq-nil (not (is_snake_case e.0)) (bad_type e.0)
            (if is_record e.1 then rest else no_priorities_object e.0 ∷ []) in
        let inner = guarded-eq-nil (is_record e.1) (no_priorities_object e.0) rest in
        let counted =
          report-append-eq-nil (is_nil es) (no_priorities e.0) (priority_problems exceeds e.0 es) in
        let each = priority_problems_iff e.0 es in
        (
          λ h.
              let (k, g) = outer.0 h in
              let (o, l) = inner.0 g in
              let (c, m) = counted.0 l in
              record {
                is_key = (not-eq-false _).0 k;
                is_object = o;
                some_priority = c;
                each = each.0 m;
              },
          λ t. outer.1 (
            (not-eq-false _).1 t.is_key,
            inner.1 (t.is_object, counted.1 (t.some_priority, each.1 t.each)),
          ),
        )

    types_problems_iff :
        (es : List (String × Value)) → (types_problems exceeds es ≡ []) ↔ All IsType es
    unfolding types_problems
    types_problems_iff [] = (λ _. tt, λ _. refl)
    types_problems_iff (e ∷ es) =
        let split = append-eq-nil (type_problems exceeds e.0 e.1) (types_problems exceeds es) in
        let here = type_problems_iff e in
        let ih = types_problems_iff es in
        (λ h. let (f, r) = split.0 h in (here.0 f, ih.0 r), λ h. split.1 (here.1 h.0, ih.1 h.1))

    -- Where `exceeds` is the order on whole numbers, a body is accepted exactly when it is an object
    -- whose calendar, if any, is a text with something in it, and whose targets name a ticket type,
    -- each by a key and with a priority, each of which has both its minutes, null or from one to
    -- those of a year, and the response no later than the resolution.
    pub validate_sla_policy_iff :
        (body : Value) → (validate_sla_policy exceeds body ≡ []) ↔ IsPolicy body
    unfolding validate_sla_policy
    validate_sla_policy_iff body =
        let targets = property "targets" body in
        let types = entries (fields_of targets) in
        let listed = report (is_nil types) no_types ++ types_problems exceeds types in
        let inner = if is_record targets then listed else no_targets ∷ [] in
        let outer =
          guarded-eq-nil (is_record body) body_no_object
            (report (is_bad_calendar (property "calendar" body)) bad_calendar ++ inner) in
        let dated =
          report-append-eq-nil (is_bad_calendar (property "calendar" body)) bad_calendar inner in
        let guarded = guarded-eq-nil (is_record targets) no_targets listed in
        let counted = report-append-eq-nil (is_nil types) no_types (types_problems exceeds types) in
        let each = types_problems_iff types in
        (
          λ h.
              let (o, g) = outer.0 h in
              let (c, l) = dated.0 g in
              let (t, m) = guarded.0 l in
              let (n, r) = counted.0 m in
              record {
                is_object = o;
                calendar = c;
                has_targets = t;
                some_type = n;
                each = each.0 r;
              },
          λ q. outer.1 (
            q.is_object,
            dated.1 (q.calendar, guarded.1 (q.has_targets, counted.1 (q.some_type, each.1 q.each))),
          ),
        )
