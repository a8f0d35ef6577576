-- ===== src/Sync/Ownership.antt =====
-- src/domain/sync/rules.ts: the two directions of the sync beside each other, echoes of own writes, and
-- the retries of a delivery.
use xms_backend.Prelude.Json.{Value}
use xms_backend.Prelude.{
  ℕ, ◌+◌, ◌*◌, ◌≤◌, ◌<◌, suc, zero, String, Bool, true, false, Option, none, some, ltb, leb, ◌==◌,
  ==_iff, if◌then◌else◌, string_key, ◌≡◌, ◌≢◌, ◌↔◌, ◌⊎◌, inl, inr, refl, sym, ap, subst, ◌∙◌,
  some-injective, ==_false_iff, arith, Bool-cases,
}
use xms_backend.Sync.Rules.{
  SystemOfRecord, xms, external, newest, merge, external_at_create_then_xms, nobody,
  ReflectionInput, reflects, is_reflection, external_changed_since, tolerance_of, ConflictInput,
  ConflictDecision, apply, skip, OutboundConflictInput, OutboundDecision, send, hold, hold_nobody,
  hold_same, time_of, same_value, decide_by_policy, decide_inbound, send_by_policy, is_nobody,
  decide_outbound, NextAttempt, due, given_up, invalid_date, outbound_next_attempt, backoff_seconds,
}

-- One field of a linked record that both sides have changed since they last agreed.
pub record Contested : Type 0 where
  pub policy : SystemOfRecord
  pub xms_value : Value
  pub external_value : Value
  pub xms_updated_at : Option ℕ
  pub external_updated_at : Option ℕ

abbrev pub inbound_of : Contested → ConflictInput
inbound_of c = record {
  policy = c.policy;
  is_create = false;
  xms_value = c.xms_value;
  external_value = c.external_value;
  xms_updated_at = c.xms_updated_at;
  external_updated_at = c.external_updated_at;
}

abbrev pub outbound_of : Contested → OutboundConflictInput
outbound_of c = record {
  policy = c.policy;
  external_changed = true;
  xms_value = c.xms_value;
  external_value = c.external_value;
  xms_updated_at = c.xms_updated_at;
  external_updated_at = c.external_updated_at;
}

abbrev pub applies : ConflictDecision → Bool
applies (apply r) = true
applies (skip r) = false

abbrev pub sends : OutboundDecision → Bool
sends (send r) = true
sends (hold r) = false

-- What the two decisions come to for a policy, given whether the values are the same.
abbrev pub AreExclusive : SystemOfRecord → Bool → ℕ → ℕ → Bool → Bool → Type 0
AreExclusive policy same ours ext applied sent =
    (applied ≡ true → sent ≡ true → policy ≡ merge)
    × (same ≡ false
        → policy ≢ nobody
        → (applied ≡ true) ⊎ (sent ≡ true) ⊎ ((policy ≡ newest) × (ours ≡ ext)))

exclusive :
    (to_text : Value → String) (policy : SystemOfRecord) (same : Bool) (ours ext : ℕ)
    → AreExclusive policy same ours ext
        (applies (decide_by_policy to_text policy false same ext ours))
        (sends (
          if is_nobody to_text policy
          then hold hold_nobody
          else if same
          then hold hold_same
          else send_by_policy to_text policy true ours ext))
unfolding decide_by_policy send_by_policy
exclusive to_text nobody same ours ext = (λ a s. cc, λ n p. absurd (p refl))
exclusive to_text merge same ours ext = (λ a s. refl, λ n p. inl refl)
exclusive to_text external true ours ext = (λ a s. cc, λ n p. cc)
exclusive to_text external false ours ext = (λ a s. cc, λ n p. inl refl)
exclusive to_text xms true ours ext = (λ a s. cc, λ n p. cc)
exclusive to_text xms false ours ext = (λ a s. cc, λ n p. inr (inl refl))
exclusive to_text external_at_create_then_xms true ours ext = (λ a s. cc, λ n p. cc)
exclusive to_text external_at_create_then_xms false ours ext = (λ a s. cc, λ n p. inr (inl refl))
exclusive to_text newest true ours ext = (λ a s. cc, λ n p. cc)
exclusive to_text newest false ours ext = elim (Bool-cases (ltb ours ext)) [
  | inl t ↦
      let other : ltb ext ours ≡ false = ground arith in rw (t, other) (λ a s. cc, λ n p. inl refl)
  | inr f ↦ elim (Bool-cases (ltb ext ours)) [
    | inl t ↦ rw (f, t) (λ a s. cc, λ n p. inr (inl refl))
    | inr g ↦ rw (f, g) (λ a s. cc, λ n p. inr (inr (refl, ground arith)))
  ]
]

-- For a field that both sides changed after the record was created, the inbound rule takes the
-- external value and the outbound rule sends ours both at once only under the policy merge, so that
-- under every other policy the two directions do not swap the values. Where the values differ and
-- the policy names a side, one of the rules acts, unless the policy is newest and both sides changed
-- at the same instant: then neither does, and the values stay apart.
pub one_side_writes :
    (to_text : Value → String) (c : Contested)
    → AreExclusive c.policy
        (same_value to_text c.xms_value c.external_value)
        (time_of c.xms_updated_at)
        (time_of c.external_updated_at)
        (applies (decide_inbound to_text (inbound_of c)))
        (sends (decide_outbound to_text (outbound_of c)))
unfolding decide_inbound decide_outbound
one_side_writes to_text c =
    exclusive to_text c.policy (same_value to_text c.xms_value c.external_value)
      (time_of c.xms_updated_at) (time_of c.external_updated_at)

reflects_iff :
    (written : Option ℕ) (sent : Option String) (updated tolerance : ℕ) (inbound : String)
    → (reflects written sent updated tolerance inbound ≡ true) ↔ (
        (at : ℕ) × (hash : String) × (written ≡ some at)
        × (sent ≡ some hash)
        × (hash ≢ "")
        × (inbound ≡ hash)
        × (external_changed_since (some at) updated tolerance ≡ false))
unfolding external_changed_since
reflects_iff none sent updated tolerance inbound = (λ h. cc, λ h. cc)
reflects_iff (some at) none updated tolerance inbound = (λ h. cc, λ h. cc)
reflects_iff (some at) (some hash) updated tolerance inbound = (
  λ h.
      let given : (hash == "") ≡ false = ground arith in
      let early : ltb (at + tolerance * 1000) updated ≡ false = ground arith in
      let equal : (inbound == hash) ≡ true = ground arith in
      (at, hash, refl, refl, (==_false_iff hash "").0 given, (==_iff inbound hash).0 equal, early),
  λ h.
      let (a, g, p, q, n, e, l) = h in
      let given : (hash == "") ≡ false =
        (==_false_iff hash "").1 (subst (λ z. z ≢ "") (sym (some-injective hash g q)) n) in
      let early : ltb (at + tolerance * 1000) updated ≡ false =
        subst (λ z. ltb (z + tolerance * 1000) updated ≡ false) (sym (some-injective at a p)) l in
      let equal : (inbound == hash) ≡ true =
        (==_iff inbound hash).1 (e ∙ sym (some-injective hash g q)) in
      rw (given, early, equal) refl,
)

-- An inbound update is taken for the echo of our own write exactly when there was a write with a
-- hash, the update has that hash, and the record has not changed since the write under the same tolerance.
pub is_reflection_iff :
    (i : ReflectionInput)
    → (is_reflection i ≡ true) ↔ (
        (at : ℕ) × (hash : String) × (i.last_outbound_at ≡ some at)
        × (i.last_outbound_hash ≡ some hash)
        × (hash ≢ "")
        × (i.inbound_hash ≡ hash)
        × (external_changed_since (some at) i.sys_updated_on (tolerance_of i.tolerance_seconds)
            ≡ false))
unfolding is_reflection external_changed_since
is_reflection_iff i =
    reflects_iff i.last_outbound_at i.last_outbound_hash i.sys_updated_on
      (tolerance_of i.tolerance_seconds) i.inbound_hash

-- The waits after the first attempt and those after it, in seconds.
abbrev wait : ℕ → ℕ
wait n = if leb n 0 then 5 else if leb n 1 then 30 else if leb n 2 then 120 else 600

backoff_seconds-suc : (n : ℕ) → backoff_seconds (suc n) ≡ some (wait n)
backoff_seconds-suc zero = refl
backoff_seconds-suc (suc zero) = refl
backoff_seconds-suc (suc (suc zero)) = refl
backoff_seconds-suc (suc (suc (suc n))) = ap some (ground arith)

due_or_zero : NextAttempt → ℕ
due_or_zero (due t) = t
due_or_zero given_up = 0
due_or_zero invalid_date = 0

never_shorter :
    (n now later u : ℕ)
    → suc n ≤ later
    → outbound_next_attempt later now ≡ due u
    → now + wait n * 1000 ≤ u
unfolding outbound_next_attempt due_or_zero
never_shorter n now zero u le e = absurd (omega arith)
never_shorter n now (suc m) u le e = elim (Bool-cases (leb 5 (suc m))) [
  | inl t ↦ absurd (let g = rw t at e in cc)
  | inr f ↦
      let d : due (now + wait m * 1000) ≡ due u = rw (f, backoff_seconds-suc m) at e in
      let at : now + wait m * 1000 ≡ u = ap due_or_zero d in ground arith
]

-- A delivery that has been tried is tried again after a wait of between five seconds and ten minutes,
-- which never gets shorter, until it has been tried five times, and then never again.
pub outbound_next_attempt_lem :
    (attempt now : ℕ)
    → 1 ≤ attempt
    → (attempt < 5
        → (t : ℕ) × (outbound_next_attempt attempt now ≡ due t)
          × (now + 5000 ≤ t)
          × (t ≤ now + 600000)
          × ((later u : ℕ) → attempt ≤ later → outbound_next_attempt later now ≡ due u → t ≤ u))
      × (5 ≤ attempt → outbound_next_attempt attempt now ≡ given_up)
unfolding outbound_next_attempt
outbound_next_attempt_lem zero now tried = absurd (omega arith)
outbound_next_attempt_lem (suc n) now tried = (
  λ few.
      let open_now : leb 5 (suc n) ≡ false = ground arith in
      (
        now + wait n * 1000,
        rw (open_now, backoff_seconds-suc n) refl,
        ground arith,
        ground arith,
        λ later u le e. never_shorter n now later u le e,
      ),
  λ many. let shut : leb 5 (suc n) ≡ true = ground arith in rw shut refl,
)
