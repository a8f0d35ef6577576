-- ===== src/Sync/Failures.antt =====
-- src/modules/connectors/sync.worker.ts, `deliverOne`: what a delivery that throws leaves behind.
use xms_backend.Prelude.Json.{Value}
use xms_backend.Prelude.{
  ℕ, suc, ◌+◌, ◌≤◌, ◌<◌, String, true, some, List, [], ◌∷◌, ◌++◌, leb, ◌≡◌, ◌⊎◌, inl, inr, refl, ap,
  arith, Bool-cases, leb→le, ◌||◌, nat_beq, ◌↔◌, ◌≢◌,
}
use xms_backend.Sync.Calls.{
  bad_request, conflicting, not_found, snow_error, unexpected, Failure, describe, is_terminal,
  is_unauthorised, throws, Call, World,
}
use xms_backend.Sync.Delivery.{
  fails, retries, Delivery, set_given_up, set_retry, doubt_credential, dead_letter_of, give_up,
  try_later, settle_failure, next_attempt, on_failure, conclude, find_instance, deliver_fresh,
  deliver_one,
}
use xms_backend.Sync.Outbound.{Store, Instance, OutboundRow, DeadLetter}
use xms_backend.Sync.Repository.{touch_instance, settle_outbound, update_rows, is_armed}
use xms_backend.Sync.Ownership.{outbound_next_attempt_lem}
use xms_backend.Sync.Push.{push}
use xms_backend.Sync.Rules.{classify_http_status, due, given_up}

-- An error that no further attempt can mend: a refusal of the request, or an answer of ServiceNow other than
-- too many requests, a server error and no answer.
abbrev pub IsFinal : Failure → Type 0
IsFinal (bad_request text) = Unit
IsFinal (conflicting text) = Unit
IsFinal (not_found text) = Unit
IsFinal (snow_error status text) = (status ≢ 429) × (status < 500) × (status ≢ 0)
IsFinal (unexpected text) = ⊥

is_terminal_iff : (e : Failure) → (is_terminal e ≡ true) ↔ IsFinal e
unfolding is_terminal classify_http_status
is_terminal_iff (bad_request text) = (λ h. tt, λ h. refl)
is_terminal_iff (conflicting text) = (λ h. tt, λ h. refl)
is_terminal_iff (not_found text) = (λ h. tt, λ h. refl)
is_terminal_iff (unexpected text) = (λ h. cc, λ h. absurd h)
is_terminal_iff (snow_error status text) =
    elim (Bool-cases (nat_beq status 429 || leb 500 status || nat_beq status 0)) [
      | inl t ↦ rw t (λ h. cc, λ (a, b, c). absurd (ground arith))
      | inr f ↦ rw f (
        λ h. ((λ q. absurd (ground arith)), ground arith, (λ q. absurd (ground arith))),
        λ h. refl,
      )
    ]

-- The tables that only a push writes, as they were.
pub record IsUndone (before after : Store) : Type 0 where
  pub links : after.links ≡ before.links
  pub journal_links : after.journal_links ≡ before.journal_links
  pub attachment_links : after.attachment_links ≡ before.attachment_links
  pub next_id : after.next_id ≡ before.next_id

-- A row that is given up.
pub record IsGivenUp (row : OutboundRow) (e : Failure) (before : Store) (d : Delivery)
    : Type 0 where
  pub result : d.result ≡ fails
  pub rows :
      d.store.rows ≡ update_rows row.id (set_given_up (suc row.attempts) (describe e)) before.rows
  pub letter :
      (l : DeadLetter) × (d.store.dead_letters ≡ before.dead_letters ++ l ∷ [])
      × (l.outbound_id ≡ row.id)
      × (l.error ≡ describe e)
      × (l.attempts ≡ suc row.attempts)
  pub undone : IsUndone before d.store

-- A row that is tried again.
pub record IsRetried (now : ℕ) (row : OutboundRow) (e : Failure) (before : Store) (d : Delivery)
    : Type 0 where
  pub result : d.result ≡ retries
  pub next : ℕ
  pub waits : (now + 5000 ≤ next) × (next ≤ now + 600000)
  pub rows :
      d.store.rows ≡ update_rows row.id (set_retry (suc row.attempts) next (describe e)) before.rows
  pub no_letter : d.store.dead_letters ≡ before.dead_letters
  pub undone : IsUndone before d.store

-- The next attempt after a failure.
next_attempt_cases :
    (e : Failure) (attempts now : ℕ)
    → (IsFinal e ⊎ (4 ≤ attempts)) × (next_attempt e (suc attempts) now ≡ given_up)
      ⊎ ((¬ IsFinal e)
          × (attempts < 4)
          × ((t : ℕ) × (next_attempt e (suc attempts) now ≡ due t)
              × (now + 5000 ≤ t)
              × (t ≤ now + 600000)))
next_attempt_cases e attempts now =
    let law = outbound_next_attempt_lem (suc attempts) now (omega arith) in
    elim (Bool-cases (is_terminal e)) [
      | inl t ↦ inl (inl ((is_terminal_iff e).0 t), rw t refl)
      | inr f ↦ elim (Bool-cases (leb 4 attempts)) [
        | inl many ↦
            let le : 4 ≤ attempts = leb→le 4 attempts many in
            inl (inr le, rw f (law.1 (omega arith)))
        | inr few ↦
            let lt : attempts < 4 = ground arith in
            let (t, q, a, b, c) = law.0 (omega arith) in
            let open_yet : ¬ IsFinal e = λ final. let t' = (is_terminal_iff e).1 final in cc in
            inr (open_yet, lt, (t, rw f q, a, b))
      ]
    ]

doubt_credential-keeps :
    (instance : Instance) (e : Failure) (s : Store)
    → IsUndone s (doubt_credential instance e s)
      × ((doubt_credential instance e s).rows ≡ s.rows)
      × ((doubt_credential instance e s).dead_letters ≡ s.dead_letters)
unfolding doubt_credential touch_instance
doubt_credential-keeps instance e s =
    let same : IsUndone s s = record {
      links = refl;
      journal_links = refl;
      attachment_links = refl;
      next_id = refl;
    } in
    elim (Bool-cases (is_unauthorised e)) [
      | inl t ↦ rw t (
        record { links = refl; journal_links = refl; attachment_links = refl; next_id = refl },
        refl,
        refl,
      )
      | inr f ↦ rw f (same, refl, refl)
    ]

pub on_failure_cases :
    (now : ℕ) (instance : Instance) (row : OutboundRow) (e : Failure) (s : Store)
    → (IsFinal e ⊎ (4 ≤ row.attempts)) × IsGivenUp row e s (on_failure now instance row e s)
      ⊎ ((¬ IsFinal e)
          × (row.attempts < 4)
          × IsRetried now row e s (on_failure now instance row e s))
unfolding on_failure settle_failure give_up try_later touch_instance settle_outbound
on_failure_cases now instance row e s =
    let (undone, rows, letters) = doubt_credential-keeps instance e s in
    elim (next_attempt_cases e row.attempts now) [
      | inl (why, q) ↦ inl (
        why,
        rw q (record {
          result = refl;
          rows = ap (update_rows row.id (set_given_up (suc row.attempts) (describe e))) rows;
          letter = (
            dead_letter_of instance row e,
            ap (λ ls. ls ++ dead_letter_of instance row e ∷ []) letters,
            refl,
            refl,
            refl,
          );
          undone = record {
            links = undone.links;
            journal_links = undone.journal_links;
            attachment_links = undone.attachment_links;
            next_id = undone.next_id;
          };
        }),
      )
      | inr (f, few, (t, q, low, high)) ↦ inr (
        f,
        few,
        (rw q (record {
          result = refl;
          next = t;
          waits = (low, high);
          rows = ap (update_rows row.id (set_retry (suc row.attempts) t (describe e))) rows;
          no_letter = letters;
          undone = record {
            links = undone.links;
            journal_links = undone.journal_links;
            attachment_links = undone.attachment_links;
            next_id = undone.next_id;
          };
        })),
      )
    ]

-- A delivery to an armed instance whose push throws is either given up or tried again, and which of
-- the two is a matter of the error and of the attempts so far. It is given up after a refusal of the
-- request, after an answer of ServiceNow other than too many requests, a server error and no answer,
-- or at the fifth attempt: then exactly one dead letter with the error and the attempts is added. Else
-- the row stays pending for a time from five seconds to ten minutes later and no letter is added.
-- Either way the row's attempts go up by one, the calls that the push made stay made, and what it
-- wrote to the links of records, messages and files is undone.
pub deliver_one-throws :
    (to_text : Value → String) (world : World) (now : ℕ) (instance fresh : Instance)
    (row : OutboundRow) (s : Store) (calls : List Call) (e : Failure)
    → find_instance instance.id s.instances ≡ some fresh
    → is_armed fresh ≡ true
    → push to_text world now fresh row s ≡ (calls, throws e)
    → ((deliver_one to_text world now instance row s).0 ≡ calls)
      × ((IsFinal e ⊎ (4 ≤ row.attempts))
            × IsGivenUp row e s (deliver_one to_text world now instance row s).1
          ⊎ ((¬ IsFinal e)
              × (row.attempts < 4)
              × IsRetried now row e s (deliver_one to_text world now instance row s).1))
unfolding deliver_one deliver_fresh conclude
deliver_one-throws to_text world now instance fresh row s calls e found armed thrown =
    rw (found, armed, thrown) (refl, on_failure_cases now instance row e s)
