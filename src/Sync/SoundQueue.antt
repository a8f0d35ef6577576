-- ===== src/Sync/SoundQueue.antt =====
-- src/modules/connectors/connectors.repository.ts, the table acct.sync_outbound: what its rows are to one
-- another, and that each statement keeps it.
use xms_backend.Prelude.{
  ℕ, ◌≤◌, ◌<◌, true, Option, none, some, List, [], ◌∷◌, map, nat_beq_iff, ◌==◌, if◌then◌else◌,
  string_key, number_key, Memᴰ, Distinct, mem_of_mem-map, ◌≡◌, ◌⊎◌, inl, inr, refl, sym, ap, ap₂,
  subst, subst₂, ◌∙◌, arith, Bool-cases,
}
use xms_backend.Sync.Outbound.{Store, OutboundRow, is_pending}
use xms_backend.Sync.Repository.{update_rows, settle_outbound, reopen_outbound, same_outbox}
use xms_backend.Sync.Settled.{KeepsIdentity}

-- The attempts that a row counts are at most five, and fewer while it waits.
pub record IsSoundRow (r : OutboundRow) : Type 0 where
  pub bounded : r.attempts ≤ 5
  pub waiting : is_pending r.status ≡ true → r.attempts < 5

-- Ids are distinct and below the next one, and no two rows are of one instance and one outbox event.
pub record IsSoundQueue (rows : List OutboundRow) (next_id : ℕ) : Type 0 where
  pub ids : Distinct (map (λ (r : OutboundRow). r.id) rows)
  pub below : (r : OutboundRow) → Memᴰ r rows → r.id < next_id
  pub tries : (r : OutboundRow) → Memᴰ r rows → IsSoundRow r
  pub once :
      (x y : OutboundRow)
      → Memᴰ x rows
      → Memᴰ y rows
      → x.instance_id ≡ y.instance_id
      → same_outbox x.outbox_id y.outbox_id ≡ true
      → x.id ≡ y.id

abbrev pub HasSoundQueue : Store → Type 0
HasSoundQueue s = IsSoundQueue s.rows s.next_id

pub empty_queue : IsSoundQueue [] 0
empty_queue = record {
  ids = tt;
  below = λ r m. elim m [ ];
  tries = λ r m. elim m [ ];
  once = λ x y m n p q. elim m [ ];
}

-- A row after an update by id is a row from before, or a changed one.
mem-update_rows :
    (id : ℕ) (set : OutboundRow → OutboundRow) (rows : List OutboundRow) {r : OutboundRow}
    → Memᴰ r (update_rows id set rows)
    → (old : OutboundRow) × Memᴰ old rows × ((r ≡ old) ⊎ (r ≡ set old))
unfolding update_rows
mem-update_rows id set rows m =
    let (old, listed, e) = mem_of_mem-map _ rows m in
    elim (Bool-cases (old.id == id)) [
      | inl t ↦ (old, listed, inr (rw t at e))
      | inr f ↦ (old, listed, inl (rw f at e))
    ]

update_rows-ids :
    (id : ℕ) (set : OutboundRow → OutboundRow) (rows : List OutboundRow)
    → KeepsIdentity set
    → map (λ (r : OutboundRow). r.id) (update_rows id set rows)
      ≡ map (λ (r : OutboundRow). r.id) rows
unfolding update_rows
update_rows-ids id set [] keeps = refl
update_rows-ids id set (x ∷ rows) keeps =
    ap₂ (λ (h : ℕ) (t : List ℕ). h ∷ t) head (update_rows-ids id set rows keeps)
  where
    head : (if x.id == id then set x else x).id ≡ x.id
    head = elim (Bool-cases (x.id == id)) [ inl t ↦ rw t (keeps.id x) | inr f ↦ rw f refl ]

-- A changed row has the identity of the row that it was.
same_identity :
    (set : OutboundRow → OutboundRow) (r old : OutboundRow)
    → KeepsIdentity set
    → (r ≡ old) ⊎ (r ≡ set old)
    → (r.id ≡ old.id) × (r.instance_id ≡ old.instance_id) × (r.outbox_id ≡ old.outbox_id)
same_identity set r old keeps (inl e) = (
  ap (λ (z : OutboundRow). z.id) e,
  ap (λ (z : OutboundRow). z.instance_id) e,
  ap (λ (z : OutboundRow). z.outbox_id) e,
)
same_identity set r old keeps (inr e) = (
  ap (λ (z : OutboundRow). z.id) e ∙ keeps.id old,
  ap (λ (z : OutboundRow). z.instance_id) e ∙ keeps.instance_id old,
  ap (λ (z : OutboundRow). z.outbox_id) e ∙ keeps.outbox_id old,
)

pub update_rows-IsSoundQueue :
    (id next_id : ℕ) (set : OutboundRow → OutboundRow) (rows : List OutboundRow)
    → KeepsIdentity set
    → ((r : OutboundRow) → IsSoundRow (set r))
    → IsSoundQueue rows next_id
    → IsSoundQueue (update_rows id set rows) next_id
update_rows-IsSoundQueue id next_id set rows keeps sound q = record {
  ids = subst Distinct (sym (update_rows-ids id set rows keeps)) q.ids;
  below = λ r m.
      let (old, listed, how) = mem-update_rows id set rows m in
      subst (λ z. z < next_id) (sym (same_identity set r old keeps how).0) (q.below old listed);
  tries = λ r m.
      let (old, listed, how) = mem-update_rows id set rows m in
      elim how [
        | inl e ↦ subst IsSoundRow (sym e) (q.tries old listed)
        | inr e ↦ subst IsSoundRow (sym e) (sound old)
      ];
  once = λ x y m n same box.
      let (a, la, ha) = mem-update_rows id set rows m in
      let (b, lb, hb) = mem-update_rows id set rows n in
      let (ia, na, oa) = same_identity set x a keeps ha in
      let (ib, nb, ob) = same_identity set y b keeps hb in
      ia
      ∙ q.once a b la lb (sym na ∙ same ∙ nb) (subst₂ (λ u v. same_outbox u v ≡ true) oa ob box)
      ∙ sym ib;
}

pub reopen_outbound-IsSoundQueue :
    (now id : ℕ) (s : Store) → HasSoundQueue s → HasSoundQueue (reopen_outbound now id s)
unfolding reopen_outbound settle_outbound
reopen_outbound-IsSoundQueue now id s q =
    update_rows-IsSoundQueue id s.next_id _ s.rows
      (record { id = λ r. refl; instance_id = λ r. refl; outbox_id = λ r. refl })
      (λ r. record { bounded = omega arith; waiting = λ h. omega arith }) q

pub same_outbox_sym : (a b : Option ℕ) → same_outbox a b ≡ true → same_outbox b a ≡ true
same_outbox_sym none b h = cc
same_outbox_sym (some x) none h = cc
same_outbox_sym (some x) (some y) h = (nat_beq_iff y x).1 (sym ((nat_beq_iff x y).0 h))
