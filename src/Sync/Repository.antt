-- ===== src/Sync/Repository.antt =====
-- src/modules/connectors/connectors.repository.ts: the statements of the outbound half.
use xms_backend.Prelude.Json.{Value}
use xms_backend.Prelude.{
  ℕ, suc, String, Bool, false, not, ◌&&◌, ◌||◌, Option, none, some, List, [], ◌∷◌, ◌++◌, map,
  filter, take, any, find, ltb, leb, nat_beq, ◌==◌, if◌then◌else◌, string_key, number_key,
}
use xms_backend.Sync.Rules.{is_bidirectional}
use xms_backend.Sync.Outbound.{
  OutboundRow, Link, Instance, Kind, JournalLink, AttachmentLink, Run, DeadLetter, Store,
  is_pending, same_kind, pending,
}

-- `select * ... where instance_id = $1 and ticket_id = $2`
unfoldable pub link_by_ticket : String → String → List Link → Option Link
link_by_ticket instance_id ticket_id links =
    find (λ (l : Link). l.instance_id == instance_id && l.ticket_id == ticket_id) links

unfoldable pub journal_link_exists_for_xms : String → Kind → String → List JournalLink → Bool
journal_link_exists_for_xms instance_id kind xms_id links =
    any
      (λ (l : JournalLink).
        (l.instance_id == instance_id && same_kind l.kind kind) && l.xms_id == xms_id)
      links

unfoldable pub attachment_link_exists_for_xms : String → String → List AttachmentLink → Bool
attachment_link_exists_for_xms instance_id attachment_id links =
    any (λ (l : AttachmentLink). l.instance_id == instance_id && l.attachment_id == attachment_id)
      links

abbrev pub insert_run : Run → Store → Store
insert_run run s = record s { runs = s.runs ++ run ∷ [] }

abbrev pub insert_dead_letter : DeadLetter → Store → Store
insert_dead_letter letter s = record s { dead_letters = s.dead_letters ++ letter ∷ [] }

-- The unique indexes of the two tables, on whose conflicts an insert does nothing.
abbrev pub journal_conflicts : JournalLink → JournalLink → Bool
journal_conflicts link l =
    l.instance_id == link.instance_id
    && (l.external_sys_id == link.external_sys_id
        || (same_kind l.kind link.kind && l.xms_id == link.xms_id))

abbrev pub attachment_conflicts : AttachmentLink → AttachmentLink → Bool
attachment_conflicts link l =
    l.instance_id == link.instance_id
    && (l.external_sys_id == link.external_sys_id || l.attachment_id == link.attachment_id)

unfoldable pub insert_journal_link : JournalLink → Store → Store
insert_journal_link link s =
    if any (journal_conflicts link) s.journal_links
    then s
    else record s { journal_links = s.journal_links ++ link ∷ [] }

unfoldable pub insert_attachment_link : AttachmentLink → Store → Store
insert_attachment_link link s =
    if any (attachment_conflicts link) s.attachment_links
    then s
    else record s { attachment_links = s.attachment_links ++ link ∷ [] }

-- `update acct.sync_links set ... where id = $1`
unfoldable pub touch_link : String → (Link → Link) → Store → Store
touch_link id set s = record s {
  links = map (λ (l : Link). if l.id == id then set l else l) s.links;
}

unfoldable pub touch_instance : String → (Instance → Instance) → Store → Store
touch_instance id set s = record s {
  instances = map (λ (i : Instance). if i.id == id then set i else i) s.instances;
}

unfoldable pub update_rows : ℕ → (OutboundRow → OutboundRow) → List OutboundRow → List OutboundRow
update_rows id set rows = map (λ (r : OutboundRow). if r.id == id then set r else r) rows

unfoldable pub settle_outbound : ℕ → (OutboundRow → OutboundRow) → Store → Store
unfolding update_rows
settle_outbound id set s = record s { rows = update_rows id set s.rows }

-- `reopenOutbound` at the instant that `now()` gives
unfoldable pub reopen_outbound : ℕ → ℕ → Store → Store
unfolding settle_outbound
reopen_outbound now id s =
    settle_outbound id
      (λ r. record r { status = pending; attempts = 0; next_attempt_at = now; last_error = none }) s

pub record OutboundInput : Type 0 where
  pub account_id : String
  pub instance_id : String
  pub ticket_id : String
  pub link_id : String
  pub event : String
  pub outbox_id : Option ℕ
  pub payload : Value
  pub origin : String
  pub correlation_id : String

abbrev pub same_outbox : Option ℕ → Option ℕ → Bool
same_outbox (some a) (some b) = a == b
same_outbox _ _ = false

-- The rows that the unique index ux_acct_sync_outbound_outbox finds in conflict.
abbrev pub conflicts : OutboundInput → OutboundRow → Bool
conflicts input r = r.instance_id == input.instance_id && same_outbox r.outbox_id input.outbox_id

abbrev pub new_row : ℕ → ℕ → OutboundInput → OutboundRow
new_row now id i = record {
  id = id;
  account_id = i.account_id;
  instance_id = i.instance_id;
  ticket_id = i.ticket_id;
  link_id = i.link_id;
  event = i.event;
  outbox_id = i.outbox_id;
  payload = i.payload;
  origin = i.origin;
  correlation_id = i.correlation_id;
  status = pending;
  attempts = 0;
  next_attempt_at = now;
  last_error = none;
  conflict = none;
  sent_at = none;
  created_at = now;
}

-- `insert ... on conflict (instance_id, outbox_id) where outbox_id is not null do nothing`
unfoldable pub insert_outbound : ℕ → OutboundInput → Store → Store
insert_outbound now input s =
    if any (conflicts input) s.rows
    then s
    else record s { rows = s.rows ++ new_row now s.next_id input ∷ []; next_id = suc s.next_id }

-- `order by created_at, id`
abbrev pub goes_before : OutboundRow → OutboundRow → Bool
goes_before a b =
    ltb a.created_at b.created_at || (nat_beq a.created_at b.created_at && leb a.id b.id)

unfoldable pub line_up : OutboundRow → List OutboundRow → List OutboundRow
line_up r [] = r ∷ []
line_up r (x ∷ xs) = let rest = line_up r xs in if goes_before r x then r ∷ x ∷ xs else x ∷ rest

unfoldable pub by_age : List OutboundRow → List OutboundRow
unfolding line_up
by_age [] = []
by_age (r ∷ rs) = line_up r (by_age rs)

abbrev pub is_armed : Instance → Bool
is_armed i = is_bidirectional i.mode && not i.is_tripped

abbrev pub is_due : ℕ → String → OutboundRow → Bool
is_due now instance_id r =
    r.instance_id == instance_id && is_pending r.status && leb r.next_attempt_at now

unfoldable pub claim_outbound : String → ℕ → Store → List OutboundRow
unfolding by_age
claim_outbound instance_id now s =
    if any (λ (i : Instance). i.id == instance_id && is_armed i) s.instances
    then take 50 (by_age (filter (is_due now instance_id) s.rows))
    else []
