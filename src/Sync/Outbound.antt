-- ===== src/Sync/Outbound.antt =====
-- src/modules/connectors/connectors.repository.ts: the tables that the outbound half of the sync worker
-- reads and writes, as lists of rows in the order of their insertion. An id that the database makes is
-- the number of its row; an instant is its milliseconds. Of a run's detail the reason is kept.
use xms_backend.Prelude.Json.{Value}
use xms_backend.Prelude.{ℕ, String, Bool, true, false, Option, List, string_key, number_key}
use xms_backend.Sync.Rules.{Mode, SystemOfRecord}

pub data RowStatus : Type 0 where
  pending sent failed dead_lettered skipped : RowStatus

abbrev pub is_pending : RowStatus → Bool
is_pending pending = true
is_pending _ = false

-- What a push found contested: `conflict` of the row.
pub record Conflict : Type 0 where
  pub external_changed : Bool
  pub kept : List String
  pub dropped : List String

pub record OutboundRow : Type 0 where
  pub id : ℕ
  pub account_id : String
  pub instance_id : String
  pub ticket_id : String
  pub link_id : String
  pub event : String
  pub outbox_id : Option ℕ
  pub payload : Value
  pub origin : String
  pub correlation_id : String
  pub status : RowStatus
  pub attempts : ℕ
  pub next_attempt_at : ℕ
  pub last_error : Option String
  pub conflict : Option Conflict
  pub sent_at : Option ℕ
  pub created_at : ℕ

pub data LinkState : Type 0 where
  linked pending_external pending_xms in_conflict unlinked : LinkState

pub record Link : Type 0 where
  pub id : String
  pub instance_id : String
  pub ticket_id : String
  pub external_sys_id : String
  pub state : LinkState
  pub last_outbound_at : Option ℕ
  pub last_outbound_hash : Option String
  pub last_inbound_sys_updated_on : Option ℕ
  pub field_sor_overrides : List (String × SystemOfRecord)

pub data CredentialState : Type 0 where
  untested valid invalid : CredentialState

pub record Instance : Type 0 where
  pub id : String
  pub account_id : String
  pub connector_type : String
  pub mode : Mode
  pub is_tripped : Bool
  pub credential_state : CredentialState
  pub table_name : String
  pub active_field_map_id : Option String
  pub active_state_map_id : Option String
  pub journal_public : String
  pub sync_work_notes : Bool
  pub attachment_limit_bytes : ℕ
  pub links_over_limit : Bool
  pub clock_tolerance_seconds : ℕ
  pub last_success_at : Option ℕ
  pub last_error_at : Option ℕ
  pub last_error : Option String

pub data Kind : Type 0 where
  comment work_note : Kind

abbrev pub same_kind : Kind → Kind → Bool
same_kind comment comment = true
same_kind work_note work_note = true
same_kind _ _ = false

pub record JournalLink : Type 0 where
  pub instance_id : String
  pub kind : Kind
  pub xms_id : String
  pub external_sys_id : String

pub data FileOutcome : Type 0 where
  copied as_link left_out : FileOutcome

pub record AttachmentLink : Type 0 where
  pub instance_id : String
  pub attachment_id : String
  pub external_sys_id : String
  pub outcome : FileOutcome

pub data RunOutcome : Type 0 where
  success retried run_dead_lettered skipped_reflection skipped_policy noop : RunOutcome

pub record Run : Type 0 where
  pub instance_id : String
  pub ticket_id : String
  pub outbox_id : Option ℕ
  pub attempt : ℕ
  pub outcome : RunOutcome
  pub error_text : Option String
  pub reason : Option String

pub record DeadLetter : Type 0 where
  pub account_id : String
  pub correlation_id : String
  pub outbound_id : ℕ
  pub outbox_id : Option ℕ
  pub error : String
  pub attempts : ℕ

pub record Store : Type 0 where
  pub rows : List OutboundRow
  pub instances : List Instance
  pub links : List Link
  pub journal_links : List JournalLink
  pub attachment_links : List AttachmentLink
  pub runs : List Run
  pub dead_letters : List DeadLetter
  pub next_id : ℕ
