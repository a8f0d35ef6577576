-- ===== src/Sync/Calls.antt =====
-- src/modules/connectors/sync.worker.ts, `push`: what it reads, the calls that it makes of an instance,
-- and the errors that it throws. A push is the list of its calls with its result, since a call that
-- was made stays made when the transaction is rolled back.
use xms_backend.Prelude.Json.{Value, Fields}
use xms_backend.Prelude.{
  ℕ, String, Bool, true, false, Option, none, some, List, [], ◌∷◌, ◌++◌, nat_beq, ◌||◌,
}
use xms_backend.Sync.FieldMap.{FieldMapEntry}
use xms_backend.Sync.Outbound.{Instance, Kind}
use xms_backend.Sync.Rules.{ErrorClass, terminal, retryable, classify_http_status}
use xms_backend.Sync.StateMap.{StateMapForType}

-- The exceptions that `deliverOne` tells apart: with the code of a response, or the status of a
-- SnowError, and the text that `describe` makes of it.
pub data Failure : Type 0 where
  bad_request conflicting not_found : String → Failure
  snow_error : ℕ → String → Failure
  unexpected : String → Failure

abbrev pub describe : Failure → String
describe (bad_request text) = text
describe (conflicting text) = text
describe (not_found text) = text
describe (snow_error status text) = text
describe (unexpected text) = text

abbrev pub is_terminal_class : ErrorClass → Bool
is_terminal_class terminal = true
is_terminal_class retryable = false

unfoldable pub is_terminal : Failure → Bool
is_terminal (bad_request text) = true
is_terminal (conflicting text) = true
is_terminal (not_found text) = true
is_terminal (snow_error status text) = is_terminal_class (classify_http_status status)
is_terminal (unexpected text) = false

unfoldable pub is_unauthorised : Failure → Bool
is_unauthorised (snow_error status text) = nat_beq status 401 || nat_beq status 403
is_unauthorised _ = false

pub data Result (A : Type 0) : Type 0 where
  ok : A → Result A
  throws : Failure → Result A

pub data Call : Type 0 where
  read_record : Call
  write_journal : String → String → Call
  upload_file : String → Call
  update_record : List (String × String) → Call

abbrev pub Push : Type 0 → Type 0
Push A = List Call × Result A

module _ {A : Type 0} where
  abbrev pub pure : A → Push A
  pure a = ([], ok a)

  abbrev pub raise : Failure → Push A
  raise e = ([], throws e)

  -- A call of the instance, with what it answers.
  abbrev pub call : Call → Result A → Push A
  call c answer = (c ∷ [], answer)

  abbrev pub or_raise : Option A → Failure → Push A
  or_raise none e = raise e
  or_raise (some a) e = pure a

  abbrev pub after : List Call → Push A → Push A
  after calls p = (calls ++ p.0, p.1)

abbrev pub then_push : {A B : Type 0} → List Call → Result A → (A → Push B) → Push B
then_push calls (ok a) f = after calls (f a)
then_push calls (throws e) f = (calls, throws e)

infixl 5 ◌>>=◌
abbrev pub ◌>>=◌ : {A B : Type 0} → Push A → (A → Push B) → Push B
p >>= f = then_push p.0 p.1 f

pub record Ticket : Type 0 where
  pub id : String
  pub key : String
  pub type : String
  pub state : String
  pub updated_at : ℕ
  pub values : List (String × Value)

pub record Message : Type 0 where
  pub id : String
  pub body : String
  pub author_name : String
  pub source : String

pub record Attachment : Type 0 where
  pub id : String
  pub file_name : String
  pub content_type : String
  pub size_bytes : ℕ
  pub s3_key : String
  pub scan_state : String
  pub visibility : String

-- What `createJournal` answers: the entry's id and the record as it then reads.
pub record Written : Type 0 where
  pub entry : String
  pub after_write : Fields

-- The ServiceNow client of an instance; each call may throw.
pub record Client : Type 0 where
  pub get_record : String → String → Result (Option Fields)
  pub create_journal : String → String → String → String → Result Written
  pub upload_attachment : String → String → String → String → String → Result String
  pub update : String → String → List (String × String) → Result Fields

-- What a push reads besides the tables of the outbound half: the maps, the ticket, the messages, the
-- files and their bodies, and the client of an instance.
pub record World : Type 0 where
  pub field_map : String → Result (List FieldMapEntry)
  pub state_map : String → Result (List (String × StateMapForType))
  pub ticket : String → Result Ticket
  pub message : Kind → String → Option Message
  pub attachment : String → Option Attachment
  pub object_body : String → Result String
  pub client : Instance → Result Client
  pub from_snow_time : Value → ℕ
  pub sha256 : String → String
