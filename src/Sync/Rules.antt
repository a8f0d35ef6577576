-- ===== src/Sync/Rules.antt =====
-- src/domain/sync/rules.ts: which side of a link a value is taken from, what is queued and when a
-- delivery is tried again. Instants are milliseconds. `to_text` is what `String` makes of a value.
use xms_backend.Prelude.Json.{Value, undefined, null}
use xms_backend.Prelude.Texts.{trim}
use xms_backend.Prelude.{
  ℕ, zero, suc, ◌+◌, ◌*◌, String, Bool, true, false, not, ◌&&◌, ◌||◌, Option, none, some, List, ltb,
  leb, nat_beq, contains, ◌==◌, if◌then◌else◌, string_key,
}
use Prim.Native.String.{◌++◌}

-- src/domain/sync/maps.ts, `SystemOfRecord`; the constructor `none` is `nobody` here.
pub data SystemOfRecord : Type 0 where
  xms external newest merge external_at_create_then_xms nobody : SystemOfRecord

pub record ReflectionInput : Type 0 where
  pub last_outbound_at : Option ℕ
  pub last_outbound_hash : Option String
  pub sys_updated_on : ℕ
  pub inbound_hash : String
  pub tolerance_seconds : Option ℕ

abbrev pub tolerance_of : Option ℕ → ℕ
tolerance_of none = 5
tolerance_of (some s) = s

-- A hash that is null or empty is false under `!`.
abbrev pub is_given : Option String → Bool
is_given none = false
is_given (some h) = not (h == "")

abbrev pub same_hash : Option String → String → Bool
same_hash none h = false
same_hash (some g) h = h == g

abbrev pub reflects : Option ℕ → Option String → ℕ → ℕ → String → Bool
reflects none hash updated tolerance inbound = false
reflects (some at) hash updated tolerance inbound =
    is_given hash && not (ltb (at + tolerance * 1000) updated) && same_hash hash inbound

unfoldable pub is_reflection : ReflectionInput → Bool
is_reflection i =
    reflects i.last_outbound_at i.last_outbound_hash i.sys_updated_on
      (tolerance_of i.tolerance_seconds) i.inbound_hash

unfoldable pub external_changed_since : Option ℕ → ℕ → ℕ → Bool
external_changed_since none sys_updated_on tolerance_seconds = false
external_changed_since (some at) sys_updated_on tolerance_seconds =
    ltb (at + tolerance_seconds * 1000) sys_updated_on

pub record ConflictInput : Type 0 where
  pub policy : SystemOfRecord
  pub is_create : Bool
  pub xms_value : Value
  pub external_value : Value
  pub xms_updated_at : Option ℕ
  pub external_updated_at : Option ℕ

pub data ApplyReason : Type 0 where
  by_create by_external by_newest by_merge unchanged : ApplyReason

pub data SkipReason : Type 0 where
  xms_owned older by_nobody same : SkipReason

pub data ConflictDecision : Type 0 where
  apply : ApplyReason → ConflictDecision
  skip : SkipReason → ConflictDecision

-- `date?.getTime() ?? 0`
abbrev pub time_of : Option ℕ → ℕ
time_of none = 0
time_of (some t) = t

pub record OutboundConflictInput : Type 0 where
  pub policy : SystemOfRecord
  pub external_changed : Bool
  pub xms_value : Value
  pub external_value : Value
  pub xms_updated_at : Option ℕ
  pub external_updated_at : Option ℕ

pub data SendReason : Type 0 where
  uncontested send_xms_owned send_merge send_newest : SendReason

pub data HoldReason : Type 0 where
  external_owned hold_older hold_nobody hold_same : HoldReason

pub data OutboundDecision : Type 0 where
  send : SendReason → OutboundDecision
  hold : HoldReason → OutboundDecision

module _ (to_text : Value → String) where
  abbrev pub normalise : Value → String
  normalise undefined = ""
  normalise null = ""
  normalise v = trim (to_text v)

  abbrev pub same_value : Value → Value → Bool
  same_value a b = normalise a == normalise b

  -- The branches of `decideInbound` after the comparison of the values.
  unfoldable pub decide_by_policy : SystemOfRecord → Bool → Bool → ℕ → ℕ → ConflictDecision
  decide_by_policy nobody is_create same_values ext ours = skip by_nobody
  decide_by_policy external is_create same_values ext ours =
      if same_values then skip same else apply by_external
  decide_by_policy merge is_create same_values ext ours = apply by_merge
  decide_by_policy external_at_create_then_xms is_create same_values ext ours =
      if is_create then apply by_create else if same_values then skip same else skip xms_owned
  decide_by_policy xms is_create same_values ext ours =
      if is_create then apply by_create else if same_values then skip same else skip xms_owned
  decide_by_policy newest is_create same_values ext ours =
      if is_create
      then apply by_create
      else if same_values
      then skip same
      else if ltb ours ext
      then apply by_newest
      else skip older

  unfoldable pub decide_inbound : ConflictInput → ConflictDecision
  unfolding decide_by_policy
  decide_inbound i =
      decide_by_policy i.policy i.is_create (same_value i.xms_value i.external_value)
        (time_of i.external_updated_at) (time_of i.xms_updated_at)

  -- The branches of `decideOutbound` for two values that differ.
  unfoldable pub send_by_policy : SystemOfRecord → Bool → ℕ → ℕ → OutboundDecision
  send_by_policy nobody changed ours ext = hold hold_nobody
  send_by_policy external changed ours ext = hold external_owned
  send_by_policy merge changed ours ext = send send_merge
  send_by_policy newest changed ours ext =
      if not changed
      then send send_newest
      else if ltb ext ours
      then send send_newest
      else hold hold_older
  send_by_policy xms changed ours ext = send (if changed then send_xms_owned else uncontested)
  send_by_policy external_at_create_then_xms changed ours ext =
      send (if changed then send_xms_owned else uncontested)

  abbrev pub is_nobody : SystemOfRecord → Bool
  is_nobody nobody = true
  is_nobody _ = false

  unfoldable pub decide_outbound : OutboundConflictInput → OutboundDecision
  unfolding send_by_policy
  decide_outbound i =
      if is_nobody i.policy
      then hold hold_nobody
      else if same_value i.xms_value i.external_value
      then hold hold_same
      else send_by_policy i.policy i.external_changed (time_of i.xms_updated_at)
          (time_of i.external_updated_at)

pub data Mode : Type 0 where
  off ingest_only bidirectional : Mode

abbrev pub is_bidirectional : Mode → Bool
is_bidirectional bidirectional = true
is_bidirectional _ = false

pub record EnqueueInput : Type 0 where
  pub event : String
  pub origin : Option String
  pub instance_id : String
  pub mode : Mode
  pub subscribed_events : List String
  pub has_link : Bool
  pub sync_work_notes : Bool
  pub attachment_visibility : Option String

pub data EnqueueDecision : Type 0 where
  enqueue own_origin wrong_mode unsubscribed work_notes_off internal_attachment no_link :
      EnqueueDecision

abbrev pub sync_origin : String → String
sync_origin instance_id = "sync:" ++ instance_id

abbrev pub is_text : Option String → String → Bool
is_text none t = false
is_text (some s) t = s == t

unfoldable pub decide_enqueue : EnqueueInput → EnqueueDecision
decide_enqueue i =
    if is_text i.origin (sync_origin i.instance_id)
    then own_origin
    else if not (is_bidirectional i.mode)
    then wrong_mode
    else if not (contains i.subscribed_events i.event)
    then unsubscribed
    else if i.event == "work_note.created" && not i.sync_work_notes
    then work_notes_off
    else if i.event == "attachment.scanned" && not (is_text i.attachment_visibility "public")
    then internal_attachment
    else if not i.has_link
    then no_link
    else enqueue

abbrev pub max_outbound_attempts : ℕ
max_outbound_attempts = 5

-- `OUTBOUND_BACKOFF_SECONDS[Math.min(attempt, 4) - 1]`, which is undefined at no attempts.
abbrev pub backoff_seconds : ℕ → Option ℕ
backoff_seconds zero = none
backoff_seconds (suc zero) = some 5
backoff_seconds (suc (suc zero)) = some 30
backoff_seconds (suc (suc (suc zero))) = some 120
backoff_seconds (suc (suc (suc (suc n)))) = some 600

-- The instant of the next attempt, no more attempts, or a date that is not valid.
pub data NextAttempt : Type 0 where
  due : ℕ → NextAttempt
  given_up invalid_date : NextAttempt

abbrev pub next_of : ℕ → Option ℕ → NextAttempt
next_of now none = invalid_date
next_of now (some s) = due (now + s * 1000)

unfoldable pub outbound_next_attempt : ℕ → ℕ → NextAttempt
outbound_next_attempt attempt now =
    if leb max_outbound_attempts attempt then given_up else next_of now (backoff_seconds attempt)

pub data ErrorClass : Type 0 where
  retryable terminal : ErrorClass

unfoldable pub classify_http_status : ℕ → ErrorClass
classify_http_status status =
    if nat_beq status 429 || leb 500 status || nat_beq status 0 then retryable else terminal
