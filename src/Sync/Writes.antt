-- ===== src/Sync/Writes.antt =====
-- src/modules/connectors/sync.worker.ts, `push`: what a push may write to an instance.
use xms_backend.Prelude.Json.{Value}
use xms_backend.Prelude.{
  ℕ, ◌≤◌, ◌<◌, String, true, false, Option, none, some, List, [], ◌∷◌, string_key, ◌≡◌, ◌≢◌, ◌⊎◌,
  refl, sym, subst,
}
use xms_backend.Sync.Calls.{
  Failure, Result, ok, throws, Call, read_record, write_journal, upload_file, update_record, Push,
  pure, call, or_raise, then_push, ◌>>=◌, Ticket, Message, Attachment, World,
}
use xms_backend.Sync.Files.{attachment_id, attachment_of}
use xms_backend.Sync.Messages.{journal_element, element_of, journal_text, message_id}
use xms_backend.Sync.Outbound.{Store, Instance, OutboundRow, Kind, comment, work_note}
use xms_backend.Sync.Repository.{journal_link_exists_for_xms, attachment_link_exists_for_xms}
use xms_backend.Sync.Push.{loaded}

module _ {A B : Type 0} where
  pub then_silent :
      (r : Result A) (f : A → Push B) (P : List Call → Type 0)
      → P []
      → ((a : A) → P (f a).0)
      → P (then_push [] r f).0
  then_silent (ok a) f P none_made next = next a
  then_silent (throws e) f P none_made next = none_made

  -- What makes no call leaves the calls to what follows.
  pub silent->>= :
      (p : Push A) (f : A → Push B) (P : List Call → Type 0)
      → p.0 ≡ []
      → P []
      → ((a : A) → P (f a).0)
      → P (p >>= f).0
  silent->>= p f P silent none_made next =
      subst (λ calls. P (then_push calls p.1 f).0) (sym silent) (then_silent p.1 f P none_made next)

  -- A call after which nothing is called.
  pub call-pure : (c : Call) (r : Result A) (f : A → B) → (call c r >>= λ a. pure (f a)).0 ≡ c ∷ []
  call-pure c (ok a) f = refl
  call-pure c (throws e) f = refl

pub or_raise-silent : {A : Type 0} (o : Option A) (e : Failure) → (or_raise o e).0 ≡ []
or_raise-silent none e = refl
or_raise-silent (some a) e = refl

pub loaded-silent :
    {A : Type 0} (o : Option String) (load : String → Result A) → (loaded o load).0 ≡ []
loaded-silent none load = refl
loaded-silent (some id) load =
    then_silent (load id) (λ a. pure (some a)) (λ calls. calls ≡ []) refl (λ a. refl)

abbrev pub event_of : Kind → String
event_of comment = "comment.created"
event_of work_note = "work_note.created"

module _ (to_text : Value → String) (world : World) (now : ℕ) (instance : Instance)
    (row : OutboundRow) where
  -- The file that a row names, which may leave.
  pub record IsOpenFile (s : Store) (file : Attachment) : Type 0 where
    pub event : row.event ≡ "attachment.scanned"
    pub named :
        attachment_of to_text world now instance row (attachment_id to_text world now instance row)
        ≡ some file
    pub clean : file.scan_state ≡ "clean"
    pub public : file.visibility ≡ "public"
    pub not_sent : attachment_link_exists_for_xms instance.id file.id s.attachment_links ≡ false

  -- The message that a row names, which may leave.
  pub record IsOwnMessage (s : Store) (kind : Kind) (message : Message) : Type 0 where
    pub event : row.event ≡ event_of kind
    pub named : world.message kind (message_id to_text world now instance row) ≡ some message
    pub own : message.source ≢ "sync"
    pub not_sent :
        journal_link_exists_for_xms instance.id kind
          (message_id to_text world now instance row)
          s.journal_links
        ≡ false

  -- What a push may write, call by call.
  abbrev pub MayWrite : Store → Call → Type 0
  MayWrite s read_record = ⊥
  MayWrite s (write_journal element text) =
      ((kind : Kind) × (message : Message) × (ticket : Ticket) × IsOwnMessage s kind message
        × (element ≡ element_of kind instance.journal_public)
        × (text ≡ journal_text message.id ticket message.author_name message.body))
      ⊎ ((file : Attachment) × IsOpenFile s file
          × (instance.attachment_limit_bytes < file.size_bytes)
          × (instance.links_over_limit ≡ true)
          × (element ≡ journal_element instance.journal_public))
  MayWrite s (upload_file id) =
      (file : Attachment) × IsOpenFile s file
      × (file.size_bytes ≤ instance.attachment_limit_bytes)
      × (id ≡ file.id)
  MayWrite s (update_record body) =
      (body ≢ [])
      × (row.event ≢ "comment.created")
      × (row.event ≢ "work_note.created")
      × (row.event ≢ "attachment.scanned")

  -- No call, or one that may be made.
  abbrev pub WritesOnce : Store → List Call → Type 0
  WritesOnce s calls = (calls ≡ []) ⊎ ((c : Call) × (calls ≡ c ∷ []) × MayWrite s c)
